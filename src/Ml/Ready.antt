-- ===== src/Ml/Ready.antt =====
-- What a scorer that was constructed can rely on: its pool, and the agreement with the parity file.
use Prim.Native.String.{String}
use rust_rtb_bidder.Base.{
  get_elem?, ℕ, zero, suc, ◌+◌, ◌<◌, ◌≡◌, refl, ap, subst, ◌∙◌, ◌⊎◌, inl, inr, arith, Bool, true,
  false, Option, none, some, List, [], ◌∷◌, length, All, ◌==◌, if◌then◌else◌, FloatOps, ◌>>=◌,
  Bool-cases,
}
use rust_rtb_bidder.Model.{is_blank}
use rust_rtb_bidder.Ml.{
  MlScorerConfig, ModelSnapshot, MlRuntime, validate, commit_all, build, check_pair, check_lines,
  verify_parity, parity_of, new_with_fallback, feature_count,
}

-- The value that a step gave to what came after it.
bound :
    {A B : Type 0} (o : Option A) (f : A → Option B) (b : B)
    → (o >>= f) ≡ some b
    → (a : A) × ((o ≡ some a) × (f a ≡ some b))
bound none f b h = absurd (ground (arith, h))
bound (some a) f b h = (a, (refl, h))

if_some :
    {A : Type 0} (t : Bool) (o : Option A) (b : A)
    → (if t then o else none) ≡ some b
    → (t ≡ true) × (o ≡ some b)
if_some true o b h = (refl, h)
if_some false o b h = absurd (ground (arith, h))

unless_some :
    {A : Type 0} (t : Bool) (o : Option A) (b : A)
    → (if t then none else o) ≡ some b
    → (t ≡ false) × (o ≡ some b)
unless_some true o b h = absurd (ground (arith, h))
unless_some false o b h = (refl, h)

some_inj : {A : Type 0} (a b : A) → some a ≡ some b → a ≡ b
some_inj a b h = ground (arith, h)

pool_size_pos : (cfg : MlScorerConfig) → validate cfg ≡ true → 0 < cfg.pool_size
unfolding validate
pool_size_pos cfg h = ground arith

module _ {F S : Type 0} (rt : MlRuntime F S) (fl : FloatOps F) where
  length-commit_all :
      (path : String) (now n : ℕ) (ss : List S) → commit_all rt path now n ≡ some ss → length ss ≡ n
  unfolding commit_all
  length-commit_all path now zero ss h = ground (arith, h)
  length-commit_all path now (suc n) ss h =
      let (s, (e, k)) = bound (rt.commit path now) _ ss h in
      let (rest, (f, l)) = bound (commit_all rt path now n) _ ss k in
      ground (arith, l, length-commit_all path now n rest f)

  -- A record of the parity file agrees with a snapshot: it has as many features as a row, and the first
  -- session's first number for it is not further than the tolerance from the one expected.
  abbrev pub Agrees : ModelSnapshot S → List F × F → Type 0
  Agrees snap pair =
      (length pair.0 ≡ feature_count)
      × ((session : S) × ((get_elem? snap.sessions 0 ≡ some session)
            × ((computed : F) × (((rt.run session snap.input_name snap.output_name (pair.0 ∷ [])
                      >>= λ outputs. get_elem? outputs 0)
                    ≡ some computed)
                  × (fl.gt (rt.distance computed pair.1) (fl.literal 1 10_000) ≡ false)))))

  abbrev pub LineAgrees : ModelSnapshot S → String → Type 0
  LineAgrees snap line =
      (is_blank line ≡ true)
      ⊎ ((pair : List F × F) × ((rt.parse_pair line ≡ some pair) × Agrees snap pair))

  -- The number of lines that are records.
  unfoldable pub records : List String → ℕ
  records [] = 0
  records (line ∷ lines) = if is_blank line then records lines else records lines + 1

  check_pair-Agrees :
      (snap : ModelSnapshot S) (pair : List F × F)
      → check_pair rt fl snap pair ≡ some tt
      → Agrees snap pair
  unfolding check_pair
  check_pair-Agrees snap pair h =
      let (n, k) = if_some (length pair.0 == feature_count) _ tt h in
      let (s, (e, l)) = bound (get_elem? snap.sessions 0) _ tt k in
      let (out, (f, m)) = bound (rt.run s snap.input_name snap.output_name (pair.0 ∷ [])) _ tt l in
      let (y, (g, o)) = bound (get_elem? out 0) _ tt m in
      let (d, _) =
        unless_some (fl.gt (rt.distance y pair.1) (fl.literal 1 10_000)) (some tt) tt o in
      (ground (arith, n), (s, (e, (y, (ap (λ o. o >>= λ outputs. get_elem? outputs 0) f ∙ g, d)))))

  check_lines-Agree :
      (snap : ModelSnapshot S) (lines : List String) (count total : ℕ)
      → check_lines rt fl snap lines count ≡ some total
      → All (LineAgrees snap) lines × (total ≡ count + records lines)
  unfolding check_lines records
  check_lines-Agree snap [] count total h = (tt, ground (arith, h))
  check_lines-Agree snap (line ∷ lines) count total h = elim (Bool-cases (is_blank line)) [
    | inl b ↦
        let (a, e) = check_lines-Agree snap lines count total (rw b at h) in ((inl b, a), rw b e)
    | inr b ↦
        let (pair, (p, k)) = bound (rt.parse_pair line) _ total (rw b at h) in
        let (u, (c, l)) = bound (check_pair rt fl snap pair) _ total k in
        let (a, e) = check_lines-Agree snap lines (count + 1) total l in
        ((inr (pair, (p, check_pair-Agrees snap pair c)), a), rw b (omega (arith, e)))
  ]

  -- A parity file agrees with a snapshot: it can be read, it has a record, and every record agrees.
  abbrev pub FileAgrees : ModelSnapshot S → Option String → Type 0
  FileAgrees snap none = Unit
  FileAgrees snap (some path) =
      (lines : List String) × ((rt.read_lines path ≡ some lines)
        × ((0 < records lines) × All (LineAgrees snap) lines))

  parity_of-FileAgrees :
      (snap : ModelSnapshot S) (path : Option String)
      → parity_of rt fl snap path ≡ some tt
      → FileAgrees snap path
  unfolding verify_parity
  parity_of-FileAgrees snap none h = tt
  parity_of-FileAgrees snap (some path) h =
      let (n, (e, _)) = bound (verify_parity rt fl snap path) _ tt h in
      let (lines, (f, k)) = bound (rt.read_lines path) _ n e in
      let (count, (g, l)) = bound (check_lines rt fl snap lines 0) _ n k in
      let (a, total) = check_lines-Agree snap lines 0 count g in
      let (some_record, _) = unless_some (count == 0) (some count) n l in
      (lines, (f, (ground (arith, total, some_record), a)))

  abbrev IsPool : MlScorerConfig → ModelSnapshot S → Type 0
  IsPool cfg snap =
      (length snap.sessions ≡ cfg.pool_size)
      × ((snap.next ≡ 0)
          × ((snap.input_name ≡ cfg.input_tensor_name)
              × (snap.output_name ≡ cfg.output_tensor_name)))

  -- A scorer is only constructed from an accepted configuration, with a pool of the size that it asks
  -- for, at least one session, the counter at 0, and the names of the tensors; and only where the parity
  -- file, if one is configured, can be read, has at least one record, and every record of it has the
  -- number of features of a row and a score that the first session's does not differ from by more than
  -- the tolerance.
  pub new-FileAgrees :
      (cfg : MlScorerConfig) (now : ℕ) (snap : ModelSnapshot S)
      → new_with_fallback rt fl cfg now ≡ some snap
      → (validate cfg ≡ true)
        × ((length snap.sessions ≡ cfg.pool_size)
            × ((0 < length snap.sessions)
                × ((snap.next ≡ 0)
                    × ((snap.input_name ≡ cfg.input_tensor_name)
                        × ((snap.output_name ≡ cfg.output_tensor_name)
                            × FileAgrees snap cfg.parity_path)))))
  unfolding new_with_fallback build
  new-FileAgrees cfg now snap h =
      let (v, k) = if_some (validate cfg) _ snap h in
      let (made, (b, l)) = bound (build rt cfg now) _ snap k in
      let (u, (p, same)) = bound (parity_of rt fl made cfg.parity_path) _ snap l in
      let (ss, (c, m)) = bound (commit_all rt cfg.model_path now cfg.pool_size) _ made b in
      let pool : IsPool cfg made =
        subst (IsPool cfg) (some_inj _ made m)
          (length-commit_all cfg.model_path now cfg.pool_size ss c, (refl, (refl, refl))) in
      let q = subst (IsPool cfg) (some_inj made snap same) pool in
      (
        v,
        (
          q.0,
          (
            omega (arith, q.0, pool_size_pos cfg v),
            (
              q.1.0,
              (
                q.1.1.0,
                (
                  q.1.1.1,
                  subst (λ t. FileAgrees t cfg.parity_path) (some_inj made snap same)
                      (parity_of-FileAgrees made cfg.parity_path p),
                ),
              ),
            ),
          ),
        ),
      )
