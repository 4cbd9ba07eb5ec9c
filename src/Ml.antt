-- ===== src/Ml.antt =====
-- bidder-core/src/scoring/ml.rs: the scorer that runs a model. The ONNX runtime and the files are
-- parameters: what a session of type S answers to an input tensor, and what a path holds at a time.
-- The session that a batch finds, behind its lock, is that of the snapshot that its load returns: other
-- requests and reloads may have come between two batches.
pub mod Windows
pub mod Batches
pub mod Rowwise
pub mod Kept
pub mod Ready
pub mod Watcher
mod Tests
use Prim.Native.String.{String}
use rust_rtb_bidder.Base.{
  get_elem?, ℕ, zero, suc, ◌+◌, ◌-◌, ◌*◌, ◌/◌, ◌%◌, min, Bool, true, false, not, ◌&&◌, Option, none,
  some, List, [], ◌∷◌, ◌++◌, map, length, is_empty, ltb, ◌==◌, if◌then◌else◌, unwrap_or, FloatOps,
  ◌>>=◌,
}
use rust_rtb_bidder.Base.Words.{u64_mod}
use rust_rtb_bidder.Model.{AdCandidate, is_blank}
use rust_rtb_bidder.Scoring.{ScoreOps, ScoringContext, Scorer, take}
use rust_rtb_bidder.Scoring.Features.{pack_into, extract, feature_weighted}

pub record MlScorerConfig : Type 0 where
  pub model_path : String
  pub parity_path : Option String
  pub input_tensor_name : String
  pub output_tensor_name : String
  pub pool_size : ℕ
  pub max_batch : ℕ
  pub batch_pad_to : ℕ

-- True where it is `Ok`.
unfoldable pub validate : MlScorerConfig → Bool
validate cfg =
    if cfg.pool_size == 0
    then false
    else if cfg.max_batch == 0
    then false
    else if cfg.batch_pad_to == 0
    then false
    else true

pub record ModelSnapshot (S : Type 0) : Type 0 where
  pub sessions : List S
  pub next : ℕ
  pub input_name : String
  pub output_name : String

-- What the code takes from the runtime and from the files. `commit` is a session for the model that a
-- path has at a time, `run` the data of the output tensor of a name for an input tensor of a name, given
-- row by row; both are none where a step fails. The lines of a file come without the blanks around them.
pub record MlRuntime (F S : Type 0) : Type 0 where
  pub commit : String → ℕ → Option S
  pub run : S → String → String → List (List F) → Option (List F)
  pub read_lines : String → Option (List String)
  pub parse_pair : String → Option (List F × F)
  -- `(a - b).abs()`.
  pub distance : F → F → F

abbrev pub feature_count : ℕ
feature_count = 13

unfoldable pub drop : {A : Type 0} → ℕ → List A → List A
drop zero xs = xs
drop (suc n) [] = []
drop (suc n) (x ∷ xs) = drop n xs

unfoldable pub replicate : {A : Type 0} → ℕ → A → List A
replicate zero a = []
replicate (suc n) a = a ∷ replicate n a

-- `ModelSnapshot::pick`, with the counter that it leaves. There is no session only in an empty pool.
unfoldable pub pick : {S : Type 0} → ModelSnapshot S → Option S × ModelSnapshot S
pick snap = (
  get_elem? snap.sessions (snap.next % length snap.sessions),
  record snap { next = (snap.next + 1) % u64_mod },
)

-- `for (i, candidate)`: the i-th candidate gets the i-th number.
unfoldable pub with_scores : {F : Type 0} → List (AdCandidate F) → List F → List (AdCandidate F)
with_scores [] scores = []
with_scores (c ∷ cs) [] = c ∷ cs
with_scores (c ∷ cs) (s ∷ scores) = record c { score = s } ∷ with_scores cs scores

module _ {F S : Type 0} (rt : MlRuntime F S) where
  -- `ModelSnapshot::build`, at a time.
  unfoldable pub commit_all : String → ℕ → ℕ → Option (List S)
  commit_all path now zero = some []
  commit_all path now (suc n) = do
    session ← rt.commit path now
    rest ← commit_all path now n
    some (session ∷ rest)

  unfoldable pub build : MlScorerConfig → ℕ → Option (ModelSnapshot S)
  build cfg now = do
    sessions ← commit_all cfg.model_path now cfg.pool_size
    some (record {
      sessions = sessions;
      next = 0;
      input_name = cfg.input_tensor_name;
      output_name = cfg.output_tensor_name;
    })

  module _ (fl : FloatOps F) where
    -- One record of the parity file, on the first session.
    unfoldable pub check_pair : ModelSnapshot S → List F × F → Option (Unit {0})
    check_pair snap pair =
        if length pair.0 == feature_count
        then (do
          session ← get_elem? snap.sessions 0
          outputs ← rt.run session snap.input_name snap.output_name (pair.0 ∷ [])
          computed ← get_elem? outputs 0
          (if fl.gt (rt.distance computed pair.1) (fl.literal 1 10_000) then none else some tt))
        else none

    -- The loop over the lines, with the count.
    unfoldable pub check_lines : ModelSnapshot S → List String → ℕ → Option ℕ
    check_lines snap [] count = some count
    check_lines snap (line ∷ lines) count =
        let rest = check_lines snap lines count in
        let counted = check_lines snap lines (count + 1) in
        if is_blank line
        then rest
        else (rt.parse_pair line >>= λ pair. check_pair snap pair >>= λ _. counted)

    abbrev pub some_records : ℕ → Option ℕ
    some_records count = if count == 0 then none else some count

    unfoldable pub verify_parity : ModelSnapshot S → String → Option ℕ
    verify_parity snap path = do
      lines ← rt.read_lines path
      count ← check_lines snap lines 0
      some_records count

    abbrev pub parity_of : ModelSnapshot S → Option String → Option (Unit {0})
    parity_of snap none = some tt
    parity_of snap (some path) = verify_parity snap path >>= λ count. some tt

    -- `MLScorer::new_with_fallback`: the first snapshot, once the parity file agrees with it.
    unfoldable pub new_with_fallback : MlScorerConfig → ℕ → Option (ModelSnapshot S)
    new_with_fallback cfg now =
        if validate cfg
        then (do snap ← build cfg now; checked ← parity_of snap cfg.parity_path; some snap)
        else none

    module _ (sc : ScoreOps F) (cfg : MlScorerConfig) (ctx : ScoringContext) where
      -- The row of a candidate.
      unfoldable pub row_of : AdCandidate F → List F
      row_of c = pack_into (extract fl sc c ctx)

      -- The input array, padded with rows of zeros.
      unfoldable pub padded_rows : List (AdCandidate F) → List (List F)
      padded_rows cs =
          let n = length cs in
          let padded_n = (n + cfg.batch_pad_to - 1) / cfg.batch_pad_to * cfg.batch_pad_to in
          map row_of cs ++ replicate (padded_n - n) (replicate feature_count (fl.literal 0 1))

      -- The first numbers of the output, one for each candidate of a batch.
      unfoldable pub infer : ModelSnapshot S → List (AdCandidate F) → Option (List F)
      infer snap cs = do
        session ← (pick snap).0
        values ← rt.run session snap.input_name snap.output_name (padded_rows cs)
        (if ltb (length values) (length cs) then none else some (take (length cs) values))

      unfoldable pub score_batch :
          ModelSnapshot S → List (AdCandidate F) → Option (List (AdCandidate F))
      score_batch snap cs =
          if is_empty cs
          then some cs
          else (infer snap cs >>= λ values. some (with_scores cs values))

      abbrev pub reset : AdCandidate F → AdCandidate F
      reset c = record c { score = fl.literal 0 1 }

      module _ (fallback : Option (Scorer F)) (loads : ℕ → ModelSnapshot S) where
        abbrev pub delegate : Option (Scorer F) → List (AdCandidate F) → List (AdCandidate F)
        delegate none cs = cs
        delegate (some scorer) cs = scorer cs ctx

        -- The failure of a batch: every score is wiped, and the fallback gets all candidates.
        unfoldable pub fall_back : List (AdCandidate F) → List (AdCandidate F)
        fall_back cs = delegate fallback (map reset cs)

        -- The loop, from the i-th batch, which begins at `start`; none where the fuel ran out.
        unfoldable pub batches : ℕ → ℕ → ℕ → List (AdCandidate F) → Option (List (AdCandidate F))
        batches zero i start cs = none
        batches (suc fuel) i start cs =
            let stop = min (start + cfg.max_batch) (length cs) in
            let chunk = take (stop - start) (drop start cs) in
            if ltb start (length cs)
            then elim (score_batch (loads i) chunk) [
              | none ↦ some (fall_back cs)
              | some scored ↦ batches fuel (i + 1) stop (take start cs ++ (scored ++ drop stop cs))
            ]
            else some cs

  -- `MLScorer::score_all`, with fuel for as many batches as there are candidates.
  unfoldable pub ml_score_all :
      FloatOps F
      → ScoreOps F
      → MlScorerConfig
      → Option (Scorer F)
      → (ℕ → ModelSnapshot S)
      → Scorer F
  ml_score_all fl sc cfg fallback loads cs ctx =
      unwrap_or (batches fl sc cfg ctx fallback loads (suc (length cs)) 0 0 cs) cs

  -- `build_ml` of bidder-server/src/main.rs, at a time, with the snapshots that its batches will load.
  unfoldable pub build_ml :
      FloatOps F
      → ScoreOps F
      → Option MlScorerConfig
      → ℕ
      → (ℕ → ModelSnapshot S)
      → Option (Scorer F)
  build_ml fl sc ml now loads = do
    cfg ← ml
    snap ← new_with_fallback fl cfg now
    some (ml_score_all fl sc cfg (some (feature_weighted fl sc)) loads)
