-- ===== src/FreqCap/Enforced.antt =====
-- What the capper and the stage enforce when Redis answers.
use Prim.Native.String.{String}
use rust_rtb_bidder.Base.{
  ℕ, suc, ◌+◌, ◌*◌, ◌≤◌, ◌≡◌, refl, sym, ap, subst, ◌∙◌, Bool, true, false, not, ◌||◌, Option, some,
  List, [], ◌∷◌, ◌++◌, map, retain, any, is_empty, length, length-append, ◌||◌, ◌==◌, unwrap_or,
  contains, if◌then◌else◌, FloatOps, arith, Bool-cases, inl, inr,
}
use rust_rtb_bidder.Base.Words.{le_i64}
use rust_rtb_bidder.Model.{AdCandidate}
use rust_rtb_bidder.Breaker.{CircuitBreaker, closed, allow_request, fast_path, is_closed_sync}
use rust_rtb_bidder.Hedge.{HedgeBudget, Timing, by_first, hedged_call, await_first}
use rust_rtb_bidder.Pipeline.Accounts.Paced.{
  AreDistinct, ids, keep_all, keep_skips, keep_head, drop_head,
}
use rust_rtb_bidder.Pipeline.Budget.{keep_reserved}
use rust_rtb_bidder.FreqCap.{
  Redis, Answers, CapResult, checked, keys_of, fc_key, CapWindow, day, hour, value_at, is_capped,
  verdict, results_of, conclude, call_redis, check, keep_uncapped, hedge_trigger,
}

-- The count that a store holds for a window, and whether a candidate is at one of its caps.
abbrev pub count_in : (String → Option ℕ) → String → ℕ → CapWindow → ℕ
count_in store user_id campaign_id window =
    unwrap_or (store (fc_key user_id "c" campaign_id window)) 0

module _ {F : Type 0} where
  abbrev pub is_at_cap : (String → Option ℕ) → String → AdCandidate F → Bool
  is_at_cap store user_id c =
      le_i64 c.daily_cap_imps (count_in store user_id c.campaign_id day)
      || le_i64 c.hourly_cap_imps (count_in store user_id c.campaign_id hour)

  abbrev verdicts : (String → Option ℕ) → String → List (AdCandidate F) → List CapResult
  verdicts store user_id = map (λ c.
      verdict c (count_in store user_id c.campaign_id day)
        (count_in store user_id c.campaign_id hour))

value_at-append :
    (pre rest : List (Option ℕ)) (v : Option ℕ)
    → value_at (pre ++ (v ∷ rest)) (length pre) ≡ unwrap_or v 0
value_at-append [] rest v = refl
value_at-append (x ∷ pre) rest v = value_at-append pre rest v

value_at-second :
    (pre rest : List (Option ℕ)) (v w : Option ℕ)
    → value_at (pre ++ (v ∷ w ∷ rest)) (suc (length pre)) ≡ unwrap_or w 0
value_at-second [] rest v w = refl
value_at-second (x ∷ pre) rest v w = value_at-second pre rest v w

append_two :
    (pre rest : List (Option ℕ)) (v w : Option ℕ)
    → (pre ++ (v ∷ w ∷ [])) ++ rest ≡ pre ++ (v ∷ w ∷ rest)
append_two [] rest v w = refl
append_two (x ∷ pre) rest v w = ap (λ t. x ∷ t) (append_two pre rest v w)

contains-ids :
    (rs : List CapResult) (a : ℕ)
    → any (λ r. r.campaign_id == a) rs ≡ contains (map (λ r. r.campaign_id) rs) a
contains-ids [] a = refl
contains-ids (r ∷ rs) a = λ j. (r.campaign_id == a) || contains-ids rs a j

module _ {F : Type 0} where
  -- The results are the verdicts on the store's counts, two values for each candidate.
  results_of-verdicts :
      (store : String → Option ℕ) (user_id : String) (pre : List (Option ℕ)) (i : ℕ)
      (cs : List (AdCandidate F))
      → length pre ≡ i * 2
      → results_of (pre ++ map store (keys_of user_id cs)) i cs ≡ verdicts store user_id cs
  unfolding results_of keys_of
  results_of-verdicts store user_id pre i [] h = refl
  results_of-verdicts store user_id pre i (c ∷ cs) h =
      let v = store (fc_key user_id "c" c.campaign_id day) in
      let w = store (fc_key user_id "c" c.campaign_id hour) in
      let rest = map store (keys_of user_id cs) in
      let at_day =
        subst (λ n. value_at (pre ++ (v ∷ w ∷ rest)) n ≡ unwrap_or v 0) h
          (value_at-append pre (w ∷ rest) v) in
      let at_hour : value_at (pre ++ (v ∷ w ∷ rest)) (i * 2 + 1) ≡ unwrap_or w 0 =
        subst (λ n. value_at (pre ++ (v ∷ w ∷ rest)) n ≡ unwrap_or w 0) (omega (arith, h))
          (value_at-second pre rest v w) in
      let ih =
        subst (λ t. results_of t (suc i) cs ≡ verdicts store user_id cs) (append_two pre rest v w)
          (results_of-verdicts store user_id (pre ++ (v ∷ w ∷ [])) (suc i) cs
            (omega (arith, h, length-append pre (v ∷ w ∷ [])))) in
      λ j. verdict c (at_day j) (at_hour j) ∷ ih j

  abbrev capped_ids : (String → Option ℕ) → String → List (AdCandidate F) → List ℕ
  capped_ids store user_id cs =
      map (λ r. r.campaign_id) (retain (λ r. r.capped) (verdicts store user_id cs))

  capped_among :
      (store : String → Option ℕ) (user_id : String) (cs : List (AdCandidate F)) (a : ℕ)
      → contains (ids cs) a ≡ false
      → contains (capped_ids store user_id cs) a ≡ false
  unfolding is_capped
  capped_among store user_id [] a h = refl
  capped_among store user_id (c ∷ cs) a h = elim (Bool-cases (is_at_cap store user_id c)) [
    | inl k ↦ rw k (ground (arith, capped_among store user_id cs a (ground arith)))
    | inr k ↦ rw k (capped_among store user_id cs a (ground arith))
  ]

  keep_nothing : keep_reserved {F = F} [] [] ≡ []
  unfolding keep_reserved
  keep_nothing = refl

  keep_uncapped-verdicts :
      (store : String → Option ℕ) (user_id : String) (cs : List (AdCandidate F))
      → AreDistinct cs
      → keep_reserved (capped_ids store user_id cs) cs
        ≡ retain (λ c. not (is_at_cap store user_id c)) cs
  unfolding is_capped
  keep_uncapped-verdicts store user_id [] d = keep_nothing
  keep_uncapped-verdicts store user_id (c ∷ cs) d =
      let ih = keep_uncapped-verdicts store user_id cs d.1 in
      elim (Bool-cases (is_at_cap store user_id c)) [
        | inl k ↦ rw k (
            drop_head (capped_ids store user_id cs) c cs
            ∙ keep_skips c.campaign_id (capped_ids store user_id cs) cs d.0
            ∙ ih)
        | inr k ↦ rw k (
            keep_head (capped_ids store user_id cs) c cs
              (capped_among store user_id cs c.campaign_id d.0)
            ∙ ap (λ t. c ∷ t) ih)
      ]

  filter_by_ids :
      (rs : List CapResult) (cs : List (AdCandidate F))
      → (if is_empty rs
          then cs
          else retain (λ c. not (any (λ r. r.campaign_id == c.campaign_id) rs)) cs)
        ≡ keep_reserved (map (λ r. r.campaign_id) rs) cs
  unfolding keep_reserved
  filter_by_ids [] cs = sym (keep_all cs)
  filter_by_ids (r ∷ rs) cs = λ j. retain (λ c. not (contains-ids (r ∷ rs) c.campaign_id j)) cs

  -- The stage's filter is the one for the ids of the capped results.
  keep_uncapped-keep_reserved :
      (results : List CapResult) (cs : List (AdCandidate F))
      → keep_uncapped results cs
        ≡ keep_reserved (map (λ r. r.campaign_id) (retain (λ r. r.capped) results)) cs
  unfolding keep_uncapped
  keep_uncapped-keep_reserved results cs = filter_by_ids (retain (λ r. r.capped) results) cs

-- A closed breaker, and an attempt that Redis answers before the hedge trigger and the timeout.
abbrev pub AnswersInTime : {F : Type 0} → Redis F → Answers → ℕ → Type 0
AnswersInTime s a timeout_ms =
    (s.breaker.state ≡ closed) × ((a.first_ms ≤ hedge_trigger) × (a.first_ms ≤ timeout_ms))

ended_first :
    (closed_now : Bool) (b : HedgeBudget) (t : Timing) (timeout_ms : ℕ)
    → t.cut ≡ some timeout_ms
    → t.first ≤ hedge_trigger
    → t.first ≤ timeout_ms
    → (hedged_call closed_now b t hedge_trigger).ended ≡ by_first
unfolding hedged_call await_first
ended_first closed_now b t timeout_ms c h k = ground arith

module _ {F : Type 0} (fl : FloatOps F) where
  allow_closed :
      (b : CircuitBreaker F) (now : ℕ) → b.state ≡ closed → allow_request b now ≡ (b, true)
  unfolding allow_request fast_path
  allow_closed b now h = ground arith

  called :
      (timeout_ms : ℕ) (s : Redis F) (user_id : String) (candidates : List (AdCandidate F))
      (a : Answers) (now : ℕ) (values : List (Option ℕ))
      → a.first_ms ≤ hedge_trigger
      → a.first_ms ≤ timeout_ms
      → a.first (keys_of user_id candidates) ≡ some values
      → (call_redis fl timeout_ms s user_id candidates a now).1
        ≡ checked (results_of values 0 candidates)
  unfolding call_redis conclude
  called timeout_ms s user_id candidates a now values h k e =
      let timing : Timing = record {
        first = a.first_ms;
        second = a.second_ms;
        cut = some timeout_ms;
      } in
      rw (ended_first (is_closed_sync s.breaker) s.hedge timing timeout_ms refl h k, e) refl

  answered :
      (timeout_ms : ℕ) (s : Redis F) (user_id : String) (candidates : List (AdCandidate F))
      (a : Answers) (now : ℕ) (values : List (Option ℕ))
      → AnswersInTime s a timeout_ms
      → a.first (keys_of user_id candidates) ≡ some values
      → (check fl timeout_ms s user_id candidates a now).1
        ≡ checked (results_of values 0 candidates)
  unfolding check results_of
  answered timeout_ms s user_id [] a now values h e = refl
  answered timeout_ms s user_id (c ∷ cs) a now values h e =
      rw (allow_closed s.breaker now h.0)
        (called timeout_ms s user_id (c ∷ cs) a now values h.1.0 h.1.1 e)

  -- When the breaker is closed, the first attempt answers in time with what a store holds for the
  -- keys, and the candidates are of different campaigns, the check gives results, and the stage's
  -- filter keeps exactly the candidates that are below both of their caps in the store. A candidate with
  -- a cap of zero is below it at no count, so that it is filtered before its first impression already.
  pub check_enforces_caps :
      (timeout_ms : ℕ) (s : Redis F) (user_id : String) (candidates : List (AdCandidate F))
      (a : Answers) (now : ℕ) (store : String → Option ℕ)
      → AnswersInTime s a timeout_ms
      → a.first (keys_of user_id candidates) ≡ some (map store (keys_of user_id candidates))
      → AreDistinct candidates
      → (results : List CapResult) × (((check fl timeout_ms s user_id candidates a now).1
            ≡ checked results)
          × (keep_uncapped results candidates
              ≡ retain (λ c. not (is_at_cap store user_id c)) candidates))
  check_enforces_caps timeout_ms s user_id candidates a now store h e d = (
    verdicts store user_id candidates,
    (
      answered timeout_ms s user_id candidates a now _ h e
          ∙ ap checked (results_of-verdicts store user_id [] 0 candidates refl),
      keep_uncapped-keep_reserved (verdicts store user_id candidates) candidates
          ∙ keep_uncapped-verdicts store user_id candidates d,
    ),
  )
