-- ===== src/Server/Counted.antt =====
-- What the tracker counts over any interleaving of requests.
use rust_rtb_bidder.Base.{
  ℕ, zero, suc, ◌+◌, ◌<◌, ◌≤◌, ◌≡◌, arith, none, some, List, [], ◌∷◌, if◌then◌else◌,
}
use rust_rtb_bidder.Base.Words.{u64_mod, add64}
use rust_rtb_bidder.Hedge.Feedback.{LoadShedTracker, record_request, record_shed}
use rust_rtb_bidder.Server.{
  Step, arrives, ends, step, steps, is_unavailable, answer_of, count_answer,
}

abbrev pub arrived : Step → ℕ
arrived arrives = 1
arrived (ends answered) = 0

-- The answers of 503 that clients got.
abbrev pub refused : Step → ℕ
refused arrives = 0
refused (ends answered) = if is_unavailable (answer_of answered) then 1 else 0

abbrev pub total : (Step → ℕ) → List Step → ℕ
total f [] = 0
total f (s ∷ rest) = f s + total f rest

-- So many requests are open before the steps, and each answer is one of an open request.
abbrev pub IsTrace : ℕ → List Step → Type 0
IsTrace n [] = Unit
IsTrace n (arrives ∷ rest) = IsTrace (suc n) rest
IsTrace zero (ends answered ∷ rest) = ⊥
IsTrace (suc n) (ends answered ∷ rest) = IsTrace n rest

step-counts :
    (t : LoadShedTracker) (s : Step)
    → t.requests_total + arrived s < u64_mod
    → t.shed_total + refused s < u64_mod
    → ((step t s).requests_total ≡ t.requests_total + arrived s)
      × ((step t s).shed_total ≡ t.shed_total + refused s)
unfolding step count_answer record_request record_shed add64 answer_of is_unavailable
step-counts t arrives h k = (omega (arith, h), omega arith)
step-counts t (ends none) h k = (omega arith, omega (arith, k))
step-counts t (ends (some status)) h k = ground arith

refused-le : (s : Step) → refused s ≤ 1
refused-le arrives = omega arith
refused-le (ends answered) = ground arith

-- Every refusal answers a request.
refused-le-arrived :
    (n : ℕ) (trace : List Step) → IsTrace n trace → total refused trace ≤ n + total arrived trace
refused-le-arrived n [] h = omega arith
refused-le-arrived n (arrives ∷ rest) h = omega (arith, refused-le-arrived (suc n) rest h)
refused-le-arrived zero (ends answered ∷ rest) h = absurd h
refused-le-arrived (suc n) (ends answered ∷ rest) h =
    omega (arith, refused-le-arrived n rest h, refused-le (ends answered))

steps-counts :
    (t : LoadShedTracker) (trace : List Step)
    → t.requests_total + total arrived trace < u64_mod
    → t.shed_total + total refused trace < u64_mod
    → ((steps t trace).requests_total ≡ t.requests_total + total arrived trace)
      × ((steps t trace).shed_total ≡ t.shed_total + total refused trace)
unfolding steps
steps-counts t [] h k = (omega arith, omega arith)
steps-counts t (s ∷ rest) h k =
    let e = step-counts t s (omega (arith, h)) (omega (arith, k)) in
    let r = steps-counts (step t s) rest (omega (arith, h, e)) (omega (arith, k, e)) in
    (omega (arith, r, e), omega (arith, r, e))

-- From a new tracker, and as long as fewer than 2^64 requests arrive: however the requests overlap, the
-- tracker has counted each request that arrived once, and as shed each one whose client got 503, by the
-- timeout or by the route; so it never counts more sheds than requests.
pub steps-shed-le :
    (trace : List Step)
    → IsTrace 0 trace
    → total arrived trace < u64_mod
    → let t = steps (record { requests_total = 0; shed_total = 0 }) trace in
      (t.requests_total ≡ total arrived trace)
      × ((t.shed_total ≡ total refused trace) × (t.shed_total ≤ t.requests_total))
steps-shed-le trace h k =
    let b = refused-le-arrived 0 trace h in
    let c =
      steps-counts (record { requests_total = 0; shed_total = 0 }) trace (omega (arith, k))
        (omega (arith, k, b)) in
    (omega (arith, c), (omega (arith, c), omega (arith, c, b)))
