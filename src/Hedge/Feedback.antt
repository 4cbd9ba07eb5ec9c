-- ===== src/Hedge/Feedback.antt =====
-- bidder-core/src/hedge_feedback.rs: the two trackers, and one turn of the loop that pushes the
-- load-shed rate and the latency estimate into the hedge state. The gauges, and the drift of the
-- loop's timer, which only feeds a gauge and a log line, are left out.
use rust_rtb_bidder.Base.{
  ℕ, ◌+◌, ◌≤◌, ◌<◌, ◌≡◌, refl, ap, ◌∙◌, List, [], ◌∷◌, arith, FloatOps, ltb, if◌then◌else◌,
}
use rust_rtb_bidder.Base.Words.{u64_mod, add64, saturating_sub}
use rust_rtb_bidder.Hedge.{HedgeBudget, RedisHedgeState, set_load_shed_rate, update_p95, trigger_of}

pub record LoadShedTracker : Type 0 where
  pub requests_total : ℕ
  pub shed_total : ℕ

unfoldable pub record_request : LoadShedTracker → LoadShedTracker
record_request t = record t { requests_total = add64 t.requests_total 1 }

unfoldable pub record_shed : LoadShedTracker → LoadShedTracker
record_shed t = record t { shed_total = add64 t.shed_total 1 }

unfoldable pub snapshot : LoadShedTracker → ℕ × ℕ
snapshot t = (t.requests_total, t.shed_total)

pub record RedisLatencyTracker : Type 0 where
  pub count : ℕ
  pub sum_us : ℕ

-- The duration in microseconds.
unfoldable pub record_call : RedisLatencyTracker → ℕ → RedisLatencyTracker
record_call t us = record { count = add64 t.count 1; sum_us = add64 t.sum_us us }

unfoldable pub drain : RedisLatencyTracker → RedisLatencyTracker × (ℕ × ℕ)
drain t = (record { count = 0; sum_us = 0 }, (t.count, t.sum_us))

-- So many calls of `record_request` and of `record_shed`.
unfoldable pub count_all : LoadShedTracker → ℕ → ℕ → LoadShedTracker
count_all t requests sheds = record {
  requests_total = add64 t.requests_total requests;
  shed_total = add64 t.shed_total sheds;
}

-- `count_all` is what the two methods do, one at a time.
pub count_all-record :
    (t : LoadShedTracker) (requests sheds : ℕ)
    → (count_all (record_request t) requests sheds ≡ count_all t (requests + 1) sheds)
      × (count_all (record_shed t) requests sheds ≡ count_all t requests (sheds + 1))
unfolding count_all record_request record_shed add64
count_all-record t requests sheds = (ground arith, ground arith)

-- What the loop keeps between its turns, and what it shares with the rest of the program.
pub record Feedback : Type 0 where
  pub prev_total : ℕ
  pub prev_shed : ℕ
  pub hedge : RedisHedgeState
  pub latency : RedisLatencyTracker

module _ {F : Type 0} (fl : FloatOps F) where
  unfoldable pub shed_rate : ℕ → ℕ → F
  shed_rate delta_shed delta_total =
      if ltb 0 delta_total
      then fl.div (fl.of_ℕ delta_shed) (fl.of_ℕ delta_total)
      else fl.literal 0 1

  -- `((mean_us * 1.7) / 1000.0).ceil() as u64`.
  unfoldable pub p95_estimate : ℕ → ℕ → ℕ
  p95_estimate count sum_us = fl.to_ℕ (
      fl.ceil (
        fl.div (fl.mul (fl.div (fl.of_ℕ sum_us) (fl.of_ℕ count)) (fl.literal 17 10))
          (fl.literal 1000 1)))

  unfoldable pub tick : Feedback → LoadShedTracker → Feedback
  unfolding snapshot drain saturating_sub
  tick f load_shed =
      let (cur_total, cur_shed) = snapshot load_shed in
      let rate =
        shed_rate (saturating_sub cur_shed f.prev_shed) (saturating_sub cur_total f.prev_total) in
      let shed = record f.hedge { budget = set_load_shed_rate fl f.hedge.budget rate } in
      let (drained, (count, sum_us)) = drain f.latency in
      record {
        prev_total = cur_total;
        prev_shed = cur_shed;
        hedge = if ltb 0 count then update_p95 shed (p95_estimate count sum_us) else shed;
        latency = drained;
      }

  -- One turn: the hedge budget gets the share of the requests since the last turn that were shed,
  -- the latency tracker starts again at zero, and the estimate changes only if a call was made since
  -- the last turn. The trigger stays at 8 ms or more.
  pub tick_lem :
      (f : Feedback) (t : LoadShedTracker) (requests sheds : ℕ)
      → t.requests_total ≡ f.prev_total + requests
      → t.shed_total ≡ f.prev_shed + sheds
      → ((tick f t).hedge.budget ≡ set_load_shed_rate fl f.hedge.budget (shed_rate sheds requests))
        × ((tick f t).latency ≡ record { count = 0; sum_us = 0 })
        × (f.latency.count ≡ 0 → (tick f t).hedge.p95_ms ≡ f.hedge.p95_ms)
        × (0 < f.latency.count
            → (tick f t).hedge.p95_ms ≡ p95_estimate f.latency.count f.latency.sum_us)
        × (8 ≤ trigger_of (tick f t).hedge)
  unfolding tick update_p95 trigger_of
  tick_lem f t requests sheds e e' =
      let d : saturating_sub t.requests_total f.prev_total ≡ requests =
        unfold saturating_sub in omega arith in
      let d' : saturating_sub t.shed_total f.prev_shed ≡ sheds =
        unfold saturating_sub in omega arith in
      (ground (arith, d, d'), refl, ground arith, ground arith, ground arith)

  -- The turns of the loop, with the requests and the sheds that are counted before each.
  unfoldable pub turns : Feedback → LoadShedTracker → List (ℕ × ℕ) → Feedback
  turns f t [] = f
  turns f t ((requests, sheds) ∷ rest) =
      turns (tick f (count_all t requests sheds)) (count_all t requests sheds) rest

  -- The same from the counts of each interval alone.
  unfoldable pub adjusted : HedgeBudget → List (ℕ × ℕ) → HedgeBudget
  adjusted b [] = b
  adjusted b ((requests, sheds) ∷ rest) =
      adjusted (set_load_shed_rate fl b (shed_rate sheds requests)) rest

count_all_lem :
    (t : LoadShedTracker) (requests sheds : ℕ)
    → t.requests_total + requests < u64_mod
    → t.shed_total + sheds < u64_mod
    → ((count_all t requests sheds).requests_total ≡ t.requests_total + requests)
      × ((count_all t requests sheds).shed_total ≡ t.shed_total + sheds)
unfolding count_all add64
count_all_lem t requests sheds h k = omega arith

abbrev pub total : (ℕ × ℕ → ℕ) → List (ℕ × ℕ) → ℕ
total f [] = 0
total f (x ∷ xs) = f x + total f xs

module _ {F : Type 0} (fl : FloatOps F) where
  -- As long as the counters do not wrap, the loop adjusts the budget by the share that was shed in
  -- each interval: no request is counted twice or missed.
  pub turns-adjusted :
      (f : Feedback) (t : LoadShedTracker) (intervals : List (ℕ × ℕ))
      → f.prev_total ≡ t.requests_total
      → f.prev_shed ≡ t.shed_total
      → t.requests_total + total (λ x. x.0) intervals < u64_mod
      → t.shed_total + total (λ x. x.1) intervals < u64_mod
      → (turns fl f t intervals).hedge.budget ≡ adjusted fl f.hedge.budget intervals
  unfolding turns adjusted
  turns-adjusted f t [] p q h k = refl
  turns-adjusted f t ((requests, sheds) ∷ rest) p q h k =
      let e = count_all_lem t requests sheds (omega arith) (omega arith) in
      let t' = count_all t requests sheds in
      let b = (tick_lem fl f t' requests sheds (omega (arith, e)) (omega (arith, e))).0 in
      turns-adjusted (tick fl f t') t' rest (unfold tick in refl) (unfold tick in refl)
        (omega (arith, e)) (omega (arith, e))
      ∙ ap (λ x. adjusted fl x rest) b
