-- ===== src/Server/Tests.antt =====
-- Two requests that overlap, and the theorem at them.
use rust_rtb_bidder.Base.{◌≤◌, ◌≡◌, refl, arith, none, some, List, [], ◌∷◌}
use rust_rtb_bidder.Base.Words.{add64}
use rust_rtb_bidder.Hedge.Feedback.{record_request, record_shed}
use rust_rtb_bidder.Handlers.{ok, service_unavailable}
use rust_rtb_bidder.Server.{
  Step, arrives, ends, steps, count_answer, is_unavailable, answer_of, win_concurrency,
  timeout_middleware,
}
use rust_rtb_bidder.Server.Counted.{total, arrived, refused, steps-shed-le}

abbrev overlapping : List Step
overlapping = arrives ∷ arrives ∷ ends none ∷ ends (some ok) ∷ []

timed_out :
    timeout_middleware (record { requests_total = 4; shed_total = 1 }) none
    ≡ (record { requests_total = 5; shed_total = 2 }, service_unavailable)
unfolding timeout_middleware count_answer answer_of record_request record_shed add64
timed_out = refl

at_least_one : win_concurrency 9 ≡ 1
unfolding win_concurrency
at_least_one = refl

steps-shed-le_example :
    let t = steps (record { requests_total = 0; shed_total = 0 }) overlapping in
    (t.requests_total ≡ total arrived overlapping)
    × ((t.shed_total ≡ total refused overlapping) × (t.shed_total ≤ t.requests_total))
unfolding is_unavailable answer_of
steps-shed-le_example = steps-shed-le overlapping tt (omega arith)
