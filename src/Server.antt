-- ===== src/Server.antt =====
-- bidder-server/src/server/routes.rs: the middleware around the bid and the win routes, which bounds a
-- request's time and counts what is shed. The time is not in the model: an answer of none means that the
-- timeout elapsed first. Many requests are open at once, so that a request is two steps.
pub mod Counted
mod Tests
use rust_rtb_bidder.Base.{
  ℕ, ◌+◌, ◌-◌, ◌/◌, max, ltb, Bool, true, false, Option, none, some, List, [], ◌∷◌, if◌then◌else◌,
}
use rust_rtb_bidder.Hedge.Feedback.{LoadShedTracker, record_request, record_shed}
use rust_rtb_bidder.Handlers.{
  StatusCode, ok, no_content, bad_request, unauthorized, internal_server_error, service_unavailable,
}

-- `win_concurrency` of `build`.
unfoldable pub win_concurrency : ℕ → ℕ
win_concurrency max_concurrency = max (max_concurrency / 10) 1

unfoldable pub is_unavailable : StatusCode → Bool
is_unavailable service_unavailable = true
is_unavailable _ = false

-- What a client gets.
unfoldable pub answer_of : Option StatusCode → StatusCode
answer_of none = service_unavailable
answer_of (some status) = status

-- The end of `timeout_middleware`.
unfoldable pub count_answer : LoadShedTracker → Option StatusCode → LoadShedTracker
count_answer t none = record_shed t
count_answer t (some status) = if is_unavailable status then record_shed t else t

-- The whole of it, for a request alone.
unfoldable pub timeout_middleware :
    LoadShedTracker → Option StatusCode → LoadShedTracker × StatusCode
timeout_middleware t answered = (count_answer (record_request t) answered, answer_of answered)

-- The two steps of a request: it arrives, and later it is answered.
pub data Step : Type 0 where
  arrives : Step
  ends : Option StatusCode → Step

unfoldable pub step : LoadShedTracker → Step → LoadShedTracker
step t arrives = record_request t
step t (ends answered) = count_answer t answered

unfoldable pub steps : LoadShedTracker → List Step → LoadShedTracker
steps t [] = t
steps t (s ∷ rest) = steps (step t s) rest
