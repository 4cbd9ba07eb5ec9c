-- ===== src/Breaker/Trace.antt =====
-- Interleavings of breaker calls: a trace is a sequence of the atomic parts of `allow_request` and
-- `record_outcome`, by whatever tasks they were made.
use rust_rtb_bidder.Base.{ℕ, ◌+◌, Bool, true, false, List, [], ◌∷◌, FloatOps, if◌then◌else◌}
use rust_rtb_bidder.Breaker.{
  CircuitBreaker, Window, FastPath, allowed, denied, fall_through, fast_path, try_enter_half_open,
  count_call, settle,
}

-- `read` and `enter` are the two locks of `allow_request`, `count` and `settles` the two parts of
-- `record_outcome`. A `settles` carries the counters that its task read, at any earlier time.
pub data Event : Type 0 where
  read : ℕ → Event
  enter : ℕ → Event
  count : Bool → Bool → Event
  settles : Window → Bool → Bool → ℕ → Event

abbrev pub is_allowed : FastPath → Bool
is_allowed allowed = true
is_allowed denied = false
is_allowed fall_through = false

module _ {F : Type 0} (fl : FloatOps F) where
  unfoldable pub after : CircuitBreaker F → Event → CircuitBreaker F
  after b (read now) = b
  after b (enter now) = (try_enter_half_open b now).0
  after b (count error slow) = count_call b error slow
  after b (settles snapshot error slow now) = settle fl b snapshot error slow now

  -- Whether the event lets a call through.
  unfoldable pub grants_call : CircuitBreaker F → Event → Bool
  grants_call b (read now) = is_allowed (fast_path b now)
  grants_call b (enter now) = (try_enter_half_open b now).1
  grants_call b (count error slow) = false
  grants_call b (settles snapshot error slow now) = false

  unfoldable pub run : CircuitBreaker F → List Event → CircuitBreaker F
  run b [] = b
  run b (e ∷ es) = run (after b e) es

  -- How many calls a trace lets through.
  unfoldable pub grants : CircuitBreaker F → List Event → ℕ
  grants b [] = 0
  grants b (e ∷ es) = (if grants_call b e then 1 else 0) + grants (after b e) es

abbrev pub IsUnsettled : Event → Type 0
IsUnsettled (read now) = Unit
IsUnsettled (enter now) = Unit
IsUnsettled (count error slow) = Unit
IsUnsettled (settles snapshot error slow now) = ⊥
