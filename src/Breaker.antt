-- ===== src/Breaker.antt =====
-- bidder-core/src/breaker/mod.rs. An `Instant` and a `Duration` are numbers of one unit, and each
-- call takes the time at which it reads the clock. The name of a breaker, which only labels metrics
-- and logs, is left out. `record_outcome` is two atomic parts, the counters and the locked section,
-- so that calls can interleave between them.
pub mod Trace
pub mod Probe
pub mod Invariant
pub mod Opened
pub mod Cycle
mod Tests
use rust_rtb_bidder.Base.{
  ℕ, ◌-◌, ◌≤◌, Bool, true, false, not, ◌&&◌, ◌||◌, Option, none, some, leb, ltb, if◌then◌else◌,
  FloatOps,
}
use rust_rtb_bidder.Base.Words.{add64}

pub data BreakerState : Type 0 where
  closed open_ half_open : BreakerState

pub record BreakerConfig (F : Type 0) : Type 0 where
  pub min_calls : ℕ
  pub error_rate_threshold : F
  pub slow_call_ratio_threshold : F
  pub slow_call_duration : ℕ
  pub open_duration : ℕ
  pub window_size : ℕ

-- In milliseconds.
unfoldable pub redis : {F : Type 0} → FloatOps F → BreakerConfig F
redis fl = record {
  min_calls = 20;
  error_rate_threshold = fl.literal 5 10;
  slow_call_ratio_threshold = fl.literal 5 10;
  slow_call_duration = 16;
  open_duration = 10_000;
  window_size = 100;
}

unfoldable pub kafka : {F : Type 0} → FloatOps F → BreakerConfig F
kafka fl = record {
  min_calls = 10;
  error_rate_threshold = fl.literal 5 10;
  slow_call_ratio_threshold = fl.literal 8 10;
  slow_call_duration = 100;
  open_duration = 30_000;
  window_size = 100;
}

pub record Window : Type 0 where
  pub calls : ℕ
  pub errors : ℕ
  pub slow_calls : ℕ

abbrev pub fresh_window : Window
fresh_window = record { calls = 0; errors = 0; slow_calls = 0 }

-- `Window::record`.
unfoldable pub record_call : Window → Bool → Bool → Window
record_call w error slow = record {
  calls = add64 w.calls 1;
  errors = if error then add64 w.errors 1 else w.errors;
  slow_calls = if slow then add64 w.slow_calls 1 else w.slow_calls;
}

pub record Inner : Type 0 where
  pub state : BreakerState
  pub opened_at : Option ℕ
  pub half_open_probe_in_flight : Bool

pub record CircuitBreaker (F : Type 0) : Type 0 where
  pub cfg : BreakerConfig F
  pub window : Window
  pub inner : Inner
  pub open inner use {state, opened_at, half_open_probe_in_flight}

unfoldable pub new : {F : Type 0} → BreakerConfig F → CircuitBreaker F
new cfg = record {
  cfg = cfg;
  window = fresh_window;
  inner = record { state = closed; opened_at = none; half_open_probe_in_flight = false };
}

-- `opened_at.map(|t| t.elapsed()).unwrap_or_default()`: `elapsed` stops at zero.
unfoldable pub elapsed : Option ℕ → ℕ → ℕ
elapsed none now = 0
elapsed (some t) now = now - t

-- What the read lock of `allow_request` finds out.
pub data FastPath : Type 0 where
  allowed denied fall_through : FastPath

module _ {F : Type 0} where
  unfoldable pub fast_path : CircuitBreaker F → ℕ → FastPath
  unfolding elapsed
  fast_path b now = elim b.state [
    | closed ↦ allowed
    | open_ ↦ if ltb (elapsed b.opened_at now) b.cfg.open_duration then denied else fall_through
    | half_open ↦ fall_through
  ]

  -- The first `if` of the write lock: Open to HalfOpen once the breaker has cooled down.
  unfoldable pub cool_down : CircuitBreaker F → ℕ → CircuitBreaker F
  unfolding elapsed
  cool_down b now = elim b.state [
    | open_ ↦
        if leb b.cfg.open_duration (elapsed b.opened_at now)
        then record b {
          window = fresh_window;
          inner = record {
            state = half_open;
            opened_at = b.opened_at;
            half_open_probe_in_flight = false;
          };
        }
        else b
    | _ ↦ b
  ]

  -- The second `if`: claim the probe slot.
  unfoldable pub claim_probe : CircuitBreaker F → CircuitBreaker F × Bool
  claim_probe b = elim b.state [
    | half_open ↦ if b.half_open_probe_in_flight then (b, false) else (
      record b {
        inner = record {
          state = half_open;
          opened_at = b.opened_at;
          half_open_probe_in_flight = true;
        };
      },
      true,
    )
    | _ ↦ (b, false)
  ]

  unfoldable pub try_enter_half_open : CircuitBreaker F → ℕ → CircuitBreaker F × Bool
  unfolding cool_down claim_probe
  try_enter_half_open b now = claim_probe (cool_down b now)

  -- With no other task between the two locks.
  unfoldable pub allow_request : CircuitBreaker F → ℕ → CircuitBreaker F × Bool
  unfolding fast_path try_enter_half_open
  allow_request b now = elim (fast_path b now) [
    | allowed ↦ (b, true)
    | denied ↦ (b, false)
    | fall_through ↦ try_enter_half_open b now
  ]

  unfoldable pub is_closed_sync : CircuitBreaker F → Bool
  is_closed_sync b = elim b.state [ closed ↦ true | _ ↦ false ]

  -- `self.window.record(error, slow)`.
  unfoldable pub count_call : CircuitBreaker F → Bool → Bool → CircuitBreaker F
  unfolding record_call
  count_call b error slow = record b { window = record_call b.window error slow }

  abbrev pub open_at : CircuitBreaker F → Bool → ℕ → CircuitBreaker F
  open_at b probe now = record b {
    window = fresh_window;
    inner = record { state = open_; opened_at = some now; half_open_probe_in_flight = probe };
  }

module _ {F : Type 0} (fl : FloatOps F) where
  unfoldable pub over_threshold : BreakerConfig F → Window → Bool
  over_threshold cfg snapshot =
      fl.ge (fl.div (fl.of_ℕ snapshot.errors) (fl.of_ℕ snapshot.calls)) cfg.error_rate_threshold
      || fl.ge (fl.div (fl.of_ℕ snapshot.slow_calls) (fl.of_ℕ snapshot.calls))
          cfg.slow_call_ratio_threshold

  -- The locked section of `record_outcome`, for the counters `snapshot` that were read before it.
  unfoldable pub settle : CircuitBreaker F → Window → Bool → Bool → ℕ → CircuitBreaker F
  settle b snapshot error slow now = elim b.state [
    | closed ↦
        let full =
          (if leb b.cfg.window_size snapshot.calls
            then record b { window = fresh_window }
            else b) in
        if leb b.cfg.min_calls snapshot.calls && over_threshold b.cfg snapshot
        then open_at b b.half_open_probe_in_flight now
        else full
    | half_open ↦ if error || slow then open_at b false now else record b {
      window = fresh_window;
      inner = record { state = closed; opened_at = b.opened_at; half_open_probe_in_flight = false };
    }
    | open_ ↦ b
  ]

  -- With no other task between the counters and the locked section.
  unfoldable pub record_outcome : CircuitBreaker F → Bool → ℕ → ℕ → CircuitBreaker F
  unfolding count_call settle
  record_outcome b error duration now =
      let slow = leb b.cfg.slow_call_duration duration in
      let counted = count_call b error slow in settle counted counted.window error slow now
