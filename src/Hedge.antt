-- ===== src/Hedge.antt =====
-- bidder-core/src/hedge.rs. The atomics are the fields of a record, and one method is one step; the
-- retry loop of `try_consume` ends with the exchange that succeeds. What is awaited enters as the
-- time that each call takes, and the time at which the caller drops the future, if it does.
pub mod Budget
pub mod Lost
pub mod Feedback
mod Tests
use rust_rtb_bidder.Base.{
  ℕ, ◌+◌, ◌-◌, min, max, Bool, true, false, ◌&&◌, ◌||◌, Option, none, some, ltb, leb, ◌==◌,
  if◌then◌else◌, FloatOps,
}
use rust_rtb_bidder.Base.Words.{add64}

pub record HedgeBudget : Type 0 where
  pub tokens : ℕ
  pub nominal : ℕ
  pub effective_cap : ℕ

unfoldable pub new : ℕ → HedgeBudget
new capacity = record { tokens = capacity; nominal = capacity; effective_cap = capacity }

unfoldable pub try_consume : HedgeBudget → HedgeBudget × Bool
try_consume b = if b.tokens == 0 then (b, false) else (record b { tokens = b.tokens - 1 }, true)

unfoldable pub restore : HedgeBudget → HedgeBudget
restore b =
    let added = add64 b.tokens 1 in
    if ltb b.effective_cap added
    then record b { tokens = min added b.effective_cap }
    else record b { tokens = added }

module _ {F : Type 0} (fl : FloatOps F) where
  unfoldable pub effective : ℕ → F → ℕ
  effective nominal rate =
      if fl.gt rate (fl.literal 5 100)
      then 0
      else if fl.gt rate (fl.literal 1 100)
      then fl.to_ℕ (fl.mul (fl.of_ℕ nominal) (fl.literal 2 10))
      else nominal

  unfoldable pub set_load_shed_rate : HedgeBudget → F → HedgeBudget
  set_load_shed_rate b rate =
      let cap = effective b.nominal rate in
      record b { tokens = min b.tokens cap; effective_cap = cap }

-- From the start of the call: when the first attempt ends, how long the second one takes, and when
-- the caller gives up.
pub record Timing : Type 0 where
  pub first : ℕ
  pub second : ℕ
  pub cut : Option ℕ

pub data Ended : Type 0 where
  by_first by_second dropped : Ended

pub record Outcome : Type 0 where
  pub budget : HedgeBudget
  pub calls : ℕ
  pub ended : Ended

abbrev pub is_cut : Option ℕ → ℕ → Bool
is_cut none t = false
is_cut (some c) t = ltb c t

-- Waiting for the first attempt alone.
unfoldable pub await_first : HedgeBudget → Timing → Outcome
await_first b t = record {
  budget = b;
  calls = 1;
  ended = if is_cut t.cut t.first then dropped else by_first;
}

-- The race of both attempts, after a token was taken. A dropped future does not reach `restore`.
unfoldable pub race : HedgeBudget → Timing → ℕ → Outcome
race b t trigger =
    if is_cut t.cut (min t.first (trigger + t.second))
    then record { budget = b; calls = 2; ended = dropped }
    else record {
      budget = restore b;
      calls = 2;
      ended = if leb t.first (trigger + t.second) then by_first else by_second;
    }

unfoldable pub hedged_call : Bool → HedgeBudget → Timing → ℕ → Outcome
unfolding await_first race try_consume
hedged_call breaker_closed b t trigger =
    if leb t.first trigger || is_cut t.cut trigger
    then await_first b t
    else if breaker_closed && (try_consume b).1
    then race (try_consume b).0 t trigger
    else await_first b t

pub record RedisHedgeState : Type 0 where
  pub budget : HedgeBudget
  pub p95_ms : ℕ

unfoldable pub new_state : ℕ → RedisHedgeState
new_state nominal_budget_tokens = record { budget = new nominal_budget_tokens; p95_ms = 0 }

unfoldable pub update_p95 : RedisHedgeState → ℕ → RedisHedgeState
update_p95 s ms = record s { p95_ms = ms }

unfoldable pub trigger_of : RedisHedgeState → ℕ
trigger_of s = max s.p95_ms 8
