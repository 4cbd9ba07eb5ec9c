-- ===== src/Pipeline.antt =====
-- bidder-core/src/pipeline/mod.rs: the loop over the stages. A stage takes the state that the
-- stages share, W, and the context of the request, and may return an error of type E after it has
-- changed them. The clock gives `ctx.elapsed_ms()` before each stage; spans and metrics are left out.
pub mod Validation
pub mod Budget
pub mod Ranking
pub mod Limit
pub mod Response
pub mod Answers
pub mod Accounts
mod Tests
use rust_rtb_bidder.Base.{
  ℕ, suc, Bool, true, false, Option, none, some, List, [], ◌∷◌, leb, if◌then◌else◌,
}
use rust_rtb_bidder.Model.{BidContext, PipelineOutcome, pending, no_bid_for, bid, pipeline_deadline}

-- What a stage, or the pipeline, leaves: its result, and the state.
pub record Ran (E S : Type 0) : Type 0 where
  pub error : Option E
  pub state : S

abbrev pub Stage : (E W F V C : Type 0) → Type 0
Stage E W F V C = W × BidContext F V C → Ran E (W × BidContext F V C)

-- `matches!(outcome, PipelineOutcome::NoBid(_))`.
abbrev pub is_no_bid : PipelineOutcome → Bool
is_no_bid pending = false
is_no_bid (no_bid_for _) = true
is_no_bid bid = false

-- What becomes of the loop after a stage, with the run of the stages that are left.
unfoldable pub go_on :
    {E W F V C : Type 0}
    → Ran E (W × BidContext F V C)
    → (W × BidContext F V C → Ran E (W × BidContext F V C))
    → Ran E (W × BidContext F V C)
go_on r rest = elim (r.error) [
  | some e ↦ r
  | none ↦ if is_no_bid r.state.1.outcome then r else rest r.state
]

module _ {E W F V C : Type 0} (deadline_ms : ℕ) where
  -- `Pipeline::execute`.
  unfoldable pub execute : (ℕ → ℕ) → List (Stage E W F V C) → Stage E W F V C
  execute clock [] s = record { error = none; state = s }
  execute clock (stage ∷ stages) s =
      if leb deadline_ms (clock 0)
      then record {
        error = none;
        state = (s.0, record s.1 { outcome = no_bid_for pipeline_deadline });
      }
      else go_on (stage s) (execute (λ n. clock (suc n)) stages)
