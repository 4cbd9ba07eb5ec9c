-- ===== src/Pipeline/Answers.antt =====
-- What a run of the pipeline leaves behind.
use Prim.Native.String.{String}
use rust_rtb_bidder.Base.{
  ℕ, suc, ◌≤◌, le→leb, ◌≡◌, sym, subst, ◌≢◌, refl, true, false, none, some, List, [], ◌∷◌, ◌++◌,
  leb, if◌then◌else◌, FloatOps, length, Bool-cases, if_intro, Option-cases, inl, inr, arith, ◌⊎◌,
}
use rust_rtb_bidder.Model.{
  BidContext, BidRequest, PipelineOutcome, pending, no_bid_for, bid, pipeline_deadline, is_blank,
}
use rust_rtb_bidder.Base.{is_empty}
use rust_rtb_bidder.Pipeline.{Ran, Stage, go_on, execute, is_no_bid}
use rust_rtb_bidder.Pipeline.Response.{
  NoticeUrlBuilder, response_of, settled, answer, build_response,
}
use rust_rtb_bidder.Pipeline.Validation.{JsonOps, has_consent, is_under_gdpr, validate}

settled_not_pending : (o : PipelineOutcome) → settled o ≢ pending
unfolding settled
settled_not_pending pending h = absurd (grind (arith, h))
settled_not_pending (no_bid_for r) h = absurd (grind (arith, h))
settled_not_pending bid h = absurd (grind (arith, h))

-- The loop stops after a stage, or goes on.
pub go_on_cases :
    {E W F V C : Type 0} (r : Ran E (W × BidContext F V C))
    (rest : W × BidContext F V C → Ran E (W × BidContext F V C))
    → ((go_on r rest ≡ r) × ((r.error ≢ none) ⊎ (is_no_bid r.state.1.outcome ≡ true)))
      ⊎ (go_on r rest ≡ rest r.state)
unfolding go_on
go_on_cases r rest = elim (Option-cases (r.error)) [
  | inr (x, k) ↦ inl (ground arith, inl (λ z. ground arith))
  | inl k ↦ elim (Bool-cases (is_no_bid r.state.1.outcome)) [
    | inl n ↦ inl (ground arith, inr n)
    | inr n ↦ inr (ground arith)
  ]
]

-- A run that is complete: it ends in a no-bid, or in a bid with the response for its winners.
module _ {F V C : Type 0} (fl : FloatOps F) (json : List (String × F) → V)
    (build : NoticeUrlBuilder) (exchange_id : String) where
  abbrev pub IsAnswered : BidContext F V C → Type 0
  IsAnswered ctx =
      (ctx.outcome ≢ pending)
      × (ctx.outcome ≡ bid → ctx.bid_response ≡ some (response_of fl json build exchange_id ctx))

  answer_for_bid :
      (o : PipelineOutcome) (ctx : BidContext F V C)
      → settled o ≡ bid
      → some (answer fl json build exchange_id (settled o) ctx)
        ≡ some (response_of fl json build exchange_id ctx)
  unfolding settled answer
  answer_for_bid pending ctx h = absurd (grind (arith, h))
  answer_for_bid (no_bid_for r) ctx h = absurd (grind (arith, h))
  answer_for_bid bid ctx h = refl

  no_bid-IsAnswered : (ctx : BidContext F V C) → is_no_bid ctx.outcome ≡ true → IsAnswered ctx
  no_bid-IsAnswered ctx n = (λ e. ground arith, λ e. ground arith)

  dropped-IsAnswered :
      (ctx : BidContext F V C) → IsAnswered (record ctx { outcome = no_bid_for pipeline_deadline })
  dropped-IsAnswered ctx = (λ e. ground arith, λ e. ground arith)

  build_response-IsAnswered :
      (E W : Type 0) (s : W × BidContext F V C)
      → IsAnswered (build_response fl json build exchange_id {E = E} {W = W} {C = C} s).state.1
  unfolding build_response settled answer response_of
  build_response-IsAnswered E W (w, ctx) =
      (settled_not_pending ctx.outcome, answer_for_bid ctx.outcome ctx)

  go_on-IsAnswered :
      {E W : Type 0} (r : Ran E (W × BidContext F V C))
      (rest : W × BidContext F V C → Ran E (W × BidContext F V C))
      → ((s : W × BidContext F V C) → (rest s).error ≡ none → IsAnswered (rest s).state.1)
      → (go_on r rest).error ≡ none
      → IsAnswered (go_on r rest).state.1
  go_on-IsAnswered r rest h e = elim (go_on_cases r rest) [
    | inl (k, inl x) ↦ absurd (x (subst (λ q. q.error ≡ none) k e))
    | inl (k, inr n) ↦ subst (λ q. IsAnswered q.state.1) (sym k) (no_bid-IsAnswered r.state.1 n)
    | inr k ↦
        subst (λ q. IsAnswered q.state.1) (sym k) (h r.state (subst (λ q. q.error ≡ none) k e))
  ]

  go_on_last :
      {E W : Type 0} (r : Ran E (W × BidContext F V C))
      (rest : W × BidContext F V C → Ran E (W × BidContext F V C))
      → ((s : W × BidContext F V C) → (rest s).state ≡ s)
      → IsAnswered r.state.1
      → IsAnswered (go_on r rest).state.1
  go_on_last r rest h a = elim (go_on_cases r rest) [
    | inl (k, x) ↦ subst (λ q. IsAnswered q.state.1) (sym k) a
    | inr k ↦
        subst (λ q. IsAnswered q.state.1) (sym k) (subst (λ q. IsAnswered q.1) (sym (h r.state)) a)
  ]

  -- Whatever stages run before the one that builds the response, a run that returns no error has
  -- settled on a no-bid, or on a bid whose response is the one for its winners.
  pub execute-IsAnswered :
      {E W : Type 0} (deadline_ms : ℕ) (stages : List (Stage E W F V C)) (clock : ℕ → ℕ)
      (s : W × BidContext F V C)
      → (execute deadline_ms clock
          (stages ++ (build_response fl json build exchange_id ∷ []))
          s).error
        ≡ none
      → IsAnswered
          (execute deadline_ms clock
            (stages ++ (build_response fl json build exchange_id ∷ []))
            s).state.1
  unfolding execute
  execute-IsAnswered d [] clock s =
      if_intro {A = Ran _ (_ × BidContext F V C)} (λ q. q.error ≡ none → IsAnswered q.state.1)
        (leb d (clock 0)) _ _ (λ _ _. dropped-IsAnswered s.1)
        (λ _ _.
          go_on_last (build_response fl json build exchange_id s) _ (λ t. refl)
            (build_response-IsAnswered _ _ s))
  execute-IsAnswered d (stage ∷ stages) clock s =
      if_intro {A = Ran _ (_ × BidContext F V C)} (λ q. q.error ≡ none → IsAnswered q.state.1)
        (leb d (clock 0)) _ _ (λ _ _. dropped-IsAnswered s.1)
        (λ _. go_on-IsAnswered (stage s) _ (execute-IsAnswered d stages (λ n. clock (suc n))))

-- Stages from the first one at which the clock has reached the deadline are not run: a run does not
-- depend on which they are.
pub late_stages_never_run :
    {E W F V C : Type 0} (deadline_ms : ℕ) (stages : List (Stage E W F V C))
    (late late' : Stage E W F V C) (rest rest' : List (Stage E W F V C)) (clock : ℕ → ℕ)
    (s : W × BidContext F V C)
    → deadline_ms ≤ clock (length stages)
    → execute deadline_ms clock (stages ++ (late ∷ rest)) s
      ≡ execute deadline_ms clock (stages ++ (late' ∷ rest')) s
unfolding execute
late_stages_never_run d [] late late' rest rest' clock s h = rw (le→leb d (clock 0) h) refl
late_stages_never_run d (stage ∷ stages) late late' rest rest' clock s h = λ i.
    if leb d (clock 0)
    then record {
      error = none;
      state = (s.0, record s.1 { outcome = no_bid_for pipeline_deadline });
    }
    else go_on (stage s)
        (λ t. late_stages_never_run d stages late late' rest rest' (λ n. clock (suc n)) t h i)

-- A request without an id, without impressions, or under GDPR without consent.
abbrev pub IsRefused : {V : Type 0} → JsonOps V → BidRequest V → Type 0
IsRefused json req =
    (is_blank req.id ≡ true)
    ⊎ ((is_empty req.imp ≡ true) ⊎ ((is_under_gdpr req ≡ true) × (has_consent json req ≡ false)))

abbrev IsStopped : {E W F V C : Type 0} → W → Ran E (W × BidContext F V C) → Type 0
IsStopped w q = (q.state.0 ≡ w) × (is_no_bid q.state.1.outcome ≡ true)

validate_stops :
    (E : Type 0) {W F V C : Type 0} (json : JsonOps V) (w : W) (ctx : BidContext F V C)
    → IsRefused json ctx.request
    → IsStopped w (validate json {E = E} (w, ctx))
unfolding validate
validate_stops E json w ctx h = (ground arith, ground arith)

go_on_stops :
    {E W F V C : Type 0} (w : W) (r : Ran E (W × BidContext F V C))
    (rest : W × BidContext F V C → Ran E (W × BidContext F V C))
    → IsStopped w r
    → IsStopped w (go_on r rest)
unfolding go_on
go_on_stops w r rest h = (ground arith, ground arith)

-- The stages after the validation of a refused request are not run: the shared state is as it was,
-- and the outcome is a no-bid. Validation lets every other request through as it came.
pub execute-IsRefused :
    {E W F V C : Type 0} (json : JsonOps V) (deadline_ms : ℕ) (stages : List (Stage E W F V C))
    (clock : ℕ → ℕ) (w : W) (ctx : BidContext F V C)
    → (IsRefused json ctx.request
        → ((execute deadline_ms clock (validate json ∷ stages) (w, ctx)).state.0 ≡ w)
          × (is_no_bid (execute deadline_ms clock (validate json ∷ stages) (w, ctx)).state.1.outcome
              ≡ true))
      × ((IsRefused json ctx.request → ⊥)
          → validate json {E = E} (w, ctx) ≡ record { error = none; state = (w, ctx) })
unfolding execute go_on validate
execute-IsRefused json d stages clock w ctx = (
  λ h.
      if_intro {A = Ran _ (_ × BidContext _ _ _)} (IsStopped w) (leb d (clock 0)) _ _
        (λ _. (refl, refl))
        (λ _.
          go_on_stops w (validate json (w, ctx)) (execute d (λ n. clock (suc n)) stages)
            (validate_stops _ json w ctx h)),
  λ h. ground arith,
)
