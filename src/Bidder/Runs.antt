-- ===== src/Bidder/Runs.antt =====
-- What a run of the loop over the stages carries from stage to stage.
use rust_rtb_bidder.Base.{
  ℕ, suc, ◌≡◌, refl, sym, subst, none, List, [], ◌∷◌, is_empty, All, if_intro, leb, inl, inr,
}
use rust_rtb_bidder.Model.{BidContext, PipelineOutcome, no_bid_for, pipeline_deadline, is_blank}
use rust_rtb_bidder.Pipeline.{Ran, Stage, execute, go_on}
use rust_rtb_bidder.Pipeline.Answers.{go_on_cases}
use rust_rtb_bidder.Pipeline.Validation.{JsonOps, validate, is_under_gdpr, has_consent}

-- A run without an error, and P of what it leaves.
abbrev pub IsGood : {E S : Type 0} → (S → Type 0) → Ran E S → Type 0
IsGood P r = (r.error ≡ none) × P r.state

module _ {E W F V C : Type 0} (P : W × BidContext F V C → Type 0) where
  -- A stage that gives no error and keeps P.
  abbrev pub Carries : Stage E W F V C → Type 0
  Carries stage = (s : W × BidContext F V C) → P s → IsGood P (stage s)

  go_on-IsGood :
      (r : Ran E (W × BidContext F V C)) (rest : Stage E W F V C)
      → IsGood P r
      → IsGood P (rest r.state)
      → IsGood P (go_on r rest)
  go_on-IsGood r rest h k = elim (go_on_cases r rest) [
    | inl (e, x) ↦ subst (IsGood P) (sym e) h
    | inr e ↦ subst (IsGood P) (sym e) k
  ]

  -- One stage, of which P holds whether the loop goes on after it or not.
  pub stage-IsGood :
      (deadline_ms : ℕ) (clock : ℕ → ℕ) (stage : Stage E W F V C) (rest : List (Stage E W F V C))
      (s : W × BidContext F V C)
      → P (s.0, record s.1 { outcome = no_bid_for pipeline_deadline })
      → IsGood P (stage s)
      → ((later : ℕ → ℕ) → IsGood P (execute deadline_ms later rest (stage s).state))
      → IsGood P (execute deadline_ms clock (stage ∷ rest) s)
  unfolding execute
  stage-IsGood d clock stage rest s o h k =
      if_intro {A = Ran E (W × BidContext F V C)} (IsGood P) (leb d (clock 0)) _ _ (λ _. (refl, o))
        (λ _. go_on-IsGood (stage s) _ h (k (λ n. clock (suc n))))

  -- Stages that all carry P.
  pub execute-IsGood :
      (deadline_ms : ℕ) (clock : ℕ → ℕ) (stages : List (Stage E W F V C)) (s : W × BidContext F V C)
      → ((s : W × BidContext F V C) (o : PipelineOutcome)
          → P s
          → P (s.0, record s.1 { outcome = o }))
      → All Carries stages
      → P s
      → IsGood P (execute deadline_ms clock stages s)
  unfolding execute
  execute-IsGood d clock [] s o h p = (refl, p)
  execute-IsGood d clock (stage ∷ rest) s o h p =
      stage-IsGood d clock stage rest s (o s _ p) (h.0 s p)
        (λ later. execute-IsGood d later rest (stage s).state o h.1 (h.0 s p).1)

-- Of every request there is an outcome with which validation leaves it as it came.
pub validate-outcome :
    (E : Type 0) {W F V C : Type 0} (json : JsonOps V) (w : W) (ctx : BidContext F V C)
    → (o : PipelineOutcome) × (validate json {E = E} (w, ctx)
        ≡ record { error = none; state = (w, record ctx { outcome = o }) })
unfolding validate
validate-outcome E {W = W} {F = F} {V = V} {C = C} json w ctx =
    let Left = λ (r : Ran E (W × BidContext F V C)).
      (o : PipelineOutcome) × (r
        ≡ record { error = none; state = (w, record ctx { outcome = o }) }) in
    if_intro Left (is_blank ctx.request.id) _ _ (λ _. (_, refl))
      (λ _.
        if_intro Left (is_empty ctx.request.imp) _ _ (λ _. (_, refl))
          (λ _.
            if_intro Left (is_under_gdpr ctx.request) _ _
              (λ _.
                if_intro Left (has_consent json ctx.request) _ _ (λ _. (_, refl)) (λ _. (_, refl)))
              (λ _. (_, refl))))
