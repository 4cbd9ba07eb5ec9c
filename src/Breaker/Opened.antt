-- ===== src/Breaker/Opened.antt =====
-- When a closed breaker opens, told by the outcomes that it has been given.
use rust_rtb_bidder.Base.{
  if_intro, ◌∙◌, ℕ, ◌+◌, ◌≤◌, ◌<◌, ◌≡◌, ◌⊎◌, inl, inr, refl, sym, ap, subst, Bool, true, false,
  ◌&&◌, List, [], ◌∷◌, length, FloatOps, arith, leb, leb→le, if◌then◌else◌, Bool-cases,
}
use rust_rtb_bidder.Base.Words.{u64_mod, add64}
use rust_rtb_bidder.Breaker.{
  CircuitBreaker, BreakerConfig, Window, closed, open_, record_outcome, record_call, over_threshold,
  fresh_window, count_call, settle, open_at,
}

-- The outcome of a call: whether it failed, how long it took, and when it is recorded.
pub record CallOutcome : Type 0 where
  pub error : Bool
  pub duration : ℕ
  pub now : ℕ

-- How many calls of a history failed, and how many took as long as this or longer.
abbrev pub failures : List CallOutcome → ℕ
failures [] = 0
failures (o ∷ os) = (if o.error then 1 else 0) + failures os

abbrev pub slow_ones : ℕ → List CallOutcome → ℕ
slow_ones least [] = 0
slow_ones least (o ∷ os) = (if leb least o.duration then 1 else 0) + slow_ones least os

module _ {F : Type 0} (fl : FloatOps F) where
  abbrev pub share : ℕ → List CallOutcome → F
  share n history = fl.div (fl.of_ℕ n) (fl.of_ℕ (length history))

  -- A history is of the minimum of calls, and the share of the calls that failed, or of those that
  -- were slow, has reached its threshold.
  abbrev pub Trips : BreakerConfig F → List CallOutcome → Type 0
  Trips cfg history =
      (cfg.min_calls ≤ length history)
      × ((fl.ge (share (failures history) history) cfg.error_rate_threshold ≡ true)
          ⊎ (fl.ge (share (slow_ones cfg.slow_call_duration history) history)
                cfg.slow_call_ratio_threshold
              ≡ true))

  -- None of the histories does that to which the outcomes lead one after the other. A history has the
  -- latest outcome first.
  abbrev pub NoneTrips : BreakerConfig F → List CallOutcome → List CallOutcome → Type 0
  NoneTrips cfg history [] = Unit
  NoneTrips cfg history (o ∷ os) = (Trips cfg (o ∷ history) → ⊥) × NoneTrips cfg (o ∷ history) os

  unfoldable pub record_all : CircuitBreaker F → List CallOutcome → CircuitBreaker F
  record_all b [] = b
  record_all b (o ∷ os) = record_all (record_outcome fl b o.error o.duration o.now) os

  -- The window that has counted a history.
  tally : ℕ → List CallOutcome → Window
  tally least history = record {
    calls = length history;
    errors = failures history;
    slow_calls = slow_ones least history;
  }

  failures-le : (os : List CallOutcome) → failures os ≤ length os
  failures-le [] = omega arith
  failures-le (o ∷ os) = ground (arith, failures-le os)

  slow_ones-le : (least : ℕ) (os : List CallOutcome) → slow_ones least os ≤ length os
  slow_ones-le least [] = omega arith
  slow_ones-le least (o ∷ os) = ground (arith, slow_ones-le least os)

  record_call-tally :
      (least : ℕ) (o : CallOutcome) (history : List CallOutcome)
      → length history + 1 < u64_mod
      → record_call (tally least history) o.error (leb least o.duration) ≡ tally least (o ∷ history)
  unfolding record_call tally add64
  record_call-tally least o history h =
      ground (arith, failures-le history, slow_ones-le least history)

  Trips-cases :
      (cfg : BreakerConfig F) (history : List CallOutcome)
      → (Trips cfg history
          × ((leb cfg.min_calls (length history)
                && over_threshold fl cfg (tally cfg.slow_call_duration history))
              ≡ true))
        ⊎ ((Trips cfg history → ⊥)
            × ((leb cfg.min_calls (length history)
                  && over_threshold fl cfg (tally cfg.slow_call_duration history))
                ≡ false))
  unfolding over_threshold tally
  Trips-cases cfg history =
      elim (Bool-cases (
        leb cfg.min_calls (length history)
        && over_threshold fl cfg (tally cfg.slow_call_duration history))) [
          | inl k ↦ inl (ground arith, k)
          | inr k ↦ inr (λ t. ground arith, k)
        ]

  settle-closed :
      (b : CircuitBreaker F) (w : Window) (error slow : Bool) (now : ℕ)
      → b.state ≡ closed
      → settle fl b w error slow now ≡ (
          if leb b.cfg.min_calls w.calls && over_threshold fl b.cfg w
          then open_at b b.inner.half_open_probe_in_flight now
          else if leb b.cfg.window_size w.calls
          then record b { window = fresh_window }
          else b)
  unfolding settle
  settle-closed b w error slow now h = rw h refl

  -- What an outcome makes of a closed breaker whose window has counted a history.
  record-tally :
      (b : CircuitBreaker F) (o : CallOutcome) (history : List CallOutcome)
      → b.state ≡ closed
      → b.window ≡ tally b.cfg.slow_call_duration history
      → length history + 1 < u64_mod
      → let w = tally b.cfg.slow_call_duration (o ∷ history) in
        record_outcome fl b o.error o.duration o.now ≡ (
          if leb b.cfg.min_calls (length (o ∷ history)) && over_threshold fl b.cfg w
          then open_at (record b { window = w }) b.inner.half_open_probe_in_flight o.now
          else if leb b.cfg.window_size (length (o ∷ history))
          then record b { window = fresh_window }
          else record b { window = w })
  unfolding record_outcome count_call tally
  record-tally b o history h w l =
      let slow = leb b.cfg.slow_call_duration o.duration in
      let e =
        ap (λ v. record_call v o.error slow) w
        ∙ record_call-tally b.cfg.slow_call_duration o history l in
      ap (λ v. settle fl (record b { window = v }) v o.error slow o.now) e
      ∙ settle-closed (record b { window = tally b.cfg.slow_call_duration (o ∷ history) }) _ o.error
          slow o.now h

  open_keeps :
      (b : CircuitBreaker F) (o : CallOutcome)
      → b.state ≡ open_
      → (record_outcome fl b o.error o.duration o.now).state ≡ open_
  unfolding record_outcome
  open_keeps b o h = ground arith

  open_stays :
      (b : CircuitBreaker F) (os : List CallOutcome)
      → b.state ≡ open_
      → (record_all b os).state ≡ open_
  unfolding record_all
  open_stays b [] h = h
  open_stays b (o ∷ os) h =
      open_stays (record_outcome fl b o.error o.duration o.now) os (open_keeps b o h)

  -- The breaker stays closed and no history on the way trips, or one does and the breaker opens.
  abbrev pub IsTold : CircuitBreaker F → Type 0 → List CallOutcome → Type 0
  IsTold b NoneDoes os =
      (NoneDoes × ((record_all b os).state ≡ closed))
      ⊎ ((NoneDoes → ⊥) × ((record_all b os).state ≡ open_))

  last-IsTold :
      (b : CircuitBreaker F) (cfg : BreakerConfig F) (history os : List CallOutcome)
      → b.state ≡ closed
      → length os ≡ 0
      → IsTold b (NoneTrips cfg history os) os
  unfolding record_all
  last-IsTold b cfg history [] h z = inl (tt, h)
  last-IsTold b cfg history (o ∷ os) h z = absurd (omega (arith, z))

  IsTold-cons :
      (b : CircuitBreaker F) (T : Type 0) (N : Type 0) (os : List CallOutcome)
      → (T → ⊥)
      → IsTold b N os
      → IsTold b ((T → ⊥) × N) os
  IsTold-cons b T N os t (inl (n, h)) = inl ((t, n), h)
  IsTold-cons b T N os t (inr (n, h)) = inr (λ m. n m.1, h)

  tell :
      (b : CircuitBreaker F) (history os : List CallOutcome)
      → b.state ≡ closed
      → b.window ≡ tally b.cfg.slow_call_duration history
      → length history + length os ≤ b.cfg.window_size
      → b.cfg.window_size + 1 < u64_mod
      → IsTold b (NoneTrips b.cfg history os) os
  unfolding record_all
  tell b history [] h w l u = inl (tt, h)
  tell b history (o ∷ os) h w l u =
      let counted = record b { window = tally b.cfg.slow_call_duration (o ∷ history) } in
      subst (λ b'. IsTold b' (NoneTrips b.cfg history (o ∷ os)) os)
        (sym (record-tally b o history h w (omega (arith, l, u))))
        (elim (Trips-cases b.cfg (o ∷ history)) [
          | inl (t, k) ↦ rw k (inr (λ n. n.0 t, open_stays _ os refl))
          | inr (t, k) ↦ rw k (
              if_intro (λ b'. IsTold b' (NoneTrips b.cfg history (o ∷ os)) os)
                (leb b.cfg.window_size (length (o ∷ history))) (record b { window = fresh_window })
                counted
                (λ e.
                  IsTold-cons (record b { window = fresh_window }) (Trips b.cfg (o ∷ history))
                    (NoneTrips b.cfg (o ∷ history) os) os t
                    (last-IsTold (record b { window = fresh_window }) b.cfg (o ∷ history) os h
                      (omega (arith, l, leb→le b.cfg.window_size (length (o ∷ history)) e))))
                (λ _.
                  IsTold-cons counted (Trips b.cfg (o ∷ history)) (NoneTrips b.cfg (o ∷ history) os)
                    os t (tell counted (o ∷ history) os h refl (omega (arith, l)) u)))
        ])

  -- A closed breaker with an empty window is given outcomes one after the other, no more than its
  -- window holds, the size of which is below the largest 64-bit number. If at one of them the outcomes
  -- so far are at least the minimum of calls, and the share of the failed calls among them, or of the
  -- calls that took as long as `slow_call_duration` or longer, is at its threshold or above, the breaker
  -- is open after all of them; otherwise it is closed.
  pub opens_iff :
      (b : CircuitBreaker F) (os : List CallOutcome)
      → b.state ≡ closed
      → b.window ≡ fresh_window
      → length os ≤ b.cfg.window_size
      → b.cfg.window_size + 1 < u64_mod
      → (NoneTrips b.cfg [] os × ((record_all b os).state ≡ closed))
        ⊎ ((NoneTrips b.cfg [] os → ⊥) × ((record_all b os).state ≡ open_))
  unfolding tally
  opens_iff b os h w l u = tell b [] os h w (omega (arith, l)) u
