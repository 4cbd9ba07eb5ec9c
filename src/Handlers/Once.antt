-- ===== src/Handlers/Once.antt =====
-- The win handler over a sequence of calls, against a store that keeps a key until its time to live
-- is over.
use Prim.Native.String.{String}
use text.Mathlib.Text.{◌==◌ as ◌≟◌}
use text.Mathlib.TextEquality.{eq_iff}
use rust_rtb_bidder.Base.{
  ℕ, suc, ◌+◌, ◌≤◌, ◌<◌, ◌≡◌, refl, sym, subst, ◌∙◌, arith, Bool, true, false, ◌&&◌, List, [], ◌∷◌,
  ◌++◌, ◌⊎◌, inl, inr, if◌then◌else◌, All, Bool-cases, unwrap_or,
}
use rust_rtb_bidder.WinNotice.{
  WinNoticeGateService, accept, auth_failed, Crypto, SetNx, SetResult, set_true, set_other,
  set_error, gate_of, check, dedup_key, dedup_ttl, verify_token, signing_message,
}
use rust_rtb_bidder.Handlers.{
  WinParams, WinState, Clocks, AdEvent, bid_event, win_event, win_event_of, settle_win, gate, win,
}
use rust_rtb_bidder.Handlers.Wins.{asked}

-- What Redis documents of SET with NX and EX: the key is set only where it is not held, it is then held
-- for the time to live, and no answer, an error neither, gives a key back early.
pub record SetNxLaws {R : Type 0} (set_nx : SetNx R) : Type 0 where
  pub held_until : R → String → ℕ
  pub grants_unheld :
      (redis : R) (now : ℕ) (key : String) (ttl : ℕ)
      → (set_nx redis now key ttl).1 ≡ set_true
      → held_until redis key ≤ now
  pub holds :
      (redis : R) (now : ℕ) (key : String) (ttl : ℕ)
      → (set_nx redis now key ttl).1 ≡ set_true
      → now + ttl ≤ held_until (set_nx redis now key ttl).0 key
  pub keeps :
      (redis : R) (now : ℕ) (key : String) (ttl : ℕ) (other : String)
      → held_until redis other ≤ held_until (set_nx redis now key ttl).0 other

-- How often a win of the impression was published.
abbrev pub is_win_of : String → String → AdEvent → Bool
is_win_of request_id imp_id (bid_event e) = false
is_win_of request_id imp_id (win_event e) = (e.request_id ≟ request_id) && (e.imp_id ≟ imp_id)

abbrev pub wins_of : String → String → List (ℕ × AdEvent) → ℕ
wins_of request_id imp_id [] = 0
wins_of request_id imp_id (x ∷ log) =
    let rest = wins_of request_id imp_id log in
    if is_win_of request_id imp_id x.1 then suc rest else rest

wins_of-append :
    (request_id imp_id : String) (log : List (ℕ × AdEvent)) (x : ℕ × AdEvent)
    → wins_of request_id imp_id (log ++ (x ∷ []))
      ≡ wins_of request_id imp_id log + (if is_win_of request_id imp_id x.1 then 1 else 0)
wins_of-append request_id imp_id [] x = ground arith
wins_of-append request_id imp_id (y ∷ log) x =
    ground (arith, wins_of-append request_id imp_id log x)

same_key : (a b c d : String) → ((a ≟ c) && (b ≟ d)) ≡ true → dedup_key a b ≡ dedup_key c d
same_key a b c d h =
    λ i. dedup_key ((eq_iff a c).0 (ground arith) i) ((eq_iff b d).0 (ground arith) i)

module _ (crypto : Crypto) {R : Type 0} (set_nx : SetNx R) (service : WinNoticeGateService) where
  -- The handler, call after call.
  unfoldable pub run_wins : WinState R → List (WinParams × Clocks) → WinState R
  run_wins w [] = w
  run_wins w (call ∷ calls) = run_wins (win crypto set_nx service w call).0 calls

  -- The gate: the token is refused and the store is not asked, or the store decides.
  gate_cases :
      (w : WinState R) (p : WinParams) (c : Clocks)
      → (gate crypto set_nx service p (w.redis, c.now) ≡ (w.redis, auth_failed))
        ⊎ (gate crypto set_nx service p (w.redis, c.now) ≡ (
          (asked crypto set_nx service w (p, c)).0,
          gate_of (asked crypto set_nx service w (p, c)).1,
        ))
  unfolding gate check
  gate_cases w p c =
      elim (Bool-cases (
        verify_token crypto service
          (signing_message p.request_id p.imp_id p.campaign_id p.creative_id) p.token
          (unwrap_or p.exchange_id ""))) [ inl v ↦ inr (rw v refl) | inr v ↦ inl (rw v refl) ]

  module _ (laws : SetNxLaws set_nx) (request_id imp_id : String) (start : ℕ) where
    abbrev pub InWindow : WinParams × Clocks → Type 0
    InWindow call = (start ≤ call.1.now) × (call.1.now < start + dedup_ttl service)

    -- No win of the impression yet, or one, and its key is held to the end of the window.
    abbrev Once : WinState R → Type 0
    Once w =
        (wins_of request_id imp_id w.published ≡ 0)
        ⊎ ((wins_of request_id imp_id w.published ≡ 1)
            × (start + dedup_ttl service ≤ laws.held_until w.redis (dedup_key request_id imp_id)))

    -- The same count, and the keys held at least as long.
    Once-keeps :
        (w w' : WinState R)
        → wins_of request_id imp_id w'.published ≡ wins_of request_id imp_id w.published
        → laws.held_until w.redis (dedup_key request_id imp_id)
          ≤ laws.held_until w'.redis (dedup_key request_id imp_id)
        → Once w
        → Once w'
    Once-keeps w w' e h o = ground arith

    -- What an answer of the store means for the keys.
    abbrev Means : R → ℕ → String → R → SetResult → Type 0
    Means redis now key redis' x =
        (x ≡ set_true
          → (laws.held_until redis key ≤ now)
            × (now + dedup_ttl service ≤ laws.held_until redis' key))
        × ((other : String) → laws.held_until redis other ≤ laws.held_until redis' other)

    unheld-none :
        (w : WinState R) (now : ℕ)
        → now < start + dedup_ttl service
        → laws.held_until w.redis (dedup_key request_id imp_id) ≤ now
        → Once w
        → wins_of request_id imp_id w.published ≡ 0
    unheld-none w now h k (inl z) = z
    unheld-none w now h k (inr (e, g)) = absurd (omega (arith, h, k, g))

    accept-Once :
        (w : WinState R) (p : WinParams) (c : Clocks) (redis : R)
        → InWindow (p, c)
        → Means w.redis c.now (dedup_key p.request_id p.imp_id) redis set_true
        → Once w
        → Once (settle_win c p w (redis, accept)).0
    unfolding settle_win
    accept-Once w p c redis h m o =
        elim (Bool-cases
          (is_win_of request_id imp_id (win_event (win_event_of p c.timestamp_ms)))) [
            | inl e ↦
                let key = same_key p.request_id p.imp_id request_id imp_id e in
                let meant = subst (λ k. Means w.redis c.now k redis set_true) key m in
                inr (
                  wins_of-append request_id imp_id w.published
                        (p.campaign_id, win_event (win_event_of p c.timestamp_ms))
                      ∙ rw e (rw (unheld-none w c.now h.1 (meant.0 refl).0 o) refl),
                  omega (arith, h.0, (meant.0 refl).1),
                )
            | inr e ↦
                Once-keeps w (settle_win c p w (redis, accept)).0
                  (wins_of-append request_id imp_id w.published
                      (p.campaign_id, win_event (win_event_of p c.timestamp_ms))
                    ∙ rw e (omega arith))
                  (m.1 (dedup_key request_id imp_id)) o
          ]

    settle-Once :
        (w : WinState R) (p : WinParams) (c : Clocks) (redis : R) (x : SetResult)
        → InWindow (p, c)
        → Means w.redis c.now (dedup_key p.request_id p.imp_id) redis x
        → Once w
        → Once (settle_win c p w (redis, gate_of x)).0
    unfolding settle_win
    settle-Once w p c redis set_true h m o = accept-Once w p c redis h m o
    settle-Once w p c redis set_other h m o =
        Once-keeps w (record w { redis = redis }) refl (m.1 (dedup_key request_id imp_id)) o
    settle-Once w p c redis set_error h m o =
        Once-keeps w (record w { redis = redis }) refl (m.1 (dedup_key request_id imp_id)) o

    win-Once :
        (w : WinState R) (call : WinParams × Clocks)
        → InWindow call
        → Once w
        → Once (win crypto set_nx service w call).0
    unfolding win settle_win
    win-Once w (p, c) h o = elim (gate_cases w p c) [
      | inl e ↦ subst (λ g. Once (settle_win c p w g).0) (sym e) o
      | inr e ↦
          subst (λ g. Once (settle_win c p w g).0) (sym e)
            (settle-Once w p c _ _ h
              (
                λ t. (
                  laws.grants_unheld w.redis c.now (dedup_key p.request_id p.imp_id) _ t,
                  laws.holds w.redis c.now (dedup_key p.request_id p.imp_id) _ t,
                ),
                laws.keeps w.redis c.now (dedup_key p.request_id p.imp_id) _,
              )
              o)
    ]

    run-Once :
        (calls : List (WinParams × Clocks)) (w : WinState R)
        → All InWindow calls
        → Once w
        → Once (run_wins w calls)
    unfolding run_wins
    run-Once [] w h o = o
    run-Once (call ∷ calls) w (h, hs) o =
        run-Once calls (win crypto set_nx service w call).0 hs (win-Once w call h o)

    -- In any sequence of calls within one time to live, an impression that no win was published for
    -- has at most one win published, whatever the calls claim and however the store fails.
    pub wins-le-one :
        (calls : List (WinParams × Clocks)) (w : WinState R)
        → All InWindow calls
        → wins_of request_id imp_id w.published ≡ 0
        → wins_of request_id imp_id (run_wins w calls).published ≤ 1
    wins-le-one calls w h z = elim (run-Once calls w h (inl z)) [
      | inl e ↦ omega (arith, e)
      | inr (e, k) ↦ omega (arith, e)
    ]
