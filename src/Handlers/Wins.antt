-- ===== src/Handlers/Wins.antt =====
-- One call of the win handler, for every outcome of its gate.
use rust_rtb_bidder.Base.{◌≡◌, ◌≢◌, refl, arith, Bool, true, false, [], ◌∷◌, ◌++◌, unwrap_or}
use rust_rtb_bidder.WinNotice.{
  WinNoticeGateService, auth_failed, Crypto, SetNx, SetResult, set_true, set_other, set_error,
  gate_of, check, dedup_key, dedup_ttl, verify_token, signing_message,
}
use rust_rtb_bidder.Handlers.{
  WinParams, WinState, Clocks, win_event, win_event_of, record_user, settle_win, gate, win, ok,
  unauthorized,
}

module _ (crypto : Crypto) {R : Type 0} (set_nx : SetNx R) (service : WinNoticeGateService) where
  abbrev pub asked : WinState R → WinParams × Clocks → R × SetResult
  asked w (p, c) = set_nx w.redis c.now (dedup_key p.request_id p.imp_id) (dedup_ttl service)

  abbrev pub verified : WinParams → Bool
  verified p =
      verify_token crypto service
        (signing_message p.request_id p.imp_id p.campaign_id p.creative_id) p.token
        (unwrap_or p.exchange_id "")

  settle_granted :
      (w : WinState R) (p : WinParams) (c : Clocks) (redis : R) (x : SetResult)
      → ((settle_win c p w (redis, gate_of x)).1 ≡ ok)
        × (((settle_win c p w (redis, gate_of x)).0.redis ≡ redis)
            × ((x ≡ set_true
                  → ((settle_win c p w (redis, gate_of x)).0.recorder
                      ≡ record_user w.recorder p c.hour_of_day)
                    × ((settle_win c p w (redis, gate_of x)).0.published
                        ≡ w.published
                          ++ ((p.campaign_id, win_event (win_event_of p c.timestamp_ms)) ∷ [])))
                × (x ≢ set_true
                    → ((settle_win c p w (redis, gate_of x)).0.recorder ≡ w.recorder)
                      × ((settle_win c p w (redis, gate_of x)).0.published ≡ w.published))))
  unfolding settle_win
  settle_granted w p c redis set_true = (refl, (refl, (λ e. (refl, refl), λ n. absurd (n refl))))
  settle_granted w p c redis set_other =
      (refl, (refl, (λ e. absurd (grind (arith, e)), λ n. (refl, refl))))
  settle_granted w p c redis set_error =
      (refl, (refl, (λ e. absurd (grind (arith, e)), λ n. (refl, refl))))

  gate-verified :
      (w : WinState R) (p : WinParams) (c : Clocks)
      → (verified p ≡ false
          → gate crypto set_nx service p (w.redis, c.now) ≡ (w.redis, auth_failed))
        × (verified p ≡ true
            → gate crypto set_nx service p (w.redis, c.now)
              ≡ ((asked w (p, c)).0, gate_of (asked w (p, c)).1))
  unfolding gate check
  gate-verified w p c = (λ v. rw v refl, λ v. rw v refl)

  -- Where the token is not accepted, the handler answers that the call is unauthorized and changes
  -- nothing, and the store is not asked. Everywhere else it answers ok and takes the store as the
  -- store left itself. Where the store set the key, the user is recorded and one win is published;
  -- where the key was there, or the store failed, neither the recorder nor the publisher gets anything.
  pub win-verified :
      (w : WinState R) (p : WinParams) (c : Clocks)
      → (verified p ≡ false → win crypto set_nx service w (p, c) ≡ (w, unauthorized))
        × (verified p ≡ true
            → ((win crypto set_nx service w (p, c)).1 ≡ ok)
              × (((win crypto set_nx service w (p, c)).0.redis ≡ (asked w (p, c)).0)
                  × (((asked w (p, c)).1 ≡ set_true
                        → ((win crypto set_nx service w (p, c)).0.recorder
                            ≡ record_user w.recorder p c.hour_of_day)
                          × ((win crypto set_nx service w (p, c)).0.published
                              ≡ w.published
                                ++ ((p.campaign_id, win_event (win_event_of p c.timestamp_ms))
                                    ∷ [])))
                      × ((asked w (p, c)).1 ≢ set_true
                          → ((win crypto set_nx service w (p, c)).0.recorder ≡ w.recorder)
                            × ((win crypto set_nx service w (p, c)).0.published ≡ w.published)))))
  unfolding win settle_win
  win-verified w p c = (
    λ v. rw ((gate-verified w p c).0 v) refl,
    λ v.
        rw ((gate-verified w p c).1 v) (settle_granted w p c (asked w (p, c)).0 (asked w (p, c)).1),
  )
