-- ===== src/WinNotice/Token.antt =====
-- Which tokens are accepted, and that the notices of the bidder's own bids are.
use Prim.Native.String.{String}
use rust_rtb_bidder.Base.{
  ℕ, ◌≡◌, refl, ap, ◌∙◌, arith, true, false, Option, none, some, List, ◌∷◌, ◌↔◌, ◌⊎◌, inl, inr,
  Option-cases, Bool-cases,
}
use rust_rtb_bidder.Model.{is_blank}
use rust_rtb_bidder.Percent.{as_bytes}
use rust_rtb_bidder.Pipeline.Response.{WinNoticeRequest}
use rust_rtb_bidder.WinNotice.{
  Crypto, WinNoticeGateService, SetNx, gate_of, secret_for, sign, signing_message, verify_token,
  check, dedup_key, dedup_ttl,
}

-- What the documents of the crates say: any key is taken and a digest is not empty, decoding undoes
-- encoding and only nothing is encoded as nothing, and the comparison is that of the bytes.
pub record CryptoLaws (crypto : Crypto) : Type 0 where
  pub hmac_total :
      (key message : List ℕ)
      → (b : ℕ) × ((mac : List ℕ) × (crypto.hmac key message ≡ some (b ∷ mac)))
  pub decode_encode : (bs : List ℕ) → crypto.hex_decode (crypto.hex_encode bs) ≡ some bs
  pub encode_nonblank : (b : ℕ) (bs : List ℕ) → is_blank (crypto.hex_encode (b ∷ bs)) ≡ false
  pub ct_eq_iff : (a b : List ℕ) → (crypto.ct_eq a b ≡ true) ↔ (a ≡ b)

-- A token that stands for the digest of the message under this key.
abbrev pub IsTokenFor : Crypto → List ℕ → String → Option String → Type 0
IsTokenFor crypto key message presented =
    (hex : String) × ((presented ≡ some hex)
      × ((is_blank hex ≡ false)
          × ((mac : List ℕ) × ((crypto.hex_decode hex ≡ some mac)
                × (crypto.hmac key (as_bytes message) ≡ some mac)))))

abbrev pub IsAuthentic : Crypto → WinNoticeGateService → String → Option String → String → Type 0
IsAuthentic crypto s message presented exchange_id =
    (secret_for s exchange_id ≡ none)
    ⊎ ((key : List ℕ) × ((secret_for s exchange_id ≡ some key)
          × IsTokenFor crypto key message presented))

module _ (crypto : Crypto) (laws : CryptoLaws crypto) (s : WinNoticeGateService) where
  verify-IsAuthentic :
      (message : String) (presented : Option String) (exchange_id : String)
      → verify_token crypto s message presented exchange_id ≡ true
      → IsAuthentic crypto s message presented exchange_id
  unfolding verify_token
  verify-IsAuthentic message presented exchange_id h =
      elim (Option-cases (secret_for s exchange_id)) [
        | inl e ↦ inl e
        | inr (key, e) ↦ elim (Option-cases presented) [
          | inl p ↦ absurd (ground arith)
          | inr (hex, p) ↦ elim (Bool-cases (is_blank hex)) [
            | inl b ↦ absurd (ground arith)
            | inr b ↦ elim (Option-cases (crypto.hex_decode hex)) [
              | inl d ↦ absurd (ground arith)
              | inr (mac, d) ↦ elim (Option-cases (crypto.hmac key (as_bytes message))) [
                | inl m ↦ absurd (ground arith)
                | inr (expected, m) ↦
                    let same = (laws.ct_eq_iff expected mac).0 (ground arith) in
                    inr (key, (e, (hex, (p, (b, (mac, (d, m ∙ ap some same)))))))
              ]
            ]
          ]
        ]
      ]

  IsAuthentic-verify :
      (message : String) (presented : Option String) (exchange_id : String)
      → IsAuthentic crypto s message presented exchange_id
      → verify_token crypto s message presented exchange_id ≡ true
  unfolding verify_token
  IsAuthentic-verify message presented exchange_id (inl e) = ground arith
  IsAuthentic-verify message presented exchange_id
        (inr (key, (e, (hex, (p, (b, (mac, (d, m)))))))) =
      ground (arith, (laws.ct_eq_iff mac mac).1 refl)

  verify-sign :
      (message exchange_id : String)
      → verify_token crypto s message (sign crypto s message exchange_id) exchange_id ≡ true
  unfolding sign
  verify-sign message exchange_id = elim (Option-cases (secret_for s exchange_id)) [
    | inl e ↦ IsAuthentic-verify message _ exchange_id (inl e)
    | inr (key, e) ↦
        let m = laws.hmac_total key (as_bytes message) in
        IsAuthentic-verify message _ exchange_id (
          inr (
            key,
            (
              e,
              (
                crypto.hex_encode (m.0 ∷ m.1.0),
                (
                  rw e (rw m.1.1 refl),
                  (
                    laws.encode_nonblank m.0 m.1.0,
                    (m.0 ∷ m.1.0, (laws.decode_encode (m.0 ∷ m.1.0), m.1.1)),
                  ),
                ),
              ),
            ),
          ))
  ]

  -- A token is accepted exactly where the exchange has no secret of its own and there is no default,
  -- or where it is the text of the digest of the message under the exchange's secret. What the
  -- service signs for a message, a token or none where there is no secret, is accepted for it.
  pub verify_token-IsAuthentic :
      (message : String) (presented : Option String) (exchange_id : String)
      → ((verify_token crypto s message presented exchange_id ≡ true)
          ↔ IsAuthentic crypto s message presented exchange_id)
        × (verify_token crypto s message (sign crypto s message exchange_id) exchange_id ≡ true)
  verify_token-IsAuthentic message presented exchange_id = (
    (
      verify-IsAuthentic message presented exchange_id,
      IsAuthentic-verify message presented exchange_id,
    ),
    verify-sign message exchange_id,
  )

  -- A notice that comes back with the fields of a bid, its token and any price passes the
  -- authentication: the gate is what the store answers for the key of the request and the impression.
  pub check-sign :
      {R : Type 0} (set_nx : SetNx R) (redis : R) (now : ℕ) (req : WinNoticeRequest)
      → let answer = set_nx redis now (dedup_key req.request_id req.imp_id) (dedup_ttl s) in
        check crypto set_nx s
          (redis, now)
          req.request_id
          req.imp_id
          req.campaign_id
          req.creative_id
          (sign crypto s
            (signing_message req.request_id req.imp_id req.campaign_id req.creative_id)
            req.exchange_id)
          req.exchange_id
        ≡ (answer.0, gate_of answer.1)
  unfolding check
  check-sign set_nx redis now req =
      rw
        (verify-sign (signing_message req.request_id req.imp_id req.campaign_id req.creative_id)
          req.exchange_id)
        refl
