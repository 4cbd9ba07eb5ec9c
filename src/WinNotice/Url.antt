-- ===== src/WinNotice/Url.antt =====
-- What the reader of WinNotice/Query.antt finds in the query of an address.
use Prim.Native.String.{String, ◌++◌ as ◌<>◌}
use rust_rtb_bidder.Base.{
  ℕ, ◌/◌, ◌%◌, ◌-◌, zero, suc, ◌≡◌, refl, sym, subst, arith, true, false, Option, none, some, List,
  [], ◌∷◌, ◌++◌, if◌then◌else◌, if_intro, All, All-append, append-nil, inl, inr, Bool-cases,
  Option-cases, ltb,
}
use rust_rtb_bidder.Model.{to_string, print, digit, digits, entry, is_blank}
use rust_rtb_bidder.Base.Words.{u64_mod, i64_bias}
use rust_rtb_bidder.Percent.{as_bytes, is_safe, percent_encode}
use rust_rtb_bidder.Percent.Decoded.{
  decode, plain, codes, codes-append, IsQuerySafe, decode-percent_encode,
}
use rust_rtb_bidder.Pipeline.Response.{WinNoticeRequest}
use rust_rtb_bidder.WinNotice.{
  Crypto, WinNoticeGateService, sign, secret_for, signing_message, build, query_of, token_param,
  exchange_param, signed_text,
}
use rust_rtb_bidder.WinNotice.Query.{Field, fields, IsKey, Continues, fields-first}

-- A text that an encoding leaves as it is.
abbrev pub IsPlainText : String → Type 0
IsPlainText s = All (λ c. is_safe c ≡ true) (codes s)

decode-plain : (cs : List ℕ) → All (λ c. is_safe c ≡ true) cs → decode plain cs ≡ some cs
unfolding decode is_safe
decode-plain [] h = refl
decode-plain (c ∷ cs) (h, hs) = rw (decode-plain cs hs) (ground (arith, h))

append-IsPlainText : (s t : String) → IsPlainText s → IsPlainText t → IsPlainText (s <> t)
append-IsPlainText s t h k = rw (codes-append s t) (All-append _ (codes s) (codes t) h k)

entry-IsPlainText : (ss : List String) (n : ℕ) → All IsPlainText ss → IsPlainText (entry ss n)
unfolding codes
entry-IsPlainText [] n h = tt
entry-IsPlainText (s ∷ ss) zero (h, hs) = h
entry-IsPlainText (s ∷ ss) (suc n) (h, hs) = entry-IsPlainText ss n hs

digits-IsPlainText : All IsPlainText digits
unfolding codes is_safe
digits-IsPlainText = ground arith

print-IsPlainText : (fuel n : ℕ) → IsPlainText (print fuel n)
unfolding codes
print-IsPlainText zero n = tt
print-IsPlainText (suc fuel) n =
    if_intro IsPlainText (ltb n 10) (digit n) _ (λ h. entry-IsPlainText digits n digits-IsPlainText)
      (λ h.
        append-IsPlainText (print fuel (n / 10)) (digit (n % 10)) (print-IsPlainText fuel (n / 10))
          (entry-IsPlainText digits (n % 10) digits-IsPlainText))

to_string-IsPlainText : (n : ℕ) → IsPlainText (to_string n)
unfolding to_string
to_string-IsPlainText n = print-IsPlainText 20 n

signed_text-IsPlainText : (n : ℕ) → IsPlainText (signed_text n)
unfolding signed_text codes is_safe
signed_text-IsPlainText n =
    if_intro IsPlainText (ltb n i64_bias) _ _ (λ h. to_string-IsPlainText n)
      (λ h.
        append-IsPlainText "-" (to_string (u64_mod - n)) (refl, tt)
          (to_string-IsPlainText (u64_mod - n)))

plain-IsQuerySafe : (s : String) → IsPlainText s → All IsQuerySafe (codes s)
unfolding codes
plain-IsQuerySafe String.[] h = tt
plain-IsQuerySafe (String.◌∷◌ c s) (h, hs) = (ground (arith, h), plain-IsQuerySafe s hs)

abbrev pub value : String → Option (List ℕ)
value s = some (codes s)

abbrev pub text_field : String → String → Field
text_field key s = (codes key, some (as_bytes s))

abbrev pub plain_field : String → String → Field
plain_field key s = (codes key, some (codes s))

-- The fields that a notice has to come back with.
abbrev pub token_field : Option String → List Field
token_field none = []
token_field (some t) = plain_field "token" t ∷ []

abbrev pub exchange_field : String → List Field
exchange_field exchange_id =
    if is_blank exchange_id then [] else text_field "exchange_id" exchange_id ∷ []

abbrev pub fields_of : WinNoticeRequest → Option String → List Field
fields_of req token =
    text_field "request_id" req.request_id
    ∷ text_field "imp_id" req.imp_id
    ∷ plain_field "campaign_id" (to_string req.campaign_id)
    ∷ plain_field "creative_id" (to_string req.creative_id)
    ∷ plain_field "clearing_price_micros" (signed_text req.clearing_price_micros)
    ∷ text_field "user_id" req.user_id
    ∷ (exchange_field req.exchange_id ++ token_field token)

text_first :
    (key : List ℕ) (s : String) (tail : List ℕ) (fs : List Field)
    → IsKey key
    → Continues tail fs
    → fields (key ++ 61 ∷ (codes (percent_encode s) ++ tail)) ≡ (key, some (as_bytes s)) ∷ fs
text_first key s tail fs h k =
    rw (sym (decode-percent_encode s).1)
      (fields-first key (codes (percent_encode s)) tail fs h (decode-percent_encode s).0 k)

plain_first :
    (key : List ℕ) (s : String) (tail : List ℕ) (fs : List Field)
    → IsKey key
    → IsPlainText s
    → Continues tail fs
    → fields (key ++ 61 ∷ (codes s ++ tail)) ≡ (key, some (codes s)) ∷ fs
plain_first key s tail fs h p k =
    rw (sym (decode-plain (codes s) p))
      (fields-first key (codes s) tail fs h (plain-IsQuerySafe s p) k)

plain_last :
    (key : List ℕ) (s : String)
    → IsKey key
    → IsPlainText s
    → fields (key ++ 61 ∷ codes s) ≡ (key, some (codes s)) ∷ []
plain_last key s h p =
    subst (λ v. fields (key ++ 61 ∷ v) ≡ (key, some (codes s)) ∷ []) (append-nil (codes s))
      (plain_first key s [] [] h p (inl (refl, refl)))

more : (rest : List ℕ) (fs : List Field) → fields rest ≡ fs → Continues (38 ∷ rest) fs
more rest fs h = inr (rest, (refl, h))

token_param-Continues :
    (token : Option String)
    → ((t : String) → token ≡ some t → IsPlainText t)
    → Continues (codes (token_param token)) (token_field token)
unfolding codes
token_param-Continues none h = inl (refl, refl)
token_param-Continues (some t) h =
    rw (codes-append "&token=" t) (more _ _ (plain_last (codes "token") t (refl, refl) (h t refl)))

exchange_param-Continues :
    (exchange_id : String) (tail : List ℕ) (fs : List Field)
    → Continues tail fs
    → Continues (codes (exchange_param exchange_id) ++ tail) (exchange_field exchange_id ++ fs)
unfolding codes
exchange_param-Continues exchange_id tail fs k = elim (Bool-cases (is_blank exchange_id)) [
  | inl b ↦ rw b k
  | inr b ↦ rw b (
      rw (codes-append "&exchange_id=" (percent_encode exchange_id))
        (more _ _ (text_first (codes "exchange_id") exchange_id tail fs (refl, refl) k)))
]

sign-IsPlainText :
    (crypto : Crypto) (s : WinNoticeGateService) (message exchange_id : String)
    → ((mac : List ℕ) → IsPlainText (crypto.hex_encode mac))
    → (t : String) → sign crypto s message exchange_id ≡ some t
    → IsPlainText t
unfolding sign
sign-IsPlainText crypto s message exchange_id h t e =
    elim (Option-cases (secret_for s exchange_id)) [
      | inl k ↦ absurd (ground arith)
      | inr (key, k) ↦ elim (Option-cases (crypto.hmac key (as_bytes message))) [
        | inl m ↦ absurd (ground arith)
        | inr (mac, m) ↦
            let same : crypto.hex_encode mac ≡ t = ground arith in subst IsPlainText same (h mac)
      ]
    ]

fields-query_of :
    (req : WinNoticeRequest) (token : Option String)
    → ((t : String) → token ≡ some t → IsPlainText t)
    → fields (codes (query_of req token)) ≡ fields_of req token
unfolding query_of codes
fields-query_of req token h = simp codes-append (
    text_first (codes "request_id") req.request_id _ _ (refl, refl)
      (more _ _ (
        text_first (codes "imp_id") req.imp_id _ _ (refl, refl)
          (more _ _ (
            plain_first (codes "campaign_id") (to_string req.campaign_id) _ _ (refl, refl)
              (to_string-IsPlainText req.campaign_id)
              (more _ _ (
                plain_first (codes "creative_id") (to_string req.creative_id) _ _ (refl, refl)
                  (to_string-IsPlainText req.creative_id)
                  (more _ _ (
                    plain_first (codes "clearing_price_micros")
                      (signed_text req.clearing_price_micros) _ _ (refl, refl)
                      (signed_text-IsPlainText req.clearing_price_micros)
                      (more _ _ (
                        text_first (codes "user_id") req.user_id _ _ (refl, refl)
                          (exchange_param-Continues req.exchange_id _ _
                            (token_param-Continues token h)))))))))))))

-- The address of a notice is the base, a question mark and a query in which an independent reader
-- finds every field of the notice, whatever characters its texts have: the texts as their bytes, the
-- numbers in decimal, the exchange where there is one, and the token where the notice is signed.
pub build-fields :
    (crypto : Crypto) (s : WinNoticeGateService) (req : WinNoticeRequest)
    → ((mac : List ℕ) → IsPlainText (crypto.hex_encode mac))
    → is_blank s.cfg.notice_base_url ≡ false
    → let token =
        sign crypto s
          (signing_message req.request_id req.imp_id req.campaign_id req.creative_id)
          req.exchange_id in
      (build crypto s req ≡ some (s.cfg.notice_base_url <> "?" <> query_of req token))
      × (fields (codes (query_of req token)) ≡ fields_of req token)
unfolding build
build-fields crypto s req h b = (rw b refl, fields-query_of req _ (sign-IsPlainText crypto s _ _ h))
