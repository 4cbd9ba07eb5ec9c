-- ===== src/Adx/Named.antt =====
-- What the ads of an answer name: the slot of the request and the creatives of the winners.
use Prim.Native.String.{String}
use native.Mathlib.Nat.{pow-succ'}
use rust_rtb_bidder.Base.{
  ℕ, zero, suc, ◌+◌, ◌-◌, ◌*◌, ◌/◌, ◌%◌, ◌^◌, ◌<◌, ◌≡◌, refl, ap, subst, ◌∙◌, arith, Bool, true,
  false, some, List, [], ◌∷◌, ◌++◌, map, append-nil, All, ltb, ◌==◌, unwrap_or, if_intro, ltb→lt,
  ◌>>=◌, FloatOps,
}
use rust_rtb_bidder.Base.Words.{u32_mod}
use rust_rtb_bidder.Model.{BidContext, ImpWinner, to_string, print, digit}
use rust_rtb_bidder.Percent.Decoded.{codes, codes-append}
use rust_rtb_bidder.Percent.Numbers.{below_power}
use rust_rtb_bidder.Pipeline.Response.{NoticeUrlBuilder, notice_of, bid_of, response_of}
use rust_rtb_bidder.Adx.{
  AdxOps, Ad, parse_digits, parse_codes, parse_u32, ad_of, all_ads, internal_to_adx,
}

parse_digits-append :
    (acc : ℕ) (xs ys : List ℕ)
    → parse_digits acc (xs ++ ys) ≡ (parse_digits acc xs >>= λ a. parse_digits a ys)
unfolding parse_digits
parse_digits-append acc [] ys = refl
parse_digits-append acc (x ∷ xs) ys =
    ground (arith, parse_digits-append (acc * 10 + (x - 48)) xs ys)

parse_digit :
    (acc d : ℕ)
    → d < 10
    → acc * 10 + d < u32_mod
    → parse_digits acc (codes (digit d)) ≡ some (acc * 10 + d)
unfolding parse_digits codes
parse_digit acc zero h k = ground arith
parse_digit acc (suc zero) h k = ground arith
parse_digit acc (suc (suc zero)) h k = ground arith
parse_digit acc (suc (suc (suc zero))) h k = ground arith
parse_digit acc (suc (suc (suc (suc zero)))) h k = ground arith
parse_digit acc (suc (suc (suc (suc (suc zero))))) h k = ground arith
parse_digit acc (suc (suc (suc (suc (suc (suc zero)))))) h k = ground arith
parse_digit acc (suc (suc (suc (suc (suc (suc (suc zero))))))) h k = ground arith
parse_digit acc (suc (suc (suc (suc (suc (suc (suc (suc zero)))))))) h k = ground arith
parse_digit acc (suc (suc (suc (suc (suc (suc (suc (suc (suc zero))))))))) h k = ground arith
parse_digit acc (suc (suc (suc (suc (suc (suc (suc (suc (suc (suc d)))))))))) h k =
    absurd (omega (arith, h))

parse-print :
    (fuel n : ℕ)
    → n < 10 ^ suc fuel
    → n < u32_mod
    → parse_digits 0 (codes (print (suc fuel) n)) ≡ some n
unfolding codes parse_digits
parse-print zero n h k =
    if_intro {A = String} (λ s. parse_digits 0 (codes s) ≡ some n) (ltb n 10) _ _
      (λ t. parse_digit 0 n (ltb→lt n 10 t) (omega (arith, k)) ∙ ap some (omega arith))
      (λ t. absurd (ground (arith, h, t)))
parse-print (suc fuel) n h k =
    if_intro {A = String} (λ s. parse_digits 0 (codes s) ≡ some n) (ltb n 10) _ _
      (λ t. parse_digit 0 n (ltb→lt n 10 t) (omega (arith, k)) ∙ ap some (omega arith))
      (λ t.
        ap (parse_digits 0) (codes-append (print (suc fuel) (n / 10)) (digit (n % 10)))
        ∙ (parse_digits-append 0 (codes (print (suc fuel) (n / 10))) (codes (digit (n % 10)))
            ∙ (ap (λ m. m >>= λ a. parse_digits a (codes (digit (n % 10))))
                  (parse-print fuel (n / 10)
                    (below_power n (10 ^ suc fuel) (subst (λ p. n < p) (pow-succ' 10 (suc fuel)) h))
                    (omega (arith, k)))
                ∙ (parse_digit (n / 10) (n % 10) (omega arith) (omega (arith, k))
                    ∙ ap some (omega arith)))))

abbrev has_codes : List ℕ → Bool
has_codes [] = false
has_codes (c ∷ cs) = true

has_codes-append : (xs ys : List ℕ) → has_codes ys ≡ true → has_codes (xs ++ ys) ≡ true
has_codes-append [] ys h = h
has_codes-append (x ∷ xs) ys h = refl

has_codes-digit : (d : ℕ) → d < 10 → has_codes (codes (digit d)) ≡ true
unfolding codes
has_codes-digit zero h = refl
has_codes-digit (suc zero) h = refl
has_codes-digit (suc (suc zero)) h = refl
has_codes-digit (suc (suc (suc zero))) h = refl
has_codes-digit (suc (suc (suc (suc zero)))) h = refl
has_codes-digit (suc (suc (suc (suc (suc zero))))) h = refl
has_codes-digit (suc (suc (suc (suc (suc (suc zero)))))) h = refl
has_codes-digit (suc (suc (suc (suc (suc (suc (suc zero))))))) h = refl
has_codes-digit (suc (suc (suc (suc (suc (suc (suc (suc zero)))))))) h = refl
has_codes-digit (suc (suc (suc (suc (suc (suc (suc (suc (suc zero))))))))) h = refl
has_codes-digit (suc (suc (suc (suc (suc (suc (suc (suc (suc (suc d)))))))))) h =
    absurd (omega (arith, h))

has_codes-print : (fuel n : ℕ) → has_codes (codes (print (suc fuel) n)) ≡ true
unfolding codes
has_codes-print fuel n =
    if_intro {A = String} (λ s. has_codes (codes s) ≡ true) (ltb n 10) _ _
      (λ t. has_codes-digit n (ltb→lt n 10 t))
      (λ t.
        ap has_codes (codes-append (print fuel (n / 10)) (digit (n % 10)))
        ∙ has_codes-append (codes (print fuel (n / 10))) (codes (digit (n % 10)))
            (has_codes-digit (n % 10) (omega arith)))

parse_codes-digits :
    (cs : List ℕ) (n : ℕ)
    → has_codes cs ≡ true
    → parse_digits 0 cs ≡ some n
    → parse_codes cs ≡ some n
unfolding parse_codes parse_digits
parse_codes-digits [] n h k = absurd (ground (arith, h))
parse_codes-digits (c ∷ cs) n h k =
    if_intro (λ o. o ≡ some n) (c == 43) _ _ (λ t. absurd (ground (arith, t, k))) (λ t. k)

parse_codes-print :
    (fuel n : ℕ)
    → n < 10 ^ suc fuel
    → n < u32_mod
    → parse_codes (codes (print (suc fuel) n)) ≡ some n
parse_codes-print fuel n h k =
    parse_codes-digits (codes (print (suc fuel) n)) n (has_codes-print fuel n)
      (parse-print fuel n h k)

-- Reading the text of a u32 gives the number.
pub parse_u32-to_string : (n : ℕ) → n < u32_mod → parse_u32 (to_string n) ≡ some n
unfolding parse_u32 to_string
parse_u32-to_string n h = parse_codes-print 19 n (omega (arith, h)) h

module _ {F V J : Type 0} (fl : FloatOps F) (ops : AdxOps F V J) (json : List (String × F) → V)
    (build : NoticeUrlBuilder) (exchange_id : String) where
  -- What an ad says: its slot, its creative and the address of its win notice.
  abbrev pub said : Ad → ℕ × (ℕ × String)
  said a = (a.adslot_id, (a.buyer_creative_id, a.nurl))

  -- What it is to say for a winner: the slot, the winner's creative, and the notice's address.
  abbrev pub offer : {C : Type 0} → BidContext F V C → ℕ → ImpWinner F → ℕ × (ℕ × String)
  offer ctx slot w = (
    slot,
    (w.creative_id, unwrap_or (build (notice_of fl json build exchange_id ctx.request w)) ""),
  )

  abbrev pub IsFor : ℕ → ImpWinner F → Type 0
  IsFor slot w = (w.imp_id ≡ to_string slot) × (w.creative_id < u32_mod)

  ad_of-said :
      {C : Type 0} (ctx : BidContext F V C) (slot : ℕ) (w : ImpWinner F)
      → slot < u32_mod
      → IsFor slot w
      → said (ad_of fl ops (bid_of fl json build exchange_id ctx.request w)) ≡ offer ctx slot w
  unfolding ad_of bid_of
  ad_of-said ctx slot w h (i, c) =
      ap (λ s. (unwrap_or (parse_u32 s) 0, said_rest)) i
      ∙ ap (λ o. (unwrap_or o 0, said_rest)) (parse_u32-to_string slot h)
      ∙ ap (λ o. (slot, (unwrap_or o 0, address))) (parse_u32-to_string w.creative_id c)
    where
      address : String
      address = unwrap_or (build (notice_of fl json build exchange_id ctx.request w)) ""

      said_rest : ℕ × String
      said_rest = (unwrap_or (parse_u32 (to_string w.creative_id)) 0, address)

  ads-winners :
      {C : Type 0} (ctx : BidContext F V C) (slot : ℕ) (ws : List (ImpWinner F))
      → slot < u32_mod
      → All (IsFor slot) ws
      → map said (map (ad_of fl ops) (map (bid_of fl json build exchange_id ctx.request) ws))
        ≡ map (offer ctx slot) ws
  ads-winners ctx slot [] h k = refl
  ads-winners ctx slot (w ∷ ws) h (p, k) =
      rw (ad_of-said ctx slot w h p, ads-winners ctx slot ws h k) refl

  -- Where the winners answer the slot of the request, by the text of its number, and their creatives
  -- have 32 bits, the message that the adapter makes of the response has one ad for each winner, in
  -- order, with the slot's number, the winner's creative and the address of its win notice.
  pub internal_to_adx-offers :
      {C : Type 0} (ctx : BidContext F V C) (slot : ℕ)
      → slot < u32_mod
      → All (IsFor slot) ctx.winners
      → map said (internal_to_adx fl ops (response_of fl json build exchange_id ctx)).ad
        ≡ map (offer ctx slot) ctx.winners
  unfolding internal_to_adx all_ads response_of
  internal_to_adx-offers ctx slot h k =
      ap (map said) (
        append-nil
          (map (ad_of fl ops) (map (bid_of fl json build exchange_id ctx.request) ctx.winners)))
      ∙ ads-winners ctx slot ctx.winners h k
