-- ===== src/WinNotice/Tests.antt =====
-- A gate with a keyed digest that is written in unary, and the theorems at one notice.
use Prim.Native.String.{String, ◌++◌ as ◌<>◌}
use Prim.Native.Char.{char, code}
use rust_rtb_bidder.Base.{
  ℕ, zero, suc, ◌+◌, ◌≡◌, ◌↔◌, refl, ap, ◌∙◌, arith, Bool, true, false, ◌&&◌, Option, none, some,
  List, [], ◌∷◌, ◌++◌, ◌==◌, if◌then◌else◌,
}
use rust_rtb_bidder.Model.{is_blank, to_string}
use rust_rtb_bidder.Percent.{is_safe}
use rust_rtb_bidder.Percent.Decoded.{codes}
use rust_rtb_bidder.Pipeline.Response.{WinNoticeRequest}
use rust_rtb_bidder.WinNotice.{
  Crypto, WinNoticeGateService, sign, signing_message, verify_token, build, query_of, dedup_key,
}
use rust_rtb_bidder.WinNotice.Query.{fields}
use rust_rtb_bidder.WinNotice.Url.{IsPlainText, fields_of, build-fields}
use rust_rtb_bidder.WinNotice.Token.{CryptoLaws, IsAuthentic, verify_token-IsAuthentic}

abbrev ones : ℕ → String → String
ones zero rest = String.◌∷◌ (char 48 tt) rest
ones (suc n) rest = String.◌∷◌ (char 49 tt) (ones n rest)

abbrev unary : List ℕ → String
unary [] = String.[]
unary (n ∷ ns) = ones n (unary ns)

abbrev keep : ℕ → Option (List ℕ) → Option (List ℕ)
keep n none = none
keep n (some ns) = some (n ∷ ns)

abbrev from_unary : String → ℕ → Option (List ℕ)
from_unary String.[] acc = some []
from_unary (String.◌∷◌ c s) acc =
    let longer = from_unary s (suc acc) in
    let rest = from_unary s 0 in if code c == 49 then longer else keep acc rest

from_unary-ones :
    (n acc : ℕ) (s : String) → from_unary (ones n s) acc ≡ keep (acc + n) (from_unary s 0)
from_unary-ones zero acc s = ap (λ k. keep k (from_unary s 0)) (omega arith)
from_unary-ones (suc n) acc s =
    from_unary-ones n (suc acc) s ∙ ap (λ k. keep k (from_unary s 0)) (omega arith)

from_unary-unary : (ns : List ℕ) → from_unary (unary ns) 0 ≡ some ns
from_unary-unary [] = refl
from_unary-unary (n ∷ ns) =
    from_unary-ones n 0 (unary ns)
    ∙ (ap (λ k. keep k (from_unary (unary ns) 0)) (omega arith) ∙ ap (keep n) (from_unary-unary ns))

unary-nonblank : (n : ℕ) (ns : List ℕ) → is_blank (unary (n ∷ ns)) ≡ false
unary-nonblank zero ns = refl
unary-nonblank (suc n) ns = refl

ones-IsPlainText : (n : ℕ) (s : String) → IsPlainText s → IsPlainText (ones n s)
unfolding codes is_safe
ones-IsPlainText zero s h = (refl, h)
ones-IsPlainText (suc n) s h = (refl, ones-IsPlainText n s h)

unary-IsPlainText : (ns : List ℕ) → IsPlainText (unary ns)
unfolding codes
unary-IsPlainText [] = tt
unary-IsPlainText (n ∷ ns) = ones-IsPlainText n (unary ns) (unary-IsPlainText ns)

abbrev same_bytes : List ℕ → List ℕ → Bool
same_bytes [] [] = true
same_bytes [] (y ∷ ys) = false
same_bytes (x ∷ xs) [] = false
same_bytes (x ∷ xs) (y ∷ ys) = let rest = same_bytes xs ys in (x == y) && rest

same_bytes_iff : (xs ys : List ℕ) → (same_bytes xs ys ≡ true) ↔ (xs ≡ ys)
same_bytes_iff [] [] = (λ h. refl, λ h. refl)
same_bytes_iff [] (y ∷ ys) = ground arith
same_bytes_iff (x ∷ xs) [] = ground arith
same_bytes_iff (x ∷ xs) (y ∷ ys) = ground (arith, same_bytes_iff xs ys)

abbrev crypto : Crypto
crypto = record {
  hmac = λ key message. some (7 ∷ (key ++ message));
  hex_encode = unary;
  hex_decode = λ s. from_unary s 0;
  ct_eq = same_bytes;
}

abbrev laws : CryptoLaws crypto
laws = record {
  hmac_total = λ key message. (7, (key ++ message, refl));
  decode_encode = from_unary-unary;
  encode_nonblank = unary-nonblank;
  ct_eq_iff = same_bytes_iff;
}

abbrev service : WinNoticeGateService
service = record {
  cfg = record {
    require_auth = true;
    secret = "k";
    secrets = ("adx", "s") ∷ [];
    dedup_ttl_secs = 3600;
    notice_base_url = "https://bid.example/win";
  };
  secret = some (107 ∷ []);
  secrets = ("adx", 115 ∷ []) ∷ [];
}

abbrev notice : WinNoticeRequest
notice = record {
  request_id = "r&1";
  imp_id = "i=1";
  campaign_id = 42;
  creative_id = 7;
  clearing_price_micros = 500000;
  user_id = "";
  exchange_id = "adx";
}

abbrev signature : Option String
signature = sign crypto service (signing_message "r&1" "i=1" 42 7) "adx"

build-fields_example :
    (build crypto service notice
      ≡ some ("https://bid.example/win" <> "?" <> query_of notice signature))
    × (fields (codes (query_of notice signature)) ≡ fields_of notice signature)
build-fields_example = build-fields crypto service notice unary-IsPlainText refl

verify_token-IsAuthentic_example :
    ((verify_token crypto service "m" (some "1") "adx" ≡ true)
      ↔ IsAuthentic crypto service "m" (some "1") "adx")
    × (verify_token crypto service "m" (sign crypto service "m" "adx") "adx" ≡ true)
verify_token-IsAuthentic_example = verify_token-IsAuthentic crypto laws service "m" (some "1") "adx"

-- Two notices that have one signature, and are not duplicates of one another.
same_message : signing_message "a|b" "c" 1 2 ≡ signing_message "a" "b|c" 1 2
unfolding signing_message to_string
same_message = refl

-- Two impressions that are duplicates of one another.
same_key : dedup_key "a:b" "c" ≡ dedup_key "a" "b:c"
unfolding dedup_key
same_key = refl
