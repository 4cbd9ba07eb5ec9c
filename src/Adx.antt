-- ===== src/Adx.antt =====
-- bidder-core/src/exchange/google_adx.rs: what the adapter makes of the two protobuf messages of
-- bidder-protos/proto/adx.proto. Reading and writing protobuf, the JSON values of serde_json with
-- `from_value`, `str::from_utf8`, and the rounding of floats are parameters.
pub mod Named
mod Tests
use Prim.Native.String.{String, ◌++◌ as ◌<>◌}
use Prim.Native.Char.{Char}
use rust_rtb_bidder.Base.{
  ℕ, ◌+◌, ◌-◌, ◌*◌, ◌/◌, ◌%◌, Bool, true, false, ◌&&◌, Option, none, some, List, [], ◌∷◌, ◌++◌, map,
  unwrap_or, leb, ltb, ◌==◌, if◌then◌else◌, FloatOps,
}
use rust_rtb_bidder.Base.Words.{u32_mod}
use rust_rtb_bidder.Model.{BidRequest, Bid, SeatBid, BidResponse, to_string}
use rust_rtb_bidder.Percent.{as_bytes, as_char}
use rust_rtb_bidder.Percent.Decoded.{codes}

pub record AdSlot : Type 0 where
  pub id : ℕ
  pub width : List ℕ
  pub height : List ℕ
  pub matching_ad_data_minimum_cpm_micros : ℕ

-- The request's site, user, geo and device, each with the texts that the adapter reads.
pub record AdxRequest : Type 0 where
  pub id : List ℕ
  pub adslot : Option AdSlot
  pub site : Option (String × String)
  pub user : Option String
  pub geo : Option (String × (String × String))
  pub device : Option (String × String)

pub record Ad : Type 0 where
  pub max_cpm_micros : ℕ
  pub buyer_creative_id : ℕ
  pub adslot_id : ℕ
  pub nurl : String
  pub ext_json : String

pub record AdxResponse : Type 0 where
  pub id : List ℕ
  pub ad : List Ad

-- `parse::<u32>` after the sign: every step's number has to fit.
unfoldable pub parse_digits : ℕ → List ℕ → Option ℕ
parse_digits acc [] = some acc
parse_digits acc (c ∷ cs) =
    let next = acc * 10 + (c - 48) in
    let rest = parse_digits next cs in
    if leb 48 c && (leb c 57 && ltb next u32_mod) then rest else none

abbrev pub parse_signed : List ℕ → Option ℕ
parse_signed [] = none
parse_signed (c ∷ cs) = parse_digits 0 (c ∷ cs)

-- `str::parse::<u32>`: an optional plus sign, and at least one digit.
unfoldable pub parse_codes : List ℕ → Option ℕ
parse_codes [] = none
parse_codes (c ∷ cs) = if c == 43 then parse_signed cs else parse_digits 0 (c ∷ cs)

unfoldable pub parse_u32 : String → Option ℕ
parse_u32 s = parse_codes (codes s)

-- `{:02x}` of a byte.
unfoldable pub lower_digit : ℕ → Char
lower_digit d = if ltb d 10 then as_char (48 + d) else as_char (87 + d)

unfoldable pub lower_hex : List ℕ → String
lower_hex [] = ""
lower_hex (b ∷ bs) =
    String.◌∷◌ (lower_digit (b / 16)) (String.◌∷◌ (lower_digit (b % 16)) (lower_hex bs))

unfoldable pub bytes_to_string_lossy : (List ℕ → Option String) → List ℕ → String
bytes_to_string_lossy from_utf8 b = unwrap_or (from_utf8 b) (lower_hex b)

-- The values of serde_json, with an i32 given as its 32-bit pattern; an i64, as its 64-bit pattern, as
-- an f64, and the i64 nearest to an f64; and the libraries' readers and printer.
pub record AdxOps (F V J : Type 0) : Type 0 where
  pub text : String → J
  pub number : ℕ → J
  pub float : F → J
  pub array : List J → J
  pub object : List (String × J) → J
  pub of_i64 : ℕ → F
  pub round_i64 : F → ℕ
  pub from_utf8 : List ℕ → Option String
  pub from_value : J → Option (BidRequest V)
  pub show_value : V → String

unfoldable pub first_of : List ℕ → ℕ
first_of [] = 0
first_of (n ∷ ns) = n

module _ {F V J : Type 0} (fl : FloatOps F) (ops : AdxOps F V J) where
  unfoldable pub imp_of : AdSlot → J
  imp_of slot = ops.object (
      ("id", ops.text (to_string slot.id))
      ∷ (
        "banner",
        ops.object (
            ("w", ops.number (first_of slot.width))
            ∷ ("h", ops.number (first_of slot.height))
            ∷ []),
      )
      ∷ (
        "bidfloor",
        ops.float
            (fl.div (ops.of_i64 slot.matching_ad_data_minimum_cpm_micros) (fl.literal 1_000_000 1)),
      )
      ∷ [])

  unfoldable pub user_fields : Option String → List (String × J)
  user_fields none = []
  user_fields (some uid) = ("user", ops.object (("id", ops.text uid) ∷ [])) ∷ []

  unfoldable pub site_fields : Option (String × String) → List (String × J)
  site_fields none = []
  site_fields (some (url, referrer)) =
      ("site", ops.object (("page", ops.text url) ∷ ("ref", ops.text referrer) ∷ [])) ∷ []

  abbrev pub device_texts : Option (String × String) → List (String × J)
  device_texts none = []
  device_texts (some (ua, ip)) = ("ua", ops.text ua) ∷ ("ip", ops.text ip) ∷ []

  abbrev pub geo_fields : Option (String × (String × String)) → List (String × J)
  geo_fields none = []
  geo_fields (some (country, (region, city))) =
      (
        "geo",
        ops.object (
            ("country", ops.text country)
            ∷ ("region", ops.text region)
            ∷ ("city", ops.text city)
            ∷ []),
      )
      ∷ []

  abbrev pub unless_empty : List (String × J) → List (String × J)
  unless_empty [] = []
  unless_empty (x ∷ xs) = ("device", ops.object (x ∷ xs)) ∷ []

  unfoldable pub device_fields : AdxRequest → List (String × J)
  device_fields raw = unless_empty (device_texts raw.device ++ geo_fields raw.geo)

  abbrev pub decode_slot : AdxRequest → Option AdSlot → Option (BidRequest V)
  decode_slot raw none = none
  decode_slot raw (some slot) = ops.from_value (
      ops.object (
        ("id", ops.text (bytes_to_string_lossy ops.from_utf8 raw.id))
        ∷ ("imp", ops.array (imp_of slot ∷ []))
        ∷ (user_fields raw.user ++ (site_fields raw.site ++ device_fields raw))))

  unfoldable pub adx_to_internal : AdxRequest → Option (BidRequest V)
  adx_to_internal raw = decode_slot raw raw.adslot

  unfoldable pub show_ext : Option V → String
  show_ext none = ""
  show_ext (some v) = ops.show_value v

  abbrev pub creative_id_of : Option String → ℕ
  creative_id_of none = 0
  creative_id_of (some crid) = unwrap_or (parse_u32 crid) 0

  unfoldable pub ad_of : Bid F V → Ad
  ad_of b = record {
    max_cpm_micros = ops.round_i64 (fl.mul b.price (fl.literal 1_000_000 1));
    buyer_creative_id = creative_id_of b.crid;
    adslot_id = unwrap_or (parse_u32 b.impid) 0;
    nurl = unwrap_or b.nurl "";
    ext_json = show_ext b.ext;
  }

  unfoldable pub all_ads : List (SeatBid F V) → List Ad
  all_ads [] = []
  all_ads (seat ∷ rest) = map ad_of seat.bid ++ all_ads rest

  unfoldable pub internal_to_adx : BidResponse F V → AdxResponse
  internal_to_adx resp = record { id = as_bytes resp.id; ad = all_ads resp.seatbid }
