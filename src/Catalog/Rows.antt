-- ===== src/Catalog/Rows.antt =====
-- The rows of the database that bidder-core/src/catalog/loader.rs reads, its parsers, and the maps that
-- it makes of campaigns, creatives and segments (with bidder-core/src/targeting/mod.rs). A number of a
-- row is a bit pattern of i64 or i32, a hash map a function of its key.
use Prim.Native.String.{String}
use text.Mathlib.Text.{◌==◌ as ◌≟◌}
use rust_rtb_bidder.Base.{
  ℕ, ◌%◌, Bool, true, false, ◌&&◌, ◌||◌, Option, none, some, List, [], ◌∷◌, ◌++◌, ◌==◌, ltb,
  if◌then◌else◌, unwrap_or,
}
use rust_rtb_bidder.Base.Words.{u32_mod}
use rust_rtb_bidder.Catalog.{
  GeoKind, GeoKey, country, metro, DeviceTargetType, desktop, mobile, tablet, ctv, other, AdFormat,
  banner, video, audio, native, Campaign, Creative,
}

-- `as u32` of an i64 or an i32.
abbrev pub as_u32 : ℕ → ℕ
as_u32 n = n % u32_mod

-- `x.max(0) as u32` of an i32.
unfoldable pub not_negative : ℕ → ℕ
not_negative n = if ltb n 2_147_483_648 then n else 0

pub record CampaignRow : Type 0 where
  pub id : ℕ
  pub advertiser_id : ℕ
  pub bid_floor_cents : ℕ
  pub daily_budget_cents : ℕ
  pub hourly_budget_cents : ℕ
  pub daily_cap_imps : ℕ
  pub hourly_cap_imps : ℕ

pub record CreativeRow : Type 0 where
  pub id : ℕ
  pub campaign_id : ℕ
  pub ad_format : String

-- `SegmentRegistry`.
abbrev pub SegmentRegistry : Type 0
SegmentRegistry = String → Option ℕ

abbrev pub insert_segment : SegmentRegistry → String → ℕ → SegmentRegistry
insert_segment r name id n = if name ≟ n then some id else r n

unfoldable pub resolve : SegmentRegistry → List String → List ℕ
resolve r [] = []
resolve r (n ∷ names) =
    let rest = resolve r names in elim (r n) [ none ↦ rest | some id ↦ id ∷ rest ]

unfoldable pub load_segments : SegmentRegistry → List (ℕ × String) → SegmentRegistry
load_segments r [] = r
load_segments r ((id, name) ∷ rows) = load_segments (insert_segment r name (as_u32 id)) rows

unfoldable pub parse_ad_format : String → Option AdFormat
parse_ad_format s =
    if (s ≟ "BANNER") || (s ≟ "banner")
    then some banner
    else if (s ≟ "VIDEO") || (s ≟ "video")
    then some video
    else if (s ≟ "AUDIO") || (s ≟ "audio")
    then some audio
    else if (s ≟ "NATIVE") || (s ≟ "native")
    then some native
    else none

unfoldable pub parse_device_type : String → Option DeviceTargetType
parse_device_type s =
    if (s ≟ "DESKTOP") || (s ≟ "desktop")
    then some desktop
    else if (s ≟ "MOBILE") || (s ≟ "mobile")
    then some mobile
    else if (s ≟ "TABLET") || (s ≟ "tablet")
    then some tablet
    else if (s ≟ "CTV") || (s ≟ "ctv")
    then some ctv
    else if (s ≟ "OTHER") || (s ≟ "other")
    then some other
    else none

abbrev pub same_device : DeviceTargetType → DeviceTargetType → Bool
same_device desktop desktop = true
same_device mobile mobile = true
same_device tablet tablet = true
same_device ctv ctv = true
same_device other other = true
same_device _ _ = false

abbrev pub same_kind : GeoKind → GeoKind → Bool
same_kind country country = true
same_kind metro metro = true
same_kind _ _ = false

abbrev pub same_geo : GeoKey → GeoKey → Bool
same_geo a b = same_kind a.kind b.kind && (a.code ≟ b.code)

-- `HashMap::insert`.
abbrev pub put : {K A : Type 0} → (K → K → Bool) → (K → Option A) → K → A → K → Option A
put same index k a j = if same k j then some a else index j

abbrev pub campaign_of : CampaignRow → Campaign
campaign_of row = record {
  id = as_u32 row.id;
  advertiser_id = row.advertiser_id;
  bid_floor_cents = row.bid_floor_cents;
  daily_budget_cents = row.daily_budget_cents;
  hourly_budget_cents = row.hourly_budget_cents;
  daily_cap_imps = not_negative row.daily_cap_imps;
  hourly_cap_imps = not_negative row.hourly_cap_imps;
}

-- The loops over the rows of the campaigns and of the creatives.
unfoldable pub load_campaigns : (ℕ → Option Campaign) → List CampaignRow → ℕ → Option Campaign
load_campaigns campaigns [] = campaigns
load_campaigns campaigns (row ∷ rows) =
    load_campaigns (put (λ a b. a == b) campaigns (as_u32 row.id) (campaign_of row)) rows

abbrev pub creative_of : CreativeRow → AdFormat → Creative
creative_of row format = record {
  id = as_u32 row.id;
  campaign_id = as_u32 row.campaign_id;
  ad_format = format;
}

unfoldable pub load_creatives :
    (ℕ → Option (List Creative)) → List CreativeRow → ℕ → Option (List Creative)
load_creatives creatives [] = creatives
load_creatives creatives (row ∷ rows) = elim (parse_ad_format row.ad_format) [
  | none ↦ load_creatives creatives rows
  | some format ↦
      let cid = as_u32 row.campaign_id in
      load_creatives
        (put (λ a b. a == b) creatives cid
          (unwrap_or (creatives cid) [] ++ (creative_of row format ∷ [])))
        rows
]
