-- ===== src/Catalog.antt =====
-- bidder-core/src/catalog/campaign_catalog.rs, catalog/types.rs and
-- bidder-core/src/pipeline/stages/candidate_retrieval.rs. The roaring bitmap is a parameter, with
-- the operations that the catalog calls; a hash map is a function of its key.
pub mod Eligible
pub mod Retrieved
pub mod Rows
pub mod Loader
pub mod Loaded
pub mod Refresh
mod Tests
use Prim.Native.String.{String}
use rust_rtb_bidder.Base.{
  ℕ, Bool, true, false, Option, none, some, List, [], ◌∷◌, is_empty, ◌==◌, unwrap_or, if◌then◌else◌,
  FloatOps,
}
use rust_rtb_bidder.Model.{AdCandidate, Imp, Geo, Device, BidRequest, BidContext}
use rust_rtb_bidder.Pipeline.{Ran, Stage}

pub record BitmapOps (B : Type 0) : Type 0 where
  pub new : B
  pub is_empty_bitmap : B → Bool
  pub union : B → B → B
  pub intersect : B → B → B
  pub has : B → ℕ → Bool
  pub iter : B → List ℕ

pub data GeoKind : Type 0 where
  country metro : GeoKind

pub record GeoKey : Type 0 where
  pub kind : GeoKind
  pub code : String

pub data DeviceTargetType : Type 0 where
  desktop mobile tablet ctv other : DeviceTargetType

unfoldable pub from_openrtb : ℕ → DeviceTargetType
from_openrtb v =
    if v == 1
    then mobile
    else if v == 4
    then mobile
    else if v == 2
    then desktop
    else if v == 3
    then ctv
    else if v == 6
    then ctv
    else if v == 7
    then ctv
    else if v == 5
    then tablet
    else other

pub data AdFormat : Type 0 where
  banner video audio native : AdFormat

abbrev pub same_format : AdFormat → AdFormat → Bool
same_format banner banner = true
same_format video video = true
same_format audio audio = true
same_format native native = true
same_format _ _ = false

pub record Campaign : Type 0 where
  pub id : ℕ
  pub advertiser_id : ℕ
  pub bid_floor_cents : ℕ
  pub daily_budget_cents : ℕ
  pub hourly_budget_cents : ℕ
  pub daily_cap_imps : ℕ
  pub hourly_cap_imps : ℕ

pub record Creative : Type 0 where
  pub id : ℕ
  pub campaign_id : ℕ
  pub ad_format : AdFormat

pub record CampaignCatalog (B : Type 0) : Type 0 where
  pub campaigns : ℕ → Option Campaign
  pub has_no_campaigns : Bool
  pub creatives : ℕ → Option (List Creative)
  pub segment_to_campaigns : ℕ → Option B
  pub geo_to_campaigns : GeoKey → Option B
  pub device_to_campaigns : DeviceTargetType → Option B
  pub format_to_campaigns : AdFormat → Option B
  pub daypart_active_now : B
  pub all_campaigns : B
  pub device_unrestricted : B
  pub format_unrestricted : B

pub record CandidateRequest : Type 0 where
  pub segment_ids : List ℕ
  pub geo_keys : Option (List GeoKey)
  pub device_type : Option DeviceTargetType
  pub ad_format : Option AdFormat

module _ {B : Type 0} (ops : BitmapOps B) where
  unfoldable pub add_index : Option B → B → B
  add_index none acc = acc
  add_index (some bm) acc = ops.union acc bm

  -- `union |= bm` for every key that the index has.
  unfoldable pub union_of : {K : Type 0} → (K → Option B) → B → List K → B
  union_of index acc [] = acc
  union_of index acc (k ∷ ks) = union_of index (add_index (index k) acc) ks

  -- `Some(match result { Some(r) => r & filter, None => filter })`.
  unfoldable pub narrow : Option B → B → Option B
  narrow none filter = some filter
  narrow (some r) filter = some (ops.intersect r filter)

  unfoldable pub by_segments : CampaignCatalog B → List ℕ → Option B
  by_segments cat segment_ids =
      if is_empty segment_ids
      then none
      else some (union_of cat.segment_to_campaigns ops.new segment_ids)

  unfoldable pub by_geo : CampaignCatalog B → Option (List GeoKey) → Option B → Option B
  by_geo cat none result = result
  by_geo cat (some keys) result =
      if is_empty keys then result else narrow result (union_of cat.geo_to_campaigns ops.new keys)

  unfoldable pub by_device : CampaignCatalog B → Option DeviceTargetType → Option B → Option B
  by_device cat none result = result
  by_device cat (some device) result =
      narrow result (add_index (cat.device_to_campaigns device) cat.device_unrestricted)

  unfoldable pub by_format : CampaignCatalog B → Option AdFormat → Option B → Option B
  by_format cat none result = result
  by_format cat (some format) result =
      narrow result (add_index (cat.format_to_campaigns format) cat.format_unrestricted)

  unfoldable pub by_daypart : CampaignCatalog B → Option B → Option B
  by_daypart cat result =
      if ops.is_empty_bitmap cat.daypart_active_now
      then result
      else narrow result cat.daypart_active_now

  unfoldable pub candidates_for : CampaignCatalog B → CandidateRequest → B
  candidates_for cat req =
      if ops.is_empty_bitmap cat.all_campaigns
      then ops.new
      else unwrap_or
          (by_daypart cat (
            by_format cat req.ad_format (
              by_device cat req.device_type
                (by_geo cat req.geo_keys (by_segments cat req.segment_ids)))))
          cat.all_campaigns

-- The first creative of the format, or the first at all where the impression has none.
unfoldable pub find_creative : Option AdFormat → List Creative → Option Creative
find_creative format [] = none
find_creative none (cr ∷ crs) = some cr
find_creative (some format) (cr ∷ crs) =
    if same_format cr.ad_format format then some cr else find_creative (some format) crs

unfoldable pub imp_ad_format : Imp → Option AdFormat
imp_ad_format imp = elim (imp.banner) [
  | some b ↦ some banner
  | none ↦ elim (imp.video) [
    | some v ↦ some video
    | none ↦ elim (imp.audio) [
      | some a ↦ some audio
      | none ↦ elim (imp.native) [ some n ↦ some native | none ↦ none ]
    ]
  ]
]

abbrev country_key : Option String → List GeoKey → List GeoKey
country_key none keys = keys
country_key (some code) keys = record { kind = country; code = code } ∷ keys

abbrev metro_key : Option String → List GeoKey
metro_key none = []
metro_key (some code) = record { kind = metro; code = code } ∷ []

unfoldable pub geo_keys_of : Option Device → Option (List GeoKey)
geo_keys_of none = none
geo_keys_of (some d) = elim (d.geo) [
  | none ↦ none
  | some geo ↦ some (country_key geo.country (metro_key geo.metro))
]

unfoldable pub device_type_of : Option Device → Option DeviceTargetType
device_type_of none = none
device_type_of (some d) = elim (d.devicetype) [ none ↦ none | some v ↦ some (from_openrtb v) ]

-- `resize` to one list, of a request without impressions.
unfoldable pub resize_one : {F : Type 0} → List (List (AdCandidate F)) → List (List (AdCandidate F))
resize_one [] = [] ∷ []
resize_one (cs ∷ rest) = cs ∷ []

module _ {B F : Type 0} (ops : BitmapOps B) (fl : FloatOps F) where
  -- The closure of `filter_map`.
  unfoldable pub expand : CampaignCatalog B → Option AdFormat → ℕ → Option (AdCandidate F)
  expand cat ad_format cid = elim (cat.campaigns cid) [
    | none ↦ none
    | some campaign ↦ elim (find_creative ad_format (unwrap_or (cat.creatives cid) [])) [
      | none ↦ none
      | some creative ↦ some (record {
        campaign_id = cid;
        creative_id = creative.id;
        bid_price_cents = campaign.bid_floor_cents;
        score = fl.literal 0 1;
        daily_cap_imps = campaign.daily_cap_imps;
        hourly_cap_imps = campaign.hourly_cap_imps;
      })
    ]
  ]

  unfoldable pub expand_all : CampaignCatalog B → Option AdFormat → List ℕ → List (AdCandidate F)
  expand_all cat ad_format [] = []
  expand_all cat ad_format (cid ∷ cids) =
      let rest = expand_all cat ad_format cids in
      elim (expand cat ad_format cid) [ none ↦ rest | some c ↦ c ∷ rest ]

  -- The loop over the impressions.
  unfoldable pub retrieve_imps :
      CampaignCatalog B
      → List ℕ
      → Option (List GeoKey)
      → Option DeviceTargetType
      → List Imp
      → List (List (AdCandidate F))
  retrieve_imps cat segment_ids geo_keys device_type [] = []
  retrieve_imps cat segment_ids geo_keys device_type (imp ∷ imps) =
      expand_all cat (imp_ad_format imp) (
        ops.iter (
          candidates_for ops cat (record {
            segment_ids = segment_ids;
            geo_keys = geo_keys;
            device_type = device_type;
            ad_format = imp_ad_format imp;
          })))
      ∷ retrieve_imps cat segment_ids geo_keys device_type imps

  -- `CandidateRetrievalStage::execute`.
  unfoldable pub retrieve : {E W V : Type 0} → Stage E W F V (CampaignCatalog B)
  retrieve (w, ctx) = elim (ctx.catalog) [
    | none ↦ record { error = none; state = (w, ctx) }
    | some cat ↦
        if cat.has_no_campaigns then record { error = none; state = (w, ctx) } else record {
          error = none;
          state = (
            w,
            record ctx {
              candidates =
                  if is_empty ctx.request.imp
                  then resize_one ctx.candidates
                  else retrieve_imps cat ctx.segment_ids (geo_keys_of ctx.request.device)
                      (device_type_of ctx.request.device) ctx.request.imp;
            },
          );
        }
  ]
