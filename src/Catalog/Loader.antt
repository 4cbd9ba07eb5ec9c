-- ===== src/Catalog/Loader.antt =====
-- bidder-core/src/catalog/loader.rs, `build` and the refresh, and `budget_seeds` of
-- campaign_catalog.rs. The answers of the database are arguments: a list of rows, or nothing where the
-- query fails.
use Prim.Native.String.{String}
use text.Mathlib.Text.{◌==◌ as ◌≟◌}
use rust_rtb_bidder.Base.{
  ℕ, ◌+◌, ◌*◌, ◌/◌, ◌%◌, Bool, Option, none, some, List, [], ◌∷◌, is_empty, ◌==◌, if◌then◌else◌,
  unwrap_or, ◌>>=◌,
}
use rust_rtb_bidder.Base.Words.{u32_mod}
use rust_rtb_bidder.Pacing.{Counters, reload}
use rust_rtb_bidder.Catalog.{
  BitmapOps, GeoKey, country, metro, same_format, Campaign, CampaignCatalog,
}
use rust_rtb_bidder.Catalog.Rows.{
  CampaignRow, CreativeRow, SegmentRegistry, as_u32, load_campaigns, load_creatives, load_segments,
  parse_ad_format, parse_device_type, put, same_device, same_geo,
}

-- What the loader calls of roaring besides.
pub record LoadOps (B : Type 0) : Type 0 where
  pub insert : B → ℕ → B
  pub difference : B → B → B

-- The answers of the eight queries.
pub record Answers : Type 0 where
  pub campaigns : Option (List CampaignRow)
  pub creatives : Option (List CreativeRow)
  pub segments : Option (List (ℕ × String))
  pub segment_index : Option (List (ℕ × List ℕ))
  pub geo_index : Option (List (String × (String × List ℕ)))
  pub device_index : Option (List (String × List ℕ))
  pub format_index : Option (List (String × List ℕ))
  pub daypart_active_now : Option (List ℕ)

-- `budget_seeds`, for the keys of the map in the order of its iterator.
unfoldable pub budget_seeds : {B : Type 0} → CampaignCatalog B → List ℕ → List (ℕ × ℕ)
budget_seeds cat [] = []
budget_seeds cat (id ∷ ids) =
    let rest = budget_seeds cat ids in
    elim (cat.campaigns id) [ none ↦ rest | some c ↦ (id, c.daily_budget_cents) ∷ rest ]

-- `current_hour_of_week`, at this many seconds since the epoch.
unfoldable pub current_hour_of_week : ℕ → ℕ
current_hour_of_week secs = (secs / 86_400 + 3) % 7 * 24 + secs % 86_400 / 3_600

-- What the refresh shares with the requests, its pacer, and its count of failures.
pub record Shared (B : Type 0) : Type 0 where
  pub catalog : CampaignCatalog B
  pub registry : SegmentRegistry
  pub pacer : Counters
  pub consecutive_failures : ℕ

module _ {B : Type 0} (ops : BitmapOps B) (load : LoadOps B) where
  -- `bm.insert(cid as u32)` for every id.
  unfoldable pub insert_all : B → List ℕ → B
  insert_all bm [] = bm
  insert_all bm (cid ∷ cids) = insert_all (load.insert bm (as_u32 cid)) cids

  unfoldable pub all_of : B → List CampaignRow → B
  all_of bm [] = bm
  all_of bm (row ∷ rows) = all_of (load.insert bm (as_u32 row.id)) rows

  unfoldable pub load_segment_index : (ℕ → Option B) → List (ℕ × List ℕ) → ℕ → Option B
  load_segment_index index [] = index
  load_segment_index index ((seg_id, ids) ∷ rows) =
      load_segment_index (put (λ a b. a == b) index (as_u32 seg_id) (insert_all ops.new ids)) rows

  abbrev pub geo_key : String → String → GeoKey
  geo_key kind_str code = record {
    kind = if kind_str ≟ "country" then country else metro;
    code = code;
  }

  unfoldable pub load_geo_index :
      (GeoKey → Option B) → List (String × (String × List ℕ)) → GeoKey → Option B
  load_geo_index index [] = index
  load_geo_index index ((kind_str, (code, ids)) ∷ rows) =
      load_geo_index (put same_geo index (geo_key kind_str code) (insert_all ops.new ids)) rows

  -- One turn of the loop that the device index and the format index share, for what the row's text is
  -- read as: the index, and the campaigns that are restricted. What is not recognised is skipped.
  unfoldable pub note_row :
      {K : Type 0} → (K → K → Bool) → (K → Option B) × B → Option K → List ℕ → (K → Option B) × B
  note_row same acc none ids = acc
  note_row same (index, restricted) (some k) ids = (
    put same index k (ops.union (unwrap_or (index k) ops.new) (insert_all ops.new ids)),
    insert_all restricted ids,
  )

  unfoldable pub load_restricted :
      {K : Type 0}
      → (String → Option K)
      → (K → K → Bool)
      → (K → Option B) × B
      → List (String × List ℕ)
      → (K → Option B) × B
  load_restricted parse same acc [] = acc
  load_restricted parse same acc ((text, ids) ∷ rows) =
      load_restricted parse same (note_row same acc (parse text) ids) rows

  -- The catalog of the rows, when all the queries have answered.
  unfoldable pub catalog_of :
      List CampaignRow
      → List CreativeRow
      → List (ℕ × List ℕ)
      → List (String × (String × List ℕ))
      → List (String × List ℕ)
      → List (String × List ℕ)
      → List ℕ
      → CampaignCatalog B
  catalog_of campaigns creatives segments geos devices formats dayparts =
      let all = all_of ops.new campaigns in
      let by_device = load_restricted parse_device_type same_device (λ k. none, ops.new) devices in
      let by_format = load_restricted parse_ad_format same_format (λ k. none, ops.new) formats in
      record {
        campaigns = load_campaigns (λ id. none) campaigns;
        has_no_campaigns = is_empty campaigns;
        creatives = load_creatives (λ id. none) creatives;
        segment_to_campaigns = load_segment_index (λ k. none) segments;
        geo_to_campaigns = load_geo_index (λ k. none) geos;
        device_to_campaigns = by_device.0;
        format_to_campaigns = by_format.0;
        daypart_active_now = insert_all ops.new dayparts;
        all_campaigns = all;
        device_unrestricted = load.difference all by_device.1;
        format_unrestricted = load.difference all by_format.1;
      }

  -- `build`: nothing where any of the queries fails.
  unfoldable pub build : Answers → Option (CampaignCatalog B × SegmentRegistry)
  build a = do
    campaigns ← a.campaigns
    creatives ← a.creatives
    segments ← a.segments
    segment_index ← a.segment_index
    geo_index ← a.geo_index
    device_index ← a.device_index
    format_index ← a.format_index
    dayparts ← a.daypart_active_now
    some (
      catalog_of campaigns creatives segment_index geo_index device_index format_index dayparts,
      load_segments (λ n. none) segments,
    )

  -- One turn of `refresh_loop`, with what `build` gives and the iterator's order of the keys.
  unfoldable pub refresh :
      ((ℕ → Option Campaign) → List ℕ)
      → Shared B
      → Option (CampaignCatalog B × SegmentRegistry)
      → Shared B
  refresh keys s none = record s { consecutive_failures = (s.consecutive_failures + 1) % u32_mod }
  refresh keys s (some (cat, registry)) = record {
    catalog = cat;
    registry = registry;
    pacer = reload s.pacer (budget_seeds cat (keys cat.campaigns));
    consecutive_failures = 0;
  }

  -- `start`: what is shared before the first turn, or nothing where the first build fails.
  unfoldable pub start : ((ℕ → Option Campaign) → List ℕ) → Counters → Answers → Option (Shared B)
  start keys pacer a = do
    built ← build a
    some (record {
      catalog = built.0;
      registry = built.1;
      pacer = reload pacer (budget_seeds built.0 (keys built.0.campaigns));
      consecutive_failures = 0;
    })

  -- The turns of the loop, one for each set of answers.
  unfoldable pub refresh_loop :
      ((ℕ → Option Campaign) → List ℕ) → Shared B → List Answers → Shared B
  refresh_loop keys s [] = s
  refresh_loop keys s (a ∷ rest) = refresh_loop keys (refresh keys s (build a)) rest
