-- ===== src/Catalog/Loaded.antt =====
-- What a catalog that was built from rows serves, and what is served between two builds.
use Prim.Native.String.{String}
use rust_rtb_bidder.Base.{
  ℕ, ◌≡◌, subst, ◌∙◌, arith, Bool, true, false, not, ◌&&◌, ◌||◌, Option, none, some, List, [], ◌∷◌,
  any, ◌==◌, unwrap_or, Bool-cases, inl, inr,
}
use rust_rtb_bidder.Catalog.{
  BitmapOps, DeviceTargetType, AdFormat, CampaignCatalog, same_format, candidates_for,
}
use rust_rtb_bidder.Catalog.Eligible.{BitmapLaws, lists, has-candidates_for}
use rust_rtb_bidder.Catalog.Rows.{
  as_u32, put, CampaignRow, CreativeRow, parse_ad_format, parse_device_type, same_device,
}
use rust_rtb_bidder.Catalog.Loader.{
  LoadOps, insert_all, all_of, note_row, load_restricted, catalog_of,
}

-- What roaring documents of the operations of the loader.
pub record LoadLaws (B : Type 0) (ops : BitmapOps B) (load : LoadOps B) : Type 0 where
  pub has-insert : (b : B) (i id : ℕ) → ops.has (load.insert b i) id ≡ (ops.has b id || (i == id))
  pub has-difference :
      (a b : B) (id : ℕ) → ops.has (load.difference a b) id ≡ (ops.has a id && not (ops.has b id))
  pub empty-new : ops.is_empty_bitmap ops.new ≡ true

abbrev pub listed : ℕ → List ℕ → Bool
listed id ids = any (λ cid. as_u32 cid == id) ids

-- The campaign has a row.
abbrev pub is_loaded : ℕ → List CampaignRow → Bool
is_loaded id rows = any (λ row. as_u32 row.id == id) rows

module _ {K : Type 0} (parse : String → Option K) (same : K → K → Bool) where
  abbrev pub is_for : K → Option K → Bool
  is_for k none = false
  is_for k (some k') = same k' k

  abbrev pub is_known : Option K → Bool
  is_known none = false
  is_known (some k) = true

  -- A row for this key lists the campaign, and a row for any key that is recognised does.
  abbrev pub targets : K → ℕ → List (String × List ℕ) → Bool
  targets k id rows = any (λ row. is_for k (parse row.0) && listed id row.1) rows

  abbrev pub is_restricted : ℕ → List (String × List ℕ) → Bool
  is_restricted id rows = any (λ row. is_known (parse row.0) && listed id row.1) rows

  -- The campaign serves this key: a row says so, or no row says anything of it.
  abbrev pub serves : List CampaignRow → List (String × List ℕ) → K → ℕ → Bool
  serves campaigns rows k id =
      (is_loaded id campaigns && not (is_restricted id rows)) || targets k id rows

module _ {B : Type 0} (ops : BitmapOps B) (load : LoadOps B) (laws : BitmapLaws B ops)
    (load_laws : LoadLaws B ops load) (id : ℕ) where
  has-insert_all :
      (ids : List ℕ) (bm : B)
      → ops.has (insert_all ops load bm ids) id ≡ (ops.has bm id || listed id ids)
  unfolding insert_all
  has-insert_all [] bm = ground arith
  has-insert_all (cid ∷ ids) bm = ground (
    arith,
    has-insert_all ids (load.insert bm (as_u32 cid)),
    load_laws.has-insert bm (as_u32 cid) id,
  )

  has-all_of :
      (rows : List CampaignRow) (bm : B)
      → ops.has (all_of ops load bm rows) id ≡ (ops.has bm id || is_loaded id rows)
  unfolding all_of
  has-all_of [] bm = ground arith
  has-all_of (row ∷ rows) bm = ground (
    arith,
    has-all_of rows (load.insert bm (as_u32 row.id)),
    load_laws.has-insert bm (as_u32 row.id) id,
  )

  module _ {K : Type 0} (parse : String → Option K) (same : K → K → Bool)
      (same-eq : (a b : K) → same a b ≡ true → a ≡ b) where
    abbrev listed_by : Option B → Bool
    listed_by none = false
    listed_by (some bm) = ops.has bm id

    has-extended :
        (o : Option B) (ids : List ℕ)
        → ops.has (ops.union (unwrap_or o ops.new) (insert_all ops load ops.new ids)) id
          ≡ (listed_by o || listed id ids)
    has-extended none ids =
        laws.has-union ops.new (insert_all ops load ops.new ids) id
        ∙ ground (arith, laws.has-new id, has-insert_all ids ops.new)
    has-extended (some bm) ids =
        laws.has-union bm (insert_all ops load ops.new ids) id
        ∙ ground (arith, laws.has-new id, has-insert_all ids ops.new)

    has-note_row :
        (o : Option K) (ids : List ℕ) (acc : (K → Option B) × B)
        → ops.has (note_row ops load same acc o ids).1 id
          ≡ (ops.has acc.1 id || (is_known parse same o && listed id ids))
    unfolding note_row
    has-note_row none ids acc = ground arith
    has-note_row (some k) ids acc = has-insert_all ids acc.1

    listed_by-note_row :
        (o : Option K) (ids : List ℕ) (acc : (K → Option B) × B) (k : K)
        → listed_by ((note_row ops load same acc o ids).0 k)
          ≡ (listed_by (acc.0 k) || (is_for parse same k o && listed id ids))
    unfolding note_row
    listed_by-note_row none ids acc k = ground arith
    listed_by-note_row (some k') ids acc k = elim (Bool-cases (same k' k)) [
      | inl e ↦
          subst
            (λ t.
              listed_by (
                put same acc.0 k'
                  (ops.union (unwrap_or (acc.0 k') ops.new) (insert_all ops load ops.new ids)) k)
              ≡ (listed_by (acc.0 t) || (same k' k && listed id ids)))
            (same-eq k' k e) (rw e (has-extended (acc.0 k') ids))
      | inr e ↦ rw e (ground arith)
    ]

    has-restricted :
        (rows : List (String × List ℕ)) (acc : (K → Option B) × B)
        → ops.has (load_restricted ops load parse same acc rows).1 id
          ≡ (ops.has acc.1 id || is_restricted parse same id rows)
    unfolding load_restricted
    has-restricted [] acc = ground arith
    has-restricted ((text, ids) ∷ rows) acc =
        has-restricted rows (note_row ops load same acc (parse text) ids)
        ∙ ground (arith, has-note_row (parse text) ids acc)

    listed_by-restricted :
        (rows : List (String × List ℕ)) (acc : (K → Option B) × B) (k : K)
        → listed_by ((load_restricted ops load parse same acc rows).0 k)
          ≡ (listed_by (acc.0 k) || targets parse same k id rows)
    unfolding load_restricted
    listed_by-restricted [] acc k = ground arith
    listed_by-restricted ((text, ids) ∷ rows) acc k =
        listed_by-restricted rows (note_row ops load same acc (parse text) ids) k
        ∙ ground (arith, listed_by-note_row (parse text) ids acc k)

same_device-eq : (a b : DeviceTargetType) → same_device a b ≡ true → a ≡ b
same_device-eq a b h = ground arith

same_format-eq : (a b : AdFormat) → same_format a b ≡ true → a ≡ b
same_format-eq a b h = ground arith

module _ {B : Type 0} (ops : BitmapOps B) (load : LoadOps B) (campaigns : List CampaignRow)
    (creatives : List CreativeRow) (segments : List (ℕ × List ℕ))
    (geos : List (String × (String × List ℕ))) (devices formats : List (String × List ℕ)) where
  abbrev pub loaded : CampaignCatalog B
  loaded = catalog_of ops load campaigns creatives segments geos devices formats []

  module _ (laws : BitmapLaws B ops) (load_laws : LoadLaws B ops load) (id : ℕ) where
    -- A dimension of the catalog: the campaigns without a row, and those of the key's rows.
    dimension-serves :
        {K : Type 0} (parse : String → Option K) (same : K → K → Bool)
        → ((a b : K) → same a b ≡ true → a ≡ b)
        → (k : K) (rows : List (String × List ℕ))
        → (ops.has
              (load.difference
                (all_of ops load ops.new campaigns)
                (load_restricted ops load parse same (λ j. none, ops.new) rows).1)
              id
            || lists ops loaded id
                ((load_restricted ops load parse same (λ j. none, ops.new) rows).0 k))
          ≡ serves parse same campaigns rows k id
    dimension-serves parse same same-eq k rows =
        let noted = load_restricted ops load parse same (λ j. none, ops.new) rows in
        ground (
          arith,
          load_laws.has-difference (all_of ops load ops.new campaigns) noted.1 id,
          has-all_of ops load laws load_laws id campaigns ops.new,
          has-restricted ops load laws load_laws id parse same same-eq rows (λ j. none, ops.new),
          listed_by-restricted ops load laws load_laws id parse same same-eq rows
              (λ j. none, ops.new) k,
          laws.has-new id,
        )

    -- In a catalog that is built when no daypart is active, and that has any campaigns, a request for a device and a format without
    -- segments and without a place has as candidates the campaigns that serve both: for each of the
    -- two, a recognised row names the campaign for it, or the campaign is loaded and no recognised row
    -- names it at all. Rows that are not recognised restrict nothing. An empty catalog has no candidates.
    pub candidates_for-serves :
        (device : DeviceTargetType) (format : AdFormat)
        → ops.has
            (candidates_for ops loaded (record {
              segment_ids = [];
              geo_keys = none;
              device_type = some device;
              ad_format = some format;
            }))
            id
          ≡ (not (ops.is_empty_bitmap loaded.all_campaigns)
              && (serves parse_device_type same_device campaigns devices device id
                  && serves parse_ad_format same_format campaigns formats format id))
    unfolding catalog_of insert_all
    candidates_for-serves device format =
        has-candidates_for ops loaded id laws _
        ∙ ground (
          arith,
          load_laws.empty-new,
          dimension-serves parse_device_type same_device same_device-eq device devices,
          dimension-serves parse_ad_format same_format same_format-eq format formats,
        )
