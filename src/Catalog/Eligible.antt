-- ===== src/Catalog/Eligible.antt =====
-- Which campaigns the intersection of the bitmaps holds.
use rust_rtb_bidder.Base.{
  ℕ, ◌≡◌, refl, ap, ◌∙◌, Bool, true, false, not, ◌&&◌, ◌||◌, Option, none, some, List, [], ◌∷◌,
  is_empty, any, arith, Bool-cases, inl, inr, if◌then◌else◌, unwrap_or,
}
use rust_rtb_bidder.Catalog.{
  BitmapOps, GeoKey, DeviceTargetType, AdFormat, CampaignCatalog, CandidateRequest, add_index,
  union_of, narrow, by_segments, by_geo, by_device, by_format, by_daypart, candidates_for,
}

-- What roaring documents of the operations.
pub record BitmapLaws (B : Type 0) (ops : BitmapOps B) : Type 0 where
  pub has-new : (id : ℕ) → ops.has ops.new id ≡ false
  pub has-union : (a b : B) (id : ℕ) → ops.has (ops.union a b) id ≡ (ops.has a id || ops.has b id)
  pub has-intersect :
      (a b : B) (id : ℕ) → ops.has (ops.intersect a b) id ≡ (ops.has a id && ops.has b id)

abbrev is_some {ℓ} : {A : Type ℓ} → Option A → Bool
is_some none = false
is_some (some a) = true

module _ {B : Type 0} (ops : BitmapOps B) (cat : CampaignCatalog B) (id : ℕ) where
  -- An entry of an index lists the campaign.
  abbrev pub lists : Option B → Bool
  lists none = false
  lists (some bm) = ops.has bm id

  abbrev pub has_geo : Option (List GeoKey) → Bool
  has_geo none = false
  has_geo (some keys) = not (is_empty keys)

  -- The tests that a request makes of a campaign, dimension by dimension.
  abbrev pub suits_geo : Option (List GeoKey) → Bool
  suits_geo none = true
  suits_geo (some keys) = is_empty keys || any (λ k. lists (cat.geo_to_campaigns k)) keys

  abbrev pub suits_device : Option DeviceTargetType → Bool
  suits_device none = true
  suits_device (some d) = ops.has cat.device_unrestricted id || lists (cat.device_to_campaigns d)

  abbrev pub suits_format : Option AdFormat → Bool
  suits_format none = true
  suits_format (some f) = ops.has cat.format_unrestricted id || lists (cat.format_to_campaigns f)

  abbrev pub suits_segments : List ℕ → Bool
  suits_segments segment_ids =
      is_empty segment_ids || any (λ s. lists (cat.segment_to_campaigns s)) segment_ids

  abbrev pub suits_now : Bool
  suits_now = ops.is_empty_bitmap cat.daypart_active_now || ops.has cat.daypart_active_now id

  -- Some dimension of the request, or the hour, narrows the universe.
  abbrev pub is_narrowed : CandidateRequest → Bool
  is_narrowed req =
      (((not (is_empty req.segment_ids) || has_geo req.geo_keys) || is_some req.device_type)
        || is_some req.ad_format)
      || not (ops.is_empty_bitmap cat.daypart_active_now)

  abbrev pub suits : CandidateRequest → Bool
  suits req =
      (((suits_segments req.segment_ids && suits_geo req.geo_keys) && suits_device req.device_type)
        && suits_format req.ad_format)
      && suits_now

  -- A partial result that is there when t says so, and then holds the campaign when f does.
  abbrev Reads : Option B → Bool → Bool → Type 0
  Reads none t f = (t ≡ false) × (f ≡ true)
  Reads (some b) t f = (t ≡ true) × (ops.has b id ≡ f)

  module _ (laws : BitmapLaws B ops) where
    idle :
        (o : Option B) (t f u g : Bool)
        → Reads o t f
        → u ≡ false
        → g ≡ true
        → Reads o (t || u) (f && g)
    idle none t f u g r h k = (ground arith, ground arith)
    idle (some b) t f u g r h k = (ground arith, ground arith)

    narrowed :
        (o : Option B) (filter : B) (t f u g : Bool)
        → Reads o t f
        → u ≡ true
        → ops.has filter id ≡ g
        → Reads (narrow ops o filter) (t || u) (f && g)
    unfolding narrow
    narrowed none filter t f u g r h k = (ground arith, ground arith)
    narrowed (some b) filter t f u g r h k =
        (ground arith, laws.has-intersect b filter id ∙ ground arith)

    has-add_index :
        (o : Option B) (acc : B) → ops.has (add_index ops o acc) id ≡ (ops.has acc id || lists o)
    unfolding add_index
    has-add_index none acc = ground arith
    has-add_index (some bm) acc = laws.has-union acc bm id

    has-union_of :
        {K : Type 0} (index : K → Option B) (acc : B) (ks : List K)
        → ops.has (union_of ops index acc ks) id ≡ (ops.has acc id || any (λ k. lists (index k)) ks)
    unfolding union_of
    has-union_of index acc [] = ground arith
    has-union_of index acc (k ∷ ks) =
        has-union_of index (add_index ops (index k) acc) ks
        ∙ ground (arith, has-add_index (index k) acc)

    segments-Reads :
        (ids : List ℕ) → Reads (by_segments ops cat ids) (not (is_empty ids)) (suits_segments ids)
    unfolding by_segments
    segments-Reads [] = (refl, refl)
    segments-Reads (s ∷ ids) = (
      refl,
      has-union_of cat.segment_to_campaigns ops.new (s ∷ ids)
          ∙ ap (λ b. b || any (λ k. lists (cat.segment_to_campaigns k)) (s ∷ ids))
              (laws.has-new id),
    )

    geo-Reads :
        (keys : Option (List GeoKey)) (o : Option B) (t f : Bool)
        → Reads o t f
        → Reads (by_geo ops cat keys o) (t || has_geo keys) (f && suits_geo keys)
    unfolding by_geo
    geo-Reads none o t f r = idle o t f false true r refl refl
    geo-Reads (some []) o t f r = idle o t f false true r refl refl
    geo-Reads (some (k ∷ ks)) o t f r =
        narrowed o (union_of ops cat.geo_to_campaigns ops.new (k ∷ ks)) t f true _ r refl (
          has-union_of cat.geo_to_campaigns ops.new (k ∷ ks)
          ∙ ap (λ b. b || any (λ k'. lists (cat.geo_to_campaigns k')) (k ∷ ks)) (laws.has-new id))

    device-Reads :
        (d : Option DeviceTargetType) (o : Option B) (t f : Bool)
        → Reads o t f
        → Reads (by_device ops cat d o) (t || is_some d) (f && suits_device d)
    unfolding by_device
    device-Reads none o t f r = idle o t f false true r refl refl
    device-Reads (some d) o t f r =
        narrowed o (add_index ops (cat.device_to_campaigns d) cat.device_unrestricted) t f true _ r
          refl (has-add_index (cat.device_to_campaigns d) cat.device_unrestricted)

    format-Reads :
        (d : Option AdFormat) (o : Option B) (t f : Bool)
        → Reads o t f
        → Reads (by_format ops cat d o) (t || is_some d) (f && suits_format d)
    unfolding by_format
    format-Reads none o t f r = idle o t f false true r refl refl
    format-Reads (some d) o t f r =
        narrowed o (add_index ops (cat.format_to_campaigns d) cat.format_unrestricted) t f true _ r
          refl (has-add_index (cat.format_to_campaigns d) cat.format_unrestricted)

    daypart-Reads :
        (o : Option B) (t f : Bool)
        → Reads o t f
        → Reads
            (by_daypart ops cat o)
            (t || not (ops.is_empty_bitmap cat.daypart_active_now))
            (f && suits_now)
    unfolding by_daypart
    daypart-Reads o t f r = elim (Bool-cases (ops.is_empty_bitmap cat.daypart_active_now)) [
      | inl e ↦ rw e (idle o t f false true r refl refl)
      | inr e ↦ rw e (narrowed o cat.daypart_active_now t f true _ r refl refl)
    ]

    settle_candidates :
        (o : Option B) (t f : Bool)
        → Reads o t f
        → ops.has (unwrap_or o cat.all_campaigns) id
          ≡ (if t then f else ops.has cat.all_campaigns id)
    settle_candidates none t f r = ground arith
    settle_candidates (some b) t f r = ground arith

    -- With a bitmap that does what roaring documents, a campaign is a candidate exactly when the catalog has any campaigns and, in every dimension
    -- that the request or the hour narrows, it is listed for one of the values or, for the device
    -- and the format, unrestricted; where nothing narrows, when it is in the catalog.
    pub has-candidates_for :
        (req : CandidateRequest)
        → ops.has (candidates_for ops cat req) id ≡ (
            not (ops.is_empty_bitmap cat.all_campaigns)
            && (if is_narrowed req then suits req else ops.has cat.all_campaigns id))
    unfolding candidates_for
    has-candidates_for req =
        let last = daypart-Reads _ _ _ (
          format-Reads req.ad_format _ _ _ (
            device-Reads req.device_type _ _ _
              (geo-Reads req.geo_keys _ _ _ (segments-Reads req.segment_ids)))) in
        elim (Bool-cases (ops.is_empty_bitmap cat.all_campaigns)) [
          | inl e ↦ rw e (laws.has-new id)
          | inr e ↦ rw e (settle_candidates _ _ _ last)
        ]
