-- ===== src/Scoring/Features.antt =====
-- bidder-core/src/scoring/feature_weighted.rs, scoring/features.rs and
-- bidder-core/src/pipeline/stages/scoring.rs.
use rust_rtb_bidder.Base.{
  ℕ, ◌%◌, min, Bool, false, Option, none, some, List, [], ◌∷◌, length, is_empty, ◌==◌,
  if◌then◌else◌, unwrap_or, FloatOps,
}
use rust_rtb_bidder.Model.{AdCandidate, BidContext, Imp}
use rust_rtb_bidder.Pipeline.{Stage}
use rust_rtb_bidder.Pipeline.Response.{user_id_of}
use rust_rtb_bidder.Catalog.{
  DeviceTargetType, desktop, mobile, tablet, ctv, AdFormat, banner, video, native, imp_ad_format,
  device_type_of,
}
use rust_rtb_bidder.Scoring.{ScoreOps, ScoringContext, Scorer, current_hour_of_day, is_weekend_at}

-- `ScoringFeatures`.
pub record ScoringFeatures (F : Type 0) : Type 0 where
  pub bid_price_norm : F
  pub segment_overlap_ratio : F
  pub segment_count_log1p : F
  pub device_desktop : F
  pub device_mobile : F
  pub device_tablet : F
  pub device_ctv : F
  pub hour_of_day_norm : F
  pub is_weekend : F
  pub geo_top_market : F
  pub format_banner : F
  pub format_video : F
  pub format_native : F

-- The first thirteen places of the slice that `pack_into` writes.
unfoldable pub pack_into : {F : Type 0} → ScoringFeatures F → List F
pack_into f =
    f.bid_price_norm ∷ f.segment_overlap_ratio ∷ f.segment_count_log1p ∷ f.device_desktop
    ∷ f.device_mobile ∷ f.device_tablet ∷ f.device_ctv ∷ f.hour_of_day_norm ∷ f.is_weekend
    ∷ f.geo_top_market ∷ f.format_banner ∷ f.format_video ∷ f.format_native ∷ []

module _ {F : Type 0} (fl : FloatOps F) (sc : ScoreOps F) where
  -- The score that `FeatureWeightedScorer` gives, with its default weights.
  unfoldable pub weighted_score : ScoringContext → AdCandidate F → F
  weighted_score ctx c =
      let norm_price =
        sc.minimum (fl.div (fl.of_i32 c.bid_price_cents) (fl.literal 1_000 1)) (fl.literal 1 1) in
      let overlap_ratio =
        if fl.gt (fl.of_ℕ (length ctx.segment_ids)) (fl.literal 0 1)
        then sc.minimum (fl.div (fl.of_ℕ (c.campaign_id % 10)) (fl.literal 10 1)) (fl.literal 1 1)
        else fl.literal 5 10 in
      sc.add (fl.mul (fl.literal 4 10) norm_price) (fl.mul (fl.literal 6 10) overlap_ratio)

  unfoldable pub feature_weighted : Scorer F
  feature_weighted [] ctx = []
  feature_weighted (c ∷ cs) ctx =
      record c { score = weighted_score ctx c } ∷ feature_weighted cs ctx

  abbrev one : F
  one = fl.literal 1 1

  abbrev nought : F
  nought = fl.literal 0 1

  abbrev flag : Bool → F
  flag b = if b then one else nought

  -- The one-hot codes of the device and of the format.
  unfoldable pub device_code : Option DeviceTargetType → F × (F × (F × F))
  device_code (some desktop) = (one, (nought, (nought, nought)))
  device_code (some mobile) = (nought, (one, (nought, nought)))
  device_code (some tablet) = (nought, (nought, (one, nought)))
  device_code (some ctv) = (nought, (nought, (nought, one)))
  device_code _ = (nought, (nought, (nought, nought)))

  unfoldable pub format_code : Option AdFormat → F × (F × F)
  format_code (some banner) = (one, (nought, nought))
  format_code (some video) = (nought, (one, nought))
  format_code (some native) = (nought, (nought, one))
  format_code _ = (nought, (nought, nought))

  unfoldable pub extract : AdCandidate F → ScoringContext → ScoringFeatures F
  extract c ctx =
      let n_segments = length ctx.segment_ids in
      let device = device_code ctx.device_type in
      let format = format_code ctx.ad_format in
      record {
        bid_price_norm =
            sc.clamp (fl.div (fl.of_i32 c.bid_price_cents) (fl.literal 1_000 1)) nought one;
        segment_overlap_ratio =
            if n_segments == 0
            then nought
            else fl.div (fl.of_ℕ (c.campaign_id % 10)) (fl.literal 10 1);
        segment_count_log1p = sc.ln (sc.add (fl.of_ℕ n_segments) one);
        device_desktop = device.0;
        device_mobile = device.1.0;
        device_tablet = device.1.1.0;
        device_ctv = device.1.1.1;
        hour_of_day_norm = fl.div (fl.of_ℕ (min ctx.hour_of_day 23)) (fl.literal 23 1);
        is_weekend = flag ctx.is_weekend;
        geo_top_market = flag ctx.is_top_market;
        format_banner = format.0;
        format_video = format.1.0;
        format_native = format.1.1;
      }

-- `request.imp.get(imp_idx).and_then(imp_ad_format)`.
abbrev pub format_at : List Imp → Option AdFormat
format_at [] = none
format_at (imp ∷ imps) = imp_ad_format imp

abbrev pub rest_of : List Imp → List Imp
rest_of [] = []
rest_of (imp ∷ imps) = imps

-- The context of a request, but for the format.
abbrev pub context_of : {F V C : Type 0} → BidContext F V C → ℕ → Option AdFormat → ScoringContext
context_of ctx secs ad_format = record {
  segment_ids = ctx.segment_ids;
  device_type = device_type_of ctx.request.device;
  ad_format = ad_format;
  hour_of_day = current_hour_of_day secs;
  is_weekend = is_weekend_at secs;
  user_id = unwrap_or (user_id_of ctx.request) "";
  is_top_market = false;
}

module _ {F : Type 0} (scorer : Scorer F) where
  -- The loop over the impressions, with the context for a format.
  unfoldable pub score_imps :
      (Option AdFormat → ScoringContext)
      → List Imp
      → List (List (AdCandidate F))
      → List (List (AdCandidate F))
  score_imps context imps [] = []
  score_imps context imps (cs ∷ rest) =
      (if is_empty cs then cs else scorer cs (context (format_at imps)))
      ∷ score_imps context (rest_of imps) rest

  -- `ScoringStage::execute`, at this many seconds since the epoch.
  unfoldable pub score : {E W V C : Type 0} → ℕ → Stage E W F V C
  score secs (w, ctx) = record {
    error = none;
    state = (
      w,
      record ctx { candidates = score_imps (context_of ctx secs) ctx.request.imp ctx.candidates },
    );
  }
