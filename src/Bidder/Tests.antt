-- ===== src/Bidder/Tests.antt =====
-- A whole run: of two campaigns for segment 9 the user is capped for the first, and the second wins.
use Prim.Native.String.{String}
use rust_rtb_bidder.Base.{
  ℕ, ◌+◌, min, ◌≡◌, refl, false, none, some, List, [], ◌∷◌, ◌++◌, All, map, contains, retain,
  is_empty, ◌==◌, if◌then◌else◌,
}
use rust_rtb_bidder.Base.Ratio.{whole}
use rust_rtb_bidder.Model.{BidRequest, BidContext}
use rust_rtb_bidder.Handlers.{new_context}
use rust_rtb_bidder.Breaker.{closed, redis, fresh_window}
use rust_rtb_bidder.FreqCap.{checked, cap_stage, cap_imps, cap_imp, apply_outcome, keep_uncapped}
use rust_rtb_bidder.Scoring.{ScoreOps}
use rust_rtb_bidder.Scoring.Chosen.{feature_weighted_kind, ScoringConfig, build_scorer_root}
use rust_rtb_bidder.Scoring.Features.{
  feature_weighted, score, score_imps, weighted_score, extract, device_code, format_code,
}
use rust_rtb_bidder.Ml.{MlRuntime}
use rust_rtb_bidder.Catalog.{
  BitmapOps, CampaignCatalog, banner, candidates_for, by_segments, by_geo, by_device, by_format,
  by_daypart, narrow, union_of, add_index, retrieve, retrieve_imps, expand_all, expand,
  imp_ad_format, geo_keys_of, device_type_of, find_creative,
}
use rust_rtb_bidder.Enrichment.{enrich, fetch_for, get_or_fetch}
use rust_rtb_bidder.Pacing.{check_and_reserve, release, as_i64}
use rust_rtb_bidder.Pipeline.{execute, go_on}
use rust_rtb_bidder.Pipeline.Answers.{IsAnswered}
use rust_rtb_bidder.Pipeline.Validation.{validate, is_under_gdpr}
use rust_rtb_bidder.Pipeline.Limit.{limit, limit_imp}
use rust_rtb_bidder.Pipeline.Budget.{pace, pace_imps, pace_imp, reserve_each, keep_reserved}
use rust_rtb_bidder.Pipeline.Ranking.{
  rank, rank_imps, winner_of, best, ranks_above, release_each, losers, lt_i32, win, imp_id_at,
}
use rust_rtb_bidder.Pipeline.Response.{build_response, no_notice_url, settled, user_id_of}
use rust_rtb_bidder.Base.Words.{add64, sub64, le_i64}
use rust_rtb_bidder.Bidder.{World, Bidder, on_shared, on_pacer, late_stages, stages}
use rust_rtb_bidder.Bidder.Offers.{IsTraced}
use rust_rtb_bidder.Bidder.Traced.{segments_given, run-IsTraced}

program : Unit {0}
unfolding stages late_stages on_shared on_pacer execute go_on validate is_under_gdpr user_id_of
    enrich fetch_for get_or_fetch retrieve retrieve_imps expand_all expand imp_ad_format geo_keys_of
    device_type_of find_creative candidates_for by_segments by_geo by_device by_format by_daypart
    narrow union_of add_index limit limit_imp score score_imps feature_weighted weighted_score
    extract device_code format_code cap_stage cap_imps cap_imp apply_outcome keep_uncapped pace
    pace_imps pace_imp reserve_each keep_reserved check_and_reserve release as_i64 add64 sub64
    le_i64 rank rank_imps winner_of best ranks_above release_each losers lt_i32 win imp_id_at
    build_response settled
program = tt

abbrev bitmap : BitmapOps (List ℕ)
bitmap = record {
  new = [];
  is_empty_bitmap = is_empty;
  union = λ a b. a ++ b;
  intersect = λ a b. retain (contains b) a;
  has = contains;
  iter = λ b. b;
}

-- The first campaign asks for more.
abbrev catalog : CampaignCatalog (List ℕ)
catalog = record {
  campaigns = λ id. some (record {
    id = id;
    advertiser_id = 1;
    bid_floor_cents = if id == 1 then 90 else 30;
    daily_budget_cents = 1_000;
    hourly_budget_cents = 100;
    daily_cap_imps = 3;
    hourly_cap_imps = 1;
  });
  has_no_campaigns = false;
  creatives = λ id. some (record { id = 7; campaign_id = id; ad_format = banner } ∷ []);
  segment_to_campaigns = λ s. if s == 9 then some (1 ∷ 2 ∷ []) else none;
  geo_to_campaigns = λ k. none;
  device_to_campaigns = λ d. none;
  format_to_campaigns = λ f. none;
  daypart_active_now = [];
  all_campaigns = 1 ∷ 2 ∷ 3 ∷ [];
  device_unrestricted = 1 ∷ 2 ∷ 3 ∷ [];
  format_unrestricted = 1 ∷ 2 ∷ 3 ∷ [];
}

abbrev score_ops : ScoreOps ℕ
score_ops = record { add = λ a b. a + b; minimum = min; clamp = λ x a b. x; ln = λ x. x }

abbrev scoring : ScoringConfig ℕ
scoring = record { kind = feature_weighted_kind; cascade_cfg = none; ab_test_cfg = none }

abbrev no_model : MlRuntime ℕ (Unit {0})
no_model = record {
  commit = λ path now. none;
  run = λ s i o rows. none;
  read_lines = λ path. none;
  parse_pair = λ line. none;
  distance = λ a b. 0;
}

abbrev bidder : Bidder (List ℕ) ℕ (Unit {0}) (Unit {0})
bidder = record {
  texts = record { get = λ v s. none; as_str = λ v. none };
  snapshot = catalog;
  answers = record { first_ms = 3; second_ms = 3; first = λ key. none; second = λ key. none };
  now = 100;
  max_candidates_per_imp = 50;
  scorer = feature_weighted whole score_ops;
  secs = 7;
  freq_capper = λ user_id idx w cs. (
    w,
    checked (
        map
          (λ c. record {
            campaign_id = c.campaign_id;
            day_count = some 0;
            hour_count = some 1;
            capped = c.campaign_id == 1;
          })
          cs),
  );
  ext_of = λ fields. tt;
  notice_url_builder = no_notice_url;
  exchange_id = "adx";
}

-- The cache holds segment 9 for the user.
abbrev world : World ℕ (Unit {0})
world = record {
  shared = record {
    cache = λ u. some (9 ∷ []);
    redis = record {
      breaker = record {
        cfg = redis whole;
        window = fresh_window;
        inner = record { state = closed; opened_at = none; half_open_probe_in_flight = false };
      };
      hedge = record { tokens = 5; nominal = 5; effective_cap = 5 };
      latency_tracker = record { count = 0; sum_us = 0 };
    };
  };
  capping = tt;
  pacer = λ id. some 100;
}

abbrev request : BidRequest (Unit {0})
request = record {
  id = "r";
  imp = record { id = "1"; banner = some tt; video = none; audio = none; native = none } ∷ [];
  device = none;
  user = some (record { id = some "u"; ext = none });
  regs = none;
}

abbrev context : BidContext ℕ (Unit {0}) (CampaignCatalog (List ℕ))
context = new_context request

the_second_wins :
    map {B = String × (ℕ × ℕ)}
      (λ w. (w.imp_id, (w.campaign_id, w.bid_price_cents)))
      (execute {E = Unit {0}} 50
        (λ n. n)
        (stages bitmap whole bidder)
        (world, context)).state.1.winners
    ≡ ("1", (2, 30)) ∷ []
unfolding program
the_second_wins = refl

run-IsTraced_example :
    let ran = execute {E = Unit {0}} 50 (λ n. n) (stages bitmap whole bidder) (world, context) in
    (ran.error ≡ none)
    × (IsAnswered whole bidder.ext_of bidder.notice_url_builder bidder.exchange_id ran.state.1
        × All
            (IsTraced bitmap whole catalog (segments_given whole bidder world request) request)
            ran.state.1.winners)
unfolding build_scorer_root
run-IsTraced_example =
    run-IsTraced (Unit {0}) bitmap whole score_ops no_model scoring none 1
      (λ i. record { sessions = []; next = 0; input_name = ""; output_name = "" }) bidder 50
      (λ n. n) world request refl
