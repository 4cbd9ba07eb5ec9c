-- ===== src/Ml/Tests.antt =====
-- A model that answers the first feature of a row, three candidates in batches of two, and the theorems
-- at them.
use rust_rtb_bidder.Base.{
  ℕ, zero, suc, ◌+◌, ◌-◌, ◌<◌, min, ◌≡◌, refl, arith, true, false, Option, none, some, List, [],
  ◌∷◌, map, length, ltb,
}
use rust_rtb_bidder.Base.Ratio.{whole}
use rust_rtb_bidder.Model.{AdCandidate, BidContext, pending}
use rust_rtb_bidder.Scoring.{ScoreOps, ScoringContext, Scorer, take}
use rust_rtb_bidder.Scoring.Chosen.{ml, ScoringConfig, build_scorer_root}
use rust_rtb_bidder.Scoring.Features.{
  feature_weighted, weighted_score, score, pack_into, extract, device_code, format_code,
}
use rust_rtb_bidder.Scoring.Kept.{unscored}
use rust_rtb_bidder.Ml.{
  MlScorerConfig, ModelSnapshot, MlRuntime, validate, build, commit_all, drop, replicate, pick,
  with_scores, row_of, padded_rows, infer, score_batch, fall_back, batches, ml_score_all, build_ml,
  new_with_fallback, verify_parity, check_lines, check_pair,
}
use rust_rtb_bidder.Ml.Batches.{answers, all_or_none, rounds, batches-all_or_none}
use rust_rtb_bidder.Ml.Rowwise.{scored_by, score_by, ml_score_all-rowwise}
use rust_rtb_bidder.Ml.Kept.{configured_scoring_keeps_candidates}
use rust_rtb_bidder.Ml.Ready.{FileAgrees, new-FileAgrees}
use rust_rtb_bidder.Ml.Watcher.{
  Event, modify, access, touches_model, is_interesting, watch, started, watch-reloads,
}

program : Unit {0}
unfolding batches fall_back score_batch infer padded_rows row_of pack_into extract device_code
    format_code pick replicate drop take with_scores feature_weighted weighted_score ml_score_all
program = tt

abbrev whole_score : ScoreOps ℕ
whole_score = record { add = λ a b. a + b; minimum = min; clamp = λ x a b. x; ln = λ x. x }

abbrev first_feature : List ℕ → ℕ
first_feature [] = 0
first_feature (x ∷ xs) = x

-- A session is the time at which its file was read; those of the time 9 fail on every input.
abbrev answer : ℕ → List (List ℕ) → Option (List ℕ)
answer s rows = elim (ltb s 9) [ true ↦ some (map first_feature rows) | false ↦ none ]

abbrev runtime : MlRuntime ℕ ℕ
runtime = record {
  commit = λ path now. some now;
  run = λ s i o rows. answer s rows;
  read_lines = λ path. some ("" ∷ "line" ∷ []);
  parse_pair = λ line. some (12 ∷ 0 ∷ 0 ∷ 0 ∷ 0 ∷ 0 ∷ 0 ∷ 0 ∷ 0 ∷ 0 ∷ 0 ∷ 0 ∷ 0 ∷ [], 12);
  distance = λ a b. (a - b) + (b - a);
}

abbrev config : MlScorerConfig
config = record {
  model_path = "m";
  parity_path = some "p";
  input_tensor_name = "features";
  output_tensor_name = "pctr";
  pool_size = 2;
  max_batch = 2;
  batch_pad_to = 4;
}

abbrev snapshot : ℕ → ℕ → ModelSnapshot ℕ
snapshot now next = record {
  sessions = now ∷ now ∷ [];
  next = next;
  input_name = "features";
  output_name = "pctr";
}

abbrev ctx : ScoringContext
ctx = record {
  segment_ids = [];
  device_type = none;
  ad_format = none;
  hour_of_day = 0;
  is_weekend = false;
  user_id = "u";
  is_top_market = false;
}

abbrev ad : ℕ → ℕ → AdCandidate ℕ
ad price score = record {
  campaign_id = 1;
  creative_id = 2;
  bid_price_cents = price;
  score = score;
  daily_cap_imps = 1;
  hourly_cap_imps = 1;
}

abbrev ads : List (AdCandidate ℕ)
ads = ad 30 0 ∷ ad 10 0 ∷ ad 20 0 ∷ []

-- The second batch finds a broken session, so that the first batch's numbers are gone as well.
abbrev broken : ℕ → ModelSnapshot ℕ
broken zero = snapshot 1 0
broken (suc i) = snapshot 9 0

all_scored :
    batches runtime whole whole_score config ctx none (snapshot 1) 4 0 0 ads
    ≡ some (ad 30 30 ∷ ad 10 10 ∷ ad 20 20 ∷ [])
unfolding program
all_scored = refl

all_wiped : batches runtime whole whole_score config ctx none broken 4 0 0 ads ≡ some ads
unfolding program
all_wiped = refl

batches-all_or_none_example :
    batches runtime whole whole_score config ctx none broken 4 0 0 ads
    ≡ some (
        all_or_none runtime whole whole_score config ctx none broken ads (
          answers runtime whole whole_score config ctx none broken
            (rounds runtime whole whole_score config ctx none broken 3)
            0
            ads))
unfolding validate
batches-all_or_none_example =
    batches-all_or_none runtime whole whole_score config ctx none broken 4 ads refl (omega arith)

ml_score_all-rowwise_example :
    ml_score_all runtime whole whole_score config none (snapshot 1) ads ctx
    ≡ map
        (scored_by (score_by runtime whole whole_score config ctx none (snapshot 1) first_feature))
        ads
unfolding validate
ml_score_all-rowwise_example =
    ml_score_all-rowwise runtime whole whole_score config ctx none (snapshot 1) first_feature ads
      refl (λ i. (omega arith, ((λ rows. refl), ((λ rows. refl), tt))))

abbrev scoring : ScoringConfig ℕ
scoring = record { kind = ml; cascade_cfg = none; ab_test_cfg = none }

abbrev context : BidContext ℕ (Unit {0}) (Unit {0})
context = record {
  request = record { id = "r"; imp = []; device = none; user = none; regs = none };
  outcome = pending;
  segment_ids = [];
  catalog = none;
  candidates = ads ∷ [];
  winners = [];
  freq_cap_results = [];
  bid_response = none;
}

abbrev built : Scorer ℕ
built =
    ml_score_all runtime whole whole_score config (some (feature_weighted whole whole_score))
      (snapshot 1)

configured_scoring_keeps_candidates_example :
    let ran = score built {E = Unit {0}} 7 (tt, context) in
    (ran.error ≡ none)
    × ((ran.state.0 ≡ tt)
        × ((ran.state.1.outcome ≡ context.outcome)
            × (map (map unscored) ran.state.1.candidates ≡ map (map unscored) context.candidates)))
unfolding build_scorer_root build_ml new_with_fallback validate build commit_all verify_parity
    check_lines check_pair
configured_scoring_keeps_candidates_example =
    configured_scoring_keeps_candidates runtime whole whole_score scoring (some config) 1
      (snapshot 1) 7 tt context built refl

new-FileAgrees_example :
    (validate config ≡ true)
    × ((length (snapshot 1 0).sessions ≡ config.pool_size)
        × ((0 < length (snapshot 1 0).sessions)
            × (((snapshot 1 0).next ≡ 0)
                × (((snapshot 1 0).input_name ≡ config.input_tensor_name)
                    × (((snapshot 1 0).output_name ≡ config.output_tensor_name)
                        × FileAgrees runtime whole (snapshot 1 0) config.parity_path)))))
unfolding new_with_fallback validate build commit_all verify_parity check_lines check_pair
new-FileAgrees_example = new-FileAgrees runtime whole config 1 (snapshot 1 0) refl

-- Files that have the same model from the start, and an event within another's debounce.
abbrev steady : MlRuntime ℕ ℕ
steady = record runtime { commit = λ path now. some 3 }

abbrev change : Event
change = record { paths = "other" ∷ "m" ∷ []; kind = modify }

watch-reloads_example :
    (watch steady config
      (λ n. 1_000)
      (started steady config (λ n. 1_000) (snapshot 1 5))
      ((500, change)
        ∷ (600, record { paths = "m" ∷ []; kind = access })
        ∷ (650, change)
        ∷ [])).snapshot
    ≡ snapshot 3 0
unfolding touches_model is_interesting build commit_all
watch-reloads_example =
    watch-reloads steady config (λ n. 1_000) (snapshot 1 5) (snapshot 3 0) 500 change []
      ((600, record { paths = "m" ∷ []; kind = access }) ∷ (650, change) ∷ []) (λ now h. refl) refl
      refl
