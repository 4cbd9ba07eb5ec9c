-- ===== src/Scoring.antt =====
-- bidder-core/src/scoring (mod, ab_test, cascade, feature_weighted, features),
-- bidder-core/src/clock.rs, bidder-core/src/pipeline/stages/scoring.rs, and the choice of a scorer in
-- bidder-server/src/main.rs. A scorer is a function of the candidates and the context; how the one that
-- runs a model is made is an argument, and so are the float operations.
pub mod Entries
pub mod Cascade
pub mod Arms
pub mod Features
pub mod Chosen
pub mod Kept
mod Tests
use Prim.Native.String.{String}
use Prim.Native.Nat.{bit_xor}
use text.Mathlib.Text.{◌==◌ as ◌≟◌}
use rust_rtb_bidder.Base.{
  ℕ, ◌+◌, ◌*◌, ◌/◌, ◌%◌, zero, suc, min, Bool, true, false, not, ◌&&◌, ◌||◌, Option, none, some,
  List, [], ◌∷◌, map, retain, any, length, is_empty, ltb, ◌==◌, if◌then◌else◌, unwrap_or, FloatOps,
  ◌>>=◌,
}
use rust_rtb_bidder.Base.Words.{u64_mod}
use rust_rtb_bidder.Model.{AdCandidate, BidContext, Imp, Device, is_blank}
use rust_rtb_bidder.Percent.{as_bytes}
use rust_rtb_bidder.Pipeline.{Stage}
use rust_rtb_bidder.Pipeline.Response.{user_id_of}
use rust_rtb_bidder.Catalog.{
  DeviceTargetType, desktop, mobile, tablet, ctv, other, AdFormat, banner, video, audio, native,
  imp_ad_format, device_type_of,
}

-- The f32 operations that only the scorers call.
pub record ScoreOps (F : Type 0) : Type 0 where
  pub add : F → F → F
  pub minimum : F → F → F
  pub clamp : F → F → F → F
  pub ln : F → F

pub record ScoringContext : Type 0 where
  pub segment_ids : List ℕ
  pub device_type : Option DeviceTargetType
  pub ad_format : Option AdFormat
  pub hour_of_day : ℕ
  pub is_weekend : Bool
  pub user_id : String
  pub is_top_market : Bool

-- The trait `Scorer`, which may change, drop and reorder.
abbrev pub Scorer : Type 0 → Type 0
Scorer F = List (AdCandidate F) → ScoringContext → List (AdCandidate F)

-- `clock.rs`, at this many seconds since the epoch.
unfoldable pub current_hour_of_day : ℕ → ℕ
current_hour_of_day secs = secs % 86_400 / 3_600

unfoldable pub current_day_of_week : ℕ → ℕ
current_day_of_week secs = (secs / 86_400 + 3) % 7

unfoldable pub is_weekend_at : ℕ → Bool
is_weekend_at secs = (current_day_of_week secs == 5) || (current_day_of_week secs == 6)

-- FNV-1a.
abbrev pub fnv_offset : ℕ
fnv_offset = 14_695_981_039_346_656_037

abbrev pub fnv_prime : ℕ
fnv_prime = 1_099_511_628_211

abbrev pub hash_byte : ℕ → ℕ → ℕ
hash_byte h b = bit_xor h b * fnv_prime % u64_mod

unfoldable pub hash_bytes : ℕ → List ℕ → ℕ
hash_bytes h [] = h
hash_bytes h (b ∷ bs) = hash_bytes (hash_byte h b) bs

unfoldable pub fnv1a : String → String → ℕ
fnv1a seed user_id =
    hash_bytes (hash_byte (hash_bytes fnv_offset (as_bytes seed)) 124) (as_bytes user_id)

pub data Arm : Type 0 where
  control treatment : Arm

-- The `ABTestScorer`, and a `CascadeScorer`, of any two scorers.
pub record AbTestScorer (F : Type 0) : Type 0 where
  pub on_control : Scorer F
  pub on_treatment : Scorer F
  pub treatment_share : F
  pub hash_seed : String

pub record CascadeScorer (F : Type 0) : Type 0 where
  pub stage1 : Scorer F
  pub stage2 : Scorer F
  pub top_k : ℕ
  pub threshold : F

abbrev pub Key : Type 0
Key = ℕ × ℕ

abbrev pub same_key : Key → Key → Bool
same_key a b = (a.0 == b.0) && (a.1 == b.1)

abbrev pub key_of : {F : Type 0} → AdCandidate F → Key
key_of c = (c.campaign_id, c.creative_id)

unfoldable pub take : {A : Type 0} → ℕ → List A → List A
take zero xs = []
take (suc n) [] = []
take (suc n) (x ∷ xs) = x ∷ take n xs

-- The score of the last entry for a key, as the collected map has it.
unfoldable pub score_for : {F : Type 0} → List (AdCandidate F) → Key → Option F
score_for [] k = none
score_for (c ∷ cs) k =
    let later = score_for cs k in
    elim later [ some s ↦ some s | none ↦ if same_key (key_of c) k then some c.score else none ]

abbrev pub with_score : {F : Type 0} → AdCandidate F → Option F → AdCandidate F
with_score c none = c
with_score c (some s) = record c { score = s }

-- The loop that writes the scores back.
unfoldable pub write_back : {F : Type 0} → List (AdCandidate F) → AdCandidate F → AdCandidate F
write_back scored c = with_score c (score_for scored (key_of c))

module _ {F : Type 0} (fl : FloatOps F) where
  unfoldable pub pick_arm : F → String → String → Arm
  pick_arm share hash_seed user_id =
      if is_blank user_id || fl.ge (fl.literal 0 1) share
      then control
      else if fl.ge share (fl.literal 1 1)
      then treatment
      else if fl.gt share
          (fl.div (fl.of_ℕ (fnv1a hash_seed user_id % 10_000)) (fl.literal 10_000 1))
      then treatment
      else control

  abbrev pub on_arm : AbTestScorer F → Arm → Scorer F
  on_arm s control = s.on_control
  on_arm s treatment = s.on_treatment

  -- `ABTestScorer::score_all`.
  unfoldable pub ab_score_all : AbTestScorer F → Scorer F
  ab_score_all s candidates ctx =
      on_arm s (pick_arm s.treatment_share s.hash_seed ctx.user_id) candidates ctx

  -- The sort of the keys by falling score, which keeps the order of equal ones.
  unfoldable pub insert_by_score : Key × F → List (Key × F) → List (Key × F)
  insert_by_score x [] = x ∷ []
  insert_by_score x (y ∷ ys) =
      let rest = insert_by_score x ys in if fl.gt y.1 x.1 then y ∷ rest else x ∷ y ∷ ys

  unfoldable pub sort_by_score : List (Key × F) → List (Key × F)
  sort_by_score [] = []
  sort_by_score (x ∷ xs) = insert_by_score x (sort_by_score xs)

  -- The keys that advance to the second stage, each with its score.
  unfoldable pub advancing : ℕ → F → List (AdCandidate F) → List (Key × F)
  advancing top_k threshold candidates =
      let passed =
        retain (λ e. fl.ge e.1 threshold)
          (sort_by_score (map (λ c. (key_of c, c.score)) candidates)) in
      if ltb 0 top_k && ltb top_k (length passed) then take top_k passed else passed

  abbrev pub advances : List (Key × F) → AdCandidate F → Bool
  advances keys c = any (λ e. same_key e.0 (key_of c)) keys

  -- What the second stage makes of the scores of the first.
  unfoldable pub second_stage :
      CascadeScorer F → List (AdCandidate F) → ScoringContext → List (AdCandidate F)
  second_stage s scored ctx =
      let keys = advancing s.top_k s.threshold scored in
      if is_empty keys
      then scored
      else map (write_back (s.stage2 (retain (advances keys) scored) ctx)) scored

  -- `CascadeScorer::score_all`.
  unfoldable pub cascade_score_all : CascadeScorer F → Scorer F
  cascade_score_all s candidates ctx =
      if is_empty candidates then candidates else second_stage s (s.stage1 candidates ctx) ctx
