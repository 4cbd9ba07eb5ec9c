-- ===== src/Catalog/Tests.antt =====
-- Bitmaps as lists, a catalog of two campaigns, and the theorems at it.
use Prim.Native.String.{String}
use rust_rtb_bidder.Base.{
  ℕ, ap, ==_iff, ◌≡◌, refl, true, false, ◌&&◌, ◌||◌, not, none, some, List, [], ◌∷◌, ◌++◌, is_empty,
  All, contains, retain, arith, ◌==◌, if◌then◌else◌, Bool-cases, if_intro, inl, inr,
}
use rust_rtb_bidder.Base.Ratio.{Ratio, ratio_ops}
use rust_rtb_bidder.Model.{BidContext, BidRequest, pending}
use rust_rtb_bidder.Pipeline.Accounts.Paced.{AreDistinct}
use rust_rtb_bidder.Catalog.{
  BitmapOps, CampaignCatalog, CandidateRequest, Campaign, mobile, banner, same_format,
  candidates_for, retrieve, from_openrtb, ctv, other, by_daypart, by_format, by_device, by_geo,
  by_segments, narrow, add_index, union_of,
}
use rust_rtb_bidder.Catalog.Eligible.{BitmapLaws, is_narrowed, suits, has-candidates_for}
use rust_rtb_bidder.Catalog.Rows.{CampaignRow, parse_device_type, parse_ad_format, same_device}
use rust_rtb_bidder.Catalog.Loader.{LoadOps}
use rust_rtb_bidder.Catalog.Loaded.{LoadLaws, loaded, serves, candidates_for-serves}
use rust_rtb_bidder.Catalog.Retrieved.{NoRepeats, retrieve-AreDistinct}

program : Unit {0}
unfolding from_openrtb candidates_for by_daypart by_format by_device by_geo by_segments narrow
    add_index union_of
program = tt

abbrev nub : List ℕ → List ℕ
nub [] = []
nub (x ∷ xs) = if contains xs x then nub xs else x ∷ nub xs

abbrev list_bitmap : BitmapOps (List ℕ)
list_bitmap = record {
  new = [];
  is_empty_bitmap = is_empty;
  union = λ a b. a ++ b;
  intersect = λ a b. retain (contains b) a;
  has = contains;
  iter = nub;
}

contains-append : (a b : List ℕ) (id : ℕ) → contains (a ++ b) id ≡ (contains a id || contains b id)
contains-append [] b id = refl
contains-append (x ∷ a) b id = ground (arith, contains-append a b id)

contains-retain :
    (a b : List ℕ) (id : ℕ) → contains (retain (contains b) a) id ≡ (contains a id && contains b id)
contains-retain [] b id = refl
contains-retain (x ∷ a) b id = elim (Bool-cases (x == id)) [
  | inl k ↦ ground (arith, contains-retain a b id, ap (contains b) ((==_iff x id).0 k))
  | inr k ↦ ground (arith, contains-retain a b id)
]

nub-contains : (xs : List ℕ) (a : ℕ) → contains xs a ≡ false → contains (nub xs) a ≡ false
nub-contains [] a h = refl
nub-contains (x ∷ xs) a h =
    let ih = nub-contains xs a (ground arith) in
    if_intro (λ t. contains t a ≡ false) (contains xs x) _ _ (λ _. ih) (λ _. ground (arith, ih))

nub-NoRepeats : (xs : List ℕ) → NoRepeats (nub xs)
nub-NoRepeats [] = tt
nub-NoRepeats (x ∷ xs) =
    if_intro NoRepeats (contains xs x) _ _ (λ _. nub-NoRepeats xs)
      (λ h. (nub-contains xs x h, nub-NoRepeats xs))

list_bitmap-laws : BitmapLaws (List ℕ) list_bitmap
list_bitmap-laws = record {
  has-new = λ id. refl;
  has-union = contains-append;
  has-intersect = contains-retain;
}

abbrev campaign : ℕ → Campaign
campaign id = record {
  id = id;
  advertiser_id = 1;
  bid_floor_cents = 50;
  daily_budget_cents = 1_000;
  hourly_budget_cents = 100;
  daily_cap_imps = 3;
  hourly_cap_imps = 1;
}

-- Campaign 1 serves segment 9 on any device, campaign 2 serves mobile only.
abbrev catalog : CampaignCatalog (List ℕ)
catalog = record {
  campaigns = λ id. some (campaign id);
  has_no_campaigns = false;
  creatives = λ id. some (record { id = 7; campaign_id = id; ad_format = banner } ∷ []);
  segment_to_campaigns = λ s. if s == 9 then some (1 ∷ 2 ∷ []) else none;
  geo_to_campaigns = λ k. none;
  device_to_campaigns = λ d. elim d [ mobile ↦ some (2 ∷ []) | _ ↦ none ];
  format_to_campaigns = λ f. none;
  daypart_active_now = [];
  all_campaigns = 1 ∷ 2 ∷ [];
  device_unrestricted = 1 ∷ [];
  format_unrestricted = 1 ∷ 2 ∷ [];
}

abbrev on_tv : CandidateRequest
on_tv = record {
  segment_ids = 9 ∷ [];
  geo_keys = none;
  device_type = some ctv;
  ad_format = some banner;
}

mobile_only_is_left_out : candidates_for list_bitmap catalog on_tv ≡ 1 ∷ []
unfolding program
mobile_only_is_left_out = refl

unknown_device_is_other : from_openrtb 255 ≡ other
unfolding program
unknown_device_is_other = refl

has-candidates_for_example : contains (candidates_for list_bitmap catalog on_tv) 2 ≡ (
    true
    && (if is_narrowed list_bitmap catalog 2 on_tv
        then suits list_bitmap catalog 2 on_tv
        else true))
has-candidates_for_example = has-candidates_for list_bitmap catalog 2 list_bitmap-laws on_tv

abbrev request : BidRequest (Unit {0})
request = record {
  id = "r";
  imp = record { id = "1"; banner = some tt; video = none; audio = none; native = none } ∷ [];
  device = none;
  user = none;
  regs = none;
}

abbrev context : BidContext Ratio (Unit {0}) (CampaignCatalog (List ℕ))
context = record {
  request = request;
  outcome = pending;
  segment_ids = 9 ∷ [];
  catalog = some catalog;
  candidates = [] ∷ [];
  winners = [];
  freq_cap_results = [];
  bid_response = none;
}

retrieve-AreDistinct_example :
    All AreDistinct (retrieve list_bitmap ratio_ops {E = Unit {0}} (tt, context)).state.1.candidates
retrieve-AreDistinct_example =
    retrieve-AreDistinct (Unit {0}) (Unit {0}) (Unit {0}) list_bitmap ratio_ops tt context
      nub-NoRepeats (tt, tt)

-- A load of two campaigns, where a row restricts campaign 2 to mobile devices.
abbrev list_load : LoadOps (List ℕ)
list_load = record { insert = λ b i. i ∷ b; difference = λ a b. retain (λ x. not (contains b x)) a }

contains-difference :
    (a b : List ℕ) (id : ℕ)
    → contains (retain (λ x. not (contains b x)) a) id ≡ (contains a id && not (contains b id))
contains-difference [] b id = refl
contains-difference (x ∷ a) b id = elim (Bool-cases (x == id)) [
  | inl k ↦ ground (arith, contains-difference a b id, ap (contains b) ((==_iff x id).0 k))
  | inr k ↦ ground (arith, contains-difference a b id)
]

list_load-laws : LoadLaws (List ℕ) list_bitmap list_load
list_load-laws = record {
  has-insert = λ b i id. ground arith;
  has-difference = contains-difference;
  empty-new = refl;
}

abbrev row : ℕ → CampaignRow
row id = record {
  id = id;
  advertiser_id = 1;
  bid_floor_cents = 50;
  daily_budget_cents = 1_000;
  hourly_budget_cents = 100;
  daily_cap_imps = 3;
  hourly_cap_imps = 1;
}

abbrev rows : List CampaignRow
rows = row 1 ∷ row 2 ∷ []

abbrev device_rows : List (String × List ℕ)
device_rows = ("mobile", 2 ∷ []) ∷ ("watch", 1 ∷ []) ∷ []

unknown_rows_restrict_nothing : serves parse_device_type same_device rows device_rows ctv 1 ≡ true
unfolding parse_device_type
unknown_rows_restrict_nothing = refl

candidates_for-serves_example :
    contains
      (candidates_for list_bitmap
        (loaded list_bitmap list_load rows [] [] [] device_rows [])
        (record {
          segment_ids = [];
          geo_keys = none;
          device_type = some mobile;
          ad_format = some banner;
        }))
      2
    ≡ (not (is_empty (loaded list_bitmap list_load rows [] [] [] device_rows []).all_campaigns)
        && (serves parse_device_type same_device rows device_rows mobile 2
            && serves parse_ad_format same_format rows [] banner 2))
candidates_for-serves_example =
    candidates_for-serves list_bitmap list_load rows [] [] [] device_rows [] list_bitmap-laws
      list_load-laws 2 mobile banner
