-- ===== src/Catalog/Refresh.antt =====
-- What the turns of the refresh leave, where some of them fail.
use rust_rtb_bidder.Base.{
  ℕ, ◌+◌, ◌<◌, ◌≡◌, refl, ap, ◌∙◌, arith, Bool, true, false, ◌||◌, Option, none, some, List, [],
  ◌∷◌, ◌++◌, length, All,
}
use rust_rtb_bidder.Base.Words.{u32_mod}
use rust_rtb_bidder.Pacing.{reload}
use rust_rtb_bidder.Catalog.{BitmapOps, Campaign, CampaignCatalog}
use rust_rtb_bidder.Catalog.Rows.{SegmentRegistry}
use rust_rtb_bidder.Catalog.Loader.{
  LoadOps, Answers, Shared, budget_seeds, build, refresh, refresh_loop,
}

abbrev pub failed {ℓ} : {A : Type ℓ} → Option A → Bool
failed none = true
failed (some a) = false

-- One of the eight queries failed.
abbrev pub has_failure : Answers → Bool
has_failure a =
    failed a.campaigns
    || failed a.creatives
    || failed a.segments
    || failed a.segment_index
    || failed a.geo_index
    || failed a.device_index
    || failed a.format_index
    || failed a.daypart_active_now

with_failures :
    {B : Type 0} (s : Shared B) {m n : ℕ}
    → m ≡ n
    → Path
        (Shared B)
        (record s { consecutive_failures = m })
        (record s { consecutive_failures = n })
with_failures s e = λ i. record s { consecutive_failures = e i }

module _ {B : Type 0} (ops : BitmapOps B) (load : LoadOps B) where
  build-has_failure : (a : Answers) → has_failure a ≡ true → build ops load a ≡ none
  unfolding build
  build-has_failure a h = ground arith

  module _ (keys : (ℕ → Option Campaign) → List ℕ) where
    -- Failures change the count alone.
    fails-keep :
        (answers : List Answers) (s : Shared B)
        → All (λ a. has_failure a ≡ true) answers
        → s.consecutive_failures + length answers < u32_mod
        → refresh_loop ops load keys s answers
          ≡ record s { consecutive_failures = s.consecutive_failures + length answers }
    unfolding refresh_loop refresh
    fails-keep [] s h k = with_failures s (omega arith)
    fails-keep (a ∷ answers) s (h, hs) k =
        ap (λ b. refresh_loop ops load keys (refresh ops load keys s b) answers)
          (build-has_failure a h)
        ∙ (fails-keep answers (refresh ops load keys s none) hs (omega (arith, k))
            ∙ with_failures s (omega (arith, k)))

    refresh_loop-append :
        (before after : List Answers) (s : Shared B)
        → refresh_loop ops load keys s (before ++ after)
          ≡ refresh_loop ops load keys (refresh_loop ops load keys s before) after
    unfolding refresh_loop
    refresh_loop-append [] after s = refl
    refresh_loop-append (a ∷ before) after s =
        refresh_loop-append before after (refresh ops load keys s (build ops load a))

    -- After any turns, a turn whose queries all answer, and then turns each with a failed query: the
    -- requests see the catalog and the registry of the turn that answered, the pacer was reloaded
    -- with its budgets and not since, and the count is that of the failures since.
    pub stale_is_served :
        (s : Shared B) (before after : List Answers) (good : Answers) (cat : CampaignCatalog B)
        (registry : SegmentRegistry)
        → build ops load good ≡ some (cat, registry)
        → All (λ a. has_failure a ≡ true) after
        → length after < u32_mod
        → refresh_loop ops load keys s (before ++ good ∷ after) ≡ record {
          catalog = cat;
          registry = registry;
          pacer =
              reload
                (refresh_loop ops load keys s before).pacer
                (budget_seeds cat (keys cat.campaigns));
          consecutive_failures = length after;
        }
    unfolding refresh_loop refresh
    stale_is_served s before after good cat registry b h k =
        let s' = refresh_loop ops load keys s before in
        refresh_loop-append before (good ∷ after) s
        ∙ (ap (λ built. refresh_loop ops load keys (refresh ops load keys s' built) after) b
            ∙ (fails-keep after (refresh ops load keys s' (some (cat, registry))) h
                  (omega (arith, k))
                ∙ with_failures (refresh ops load keys s' (some (cat, registry))) (omega arith)))
