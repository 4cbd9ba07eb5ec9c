-- ===== src/Bidder/Offers.antt =====
-- The candidates that the retrieval offers for the impressions of a request.
use rust_rtb_bidder.Base.{
  ℕ, zero, suc, ◌+◌, ◌≡◌, refl, sym, ap, subst, ◌∙◌, true, some, List, [], ◌∷◌, contains, get_elem?,
  All, Option-cases, inl, inr, arith, FloatOps,
}
use rust_rtb_bidder.Model.{AdCandidate, ImpWinner, Imp, BidRequest, BidContext}
use rust_rtb_bidder.Handlers.{empty_lists}
use rust_rtb_bidder.Scoring.Kept.{unscored}
use rust_rtb_bidder.Catalog.{
  BitmapOps, CampaignCatalog, expand, expand_all, candidates_for, retrieve_imps, resize_one,
  imp_ad_format, geo_keys_of, device_type_of,
}
use rust_rtb_bidder.Catalog.Retrieved.{expand_all-none, expand_all-some, expand_all_nothing}
use rust_rtb_bidder.Pipeline.Ranking.{win, imp_id_at}
use rust_rtb_bidder.Bidder.Carried.{Unscored, Each, Chosen}

-- The ids that the bitmaps leave for an impression.
abbrev pub ids_for :
    {B V : Type 0} → BitmapOps B → CampaignCatalog B → List ℕ → BidRequest V → Imp → List ℕ
ids_for ops cat segment_ids req imp = ops.iter (
    candidates_for ops cat (record {
      segment_ids = segment_ids;
      geo_keys = geo_keys_of req.device;
      device_type = device_type_of req.device;
      ad_format = imp_ad_format imp;
    }))

module _ {B F V : Type 0} (ops : BitmapOps B) (fl : FloatOps F) (cat : CampaignCatalog B)
    (segment_ids : List ℕ) (req : BidRequest V) where
  -- The candidate is made of a campaign that the bitmaps leave for the impression.
  abbrev pub Offered : Imp → Unscored → Type 0
  Offered imp u =
      (cid : ℕ) × ((contains (ids_for ops cat segment_ids req imp) cid ≡ true)
        × ((c : AdCandidate F) × ((expand ops fl cat (imp_ad_format imp) cid ≡ some c)
              × (u ≡ unscored c))))

  abbrev pub OfferedAt : ℕ → Unscored → Type 0
  OfferedAt n u = (imp : Imp) × ((get_elem? req.imp n ≡ some imp) × Offered imp u)

  -- The winner is for an impression of the request, and a candidate offered for it.
  abbrev pub IsTraced : ImpWinner F → Type 0
  IsTraced w =
      (n : ℕ) × ((imp : Imp) × ((get_elem? req.imp n ≡ some imp)
          × ((w.imp_id ≡ imp.id)
              × ((c : AdCandidate F) × (Offered imp (unscored c)
                    × ((w.campaign_id ≡ c.campaign_id)
                        × ((w.creative_id ≡ c.creative_id)
                            × (w.bid_price_cents ≡ c.bid_price_cents))))))))

  imp_id_at-id :
      (slots : List Imp) (idx n : ℕ) (imp : Imp)
      → get_elem? slots n ≡ some imp
      → imp_id_at slots idx n ≡ imp.id
  unfolding imp_id_at
  imp_id_at-id [] idx n imp e = absurd (ground arith)
  imp_id_at-id (i ∷ slots) idx zero imp e = ground arith
  imp_id_at-id (i ∷ slots) idx (suc n) imp e = imp_id_at-id slots idx n imp e

  Chosen-IsTraced : (ws : List (ImpWinner F)) → All (Chosen OfferedAt req.imp) ws → All IsTraced ws
  unfolding win
  Chosen-IsTraced [] h = tt
  Chosen-IsTraced (w ∷ ws) ((n, (c, ((imp, (e, o)), k))), h) = (
    (
      n,
      (
        imp,
        (
          e,
          (
            ap (λ x. x.imp_id) k ∙ imp_id_at-id req.imp n n imp e,
            (
              c,
              (
                o,
                (
                  ap (λ x. x.campaign_id) k,
                  (ap (λ x. x.creative_id) k, ap (λ x. x.bid_price_cents) k),
                ),
              ),
            ),
          ),
        ),
      ),
    ),
    Chosen-IsTraced ws h,
  )

  expand_all-Offered :
      (imp : Imp) (cids : List ℕ)
      → ((cid : ℕ)
          → contains cids cid ≡ true
          → contains (ids_for ops cat segment_ids req imp) cid ≡ true)
      → All (λ c. Offered imp (unscored c)) (expand_all ops fl cat (imp_ad_format imp) cids)
  expand_all-Offered imp [] h =
      subst (All _) (sym (expand_all_nothing ops fl cat (imp_ad_format imp))) tt
  expand_all-Offered imp (cid ∷ cids) h =
      let ih = expand_all-Offered imp cids (λ j k. h j (ground arith)) in
      elim (Option-cases (expand ops fl cat (imp_ad_format imp) cid)) [
        | inl e ↦ subst (All _) (sym (expand_all-none ops fl cat (imp_ad_format imp) cid cids e)) ih
        | inr (c, e) ↦
            subst (All _) (sym (expand_all-some ops fl cat (imp_ad_format imp) cid cids c e))
              ((cid, (h cid (ground arith), (c, (e, refl)))), ih)
      ]

  pub retrieve_imps-Each :
      (n : ℕ) (imps : List Imp)
      → ((k : ℕ) (imp : Imp) → get_elem? imps k ≡ some imp → get_elem? req.imp (n + k) ≡ some imp)
      → Each OfferedAt n (
          retrieve_imps ops fl cat segment_ids
            (geo_keys_of req.device)
            (device_type_of req.device)
            imps)
  unfolding retrieve_imps
  retrieve_imps-Each n [] h = tt
  retrieve_imps-Each n (imp ∷ imps) h = (
    All-at (expand_all ops fl cat (imp_ad_format imp) (ids_for ops cat segment_ids req imp))
        (expand_all-Offered imp (ids_for ops cat segment_ids req imp) (λ cid k. k)),
    retrieve_imps-Each (suc n) imps
        (λ k i e. subst (λ t. get_elem? req.imp t ≡ some i) (omega arith) (h (suc k) i e)),
  )
    where
      here : get_elem? req.imp n ≡ some imp
      here = subst (λ t. get_elem? req.imp t ≡ some imp) (omega arith) (h 0 imp refl)

      All-at :
          (cs : List (AdCandidate F))
          → All (λ c. Offered imp (unscored c)) cs
          → All (λ c. OfferedAt n (unscored c)) cs
      All-at [] k = tt
      All-at (c ∷ cs) k = ((imp, (here, k.0)), All-at cs k.1)

  pub empty_lists-Each : (n k : ℕ) → Each {F = F} OfferedAt n (empty_lists k)
  empty_lists-Each n zero = tt
  empty_lists-Each n (suc k) = (tt, empty_lists-Each (suc n) k)

  pub resize_one-Each :
      (css : List (List (AdCandidate F))) → Each OfferedAt 0 css → Each OfferedAt 0 (resize_one css)
  unfolding resize_one
  resize_one-Each [] h = (tt, tt)
  resize_one-Each (cs ∷ css) h = (h.0, tt)

  -- The context belongs to the request, and its candidates and winners have been offered.
  abbrev pub IsOffered : {W : Type 0} → W × BidContext F V (CampaignCatalog B) → Type 0
  IsOffered s =
      (s.1.request ≡ req)
      × (Each OfferedAt 0 s.1.candidates × All (Chosen OfferedAt s.1.request.imp) s.1.winners)

  pub IsOffered-IsTraced :
      {W : Type 0} (s : W × BidContext F V (CampaignCatalog B))
      → IsOffered s
      → All IsTraced s.1.winners
  IsOffered-IsTraced s h =
      Chosen-IsTraced s.1.winners (subst (λ t. All (Chosen OfferedAt t.imp) s.1.winners) h.0 h.1.1)
