-- ===== src/Catalog/Retrieved.antt =====
-- The candidates that retrieval hands to the stages after it.
use rust_rtb_bidder.Base.{
  ℕ, ◌≡◌, refl, sym, subst, false, Option, none, some, List, [], ◌∷◌, is_empty, All, contains,
  arith, Option-cases, if_intro, inl, inr, FloatOps,
}
use rust_rtb_bidder.Model.{AdCandidate, BidContext, Imp}
use rust_rtb_bidder.Pipeline.Accounts.Paced.{AreDistinct, ids}
use rust_rtb_bidder.Pipeline.{Ran}
use rust_rtb_bidder.Catalog.{
  BitmapOps, GeoKey, DeviceTargetType, AdFormat, CampaignCatalog, expand, expand_all, retrieve_imps,
  resize_one, retrieve, imp_ad_format, geo_keys_of, device_type_of,
}

abbrev pub NoRepeats : List ℕ → Type 0
NoRepeats [] = Unit
NoRepeats (x ∷ xs) = (contains xs x ≡ false) × NoRepeats xs

module _ {B F : Type 0} (ops : BitmapOps B) (fl : FloatOps F) (cat : CampaignCatalog B) where
  expand-id :
      (format : Option AdFormat) (cid : ℕ) (c : AdCandidate F)
      → expand ops fl cat format cid ≡ some c
      → c.campaign_id ≡ cid
  unfolding expand
  expand-id format cid c e = ground arith

  pub expand_all-none :
      (format : Option AdFormat) (cid : ℕ) (cids : List ℕ)
      → expand ops fl cat format cid ≡ none
      → expand_all ops fl cat format (cid ∷ cids) ≡ expand_all ops fl cat format cids
  unfolding expand_all
  expand_all-none format cid cids e = rw (e, expand_all) refl

  pub expand_all-some :
      (format : Option AdFormat) (cid : ℕ) (cids : List ℕ) (c : AdCandidate F)
      → expand ops fl cat format cid ≡ some c
      → expand_all ops fl cat format (cid ∷ cids) ≡ c ∷ expand_all ops fl cat format cids
  unfolding expand_all
  expand_all-some format cid cids c e = rw (e, expand_all) refl

  pub expand_all_nothing : (format : Option AdFormat) → expand_all ops fl cat format [] ≡ []
  unfolding expand_all
  expand_all_nothing format = refl

  expand_all-ids :
      (format : Option AdFormat) (cids : List ℕ) (a : ℕ)
      → contains cids a ≡ false
      → contains (ids (expand_all ops fl cat format cids)) a ≡ false
  expand_all-ids format [] a h = rw (expand_all_nothing format) refl
  expand_all-ids format (cid ∷ cids) a h =
      let ih = expand_all-ids format cids a (ground arith) in
      elim (Option-cases (expand ops fl cat format cid)) [
        | inl e ↦ rw (expand_all-none format cid cids e) ih
        | inr (c, e) ↦
            rw (expand_all-some format cid cids c e) (ground (arith, ih, expand-id format cid c e))
      ]

  expand_all-AreDistinct :
      (format : Option AdFormat) (cids : List ℕ)
      → NoRepeats cids
      → AreDistinct (expand_all ops fl cat format cids)
  expand_all-AreDistinct format [] h = subst AreDistinct (sym (expand_all_nothing format)) tt
  expand_all-AreDistinct format (cid ∷ cids) h =
      let ih = expand_all-AreDistinct format cids h.1 in
      elim (Option-cases (expand ops fl cat format cid)) [
        | inl e ↦ subst AreDistinct (sym (expand_all-none format cid cids e)) ih
        | inr (c, e) ↦ subst AreDistinct (sym (expand_all-some format cid cids c e)) (
          expand_all-ids format cids c.campaign_id
              (subst (λ t. contains cids t ≡ false) (sym (expand-id format cid c e)) h.0),
          ih,
        )
      ]

  retrieve_imps-AreDistinct :
      (segment_ids : List ℕ) (geo : Option (List GeoKey)) (device : Option DeviceTargetType)
      (imps : List Imp)
      → ((b : B) → NoRepeats (ops.iter b))
      → All AreDistinct (retrieve_imps ops fl cat segment_ids geo device imps)
  unfolding retrieve_imps
  retrieve_imps-AreDistinct segment_ids geo device [] n = tt
  retrieve_imps-AreDistinct segment_ids geo device (imp ∷ imps) n = (
    expand_all-AreDistinct (imp_ad_format imp) _ (n _),
    retrieve_imps-AreDistinct segment_ids geo device imps n,
  )

resize_one-AreDistinct :
    {F : Type 0} (cs : List (List (AdCandidate F)))
    → All AreDistinct cs
    → All AreDistinct (resize_one cs)
unfolding resize_one
resize_one-AreDistinct [] d = (tt, tt)
resize_one-AreDistinct (c ∷ cs) d = (d.0, tt)

-- When a bitmap is iterated without repeats, the candidates of every impression that retrieval
-- leaves are of different campaigns, which is what the accounts of the later stages rest on.
pub retrieve-AreDistinct :
    (E W V : Type 0) {B F : Type 0} (ops : BitmapOps B) (fl : FloatOps F) (w : W)
    (ctx : BidContext F V (CampaignCatalog B))
    → ((b : B) → NoRepeats (ops.iter b))
    → All AreDistinct ctx.candidates
    → All AreDistinct (retrieve ops fl {E = E} (w, ctx)).state.1.candidates
unfolding retrieve
retrieve-AreDistinct E W V ops fl w ctx n d = elim (Option-cases (ctx.catalog)) [
  | inl e ↦ rw e d
  | inr (cat, e) ↦ rw e (
      if_intro {A = Ran E (W × BidContext _ V (CampaignCatalog _))}
        (λ r. All AreDistinct r.state.1.candidates) cat.has_no_campaigns _ _ (λ _. d)
        (λ _.
          if_intro (All AreDistinct) (is_empty ctx.request.imp) _ _
            (λ _. resize_one-AreDistinct ctx.candidates d)
            (λ _.
              retrieve_imps-AreDistinct ops fl cat ctx.segment_ids (geo_keys_of ctx.request.device)
                (device_type_of ctx.request.device) ctx.request.imp n)))
]
