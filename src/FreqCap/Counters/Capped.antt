-- ===== src/FreqCap/Counters/Capped.antt =====
-- The writers of the counters and the check that reads them, together.
use Prim.Native.String.{String}
use rust_rtb_bidder.Base.{
  ℕ, ◌+◌, ◌*◌, ◌<◌, ◌≤◌, ◌≡◌, sym, ap, ◌∙◌, arith, not, ◌||◌, none, some, Option, List, ◌∷◌, map,
  retain, length, ltb, if◌then◌else◌, unwrap_or, FloatOps,
}
use rust_rtb_bidder.Base.Words.{le_i64}
use rust_rtb_bidder.Model.{AdCandidate}
use rust_rtb_bidder.FreqCap.{
  CapResult, checked, Redis, Answers, day, hour, fc_key, keys_of, keep_uncapped, check,
}
use rust_rtb_bidder.FreqCap.Enforced.{is_at_cap, AnswersInTime, check_enforces_caps}
use rust_rtb_bidder.FreqCap.WriteBehind.{ImpressionEvent}
use rust_rtb_bidder.Pipeline.Accounts.Paced.{AreDistinct}
use rust_rtb_bidder.FreqCap.Counters.{
  KeyStore, IsRedis, max_count, hour_ttl, day_ttl, counter_key, impression_workers,
}
use rust_rtb_bidder.FreqCap.Counters.Windows.{
  sum, reached, impression_workers-BothRead, counter_key-fc_key,
}

module _ {D : Type 0} (ks : KeyStore D) (laws : IsRedis ks) (d : D) (t gap : ℕ)
    (e : ImpressionEvent) (gaps : List ℕ) where
  -- The store after a run of impressions, as it is read at a time.
  abbrev pub store_at : ℕ → String → Option ℕ
  store_at u key = ks.get (impression_workers ks d t (map (reached e) (gap ∷ gaps))) u key

  abbrev pub first_at : ℕ
  first_at = t + gap

  module _ (no_hour : ks.get d (t + gap) (counter_key e "h") ≡ none)
      (no_day : ks.get d (t + gap) (counter_key e "d") ≡ none)
      (within : sum gaps < hour_ttl * 1_000) (few : 1 + length gaps < max_count) where
    hour_count :
        (u : ℕ)
        → t + gap + sum gaps ≤ u
        → unwrap_or (store_at u (fc_key e.user_id "c" e.campaign_id hour)) 0
          ≡ (if ltb u (t + gap + hour_ttl * 1_000) then 1 + length gaps else 0)
    hour_count u l =
        ap (λ k. unwrap_or (store_at u k) 0) (sym (counter_key-fc_key e).0)
        ∙ ground (
          arith,
          (impression_workers-BothRead ks laws d t gap e gaps no_hour no_day within few).0 u l,
        )

    day_count :
        (u : ℕ)
        → t + gap + sum gaps ≤ u
        → u < t + gap + day_ttl * 1_000
        → unwrap_or (store_at u (fc_key e.user_id "c" e.campaign_id day)) 0 ≡ 1 + length gaps
    day_count u l b =
        ap (λ k. unwrap_or (store_at u k) 0) (sym (counter_key-fc_key e).1)
        ∙ ground (
          arith,
          (impression_workers-BothRead ks laws d t gap e gaps no_hour no_day within few).1 u l,
        )

    counts :
        {F : Type 0} (c : AdCandidate F) (u : ℕ)
        → t + gap + sum gaps ≤ u
        → u < t + gap + day_ttl * 1_000
        → c.campaign_id ≡ e.campaign_id
        → is_at_cap (store_at u) e.user_id c ≡ (
            le_i64 c.daily_cap_imps (1 + length gaps)
            || le_i64 c.hourly_cap_imps
                (if ltb u (t + gap + hour_ttl * 1_000) then 1 + length gaps else 0))
    counts c u l b h =
        ap
          (λ i.
            le_i64 c.daily_cap_imps (unwrap_or (store_at u (fc_key e.user_id "c" i day)) 0)
            || le_i64 c.hourly_cap_imps (unwrap_or (store_at u (fc_key e.user_id "c" i hour)) 0))
          h
        ∙ λ j.
            le_i64 c.daily_cap_imps (day_count u l b j)
            || le_i64 c.hourly_cap_imps (hour_count u l j)

    -- A run of impressions of a campaign is written for a user who has no counters yet, with every call
    -- reaching Redis and all within an hour. If later, within a day of the first one, the capper's
    -- breaker is closed, the first attempt of its call answers in time with what Redis holds then, and
    -- the candidates are of different campaigns, the check gives results and the stage's filter keeps
    -- exactly the candidates below their caps; and a candidate of this campaign is at a cap exactly if
    -- its daily cap is not above the number of impressions, or its hourly cap is not above the number of
    -- those of an hour that counts from the first one: the same number before its end, and 0 after it. An
    -- hourly cap of zero is reached in both cases, with no impression in the hour as well.
    pub impressions_are_capped :
        {F : Type 0} (fl : FloatOps F) (timeout_ms : ℕ) (s : Redis F) (cs : List (AdCandidate F))
        (a : Answers) (u : ℕ) (c : AdCandidate F)
        → t + gap + sum gaps ≤ u
        → u < t + gap + day_ttl * 1_000
        → AnswersInTime s a timeout_ms
        → a.first (keys_of e.user_id cs) ≡ some (map (store_at u) (keys_of e.user_id cs))
        → AreDistinct cs
        → c.campaign_id ≡ e.campaign_id
        → ((results : List CapResult) × (((check fl timeout_ms s e.user_id cs a u).1
                ≡ checked results)
              × (keep_uncapped results cs
                  ≡ retain (λ c. not (is_at_cap (store_at u) e.user_id c)) cs)))
          × (is_at_cap (store_at u) e.user_id c ≡ (
              le_i64 c.daily_cap_imps (1 + length gaps)
              || le_i64 c.hourly_cap_imps
                  (if ltb u (t + gap + hour_ttl * 1_000) then 1 + length gaps else 0)))
    impressions_are_capped fl timeout_ms s cs a u c l b h k q i =
        (check_enforces_caps fl timeout_ms s e.user_id cs a u (store_at u) h k q, counts c u l b i)
