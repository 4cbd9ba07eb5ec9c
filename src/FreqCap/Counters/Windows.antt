-- ===== src/FreqCap/Counters/Windows.antt =====
-- What the counters of a user and a campaign read after a run of impressions.
use Prim.Native.String.{String, ◌++◌ as ◌<>◌}
use text.Mathlib.TextLemmas.{append_assoc as text_assoc}
use rust_rtb_bidder.Base.{
  ℕ, suc, ◌+◌, ◌*◌, ◌<◌, ◌≤◌, ◌≡◌, ◌≢◌, sym, ap, ◌∙◌, arith, true, none, some, List, [], ◌∷◌, ◌++◌,
  map, length, ltb, ◌==◌, if◌then◌else◌, if_intro, ◌>>=◌,
}
use rust_rtb_bidder.Model.{to_string}
use rust_rtb_bidder.Percent.Decoded.{codes, codes-append}
use rust_rtb_bidder.FreqCap.{fc_key, day, hour}
use rust_rtb_bidder.FreqCap.WriteBehind.{ImpressionEvent}
use rust_rtb_bidder.FreqCap.Counters.{
  KeyStore, IsRedis, max_count, hour_ttl, day_ttl, counter_key, Write, script,
  write_impression_counters, impression_workers,
}

append_cancel : (xs ys zs : List ℕ) → xs ++ ys ≡ xs ++ zs → ys ≡ zs
append_cancel [] ys zs h = h
append_cancel (x ∷ xs) ys zs h = append_cancel xs ys zs (cc)

codes_cancel : (p s t : String) → codes (p <> s) ≡ codes (p <> t) → codes s ≡ codes t
codes_cancel p s t h =
    append_cancel (codes p) (codes s) (codes t) (sym (codes-append p s) ∙ (h ∙ codes-append p t))

keys_differ : (e : ImpressionEvent) → counter_key e "h" ≢ counter_key e "d"
unfolding counter_key codes
keys_differ e h =
    let same : ◌≡◌ {A = List ℕ} (codes ":h") (codes ":d") =
      codes_cancel (to_string e.campaign_id) ":h" ":d" (
        codes_cancel "}:c:" _ _
          (codes_cancel e.user_id _ _ (codes_cancel "v1:fc:{u:" _ _ (ap codes h)))) in
    ground (arith, same)

in_window : (t end n : ℕ) → t < end → (if ltb t end then some n else none) ≡ some n
in_window t end n h = ground (arith, h)

unfoldable pub sum : List ℕ → ℕ
sum [] = 0
sum (n ∷ ns) = n + sum ns

-- A write whose calls both reach Redis.
abbrev pub reached : ImpressionEvent → ℕ → Write
reached e gap = record { event = e; gap_ms = gap; hour_reached = true; day_reached = true }

module _ {D : Type 0} (ks : KeyStore D) (laws : IsRedis ks) where
  -- From a time on, a key reads n until the end of its window, and nothing after it.
  abbrev pub Reads : D → ℕ → String → ℕ → ℕ → Type 0
  Reads d from key end n =
      (u : ℕ) → from ≤ u → ks.get d u key ≡ (if ltb u end then some n else none)

  script-other :
      (d : D) (t u ttl : ℕ) (k j : String) → j ≢ k → ks.get (script ks d t k ttl) u j ≡ ks.get d u j
  unfolding script
  script-other d t u ttl k j h =
      if_intro (λ e. ks.get e u j ≡ ks.get d u j) ((ks.incr d t k).1 == 1) _ _
        (λ _. laws.expire_other (ks.incr d t k).0 t u k j ttl h ∙ laws.incr_other d t u k j h)
        (λ _. laws.incr_other d t u k j h)

  -- The first impression opens the window.
  script-new :
      (d : D) (t ttl : ℕ) (k : String)
      → ks.get d t k ≡ none
      → Reads (script ks d t k ttl) t k (t + ttl * 1_000) 1
  unfolding script
  script-new d t ttl k h u l =
      if_intro (λ e. ks.get e u k ≡ (if ltb u (t + ttl * 1_000) then some 1 else none))
        ((ks.incr d t k).1 == 1) _ _
        (λ _.
          laws.expire_same (ks.incr d t k).0 t u 1 k ttl l (laws.incr_new d t t k (omega arith) h))
        (λ f. absurd (ground (arith, f, h, laws.incr_reply d t k)))

  -- The later ones count in it, and leave its end where it is.
  script-old :
      (d : D) (t end n ttl : ℕ) (k : String)
      → t < end
      → 0 < n
      → n < max_count
      → Reads d t k end n
      → Reads (script ks d t k ttl) t k end (n + 1)
  unfolding script
  script-old d t end n ttl k h p m r u l =
      if_intro (λ e. ks.get e u k ≡ (if ltb u end then some (n + 1) else none))
        ((ks.incr d t k).1 == 1) _ _
        (λ f. absurd (ground (arith, f, now, p, m, laws.incr_reply d t k)))
        (λ _. laws.incr_old d t u n k l m now ∙ (ap (λ o. o >>= λ c. some (c + 1)) (r u l) ∙ moved))
    where
      now : ks.get d t k ≡ some n
      now = r t (omega arith) ∙ in_window t end n h

      moved :
          ((if ltb u end then some n else none) >>= λ c. some (c + 1))
          ≡ (if ltb u end then some (n + 1) else none)
      moved = ground arith

  -- What both counters of an event read.
  abbrev pub BothRead : D → ℕ → ImpressionEvent → ℕ → ℕ → ℕ → Type 0
  BothRead d from e hour_end day_end n =
      Reads d from (counter_key e "h") hour_end n × Reads d from (counter_key e "d") day_end n

  write-new :
      (d : D) (t gap : ℕ) (e : ImpressionEvent)
      → ks.get d t (counter_key e "h") ≡ none
      → ks.get d t (counter_key e "d") ≡ none
      → BothRead
          (write_impression_counters ks d t (reached e gap))
          t
          e
          (t + hour_ttl * 1_000)
          (t + day_ttl * 1_000)
          1
  unfolding write_impression_counters
  write-new d t gap e nh nd = (
    λ u l.
        script-other (script ks d t (counter_key e "h") hour_ttl) t u day_ttl (counter_key e "d")
          (counter_key e "h") (keys_differ e)
        ∙ script-new d t hour_ttl (counter_key e "h") nh u l,
    script-new (script ks d t (counter_key e "h") hour_ttl) t day_ttl (counter_key e "d") (
        script-other d t t hour_ttl (counter_key e "h") (counter_key e "d")
          (λ q. keys_differ e (sym q))
        ∙ nd),
  )

  write-old :
      (d : D) (t gap : ℕ) (e : ImpressionEvent) (hour_end day_end n : ℕ)
      → t < hour_end
      → t < day_end
      → 0 < n
      → n < max_count
      → BothRead d t e hour_end day_end n
      → BothRead (write_impression_counters ks d t (reached e gap)) t e hour_end day_end (n + 1)
  unfolding write_impression_counters
  write-old d t gap e hour_end day_end n h k p m (rh, rd) = (
    λ u l.
        script-other (script ks d t (counter_key e "h") hour_ttl) t u day_ttl (counter_key e "d")
          (counter_key e "h") (keys_differ e)
        ∙ script-old d t hour_end n hour_ttl (counter_key e "h") h p m rh u l,
    script-old (script ks d t (counter_key e "h") hour_ttl) t day_end n day_ttl (counter_key e "d")
        k p m
        (λ u l.
          script-other d t u hour_ttl (counter_key e "h") (counter_key e "d")
            (λ q. keys_differ e (sym q))
          ∙ rd u l),
  )

  later_writes :
      (d : D) (t : ℕ) (e : ImpressionEvent) (hour_end day_end n : ℕ) (gaps : List ℕ)
      → t + sum gaps < hour_end
      → hour_end ≤ day_end
      → 0 < n
      → n + length gaps < max_count
      → BothRead d t e hour_end day_end n
      → BothRead
          (impression_workers ks d t (map (reached e) gaps))
          (t + sum gaps)
          e
          hour_end
          day_end
          (n + length gaps)
  unfolding impression_workers sum
  later_writes d t e hour_end day_end n [] h k p m (rh, rd) =
      let et : t + 0 ≡ t = omega arith in let en : n + 0 ≡ n = omega arith in rw et (rw en (rh, rd))
  later_writes d t e hour_end day_end n (gap ∷ gaps) h k p m (rh, rd) =
      let et : t + (gap + sum gaps) ≡ (t + gap) + sum gaps = omega arith in
      let en : n + suc (length gaps) ≡ (n + 1) + length gaps = omega arith in
      rw et (
        rw en (
          later_writes (write_impression_counters ks d (t + gap) (reached e gap)) (t + gap) e
            hour_end day_end (n + 1) gaps (omega (arith, h)) k (omega arith) (omega (arith, m))
            (write-old d (t + gap) gap e hour_end day_end n (omega (arith, h)) (omega (arith, h, k))
              p (omega (arith, m))
              ((λ u l. rh u (omega (arith, l))), (λ u l. rd u (omega (arith, l)))))))

  -- If neither counter of a user and a campaign is there when the first of a run of impressions is
  -- written, every call reaches Redis, and the whole run takes less than an hour, then from the last
  -- write on the hour counter reads the number of impressions until an hour after the first one and is
  -- gone from then on, and the day counter reads the same number until a day after the first one and is
  -- gone from then on: later impressions do not extend the windows.
  pub impression_workers-BothRead :
      (d : D) (t gap : ℕ) (e : ImpressionEvent) (gaps : List ℕ)
      → ks.get d (t + gap) (counter_key e "h") ≡ none
      → ks.get d (t + gap) (counter_key e "d") ≡ none
      → sum gaps < hour_ttl * 1_000
      → 1 + length gaps < max_count
      → BothRead
          (impression_workers ks d t (map (reached e) (gap ∷ gaps)))
          (t + gap + sum gaps)
          e
          (t + gap + hour_ttl * 1_000)
          (t + gap + day_ttl * 1_000)
          (1 + length gaps)
  unfolding impression_workers
  impression_workers-BothRead d t gap e gaps nh nd h m =
      later_writes (write_impression_counters ks d (t + gap) (reached e gap)) (t + gap) e
        (t + gap + hour_ttl * 1_000) (t + gap + day_ttl * 1_000) 1 gaps (omega (arith, h))
        (omega arith) (omega arith) m (write-new d (t + gap) gap e nh nd)

-- The counters are written where the check of a candidate reads them.
pub counter_key-fc_key :
    (e : ImpressionEvent)
    → (counter_key e "h" ≡ fc_key e.user_id "c" e.campaign_id hour)
      × (counter_key e "d" ≡ fc_key e.user_id "c" e.campaign_id day)
unfolding counter_key fc_key
counter_key-fc_key e =
    (longer (to_string e.campaign_id <> ":h"), longer (to_string e.campaign_id <> ":d"))
  where
    longer :
        (r : String)
        → "v1:fc:{u:" <> (e.user_id <> ("}:c:" <> r))
          ≡ "v1:fc:{u:" <> (e.user_id <> ("}:" <> ("c" <> (":" <> r))))
    longer r =
        ap (λ (s : String). "v1:fc:{u:" <> (e.user_id <> s))
          (text_assoc "}:" "c:" r ∙ ap (λ (s : String). "}:" <> s) (text_assoc "c" ":" r))
