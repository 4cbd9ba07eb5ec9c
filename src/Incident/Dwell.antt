-- ===== src/Incident/Dwell.antt =====
-- The monitor against a description of the incident mode by the history of its samples.
use rust_rtb_bidder.Base.{
  ℕ, suc, ◌+◌, ◌-◌, ◌<◌, min, ◌≡◌, refl, ap, sym, subst, ◌∙◌, Bool, true, false, not, List, [], ◌∷◌,
  arith, FloatOps, Bool-cases, inl, inr, leb, ltb, ltb→lt, ltb_false→le, if◌then◌else◌,
}
use rust_rtb_bidder.Base.Words.{u32_mod, add64, saturating_sub, saturating_add32}
use rust_rtb_bidder.Incident.{
  KafkaDropPolicy, EffectivePolicy, KafkaIncidentState, Monitor, as_u8, from_u8, from_config,
  is_incident_mode, new, start, effective_policy, count_sample, flip, drop_rate, monitor_tick,
}

-- How many samples in a row, the latest first, were over the threshold, or not over it.
unfoldable pub streak : Bool → List Bool → ℕ
streak true (true ∷ samples) = suc (streak true samples)
streak false (false ∷ samples) = suc (streak false samples)
streak _ _ = 0

-- In an incident after these samples, the latest first: it begins when `dwell` samples in a row are
-- over the threshold, and ends when as many in a row are not.
unfoldable pub hysteresis : ℕ → List Bool → Bool
hysteresis dwell [] = false
hysteresis dwell (over ∷ samples) =
    if hysteresis dwell samples
    then not (leb dwell (streak false (over ∷ samples)))
    else leb dwell (streak true (over ∷ samples))

abbrev pub policy_in : Bool → EffectivePolicy
policy_in true = EffectivePolicy.random_sample
policy_in false = EffectivePolicy.newest

pub from_u8-as_u8 : (p : EffectivePolicy) → from_u8 (as_u8 p) ≡ p
from_u8-as_u8 EffectivePolicy.newest = refl
from_u8-as_u8 EffectivePolicy.oldest = refl
from_u8-as_u8 EffectivePolicy.random_sample = refl

abbrev limit : ℕ
limit = u32_mod - 1

saturating_add32-min : (a n : ℕ) → a ≡ min n limit → saturating_add32 a 1 ≡ min (suc n) limit
unfolding saturating_add32
saturating_add32-min a n h = elim (Bool-cases (ltb (a + 1) u32_mod)) [
  | inl e ↦ rw e (omega (arith, ltb→lt (a + 1) u32_mod e))
  | inr e ↦ rw e (omega (arith, ltb_false→le (a + 1) u32_mod e))
]

counted :
    (m : Monitor) (over : Bool) (samples : List Bool)
    → m.over_count ≡ min (streak true samples) limit
    → m.under_count ≡ min (streak false samples) limit
    → let m' = count_sample m over in
      (m'.over_count ≡ min (streak true (over ∷ samples)) limit)
      × (m'.under_count ≡ min (streak false (over ∷ samples)) limit)
      × (m'.in_incident ≡ m.in_incident)
unfolding count_sample streak
counted m true samples o u = (saturating_add32-min _ _ o, omega arith, refl)
counted m false samples o u = (omega arith, saturating_add32-min _ _ u, refl)

flipped :
    (dwell : ℕ) (s : KafkaIncidentState) (m : Monitor)
    → s.base_policy ≡ EffectivePolicy.newest
    → s.effective ≡ as_u8 (policy_in m.in_incident)
    → let w = flip dwell (s, m) in
      (w.1.in_incident
        ≡ (if m.in_incident then not (leb dwell m.under_count) else leb dwell m.over_count))
      × (w.0.effective ≡ as_u8 (policy_in w.1.in_incident))
      × (w.1.over_count ≡ m.over_count)
      × (w.1.under_count ≡ m.under_count)
      × (w.0.base_policy ≡ s.base_policy)
      × (w.0.auto_flip ≡ s.auto_flip)
unfolding flip
flipped dwell s m b e = ground arith

leb-min : (dwell n : ℕ) → dwell < u32_mod → leb dwell (min n limit) ≡ leb dwell n
leb-min dwell n h = ground arith

described :
    (dwell : ℕ) (m : Monitor) (over : Bool) (samples : List Bool)
    → dwell < u32_mod
    → m.over_count ≡ min (streak true (over ∷ samples)) limit
    → m.under_count ≡ min (streak false (over ∷ samples)) limit
    → m.in_incident ≡ hysteresis dwell samples
    → (if m.in_incident then not (leb dwell m.under_count) else leb dwell m.over_count)
      ≡ hysteresis dwell (over ∷ samples)
unfolding hysteresis
described dwell m over samples h o u i = rw (
  o,
  u,
  i,
  leb-min dwell (streak true (over ∷ samples)) h,
  leb-min dwell (streak false (over ∷ samples)) h,
)

-- The monitor and what it watches, with the samples that it has taken, the latest first.
pub record World : Type 0 where
  pub state : KafkaIncidentState
  pub monitor : Monitor
  pub samples : List Bool

-- Some traffic, as the publisher counts it, or a turn of the monitor.
pub data Event : Type 0 where
  traffic : ℕ → ℕ → Event
  tick : Event

module _ {F : Type 0} (fl : FloatOps F) (dwell : ℕ) (threshold : F) where
  abbrev pub sample : World → Bool
  sample w =
      fl.gt
        (drop_rate fl (saturating_sub w.state.published_total w.monitor.last_published)
          (saturating_sub w.state.dropped_total w.monitor.last_dropped))
        threshold

  unfoldable pub after : World → Event → World
  after w (traffic published dropped) = record w {
    state = record w.state {
      published_total = add64 w.state.published_total published;
      dropped_total = add64 w.state.dropped_total dropped;
    };
  }
  after w tick = record {
    state = (monitor_tick fl dwell threshold (w.state, w.monitor)).0;
    monitor = (monitor_tick fl dwell threshold (w.state, w.monitor)).1;
    samples = sample w ∷ w.samples;
  }

  unfoldable pub run : World → List Event → World
  run w [] = w
  run w (e ∷ es) = run (after w e) es

  pub record Tracks (w : World) : Type 0 where
    pub flips : w.state.auto_flip ≡ true
    pub base : w.state.base_policy ≡ EffectivePolicy.newest
    pub over : w.monitor.over_count ≡ min (streak true w.samples) (u32_mod - 1)
    pub under : w.monitor.under_count ≡ min (streak false w.samples) (u32_mod - 1)
    pub incident : w.monitor.in_incident ≡ hysteresis dwell w.samples
    pub policy : w.state.effective ≡ as_u8 (policy_in (hysteresis dwell w.samples))

  seen : World → Monitor
  seen w = record w.monitor {
    last_published = w.state.published_total;
    last_dropped = w.state.dropped_total;
  }

  tick_flips :
      (w : World)
      → w.state.auto_flip ≡ true
      → monitor_tick fl dwell threshold (w.state, w.monitor)
        ≡ flip dwell (w.state, count_sample (seen w) (sample w))
  unfolding monitor_tick seen
  tick_flips w h = ground arith

  tick-Tracks :
      (w : World)
      → dwell < u32_mod
      → Tracks w
      → let r = flip dwell (w.state, count_sample (seen w) (sample w)) in
        Tracks (record { state = r.0; monitor = r.1; samples = sample w ∷ w.samples })
  unfolding seen
  tick-Tracks w h t =
      let c = counted (seen w) (sample w) w.samples t.over t.under in
      let f =
        flipped dwell w.state (count_sample (seen w) (sample w)) t.base
          (t.policy ∙ ap (λ x. as_u8 (policy_in x)) (sym (c.2 ∙ t.incident))) in
      let d =
        described dwell (count_sample (seen w) (sample w)) (sample w) w.samples h c.0 c.1
          (c.2 ∙ t.incident) in
      record {
        flips = f.5 ∙ t.flips;
        base = f.4 ∙ t.base;
        over = f.2 ∙ c.0;
        under = f.3 ∙ c.1;
        incident = f.0 ∙ d;
        policy = f.1 ∙ ap (λ x. as_u8 (policy_in x)) (f.0 ∙ d);
      }

  after-Tracks : (w : World) (e : Event) → dwell < u32_mod → Tracks w → Tracks (after w e)
  unfolding after
  after-Tracks w (traffic p d) h t = ground arith
  after-Tracks w tick h t =
      subst
        (λ (r : KafkaIncidentState × Monitor).
          Tracks (record { state = r.0; monitor = r.1; samples = sample w ∷ w.samples }))
        (sym (tick_flips w t.flips)) (tick-Tracks w h t)

  run-Tracks : (w : World) (es : List Event) → dwell < u32_mod → Tracks w → Tracks (run w es)
  unfolding run
  run-Tracks w [] h t = t
  run-Tracks w (e ∷ es) h t = run-Tracks (after w e) es h (after-Tracks w e h t)

abbrev pub begin : KafkaDropPolicy → World
begin base = record { state = new base; monitor = start (new base); samples = [] }

module _ {F : Type 0} (fl : FloatOps F) (dwell : ℕ) (threshold : F) where
  -- Under the incident mode, after any traffic and any turns of the monitor, the bidder is in an
  -- incident exactly as the history of samples says, and the publisher then samples at random, and
  -- otherwise keeps the newest. The dwell is a 32-bit number.
  pub run-hysteresis :
      (es : List Event)
      → dwell < u32_mod
      → let w = run fl dwell threshold (begin KafkaDropPolicy.incident_mode) es in
        (w.monitor.in_incident ≡ hysteresis dwell w.samples)
        × (effective_policy w.state ≡ policy_in (hysteresis dwell w.samples))
  unfolding new start hysteresis streak effective_policy
  run-hysteresis es h =
      let t =
        run-Tracks fl dwell threshold (begin KafkaDropPolicy.incident_mode) es h (ground arith) in
      (t.incident, ap from_u8 t.policy ∙ from_u8-as_u8 (policy_in _))

  after_static :
      (w : World) (e : Event)
      → w.state.auto_flip ≡ false
      → ((after fl dwell threshold w e).state.auto_flip ≡ false)
        × ((after fl dwell threshold w e).state.effective ≡ w.state.effective)
  unfolding after monitor_tick
  after_static w (traffic p d) h = (h, refl)
  after_static w tick h = ground arith

  run_static :
      (w : World) (es : List Event)
      → w.state.auto_flip ≡ false
      → (run fl dwell threshold w es).state.effective ≡ w.state.effective
  unfolding run
  run_static w [] h = refl
  run_static w (e ∷ es) h =
      let s = after_static w e h in run_static (after fl dwell threshold w e) es s.0 ∙ s.1

  -- Under any other configured policy the effective policy never changes.
  pub run_keeps_static_policy :
      (base : KafkaDropPolicy) (es : List Event)
      → is_incident_mode base ≡ false
      → effective_policy (run fl dwell threshold (begin base) es).state ≡ from_config base
  unfolding new effective_policy
  run_keeps_static_policy base es h =
      ap from_u8 (run_static (begin base) es h) ∙ from_u8-as_u8 (from_config base)
