-- ===== src/Incident/Latch.antt =====
-- What the sampler of an incident does to the drop rate that ends the incident.
use native.Mathlib.Nat.{mod-eq_of_lt}
use rust_rtb_bidder.Base.{
  ℕ, ◌+◌, ◌*◌, ◌%◌, ◌≤◌, ◌<◌, ◌≡◌, ◌⊎◌, refl, ap, sym, ◌∙◌, Bool, true, List, [], ◌∷◌, arith,
  FloatOps, if◌then◌else◌, length,
}
use rust_rtb_bidder.Base.Words.{u64_mod, add64, saturating_sub}
use rust_rtb_bidder.Incident.{
  KafkaIncidentState, Monitor, Publisher, Sent, publish, count_sample, flip, drop_rate,
  monitor_tick,
}

pub bit : Bool → ℕ
bit b = if b then 1 else 0

-- Events published in turn, each with what the producer answers, and how many reach its queue.
unfoldable pub publish_all : Publisher → List Sent → Publisher
publish_all p [] = p
publish_all p (answer ∷ answers) = publish_all (publish p answer).0 answers

unfoldable pub passed : Publisher → List Sent → ℕ
passed p [] = 0
passed p (answer ∷ answers) = bit (publish p answer).1 + passed (publish p answer).0 answers

-- One event in an incident: it is dropped or it passes, and only every tenth can pass.
publish_sampled :
    (p : Publisher) (answer : Sent)
    → p.incident.effective ≡ 2
    → p.incident.dropped_total + 1 < u64_mod
    → p.sample_counter + 1 < u64_mod
    → let r = publish p answer in
      (r.0.incident.effective ≡ 2)
      × (r.0.sample_counter ≡ p.sample_counter + 1)
      × (r.0.incident.dropped_total + bit r.1 ≡ p.incident.dropped_total + 1)
      × ((bit r.1 ≡ 0) ⊎ ((bit r.1 ≡ 1) × (p.sample_counter % 10 ≡ 0)))
unfolding publish add64 bit
publish_sampled p Sent.enqueued e d c = ground arith
publish_sampled p Sent.queue_full e d c = ground arith
publish_sampled p Sent.enqueue_error e d c = ground arith

publish_all_sampled :
    (p : Publisher) (answers : List Sent)
    → p.incident.effective ≡ 2
    → p.incident.dropped_total + length answers < u64_mod
    → p.sample_counter + length answers < u64_mod
    → let q = publish_all p answers in
      (q.incident.effective ≡ 2)
      × (q.sample_counter ≡ p.sample_counter + length answers)
      × (q.incident.dropped_total + passed p answers ≡ p.incident.dropped_total + length answers)
      × (10 * passed p answers ≤ length answers + (p.sample_counter + 9) % 10)
unfolding publish_all passed
publish_all_sampled p [] e d c = (e, omega arith, omega arith, omega arith)
publish_all_sampled p (answer ∷ answers) e d c =
    let (e', c', d', n) = publish_sampled p answer e (omega arith) (omega arith) in
    let rest = publish_all_sampled (publish p answer).0 answers e' (omega arith) (omega arith) in
    (rest.0, omega (arith, rest), omega (arith, rest), omega (arith, rest))

publish_keeps :
    (p : Publisher) (answer : Sent)
    → ((publish p answer).0.incident.published_total ≡ p.incident.published_total)
      × ((publish p answer).0.incident.auto_flip ≡ p.incident.auto_flip)
unfolding publish
publish_keeps p Sent.enqueued = ground arith
publish_keeps p Sent.queue_full = ground arith
publish_keeps p Sent.enqueue_error = ground arith

publish_all_keeps :
    (p : Publisher) (answers : List Sent)
    → ((publish_all p answers).incident.published_total ≡ p.incident.published_total)
      × ((publish_all p answers).incident.auto_flip ≡ p.incident.auto_flip)
unfolding publish_all
publish_all_keeps p [] = (refl, refl)
publish_all_keeps p (answer ∷ answers) =
    let one = publish_keeps p answer in
    let rest = publish_all_keeps (publish p answer).0 answers in (rest.0 ∙ one.0, rest.1 ∙ one.1)

-- The publisher and the monitor that watches it.
pub record Node : Type 0 where
  pub publisher : Publisher
  pub monitor : Monitor

module _ {F : Type 0} (fl : FloatOps F) (dwell : ℕ) (threshold : F) where
  -- Some events are published, some deliveries are reported as good, and the monitor takes a turn.
  unfoldable pub interval : Node → List Sent × ℕ → Node
  interval n (answers, delivered) =
      let p = publish_all n.publisher answers in
      let s = record p.incident { published_total = add64 p.incident.published_total delivered } in
      let r = monitor_tick fl dwell threshold (s, n.monitor) in
      record { publisher = record p { incident = r.0 }; monitor = r.1 }

  unfoldable pub intervals : Node → List (List Sent × ℕ) → Node
  intervals n [] = n
  intervals n (i ∷ is) = intervals (interval n i) is

  -- In every interval at least two events are published, and no more deliveries are reported than
  -- events passed the sampler.
  abbrev pub IsLoaded : Node → List (List Sent × ℕ) → Type 0
  IsLoaded n [] = Unit
  IsLoaded n ((answers, delivered) ∷ is) =
      (2 ≤ length answers)
      × (delivered ≤ passed n.publisher answers)
      × IsLoaded (interval n (answers, delivered)) is

  pub record InIncident (n : Node) : Type 0 where
    pub incident : n.monitor.in_incident ≡ true
    pub sampling : n.publisher.incident.effective ≡ 2
    pub flips : n.publisher.incident.auto_flip ≡ true
    pub published : n.monitor.last_published ≡ n.publisher.incident.published_total
    pub dropped : n.monitor.last_dropped ≡ n.publisher.incident.dropped_total

  -- A turn of the monitor that sees too many drops, in an incident.
  stays :
      (s : KafkaIncidentState) (m : Monitor)
      → 0 < dwell
      → s.auto_flip ≡ true
      → m.in_incident ≡ true
      → fl.gt
          (drop_rate fl
            (saturating_sub s.published_total m.last_published)
            (saturating_sub s.dropped_total m.last_dropped))
          threshold
        ≡ true
      → let r = monitor_tick fl dwell threshold (s, m) in
        (r.0 ≡ s)
        × (r.1.in_incident ≡ true)
        × (r.1.last_published ≡ s.published_total)
        × (r.1.last_dropped ≡ s.dropped_total)
  unfolding monitor_tick flip count_sample
  stays s m h a i o = ground arith

  -- The float law that the theorem rests on: a share of one half or more is over the threshold.
  abbrev pub SeesHalf : Type 0
  SeesHalf =
      (d p : ℕ) → 0 < d → p ≤ d → fl.gt (fl.div (fl.of_ℕ d) (fl.of_ℕ (p + d))) threshold ≡ true

  drop_rate_half :
      SeesHalf
      → (p d : ℕ) → 0 < d
      → p ≤ d
      → p + d < u64_mod
      → fl.gt (drop_rate fl p d) threshold ≡ true
  unfolding drop_rate add64
  drop_rate_half law p d h k u = ground (arith, law d p h k, mod-eq_of_lt u)

  interval-InIncident :
      (n : Node) (answers : List Sent) (delivered : ℕ)
      → SeesHalf
      → 0 < dwell
      → 2 ≤ length answers
      → delivered ≤ passed n.publisher answers
      → n.publisher.incident.dropped_total + length answers < u64_mod
      → n.publisher.incident.published_total + length answers < u64_mod
      → n.publisher.sample_counter + length answers < u64_mod
      → InIncident n
      → let n' = interval n (answers, delivered) in
        InIncident n'
        × (n'.publisher.incident.dropped_total
            ≤ n.publisher.incident.dropped_total + length answers)
        × (n'.publisher.incident.published_total
            ≤ n.publisher.incident.published_total + length answers)
        × (n'.publisher.sample_counter ≡ n.publisher.sample_counter + length answers)
  unfolding interval
  interval-InIncident n answers delivered law h two fed du pu cu v =
      let p = publish_all n.publisher answers in
      let (e, c, d, ten) = publish_all_sampled n.publisher answers v.sampling du cu in
      let k = publish_all_keeps n.publisher answers in
      let added : add64 p.incident.published_total delivered
          ≡ n.publisher.incident.published_total + delivered =
        unfold add64 in omega (arith, k.0) in
      let s = record p.incident { published_total = add64 p.incident.published_total delivered } in
      let over : fl.gt
            (drop_rate fl (saturating_sub s.published_total n.monitor.last_published)
              (saturating_sub s.dropped_total n.monitor.last_dropped))
            threshold
          ≡ true =
        drop_rate_half law _ _ (unfold saturating_sub in omega arith)
          (unfold saturating_sub in omega arith) (unfold saturating_sub in omega arith) in
      let (r0, r1, r2, r3) = stays s n.monitor h (k.1 ∙ v.flips) v.incident over in
      let dropped' = ap (λ (x : KafkaIncidentState). x.dropped_total) r0 in
      let published' = ap (λ (x : KafkaIncidentState). x.published_total) r0 in
      (
        record {
          incident = r1;
          sampling = ap (λ (x : KafkaIncidentState). x.effective) r0 ∙ e;
          flips = ap (λ (x : KafkaIncidentState). x.auto_flip) r0 ∙ k.1 ∙ v.flips;
          published = r2 ∙ sym published';
          dropped = r3 ∙ sym dropped';
        },
        omega (arith, dropped', d),
        omega (arith, published', added, ten),
        c,
      )

  abbrev pub events : List (List Sent × ℕ) → ℕ
  events [] = 0
  events ((answers, delivered) ∷ is) = length answers + events is

  -- An incident does not end while at least two events are published between two turns of the
  -- monitor and no more deliveries come back than events passed the sampler: the events that the
  -- sampler drops keep the drop rate at one half or more. Assumed are a threshold below one half, a
  -- dwell of one or more, and counters that do not wrap.
  pub incident_lasts :
      (n : Node) (is : List (List Sent × ℕ))
      → SeesHalf
      → 0 < dwell
      → IsLoaded n is
      → n.publisher.incident.dropped_total + events is < u64_mod
      → n.publisher.incident.published_total + events is < u64_mod
      → n.publisher.sample_counter + events is < u64_mod
      → InIncident n
      → InIncident (intervals n is)
  unfolding intervals
  incident_lasts n [] law h l du pu cu v = v
  incident_lasts n ((answers, delivered) ∷ is) law h (two, fed, l) du pu cu v =
      let (v', d, p, c) =
        interval-InIncident n answers delivered law h two fed (omega arith) (omega arith)
          (omega arith) v in
      incident_lasts (interval n (answers, delivered)) is law h l (omega (arith, d))
        (omega (arith, p)) (omega (arith, c)) v'
