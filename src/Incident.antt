-- ===== src/Incident.antt =====
-- bidder-core/src/kafka_incident.rs, and the publisher of bidder-server/src/kafka.rs that feeds it.
-- The atomics are the fields of a record; what rdkafka answers to a send or reports on a delivery is
-- an argument. Encoding, metrics and log lines are left out.
pub mod Dwell
pub mod Latch
mod Tests
use rust_rtb_bidder.Base.{
  ℕ, ◌+◌, ◌-◌, ◌%◌, Bool, true, false, not, ◌&&◌, Option, none, some, List, [], ◌∷◌, ltb, leb, ◌==◌,
  if◌then◌else◌, FloatOps,
}
use rust_rtb_bidder.Base.Words.{add64, saturating_sub, saturating_add32}

-- `config::KafkaDropPolicy`.
pub data KafkaDropPolicy : Type 0 where
  newest oldest random_sample incident_mode : KafkaDropPolicy

pub data EffectivePolicy : Type 0 where
  newest oldest random_sample : EffectivePolicy

-- `p as u8`.
abbrev pub as_u8 : EffectivePolicy → ℕ
as_u8 EffectivePolicy.newest = 0
as_u8 EffectivePolicy.oldest = 1
as_u8 EffectivePolicy.random_sample = 2

abbrev pub from_u8 : ℕ → EffectivePolicy
from_u8 v =
    if v == 1
    then EffectivePolicy.oldest
    else if v == 2
    then EffectivePolicy.random_sample
    else EffectivePolicy.newest

abbrev pub from_config : KafkaDropPolicy → EffectivePolicy
from_config KafkaDropPolicy.newest = EffectivePolicy.newest
from_config KafkaDropPolicy.oldest = EffectivePolicy.oldest
from_config KafkaDropPolicy.random_sample = EffectivePolicy.random_sample
from_config KafkaDropPolicy.incident_mode = EffectivePolicy.newest

abbrev pub is_incident_mode : KafkaDropPolicy → Bool
is_incident_mode KafkaDropPolicy.incident_mode = true
is_incident_mode _ = false

pub record KafkaIncidentState : Type 0 where
  pub base_policy : EffectivePolicy
  pub effective : ℕ
  pub published_total : ℕ
  pub dropped_total : ℕ
  pub auto_flip : Bool

unfoldable pub new : KafkaDropPolicy → KafkaIncidentState
new base = record {
  base_policy = from_config base;
  effective = as_u8 (from_config base);
  published_total = 0;
  dropped_total = 0;
  auto_flip = is_incident_mode base;
}

unfoldable pub effective_policy : KafkaIncidentState → EffectivePolicy
effective_policy s = from_u8 s.effective

unfoldable pub record_published : KafkaIncidentState → KafkaIncidentState
record_published s = record s { published_total = add64 s.published_total 1 }

unfoldable pub record_dropped : KafkaIncidentState → KafkaIncidentState
record_dropped s = record s { dropped_total = add64 s.dropped_total 1 }

-- The variables of the monitor's loop.
pub record Monitor : Type 0 where
  pub last_published : ℕ
  pub last_dropped : ℕ
  pub over_count : ℕ
  pub under_count : ℕ
  pub in_incident : Bool

unfoldable pub start : KafkaIncidentState → Monitor
start s = record {
  last_published = s.published_total;
  last_dropped = s.dropped_total;
  over_count = 0;
  under_count = 0;
  in_incident = false;
}

-- The two counters of consecutive samples.
unfoldable pub count_sample : Monitor → Bool → Monitor
count_sample m over =
    if over
    then record m { over_count = saturating_add32 m.over_count 1; under_count = 0 }
    else record m { over_count = 0; under_count = saturating_add32 m.under_count 1 }

-- The flip, into an incident or out of it.
unfoldable pub flip : ℕ → KafkaIncidentState × Monitor → KafkaIncidentState × Monitor
flip dwell_ticks (s, m) =
    if not m.in_incident && leb dwell_ticks m.over_count
    then (
      record s { effective = as_u8 EffectivePolicy.random_sample },
      record m { in_incident = true },
    )
    else if m.in_incident && leb dwell_ticks m.under_count
    then (record s { effective = as_u8 s.base_policy }, record m { in_incident = false })
    else (s, m)

module _ {F : Type 0} (fl : FloatOps F) where
  unfoldable pub drop_rate : ℕ → ℕ → F
  drop_rate pub_delta drop_delta =
      if add64 pub_delta drop_delta == 0
      then fl.literal 0 1
      else fl.div (fl.of_ℕ drop_delta) (fl.of_ℕ (add64 pub_delta drop_delta))

  -- One turn of the loop of `spawn_monitor`.
  unfoldable pub monitor_tick : ℕ → F → KafkaIncidentState × Monitor → KafkaIncidentState × Monitor
  monitor_tick dwell_ticks threshold (s, m) =
      let over =
        fl.gt
          (drop_rate (saturating_sub s.published_total m.last_published)
            (saturating_sub s.dropped_total m.last_dropped))
          threshold in
      let m' = record m { last_published = s.published_total; last_dropped = s.dropped_total } in
      if s.auto_flip then flip dwell_ticks (s, count_sample m' over) else (s, m')

-- What `producer.send` answers.
pub data Sent : Type 0 where
  enqueued queue_full enqueue_error : Sent

pub record Publisher : Type 0 where
  pub incident : KafkaIncidentState
  pub sample_counter : ℕ

-- `EventPublisher::publish`, and whether the event reached the producer's queue.
abbrev pub random_sample_denominator : ℕ
random_sample_denominator = 10

unfoldable pub send : Publisher → Sent → Publisher × Bool
unfolding record_dropped
send p enqueued = (p, true)
send p queue_full = (record p { incident = record_dropped p.incident }, false)
send p enqueue_error = (record p { incident = record_dropped p.incident }, false)

unfoldable pub is_random_sample : EffectivePolicy → Bool
is_random_sample EffectivePolicy.random_sample = true
is_random_sample _ = false

unfoldable pub publish : Publisher → Sent → Publisher × Bool
unfolding send record_dropped is_random_sample effective_policy
publish p answer =
    if is_random_sample (effective_policy p.incident)
    then (if p.sample_counter % random_sample_denominator == 0
        then send (record p { sample_counter = add64 p.sample_counter 1 }) answer
        else (
          record {
            incident = record_dropped p.incident;
            sample_counter = add64 p.sample_counter 1;
          },
          false,
        ))
    else send p answer

-- The delivery callback.
unfoldable pub delivery : KafkaIncidentState → Bool → KafkaIncidentState
unfolding record_published record_dropped
delivery s true = record_published s
delivery s false = record_dropped s
