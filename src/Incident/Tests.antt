-- ===== src/Incident/Tests.antt =====
-- The theorems on the incident mode at concrete runs.
use rust_rtb_bidder.Base.{ℕ, ◌≡◌, refl, true, List, [], ◌∷◌, arith, lt→ltb}
use rust_rtb_bidder.Base.Words.{add64, saturating_sub, saturating_add32}
use rust_rtb_bidder.Base.Ratio.{Ratio, ratio_ops}
use rust_rtb_bidder.Incident.{
  KafkaDropPolicy, EffectivePolicy, Sent, new, start, effective_policy, monitor_tick, count_sample,
  flip, drop_rate,
}
use rust_rtb_bidder.Incident.Dwell.{
  Event, traffic, tick, run, begin, hysteresis, run-hysteresis, policy_in, after,
}
use rust_rtb_bidder.Incident.Latch.{Node, InIncident, intervals, incident_lasts, SeesHalf}

abbrev one_percent : Ratio
one_percent = (1, 100)

abbrev bad_minutes : List Event
bad_minutes = traffic 90 10 ∷ tick ∷ traffic 90 10 ∷ tick ∷ []

flips_after_dwell :
    (run ratio_ops 2 one_percent (begin KafkaDropPolicy.incident_mode) bad_minutes).state.effective
    ≡ 2
unfolding run after monitor_tick count_sample flip drop_rate new start add64 saturating_sub
    saturating_add32
flips_after_dwell = refl

run-hysteresis_example :
    let w = run ratio_ops 2 one_percent (begin KafkaDropPolicy.incident_mode) bad_minutes in
    (w.monitor.in_incident ≡ hysteresis 2 w.samples)
    × (effective_policy w.state ≡ policy_in (hysteresis 2 w.samples))
run-hysteresis_example = run-hysteresis ratio_ops 2 one_percent bad_minutes (omega arith)

one_percent-SeesHalf : SeesHalf ratio_ops 10 one_percent
one_percent-SeesHalf d p h k = lt→ltb _ _ (omega arith)

abbrev in_trouble : Node
in_trouble = record {
  publisher = record {
    incident = record {
      base_policy = EffectivePolicy.newest;
      effective = 2;
      published_total = 900;
      dropped_total = 100;
      auto_flip = true;
    };
    sample_counter = 3;
  };
  monitor = record {
    last_published = 900;
    last_dropped = 100;
    over_count = 10;
    under_count = 0;
    in_incident = true;
  };
}

-- The brokers are well again: every event that is enqueued is delivered.
abbrev calm : List (List Sent × ℕ)
calm = (Sent.enqueued ∷ Sent.enqueued ∷ Sent.enqueued ∷ [], 0) ∷ []

incident_lasts_example :
    InIncident ratio_ops 10 one_percent (intervals ratio_ops 10 one_percent in_trouble calm)
incident_lasts_example =
    incident_lasts ratio_ops 10 one_percent in_trouble calm one_percent-SeesHalf (omega arith)
      (omega arith, omega arith, tt) (omega arith) (omega arith) (omega arith)
      (record { incident = refl; sampling = refl; flips = refl; published = refl; dropped = refl })
