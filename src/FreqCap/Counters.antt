-- ===== src/FreqCap/Counters.antt =====
-- The writers of the counters in bidder-server/src/freq_cap.rs: `spawn_impression_workers`,
-- `write_impression_counters` and its Lua script. Redis is an interface: its commands on a state at a
-- time in milliseconds, with what their documentation says of them.
pub mod Windows
pub mod Capped
pub mod Memory
mod Tests
use Prim.Native.String.{String, ◌++◌ as ◌<>◌}
use rust_rtb_bidder.Base.{
  ℕ, suc, ◌+◌, ◌*◌, ◌<◌, ◌≤◌, ◌≡◌, ◌≢◌, Bool, true, false, Option, none, some, List, [], ◌∷◌, ltb,
  ◌==◌, if◌then◌else◌, unwrap_or, ◌>>=◌,
}
use rust_rtb_bidder.Model.{to_string}
use rust_rtb_bidder.FreqCap.WriteBehind.{ImpressionEvent}

-- GET, INCR with its reply, and EXPIRE with a number of seconds.
pub record KeyStore (D : Type 0) : Type 0 where
  pub get : D → ℕ → String → Option ℕ
  pub incr : D → ℕ → String → D × ℕ
  pub expire : D → ℕ → String → ℕ → D

-- The largest counter, that of an i64.
abbrev pub max_count : ℕ
max_count = 9_223_372_036_854_775_807

-- What Redis documents: INCR counts from 0 a key that is not there, and leaves its deadline as it is;
-- EXPIRE sets the deadline of a key that is there; neither touches another key.
pub record IsRedis {D : Type 0} (ks : KeyStore D) : Type 0 where
  pub incr_reply :
      (d : D) (t : ℕ) (k : String)
      → unwrap_or (ks.get d t k) 0 < max_count
      → (ks.incr d t k).1 ≡ unwrap_or (ks.get d t k) 0 + 1
  pub incr_new :
      (d : D) (t u : ℕ) (k : String)
      → t ≤ u
      → ks.get d t k ≡ none
      → ks.get (ks.incr d t k).0 u k ≡ some 1
  pub incr_old :
      (d : D) (t u n : ℕ) (k : String)
      → t ≤ u
      → n < max_count
      → ks.get d t k ≡ some n
      → ks.get (ks.incr d t k).0 u k ≡ (ks.get d u k >>= λ m. some (m + 1))
  pub incr_other :
      (d : D) (t u : ℕ) (k j : String) → j ≢ k → ks.get (ks.incr d t k).0 u j ≡ ks.get d u j
  pub expire_same :
      (d : D) (t u n : ℕ) (k : String) (ttl : ℕ)
      → t ≤ u
      → ks.get d t k ≡ some n
      → ks.get (ks.expire d t k ttl) u k ≡ (if ltb u (t + ttl * 1_000) then some n else none)
  pub expire_other :
      (d : D) (t u : ℕ) (k j : String) (ttl : ℕ)
      → j ≢ k
      → ks.get (ks.expire d t k ttl) u j ≡ ks.get d u j

abbrev pub hour_ttl : ℕ
hour_ttl = 3_600

abbrev pub day_ttl : ℕ
day_ttl = 86_400

-- The key that is written.
unfoldable pub counter_key : ImpressionEvent → String → String
counter_key event window_suffix =
    "v1:fc:{u:" <> event.user_id <> "}:c:" <> to_string event.campaign_id <> ":" <> window_suffix

-- A write: the event, how long after the write before it its two calls run, and whether each of them
-- reaches Redis.
pub record Write : Type 0 where
  pub event : ImpressionEvent
  pub gap_ms : ℕ
  pub hour_reached : Bool
  pub day_reached : Bool

module _ {D : Type 0} (ks : KeyStore D) where
  -- The Lua script, which runs as a whole.
  unfoldable pub script : D → ℕ → String → ℕ → D
  script d now key ttl =
      let counted = ks.incr d now key in
      if counted.1 == 1 then ks.expire counted.0 now key ttl else counted.0

  abbrev pub eval : Bool → D → ℕ → String → ℕ → D
  eval true d now key ttl = script d now key ttl
  eval false d now key ttl = d

  unfoldable pub write_impression_counters : D → ℕ → Write → D
  write_impression_counters d now w =
      eval w.day_reached (eval w.hour_reached d now (counter_key w.event "h") hour_ttl) now
        (counter_key w.event "d") day_ttl

  -- The workers, in the order in which their writes run.
  unfoldable pub impression_workers : D → ℕ → List Write → D
  impression_workers d now [] = d
  impression_workers d now (w ∷ ws) =
      impression_workers (write_impression_counters d (now + w.gap_ms) w) (now + w.gap_ms) ws
