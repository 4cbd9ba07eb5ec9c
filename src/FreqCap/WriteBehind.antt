-- ===== src/FreqCap/WriteBehind.antt =====
-- The writes: `record_impression` and the eviction of in_process.rs, the queue behind them,
-- bidder-core/src/frequency/impression_recorder.rs, and `in_process_write_behind_drain` of
-- bidder-server/src/main.rs. A bounded channel is the list of what it holds.
use Prim.Native.String.{String}
use rust_rtb_bidder.Base.{
  ℕ, Bool, true, false, ◌&&◌, Option, none, some, List, [], ◌∷◌, ◌++◌, length, ltb, if◌then◌else◌,
}
use rust_rtb_bidder.Base.Words.{add64}
use rust_rtb_bidder.FreqCap.{CapWindow, day, hour}
use rust_rtb_bidder.FreqCap.InProcess.{Cache, put, same}

pub record WriteBehindOp : Type 0 where
  pub user_id : String
  pub campaign_id : ℕ
  pub window : CapWindow

pub record ImpressionEvent : Type 0 where
  pub user_id : String
  pub campaign_id : ℕ
  pub creative_id : ℕ
  pub device_type : ℕ
  pub hour_of_day : ℕ

-- `Sender::try_send` of a channel with this capacity.
unfoldable pub try_send : {A : Type 0} → ℕ → List A → A → List A × Bool
try_send capacity queue x =
    if ltb (length queue) capacity then (queue ++ (x ∷ []), true) else (queue, false)

abbrev incremented : Option (ℕ × ℕ) → ℕ × ℕ
incremented none = (add64 0 1, add64 0 1)
incremented (some counts) = (add64 counts.0 1, add64 counts.1 1)

-- Both operations of one pair of windows, each tried whether the other fits or not.
unfoldable pub send_both : ℕ → List WriteBehindOp → String → ℕ → List WriteBehindOp × Bool
send_both capacity queue user_id campaign_id =
    let day_sent =
      try_send capacity queue
        (record { user_id = user_id; campaign_id = campaign_id; window = day }) in
    let hour_sent =
      try_send capacity day_sent.0
        (record { user_id = user_id; campaign_id = campaign_id; window = hour }) in
    (hour_sent.0, day_sent.1 && hour_sent.1)

-- What the capper writes to.
pub record Written : Type 0 where
  pub counters : Cache
  pub queue : List WriteBehindOp

unfoldable pub record_impression : ℕ → Written → String → ℕ → Written × Bool
record_impression capacity w user_id campaign_id =
    let sent = send_both capacity w.queue user_id campaign_id in
    (
      record {
        counters =
            put w.counters user_id campaign_id (incremented (w.counters user_id campaign_id));
        queue = sent.0;
      },
      sent.1,
    )

-- The eviction listener, for the campaigns of the user's map, in the order of its iterator.
unfoldable pub flush : ℕ → List WriteBehindOp → String → List ℕ → List WriteBehindOp
flush capacity queue user_id [] = queue
flush capacity queue user_id (campaign_id ∷ campaigns) =
    flush capacity (send_both capacity queue user_id campaign_id).0 user_id campaigns

unfoldable pub evict : ℕ → Written → String → List ℕ → Written
evict capacity w user_id campaigns = record {
  counters = λ u j. if same user_id u then none else w.counters u j;
  queue = flush capacity w.queue user_id campaigns;
}

abbrev pub is_day : CapWindow → Bool
is_day day = true
is_day _ = false

-- `ImpressionRecorder::try_record`: the channel that the drain feeds.
abbrev pub recorder_capacity : ℕ
recorder_capacity = 65_536

unfoldable pub try_record : List ImpressionEvent → ImpressionEvent → List ImpressionEvent × Bool
try_record events event = try_send recorder_capacity events event

abbrev pub event_of : WriteBehindOp → ImpressionEvent
event_of op = record {
  user_id = op.user_id;
  campaign_id = op.campaign_id;
  creative_id = 0;
  device_type = 0;
  hour_of_day = 0;
}

-- The drain, on all that the queue holds.
unfoldable pub write_behind_drain : List WriteBehindOp → List ImpressionEvent → List ImpressionEvent
write_behind_drain [] events = events
write_behind_drain (op ∷ ops) events =
    write_behind_drain ops
      (if is_day op.window then (try_record events (event_of op)).0 else events)
