-- ===== src/FreqCap/Recounted.antt =====
-- How many writes the impressions of an evicted user make.
use Prim.Native.String.{String}
use rust_rtb_bidder.Base.{
  ℕ, zero, suc, ◌+◌, ◌*◌, ◌≤◌, ◌<◌, ◌≡◌, refl, true, false, List, [], ◌∷◌, ◌++◌, length,
  length-append, lt→ltb, Bool-cases, inl, inr, ◌∙◌, ap, if◌then◌else◌, arith,
}
use rust_rtb_bidder.FreqCap.{day, hour}
use rust_rtb_bidder.FreqCap.WriteBehind.{
  WriteBehindOp, ImpressionEvent, Written, try_send, send_both, record_impression, flush, evict,
  is_day, recorder_capacity, try_record, event_of, write_behind_drain,
}

-- The operations for a day in the queue.
abbrev pub days : List WriteBehindOp → ℕ
days [] = 0
days (op ∷ ops) = (if is_day op.window then 1 else 0) + days ops

days-append : (ops ops' : List WriteBehindOp) → days (ops ++ ops') ≡ days ops + days ops'
days-append [] ops' = omega arith
days-append (op ∷ ops) ops' = omega (arith, days-append ops ops')

day_counts :
    (op : WriteBehindOp) (ops : List WriteBehindOp)
    → is_day op.window ≡ true
    → days (op ∷ ops) ≡ suc (days ops)
day_counts op ops k = rw k (omega arith)

other_counts :
    (op : WriteBehindOp) (ops : List WriteBehindOp)
    → is_day op.window ≡ false
    → days (op ∷ ops) ≡ days ops
other_counts op ops k = rw k (omega arith)

try_send_fits :
    {A : Type 0} (capacity : ℕ) (queue : List A) (x : A)
    → length queue < capacity
    → try_send capacity queue x ≡ (queue ++ (x ∷ []), true)
unfolding try_send
try_send_fits capacity queue x h = rw (lt→ltb (length queue) capacity h) refl

drain-days :
    (ops : List WriteBehindOp) (events : List ImpressionEvent)
    → length events + days ops ≤ recorder_capacity
    → length (write_behind_drain ops events) ≡ length events + days ops
unfolding write_behind_drain try_record
drain-days [] events h = omega arith
drain-days (op ∷ ops) events h = elim (Bool-cases (is_day op.window)) [
  | inl k ↦
      let event = event_of op in
      let fits =
        try_send_fits recorder_capacity events event (omega (arith, h, day_counts op ops k)) in
      rw (k, fits)
        (drain-days ops (events ++ (event ∷ []))
            (omega (arith, h, day_counts op ops k, length-append events (event ∷ [])))
          ∙ omega (arith, length-append events (event ∷ [])))
  | inr k ↦ rw k (drain-days ops events (omega (arith, h, other_counts op ops k)) ∙ omega arith)
]

module _ (capacity : ℕ) (user_id : String) (campaign_id : ℕ) where
  -- So many impressions of one user and campaign.
  unfoldable pub record_times : ℕ → Written → Written
  record_times zero w = w
  record_times (suc n) w = record_times n (record_impression capacity w user_id campaign_id).0

  sends_both :
      (queue : List WriteBehindOp)
      → length queue + 2 ≤ capacity
      → (length (send_both capacity queue user_id campaign_id).0 ≡ length queue + 2)
        × (days (send_both capacity queue user_id campaign_id).0 ≡ days queue + 1)
  unfolding send_both
  sends_both queue h =
      let one : WriteBehindOp = record {
        user_id = user_id;
        campaign_id = campaign_id;
        window = day;
      } in
      let two : WriteBehindOp = record {
        user_id = user_id;
        campaign_id = campaign_id;
        window = hour;
      } in
      let grown = length-append queue (one ∷ []) in
      rw
        (
          try_send_fits capacity queue one (omega (arith, h)),
          try_send_fits capacity (queue ++ (one ∷ [])) two (omega (arith, h, grown)),
        )
        (
          omega (arith, length-append (queue ++ (one ∷ [])) (two ∷ []), grown),
          omega (arith, days-append (queue ++ (one ∷ [])) (two ∷ []), days-append queue (one ∷ [])),
        )

  record_times-days :
      (n : ℕ) (w : Written)
      → length w.queue + (n * 2) ≤ capacity
      → (length (record_times n w).queue ≡ length w.queue + (n * 2))
        × (days (record_times n w).queue ≡ days w.queue + n)
  unfolding record_times record_impression
  record_times-days zero w h = (omega arith, omega arith)
  record_times-days (suc n) w h =
      let sent = sends_both w.queue (omega (arith, h)) in
      let ih =
        record_times-days n (record_impression capacity w user_id campaign_id).0
          (omega (arith, h, sent.0)) in
      (omega (arith, ih.0, sent.0), omega (arith, ih.1, sent.1))

  -- From an empty queue, with room in both channels, n impressions of one campaign whose user is
  -- then evicted reach the recorder as n + 1 events: the eviction queues the campaign again, though every impression was queued when it was recorded.
  pub evicted_counts_again :
      (n : ℕ) (w : Written)
      → w.queue ≡ []
      → (n + 1) * 2 ≤ capacity
      → n + 1 ≤ recorder_capacity
      → length (
          write_behind_drain
            (evict capacity (record_times n w) user_id (campaign_id ∷ [])).queue
            [])
        ≡ n + 1
  unfolding evict flush
  evicted_counts_again n w e h k =
      let none_yet = ap length e in
      let no_days = ap days e in
      let before = record_times-days n w (omega (arith, h, none_yet)) in
      let after = sends_both (record_times n w).queue (omega (arith, h, before.0, none_yet)) in
      drain-days (send_both capacity (record_times n w).queue user_id campaign_id).0 []
        (omega (arith, k, after.1, before.1, no_days))
      ∙ omega (arith, after.1, before.1, no_days)
