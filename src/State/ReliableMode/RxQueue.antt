-- ===== src/State/ReliableMode/RxQueue.antt =====
-- What a full receive queue does to a RELIABLE channel. Nothing in the repository takes entries out
-- of this queue but a new configuration of the channel.
use relinow.Prelude.{ℕ, ◌≡◌, refl, ap, ◌∙◌, List, [], ◌∷◌, none, some, true, find_index}
use relinow.Packet
use relinow.Packet.{mode_reliable, seq_next, is_seq_newer}
use relinow.Reliable
use relinow.Reliable.{
  Ctx, RxResult, RxStatus, rx_duplicate, rx_delivered, nothing_delivered, last_in_order,
  deliver_expected, drain, max_reorder,
}
use relinow.Reliable.Receiver.{IsReceiver}
use relinow.Reliable.Delivery.{on_data_expected, on_data_repeated}
use relinow.State.Types.{ok, queue_full, State}
use relinow.State.Lookup.{channel_at, put_channel, find_channel_mut}
use relinow.State.Lookup.Laws.{
  channel_matches, channel_at-put_channel, put_channel-put_channel, find_channel_mut-put_channel,
}
use relinow.State.Queues.{is_free_slot, enqueue_rx}
use relinow.State.ReliableMode.{enqueue_delivered, note_expected, note_received, reliable_on_data}

-- No entry of the channel's receive queue is free.
abbrev pub IsRxQueueFull : State → ℕ → ℕ → Type 0
IsRxQueueFull state p i = find_index is_free_slot (channel_at state p i).rx_queue ≡ none

-- The channel with the reliable context that a frame left.
abbrev pub received : State → ℕ → ℕ → Ctx → State
received state p i ctx = put_channel state p i (record (channel_at state p i) { reliable = ctx })

module _ (state : State) (p c i : ℕ) (found : find_channel_mut state p c ≡ some i) where
  enqueue_rx_full : (q : ℕ) → IsRxQueueFull state p i → enqueue_rx state p c q ≡ (queue_full, state)
  unfolding enqueue_rx
  enqueue_rx_full q full = rw (found, enqueue_rx, full) refl

  enqueue_delivered_full :
      (q : ℕ) (qs : List ℕ)
      → IsRxQueueFull state p i
      → enqueue_delivered state p c (q ∷ qs) ≡ (queue_full, state)
  unfolding enqueue_delivered
  enqueue_delivered_full q qs full = rw (enqueue_rx_full q full) refl

  pub received-found : (ctx : Ctx) → find_channel_mut (received state p i ctx) p c ≡ some i
  received-found ctx =
      find_channel_mut-put_channel state p c i found
        (record (channel_at state p i) { reliable = ctx }) (channel_matches state p c i found).1

  pub received-channel :
      (ctx : Ctx)
      → channel_at (received state p i ctx) p i ≡ record (channel_at state p i) { reliable = ctx }
  received-channel ctx =
      channel_at-put_channel state p c i found (record (channel_at state p i) { reliable = ctx })

module _ (state : State) (p c i : ℕ) (found : find_channel_mut state p c ≡ some i)
    (mode : (channel_at state p i).mode ≡ mode_reliable) (q : ℕ) (out : RxResult) where
  pub reliable_on_data_lem :
      reliable_on_data state p c q out
      ≡ note_received state p c i (Reliable.on_data (channel_at state p i).reliable q)
  unfolding reliable_on_data
  reliable_on_data_lem = rw (found, reliable_on_data, mode) refl

  -- A frame that delivers something is refused, with the reliable window moved on.
  on_data_full :
      (ctx : Ctx) (status : RxStatus) (d : ℕ) (ds : List ℕ) (ack_id : ℕ)
      → IsRxQueueFull state p i
      → let result : RxResult = record { status = status; delivered = d ∷ ds; ack_id = ack_id } in
        Reliable.on_data (channel_at state p i).reliable q ≡ (Packet.ok, ctx, result)
        → reliable_on_data state p c q out ≡ (queue_full, received state p i ctx, result)
  unfolding note_received note_expected
  on_data_full ctx status d ds ack_id full taken =
      reliable_on_data_lem
      ∙ (ap (note_received state p c i) taken
          ∙ rw
              (enqueue_delivered_full (received state p i ctx) p c i
                (received-found state p c i found ctx) d ds
                (rw (received-channel state p c i found ctx) full))
              refl)

  -- A frame that delivers nothing succeeds.
  on_data_nothing :
      (ctx : Ctx) (status : RxStatus) (ack_id : ℕ)
      → let result : RxResult = record { status = status; delivered = []; ack_id = ack_id } in
        Reliable.on_data (channel_at state p i).reliable q ≡ (Packet.ok, ctx, result)
        → reliable_on_data state p c q out ≡ (
          ok,
          put_channel state p i (record (channel_at state p i) {
            reliable = ctx;
            expected_rx_seq = ctx.expected_rx_seq;
          }),
          result,
        )
  unfolding note_received note_expected enqueue_delivered
  on_data_nothing ctx status ack_id taken =
      reliable_on_data_lem
      ∙ (ap (note_received state p c i) taken
          ∙ rw (received-channel state p c i found ctx, put_channel-put_channel state p c i found)
              refl)

-- A full receive queue loses frames for good. On a RELIABLE channel with an open window and a
-- valid buffer, the expected frame is refused with `queue_full`, but the window has moved past it:
-- the same frame sent again is a duplicate, is delivered to nobody, and is answered with success
-- and an acknowledgment of the last number that the window has passed. The queue is as full as
-- before.
pub full_queue_loses_frame :
    (state : State) (p c i : ℕ) (out out' : RxResult)
    → find_channel_mut state p c ≡ some i
    → (channel_at state p i).mode ≡ mode_reliable
    → IsRxQueueFull state p i
    → IsReceiver (channel_at state p i).reliable
    → (channel_at state p i).reliable.has_rx_window ≡ true
    → let ctx = (channel_at state p i).reliable in
      let (rc, state', result) = reliable_on_data state p c ctx.expected_rx_seq out in
      let (rc', state'', again) = reliable_on_data state' p c ctx.expected_rx_seq out' in
      (rc ≡ queue_full)
      × (rc' ≡ ok)
      × (again.status ≡ rx_duplicate)
      × (again.delivered ≡ [])
      × (again.ack_id ≡ result.ack_id)
      × IsRxQueueFull state'' p i
unfolding deliver_expected
full_queue_loses_frame state p c i out out' found mode full v has =
    let ctx = (channel_at state p i).reliable in
    let q = ctx.expected_rx_seq in
    let taken = on_data_expected ctx q has refl in
    let (ctx', rest) =
      drain max_reorder (record ctx { expected_rx_seq = seq_next ctx.expected_rx_seq }) in
    let state' = received state p i ctx' in
    let seen = received-channel state p c i found ctx' in
    let first =
      on_data_full state p c i found mode q out ctx' rx_delivered q rest (last_in_order ctx') full
        taken in
    let passed = rw taken at (on_data_repeated ctx v has) in
    let found' = received-found state p c i found ctx' in
    let second =
      on_data_nothing state' p c i found' (rw seen mode) q out' ctx' rx_duplicate
        (last_in_order ctx') (rw seen passed) in
    rw (first, second)
      (refl, refl, refl, refl, refl, rw (channel_at-put_channel state' p c i found', seen) full)
