-- ===== src/State/ReliableMode.antt =====
-- The operations of a RELIABLE channel: each drives the channel's reliable context and keeps the
-- channel's bookkeeping in step with it.
pub mod RxQueue
pub mod Over
pub mod Mirror
pub mod Kept
pub mod KeptSender
pub mod KeptReceiving
pub mod History
pub mod Accepting
pub mod Outcomes
pub mod Arriving
mod Tests
use relinow.Prelude.{
  ℕ, List, [], ◌∷◌, Option, none, some, Bool, true, false, not, ◌==◌, leb, if◌then◌else◌, get_or,
  replicate, find_index,
}
use relinow.Packet
use relinow.Packet.{mode_reliable}
use relinow.Reliable
use relinow.Reliable.{
  Config, TxEvent, tx_none, tx_new, tx_retransmit, tx_failed, TxResult, RxResult, Ctx,
}
use relinow.State.Types.{
  StateErr, ok, invalid_arg, not_found, queue_full, wrong_mode, no_space, conflict, Channel, State,
  max_peers, tx_queue_size, rx_queue_size, zero_slot,
}
use relinow.State.Lookup.{peer_at, channel_at, put_channel, is_channel, find_channel_mut}
use relinow.State.Queues.{tx_remove_seq, mark_inflight, clear_inflight, enqueue_tx, enqueue_rx}

-- `relinow_state_set_reliable_config`
unfoldable pub set_reliable_config : State → ℕ → ℕ → Config → StateErr × State
set_reliable_config state peer_index channel_id cfg =
    elim (find_channel_mut state peer_index channel_id) [
      | none ↦ (not_found, state)
      | some i ↦
          let channel = channel_at state peer_index i in
          if not (channel.mode == mode_reliable) then (wrong_mode, state) else (
            ok,
            put_channel state peer_index i (record channel {
              reliable = Reliable.init (some cfg);
              has_inflight = false;
              tx_queue = replicate tx_queue_size zero_slot;
              rx_queue = replicate rx_queue_size zero_slot;
            }),
          )
    ]

-- The tail of `relinow_state_reliable_send`, after the context's own send.
unfoldable pub note_sent : State → ℕ → ℕ → TxResult → StateErr × State × TxResult
note_sent state peer_index channel_id result = elim result.event [
  | tx_new ↦
      let marked = (mark_inflight state peer_index channel_id result.seq_id).1 in
      (ok, (enqueue_tx marked peer_index channel_id result.seq_id).1, result)
  | _ ↦ (ok, state, result)
]

-- The part of `relinow_state_reliable_send` after the context's own call, with its return code, the
-- context it leaves and its result.
unfoldable pub after_send :
    State → ℕ → ℕ → ℕ → Packet.Err × Ctx × TxResult → StateErr × State × TxResult
unfolding note_sent
after_send state peer_index channel_id i (rc, ctx, result) =
    let sent =
      put_channel state peer_index i (record (channel_at state peer_index i) { reliable = ctx }) in
    elim rc [
      | Packet.ok ↦ note_sent sent peer_index channel_id result
      | _ ↦ (queue_full, sent, result)
    ]

-- `relinow_state_reliable_send`; the last argument and the last result are `*out_result`.
unfoldable pub reliable_send : State → ℕ → ℕ → ℕ → TxResult → StateErr × State × TxResult
unfolding after_send
reliable_send state peer_index channel_id now_ms out_result =
    elim (find_channel_mut state peer_index channel_id) [
      | none ↦ (not_found, state, out_result)
      | some i ↦
          let channel = channel_at state peer_index i in
          if not (channel.mode == mode_reliable)
          then (wrong_mode, state, out_result)
          else after_send state peer_index channel_id i
              (Reliable.send channel.reliable now_ms out_result)
    ]

-- `relinow_state_reliable_on_ack`
unfoldable pub reliable_on_ack : State → ℕ → ℕ → ℕ → ℕ → StateErr × State
reliable_on_ack state peer_index channel_id ack_id now_ms =
    elim (find_channel_mut state peer_index channel_id) [
      | none ↦ (not_found, state)
      | some i ↦
          let channel = channel_at state peer_index i in
          if not (channel.mode == mode_reliable)
          then (wrong_mode, state)
          else let ctx = (Reliable.on_ack channel.reliable ack_id now_ms).1 in
            let acked = put_channel state peer_index i (record channel { reliable = ctx }) in
            let cleared = (clear_inflight acked peer_index channel_id ack_id).1 in
            (
              ok,
              put_channel cleared peer_index i
                  (tx_remove_seq (channel_at cleared peer_index i) ack_id),
            )
    ]

-- The tail of `relinow_state_reliable_poll`, for the channel of index `i`.
unfoldable pub note_polled : State → ℕ → ℕ → ℕ → TxResult → StateErr × State × TxResult
note_polled state peer_index channel_id i result = elim result.event [
  | tx_retransmit ↦ (ok, (mark_inflight state peer_index channel_id result.seq_id).1, result)
  | tx_failed ↦
      let cleared = (clear_inflight state peer_index channel_id result.seq_id).1 in
      (
        ok,
        put_channel cleared peer_index i
            (tx_remove_seq (channel_at cleared peer_index i) result.seq_id),
        result,
      )
  | _ ↦ (ok, state, result)
]

-- The part of `relinow_state_reliable_poll` after the context's own call, with its return code, the
-- context it leaves and its result.
unfoldable pub after_poll :
    State → ℕ → ℕ → ℕ → Packet.Err × Ctx × TxResult → StateErr × State × TxResult
unfolding note_polled
after_poll state peer_index channel_id i (rc, ctx, result) =
    let polled =
      put_channel state peer_index i (record (channel_at state peer_index i) { reliable = ctx }) in
    elim rc [
      | Packet.ok ↦ note_polled polled peer_index channel_id i result
      | _ ↦ (invalid_arg, polled, result)
    ]

-- `relinow_state_reliable_poll`
unfoldable pub reliable_poll : State → ℕ → ℕ → ℕ → TxResult → StateErr × State × TxResult
unfolding after_poll
reliable_poll state peer_index channel_id now_ms out_result =
    elim (find_channel_mut state peer_index channel_id) [
      | none ↦ (not_found, state, out_result)
      | some i ↦
          let channel = channel_at state peer_index i in
          if not (channel.mode == mode_reliable)
          then (wrong_mode, state, out_result)
          else after_poll state peer_index channel_id i (Reliable.poll channel.reliable now_ms)
    ]

-- A number that was not queued ends the loop below with its error.
unfoldable pub after_enqueue : StateErr → State → StateErr × State → StateErr × State
after_enqueue ok queued rest = rest
after_enqueue qrc queued rest = (qrc, queued)

-- The loop of `relinow_state_reliable_on_data` over the delivered numbers.
unfoldable pub enqueue_delivered : State → ℕ → ℕ → List ℕ → StateErr × State
unfolding after_enqueue
enqueue_delivered state peer_index channel_id [] = (ok, state)
enqueue_delivered state peer_index channel_id (seq_id ∷ delivered) =
    let (qrc, queued) = enqueue_rx state peer_index channel_id seq_id in
    after_enqueue qrc queued (enqueue_delivered queued peer_index channel_id delivered)

-- The end of `relinow_state_reliable_on_data`, for the channel of index `i`: it is reached only
-- where every delivered number was queued.
unfoldable pub note_expected : StateErr × State → ℕ → ℕ → RxResult → StateErr × State × RxResult
note_expected (ok, state) peer_index i result =
    let channel = channel_at state peer_index i in
    (
      ok,
      put_channel state peer_index i
          (record channel { expected_rx_seq = channel.reliable.expected_rx_seq }),
      result,
    )
note_expected (qrc, state) peer_index i result = (qrc, state, result)

-- The part of `relinow_state_reliable_on_data` after the context's own call, with its return code,
-- the context it leaves and its result.
unfoldable pub note_received :
    State → ℕ → ℕ → ℕ → Packet.Err × Ctx × RxResult → StateErr × State × RxResult
unfolding note_expected
note_received state peer_index channel_id i (rc, ctx, result) =
    let received =
      put_channel state peer_index i (record (channel_at state peer_index i) { reliable = ctx }) in
    elim rc [
      | Packet.ok ↦
          note_expected (enqueue_delivered received peer_index channel_id result.delivered)
            peer_index i result
      | _ ↦ (invalid_arg, received, result)
    ]

-- `relinow_state_reliable_on_data`; the last argument and the last result are `*out_result`.
unfoldable pub reliable_on_data : State → ℕ → ℕ → ℕ → RxResult → StateErr × State × RxResult
unfolding note_received
reliable_on_data state peer_index channel_id seq_id out_result =
    elim (find_channel_mut state peer_index channel_id) [
      | none ↦ (not_found, state, out_result)
      | some i ↦
          let channel = channel_at state peer_index i in
          if not (channel.mode == mode_reliable)
          then (wrong_mode, state, out_result)
          else note_received state peer_index channel_id i
              (Reliable.on_data channel.reliable seq_id)
    ]

-- `relinow_state_reliable_get_rtt_ms`
unfoldable pub reliable_get_rtt_ms : State → ℕ → ℕ → ℕ → StateErr × ℕ
reliable_get_rtt_ms state peer_index channel_id out_rtt_ms =
    if leb max_peers peer_index
    then (invalid_arg, out_rtt_ms)
    else if not (peer_at state peer_index).in_use
    then (not_found, out_rtt_ms)
    else elim (find_index (is_channel channel_id) (peer_at state peer_index).channels) [
      | none ↦ (not_found, out_rtt_ms)
      | some i ↦
          let channel = channel_at state peer_index i in
          if not (channel.mode == mode_reliable)
          then (wrong_mode, out_rtt_ms)
          else (ok, Reliable.current_rtt_ms channel.reliable)
    ]
