-- ===== src/State/Queues.antt =====
-- The bookkeeping of a channel: its counter, its in-flight mark and its two queues.
use relinow.Prelude.{
  ℕ, none, some, Bool, true, false, not, ◌&&◌, ◌==◌, if◌then◌else◌, get_or, set, find_index,
}
use relinow.Packet.{mode_priority, seq_next}
use relinow.State.Types.{StateErr, ok, not_found, queue_full, Slot, Channel, State, zero_slot}
use relinow.State.Lookup.{channel_at, put_channel, find_channel_mut}

-- The tests of the loops over a queue.
abbrev pub is_queued : ℕ → Slot → Bool
is_queued seq_id slot = slot.used && slot.seq_id == seq_id

abbrev pub is_free_slot : Slot → Bool
is_free_slot slot = not slot.used

-- `relinow_tx_remove_seq`
unfoldable pub tx_remove_seq : Channel → ℕ → Channel
tx_remove_seq channel seq_id = elim (find_index (is_queued seq_id) channel.tx_queue) [
  | none ↦ channel
  | some i ↦ record channel {
    tx_queue =
        set channel.tx_queue i (record (get_or channel.tx_queue i zero_slot) { used = false });
  }
]

-- `relinow_state_next_sequence`; the last argument and the last result are `*out_seq`.
unfoldable pub next_sequence : State → ℕ → ℕ → ℕ → StateErr × State × ℕ
next_sequence state peer_index channel_id out_seq =
    elim (find_channel_mut state peer_index channel_id) [
      | none ↦ (not_found, state, out_seq)
      | some i ↦
          let channel = channel_at state peer_index i in
          (
            ok,
            put_channel state peer_index i
                (record channel { next_tx_seq = seq_next channel.next_tx_seq }),
            channel.next_tx_seq,
          )
    ]

-- `relinow_state_mark_inflight`
unfoldable pub mark_inflight : State → ℕ → ℕ → ℕ → StateErr × State
mark_inflight state peer_index channel_id seq_id =
    elim (find_channel_mut state peer_index channel_id) [
      | none ↦ (not_found, state)
      | some i ↦
          let channel = channel_at state peer_index i in
          if channel.mode == mode_priority && channel.has_inflight
          then (ok, put_channel state peer_index i (record channel { inflight_seq = seq_id }))
          else (
            ok,
            put_channel state peer_index i
                (record channel { has_inflight = true; inflight_seq = seq_id }),
          )
    ]

-- `relinow_state_clear_inflight`
unfoldable pub clear_inflight : State → ℕ → ℕ → ℕ → StateErr × State
clear_inflight state peer_index channel_id seq_id =
    elim (find_channel_mut state peer_index channel_id) [
      | none ↦ (not_found, state)
      | some i ↦
          let channel = channel_at state peer_index i in
          if channel.has_inflight && channel.inflight_seq == seq_id
          then (ok, put_channel state peer_index i (record channel { has_inflight = false }))
          else (ok, state)
    ]

-- `relinow_state_clear_inflight_any`
unfoldable pub clear_inflight_any : State → ℕ → ℕ → StateErr × State
clear_inflight_any state peer_index channel_id =
    elim (find_channel_mut state peer_index channel_id) [
      | none ↦ (not_found, state)
      | some i ↦ (
        ok,
        put_channel state peer_index i
            (record (channel_at state peer_index i) { has_inflight = false }),
      )
    ]

-- A slot in use for `seq_id`.
abbrev pub queued_slot : ℕ → Slot
queued_slot seq_id = record { used = true; seq_id = seq_id }

-- `relinow_state_enqueue_tx`
unfoldable pub enqueue_tx : State → ℕ → ℕ → ℕ → StateErr × State
enqueue_tx state peer_index channel_id seq_id =
    elim (find_channel_mut state peer_index channel_id) [
      | none ↦ (not_found, state)
      | some i ↦
          let channel = channel_at state peer_index i in
          elim (find_index is_free_slot channel.tx_queue) [
            | none ↦ (queue_full, state)
            | some j ↦ (
              ok,
              put_channel state peer_index i
                  (record channel { tx_queue = set channel.tx_queue j (queued_slot seq_id) }),
            )
          ]
    ]

-- `relinow_state_enqueue_rx`
unfoldable pub enqueue_rx : State → ℕ → ℕ → ℕ → StateErr × State
enqueue_rx state peer_index channel_id seq_id =
    elim (find_channel_mut state peer_index channel_id) [
      | none ↦ (not_found, state)
      | some i ↦
          let channel = channel_at state peer_index i in
          elim (find_index is_free_slot channel.rx_queue) [
            | none ↦ (queue_full, state)
            | some j ↦ (
              ok,
              put_channel state peer_index i
                  (record channel { rx_queue = set channel.rx_queue j (queued_slot seq_id) }),
            )
          ]
    ]
