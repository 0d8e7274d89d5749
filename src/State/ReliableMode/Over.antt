-- ===== src/State/ReliableMode/Over.antt =====
-- The bookkeeping of a channel on a state in which the channel has been written: each operation is
-- one change of the channel.
use relinow.Prelude.{
  ℕ, ◌≡◌, refl, inl, inr, none, some, true, false, ◌&&◌, ◌==◌, if◌then◌else◌, find_index, set,
  set-get_or, Bool-cases, Option-cases,
}
use relinow.Packet.{mode_reliable}
use relinow.State.Types.{Channel, State, zero_peer, zero_channel}
use relinow.State.Lookup.{peer_at, channel_at, put_channel, is_channel, find_channel_mut}
use relinow.State.Lookup.Laws.{
  channel_at-put_channel, put_channel-put_channel, find_channel_mut-put_channel,
}
use relinow.State.Queues.{
  is_free_slot, queued_slot, mark_inflight, clear_inflight, enqueue_tx, enqueue_rx,
}

-- Writing back what was read changes nothing.
pub put_channel-channel_at :
    (state : State) (p i : ℕ) → put_channel state p i (channel_at state p i) ≡ state
unfolding put_channel
put_channel-channel_at state p i =
    rw (set-get_or (peer_at state p).channels i zero_channel, set-get_or state.peers p zero_peer)
      refl

-- A channel of this number in RELIABLE mode.
abbrev pub IsReliable : ℕ → Channel → Type 0
IsReliable c channel = (is_channel c channel ≡ true) × (channel.mode ≡ mode_reliable)

abbrev pub marked : Channel → ℕ → Channel
marked channel q = record channel { has_inflight = true; inflight_seq = q }

abbrev pub cleared : Channel → ℕ → Channel
cleared channel q =
    if channel.has_inflight && channel.inflight_seq == q
    then record channel { has_inflight = false }
    else channel

unfoldable pub queued : Channel → ℕ → Channel
queued channel q = elim (find_index is_free_slot channel.tx_queue) [
  | none ↦ channel
  | some j ↦ record channel { tx_queue = set channel.tx_queue j (queued_slot q) }
]

unfoldable pub rx_queued : Channel → ℕ → Channel
rx_queued channel q = elim (find_index is_free_slot channel.rx_queue) [
  | none ↦ channel
  | some j ↦ record channel { rx_queue = set channel.rx_queue j (queued_slot q) }
]

module _ (state : State) (p c i : ℕ) (found : find_channel_mut state p c ≡ some i)
    (channel : Channel) (v : IsReliable c channel) where
  abbrev pub over : State
  over = put_channel state p i channel

  pub over-found : find_channel_mut over p c ≡ some i
  over-found = find_channel_mut-put_channel state p c i found channel v.0

  pub over-channel : channel_at over p i ≡ channel
  over-channel = channel_at-put_channel state p c i found channel

  pub mark_inflight-over :
      (q : ℕ) → (mark_inflight over p c q).1 ≡ put_channel state p i (marked channel q)
  unfolding mark_inflight
  mark_inflight-over q =
      rw (mark_inflight, over-found, over-channel, v.1)
        (put_channel-put_channel state p c i found _ _)

  pub clear_inflight-over :
      (q : ℕ) → (clear_inflight over p c q).1 ≡ put_channel state p i (cleared channel q)
  unfolding clear_inflight
  clear_inflight-over q = elim (Bool-cases (channel.has_inflight && channel.inflight_seq == q)) [
    | inl held ↦
        rw (clear_inflight, over-found, over-channel, held)
          (put_channel-put_channel state p c i found _ _)
    | inr other ↦ rw (clear_inflight, over-found, over-channel, other) refl
  ]

  pub enqueue_tx-over :
      (q : ℕ) → (enqueue_tx over p c q).1 ≡ put_channel state p i (queued channel q)
  unfolding enqueue_tx queued
  enqueue_tx-over q = elim (Option-cases (find_index is_free_slot channel.tx_queue)) [
    | inl full ↦ rw (enqueue_tx, over-found, over-channel, queued, full) refl
    | inr (j, free) ↦
        rw (enqueue_tx, over-found, over-channel, queued, free, over-channel)
          (put_channel-put_channel state p c i found _ _)
  ]

  pub enqueue_rx-over :
      (q : ℕ) → (enqueue_rx over p c q).1 ≡ put_channel state p i (rx_queued channel q)
  unfolding enqueue_rx rx_queued
  enqueue_rx-over q = elim (Option-cases (find_index is_free_slot channel.rx_queue)) [
    | inl full ↦ rw (enqueue_rx, over-found, over-channel, rx_queued, full) refl
    | inr (j, free) ↦
        rw (enqueue_rx, over-found, over-channel, rx_queued, free, over-channel)
          (put_channel-put_channel state p c i found _ _)
  ]
