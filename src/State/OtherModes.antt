-- ===== src/State/OtherModes.antt =====
-- The operations of UNRELIABLE and PRIORITY channels.
pub mod Losses
pub mod Latest
use relinow.Prelude.{
  ℕ, ◌+◌, none, some, Bool, true, false, not, ◌||◌, ◌==◌, if◌then◌else◌, u32, sub16,
}
use relinow.Packet.{mode_unreliable, mode_priority, seq_next, is_seq_newer}
use relinow.State.Types.{StateErr, ok, not_found, wrong_mode, Channel, Stats, State}
use relinow.State.Lookup.{channel_at, put_channel, find_channel_mut}

-- `relinow_state_unreliable_send`; the last argument and the last result are `*out_seq_id`.
unfoldable pub unreliable_send : State → ℕ → ℕ → ℕ → StateErr × State × ℕ
unreliable_send state peer_index channel_id out_seq_id =
    elim (find_channel_mut state peer_index channel_id) [
      | none ↦ (not_found, state, out_seq_id)
      | some i ↦
          let channel = channel_at state peer_index i in
          if not (channel.mode == mode_unreliable) then (wrong_mode, state, out_seq_id) else (
            ok,
            put_channel state peer_index i
                (record channel { next_tx_seq = seq_next channel.next_tx_seq }),
            channel.next_tx_seq,
          )
    ]

-- The channel after `relinow_state_unreliable_on_data`: the counters are 32-bit.
unfoldable pub count_received : Channel → ℕ → Channel
count_received channel seq_id =
    let rx = u32 (channel.stats.total_rx + 1) in
    let lost = channel.stats.total_lost in
    if not channel.has_rx_seq
    then record channel {
      stats = record { total_rx = rx; total_lost = lost };
      has_rx_seq = true;
      expected_rx_seq = seq_id;
    }
    else if is_seq_newer seq_id channel.expected_rx_seq
    then record channel {
      stats = record {
        total_rx = rx;
        total_lost = u32 (lost + sub16 seq_id channel.expected_rx_seq);
      };
      expected_rx_seq = seq_id;
    }
    else record channel { stats = record { total_rx = rx; total_lost = lost } }

-- `relinow_state_unreliable_on_data`
unfoldable pub unreliable_on_data : State → ℕ → ℕ → ℕ → StateErr × State
unfolding count_received
unreliable_on_data state peer_index channel_id seq_id =
    elim (find_channel_mut state peer_index channel_id) [
      | none ↦ (not_found, state)
      | some i ↦
          let channel = channel_at state peer_index i in
          if not (channel.mode == mode_unreliable)
          then (wrong_mode, state)
          else (ok, put_channel state peer_index i (count_received channel seq_id))
    ]

-- The three values that `relinow_state_priority_send` stores through its pointers.
pub record Sent : Type 0 where
  pub seq_id : ℕ
  pub replaced : Bool
  pub replaced_seq_id : ℕ

-- `relinow_state_priority_send`; the last argument and the last result are what its three
-- out-pointers hold.
unfoldable pub priority_send : State → ℕ → ℕ → Sent → StateErr × State × Sent
priority_send state peer_index channel_id out =
    elim (find_channel_mut state peer_index channel_id) [
      | none ↦ (not_found, state, out)
      | some i ↦
          let channel = channel_at state peer_index i in
          if not (channel.mode == mode_priority) then (wrong_mode, state, out) else (
            ok,
            put_channel state peer_index i (record channel {
              next_tx_seq = seq_next channel.next_tx_seq;
              has_inflight = true;
              inflight_seq = channel.next_tx_seq;
            }),
            record {
              seq_id = channel.next_tx_seq;
              replaced = channel.has_inflight;
              replaced_seq_id = if channel.has_inflight then channel.inflight_seq else 0;
            },
          )
    ]

-- `relinow_state_priority_on_data`; the last argument and the last result are
-- `*out_should_deliver`.
unfoldable pub priority_on_data : State → ℕ → ℕ → ℕ → Bool → StateErr × State × Bool
priority_on_data state peer_index channel_id seq_id out_should_deliver =
    elim (find_channel_mut state peer_index channel_id) [
      | none ↦ (not_found, state, out_should_deliver)
      | some i ↦
          let channel = channel_at state peer_index i in
          if not (channel.mode == mode_priority)
          then (wrong_mode, state, out_should_deliver)
          else if not channel.has_rx_seq || is_seq_newer seq_id channel.expected_rx_seq
          then (
            ok,
            put_channel state peer_index i
                (record channel { has_rx_seq = true; expected_rx_seq = seq_id }),
            true,
          )
          else (ok, state, false)
    ]
