-- ===== src/State/Scheduler.antt =====
-- `relinow_state_scheduler_next`: one round over the channels of a peer, from the one after the
-- last that had an event.
pub mod Rounds
pub mod Fairness
pub mod Only
pub mod Numbers
mod Tests
use relinow.Prelude.{ℕ, suc, ◌+◌, ◌%◌, Bool, true, false, not, ◌&&◌, ◌==◌, leb, if◌then◌else◌}
use relinow.Packet.{mode_reliable}
use relinow.Reliable.{TxEvent, TxResult, tx_none}
use relinow.State.Types.{
  StateErr, ok, invalid_arg, not_found, Channel, State, max_peers, max_channels_per_peer,
}
use relinow.State.Lookup.{peer_at, channel_at, put_peer}
use relinow.State.ReliableMode.{reliable_poll}

abbrev pub is_none : TxEvent → Bool
is_none tx_none = true
is_none _ = false

-- `idx` in the round's iteration `count`.
abbrev pub polled_idx : State → ℕ → ℕ → ℕ
polled_idx state peer_index count =
    ((peer_at state peer_index).last_polled_channel_idx + 1 + count) % max_channels_per_peer

abbrev pub is_polled : Channel → Bool
is_polled channel = channel.in_use && channel.mode == mode_reliable

-- What the round stores: the channel's number and the result.
pub record Scheduled : Type 0 where
  pub channel_id : ℕ
  pub tx : TxResult

-- The loop, with the iterations left as fuel; `out` is what the out-pointers hold, and `tx_res` the
-- local of that name, which is not initialised before the first poll.
unfoldable pub scheduler_loop :
    ℕ → ℕ → State → ℕ → ℕ → Scheduled → TxResult → StateErr × State × Scheduled
scheduler_loop ℕ.zero count state peer_index now_ms out tx_res = (ok, state, out)
scheduler_loop (suc rounds) count state peer_index now_ms out tx_res =
    let idx = polled_idx state peer_index count in
    let channel = channel_at state peer_index idx in
    let (rc, polled, tx) = reliable_poll state peer_index channel.channel_id now_ms tx_res in
    let skipped = scheduler_loop rounds (count + 1) state peer_index now_ms out tx_res in
    let quiet = scheduler_loop rounds (count + 1) polled peer_index now_ms out tx in
    elim (is_polled channel) [
      | false ↦ skipped
      | true ↦ elim (is_none tx.event) [
        | true ↦ quiet
        | false ↦ (
          ok,
          put_peer polled peer_index
              (record (peer_at polled peer_index) { last_polled_channel_idx = idx }),
          record { channel_id = (channel_at polled peer_index idx).channel_id; tx = tx },
        )
      ]
    ]

-- `relinow_state_scheduler_next`; `stale` is what the uninitialised `tx_res` holds.
unfoldable pub scheduler_next : State → ℕ → ℕ → Scheduled → TxResult → StateErr × State × Scheduled
unfolding scheduler_loop
scheduler_next state peer_index now_ms out stale =
    if leb max_peers peer_index
    then (invalid_arg, state, out)
    else if not (peer_at state peer_index).in_use
    then (not_found, state, out)
    else scheduler_loop max_channels_per_peer 0 state peer_index now_ms
        (record out { tx = record out.tx { event = tx_none } }) stale
