-- ===== src/State/Heartbeat.antt =====
-- The heartbeat of a peer: `relinow_state_configure_heartbeat`, `relinow_state_poll_heartbeat` and
-- `relinow_state_on_pong`.
pub mod Liveness
use relinow.Prelude.{ℕ, ◌+◌, Bool, true, false, not, ◌||◌, ◌==◌, leb, if◌then◌else◌, u8, sub32}
use relinow.State.Types.{StateErr, ok, invalid_arg, not_found, Peer, State, max_peers}
use relinow.State.Lookup.{peer_at, put_peer}

-- `relinow_state_configure_heartbeat`
unfoldable pub configure_heartbeat : State → ℕ → ℕ → ℕ → StateErr × State
configure_heartbeat state peer_index interval_ms miss_count_max =
    if leb max_peers peer_index
    then (invalid_arg, state)
    else if not (peer_at state peer_index).in_use
    then (not_found, state)
    else (
      ok,
      put_peer state peer_index (record (peer_at state peer_index) {
        heartbeat_interval_ms = interval_ms;
        heartbeat_miss_count_max = miss_count_max;
        missed_pongs = 0;
        last_ping_sent_ms = 0;
      }),
    )

-- What `relinow_state_poll_heartbeat` stores through its two out-pointers.
pub record Beat : Type 0 where
  pub should_ping : Bool
  pub peer_timeout : Bool

-- `relinow_state_poll_heartbeat`, past the argument test; the heartbeat is off at interval 0.
unfoldable pub beat : Peer → ℕ → Peer × Beat
beat peer now_ms =
    if not peer.in_use || peer.heartbeat_interval_ms == 0
    then (peer, record { should_ping = false; peer_timeout = false })
    else if leb peer.heartbeat_interval_ms (sub32 now_ms peer.last_ping_sent_ms)
    then (if leb peer.heartbeat_miss_count_max peer.missed_pongs
        then (peer, record { should_ping = false; peer_timeout = true })
        else (
          record peer { missed_pongs = u8 (peer.missed_pongs + 1); last_ping_sent_ms = now_ms },
          record { should_ping = true; peer_timeout = false },
        ))
    else (peer, record { should_ping = false; peer_timeout = false })

-- `relinow_state_poll_heartbeat`; the last argument and the last result are what the out-pointers
-- hold.
unfoldable pub poll_heartbeat : State → ℕ → ℕ → Beat → StateErr × State × Beat
unfolding beat
poll_heartbeat state peer_index now_ms out =
    if leb max_peers peer_index
    then (invalid_arg, state, out)
    else let (peer, result) = beat (peer_at state peer_index) now_ms in
      (ok, put_peer state peer_index peer, result)

-- `relinow_state_on_pong`
unfoldable pub on_pong : State → ℕ → StateErr × State
on_pong state peer_index =
    if leb max_peers peer_index
    then (invalid_arg, state)
    else if not (peer_at state peer_index).in_use
    then (not_found, state)
    else (ok, put_peer state peer_index (record (peer_at state peer_index) { missed_pongs = 0 }))
