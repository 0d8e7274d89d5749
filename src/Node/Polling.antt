-- ===== src/Node/Polling.antt =====
-- `relinow_poll`: timeouts of the reassembly, the heartbeat and the retransmissions.
pub mod SentWhole
pub mod SharedCache
pub mod InFlight
pub mod Faithful
pub mod Resending
pub mod Handling
pub mod OwnMessage
pub mod Runs
pub mod Started
mod Tests
use relinow.Prelude.{ℕ, none, some, false, ◌&&◌, ltb, if◌then◌else◌, get_or, sub32}
use relinow.Packet.{mode_reliable, mode_unreliable, type_ping, heartbeat_channel}
use relinow.Reliable.{tx_none, tx_new, tx_retransmit, tx_failed}
use relinow.State.Heartbeat.{poll_heartbeat}
use relinow.State.Scheduler.{scheduler_next, Scheduled}
use relinow.Node.Types.{EspErr, esp_ok, peer_timeout, Radio, World, zero_cached, emit}
use relinow.Node.Caches.{tx_cache_find, tx_cache_remove, reassembly_reset}
use relinow.Node.Frames.{send_frame}
use relinow.Node.Setup.{is_state_ok}
use relinow.Node.Sending.{unset_tx, with_state, report, data_frame, is_esp_ok}
use relinow.Node.Receiving.{with_node, empty_frame}

-- The first block: an unfinished reassembly runs out.
unfoldable pub poll_reassembly : World → ℕ → World
poll_reassembly w now_ms =
    if w.node.reassembly_active
      && ltb w.node.fragment_timeout_ms (sub32 now_ms w.node.reassembly_start_ms)
    then with_node w (reassembly_reset w.node)
    else w

-- The second block: the heartbeat.
unfoldable pub poll_beat : Radio → World → ℕ → World
poll_beat radio w now_ms =
    let (rc, state, beat) =
      poll_heartbeat w.node.state w.node.peer_index now_ms
        (record { should_ping = false; peer_timeout = false }) in
    let w' = with_state w state in
    if beat.peer_timeout && w'.node.on_peer_timeout
    then emit w' (peer_timeout w'.node.peer_mac)
    else if beat.should_ping
    then (send_frame radio w' (empty_frame mode_unreliable heartbeat_channel type_ping 0)).1
    else w'

-- A frame is sent again from the transmission cache, if it is there.
unfoldable pub retransmit : Radio → World → Scheduled → EspErr × World
retransmit radio w scheduled = elim (tx_cache_find w.node scheduled.tx.seq_id) [
  | none ↦ (esp_ok, w)
  | some i ↦
      let slot = get_or w.node.tx_cache i zero_cached in
      send_frame radio w (
        data_frame mode_reliable scheduled.channel_id slot.flags slot.seq_id slot.payload
          slot.payload_len)
]

-- What follows an event of the scheduler.
unfoldable pub handle_event : Radio → World → Scheduled → EspErr × World
unfolding retransmit
handle_event radio w scheduled = elim scheduled.tx.event [
  | tx_none ↦ (esp_ok, w)
  | tx_new ↦ (esp_ok, report w tx_new scheduled.tx.seq_id)
  | tx_retransmit ↦
      let (erc, sent) = retransmit radio w scheduled in
      if is_esp_ok erc then (esp_ok, report sent tx_retransmit scheduled.tx.seq_id) else (erc, sent)
  | tx_failed ↦ (
    esp_ok,
    report (with_node w (tx_cache_remove w.node scheduled.tx.seq_id)) tx_failed scheduled.tx.seq_id,
  )
]

-- The third block: the scheduler.
unfoldable pub poll_scheduler : Radio → World → ℕ → EspErr × World
unfolding handle_event
poll_scheduler radio w now_ms =
    let (src, state, scheduled) =
      scheduler_next w.node.state w.node.peer_index now_ms
        (record { channel_id = 0; tx = unset_tx }) unset_tx in
    let w' = with_state w state in
    if is_state_ok src then handle_event radio w' scheduled else (esp_ok, w')

-- `relinow_poll`
unfoldable pub poll : Radio → World → ℕ → EspErr × World
unfolding poll_reassembly poll_beat poll_scheduler
poll radio w now_ms =
    poll_scheduler radio (poll_beat radio (poll_reassembly w now_ms) now_ms) now_ms
