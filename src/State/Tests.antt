-- ===== src/State/Tests.antt =====
-- The table of peers and channels at concrete values.
use relinow.Prelude.{
  ℕ, ◌+◌, ◌%◌, ◌≡◌, refl, List, [], ◌∷◌, some, true, false, arith, replicate, find_index,
}
use relinow.Packet.{mode_reliable, mode_unreliable, mode_priority, seq_next, is_seq_newer}
use relinow.Reliable
use relinow.Reliable.{Ctx, RxResult, rx_dropped, rx_duplicate, default_config, on_data}
use relinow.Reliable.Receiver.{IsReceiver}
use relinow.Reliable.Delivery.{on_data_lem}
use relinow.Reliable.Invariant.{init-IsValid}
use relinow.State.Types.{ok, queue_full, Channel, Peer, State, zero_channel, zero_peer}
use relinow.State.Lookup.{channel_at, put_channel, find_channel_mut}
use relinow.State.Lookup.{get_channel_mode}
use relinow.State.Peers.{open_channel, open_new_channel, mode_supported}
use relinow.State.Peers.Opening.{get_channel_mode-open_channel}
use relinow.State.Queues.{clear_inflight, queued_slot}
use relinow.State.ReliableMode.{reliable_on_data}
use relinow.State.ReliableMode.RxQueue.{IsRxQueueFull, full_queue_loses_frame}
use relinow.State.OtherModes.{Sent, priority_send, priority_on_data}
use relinow.State.OtherModes.Losses.{count_all, following, count_all-following}
use relinow.State.OtherModes.Latest.{
  IsNewerEach, last_or, priority_all, priority_all_newer, priority_send_replaces,
}
use relinow.State.Heartbeat.{beat}
use relinow.State.Heartbeat.Liveness.{beat_all, silent_timeout}

abbrev some_mac : List ℕ
some_mac = 1 ∷ 2 ∷ 3 ∷ 4 ∷ 5 ∷ 6 ∷ []

-- A table with one peer, which has the one channel.
abbrev with_channel : Channel → State
with_channel channel = record {
  peers =
      record zero_peer {
        in_use = true;
        mac = some_mac;
        channels = channel ∷ replicate 15 zero_channel;
      }
      ∷ replicate 19 zero_peer;
}

-- A RELIABLE channel 7 that has received 5 and whose receive queue is full.
abbrev full_channel : Channel
full_channel = record zero_channel {
  in_use = true;
  channel_id = 7;
  mode = mode_reliable;
  reliable = (on_data (Reliable.init (some default_config)) 5).1;
  rx_queue = replicate 8 (queued_slot 0);
}

full_channel-IsReceiver : IsReceiver full_channel.reliable
full_channel-IsReceiver =
    (on_data_lem (Reliable.init (some default_config)) 5
      (init-IsValid default_config (omega arith) (omega arith) (omega arith)).receiver
      (omega arith)).1.receiver

abbrev no_result : RxResult
no_result = record { status = rx_dropped; delivered = []; ack_id = 0 }

full_queue_loses_frame_example :
    let state = with_channel full_channel in
    let ctx = full_channel.reliable in
    let (rc, state', result) = reliable_on_data state 0 7 ctx.expected_rx_seq no_result in
    let (rc', state'', again) = reliable_on_data state' 0 7 ctx.expected_rx_seq no_result in
    (rc ≡ queue_full)
    × (rc' ≡ ok)
    × (again.status ≡ rx_duplicate)
    × (again.delivered ≡ [])
    × (again.ack_id ≡ result.ack_id)
    × IsRxQueueFull state'' 0 0
unfolding find_channel_mut find_index on_data Reliable.init
full_queue_loses_frame_example =
    full_queue_loses_frame (with_channel full_channel) 0 7 0 no_result no_result refl refl refl
      full_channel-IsReceiver refl

-- A PRIORITY channel 3 that has seen 10 and sends 65535 next.
abbrev latest_channel : Channel
latest_channel = record zero_channel {
  in_use = true;
  channel_id = 3;
  mode = mode_priority;
  next_tx_seq = 65535;
  has_rx_seq = true;
  expected_rx_seq = 10;
}

-- 9 and the second 12 are late.
latest_test :
    (priority_all (with_channel latest_channel) 0 3 (12 ∷ 9 ∷ 12 ∷ 13 ∷ [])).1 ≡ 12 ∷ 13 ∷ []
unfolding priority_all priority_on_data find_channel_mut find_index put_channel is_seq_newer
latest_test = refl

priority_all_newer_example :
    let (last, delivered) =
      priority_all (with_channel latest_channel) 0 3 (12 ∷ 9 ∷ 12 ∷ 13 ∷ []) in
    IsNewerEach 10 delivered × ((channel_at last 0 0).expected_rx_seq ≡ last_or 10 delivered)
unfolding find_channel_mut find_index
priority_all_newer_example =
    priority_all_newer (with_channel latest_channel) 0 3 0 (12 ∷ 9 ∷ 12 ∷ 13 ∷ []) refl refl refl

abbrev nothing_sent : Sent
nothing_sent = record { seq_id = 0; replaced = false; replaced_seq_id = 0 }

priority_send_replaces_example :
    let (rc, state', first) = priority_send (with_channel latest_channel) 0 3 nothing_sent in
    let (rc', state'', second) = priority_send state' 0 3 nothing_sent in
    (rc ≡ ok)
    × (rc' ≡ ok)
    × (second.replaced ≡ true)
    × (second.replaced_seq_id ≡ first.seq_id)
    × (second.seq_id ≡ seq_next first.seq_id)
    × (clear_inflight state'' 0 3 first.seq_id ≡ (ok, state''))
    × (channel_at (clear_inflight state'' 0 3 second.seq_id).1 0 0
        ≡ record (channel_at state'' 0 0) { has_inflight = false })
unfolding find_channel_mut find_index
priority_send_replaces_example =
    priority_send_replaces (with_channel latest_channel) 0 3 0 nothing_sent nothing_sent refl refl
      (omega arith)

-- An UNRELIABLE channel that has received 65534.
abbrev counting_channel : Channel
counting_channel = record zero_channel {
  in_use = true;
  mode = mode_unreliable;
  has_rx_seq = true;
  expected_rx_seq = 65534;
}

count_all-following_example :
    let channel' = count_all counting_channel (following 65534 5) in
    (channel'.stats.total_lost % 4294967296 ≡ (0 + 5) % 4294967296)
    × (channel'.stats.total_rx % 4294967296 ≡ (0 + 5) % 4294967296)
count_all-following_example = count_all-following 5 counting_channel refl (omega arith)

-- A peer that is pinged every second, and times out after two pings without an answer.
abbrev quiet_peer : Peer
quiet_peer = record zero_peer {
  in_use = true;
  heartbeat_interval_ms = 1000;
  heartbeat_miss_count_max = 2;
}

silent_timeout_example :
    (beat (beat_all quiet_peer (1000 ∷ 2500 ∷ [])) 3500).1
    ≡ record { should_ping = false; peer_timeout = true }
silent_timeout_example =
    silent_timeout quiet_peer (1000 ∷ 2500 ∷ []) 3500 refl (omega arith) (omega arith) (omega arith)
      (omega arith)

get_channel_mode-open_channel_example :
    get_channel_mode (open_channel (with_channel latest_channel) 0 9 mode_reliable 5).1 0 9 0
    ≡ (ok, mode_reliable)
unfolding open_channel open_new_channel mode_supported find_index
get_channel_mode-open_channel_example =
    get_channel_mode-open_channel (with_channel latest_channel) 0 9 mode_reliable 5 0 refl
