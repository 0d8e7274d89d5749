-- ===== src/Examples/Benchmark/Tests.antt =====
-- The benchmark at concrete values.
use relinow.Prelude.{◌≡◌, refl, [], ◌∷◌, true, false, arith, replicate, find_index, count}
use relinow.Packet.{mode_reliable}
use relinow.Reliable
use relinow.Reliable.{default_config}
use relinow.Reliable.Types.{TxResult, tx_none}
use relinow.State
use relinow.State.Types.{State, not_found, zero_channel, zero_peer}
use relinow.State.Lookup.{channel_at, find_channel_mut, put_channel, get_channel_mode}
use relinow.State.ReliableMode.{set_reliable_config}
use relinow.State.ReliableMode.KeptReceiving.{set_reliable_config-IsKept}
use relinow.State.ReliableMode.History.{sending, run, IsHeld, IsKept-IsHeld}
use relinow.State.Peers.{
  add_peer, find_peer, add_new_peer, open_channel, open_new_channel, new_channel, mode_supported,
  mac_equal,
}
use relinow.State.Scheduler.{scheduler_next}
use relinow.State.Heartbeat.{poll_heartbeat}
use relinow.State.Queues.{mark_inflight, enqueue_tx}
use relinow.State.ReliableMode.{reliable_send, after_send, note_sent, reliable_poll}
use relinow.Reliable.Slots.{used_pending}
use relinow.Packet.{encode_header, validate_header, header_bytes}
use relinow.Node.Types.{esp_ok, Radio, World, zero_node}
use relinow.Node.Caches.{tx_cache_alloc, find_channel_state}
use relinow.Node.Frames.{send_frame, send_encoded}
use relinow.Node.Sending.{send_reliable, send_whole, transmit}
use relinow.Node.Polling.{poll, poll_reassembly, poll_beat, poll_scheduler}
use relinow.Examples.Benchmark.{
  Bench, start_benchmark, benchmark_round, send_next, benchmark_channel, benchmark_config, inflight,
  mac_less,
}
use relinow.Examples.Benchmark.Inflight.{run-inflight}

-- 02:00:00:00:00:01 sends to 02:00:00:00:01:00.
lower_sends_test : mac_less (2 ∷ 0 ∷ 0 ∷ 0 ∷ 0 ∷ 1 ∷ []) (2 ∷ 0 ∷ 0 ∷ 0 ∷ 1 ∷ 0 ∷ []) ≡ true
unfolding mac_less
lower_sends_test = refl

-- A table with one peer, whose channel 10 is open in RELIABLE mode at place 0.
abbrev open_table : State
open_table = record {
  peers =
      record zero_peer {
        in_use = true;
        channels =
            record zero_channel { in_use = true; channel_id = 10; mode = mode_reliable }
            ∷ replicate 15 zero_channel;
      }
      ∷ replicate 19 zero_peer;
}

abbrev tuned : State
tuned = (set_reliable_config open_table 0 10 benchmark_config).1

tuned-IsHeld : IsHeld tuned 0 10 0
unfolding find_channel_mut find_index
tuned-IsHeld = IsKept-IsHeld open_table 0 10 0 tuned refl (
    set_reliable_config-IsKept open_table 0 10 0 refl refl benchmark_config (omega arith)
      (omega arith) (omega arith))

abbrev no_event : TxResult
no_event = record { event = tx_none; seq_id = 0 }

-- Two messages are in flight, and the sender sees none.
run-inflight_example :
    inflight (run 0 benchmark_channel tuned (sending 10 no_event ∷ sending 11 no_event ∷ [])) 0
    ≡ inflight tuned 0
run-inflight_example =
    run-inflight 0 0 (λ e. absurd (omega (arith, e)))
      (sending 10 no_event ∷ sending 11 no_event ∷ []) tuned (tt, (tt, tt)) tuned-IsHeld

nothing_seen_test : inflight tuned 0 ≡ false
unfolding inflight set_reliable_config find_channel_mut find_index put_channel
nothing_seen_test = refl

abbrev good_radio : Radio
good_radio log mac frame = esp_ok

-- A device that has discovered its peer and is the sender.
abbrev sender : Bench
sender = record {
  world = record { node = record zero_node { max_payload = 241 }; log = [] };
  my_mac = replicate 6 1;
  peer_mac = replicate 6 2;
  peer_discovered = true;
  am_i_sender = true;
}

abbrev started : World
started = (start_benchmark sender 0).1

-- The loop ends as soon as the last message is accepted, with a frame in flight.
ends_early_test :
    let (w, sent, done) = benchmark_round good_radio started 0 999 5 in
    (sent ≡ 1000) × (done ≡ true) × (used_pending (channel_at w.node.state 0 0).reliable ≡ 1)
unfolding start_benchmark add_peer find_peer add_new_peer open_channel open_new_channel new_channel
    mode_supported mac_equal find_index put_channel find_channel_mut set_reliable_config
    benchmark_round send_next poll poll_reassembly poll_beat poll_scheduler send_reliable send_whole
    get_channel_mode find_channel_state count reliable_send after_send note_sent mark_inflight
    enqueue_tx Reliable.send Reliable.init tx_cache_alloc transmit send_frame send_encoded
    encode_header validate_header header_bytes inflight scheduler_next poll_heartbeat
    State.Types.init reliable_poll Reliable.poll
ends_early_test = (refl, refl, refl)
