-- ===== src/Node/Tests.antt =====
-- A node at concrete values.
use relinow.Prelude.{
  ◌<◌, ◌≡◌, ◌≢◌, ◌⊎◌, ◌≤◌, refl, [], ◌∷◌, ◌++◌, some, arith, find_index, replicate, count, true,
}
use relinow.Packet
use relinow.Packet.{
  Header, mode_reliable, type_data, type_ack, validate_header, decode_header, header_bytes,
}
use relinow.Packet.RoundTrip.{IsHeader}
use relinow.State
use relinow.State.Lookup.{put_channel, find_channel_mut}
use relinow.State.Peers.{
  add_peer, find_peer, add_new_peer, open_new_channel, new_channel, mode_supported, mac_equal,
}
use relinow.Reliable
use relinow.State.ReliableMode.{
  set_reliable_config, reliable_on_data, note_received, note_expected, enqueue_delivered,
}
use relinow.State.Queues.{enqueue_rx}
use relinow.State.Heartbeat.{configure_heartbeat}
use relinow.Node.Types.{
  max_payload_size, frame_overrun, esp_ok, invalid_arg, out_of_fuel, transmitted, message, Radio,
  NodeConfig, World, emit, default_node_config, zero_node,
}
use relinow.Node.Setup.{init, init_channel, init_reliable, init_heartbeat}
use relinow.Node.Frames.{Outgoing, frame_header, send_frame}
use relinow.Node.Frames.Wire.{send_frame_lem}
use relinow.Node.Sending.{fragment_count, send_reliable, with_state, cached}
use relinow.Node.Caches.{rx_cache_find, rx_cache_alloc}
use relinow.Node.Receiving.{receive_data, empty_frame, with_node}
use relinow.Node.Receiving.Reassembly.{fragments, deliver_fragments, fragments_reassemble}
use relinow.Node.Receiving.Losses.{answer, full_cache_loses_frame}
use relinow.Node.Sending.Fragments.{fragment_count_wraps}
use relinow.Node.Sending.{send_split, send_fragments, send_fragment, transmit}
use relinow.Node.Sending.Content.{sent_bytes, send_reliable_sends}
use relinow.Node.Caches.{
  find_channel_state, count_free_pending, count_free_tx_cache, tx_cache_alloc, reassembly_reset,
  fragment_tx_track,
}
use relinow.Node.Frames.{send_encoded}
use relinow.State.Lookup.{get_channel_mode}
use relinow.State.ReliableMode.{reliable_send, after_send, note_sent}
use relinow.State.Queues.{mark_inflight, enqueue_tx}
use relinow.Packet.{encode_header}
use relinow.Node.Sending.Fuel.{IsRadio, send_reliable_ends}

-- A radio that takes every frame.
abbrev good_radio : Radio
good_radio log mac frame = esp_ok

good_radio_answers : IsRadio good_radio
good_radio_answers log mac frame = ground arith

-- A node with the default configuration but a largest payload of 4 bytes.
abbrev small_config : NodeConfig
small_config = record default_node_config { max_payload = 4 }

abbrev world : World
world = record { node = (init zero_node small_config).1; log = [] }

small_payload : world.node.max_payload ≡ 4
unfolding init init_channel init_reliable init_heartbeat State.Types.init add_peer find_peer
    add_new_peer State.Peers.open_channel open_new_channel new_channel mode_supported mac_equal
    find_index put_channel find_channel_mut set_reliable_config configure_heartbeat
small_payload = refl

abbrev two_bytes : Outgoing
two_bytes = record {
  mode = mode_reliable;
  channel_id = 1;
  type = type_data;
  flags = 0;
  seq_id = 300;
  ack_id = 0;
  payload = some (170 ∷ 187 ∷ []);
  payload_len = 2;
}

two_bytes-IsHeader : IsHeader (frame_header two_bytes)
two_bytes-IsHeader = record {
  version = omega arith;
  mode = omega arith;
  type = omega arith;
  flags = omega arith;
  seq_id = omega arith;
  ack_id = omega arith;
  channel_id = omega arith;
  payload_len = omega arith;
}

send_frame_lem_example :
    let (erc, w') = send_frame good_radio world two_bytes in
    let frame = header_bytes (frame_header two_bytes) ++ (170 ∷ 187 ∷ []) in
    ((validate_header (frame_header two_bytes) world.node.max_payload ≡ Packet.ok)
      × (two_bytes.payload_len ≤ max_payload_size)
      × (erc ≡ good_radio world.log world.node.peer_mac frame)
      × (w' ≡ emit world (transmitted world.node.peer_mac frame erc))
      × (decode_header frame world.node.max_payload (frame_header two_bytes)
          ≡ (Packet.ok, frame_header two_bytes)))
    ⊎ ((validate_header (frame_header two_bytes) world.node.max_payload ≡ Packet.ok)
        × (max_payload_size < two_bytes.payload_len)
        × (max_payload_size < world.node.max_payload)
        × (erc ≡ frame_overrun))
    ⊎ ((validate_header (frame_header two_bytes) world.node.max_payload ≢ Packet.ok)
        × (erc ≡ invalid_arg)
        × (w' ≡ world))
send_frame_lem_example =
    send_frame_lem good_radio world two_bytes (170 ∷ 187 ∷ []) (frame_header two_bytes) refl refl
      two_bytes-IsHeader

-- A payload of 62000 bytes needs 258 frames.
fragment_count_wraps_example : fragment_count 62000 241 ≤ 16
fragment_count_wraps_example = fragment_count_wraps 62000 (omega arith) (omega arith)

wrapped_test : fragment_count 62000 241 ≡ 2
unfolding fragment_count
wrapped_test = refl

send_reliable_ends_example :
    (send_reliable good_radio world 1 (1 ∷ 2 ∷ 3 ∷ 4 ∷ 5 ∷ 6 ∷ []) 10).0 ≢ out_of_fuel
send_reliable_ends_example =
    send_reliable_ends good_radio world 1 (1 ∷ 2 ∷ 3 ∷ 4 ∷ 5 ∷ 6 ∷ []) 10 good_radio_answers
      (omega (arith, small_payload))

-- A node whose receive cache is full of repeats of 100, and DATA frame 5 for it.
abbrev full_node : World
full_node = record world { node = record world.node { rx_cache = replicate 9 (cached 100 0 []) } }

abbrev data_5 : Header
data_5 = record (frame_header two_bytes) { seq_id = 5 }

full_cache_loses_frame_example :
    let (_, state, rx) = answer full_node data_5 in
    receive_data good_radio full_node (replicate 6 0) data_5 (170 ∷ 187 ∷ []) 20 ≡ (
      esp_ok,
      (send_frame good_radio
          (with_state full_node state)
          (empty_frame mode_reliable 1 type_ack rx.ack_id)).1,
    )
unfolding init init_channel init_reliable init_heartbeat State.Types.init add_peer find_peer
    add_new_peer State.Peers.open_channel open_new_channel new_channel mode_supported mac_equal
    find_index put_channel find_channel_mut set_reliable_config configure_heartbeat rx_cache_find
    rx_cache_alloc reliable_on_data note_received note_expected enqueue_delivered enqueue_rx
    Reliable.on_data Reliable.init
full_cache_loses_frame_example =
    full_cache_loses_frame good_radio full_node (replicate 6 0) data_5 (170 ∷ 187 ∷ []) 20 refl refl
      refl refl

-- Six bytes in two fragments.
send_reliable_sends_example :
    sent_bytes (send_reliable good_radio world 1 (1 ∷ 2 ∷ 3 ∷ 4 ∷ 5 ∷ 6 ∷ []) 10).1.log
    ≡ sent_bytes world.log ++ (1 ∷ 2 ∷ 3 ∷ 4 ∷ 5 ∷ 6 ∷ [])
unfolding init init_channel init_reliable init_heartbeat State.Types.init add_peer find_peer
    add_new_peer State.Peers.open_channel open_new_channel new_channel mode_supported mac_equal
    find_index put_channel find_channel_mut set_reliable_config configure_heartbeat send_reliable
    send_split send_fragments send_fragment fragment_count get_channel_mode find_channel_state
    count_free_pending count_free_tx_cache count reliable_send after_send note_sent mark_inflight
    enqueue_tx Reliable.send Reliable.init tx_cache_alloc fragment_tx_track transmit send_frame
    send_encoded encode_header validate_header header_bytes
send_reliable_sends_example =
    send_reliable_sends good_radio world 1 (1 ∷ 2 ∷ 3 ∷ 4 ∷ 5 ∷ 6 ∷ []) 10 refl

-- Three fragments, of which the second wraps the sequence numbers.
fragments_reassemble_example :
    let listening = record full_node { node = record zero_node { on_message = true } } in
    deliver_fragments listening
      (replicate 6 0)
      1
      (fragments ((65535, 1 ∷ 2 ∷ []) ∷ (0, 3 ∷ 4 ∷ []) ∷ []) 1 (5 ∷ []))
      20
    ≡ with_node
        (emit listening (message (replicate 6 0) 1 65535 (1 ∷ 2 ∷ 3 ∷ 4 ∷ 5 ∷ [])))
        (reassembly_reset listening.node)
fragments_reassemble_example =
    fragments_reassemble (record full_node { node = record zero_node { on_message = true } })
      (replicate 6 0) 1 20 65535 1 (1 ∷ 2 ∷ []) (5 ∷ []) ((0, 3 ∷ 4 ∷ []) ∷ []) refl refl
      (omega arith)
