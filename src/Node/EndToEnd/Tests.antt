-- ===== src/Node/EndToEnd/Tests.antt =====
-- Two nodes with an UNRELIABLE channel 2 between them, and two with a RELIABLE channel 7.
use relinow.Prelude.{ℕ, ◌≡◌, refl, List, [], ◌∷◌, ◌++◌, true, arith, replicate, find_index, count}
use relinow.Packet.{mode_unreliable, mode_reliable, seq_next, header_bytes}
use relinow.Reliable.{default_config, init}
use relinow.State.Types.{State, zero_channel, zero_peer}
use relinow.State.Lookup.{put_channel, channel_at, find_channel_mut, get_channel_mode}
use relinow.State.Peers.{mac_equal}
use relinow.Node.Types.{esp_ok, transmitted, message, Radio, World, zero_node}
use relinow.State.ReliableMode.{set_reliable_config}
use relinow.State.ReliableMode.KeptReceiving.{set_reliable_config-IsKept}
use relinow.State.ReliableMode.History.{IsHeld, IsKept-IsHeld}
use relinow.Node.Caches.{tx_cache_alloc, tx_cache_find, rx_cache_alloc, rx_cache_find}
use relinow.Node.EndToEnd.Dispatch.{IsClear}
use relinow.Node.EndToEnd.Answering.{IsExpecting}
use relinow.Node.EndToEnd.Headers.{ack_header}
use relinow.Node.EndToEnd.Confirmed.{IsDelivered, message_frame, on_receive-send_reliable}
use relinow.Node.Frames.{frame_header}
use relinow.Node.Sending.{send_reliable, send_unreliable}
use relinow.Node.Receiving.{on_receive}
use relinow.Node.EndToEnd.{unreliable_frame, IsListening, on_receive-send_unreliable}

abbrev good_radio : Radio
good_radio log mac frame = esp_ok

abbrev no_mac : List ℕ
no_mac = replicate 6 0

abbrev three_bytes : List ℕ
three_bytes = 7 ∷ 8 ∷ 9 ∷ []

-- A node whose peer has the address of zeros.
abbrev listening : World
listening = record {
  node = record zero_node {
    state = record {
      peers =
          record zero_peer {
            in_use = true;
            channels =
                record zero_channel { in_use = true; channel_id = 2; mode = mode_unreliable }
                ∷ replicate 15 zero_channel;
          }
          ∷ replicate 19 zero_peer;
    };
    max_payload = 241;
    on_message = true;
  };
  log = [];
}

listening-IsListening : IsListening listening no_mac 2 3
unfolding mac_equal get_channel_mode find_index
listening-IsListening = record {
  known = refl;
  opened = refl;
  on_message = refl;
  room = omega arith;
}

on_receive-send_unreliable_example :
    let payload = three_bytes in
    let frame = header_bytes (frame_header (unreliable_frame 2 0 payload)) ++ payload in
    let (erc, sender') = send_unreliable good_radio listening 2 payload in
    let (rc, receiver') = on_receive good_radio listening no_mac frame 50 in
    (erc ≡ esp_ok)
    × (sender'.log ≡ transmitted no_mac frame erc ∷ [])
    × (channel_at sender'.node.state sender'.node.peer_index 0
        ≡ record (channel_at listening.node.state 0 0) { next_tx_seq = seq_next 0 })
    × (rc ≡ esp_ok)
    × (receiver'.log ≡ message no_mac 2 0 payload ∷ [])
unfolding find_channel_mut find_index
on_receive-send_unreliable_example =
    on_receive-send_unreliable good_radio good_radio listening listening 2 0 three_bytes no_mac 50
      refl refl (omega arith) (omega arith) (omega arith) (omega arith) (omega arith)
      listening-IsListening

-- A table with one peer, whose channel 7 is open in RELIABLE mode.
abbrev open_table : State
open_table = record {
  peers =
      record zero_peer {
        in_use = true;
        channels =
            record zero_channel { in_use = true; channel_id = 7; mode = mode_reliable }
            ∷ replicate 15 zero_channel;
      }
      ∷ replicate 19 zero_peer;
}

abbrev reliable_table : State
reliable_table = (set_reliable_config open_table 0 7 default_config).1

reliable_table-IsHeld : IsHeld reliable_table 0 7 0
unfolding find_channel_mut find_index
reliable_table-IsHeld = IsKept-IsHeld open_table 0 7 0 reliable_table refl (
    set_reliable_config-IsKept open_table 0 7 0 refl refl default_config (omega arith) (omega arith)
      (omega arith))

abbrev reliable_node : World
reliable_node = record {
  node = record zero_node { state = reliable_table; max_payload = 241; on_message = true };
  log = [];
}

reliable_node-IsClear : IsClear reliable_node 7 0 three_bytes
unfolding tx_cache_alloc tx_cache_find find_index set_reliable_config find_channel_mut put_channel
    count init
reliable_node-IsClear = record {
  cache_slot = 0;
  held = reliable_table-IsHeld;
  room = omega arith;
  cache_free = refl;
  absent = refl;
  idle = refl;
  some_bytes = omega arith;
  short = omega arith;
  fits = omega arith;
}

reliable_node-IsExpecting : IsExpecting reliable_node no_mac 7 0 3 0 0
unfolding rx_cache_alloc rx_cache_find find_index set_reliable_config find_channel_mut put_channel
    mac_equal init
reliable_node-IsExpecting = record {
  cache_slot = 0;
  known = refl;
  found = refl;
  mode = refl;
  alone = record { small = omega arith; due = λ e. absurd (ground arith); alone = refl };
  queue_free = refl;
  absent = refl;
  cache_free = refl;
  on_message = refl;
  room = omega arith;
}

on_receive-send_reliable_example :
    let frame = message_frame 7 0 three_bytes in
    let sending = send_reliable good_radio reliable_node 7 three_bytes 10 in
    IsDelivered good_radio good_radio reliable_node reliable_node no_mac 7 0 0 0 0 three_bytes
      sending
      (on_receive good_radio reliable_node no_mac frame 12)
      (on_receive good_radio sending.1 no_mac (header_bytes (ack_header 7 0)) 14)
unfolding set_reliable_config find_channel_mut find_index put_channel init mac_equal
on_receive-send_reliable_example =
    on_receive-send_reliable good_radio good_radio reliable_node reliable_node no_mac no_mac 7 0 0 0
      three_bytes 10 12 14 (omega arith) reliable_node-IsClear reliable_node-IsExpecting refl refl
