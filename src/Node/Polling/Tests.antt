-- ===== src/Node/Polling/Tests.antt =====
-- A node with two RELIABLE channels, and one with a single one.
use relinow.Prelude.{ℕ, ◌≡◌, refl, List, [], ◌∷◌, ◌++◌, true, some, arith, replicate, find_index}
use relinow.Packet.{mode_reliable, header_bytes, encode_header, validate_header}
use relinow.Reliable
use relinow.Reliable.{tx_retransmit, default_config, init}
use relinow.State.Types.{Channel, zero_channel, zero_peer}
use relinow.State.Lookup.{find_channel_mut, put_channel}
use relinow.State.Queues.{mark_inflight, enqueue_tx}
use relinow.State.ReliableMode.{reliable_send, after_send, note_sent}
use relinow.Node.Types.{esp_ok, transmitted, Radio, World, zero_node, emit}
use relinow.Node.Frames.{frame_header, send_frame, send_encoded}
use relinow.Node.Caches.{tx_cache_find, tx_cache_alloc}
use relinow.Node.Sending.{send_whole, transmit}
use relinow.Node.Polling.{retransmit}
use relinow.Node.Polling.Faithful.{IsFaithful}
use relinow.Node.Setup
use relinow.Node.Types.{NodeConfig, default_node_config}
use relinow.Node.Polling.Started.{ready_node, init-IsFaithful}
use relinow.Node.Polling.SentWhole.{whole_frame}
use relinow.Node.Polling.SharedCache.{after_whole, resends_other_payload}

abbrev good_radio : Radio
good_radio log mac frame = esp_ok

abbrev reliable_channel : ℕ → Channel
reliable_channel id = record zero_channel {
  in_use = true;
  channel_id = id;
  mode = mode_reliable;
  reliable = Reliable.init (some default_config);
}

abbrev two_channels : World
two_channels = record {
  node = record zero_node {
    state = record {
      peers =
          record zero_peer {
            in_use = true;
            channels = reliable_channel 20 ∷ reliable_channel 21 ∷ replicate 14 zero_channel;
          }
          ∷ replicate 19 zero_peer;
    };
    max_payload = 241;
  };
  log = [];
}

abbrev on_20 : List ℕ
on_20 = 1 ∷ 2 ∷ 3 ∷ []

abbrev on_21 : List ℕ
on_21 = 7 ∷ []

-- The three bytes for channel 20 are sent again on channel 21.
resends_other_payload_example :
    let sent =
      after_whole good_radio (after_whole good_radio two_channels 20 on_20 10) 21 on_21 20 in
    let frame = header_bytes (frame_header (whole_frame 21 0 on_20)) ++ on_20 in
    retransmit good_radio sent
      (record { channel_id = 21; tx = record { event = tx_retransmit; seq_id = 0 } })
    ≡ (esp_ok, emit sent (transmitted sent.node.peer_mac frame esp_ok))
unfolding tx_cache_find find_index send_whole reliable_send after_send note_sent mark_inflight
    enqueue_tx find_channel_mut put_channel Reliable.send Reliable.init tx_cache_alloc transmit
    send_frame send_encoded encode_header validate_header header_bytes
resends_other_payload_example =
    resends_other_payload good_radio two_channels 20 21 0 on_20 on_21 10 20 refl refl refl refl refl

-- A node with one RELIABLE channel, 7, as `relinow_init` sets it up.
abbrev config_7 : NodeConfig
config_7 = record default_node_config { channel_id = 7; on_message = true }

init-IsFaithful_example :
    let (rc, started) = Setup.init two_channels.node config_7 in
    (rc ≡ esp_ok)
    × (started.peer_mac ≡ replicate 6 0)
    × (started.max_payload ≡ 241)
    × IsFaithful started 7 0 []
init-IsFaithful_example =
    init-IsFaithful two_channels.node config_7 refl (omega arith) (omega arith) (omega arith)
      (omega arith) (omega arith) (omega arith)

abbrev one_channel : World
one_channel = record { node = ready_node config_7; log = [] }
