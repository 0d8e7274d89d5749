-- ===== src/Examples/Demo/Tests.antt =====
-- The demo at concrete values.
use relinow.Prelude.{◌≡◌, refl, [], ◌++◌, find_index, count}
use relinow.Packet.{header_bytes, encode_header, validate_header}
use relinow.Reliable
use relinow.State
use relinow.State.Lookup.{find_channel_mut, put_channel, get_channel_mode}
use relinow.State.Peers.{
  add_peer, find_peer, add_new_peer, open_new_channel, new_channel, mode_supported, mac_equal,
}
use relinow.State.Queues.{mark_inflight, enqueue_tx}
use relinow.State.ReliableMode.{set_reliable_config, reliable_send, after_send, note_sent}
use relinow.State.Heartbeat.{configure_heartbeat}
use relinow.State.OtherModes.{unreliable_send}
use relinow.Node.Types.{esp_ok, Radio, World, zero_node}
use relinow.Node.Setup.{init, init_channel, init_reliable, init_heartbeat, open_channel}
use relinow.Node.Caches.{tx_cache_alloc, find_channel_state}
use relinow.Node.Frames.{send_frame, send_encoded}
use relinow.Node.Sending.{send_reliable, send_whole, send_unreliable, transmit}
use relinow.Node.Sending.Content.{sent_bytes}
use relinow.Examples.Demo.{demo_config, scenario, raw_data, hello_wokwi, chan_21_msg, chan_22_msg}

abbrev good_radio : Radio
good_radio log mac frame = esp_ok

abbrev started : World
started = record { node = (init zero_node demo_config).1; log = [] }

-- What the scenario puts on the air: the five bursts, and then one frame for each channel.
scenario_test :
    sent_bytes (scenario good_radio started 10 10 10).log
    ≡ raw_data
      ++ (raw_data
          ++ (raw_data
              ++ (raw_data ++ (raw_data ++ (hello_wokwi ++ (chan_21_msg ++ chan_22_msg))))))
unfolding init init_channel init_reliable init_heartbeat State.Types.init add_peer find_peer
    add_new_peer State.Peers.open_channel open_new_channel new_channel mode_supported mac_equal
    find_index put_channel find_channel_mut set_reliable_config configure_heartbeat send_reliable
    send_whole get_channel_mode find_channel_state count reliable_send after_send note_sent
    mark_inflight enqueue_tx Reliable.send Reliable.init tx_cache_alloc transmit send_frame
    send_encoded encode_header validate_header header_bytes scenario send_unreliable unreliable_send
    open_channel sent_bytes
scenario_test = refl
