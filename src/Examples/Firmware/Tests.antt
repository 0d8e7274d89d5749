-- ===== src/Examples/Firmware/Tests.antt =====
-- The boards at concrete values.
use relinow.Prelude.{ℕ, ◌≡◌, refl, List, [], ◌∷◌, some, true, false, arith, find_index}
use relinow.Packet.{mode_unreliable, mode_priority}
use relinow.Reliable.{tx_failed}
use relinow.State.Types
use relinow.State.Peers
use relinow.State.Lookup.{put_channel, find_channel_mut}
use relinow.State.ReliableMode.{set_reliable_config}
use relinow.State.Heartbeat.{configure_heartbeat}
use relinow.Node.Types.{esp_ok, invalid_arg, Radio, Node, zero_node}
use relinow.Node.Sending.{send_reliable}
use relinow.Node.Setup
use relinow.Node.Receiving.{on_receive}
use relinow.Examples.Firmware.{
  Texts, SendReliable, Board, Round, start, start_node, board_config, before_loop, timer_due,
  reliable_turn, unreliable_burst, unreliable_turn, priority_turn, poll_turn, loop_round, loop,
}
use relinow.Examples.Firmware.Callbacks.{
  raw_short, on_receive_rc, tx_line, log_raw_rx_frame, frame_type_str, send_status_str, on_tx_event,
  recv_locked, recv_cb,
}
use relinow.Examples.Firmware.Boards.{device_a}
use relinow.Examples.Firmware.Pacing.{HasPeriods, IsPacedBoard, loop_paced}

abbrev good_radio : Radio
good_radio log mac frame = esp_ok

-- The call as the library has it, on the node's own channel.
abbrev on_own_channel : SendReliable
on_own_channel radio w payload now_ms = send_reliable radio w w.node.channel_id payload now_ms

abbrev short_texts : Texts
short_texts = record {
  reliable = λ n. 1 ∷ n ∷ [];
  unreliable = λ n i. 2 ∷ n ∷ i ∷ [];
  stale = λ n. 3 ∷ n ∷ [];
  fresh = λ n. 4 ∷ n ∷ [];
}

abbrev round_at : ℕ → Round
round_at now = record {
  now = now;
  reliable_lock = true;
  unreliable_lock = λ i. true;
  priority_lock = true;
  poll_lock = true;
}

abbrev rounds : List Round
rounds = round_at 500 ∷ round_at 2600 ∷ round_at 4000 ∷ []

device_a-HasPeriods : HasPeriods device_a
device_a-HasPeriods = record {
  reliable = omega arith;
  unreliable = omega arith;
  priority = omega arith;
}

abbrev opened : Node → Node
opened node = (Setup.open_channel node 2 mode_unreliable 0).1

abbrev started : Board
started =
    before_loop 100
      (Setup.open_channel (opened (Setup.init zero_node (board_config device_a)).1) 3 mode_priority
        0).1

starts_test : start device_a zero_node 100 ≡ some started
unfolding start start_node Setup.init Peers.add_peer find_index Types.init Peers.open_channel
    Peers.mode_supported Peers.open_new_channel set_reliable_config find_channel_mut put_channel
    Peers.new_channel configure_heartbeat Setup.open_channel
starts_test = refl

loop_paced_example :
    IsPacedBoard device_a (loop good_radio on_own_channel device_a short_texts started rounds) 4000
loop_paced_example =
    loop_paced good_radio on_own_channel device_a short_texts zero_node 100 started rounds
      device_a-HasPeriods starts_test
      (omega arith, omega arith, (omega arith, omega arith, (omega arith, omega arith, tt)))

-- Nothing is due at 500; at 2600 all but the UNRELIABLE burst, and at 4000 that one and the
-- RELIABLE message. The lock is never free.
abbrev busy : ℕ → Round
busy now = record (round_at now) {
  reliable_lock = false;
  unreliable_lock = λ i. false;
  priority_lock = false;
  poll_lock = false;
}

due_test :
    let board : Board =
      loop good_radio on_own_channel device_a short_texts started
        (busy 500 ∷ busy 2600 ∷ busy 4000 ∷ []) in
    (board.reliable_counter ≡ 2) × (board.unreliable_counter ≡ 1) × (board.priority_counter ≡ 1)
unfolding loop loop_round reliable_turn unreliable_turn unreliable_burst priority_turn poll_turn
    timer_due
due_test = (refl, refl, refl)

-- A frame of three bytes is logged as short, and refused by the library.
short_frame_test :
    (log_raw_rx_frame (1 ∷ []) (1 ∷ 2 ∷ 3 ∷ []) ≡ raw_short 3 (1 ∷ []))
    × ((recv_cb good_radio started.world (some (1 ∷ [])) (some (1 ∷ 2 ∷ 3 ∷ [])) true 5).1
        ≡ raw_short 3 (1 ∷ []) ∷ on_receive_rc invalid_arg ∷ [])
unfolding log_raw_rx_frame recv_cb recv_locked on_receive
short_frame_test = (refl, refl)

names_test :
    (frame_type_str 5 ≡ "PONG")
    × (frame_type_str 9 ≡ "UNKNOWN")
    × (send_status_str true ≡ "SUCCESS")
    × (on_tx_event tx_failed 7 ≡ tx_line "TX failed" 7 ∷ [])
unfolding frame_type_str send_status_str on_tx_event
names_test = (refl, refl, refl, refl)
