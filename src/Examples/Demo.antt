-- ===== src/Examples/Demo.antt =====
-- examples/wokwi_demo/main/main.c: a scenario over several channels to the broadcast address. The
-- device's setup and its log are not modelled; the times of the calls are arguments.
mod Tests
use relinow.Prelude.{ℕ, suc, List, [], ◌∷◌, Option, none, some, true, if◌then◌else◌, replicate}
use relinow.Packet.{mode_reliable, mode_unreliable}
use relinow.Node.Types.{Radio, Node, NodeConfig, World, default_node_config}
use relinow.Node.Setup.{init, open_channel}
use relinow.Node.Sending.{is_esp_ok, send_reliable, send_unreliable}
use relinow.Node.Receiving.{with_node}
use relinow.Node.Polling.{poll}

-- `rn_cfg`
abbrev pub demo_config : NodeConfig
demo_config = record default_node_config {
  heartbeat_interval_ms = 2000;
  heartbeat_miss_count_max = 3;
  on_message = true;
  on_peer_timeout = true;
  peer_mac = replicate 6 0xff;
}

-- `ESP_ERROR_CHECK(relinow_init(...))`: a failure ends the program.
unfoldable pub start : Node → Option World
start node =
    let (erc, node') = init node demo_config in
    if is_esp_ok erc then some (record { node = node'; log = [] }) else none

-- "RawData", "Hello Wokwi", "Chan 21 msg" and "Chan 22 msg"
abbrev pub raw_data : List ℕ
raw_data = 82 ∷ 97 ∷ 119 ∷ 68 ∷ 97 ∷ 116 ∷ 97 ∷ []

abbrev pub hello_wokwi : List ℕ
hello_wokwi = 72 ∷ 101 ∷ 108 ∷ 108 ∷ 111 ∷ 32 ∷ 87 ∷ 111 ∷ 107 ∷ 119 ∷ 105 ∷ []

abbrev pub chan_21_msg : List ℕ
chan_21_msg = 67 ∷ 104 ∷ 97 ∷ 110 ∷ 32 ∷ 50 ∷ 49 ∷ 32 ∷ 109 ∷ 115 ∷ 103 ∷ []

abbrev pub chan_22_msg : List ℕ
chan_22_msg = 67 ∷ 104 ∷ 97 ∷ 110 ∷ 32 ∷ 50 ∷ 50 ∷ 32 ∷ 109 ∷ 115 ∷ 103 ∷ []

-- A channel is opened; the result is ignored.
abbrev pub opened : World → ℕ → ℕ → World
opened w channel_id mode = with_node w (open_channel w.node channel_id mode 10).1

-- The loop of phase 1; the results are ignored.
unfoldable pub unreliable_burst : ℕ → Radio → World → World
unreliable_burst ℕ.zero radio w = w
unreliable_burst (suc n) radio w = unreliable_burst n radio (send_unreliable radio w 10 raw_data).1

-- Phases 1 to 3, with the times of the three RELIABLE sends.
unfoldable pub scenario : Radio → World → ℕ → ℕ → ℕ → World
unfolding unreliable_burst
scenario radio w t20 t21 t22 =
    let phase1 = unreliable_burst 5 radio (opened w 10 mode_unreliable) in
    let phase2 = (send_reliable radio (opened phase1 20 mode_reliable) 20 hello_wokwi t20).1 in
    let both = opened (opened phase2 21 mode_reliable) 22 mode_reliable in
    (send_reliable radio (send_reliable radio both 21 chan_21_msg t21).1 22 chan_22_msg t22).1

-- Phase 4: the node is polled at the given times.
unfoldable pub wait_for_timeout : Radio → World → List ℕ → World
wait_for_timeout radio w [] = w
wait_for_timeout radio w (now_ms ∷ times) = wait_for_timeout radio (poll radio w now_ms).1 times
