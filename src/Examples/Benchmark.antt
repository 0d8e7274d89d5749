-- ===== src/Examples/Benchmark.antt =====
-- examples/benchmark_c/main/main.c: two devices discover each other by broadcast, and the one with
-- the lower address sends a thousand messages. The device's setup, its clock, its tasks and its log
-- are not modelled; what the tasks do to the node is.
pub mod Inflight
pub mod Roles
mod Tests
use relinow.Prelude.{
  ℕ, ◌+◌, List, [], ◌∷◌, Bool, true, false, not, ◌&&◌, ◌==◌, ltb, if◌then◌else◌, replicate, none,
  some, find_index,
}
use relinow.Packet.{mode_reliable, mode_unreliable}
use relinow.Reliable.{Config, default_config}
use relinow.State.Types.{Slot, State}
use relinow.State.Lookup.{channel_at}
use relinow.State.Peers.{mac_equal, add_peer, open_channel}
use relinow.State.ReliableMode.{set_reliable_config}
use relinow.Node.Types.{EspErr, Radio, Node, World}
use relinow.Node.Sending.{is_esp_ok, send_reliable, send_unreliable}
use relinow.Node.Receiving.{with_node, on_receive}
use relinow.Node.Polling.{poll}

abbrev pub benchmark_channel : ℕ
benchmark_channel = 10

abbrev pub packet_count : ℕ
packet_count = 1000

abbrev pub payload_size : ℕ
payload_size = 241

abbrev pub broadcast_mac : List ℕ
broadcast_mac = replicate 6 0xff

-- The file's static variables.
pub record Bench : Type 0 where
  pub world : World
  pub my_mac : List ℕ
  pub peer_mac : List ℕ
  pub peer_discovered : Bool
  pub am_i_sender : Bool

-- `memcmp(a, b, 6) < 0`, on two addresses of six bytes.
unfoldable pub mac_less : List ℕ → List ℕ → Bool
mac_less (x ∷ a) (y ∷ b) = if x == y then mac_less a b else ltb x y
mac_less _ _ = false

-- The first block of `app_recv_cb`: the first sender that is not the broadcast address is the peer.
unfoldable pub discovered : Bench → List ℕ → Bench
discovered bench src_mac =
    if not bench.peer_discovered && not (mac_equal src_mac broadcast_mac)
    then record bench {
      peer_mac = src_mac;
      peer_discovered = true;
      am_i_sender = mac_less bench.my_mac src_mac;
    }
    else bench

-- `app_recv_cb`
unfoldable pub app_recv_cb : Radio → Bench → List ℕ → List ℕ → ℕ → Bench
app_recv_cb radio bench src_mac frame now_ms =
    let bench' = discovered bench src_mac in
    record bench' { world = (on_receive radio bench'.world src_mac frame now_ms).1 }

-- A node that talks to a peer: the two assignments after `relinow_state_add_peer`.
abbrev pub with_peer : Node → State → ℕ → List ℕ → Node
with_peer node state peer_index mac = record node {
  state = state;
  peer_index = peer_index;
  peer_mac = mac;
}

-- `discover_task` before its loop. All results are ignored; `bcast_idx` starts as 0.
unfoldable pub start_discovery : World → World
start_discovery w =
    let (rc, state, bcast_idx) = add_peer w.node.state broadcast_mac 0 in
    let opened = (open_channel state bcast_idx 1 mode_unreliable 5).1 in
    with_node w (with_peer w.node opened bcast_idx broadcast_mac)

-- `"DISCOVER"`
abbrev pub discover_text : List ℕ
discover_text = 68 ∷ 73 ∷ 83 ∷ 67 ∷ 79 ∷ 86 ∷ 69 ∷ 82 ∷ []

-- One round of its loop; an error is only logged.
unfoldable pub discover_round : Radio → World → World
discover_round radio w = (send_unreliable radio w 1 discover_text).1

-- `cfg`
abbrev pub benchmark_config : Config
benchmark_config = record default_config { initial_rtt_ms = 50 }

-- `benchmark_task`, once the peer is discovered, up to its first log line. All results are ignored;
-- `stale` is what the uninitialised `p_idx` holds.
unfoldable pub start_benchmark : Bench → ℕ → ℕ × World
start_benchmark bench stale =
    let w = bench.world in
    let (rc, state, p_idx) = add_peer w.node.state bench.peer_mac stale in
    let tuned = (set_reliable_config state p_idx benchmark_channel benchmark_config).1 in
    let opened = (open_channel tuned p_idx benchmark_channel mode_reliable 5).1 in
    (p_idx, with_node w (with_peer w.node opened p_idx bench.peer_mac))

abbrev pub is_used_slot : Slot → Bool
is_used_slot slot = slot.used

-- The loop that sets `inflight`: it takes the channel's number for its place in the table.
unfoldable pub inflight : State → ℕ → Bool
inflight state p_idx =
    elim (find_index is_used_slot (channel_at state p_idx benchmark_channel).tx_queue) [
      | none ↦ false
      | some i ↦ true
    ]

abbrev pub payload : List ℕ
payload = replicate payload_size 0xab

-- A message is sent while any is left; `packets_sent` counts those that were accepted.
unfoldable pub send_next : Radio → World → ℕ → ℕ → World × ℕ
send_next radio w packets_sent now_ms =
    if ltb packets_sent packet_count
    then (let (err, w') = send_reliable radio w benchmark_channel payload now_ms in
        (w', if is_esp_ok err then packets_sent + 1 else packets_sent))
    else (w, packets_sent)

-- One round of the sender's loop: the world, `packets_sent`, and whether the loop ends.
unfoldable pub benchmark_round : Radio → World → ℕ → ℕ → ℕ → World × ℕ × Bool
unfolding send_next
benchmark_round radio w p_idx packets_sent now_ms =
    let polled = (poll radio w now_ms).1 in
    let (w', sent) = send_next radio polled packets_sent now_ms in
    (w', sent, sent == packet_count && not (inflight w'.node.state p_idx))
