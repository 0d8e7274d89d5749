-- ===== src/Node/Setup.antt =====
-- `relinow_init`, `relinow_open_channel` and `relinow_on_send_status`.
use relinow.Prelude.{ℕ, List, Bool, true, false, not, ◌||◌, ◌==◌, ltb, if◌then◌else◌}
use relinow.Packet.{mode_reliable}
use relinow.State.Types
use relinow.State.Types.{StateErr, ok}
use relinow.State.Peers
use relinow.State.ReliableMode.{set_reliable_config}
use relinow.State.Heartbeat.{configure_heartbeat}
use relinow.Node.Types.{
  EspErr, esp_ok, esp_fail, invalid_arg, NodeConfig, Node, zero_node, max_payload_size,
}

abbrev pub is_state_ok : StateErr → Bool
is_state_ok ok = true
is_state_ok _ = false

-- The last step of `relinow_init`: the node takes the rest of the configuration.
abbrev pub configured : Node → NodeConfig → Node
configured node cfg = record node {
  peer_mac = cfg.peer_mac;
  channel_id = cfg.channel_id;
  max_payload = cfg.max_payload;
  fragment_timeout_ms = cfg.fragment_timeout_ms;
  on_message = cfg.on_message;
  on_tx_event = cfg.on_tx_event;
  on_peer_timeout = cfg.on_peer_timeout;
}

-- The step before it, on a node with its channel open and set up.
unfoldable pub init_heartbeat : Node → NodeConfig → EspErr × Node
init_heartbeat node cfg =
    let (src, state) =
      configure_heartbeat node.state node.peer_index cfg.heartbeat_interval_ms
        cfg.heartbeat_miss_count_max in
    let node' = record node { state = state } in
    if is_state_ok src then (esp_ok, configured node' cfg) else (esp_fail, node')

-- The step before that: the reliable configuration of a RELIABLE channel.
unfoldable pub init_reliable : Node → NodeConfig → EspErr × Node
unfolding init_heartbeat
init_reliable node cfg =
    if not (cfg.mode == mode_reliable)
    then init_heartbeat node cfg
    else let (src, state) =
        set_reliable_config node.state node.peer_index cfg.channel_id cfg.reliable_cfg in
      let node' = record node { state = state } in
      if is_state_ok src then init_heartbeat node' cfg else (esp_fail, node')

-- The step before that: the node's channel.
unfoldable pub init_channel : Node → NodeConfig → EspErr × Node
unfolding init_reliable
init_channel node cfg =
    let (src, state) = Peers.open_channel node.state node.peer_index cfg.channel_id cfg.mode 0 in
    let node' = record node { state = state } in
    if is_state_ok src then init_reliable node' cfg else (esp_fail, node')

-- `relinow_init`: the result, and what `*node` holds then.
unfoldable pub init : Node → NodeConfig → EspErr × Node
unfolding init_channel
init node cfg =
    if cfg.max_payload == 0 || ltb max_payload_size cfg.max_payload
    then (invalid_arg, node)
    else let (src, state, peer_index) = Peers.add_peer Types.init cfg.peer_mac 0 in
      let node' = record zero_node { state = state; peer_index = peer_index } in
      if is_state_ok src then init_channel node' cfg else (esp_fail, node')

-- `relinow_open_channel`
unfoldable pub open_channel : Node → ℕ → ℕ → ℕ → EspErr × Node
open_channel node channel_id mode priority =
    let (src, state) = Peers.open_channel node.state node.peer_index channel_id mode priority in
    (if is_state_ok src then esp_ok else esp_fail, record node { state = state })

-- `relinow_on_send_status`: the status is not read, and both ways out leave the node as it was.
unfoldable pub on_send_status : Node → List ℕ → Node
on_send_status node dst_mac = if not (Peers.mac_equal dst_mac node.peer_mac) then node else node
