-- ===== src/Node/Types.antt =====
-- The types of core/include/relinow_espnow.h, and the effects that a node has on the world.
--
-- ESP-NOW's `esp_now_send` is not part of the repository. It is a parameter, `Radio`: its result
-- may depend on all that the node has done so far. The application's callbacks are effects in the
-- node's log; they are taken not to call the node back.
use relinow.Prelude.{ℕ, List, [], ◌++◌, ◌∷◌, Bool, false, replicate}
use relinow.Reliable.{Config, TxEvent, default_config}
use relinow.State.Types.{State}
use relinow.State.Types
use relinow.Packet.{mode_reliable}

abbrev pub max_payload_size : ℕ
max_payload_size = 241

abbrev pub max_frame : ℕ
max_frame = 250

abbrev pub max_reassembly : ℕ
max_reassembly = 3856

-- How many frames a receiver's cache holds, `1 + RELINOW_RELIABLE_MAX_REORDER`.
abbrev pub rx_cache_size : ℕ
rx_cache_size = 9

-- `esp_err_t`: the codes that this file returns, and any other that the radio returns.
-- `out_of_fuel` stands for a loop that has not ended within its fuel, and `frame_overrun` for a
-- write past the end of the local `frame`, after which the program's behaviour is undefined.
pub data EspErr : Type 0 where
  esp_ok esp_fail invalid_arg invalid_state no_mem out_of_fuel frame_overrun : EspErr
  radio_err : ℕ → EspErr

-- What a call does outside the node.
pub data Effect : Type 0 where
  transmitted : (mac frame : List ℕ) → EspErr → Effect
  message : (src_mac : List ℕ) (channel_id seq_id : ℕ) (payload : List ℕ) → Effect
  tx_event : TxEvent → (seq_id : ℕ) → Effect
  peer_timeout : (peer_mac : List ℕ) → Effect

-- `esp_now_send`, given the effects so far, the address and the frame.
abbrev pub Radio : Type 0
Radio = List Effect → List ℕ → List ℕ → EspErr

-- `relinow_config_t`; of a callback only whether it is set. `user_ctx` is passed through unread.
pub record NodeConfig : Type 0 where
  pub peer_mac : List ℕ
  pub channel_id : ℕ
  pub mode : ℕ
  pub max_payload : ℕ
  pub fragment_timeout_ms : ℕ
  pub heartbeat_interval_ms : ℕ
  pub heartbeat_miss_count_max : ℕ
  pub reliable_cfg : Config
  pub on_message : Bool
  pub on_tx_event : Bool
  pub on_peer_timeout : Bool

-- `relinow_tx_cache_t` and `relinow_rx_cache_t`; `payload` is the first `payload_len` bytes.
pub record Cached : Type 0 where
  pub in_use : Bool
  pub seq_id : ℕ
  pub flags : ℕ
  pub payload_len : ℕ
  pub payload : List ℕ

-- `relinow_node_t`: `fragmented_tx_seq` is the array's first `fragmented_tx_count` entries, and
-- `reassembly_buf` the first `reassembly_len` bytes.
pub record Node : Type 0 where
  pub state : State
  pub peer_index : ℕ
  pub peer_mac : List ℕ
  pub channel_id : ℕ
  pub max_payload : ℕ
  pub fragment_timeout_ms : ℕ
  pub on_message : Bool
  pub on_tx_event : Bool
  pub on_peer_timeout : Bool
  pub fragmented_tx_active : Bool
  pub fragmented_tx_seq : List ℕ
  pub reassembly_active : Bool
  pub reassembly_first_seq : ℕ
  pub reassembly_start_ms : ℕ
  pub reassembly_buf : List ℕ
  pub tx_cache : List Cached
  pub rx_cache : List Cached

-- A node and its effects so far, the oldest first.
pub record World : Type 0 where
  pub node : Node
  pub log : List Effect

abbrev pub emit : World → Effect → World
emit w effect = record w { log = w.log ++ (effect ∷ []) }

abbrev pub zero_cached : Cached
zero_cached = record { in_use = false; seq_id = 0; flags = 0; payload_len = 0; payload = [] }

-- `relinow_default_config`
abbrev pub default_node_config : NodeConfig
default_node_config = record {
  peer_mac = replicate 6 0;
  channel_id = 1;
  mode = mode_reliable;
  max_payload = max_payload_size;
  fragment_timeout_ms = 5000;
  heartbeat_interval_ms = 0;
  heartbeat_miss_count_max = 3;
  reliable_cfg = default_config;
  on_message = false;
  on_tx_event = false;
  on_peer_timeout = false;
}

-- What `memset` and `relinow_state_init` leave in `relinow_init`.
abbrev pub zero_node : Node
zero_node = record {
  state = Types.init;
  peer_index = 0;
  peer_mac = replicate 6 0;
  channel_id = 0;
  max_payload = 0;
  fragment_timeout_ms = 0;
  on_message = false;
  on_tx_event = false;
  on_peer_timeout = false;
  fragmented_tx_active = false;
  fragmented_tx_seq = [];
  reassembly_active = false;
  reassembly_first_seq = 0;
  reassembly_start_ms = 0;
  reassembly_buf = [];
  tx_cache = replicate 16 zero_cached;
  rx_cache = replicate rx_cache_size zero_cached;
}
