-- ===== src/State/Types.antt =====
-- The types and limits of core/include/relinow_state.h, and the zeroed values that `memset` leaves.
use relinow.Prelude.{ℕ, List, Bool, false, replicate}
use relinow.Reliable.{Ctx, zero_ctx}

abbrev pub max_peers : ℕ
max_peers = 20

abbrev pub max_channels_per_peer : ℕ
max_channels_per_peer = 16

abbrev pub tx_queue_size : ℕ
tx_queue_size = 16

abbrev pub rx_queue_size : ℕ
rx_queue_size = 8

-- `relinow_state_err_t`
pub data StateErr : Type 0 where
  ok invalid_arg not_found no_space conflict queue_full wrong_mode : StateErr

-- `relinow_tx_slot_t` and `relinow_rx_slot_t`
pub record Slot : Type 0 where
  pub used : Bool
  pub seq_id : ℕ

-- `relinow_stats_t`
pub record Stats : Type 0 where
  pub total_rx : ℕ
  pub total_lost : ℕ

-- `relinow_channel_state_t`
pub record Channel : Type 0 where
  pub in_use : Bool
  pub channel_id : ℕ
  pub mode : ℕ
  pub priority : ℕ
  pub next_tx_seq : ℕ
  pub expected_rx_seq : ℕ
  pub has_rx_seq : Bool
  pub has_inflight : Bool
  pub inflight_seq : ℕ
  pub stats : Stats
  pub reliable : Ctx
  pub tx_queue : List Slot
  pub rx_queue : List Slot

-- `relinow_peer_state_t`; a MAC address is a list of six bytes.
pub record Peer : Type 0 where
  pub in_use : Bool
  pub mac : List ℕ
  pub heartbeat_interval_ms : ℕ
  pub heartbeat_miss_count_max : ℕ
  pub last_ping_sent_ms : ℕ
  pub missed_pongs : ℕ
  pub last_polled_channel_idx : ℕ
  pub channels : List Channel

-- `relinow_state_t`
pub record State : Type 0 where
  pub peers : List Peer

-- `relinow_state_limits_t`
pub record Limits : Type 0 where
  pub max_peers : ℕ
  pub max_channels_per_peer : ℕ
  pub tx_queue_size : ℕ
  pub rx_queue_size : ℕ
  pub state_footprint_bytes : ℕ

-- `relinow_state_get_limits`; the argument is `sizeof(relinow_state_t)`, which the compiler decides.
unfoldable pub get_limits : ℕ → Limits
get_limits state_bytes = record {
  max_peers = max_peers;
  max_channels_per_peer = max_channels_per_peer;
  tx_queue_size = tx_queue_size;
  rx_queue_size = rx_queue_size;
  state_footprint_bytes = state_bytes;
}

abbrev pub zero_slot : Slot
zero_slot = record { used = false; seq_id = 0 }

abbrev pub zero_channel : Channel
zero_channel = record {
  in_use = false;
  channel_id = 0;
  mode = 0;
  priority = 0;
  next_tx_seq = 0;
  expected_rx_seq = 0;
  has_rx_seq = false;
  has_inflight = false;
  inflight_seq = 0;
  stats = record { total_rx = 0; total_lost = 0 };
  reliable = zero_ctx;
  tx_queue = replicate tx_queue_size zero_slot;
  rx_queue = replicate rx_queue_size zero_slot;
}

abbrev pub zero_peer : Peer
zero_peer = record {
  in_use = false;
  mac = replicate 6 0;
  heartbeat_interval_ms = 0;
  heartbeat_miss_count_max = 0;
  last_ping_sent_ms = 0;
  missed_pongs = 0;
  last_polled_channel_idx = 0;
  channels = replicate max_channels_per_peer zero_channel;
}

-- `relinow_state_init`
unfoldable pub init : State
init = record { peers = replicate max_peers zero_peer }
