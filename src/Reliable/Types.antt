-- ===== src/Reliable/Types.antt =====
-- The types and limits of core/include/relinow_reliable.h, and the zeroed values that `memset`
-- leaves.
use relinow.Prelude.{ℕ, List, Bool, false, replicate}

abbrev pub max_pending : ℕ
max_pending = 16

abbrev pub max_reorder : ℕ
max_reorder = 8

-- `relinow_reliable_tx_event_t`
pub data TxEvent : Type 0 where
  tx_none tx_new tx_retransmit tx_failed : TxEvent

-- `relinow_reliable_rx_status_t`
pub data RxStatus : Type 0 where
  rx_delivered rx_out_of_order rx_duplicate rx_dropped : RxStatus

-- `relinow_reliable_config_t`
pub record Config : Type 0 where
  pub max_retries : ℕ
  pub initial_rtt_ms : ℕ
  pub rtt_alpha_q8 : ℕ

-- `relinow_reliable_tx_result_t`
pub record TxResult : Type 0 where
  pub event : TxEvent
  pub seq_id : ℕ

-- `relinow_reliable_rx_result_t`: the list is `delivered_seq[0 .. delivered_count)`.
pub record RxResult : Type 0 where
  pub status : RxStatus
  pub delivered : List ℕ
  pub ack_id : ℕ

-- `relinow_reliable_pending_t`
pub record Pending : Type 0 where
  pub in_use : Bool
  pub seq_id : ℕ
  pub last_send_ms : ℕ
  pub timeout_ms : ℕ
  pub retries : ℕ

-- `relinow_reliable_reorder_t`
pub record Reorder : Type 0 where
  pub in_use : Bool
  pub seq_id : ℕ

-- `relinow_reliable_ctx_t`: `pending` and `reorder` are its arrays.
pub record Ctx : Type 0 where
  pub cfg : Config
  pub next_tx_seq : ℕ
  pub rtt_estimate_ms : ℕ
  pub has_rx_window : Bool
  pub expected_rx_seq : ℕ
  pub pending : List Pending
  pub reorder : List Reorder

-- What `memset` leaves.
abbrev pub zero_pending : Pending
zero_pending = record { in_use = false; seq_id = 0; last_send_ms = 0; timeout_ms = 0; retries = 0 }

abbrev pub zero_reorder : Reorder
zero_reorder = record { in_use = false; seq_id = 0 }

abbrev pub zero_ctx : Ctx
zero_ctx = record {
  cfg = record { max_retries = 0; initial_rtt_ms = 0; rtt_alpha_q8 = 0 };
  next_tx_seq = 0;
  rtt_estimate_ms = 0;
  has_rx_window = false;
  expected_rx_seq = 0;
  pending = replicate max_pending zero_pending;
  reorder = replicate max_reorder zero_reorder;
}
