-- ===== src/Reliable/Exchange/Tests.antt =====
-- An exchange at concrete values.
use relinow.Prelude.{ℕ, ◌+◌, ◌≤◌, ◌<◌, ◌≡◌, arith, length, count, find_index}
use relinow.Reliable.Types.{TxResult, tx_none}
use relinow.Reliable.Setup.{default_config, init, init_config}
use relinow.Reliable.Sending.{send, find_free_pending_slot}
use relinow.Reliable.Receiving.{on_data}
use relinow.Reliable.Receiver.{consecutive}
use relinow.Reliable.Exchange.{
  Exchange, connect, transmit, after_send, sending, arriving, answering, start, later, sends,
  arrives, answers,
}
use relinow.Reliable.Exchange.Invariant.{Accounted}
use relinow.Reliable.Exchange.Safety.{exchange_reliable}

abbrev no_event : TxResult
no_event = record { event = tx_none; seq_id = 0 }

abbrev connected : Exchange
connected = connect default_config default_config

-- One frame is sent, arrives, and its acknowledgment comes back.
exchange_reliable_example :
    let e = answering (arriving (sending connected 10 no_event) 0) 0 60 in
    ((first : ℕ) × (e.delivered ≡ consecutive first (length e.delivered))
      × (first + length e.delivered ≤ e.sent))
    × ((q : ℕ) → q < e.sent → Accounted e q)
unfolding init init_config send after_send transmit on_data find_free_pending_slot find_index count
exchange_reliable_example =
    exchange_reliable default_config default_config
      (answering (arriving (sending connected 10 no_event) 0) 0 60)
      (later (later (later start (sends 10 no_event)) (arrives 0 (omega arith)))
        (answers 0 60 (omega arith)))
      (omega arith)
