-- ===== src/Reliable/Exchange.antt =====
-- The reliable contexts of a sender and a receiver over a network that may lose, repeat, delay and
-- reorder frames and acknowledgments: every step is one call of core/src/relinow_reliable.c.
pub mod Numbers
pub mod Invariant
pub mod Arriving
pub mod Safety
mod Tests
use relinow.Prelude.{ℕ, ◌<◌, List, [], ◌∷◌, ◌++◌, Option, some, count, ◌==◌}
use relinow.Packet.{Err, ok, invalid_packet}
use relinow.Reliable.Types.{
  Config, Ctx, TxResult, TxEvent, tx_none, tx_new, tx_retransmit, tx_failed,
}
use relinow.Reliable.Setup.{init}
use relinow.Reliable.Sending.{send, on_ack, poll}
use relinow.Reliable.Receiving.{on_data}

-- Both contexts; the numbers of the DATA frames and of the acknowledgments that were ever sent, from
-- which the network takes what it delivers; and the history of the application: how many sends were
-- accepted, which numbers were reported as failed, and which were delivered, in order.
pub record Exchange : Type 0 where
  pub sender : Ctx
  pub receiver : Ctx
  pub frames : List ℕ
  pub acks : List ℕ
  pub sent : ℕ
  pub failed : List ℕ
  pub delivered : List ℕ

-- How often a number is in a list.
abbrev pub times : ℕ → List ℕ → ℕ
times q numbers = count (λ d. d == q) numbers

abbrev pub connect : Config → Config → Exchange
connect tx_config rx_config = record {
  sender = init (some tx_config);
  receiver = init (some rx_config);
  frames = [];
  acks = [];
  sent = 0;
  failed = [];
  delivered = [];
}

-- What the results of `relinow_reliable_send` and `relinow_reliable_poll` make the sender do.
unfoldable pub transmit : Exchange → Ctx → TxEvent → ℕ → Exchange
transmit e ctx tx_none q = record e { sender = ctx }
transmit e ctx tx_new q = record e { sender = ctx; frames = q ∷ e.frames; sent = ℕ.suc e.sent }
transmit e ctx tx_retransmit q = record e { sender = ctx; frames = q ∷ e.frames }
transmit e ctx tx_failed q = record e { sender = ctx; failed = q ∷ e.failed }

-- The application sends at a time: a refused send changes nothing.
unfoldable pub after_send : Exchange → Err × Ctx × TxResult → Exchange
unfolding transmit
after_send e (ok, ctx, result) = transmit e ctx result.event result.seq_id
after_send e (_, ctx, result) = e

abbrev pub sending : Exchange → ℕ → TxResult → Exchange
sending e now_ms out = after_send e (send e.sender now_ms out)

-- The sender polls its timers.
abbrev pub polling : Exchange → ℕ → Exchange
polling e now_ms =
    let (rc, ctx, result) = poll e.sender now_ms in transmit e ctx result.event result.seq_id

-- A frame arrives and is acknowledged.
abbrev pub arriving : Exchange → ℕ → Exchange
arriving e q =
    let (rc, ctx, result) = on_data e.receiver q in
    record e {
      receiver = ctx;
      acks = result.ack_id ∷ e.acks;
      delivered = e.delivered ++ result.delivered;
    }

-- An acknowledgment arrives.
abbrev pub answering : Exchange → ℕ → ℕ → Exchange
answering e a now_ms = record e { sender = (on_ack e.sender a now_ms).1 }

-- One step, at any time. A frame or an acknowledgment that is never taken is lost, one that is taken
-- again is repeated, and their order is free.
pub data Step (e : Exchange) : Exchange → Type 0 where
  sends : (now_ms : ℕ) (out : TxResult) → Step e (sending e now_ms out)
  polls : (now_ms : ℕ) → Step e (polling e now_ms)
  arrives : (q : ℕ) → 0 < times q e.frames → Step e (arriving e q)
  answers : (a now_ms : ℕ) → 0 < times a e.acks → Step e (answering e a now_ms)

-- What two contexts can reach from their initialisation.
pub data Reach (tx_config rx_config : Config) : Exchange → Type 0 where
  start : Reach tx_config rx_config (connect tx_config rx_config)
  later : {e e' : Exchange} → Reach tx_config rx_config e → Step e e' → Reach tx_config rx_config e'
