-- ===== src/Reliable/Calls.antt =====
-- The invariant of a reliable context over any sequence of calls.
use relinow.Prelude.{ℕ, ◌<◌, List, [], ◌∷◌, some}
use relinow.Reliable.Types.{Ctx, Config, tx_none}
use relinow.Reliable.Setup.{init}
use relinow.Reliable.Sending.{send, on_ack, poll}
use relinow.Reliable.Receiving.{on_data}
use relinow.Reliable.Invariant.{
  IsValid, init-IsValid, send-IsValid, on_ack-IsValid, poll-IsValid, on_data-IsValid,
}

-- The calls that a channel makes, with the sequence numbers that arrive within 16 bits.
pub data Call : Type 0 where
  sends : (now_ms : ℕ) → Call
  acknowledged : (ack_id now_ms : ℕ) → Call
  polls : (now_ms : ℕ) → Call
  received : (seq_id : ℕ) → seq_id < 65536 → Call

pub call : Ctx → Call → Ctx
call ctx (sends now_ms) = (send ctx now_ms (record { event = tx_none; seq_id = 0 })).1
call ctx (acknowledged ack_id now_ms) = (on_ack ctx ack_id now_ms).1
call ctx (polls now_ms) = (poll ctx now_ms).1
call ctx (received seq_id small) = (on_data ctx seq_id).1

pub call_all : Ctx → List Call → Ctx
call_all ctx [] = ctx
call_all ctx (c ∷ calls) = call_all (call ctx c) calls

call-IsValid : (ctx : Ctx) (c : Call) → IsValid ctx → IsValid (call ctx c)
unfolding call
call-IsValid ctx (sends now_ms) v = send-IsValid ctx now_ms _ v
call-IsValid ctx (acknowledged ack_id now_ms) v = on_ack-IsValid ctx ack_id now_ms v
call-IsValid ctx (polls now_ms) v = poll-IsValid ctx now_ms v
call-IsValid ctx (received seq_id small) v = on_data-IsValid ctx seq_id small v

kept-IsValid : (ctx : Ctx) (calls : List Call) → IsValid ctx → IsValid (call_all ctx calls)
unfolding call_all
kept-IsValid ctx [] v = v
kept-IsValid ctx (c ∷ calls) v = kept-IsValid (call ctx c) calls (call-IsValid ctx c v)

-- A context made from any configuration of fields within their widths stays valid through every
-- sequence of calls: the arrays keep their sizes, the estimate and the timeouts stay positive and
-- within 16 bits, no retry count passes the limit or wraps, and the reorder buffer holds distinct
-- numbers ahead of the expected one.
pub call_all-IsValid :
    (cfg : Config) (calls : List Call)
    → cfg.max_retries < 256
    → cfg.initial_rtt_ms < 65536
    → cfg.rtt_alpha_q8 < 256
    → IsValid (call_all (init (some cfg)) calls)
call_all-IsValid cfg calls a b c = kept-IsValid (init (some cfg)) calls (init-IsValid cfg a b c)
