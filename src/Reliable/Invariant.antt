-- ===== src/Reliable/Invariant.antt =====
-- The invariant of `relinow_reliable_ctx_t`, kept by every operation.
use relinow.Prelude.{
  ℕ, suc, ◌≤◌, ◌<◌, ◌≡◌, refl, ◌∙◌, inl, inr, List, some, true, false, Bool-cases, Option-cases,
  leb, arith, length, length-set, get_or, set, All, All-set, All-get_or, All-replicate, find_index,
  find_index-some, count,
}
use relinow.Packet.{seq_next}
use relinow.Packet.Seq.{seq_next-lt}
use relinow.Reliable.Types.{Ctx, Config, Pending, TxResult, max_pending, max_reorder, zero_pending}
use relinow.Reliable.Setup.{init}
use relinow.Reliable.Sending.{
  sent_slot, retried_slot, is_pending, is_free_pending, is_due, send, on_ack, poll, expire,
}
use relinow.Reliable.Receiving.{
  reorder_take_expected, reorder_insert, drain, deliver_expected, buffer_newer, on_data,
}
use relinow.Reliable.Timeout.{compute_timeout_ms_bounds, smoothed_rtt_ms_lem}
use relinow.Reliable.Window.{reorder_take_expected_lem}
use relinow.Reliable.Receiver.{IsReceiver}
use relinow.Reliable.Delivery.{on_data_lem}

-- A configuration as `relinow_reliable_init` leaves it, of fields within their widths.
pub record IsConfig (cfg : Config) : Type 0 where
  pub retries : (1 ≤ cfg.max_retries) × (cfg.max_retries < 256)
  pub rtt : (1 ≤ cfg.initial_rtt_ms) × (cfg.initial_rtt_ms < 65536)
  pub alpha : (1 ≤ cfg.rtt_alpha_q8) × (cfg.rtt_alpha_q8 < 256)

-- A slot in use has retries within the limit, a timeout of at least a millisecond that fits its 16
-- bits, and a 16-bit number.
pub record IsSlot (cfg : Config) (slot : Pending) : Type 0 where
  pub retries : slot.in_use ≡ true → slot.retries ≤ cfg.max_retries
  pub timeout : slot.in_use ≡ true → (1 ≤ slot.timeout_ms) × (slot.timeout_ms < 65536)
  pub number : slot.in_use ≡ true → slot.seq_id < 65536

pub record IsValid (ctx : Ctx) : Type 0 where
  pub config : IsConfig ctx.cfg
  pub next : ctx.next_tx_seq < 65536
  pub rtt : (1 ≤ ctx.rtt_estimate_ms) × (ctx.rtt_estimate_ms < 65536)
  pub room : length ctx.pending ≡ max_pending
  pub slots : All (IsSlot ctx.cfg) ctx.pending
  pub receiver : IsReceiver ctx

zero-IsSlot : (cfg : Config) → IsSlot cfg zero_pending
zero-IsSlot cfg = record {
  retries = λ e. absurd (ground arith);
  timeout = λ e. absurd (ground arith);
  number = λ e. absurd (ground arith);
}

freed-IsSlot : (cfg : Config) (slot : Pending) → IsSlot cfg (record slot { in_use = false })
freed-IsSlot cfg slot = record {
  retries = λ e. absurd (ground arith);
  timeout = λ e. absurd (ground arith);
  number = λ e. absurd (ground arith);
}

-- The fields of the sending side do not touch the receiving side.
IsReceiver-tx :
    (ctx : Ctx) (pending : List Pending) (next rtt : ℕ)
    → IsReceiver ctx
    → IsReceiver (record ctx { pending = pending; next_tx_seq = next; rtt_estimate_ms = rtt })
IsReceiver-tx ctx pending next rtt v = record {
  room = v.room;
  opened = λ e.
      let w = v.opened e in
      record { expected = w.expected; room = w.room; distinct = w.distinct; ahead = w.ahead };
  fresh = v.fresh;
}

pub init-IsValid :
    (cfg : Config)
    → cfg.max_retries < 256
    → cfg.initial_rtt_ms < 65536
    → cfg.rtt_alpha_q8 < 256
    → IsValid (init (some cfg))
unfolding init count
init-IsValid cfg a b c = record {
  config = record { retries = ground arith; rtt = ground arith; alpha = ground arith };
  next = omega arith;
  rtt = ground arith;
  room = refl;
  slots = All-replicate (IsSlot (init (some cfg)).cfg) max_pending zero_pending (zero-IsSlot _);
  receiver = record { room = refl; opened = λ e. absurd (ground arith); fresh = λ e. refl };
}

pub send-IsValid :
    (ctx : Ctx) (now_ms : ℕ) (out : TxResult) → IsValid ctx → IsValid (send ctx now_ms out).1
unfolding send
send-IsValid ctx now_ms out v = elim (Option-cases (find_index is_free_pending ctx.pending)) [
  | inl e ↦ rw (e, send) v
  | inr (i, e) ↦
      rw (e, send)
        (record {
          config = v.config;
          next = seq_next-lt ctx.next_tx_seq;
          rtt = v.rtt;
          room = length-set ctx.pending i (sent_slot ctx now_ms) ∙ v.room;
          slots = All-set (IsSlot ctx.cfg) ctx.pending i (sent_slot ctx now_ms) v.slots (record {
            retries = λ _. omega arith;
            timeout = λ _. compute_timeout_ms_bounds ctx.rtt_estimate_ms 0;
            number = λ _. v.next;
          });
          receiver = IsReceiver-tx ctx _ _ _ v.receiver;
        })
]

pub on_ack-IsValid :
    (ctx : Ctx) (ack_id now_ms : ℕ) → IsValid ctx → IsValid (on_ack ctx ack_id now_ms).1
unfolding on_ack
on_ack-IsValid ctx ack_id now_ms v =
    elim (Option-cases (find_index (is_pending ack_id) ctx.pending)) [
      | inl e ↦ rw (e, on_ack) v
      | inr (i, e) ↦
          let slot = get_or ctx.pending i zero_pending in
          let mean = smoothed_rtt_ms_lem ctx slot.last_send_ms now_ms v.config.alpha.1 v.rtt in
          rw (e, on_ack)
            (record {
              config = v.config;
              next = v.next;
              rtt = (mean.3, mean.4);
              room = length-set ctx.pending i (record slot { in_use = false }) ∙ v.room;
              slots =
                  All-set (IsSlot ctx.cfg) ctx.pending i (record slot { in_use = false }) v.slots
                    (freed-IsSlot ctx.cfg slot);
              receiver = IsReceiver-tx ctx _ _ _ v.receiver;
            })
    ]

pub poll-IsValid : (ctx : Ctx) (now_ms : ℕ) → IsValid ctx → IsValid (poll ctx now_ms).1
unfolding poll expire
poll-IsValid ctx now_ms v = elim (Option-cases (find_index (is_due now_ms) ctx.pending)) [
  | inl e ↦ rw (e, poll) v
  | inr (i, e) ↦
      let slot = get_or ctx.pending i zero_pending in
      let due = (find_index-some (is_due now_ms) ctx.pending i zero_pending e).1 in
      let old =
        All-get_or (IsSlot ctx.cfg) ctx.pending i zero_pending v.slots (zero-IsSlot ctx.cfg) in
      let updated = λ (new : Pending) (p : IsSlot ctx.cfg new).
        let valid : IsValid (record ctx { pending = set ctx.pending i new }) = record {
          config = v.config;
          next = v.next;
          rtt = v.rtt;
          room = length-set ctx.pending i new ∙ v.room;
          slots = All-set (IsSlot ctx.cfg) ctx.pending i new v.slots p;
          receiver = IsReceiver-tx ctx _ _ _ v.receiver;
        } in
        valid in
      elim (Bool-cases (leb ctx.cfg.max_retries slot.retries)) [
        | inl spent ↦
            rw (e, poll, spent, expire)
              (updated (record slot { in_use = false }) (freed-IsSlot ctx.cfg slot))
        | inr left ↦
            rw (e, poll, left, expire)
              (updated (retried_slot ctx now_ms slot) (record {
                retries = λ _. ground (arith, v.config.retries);
                timeout = λ _. compute_timeout_ms_bounds ctx.rtt_estimate_ms _;
                number = old.number;
              }))
      ]
]

-- Receiving leaves the sending side alone.
abbrev pub SameSender : Ctx → Ctx → Type 0
SameSender a b =
    (a.cfg ≡ b.cfg)
    × (a.next_tx_seq ≡ b.next_tx_seq)
    × (a.rtt_estimate_ms ≡ b.rtt_estimate_ms)
    × (a.pending ≡ b.pending)

drain-SameSender : (room : ℕ) (ctx : Ctx) → SameSender (drain room ctx).0 ctx
unfolding drain reorder_take_expected
drain-SameSender ℕ.zero ctx = (refl, refl, refl, refl)
drain-SameSender (suc room) ctx = elim (reorder_take_expected_lem ctx ctx.expected_rx_seq) [
  | inl (e, absent) ↦ rw (e, drain, e) (refl, refl, refl, refl)
  | inr (slots, e, len, used, taken) ↦
      rw (e, drain, e)
        (drain-SameSender room
          (record ctx { reorder = slots; expected_rx_seq = seq_next ctx.expected_rx_seq }))
]

pub on_data-SameSender : (ctx : Ctx) (seq_id : ℕ) → SameSender (on_data ctx seq_id).1 ctx
unfolding on_data deliver_expected buffer_newer reorder_insert
on_data-SameSender ctx seq_id = ground (
  arith,
  drain-SameSender max_reorder (record ctx { expected_rx_seq = seq_next ctx.expected_rx_seq }),
)

pub on_data-IsValid :
    (ctx : Ctx) (seq_id : ℕ) → seq_id < 65536 → IsValid ctx → IsValid (on_data ctx seq_id).1
on_data-IsValid ctx seq_id small v =
    let (cfg, next, rtt, pending) = on_data-SameSender ctx seq_id in
    record {
      config = rw cfg v.config;
      next = rw next v.next;
      rtt = rw rtt v.rtt;
      room = rw pending v.room;
      slots = rw (cfg, pending) v.slots;
      receiver = (on_data_lem ctx seq_id v.receiver small).1.receiver;
    }
