-- ===== src/Reliable/Sending.antt =====
-- The sending side: timeouts, `relinow_reliable_send`, `relinow_reliable_on_ack` and
-- `relinow_reliable_poll`.
use relinow.Prelude.{
  ℕ, ◌+◌, ◌*◌, ◌/◌, Option, none, some, Bool, true, false, not, ◌&&◌, ltb, leb, ◌==◌, if◌then◌else◌,
  u8, u16, u32, sub32, get_or, set, find_index,
}
use relinow.Packet.{Err, ok, invalid_packet, seq_next}
use relinow.Reliable.Types.{
  TxEvent, TxResult, Pending, Ctx, zero_pending, tx_none, tx_new, tx_retransmit, tx_failed,
}

-- The `timeout` of `relinow_compute_timeout_ms` before it is bounded.
raw_timeout_ms : ℕ → ℕ → ℕ
raw_timeout_ms rtt_ms retry_index =
    if retry_index == 0
    then u32 (rtt_ms * 3) / 2
    else if retry_index == 1
    then u32 (rtt_ms * 2)
    else u32 (rtt_ms * 3)

-- `timeout == 0u` becomes 1, and a value past `uint16_t` its largest.
bound_timeout_ms : ℕ → ℕ
bound_timeout_ms timeout =
    let raised = if timeout == 0 then 1 else timeout in
    u16 (if ltb 65535 raised then 65535 else raised)

-- The static `relinow_compute_timeout_ms`
unfoldable pub compute_timeout_ms : ℕ → ℕ → ℕ
unfolding raw_timeout_ms bound_timeout_ms
compute_timeout_ms rtt_ms retry_index = bound_timeout_ms (raw_timeout_ms rtt_ms retry_index)

-- The tests of the search loops.
abbrev pub is_pending : ℕ → Pending → Bool
is_pending seq_id slot = slot.in_use && slot.seq_id == seq_id

abbrev pub is_free_pending : Pending → Bool
is_free_pending slot = not slot.in_use

-- `relinow_find_pending_slot`: the slot's index, or the null pointer.
unfoldable pub find_pending_slot : Ctx → ℕ → Option ℕ
find_pending_slot ctx seq_id = find_index (is_pending seq_id) ctx.pending

-- `relinow_find_free_pending_slot`
unfoldable pub find_free_pending_slot : Ctx → Option ℕ
find_free_pending_slot ctx = find_index is_free_pending ctx.pending

-- The slot that `relinow_reliable_send` fills.
abbrev pub sent_slot : Ctx → ℕ → Pending
sent_slot ctx now_ms = record {
  in_use = true;
  seq_id = ctx.next_tx_seq;
  last_send_ms = now_ms;
  timeout_ms = compute_timeout_ms ctx.rtt_estimate_ms 0;
  retries = 0;
}

-- `relinow_reliable_send`; the last argument and the last result are `*out_result`.
unfoldable pub send : Ctx → ℕ → TxResult → Err × Ctx × TxResult
unfolding find_free_pending_slot
send ctx now_ms out_result = elim (find_free_pending_slot ctx) [
  | none ↦ (invalid_packet, ctx, out_result)
  | some i ↦ (
    ok,
    record ctx {
      pending = set ctx.pending i (sent_slot ctx now_ms);
      next_tx_seq = seq_next ctx.next_tx_seq;
    },
    record { event = tx_new; seq_id = ctx.next_tx_seq },
  )
]

-- The new estimate that `relinow_reliable_on_ack` computes for a frame last sent at `sent_ms`.
unfoldable pub smoothed_rtt_ms : Ctx → ℕ → ℕ → ℕ
smoothed_rtt_ms ctx sent_ms now_ms =
    let elapsed = sub32 now_ms sent_ms in
    let sample = if ltb 65535 elapsed then 65535 else elapsed in
    let old_part = u32 (sub32 256 ctx.cfg.rtt_alpha_q8 * ctx.rtt_estimate_ms) in
    let new_part = u32 (ctx.cfg.rtt_alpha_q8 * sample) in
    let estimate = u16 (u32 (old_part + new_part) / 256) in if estimate == 0 then 1 else estimate

-- `relinow_reliable_on_ack`
unfoldable pub on_ack : Ctx → ℕ → ℕ → TxEvent × Ctx
unfolding find_pending_slot
on_ack ctx ack_id now_ms = elim (find_pending_slot ctx ack_id) [
  | none ↦ (tx_none, ctx)
  | some i ↦
      let slot = get_or ctx.pending i zero_pending in
      (
        tx_none,
        record ctx {
          rtt_estimate_ms = smoothed_rtt_ms ctx slot.last_send_ms now_ms;
          pending = set ctx.pending i (record slot { in_use = false });
        },
      )
]

-- The tests that let the loop of `relinow_reliable_poll` go on to a slot's body.
abbrev pub is_due : ℕ → Pending → Bool
is_due now_ms slot = slot.in_use && not (ltb (sub32 now_ms slot.last_send_ms) slot.timeout_ms)

-- The slot after one more retransmission.
abbrev pub retried_slot : Ctx → ℕ → Pending → Pending
retried_slot ctx now_ms slot = record slot {
  last_send_ms = now_ms;
  timeout_ms = compute_timeout_ms ctx.rtt_estimate_ms (u8 (slot.retries + 1));
  retries = u8 (slot.retries + 1);
}

-- The body of that loop, at the slot of index `i`: it returns.
unfoldable pub expire : Ctx → ℕ → ℕ → Pending → Err × Ctx × TxResult
expire ctx now_ms i slot =
    if leb ctx.cfg.max_retries slot.retries
    then (
      ok,
      record ctx { pending = set ctx.pending i (record slot { in_use = false }) },
      record { event = tx_failed; seq_id = slot.seq_id },
    )
    else (
      ok,
      record ctx { pending = set ctx.pending i (retried_slot ctx now_ms slot) },
      record { event = tx_retransmit; seq_id = slot.seq_id },
    )

-- `relinow_reliable_poll`: it always stores `*out_result`, the last result.
unfoldable pub poll : Ctx → ℕ → Err × Ctx × TxResult
poll ctx now_ms = elim (find_index (is_due now_ms) ctx.pending) [
  | none ↦ (ok, ctx, record { event = tx_none; seq_id = 0 })
  | some i ↦ expire ctx now_ms i (get_or ctx.pending i zero_pending)
]

-- `relinow_reliable_current_rtt_ms`
unfoldable pub current_rtt_ms : Ctx → ℕ
current_rtt_ms ctx = ctx.rtt_estimate_ms

-- The public `relinow_reliable_compute_timeout_ms`
unfoldable pub current_timeout_ms : Ctx → ℕ → ℕ
unfolding compute_timeout_ms
current_timeout_ms ctx retry_index = compute_timeout_ms ctx.rtt_estimate_ms retry_index
