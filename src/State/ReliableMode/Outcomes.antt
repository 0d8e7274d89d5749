-- ===== src/State/ReliableMode/Outcomes.antt =====
-- What a frame's send, arrival and acknowledgment return on a RELIABLE channel, and what they leave
-- of its context.
use relinow.Prelude.{
  ℕ, ◌+◌, ◌-◌, ◌<◌, ◌≡◌, refl, ap, ◌∙◌, inl, inr, true, ◌==◌, ◌&&◌, arith, to_nat, min, Bool-cases,
}
use relinow.Packet
use relinow.Packet.{mode_reliable}
use relinow.Reliable
use relinow.Reliable.{Ctx, TxResult, TxEvent, tx_none, tx_new, tx_retransmit, tx_failed}
use relinow.Reliable.Slots.{in_flight, used_pending}
use relinow.Reliable.Sender.{on_ack_lem, poll_lem}
use relinow.State.Types.{StateErr, ok, Channel, State, tx_queue_size}
use relinow.State.Lookup.{channel_at, put_channel}
use relinow.State.Lookup.Laws.{channel_at-put_channel}
use relinow.State.Queues.{tx_remove_seq, clear_inflight}
use relinow.State.ReliableMode.{reliable_send, reliable_on_ack, after_poll}
use relinow.State.ReliableMode.Over.{cleared, marked, mark_inflight-over}
use relinow.State.ReliableMode.Mirror.{used_tx, tx_remove_seq_lem}
use relinow.State.ReliableMode.Kept.{with_ctx-IsReliable}
use relinow.State.ReliableMode.KeptSender.{removed_written}
use relinow.State.ReliableMode.History.{sending, acknowledged, step, IsHeld, step-IsHeld}
use relinow.State.ReliableMode.Accepting.{reliable_send_mirrored}

-- The context of a channel, and how often a number is in flight there.
abbrev pub ctx_at : State → ℕ → ℕ → Ctx
ctx_at state p i = (channel_at state p i).reliable

abbrev pub flying : State → ℕ → ℕ → ℕ → ℕ
flying state p i q = in_flight (ctx_at state p i) q

module _ (state : State) (p c i : ℕ) (h : IsHeld state p c i) (now_ms : ℕ) where
  -- What a send that finds room leaves.
  pub record IsSent (r : StateErr × State × TxResult) : Type 0 where
    pub accepted : r.0 ≡ ok
    pub result : r.2 ≡ record { event = tx_new; seq_id = (ctx_at state p i).next_tx_seq }
    pub held : IsHeld r.1 p c i
    pub flights :
        (q : ℕ)
        → flying r.1 p i q ≡ flying state p i q + to_nat ((ctx_at state p i).next_tx_seq == q)
    pub used : used_pending (ctx_at r.1 p i) ≡ used_pending (ctx_at state p i) + 1

  pub reliable_send-IsSent :
      (out : TxResult)
      → used_tx (channel_at state p i) < tx_queue_size
      → IsSent (reliable_send state p c now_ms out)
  unfolding step
  reliable_send-IsSent out room = elim (reliable_send_mirrored state p c i h out now_ms) [
    | inl (e, full, same, untouched) ↦ absurd (omega (arith, full, room))
    | inr (e, less, result, more, waits) ↦
        let held = step-IsHeld state p c i (sending now_ms out) tt h in
        record {
          accepted = e;
          result = result;
          held = held;
          flights = λ q. omega (arith, held.mirror.same q, waits q, h.mirror.same q);
          used = omega (arith, held.mirror.used, more, h.mirror.used);
        }
  ]

  -- What an acknowledgment leaves.
  pub record IsAcked (ack_id : ℕ) (r : StateErr × State) : Type 0 where
    pub accepted : r.0 ≡ ok
    pub held : IsHeld r.1 p c i
    pub flights : (q : ℕ) → flying r.1 p i q ≡ flying state p i q - to_nat (ack_id == q)
    pub used :
        used_pending (ctx_at r.1 p i) + min 1 (flying state p i ack_id)
        ≡ used_pending (ctx_at state p i)

  cleared-ctx : (channel : Channel) (q : ℕ) → (cleared channel q).reliable ≡ channel.reliable
  cleared-ctx channel q = elim (Bool-cases (channel.has_inflight && channel.inflight_seq == q)) [
    | inl held ↦ rw held refl
    | inr other ↦ rw other refl
  ]

  with_ctx : Ctx → Channel
  with_ctx ctx = record (channel_at state p i) { reliable = ctx }

  -- The bookkeeping of a number that leaves keeps the context.
  removed-ctx :
      (ctx : Ctx) (q : ℕ)
      → let st = (clear_inflight (put_channel state p i (with_ctx ctx)) p c q).1 in
        ctx_at (put_channel st p i (tx_remove_seq (channel_at st p i) q)) p i ≡ ctx
  unfolding with_ctx
  removed-ctx ctx q =
      let gone = cleared (with_ctx ctx) q in
      let (len, used, waits, same) = tx_remove_seq_lem gone q in
      ap (λ (st : State). ctx_at st p i) (removed_written state p c i h.found h.mode h.mirror ctx q)
      ∙ ap (λ (ch : Channel). ch.reliable)
          (channel_at-put_channel state p c i h.found (tx_remove_seq gone q))
      ∙ same
      ∙ cleared-ctx (with_ctx ctx) q

  in_mode : ((channel_at state p i).mode == mode_reliable) ≡ true
  in_mode = rw h.mode refl

  acked-ctx :
      (ack_id : ℕ)
      → ctx_at (reliable_on_ack state p c ack_id now_ms).1 p i
        ≡ (Reliable.on_ack (ctx_at state p i) ack_id now_ms).1
  unfolding reliable_on_ack with_ctx
  acked-ctx ack_id =
      rw (h.found, reliable_on_ack, in_mode)
        (removed-ctx (Reliable.on_ack (ctx_at state p i) ack_id now_ms).1 ack_id)

  pub reliable_on_ack-IsAcked :
      (ack_id : ℕ) → IsAcked ack_id (reliable_on_ack state p c ack_id now_ms)
  unfolding reliable_on_ack step
  reliable_on_ack-IsAcked ack_id = record {
    accepted = rw (h.found, reliable_on_ack, in_mode) refl;
    held = step-IsHeld state p c i (acknowledged ack_id now_ms) tt h;
    flights = λ q. rw (acked-ctx ack_id) ((on_ack_lem (ctx_at state p i) ack_id now_ms).1 q);
    used =
        let (event, left, spent, next, any) = on_ack_lem (ctx_at state p i) ack_id now_ms in
        rw (acked-ctx ack_id) spent;
  }

  polled-ctx :
      (ctx : Ctx) (event : TxEvent) (q : ℕ)
      → ctx_at (after_poll state p c i (Packet.ok, ctx, record { event = event; seq_id = q })).1 p i
        ≡ ctx
  unfolding after_poll with_ctx
  polled-ctx ctx tx_none q =
      ap (λ (ch : Channel). ch.reliable) (channel_at-put_channel state p c i h.found (with_ctx ctx))
  polled-ctx ctx tx_new q =
      ap (λ (ch : Channel). ch.reliable) (channel_at-put_channel state p c i h.found (with_ctx ctx))
  polled-ctx ctx tx_retransmit q =
      ap (λ (st : State). ctx_at st p i)
        (mark_inflight-over state p c i h.found (with_ctx ctx)
          (with_ctx-IsReliable state p c i h.found h.mode h.mirror ctx) q)
      ∙ ap (λ (ch : Channel). ch.reliable)
          (channel_at-put_channel state p c i h.found (marked (with_ctx ctx) q))
  polled-ctx ctx tx_failed q = removed-ctx ctx q

  -- A poll leaves the context as its own poll does.
  pub after_poll-ctx :
      ctx_at (after_poll state p c i (Reliable.poll (ctx_at state p i) now_ms)).1 p i
      ≡ (Reliable.poll (ctx_at state p i) now_ms).1
  after_poll-ctx =
      let (rc, ctx, result) = Reliable.poll (ctx_at state p i) now_ms in
      let fine = (poll_lem (ctx_at state p i) now_ms).0 in
      ap (λ (r : Packet.Err). ctx_at (after_poll state p c i (r, ctx, result)).1 p i) fine
      ∙ polled-ctx ctx result.event result.seq_id
