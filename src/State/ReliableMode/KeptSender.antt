-- ===== src/State/ReliableMode/KeptSender.antt =====
-- `relinow_state_reliable_on_ack` and `relinow_state_reliable_poll` keep the mirror of the transmit
-- queue and the context.
use relinow.Prelude.{
  ℕ, ◌+◌, ◌-◌, ◌≡◌, refl, sym, ◌∙◌, ◌⊎◌, inl, inr, some, true, false, ◌&&◌, ◌==◌, leb, arith,
  length, get_or, count-set, find_index, find_index-some, to_nat, min, Bool-cases, Option-cases,
}
use relinow.Packet
use relinow.Packet.{mode_reliable}
use relinow.Reliable
use relinow.Reliable.Types.{
  Ctx, TxResult, TxEvent, tx_none, tx_retransmit, tx_failed, zero_pending, Pending,
}
use relinow.Reliable.Sending.{is_due, retried_slot, expire, poll}
use relinow.Reliable.Slots.{in_flight, used_pending}
use relinow.Reliable.Sender.{on_ack_lem, poll_lem}
use relinow.Reliable.Invariant.{IsValid, on_ack-IsValid, poll-IsValid}
use relinow.State.Types.{Channel, State}
use relinow.State.Lookup.{channel_at, put_channel, find_channel_mut}
use relinow.State.Lookup.Laws.{put_channel-put_channel}
use relinow.State.Queues.{is_queued, tx_remove_seq, clear_inflight}
use relinow.State.ReliableMode.{reliable_on_ack, after_poll, reliable_poll}
use relinow.State.ReliableMode.Over.{
  IsReliable, marked, cleared, over-channel, mark_inflight-over, clear_inflight-over,
}
use relinow.State.ReliableMode.Mirror.{IsMirror, waiting, used_tx, tx_remove_seq_lem}
use relinow.State.ReliableMode.Kept.{IsKept, with_ctx-IsReliable, unchanged}

removed-IsReliable :
    (c : ℕ) (channel : Channel) (q : ℕ)
    → IsReliable c channel
    → IsReliable c (tx_remove_seq channel q)
unfolding tx_remove_seq
removed-IsReliable c channel q v = elim (Option-cases (find_index (is_queued q) channel.tx_queue)) [
  | inl absent ↦ rw (tx_remove_seq, absent) v
  | inr (j, there) ↦ rw (tx_remove_seq, there) v
]

cleared-IsReliable :
    (c : ℕ) (channel : Channel) (q : ℕ) → IsReliable c channel → IsReliable c (cleared channel q)
cleared-IsReliable c channel q v =
    elim (Bool-cases (channel.has_inflight && channel.inflight_seq == q)) [
      | inl held ↦ rw held v
      | inr other ↦ rw other v
    ]

module _ (state : State) (p c i : ℕ) (found : find_channel_mut state p c ≡ some i)
    (mode : (channel_at state p i).mode ≡ mode_reliable)
    (mirror : IsMirror (channel_at state p i)) where
  abbrev before : Channel
  before = channel_at state p i

  abbrev with_ctx : Ctx → Channel
  with_ctx ctx = record before { reliable = ctx }

  -- The acknowledged or failed number leaves the queue as it leaves the context.
  removed-IsMirror :
      (channel : Channel) (q : ℕ)
      → IsValid channel.reliable
      → length channel.tx_queue ≡ length before.tx_queue
      → used_tx channel ≡ used_tx before
      → ((r : ℕ) → waiting channel r ≡ waiting before r)
      → used_pending channel.reliable + min 1 (in_flight before.reliable q)
        ≡ used_pending before.reliable
      → ((r : ℕ) → in_flight channel.reliable r ≡ in_flight before.reliable r - to_nat (q == r))
      → IsMirror (tx_remove_seq channel q)
  removed-IsMirror channel q valid len used waits spent left =
      let (len', used', waits', ctx_same) = tx_remove_seq_lem channel q in
      record {
        valid = rw ctx_same valid;
        tx_room = len' ∙ len ∙ mirror.tx_room;
        used = rw ctx_same (omega (arith, used', used, mirror.used, spent, waits q, mirror.same q));
        same = λ r. rw ctx_same (omega (arith, waits' r, waits r, mirror.same r, left r));
      }

  cleared_ctx-IsMirror :
      (ctx : Ctx) (q : ℕ)
      → IsValid ctx
      → used_pending ctx + min 1 (in_flight before.reliable q) ≡ used_pending before.reliable
      → ((r : ℕ) → in_flight ctx r ≡ in_flight before.reliable r - to_nat (q == r))
      → IsMirror (tx_remove_seq (cleared (with_ctx ctx) q) q)
  cleared_ctx-IsMirror ctx q valid spent left =
      elim (Bool-cases (before.has_inflight && before.inflight_seq == q)) [
        | inl held ↦ rw held (
            removed-IsMirror (record (with_ctx ctx) { has_inflight = false }) q valid refl refl
              (λ _. refl) spent left)
        | inr other ↦
            rw other (removed-IsMirror (with_ctx ctx) q valid refl refl (λ _. refl) spent left)
      ]

  pub removed_written :
      (ctx : Ctx) (q : ℕ)
      → let st = (clear_inflight (put_channel state p i (with_ctx ctx)) p c q).1 in
        put_channel st p i (tx_remove_seq (channel_at st p i) q)
        ≡ put_channel state p i (tx_remove_seq (cleared (with_ctx ctx) q) q)
  removed_written ctx q =
      let v = with_ctx-IsReliable state p c i found mode mirror ctx in
      let w = cleared-IsReliable c (with_ctx ctx) q v in
      rw
        (
          clear_inflight-over state p c i found (with_ctx ctx) v q,
          over-channel state p c i found (cleared (with_ctx ctx) q) w,
        )
        (put_channel-put_channel state p c i found _ _)

  removed-IsKept :
      (ctx : Ctx) (q : ℕ)
      → IsValid ctx
      → used_pending ctx + min 1 (in_flight before.reliable q) ≡ used_pending before.reliable
      → ((r : ℕ) → in_flight ctx r ≡ in_flight before.reliable r - to_nat (q == r))
      → let st = (clear_inflight (put_channel state p i (with_ctx ctx)) p c q).1 in
        IsKept state p c i (put_channel st p i (tx_remove_seq (channel_at st p i) q))
  removed-IsKept ctx q valid spent left = record {
    channel = tx_remove_seq (cleared (with_ctx ctx) q) q;
    written = removed_written ctx q;
    reliable = removed-IsReliable c (cleared (with_ctx ctx) q) q (
        cleared-IsReliable c (with_ctx ctx) q
          (with_ctx-IsReliable state p c i found mode mirror ctx));
    mirror = cleared_ctx-IsMirror ctx q valid spent left;
  }

  in_mode : (before.mode == mode_reliable) ≡ true
  in_mode = rw mode refl

  pub reliable_on_ack-IsKept :
      (ack_id now_ms : ℕ) → IsKept state p c i (reliable_on_ack state p c ack_id now_ms).1
  unfolding reliable_on_ack
  reliable_on_ack-IsKept ack_id now_ms =
      let ctx = (Reliable.on_ack before.reliable ack_id now_ms).1 in
      let valid = on_ack-IsValid before.reliable ack_id now_ms mirror.valid in
      let (event, left, spent, next, any) = on_ack_lem before.reliable ack_id now_ms in
      rw (found, reliable_on_ack, in_mode) (removed-IsKept ctx ack_id valid spent left)

  pub poll_used :
      (now_ms : ℕ)
      → let (rc, ctx, result) = poll before.reliable now_ms in
        (result.event ≡ tx_failed → used_pending ctx + 1 ≡ used_pending before.reliable)
        × (result.event ≡ tx_retransmit → used_pending ctx ≡ used_pending before.reliable)
  unfolding poll expire
  poll_used now_ms =
      let slots = before.reliable.pending in
      elim (Option-cases (find_index (is_due now_ms) slots)) [
        | inl e ↦ rw (e, poll) ((λ h. absurd (ground arith)), (λ h. absurd (ground arith)))
        | inr (j, e) ↦
            let (inside, due) = find_index-some (is_due now_ms) slots j zero_pending e in
            let slot = get_or slots j zero_pending in
            let used = λ (v : Pending).
              count-set (λ (s : Pending). s.in_use) slots j v zero_pending inside in
            elim (Bool-cases (leb before.reliable.cfg.max_retries slot.retries)) [
              | inl spent ↦
                  rw (e, poll, spent, expire)
                    (
                      (λ h. ground (arith, used (record slot { in_use = false }))),
                      (λ h. absurd (ground arith)),
                    )
              | inr left ↦
                  rw (e, poll, left, expire)
                    (
                      (λ h. absurd (ground arith)),
                      (λ h. ground (arith, used (retried_slot before.reliable now_ms slot))),
                    )
            ]
      ]

  after_poll-IsKept :
      (rc : Packet.Err) (ctx : Ctx) (event : TxEvent) (q : ℕ)
      → rc ≡ Packet.ok
      → IsValid ctx
      → ((event ≡ tx_none) × (ctx ≡ before.reliable))
        ⊎ ((event ≡ tx_retransmit) × IsMirror (with_ctx ctx))
        ⊎ ((event ≡ tx_failed)
            × (used_pending ctx + min 1 (in_flight before.reliable q)
                ≡ used_pending before.reliable)
            × ((r : ℕ) → in_flight ctx r ≡ in_flight before.reliable r - to_nat (q == r)))
      → IsKept state p c i
          (after_poll state p c i (rc, ctx, record { event = event; seq_id = q })).1
  unfolding after_poll
  after_poll-IsKept rc ctx event q ok valid (inl (e, same)) =
      rw (ok, e) (unchanged state p c i found mode mirror ctx same)
  after_poll-IsKept rc ctx event q ok valid (inr (inl (e, m))) =
      let v = with_ctx-IsReliable state p c i found mode mirror ctx in
      rw (ok, e)
        (record {
          channel = marked (with_ctx ctx) q;
          written = mark_inflight-over state p c i found (with_ctx ctx) v q;
          reliable = v;
          mirror = record { valid = m.valid; tx_room = m.tx_room; used = m.used; same = m.same };
        })
  after_poll-IsKept rc ctx event q ok valid (inr (inr (e, spent, left))) =
      rw (ok, e) (removed-IsKept ctx q valid spent left)

  pub reliable_poll-IsKept :
      (now_ms : ℕ) (out : TxResult) → IsKept state p c i (reliable_poll state p c now_ms out).1
  unfolding reliable_poll
  reliable_poll-IsKept now_ms out =
      let (rc, ctx, result) = poll before.reliable now_ms in
      let valid = poll-IsValid before.reliable now_ms mirror.valid in
      let (fine, outcome) = poll_lem before.reliable now_ms in
      let (failed_used, resent_used) = poll_used now_ms in
      rw (found, reliable_poll, in_mode)
        (after_poll-IsKept rc ctx result.event result.seq_id fine valid (elim outcome [
          | inl (e, same, idle) ↦ inl (e, same)
          | inr (j, due, first, number, inl (e, more, flying)) ↦ inr (
              inl (
                e,
                record {
                  valid = valid;
                  tx_room = mirror.tx_room;
                  used = mirror.used ∙ sym (resent_used e);
                  same = λ r. mirror.same r ∙ sym (flying r);
                },
              ))
          | inr (j, due, first, number, inr (e, spent, flew, left)) ↦
              inr (inr (e, omega (arith, failed_used e, flew), left))
        ]))
