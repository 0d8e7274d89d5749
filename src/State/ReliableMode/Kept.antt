-- ===== src/State/ReliableMode/Kept.antt =====
-- `relinow_state_reliable_send` keeps the mirror of the transmit queue and the context.
use relinow.Prelude.{
  ℕ, ◌+◌, ◌<◌, ◌≡◌, ap, ◌∙◌, ◌⊎◌, inl, inr, some, ◌==◌, arith, find_index, to_nat, Option-cases,
}
use relinow.Packet
use relinow.Packet.{mode_reliable}
use relinow.Reliable
use relinow.Reliable.Types.{Ctx, TxResult, tx_new}
use relinow.Reliable.Slots.{in_flight, used_pending}
use relinow.Reliable.Sender.{send_lem}
use relinow.Reliable.Invariant.{IsValid, send-IsValid}
use relinow.State.Types.{Channel, State}
use relinow.State.Lookup.{channel_at, put_channel, find_channel_mut}
use relinow.State.Lookup.Laws.{channel_matches}
use relinow.State.Queues.{is_free_slot, enqueue_tx}
use relinow.State.ReliableMode.{after_send, reliable_send}
use relinow.State.ReliableMode.Over.{
  IsReliable, marked, queued, mark_inflight-over, enqueue_tx-over,
}
use relinow.State.ReliableMode.Mirror.{IsMirror, queued_lem}

-- A state that differs from another at most in one channel, which is RELIABLE and has its mirror.
pub record IsKept (state : State) (p c i : ℕ) (state' : State) : Type 0 where
  pub channel : Channel
  pub written : state' ≡ put_channel state p i channel
  pub reliable : IsReliable c channel
  pub mirror : IsMirror channel

queued-IsReliable :
    (c : ℕ) (channel : Channel) (q : ℕ) → IsReliable c channel → IsReliable c (queued channel q)
unfolding queued
queued-IsReliable c channel q v = elim (Option-cases (find_index is_free_slot channel.tx_queue)) [
  | inl full ↦ rw (queued, full) v
  | inr (j, free) ↦ rw (queued, free) v
]

module _ (state : State) (p c i : ℕ) (found : find_channel_mut state p c ≡ some i)
    (mode : (channel_at state p i).mode ≡ mode_reliable)
    (mirror : IsMirror (channel_at state p i)) where
  abbrev before : Channel
  before = channel_at state p i

  abbrev with_ctx : Ctx → Channel
  with_ctx ctx = record before { reliable = ctx }

  pub with_ctx-IsReliable : (ctx : Ctx) → IsReliable c (with_ctx ctx)
  with_ctx-IsReliable ctx = ((channel_matches state p c i found).1, mode)

  send-IsMirror :
      (ctx : Ctx) (q : ℕ)
      → IsValid ctx
      → used_pending before.reliable < 16
      → used_pending ctx ≡ used_pending before.reliable + 1
      → ((r : ℕ) → in_flight ctx r ≡ in_flight before.reliable r + to_nat (q == r))
      → IsMirror (queued (marked (with_ctx ctx) q) q)
  send-IsMirror ctx q valid room used same =
      let (len, used', waits, ctx_same) =
        queued_lem (marked (with_ctx ctx) q) q (omega (arith, mirror.used, mirror.tx_room)) in
      record {
        valid = rw ctx_same valid;
        tx_room = len ∙ mirror.tx_room;
        used = rw ctx_same (omega (arith, used', mirror.used, used));
        same = λ r. rw ctx_same (omega (arith, waits r, mirror.same r, same r));
      }

  pub after_send_new :
      (ctx : Ctx) (q : ℕ)
      → (after_send state p c i (Packet.ok, ctx, record { event = tx_new; seq_id = q })).1
        ≡ put_channel state p i (queued (marked (with_ctx ctx) q) q)
  unfolding after_send
  after_send_new ctx q =
      let v = with_ctx-IsReliable ctx in
      ap (λ (st : State). (enqueue_tx st p c q).1)
        (mark_inflight-over state p c i found (with_ctx ctx) v q)
      ∙ enqueue_tx-over state p c i found (marked (with_ctx ctx) q) v q

  pub unchanged :
      (ctx : Ctx)
      → ctx ≡ before.reliable
      → IsKept state p c i (put_channel state p i (with_ctx ctx))
  unchanged ctx same = record {
    channel = before;
    written = ap (λ (x : Ctx). put_channel state p i (with_ctx x)) same;
    reliable = with_ctx-IsReliable before.reliable;
    mirror = mirror;
  }

  after_send-IsKept :
      (rc : Packet.Err) (ctx : Ctx) (result : TxResult)
      → ((rc ≡ Packet.invalid_packet) × (ctx ≡ before.reliable))
        ⊎ ((q : ℕ) × (rc ≡ Packet.ok)
            × (result ≡ record { event = tx_new; seq_id = q })
            × IsMirror (queued (marked (with_ctx ctx) q) q))
      → IsKept state p c i (after_send state p c i (rc, ctx, result)).1
  unfolding after_send
  after_send-IsKept rc ctx result (inl (e, same)) = rw e (unchanged ctx same)
  after_send-IsKept rc ctx result (inr (q, e, new, m)) =
      rw (e, new)
        (record {
          channel = queued (marked (with_ctx ctx) q) q;
          written = after_send_new ctx q;
          reliable = queued-IsReliable c (marked (with_ctx ctx) q) q (with_ctx-IsReliable ctx);
          mirror = m;
        })

  pub reliable_send-IsKept :
      (now_ms : ℕ) (out : TxResult) → IsKept state p c i (reliable_send state p c now_ms out).1
  unfolding reliable_send
  reliable_send-IsKept now_ms out =
      let (rc, ctx, result) = Reliable.send before.reliable now_ms out in
      let valid = send-IsValid before.reliable now_ms out mirror.valid in
      rw (found, reliable_send, mode)
        (after_send-IsKept rc ctx result (elim (send_lem before.reliable now_ms out) [
          | inl (full, refused, same, untouched) ↦ inl (refused, same)
          | inr (room, accepted, new, next, used, flying, others) ↦ inr (
            before.reliable.next_tx_seq,
            accepted,
            new,
            send-IsMirror ctx before.reliable.next_tx_seq valid
                (omega (arith, room, mirror.valid.room)) used flying,
          )
        ]))
