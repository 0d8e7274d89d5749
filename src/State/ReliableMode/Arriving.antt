-- ===== src/State/ReliableMode/Arriving.antt =====
-- The arrival of a frame that is due on a RELIABLE channel, where the next one is not waiting in the
-- reorder buffer: it is delivered alone.
use relinow.Prelude.{
  ℕ, suc, sub16, ◌<◌, ◌≡◌, refl, ap, ap₂, subst, Bool, ◌∙◌, sym, inl, inr, List, [], ◌∷◌, none,
  some, true, false, arith, set, find_index, Bool-cases,
}
use relinow.Packet
use relinow.Packet.{mode_reliable, seq_next}
use relinow.Reliable
use relinow.Reliable.{
  Ctx, RxResult, rx_delivered, is_buffered, reorder_take_expected, drain, deliver_expected,
  last_in_order,
}
use relinow.Reliable.Delivery.{on_data_expected}
use relinow.State.Types.{ok, Channel, State}
use relinow.State.Lookup.{channel_at, put_channel, find_channel_mut}
use relinow.State.Lookup.Laws.{channel_at-put_channel, put_channel-put_channel}
use relinow.State.Queues.{is_free_slot, queued_slot, enqueue_rx}
use relinow.State.ReliableMode.{enqueue_delivered, note_expected, note_received, reliable_on_data}
use relinow.State.ReliableMode.RxQueue.{
  received, received-found, received-channel, reliable_on_data_lem,
}

-- What the context makes of a frame that is due, where the next one is not waiting in the buffer.
pub record IsAlone (ctx : Ctx) (q : ℕ) : Type 0 where
  pub small : q < 65536
  pub due : ctx.has_rx_window ≡ true → q ≡ ctx.expected_rx_seq
  pub alone : find_index (is_buffered (seq_next q)) ctx.reorder ≡ none

-- The context after it.
abbrev pub moved_past : Ctx → ℕ → Ctx
moved_past ctx q = record ctx { has_rx_window = true; expected_rx_seq = seq_next q }

-- The result: the frame's number is delivered and acknowledged.
abbrev pub delivers : ℕ → RxResult
delivers q = record { status = rx_delivered; delivered = q ∷ []; ack_id = q }

sub16-seq_next : (q : ℕ) → q < 65536 → sub16 (seq_next q) 1 ≡ q
unfolding seq_next
sub16-seq_next q small = omega arith

reorder_take_nothing :
    (ctx : Ctx) (e : ℕ)
    → find_index (is_buffered e) ctx.reorder ≡ none
    → reorder_take_expected ctx e ≡ (false, ctx)
unfolding reorder_take_expected
reorder_take_nothing ctx e absent = rw (absent, reorder_take_expected) refl

drain_nothing :
    (room : ℕ) (ctx : Ctx)
    → find_index (is_buffered ctx.expected_rx_seq) ctx.reorder ≡ none
    → drain (suc room) ctx ≡ (ctx, [])
unfolding drain
drain_nothing room ctx absent =
    let taken = reorder_take_nothing ctx ctx.expected_rx_seq absent in rw (taken, drain, taken) refl

deliver_expected_alone :
    (ctx : Ctx)
    → ctx.expected_rx_seq < 65536
    → ctx.has_rx_window ≡ true
    → find_index (is_buffered (seq_next ctx.expected_rx_seq)) ctx.reorder ≡ none
    → let q = ctx.expected_rx_seq in
      deliver_expected ctx q ≡ (Packet.ok, moved_past ctx q, delivers q)
unfolding deliver_expected
deliver_expected_alone ctx small has alone =
    let q = ctx.expected_rx_seq in
    let body = λ (r : Ctx × List ℕ).
      let result : RxResult = record {
        status = rx_delivered;
        delivered = q ∷ r.1;
        ack_id = last_in_order r.0;
      } in
      let out : Packet.Err × Ctx × RxResult = (Packet.ok, r.0, result) in out in
    let moved : Ctx = record ctx { expected_rx_seq = seq_next q } in
    let past = λ (opened : Bool) (ack_id : ℕ).
      let result : RxResult = record {
        status = rx_delivered;
        delivered = q ∷ [];
        ack_id = ack_id;
      } in
      let ctx' : Ctx = record moved { has_rx_window = opened } in
      let out : Packet.Err × Ctx × RxResult = (Packet.ok, ctx', result) in out in
    ap body (drain_nothing 7 moved alone) ∙ ap₂ past has (sub16-seq_next q small)

pub on_data_alone :
    (ctx : Ctx) (q : ℕ)
    → IsAlone ctx q
    → Reliable.on_data ctx q ≡ (Packet.ok, moved_past ctx q, delivers q)
unfolding Reliable.on_data
on_data_alone ctx q v = elim (Bool-cases ctx.has_rx_window) [
  | inr fresh ↦ rw (fresh, Reliable.on_data) refl
  | inl has ↦
      let due = v.due has in
      subst (λ (s : ℕ). Reliable.on_data ctx s ≡ (Packet.ok, moved_past ctx s, delivers s))
        (sym due)
        (on_data_expected ctx ctx.expected_rx_seq has refl
          ∙ deliver_expected_alone ctx (omega (arith, due, v.small)) has (rw (← due) v.alone))
]

-- The channel after it: the number is in the receive queue, at the place `j`.
abbrev pub taken_in : Channel → ℕ → ℕ → Channel
taken_in channel q j = record channel {
  reliable = moved_past channel.reliable q;
  rx_queue = set channel.rx_queue j (queued_slot q);
  expected_rx_seq = seq_next q;
}

enqueue_rx_into :
    (state : State) (p c i q j : ℕ) (channel : Channel)
    → find_channel_mut state p c ≡ some i
    → channel_at state p i ≡ channel
    → find_index is_free_slot channel.rx_queue ≡ some j
    → enqueue_rx state p c q ≡ (
      ok,
      put_channel state p i (record channel { rx_queue = set channel.rx_queue j (queued_slot q) }),
    )
unfolding enqueue_rx
enqueue_rx_into state p c i q j channel found there =
    subst
      (λ (ch : Channel).
        find_index is_free_slot ch.rx_queue ≡ some j
        → enqueue_rx state p c q ≡ (
          ok,
          put_channel state p i (record ch { rx_queue = set ch.rx_queue j (queued_slot q) }),
        ))
      there (λ free. rw (found, enqueue_rx, free) refl)

module _ (state : State) (p c i : ℕ) (found : find_channel_mut state p c ≡ some i) (q j : ℕ)
    (alone : IsAlone (channel_at state p i).reliable q)
    (free : find_index is_free_slot (channel_at state p i).rx_queue ≡ some j) where
  abbrev before : Channel
  before = channel_at state p i

  abbrev opened : State
  opened = received state p i (moved_past before.reliable q)

  abbrev queued : Channel
  queued = record before {
    reliable = moved_past before.reliable q;
    rx_queue = set before.rx_queue j (queued_slot q);
  }

  enqueue_rx_free : enqueue_rx opened p c q ≡ (ok, put_channel state p i queued)
  enqueue_rx_free =
      let ctx = moved_past before.reliable q in
      enqueue_rx_into opened p c i q j (record before { reliable = ctx })
        (received-found state p c i found ctx) (received-channel state p c i found ctx) free
      ∙ ap (λ (st : State). (ok, st)) (put_channel-put_channel state p c i found _ _)

  enqueue_delivered_free :
      enqueue_delivered opened p c (q ∷ []) ≡ (ok, put_channel state p i queued)
  unfolding enqueue_delivered
  enqueue_delivered_free = rw enqueue_rx_free refl

  -- The frame is taken in, delivered and acknowledged.
  pub reliable_on_data_alone :
      (out : RxResult)
      → before.mode ≡ mode_reliable
      → reliable_on_data state p c q out
        ≡ (ok, put_channel state p i (taken_in before q j), delivers q)
  unfolding note_received note_expected
  reliable_on_data_alone out mode =
      reliable_on_data_lem state p c i found mode q out
      ∙ (ap (note_received state p c i) (on_data_alone before.reliable q alone)
          ∙ rw
              (
                enqueue_delivered_free,
                channel_at-put_channel state p c i found queued,
                put_channel-put_channel state p c i found,
              )
              refl)
