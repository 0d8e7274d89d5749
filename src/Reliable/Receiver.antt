-- ===== src/Reliable/Receiver.antt =====
-- The receiving side: `relinow_reliable_on_data` delivers consecutive numbers, each once.
mod Drain
use relinow.Prelude.{
  ℕ, suc, ◌+◌, ◌≤◌, ◌<◌, ◌≡◌, refl, ap, subst, ◌∙◌, ◌⊎◌, inl, inr, List, [], ◌∷◌, ◌++◌, Option,
  Bool, true, false, ◌==◌, ==_iff, Bool-cases, if◌then◌else◌, arith, ltb, ltb→lt, length,
  length-append, count, count-le, u16, sub16, to_nat,
}
use relinow.Packet.{ok, is_seq_newer, seq_next}
use relinow.Packet.Seq.{seq_next-lt}
use relinow.Reliable.Types.{
  Ctx, Config, Reorder, RxResult, RxStatus, rx_delivered, rx_out_of_order, rx_duplicate, rx_dropped,
  max_reorder,
}
use relinow.Reliable.Setup.{init}
use relinow.Reliable.Receiving.{
  is_buffered, last_in_order, reorder_contains, reorder_insert, drain, nothing_delivered,
  deliver_expected, buffer_newer, on_data,
}
use relinow.Reliable.Slots.{buffered, used_reorder}
use relinow.Reliable.Window.{IsWindow, used_reorder-le, reorder_contains_iff, reorder_insert_lem}
pub use Drain.{consecutive, advance, consecutive-append}
use Drain.{advance-seq_next, IsLoop, IsDrained, moved_on, moved_on-IsLoop, drain_lem}

-- A receiver that has seen a frame has a window; before that its buffer is empty.
pub record IsReceiver (ctx : Ctx) : Type 0 where
  pub room : length ctx.reorder ≡ max_reorder
  pub opened : ctx.has_rx_window ≡ true → IsWindow ctx
  pub fresh : ctx.has_rx_window ≡ false → used_reorder ctx ≡ 0

-- The number that would be delivered next, were it to arrive: any, for a fresh receiver.
pub next_due : Ctx → ℕ → ℕ
next_due ctx seq_id = if ctx.has_rx_window then ctx.expected_rx_seq else seq_id

pub next_due_fresh : (ctx : Ctx) (s : ℕ) → ctx.has_rx_window ≡ false → next_due ctx s ≡ s
unfolding next_due
next_due_fresh ctx s h = ground arith

pub next_due_opened :
    (ctx : Ctx) (s : ℕ) → ctx.has_rx_window ≡ true → next_due ctx s ≡ ctx.expected_rx_seq
unfolding next_due
next_due_opened ctx s h = ground arith

-- What one call of `relinow_reliable_on_data` for `seq_id` may do, where `first` is the number due.
pub record IsReceived (ctx : Ctx) (seq_id first : ℕ) (ctx' : Ctx) (result : RxResult) : Type 0 where
  pub receiver : IsReceiver ctx'
  pub started : ctx'.has_rx_window ≡ true
  pub in_order : result.delivered ≡ consecutive first (length result.delivered)
  pub next : ctx'.expected_rx_seq ≡ advance first (length result.delivered)
  pub fits : length result.delivered ≤ 1 + max_reorder
  pub ack : result.ack_id ≡ sub16 ctx'.expected_rx_seq 1
  pub sound :
      (s : ℕ)
      → buffered ctx' s + count (λ d. d == s) result.delivered
        ≤ buffered ctx s + to_nat (seq_id == s)

window-absent : (ctx : Ctx) → IsWindow ctx → buffered ctx ctx.expected_rx_seq ≡ 0
unfolding is_seq_newer
window-absent ctx w = elim (Bool-cases (ltb 0 (buffered ctx ctx.expected_rx_seq))) [
  | inl some_there ↦
      let ahead = w.ahead ctx.expected_rx_seq (ltb→lt 0 _ some_there) in absurd (ground arith)
  | inr none_there ↦ ground arith
]

IsWindow-IsLoop : (ctx : Ctx) → IsWindow ctx → IsLoop ctx
IsWindow-IsLoop ctx w = record {
  expected = w.expected;
  room = w.room;
  distinct = w.distinct;
  ahead = λ s h. ((w.ahead s h).0, inr (w.ahead s h).1);
}

window-IsReceiver : (ctx : Ctx) → ctx.has_rx_window ≡ true → IsWindow ctx → IsReceiver ctx
window-IsReceiver ctx has w = record {
  room = w.room;
  opened = λ _. w;
  fresh = λ unopened. absurd (ground arith);
}

-- The first frame of all opens the window behind it.
abbrev pub opened_at : Ctx → ℕ → Ctx
opened_at ctx seq_id = record ctx { has_rx_window = true; expected_rx_seq = seq_next seq_id }

abbrev pub first_result : ℕ → RxResult
first_result seq_id = record { status = rx_delivered; delivered = seq_id ∷ []; ack_id = seq_id }

pub on_data_fresh :
    (ctx : Ctx) (seq_id : ℕ)
    → ctx.has_rx_window ≡ false
    → on_data ctx seq_id ≡ (ok, opened_at ctx seq_id, first_result seq_id)
unfolding on_data
on_data_fresh ctx seq_id h = ground arith

pub first-IsReceived :
    (ctx : Ctx) (seq_id : ℕ)
    → IsReceiver ctx
    → seq_id < 65536
    → ctx.has_rx_window ≡ false
    → IsReceived ctx seq_id seq_id (opened_at ctx seq_id) (first_result seq_id)
unfolding seq_next count
first-IsReceived ctx seq_id v small unopened =
    let empty = λ (s : ℕ). used_reorder-le ctx s in
    record {
      receiver = window-IsReceiver (opened_at ctx seq_id) refl (record {
        expected = omega arith;
        room = v.room;
        distinct = λ s. omega (arith, empty s, v.fresh unopened);
        ahead = λ s h. absurd (omega (arith, empty s, v.fresh unopened));
      });
      started = refl;
      in_order = refl;
      next = omega arith;
      fits = omega arith;
      ack = omega arith;
      sound = λ s. omega arith;
    }

-- The expected frame is delivered with all that follow it in the buffer.
pub expected-IsReceived :
    (ctx : Ctx)
    → IsWindow ctx
    → ctx.has_rx_window ≡ true
    → let (rc, ctx', result) = deliver_expected ctx ctx.expected_rx_seq in
      (rc ≡ ok) × IsReceived ctx ctx.expected_rx_seq ctx.expected_rx_seq ctx' result
unfolding deliver_expected count
expected-IsReceived ctx w has =
    let v = IsWindow-IsLoop ctx w in
    let start = moved_on ctx v ctx.reorder in
    let d =
      drain_lem max_reorder start
        (moved_on-IsLoop ctx v ctx.reorder refl (window-absent ctx w) (λ s. omega arith))
        (omega (arith, count-le (λ (slot : Reorder). slot.in_use) ctx.reorder, w.room)) in
    let still : (drain max_reorder start).0.has_rx_window ≡ true =
      ap (λ (c : Ctx). c.has_rx_window) d.others ∙ has in
    (
      refl,
      record {
        receiver = window-IsReceiver (drain max_reorder start).0 still d.window;
        started = still;
        in_order = ap (λ (l : List ℕ). ctx.expected_rx_seq ∷ l) d.in_order;
        next = d.next ∙ advance-seq_next ctx.expected_rx_seq (length (drain max_reorder start).1);
        fits = omega (arith, d.fits);
        ack = refl;
        sound = λ s. omega (arith, d.kept s);
      },
    )

-- A frame that delivers nothing leaves the expected number where it was.
pub nothing-IsReceived :
    (ctx ctx' : Ctx) (seq_id : ℕ) (status : RxStatus)
    → ctx'.has_rx_window ≡ true
    → IsWindow ctx'
    → ctx'.expected_rx_seq ≡ ctx.expected_rx_seq
    → ((s : ℕ) → buffered ctx' s ≤ buffered ctx s + to_nat (seq_id == s))
    → IsReceived ctx seq_id ctx.expected_rx_seq ctx' (nothing_delivered status ctx')
unfolding count
nothing-IsReceived ctx ctx' seq_id status has w same counts = record {
  receiver = window-IsReceiver ctx' has w;
  started = has;
  in_order = refl;
  next = omega (arith, w.expected);
  fits = omega arith;
  ack = refl;
  sound = λ s. omega (arith, counts s);
}

-- A number ahead of the expected one that is not in the buffer yet may be put there.
inserted-IsWindow :
    (ctx : Ctx) (n : ℕ) (slots : List Reorder)
    → IsWindow ctx
    → n < 65536
    → is_seq_newer n ctx.expected_rx_seq ≡ true
    → buffered ctx n ≡ 0
    → length slots ≡ length ctx.reorder
    → ((s : ℕ) → count (is_buffered s) slots ≡ buffered ctx s + to_nat (n == s))
    → IsWindow (record ctx { reorder = slots })
inserted-IsWindow ctx n slots w small newer absent len counts = record {
  expected = w.expected;
  room = len ∙ w.room;
  distinct = λ s. elim (Bool-cases (n == s)) [
    | inl same ↦
        subst (λ q. count (is_buffered q) slots ≤ 1) ((==_iff n s).0 same)
          (ground (arith, counts n))
    | inr ne ↦ ground (arith, counts s, w.distinct s)
  ];
  ahead = λ s h. elim (Bool-cases (n == s)) [
    | inl same ↦
        subst (λ q. (q < 65536) × (is_seq_newer q ctx.expected_rx_seq ≡ true)) ((==_iff n s).0 same)
          (small, newer)
    | inr ne ↦ w.ahead s (ground (arith, counts s))
  ];
}

-- A newer frame is buffered if it is not there yet and a slot is free, and else dropped.
pub newer-IsReceived :
    (ctx : Ctx) (seq_id : ℕ)
    → IsWindow ctx
    → ctx.has_rx_window ≡ true
    → seq_id < 65536
    → is_seq_newer seq_id ctx.expected_rx_seq ≡ true
    → let (rc, ctx', result) = buffer_newer ctx seq_id in
      (rc ≡ ok) × IsReceived ctx seq_id ctx.expected_rx_seq ctx' result
unfolding buffer_newer
newer-IsReceived ctx seq_id w has small newer = elim (reorder_contains_iff ctx seq_id) [
  | inl (there, _) ↦
      rw (there, buffer_newer)
        (refl, nothing-IsReceived ctx ctx seq_id rx_out_of_order has w refl (λ s. omega arith))
  | inr (away, absent) ↦ elim (reorder_insert_lem ctx seq_id) [
    | inl (e, _) ↦
        rw (away, buffer_newer, e)
          (refl, nothing-IsReceived ctx ctx seq_id rx_dropped has w refl (λ s. omega arith))
    | inr (slots, e, len, _, counts) ↦
        rw (away, buffer_newer, e)
          (
            refl,
            nothing-IsReceived ctx (record ctx { reorder = slots }) seq_id rx_out_of_order has
                (inserted-IsWindow ctx seq_id slots w small newer absent len counts) refl
                (λ s. omega (arith, counts s)),
          )
  ]
]
