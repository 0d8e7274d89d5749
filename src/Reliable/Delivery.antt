-- ===== src/Reliable/Delivery.antt =====
-- What the application receives over any number of calls of `relinow_reliable_on_data`.
use relinow.Prelude.{
  ℕ, ◌+◌, ◌≤◌, ◌<◌, ◌≡◌, refl, ap, ap₂, sym, ◌∙◌, List, [], ◌∷◌, ◌++◌, true, false, ◌==◌, ==_iff,
  Bool-cases, inl, inr, arith, length, length-append, count, count-append,
}
use relinow.Packet.{ok, is_seq_newer}
use relinow.Reliable.Types.{Ctx, rx_duplicate}
use relinow.Reliable.Receiving.{nothing_delivered, deliver_expected, buffer_newer, on_data}
use relinow.Reliable.Slots.{buffered}
use relinow.Reliable.Receiver.{
  IsReceiver, IsReceived, next_due, next_due_fresh, next_due_opened, consecutive, advance,
  consecutive-append, on_data_fresh, first-IsReceived, expected-IsReceived, newer-IsReceived,
  nothing-IsReceived,
}

pub on_data_expected :
    (ctx : Ctx) (seq_id : ℕ)
    → ctx.has_rx_window ≡ true
    → seq_id ≡ ctx.expected_rx_seq
    → on_data ctx seq_id ≡ deliver_expected ctx ctx.expected_rx_seq
unfolding on_data
on_data_expected ctx seq_id has here = rw here (ground arith)

on_data_newer :
    (ctx : Ctx) (seq_id : ℕ)
    → ctx.has_rx_window ≡ true
    → (seq_id == ctx.expected_rx_seq) ≡ false
    → is_seq_newer seq_id ctx.expected_rx_seq ≡ true
    → on_data ctx seq_id ≡ buffer_newer ctx seq_id
unfolding on_data
on_data_newer ctx seq_id has other newer = ground arith

pub on_data_older :
    (ctx : Ctx) (seq_id : ℕ)
    → ctx.has_rx_window ≡ true
    → (seq_id == ctx.expected_rx_seq) ≡ false
    → is_seq_newer seq_id ctx.expected_rx_seq ≡ false
    → on_data ctx seq_id ≡ (ok, ctx, nothing_delivered rx_duplicate ctx)
unfolding on_data
on_data_older ctx seq_id has other older = ground arith

-- One frame with a 16-bit number, at a receiver whose invariant holds: the call succeeds; what it
-- delivers are consecutive numbers that start with the number due, no more than the nine that the
-- result has room for; the expected number moves past exactly those; the acknowledgment names the
-- last number before it; no number is delivered or kept more often than it was in the buffer or in
-- the frame; and the invariant holds again, whether the frame was due, early, late, repeated or
-- too far ahead to be kept.
pub on_data_lem :
    (ctx : Ctx) (seq_id : ℕ)
    → IsReceiver ctx
    → seq_id < 65536
    → let (rc, ctx', result) = on_data ctx seq_id in
      (rc ≡ ok) × IsReceived ctx seq_id (next_due ctx seq_id) ctx' result
on_data_lem ctx seq_id v small = elim (Bool-cases ctx.has_rx_window) [
  | inr unopened ↦
      rw (on_data_fresh ctx seq_id unopened, next_due_fresh ctx seq_id unopened)
        (refl, first-IsReceived ctx seq_id v small unopened)
  | inl has ↦
      rw (next_due_opened ctx seq_id has) (elim (Bool-cases (seq_id == ctx.expected_rx_seq)) [
        | inl here ↦
            rw
              (
                (==_iff seq_id ctx.expected_rx_seq).0 here,
                on_data_expected ctx ctx.expected_rx_seq has refl,
              )
              (expected-IsReceived ctx (v.opened has) has)
        | inr other ↦ elim (Bool-cases (is_seq_newer seq_id ctx.expected_rx_seq)) [
          | inl newer ↦
              rw (on_data_newer ctx seq_id has other newer)
                (newer-IsReceived ctx seq_id (v.opened has) has small newer)
          | inr older ↦ rw (on_data_older ctx seq_id has other older) (
            refl,
            nothing-IsReceived ctx ctx seq_id rx_duplicate has (v.opened has) refl
                (λ s. omega arith),
          )
        ]
      ])
]

-- The frame that was due is a duplicate once it has been delivered.
pub on_data_repeated :
    (ctx : Ctx)
    → IsReceiver ctx
    → ctx.has_rx_window ≡ true
    → let ctx' = (on_data ctx ctx.expected_rx_seq).1 in
      on_data ctx' ctx.expected_rx_seq ≡ (ok, ctx', nothing_delivered rx_duplicate ctx')
unfolding is_seq_newer deliver_expected
on_data_repeated ctx v has =
    let seq_id = ctx.expected_rx_seq in
    let small = (v.opened has).expected in
    let step = (on_data_lem ctx seq_id v small).1 in
    let ctx' = (on_data ctx seq_id).1 in
    let next = rw (next_due_opened ctx seq_id has) at step.next in
    let some_delivered : 1 ≤ length (on_data ctx seq_id).2.delivered =
      rw (on_data_expected ctx seq_id has refl) (omega arith) in
    on_data_older ctx' seq_id step.started (ground (arith, next, step.fits, some_delivered))
      (ground (arith, next, step.fits, some_delivered))

-- Frames as they arrive, and all numbers delivered, in order of delivery.
unfoldable pub receive_all : Ctx → List ℕ → Ctx × List ℕ
receive_all ctx [] = (ctx, [])
receive_all ctx (seq_id ∷ frames) =
    let (rc, ctx', result) = on_data ctx seq_id in
    let (last, rest) = receive_all ctx' frames in (last, result.delivered ++ rest)

-- Every frame carries a 16-bit number.
abbrev pub IsFrames : List ℕ → Type 0
IsFrames [] = Unit {0}
IsFrames (s ∷ frames) = (s < 65536) × IsFrames frames

pub chained :
    (first : ℕ) (xs ys : List ℕ)
    → first < 65536
    → xs ≡ consecutive first (length xs)
    → ys ≡ consecutive (advance first (length xs)) (length ys)
    → xs ++ ys ≡ consecutive first (length (xs ++ ys))
chained first xs ys small p q =
    ap₂ ◌++◌ p q
    ∙ (consecutive-append first (length xs) (length ys) small
        ∙ ap (consecutive first) (sym (length-append xs ys)))

-- Whatever frames with 16-bit numbers arrive at a receiver that has its window open and whose
-- invariant holds, in whatever order and however often, the application receives consecutive
-- numbers that start with the expected one: none is skipped, repeated or out of order. The
-- expected number ends up just past them, each delivered number was in one of the frames or in the
-- buffer before, and the invariant holds again.
pub receive_all_in_order :
    (ctx : Ctx) (frames : List ℕ)
    → IsReceiver ctx
    → ctx.has_rx_window ≡ true
    → IsFrames frames
    → let (last, delivered) = receive_all ctx frames in
      (delivered ≡ consecutive ctx.expected_rx_seq (length delivered))
      × (last.expected_rx_seq ≡ advance ctx.expected_rx_seq (length delivered))
      × ((s : ℕ)
          → buffered last s + count (λ d. d == s) delivered
            ≤ buffered ctx s + count (λ d. d == s) frames)
      × IsReceiver last
unfolding receive_all count
receive_all_in_order ctx [] v has small =
    (refl, omega (arith, (v.opened has).expected), λ s. omega arith, v)
receive_all_in_order ctx (seq_id ∷ frames) v has small =
    let step = (on_data_lem ctx seq_id v small.0).1 in
    let ctx' = (on_data ctx seq_id).1 in
    let ds = (on_data ctx seq_id).2.delivered in
    let rest = receive_all ctx' frames in
    let due = next_due_opened ctx seq_id has in
    let in_order = rw due at step.in_order in
    let next = rw due at step.next in
    let (rest_in_order, rest_next, rest_sound, rest_valid) =
      receive_all_in_order ctx' frames step.receiver step.started small.1 in
    (
      chained ctx.expected_rx_seq ds rest.1 (v.opened has).expected in_order
          (rw next at rest_in_order),
      omega (arith, rest_next, next, length-append ds rest.1),
      λ s. omega (arith, rest_sound s, step.sound s, count-append (λ (d : ℕ). d == s) ds rest.1),
      rest_valid,
    )
