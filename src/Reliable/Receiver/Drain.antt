-- ===== src/Reliable/Receiver/Drain.antt =====
-- The loop of `relinow_reliable_on_data` that empties the reorder buffer as far as it goes.
use relinow.Prelude.{
  ℕ, suc, ◌+◌, ◌≤◌, ◌<◌, ◌≡◌, refl, ap, ◌∙◌, ◌⊎◌, inl, inr, List, [], ◌∷◌, ◌++◌, true, false, ◌==◌,
  ==_iff, Bool-cases, arith, length, count, u16, to_nat,
}
use relinow.Packet.{is_seq_newer, seq_next}
use relinow.Packet.Seq.{seq_next-lt}
use relinow.Reliable.Types.{Ctx, Reorder, max_reorder}
use relinow.Reliable.Receiving.{is_buffered, drain}
use relinow.Reliable.Slots.{buffered, used_reorder}
use relinow.Reliable.Window.{IsWindow, used_reorder-le, reorder_take_expected_lem}

-- `n` numbers that follow one another, wrapping from 65535 to 0.
abbrev pub consecutive : ℕ → ℕ → List ℕ
consecutive first ℕ.zero = []
consecutive first (suc n) = first ∷ consecutive (seq_next first) n

-- The number `n` places after `first`.
abbrev pub advance : ℕ → ℕ → ℕ
advance first n = u16 (first + n)

pub advance-seq_next : (first n : ℕ) → advance (seq_next first) n ≡ advance first (suc n)
unfolding seq_next
advance-seq_next first n = omega arith

pub consecutive-append :
    (first m n : ℕ)
    → first < 65536
    → consecutive first m ++ consecutive (advance first m) n ≡ consecutive first (m + n)
consecutive-append first ℕ.zero n h =
    let sum : n ≡ 0 + n = omega arith in rw (from_zero first h) (ap (consecutive first) sum)
  where
    from_zero : (e : ℕ) → e < 65536 → advance e 0 ≡ e
    from_zero e k = omega arith
consecutive-append first (suc m) n h =
    rw (← advance-seq_next first m, consecutive-append (seq_next first) m n (seq_next-lt first))
      (let sum : suc (m + n) ≡ suc m + n = omega arith in ap (consecutive first) sum)

-- The buffer inside the loop: the expected number may be in it.
pub record IsLoop (ctx : Ctx) : Type 0 where
  pub expected : ctx.expected_rx_seq < 65536
  pub room : length ctx.reorder ≡ max_reorder
  pub distinct : (s : ℕ) → buffered ctx s ≤ 1
  pub ahead :
      (s : ℕ)
      → 0 < buffered ctx s
      → (s < 65536) × ((s ≡ ctx.expected_rx_seq) ⊎ (is_seq_newer s ctx.expected_rx_seq ≡ true))

-- A number ahead of the expected one is the next, or ahead of the next.
pub newer_next :
    (s e : ℕ)
    → s < 65536
    → e < 65536
    → is_seq_newer s e ≡ true
    → (s ≡ seq_next e) ⊎ (is_seq_newer s (seq_next e) ≡ true)
unfolding is_seq_newer seq_next
newer_next s e hs he h = ground arith

sharpen :
    (ctx : Ctx) (s : ℕ)
    → buffered ctx ctx.expected_rx_seq ≡ 0
    → 0 < buffered ctx s
    → (s ≡ ctx.expected_rx_seq) ⊎ (is_seq_newer s ctx.expected_rx_seq ≡ true)
    → is_seq_newer s ctx.expected_rx_seq ≡ true
sharpen ctx s absent present (inl same) = absurd (omega (arith, ap (buffered ctx) same))
sharpen ctx s absent present (inr newer) = newer

-- With the expected number absent, the loop's buffer is a window.
IsLoop-IsWindow : (ctx : Ctx) → IsLoop ctx → buffered ctx ctx.expected_rx_seq ≡ 0 → IsWindow ctx
IsLoop-IsWindow ctx v absent = record {
  expected = v.expected;
  room = v.room;
  distinct = v.distinct;
  ahead = λ s h. ((v.ahead s h).0, sharpen ctx s absent h (v.ahead s h).1);
}

-- The expected number moves on past one that is not buffered any more.
module _ (ctx : Ctx) (v : IsLoop ctx) (slots : List Reorder) where
  abbrev pub moved_on : Ctx
  moved_on = record ctx { reorder = slots; expected_rx_seq = seq_next ctx.expected_rx_seq }

  moved_ahead :
      (s : ℕ)
      → (ctx.expected_rx_seq == s) ≡ false
      → s < 65536
      → (s ≡ ctx.expected_rx_seq) ⊎ (is_seq_newer s ctx.expected_rx_seq ≡ true)
      → (s ≡ seq_next ctx.expected_rx_seq) ⊎ (is_seq_newer s (seq_next ctx.expected_rx_seq) ≡ true)
  moved_ahead s ne small (inl same) = absurd (ground arith)
  moved_ahead s ne small (inr newer) = newer_next s ctx.expected_rx_seq small v.expected newer

  moved_ne :
      (s : ℕ)
      → count (is_buffered ctx.expected_rx_seq) slots ≡ 0
      → 0 < count (is_buffered s) slots
      → (ctx.expected_rx_seq == s) ≡ false
  moved_ne s gone h = elim (Bool-cases (ctx.expected_rx_seq == s)) [
    | inl same ↦
        let at_s =
          ap (λ (q : ℕ). count (is_buffered q) slots) ((==_iff ctx.expected_rx_seq s).0 same) in
        absurd (omega (arith, at_s))
    | inr ne ↦ ne
  ]

  pub moved_on-IsLoop :
      length slots ≡ length ctx.reorder
      → count (is_buffered ctx.expected_rx_seq) slots ≡ 0
      → ((s : ℕ) → count (is_buffered s) slots ≤ buffered ctx s)
      → IsLoop moved_on
  moved_on-IsLoop len gone left = record {
    expected = seq_next-lt ctx.expected_rx_seq;
    room = omega (arith, v.room);
    distinct = λ s. omega (arith, left s, v.distinct s);
    ahead = λ s h.
        let old = v.ahead s (omega (arith, left s)) in
        (old.0, moved_ahead s (moved_ne s gone h) old.0 old.1);
  }

-- What the loop does: it delivers consecutive numbers from the expected one on, takes exactly those
-- out of the buffer, and stops with the expected number absent. It never runs out of room, since
-- each round frees a slot.
pub record IsDrained (ctx ctx' : Ctx) (room : ℕ) (delivered : List ℕ) : Type 0 where
  pub window : IsWindow ctx'
  pub in_order : delivered ≡ consecutive ctx.expected_rx_seq (length delivered)
  pub next : ctx'.expected_rx_seq ≡ advance ctx.expected_rx_seq (length delivered)
  pub fits : length delivered ≤ room
  pub kept : (s : ℕ) → buffered ctx' s + count (λ d. d == s) delivered ≡ buffered ctx s
  pub others : ctx' ≡ record ctx { reorder = ctx'.reorder; expected_rx_seq = ctx'.expected_rx_seq }

IsDrained-stop :
    (ctx : Ctx) (room : ℕ)
    → IsLoop ctx
    → buffered ctx ctx.expected_rx_seq ≡ 0
    → IsDrained ctx ctx room []
unfolding count
IsDrained-stop ctx room v absent = record {
  window = IsLoop-IsWindow ctx v absent;
  in_order = refl;
  next = omega (arith, v.expected);
  fits = omega arith;
  kept = λ s. omega arith;
  others = refl;
}

module _ (ctx ctx' : Ctx) (v : IsLoop ctx) (slots : List Reorder) (room : ℕ) (ds : List ℕ) where
  IsDrained-step :
      ((s : ℕ) → count (is_buffered s) slots + to_nat (ctx.expected_rx_seq == s) ≡ buffered ctx s)
      → IsDrained (moved_on ctx v slots) ctx' room ds
      → IsDrained ctx ctx' (suc room) (ctx.expected_rx_seq ∷ ds)
  unfolding count
  IsDrained-step taken d = record {
    window = d.window;
    in_order = ap (λ (l : List ℕ). ctx.expected_rx_seq ∷ l) d.in_order;
    next = d.next ∙ advance-seq_next ctx.expected_rx_seq (length ds);
    fits = omega (arith, d.fits);
    kept = λ s. omega (arith, taken s, d.kept s);
    others = d.others;
  }

pub drain_lem :
    (room : ℕ) (ctx : Ctx)
    → IsLoop ctx
    → used_reorder ctx ≤ room
    → IsDrained ctx (drain room ctx).0 room (drain room ctx).1
unfolding drain
drain_lem ℕ.zero ctx v h =
    IsDrained-stop ctx 0 v (omega (arith, used_reorder-le ctx ctx.expected_rx_seq))
drain_lem (suc room) ctx v h = elim (reorder_take_expected_lem ctx ctx.expected_rx_seq) [
  | inl (e, absent) ↦ rw (e, drain, e) (IsDrained-stop ctx (suc room) v absent)
  | inr (slots, e, len, used, taken) ↦
      let next = moved_on ctx v slots in
      let ih =
        drain_lem room next
          (moved_on-IsLoop ctx v slots len
            (ground (arith, taken ctx.expected_rx_seq, v.distinct ctx.expected_rx_seq))
            (λ s. omega (arith, taken s)))
          (omega arith) in
      rw (e, drain, e)
        (IsDrained-step ctx (drain room next).0 v slots room (drain room next).1 taken ih)
]
