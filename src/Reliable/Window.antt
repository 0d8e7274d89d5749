-- ===== src/Reliable/Window.antt =====
-- The reorder buffer as a set of numbers ahead of the expected one, and what inserting into it and
-- taking from it do to that set.
use relinow.Prelude.{
  ℕ, ◌+◌, ◌≤◌, ◌<◌, ◌≡◌, refl, ◌⊎◌, inl, inr, List, true, false, ◌==◌, arith, length, get_or, set,
  length-set, count, count-set, count_of_none, find_index, find_index-some, Option-cases, to_nat,
}
use relinow.Packet.{is_seq_newer}
use relinow.Reliable.Types.{Ctx, Reorder, zero_reorder, max_reorder}
use relinow.Reliable.Receiving.{
  is_buffered, is_free_reorder, reorder_contains, reorder_insert, reorder_take_expected,
}
use relinow.Reliable.Slots.{buffered, used_reorder, count-not, count-and-le, count_of_some}

-- Every buffered number is a 16-bit number ahead of the expected one, and is buffered once. So the
-- expected number itself is never in the buffer.
pub record IsWindow (ctx : Ctx) : Type 0 where
  pub expected : ctx.expected_rx_seq < 65536
  pub room : length ctx.reorder ≡ max_reorder
  pub distinct : (s : ℕ) → buffered ctx s ≤ 1
  pub ahead :
      (s : ℕ) → 0 < buffered ctx s → (s < 65536) × (is_seq_newer s ctx.expected_rx_seq ≡ true)

pub used_reorder-le : (ctx : Ctx) (s : ℕ) → buffered ctx s ≤ used_reorder ctx
used_reorder-le ctx s =
    count-and-le (λ (slot : Reorder). slot.in_use) (λ (slot : Reorder). slot.seq_id == s)
      ctx.reorder

pub reorder_contains_iff :
    (ctx : Ctx) (s : ℕ)
    → ((reorder_contains ctx s ≡ true) × (0 < buffered ctx s))
      ⊎ ((reorder_contains ctx s ≡ false) × (buffered ctx s ≡ 0))
unfolding reorder_contains
reorder_contains_iff ctx s = elim (Option-cases (find_index (is_buffered s) ctx.reorder)) [
  | inl e ↦ rw (e, reorder_contains) (inr (refl, count_of_none (is_buffered s) ctx.reorder e))
  | inr (i, e) ↦
      rw (e, reorder_contains) (inl (refl, count_of_some (is_buffered s) ctx.reorder i e))
]

-- Taking a number removes it from the buffer, and fails only where it is not there.
pub reorder_take_expected_lem :
    (ctx : Ctx) (e : ℕ)
    → ((reorder_take_expected ctx e ≡ (false, ctx)) × (buffered ctx e ≡ 0))
      ⊎ ((slots : List Reorder) × (reorder_take_expected ctx e
            ≡ (true, record ctx { reorder = slots }))
          × (length slots ≡ length ctx.reorder)
          × (count (λ slot. slot.in_use) slots + 1 ≡ used_reorder ctx)
          × ((s : ℕ) → count (is_buffered s) slots + to_nat (e == s) ≡ buffered ctx s))
unfolding reorder_take_expected
reorder_take_expected_lem ctx e = elim (Option-cases (find_index (is_buffered e) ctx.reorder)) [
  | inl h ↦ rw (h, reorder_take_expected) (inl (refl, count_of_none (is_buffered e) ctx.reorder h))
  | inr (i, h) ↦
      let (inside, found) = find_index-some (is_buffered e) ctx.reorder i zero_reorder h in
      let slot = get_or ctx.reorder i zero_reorder in
      let freed = record slot { in_use = false } in
      let used =
        count-set (λ (slot : Reorder). slot.in_use) ctx.reorder i freed zero_reorder inside in
      rw (h, reorder_take_expected)
        (inr (
          set ctx.reorder i freed,
          refl,
          length-set ctx.reorder i freed,
          ground (arith, used),
          λ s. ground (arith, count-set (is_buffered s) ctx.reorder i freed zero_reorder inside),
        ))
]

-- Inserting adds the number once, and fails only where every slot is in use.
pub reorder_insert_lem :
    (ctx : Ctx) (n : ℕ)
    → ((reorder_insert ctx n ≡ (false, ctx)) × (used_reorder ctx ≡ length ctx.reorder))
      ⊎ ((slots : List Reorder) × (reorder_insert ctx n ≡ (true, record ctx { reorder = slots }))
          × (length slots ≡ length ctx.reorder)
          × (count (λ slot. slot.in_use) slots ≡ used_reorder ctx + 1)
          × ((s : ℕ) → count (is_buffered s) slots ≡ buffered ctx s + to_nat (n == s)))
unfolding reorder_insert
reorder_insert_lem ctx n = elim (Option-cases (find_index is_free_reorder ctx.reorder)) [
  | inl h ↦
      rw (h, reorder_insert)
        (inl (
          refl,
          omega (
            arith,
            count_of_none is_free_reorder ctx.reorder h,
            count-not (λ (slot : Reorder). slot.in_use) ctx.reorder,
          ),
        ))
  | inr (i, h) ↦
      let (inside, free) = find_index-some is_free_reorder ctx.reorder i zero_reorder h in
      let slot : Reorder = record { in_use = true; seq_id = n } in
      let used =
        count-set (λ (slot : Reorder). slot.in_use) ctx.reorder i slot zero_reorder inside in
      rw (h, reorder_insert)
        (inr (
          set ctx.reorder i slot,
          refl,
          length-set ctx.reorder i slot,
          ground (arith, used),
          λ s. ground (arith, count-set (is_buffered s) ctx.reorder i slot zero_reorder inside),
        ))
]
