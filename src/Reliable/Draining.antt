-- ===== src/Reliable/Draining.antt =====
-- A context that is polled often enough, and not used otherwise, has no frame in flight in the end.
use relinow.Prelude.{
  ℕ, ◌+◌, ◌-◌, ◌*◌, ◌≤◌, ◌<◌, ◌≡◌, refl, inl, inr, List, [], ◌∷◌, true, false, some, leb, arith,
  get_or, All, All-set, find_index, Bool-cases, Option-cases, length, count, count_of_none,
}
use relinow.Reliable.Types.{Ctx, Pending, zero_pending}
use relinow.Reliable.Sending.{is_due, retried_slot, poll, expire}
use relinow.Reliable.Slots.{used_pending}
use relinow.Reliable.Invariant.{IsSlot, IsValid, poll-IsValid}
use relinow.Reliable.Retries.{
  attempts, poll_all, poll-attempts, attempts-le-of_used, used-le-attempts, is_event,
}

-- Times within the 32 bits of the clock, each at least 65535 milliseconds after the one before.
abbrev pub IsSpaced : ℕ → List ℕ → Type 0
IsSpaced before [] = Unit {0}
IsSpaced before (now_ms ∷ times) =
    (before + 65535 ≤ now_ms) × (now_ms < 4294967296) × IsSpaced now_ms times

-- Every frame in flight was last sent at a time or before it.
abbrev pub IsOlder : ℕ → Pending → Type 0
IsOlder before slot = slot.in_use ≡ true → slot.last_send_ms ≤ before

-- At a time long enough after that, every slot in use is due.
count_due :
    (ctx : Ctx) (slots : List Pending) (before now_ms : ℕ)
    → All (IsSlot ctx.cfg) slots
    → All (IsOlder before) slots
    → before + 65535 ≤ now_ms
    → now_ms < 4294967296
    → count (λ (slot : Pending). slot.in_use) slots ≤ count (is_due now_ms) slots
unfolding count
count_due ctx [] before now_ms valid older gap small = omega arith
count_due ctx (slot ∷ slots) before now_ms valid older gap small =
    let rest = count_due ctx slots before now_ms valid.1 older.1 gap small in
    elim (Bool-cases slot.in_use) [
      | inl busy ↦ ground (arith, rest, valid.0.timeout busy, older.0 busy)
      | inr free ↦ ground (arith, rest)
    ]

no_attempts : (ctx : Ctx) → used_pending ctx ≡ 0 → attempts ctx ≡ 0
no_attempts ctx none_left =
    let bound = rw none_left at (attempts-le-of_used ctx.cfg ctx.pending) in omega (arith, bound)

module _ (ctx : Ctx) (before now_ms : ℕ) (v : IsValid ctx)
    (older : All (IsOlder before) ctx.pending) (gap : before + 65535 ≤ now_ms)
    (small : now_ms < 4294967296) where
  poll-event :
      (i : ℕ)
      → find_index (is_due now_ms) ctx.pending ≡ some i
      → is_event (poll ctx now_ms).2.event ≡ 1
  unfolding poll expire
  poll-event i e =
      let slot = get_or ctx.pending i zero_pending in
      elim (Bool-cases (leb ctx.cfg.max_retries slot.retries)) [
        | inl over ↦ rw (e, poll, over, expire) refl
        | inr left ↦ rw (e, poll, left, expire) refl
      ]

  -- The poll takes an attempt away, if any is left,
  poll-spends : attempts (poll ctx now_ms).1 ≤ attempts ctx - 1
  poll-spends =
      let spent = poll-attempts ctx now_ms v.config.retries.1 in
      elim (Option-cases (find_index (is_due now_ms) ctx.pending)) [
        | inl e ↦
            let idle : used_pending ctx ≡ 0 = omega (
              arith,
              count_due ctx ctx.pending before now_ms v.slots older gap small,
              count_of_none (is_due now_ms) ctx.pending e,
            ) in
            omega (arith, spent, no_attempts ctx idle)
        | inr (i, e) ↦ omega (arith, spent, poll-event i e)
      ]

  -- and every frame that is left was sent at this time or before.
  poll-IsOlder : All (IsOlder now_ms) (poll ctx now_ms).1.pending
  unfolding poll expire
  poll-IsOlder = elim (Option-cases (find_index (is_due now_ms) ctx.pending)) [
    | inl e ↦ rw (e, poll) (still ctx.pending older)
    | inr (i, e) ↦
        let slot = get_or ctx.pending i zero_pending in
        let freed = record slot { in_use = false } in
        elim (Bool-cases (leb ctx.cfg.max_retries slot.retries)) [
          | inl over ↦
              rw (e, poll, over, expire)
                (All-set (IsOlder now_ms) ctx.pending i freed (still ctx.pending older)
                  (λ busy. absurd (ground arith)))
          | inr left ↦
              rw (e, poll, left, expire)
                (All-set (IsOlder now_ms) ctx.pending i (retried_slot ctx now_ms slot)
                  (still ctx.pending older) (λ busy. omega arith))
        ]
  ]
    where
      still : (slots : List Pending) → All (IsOlder before) slots → All (IsOlder now_ms) slots
      still [] h = tt
      still (slot ∷ slots) h = (λ busy. omega (arith, h.0 busy, gap), still slots h.1)

poll_all_spends :
    (ctx : Ctx) (before : ℕ) (times : List ℕ)
    → IsValid ctx
    → All (IsOlder before) ctx.pending
    → IsSpaced before times
    → attempts (poll_all ctx times).0 ≤ attempts ctx - length times
unfolding poll_all
poll_all_spends ctx before [] v older spaced = omega arith
poll_all_spends ctx before (now_ms ∷ times) v older (gap, small, spaced) = omega (
  arith,
  poll-spends ctx before now_ms v older gap small,
  poll_all_spends (poll ctx now_ms).1 now_ms times (poll-IsValid ctx now_ms v)
      (poll-IsOlder ctx before now_ms v older gap small) spaced,
)

-- A valid context whose frames in flight were sent by some time, and that is then only polled, at
-- times within the clock's 32 bits, each at least 65535 milliseconds after the one before and the
-- first at least as long after that time, has no frame in flight in the end: it takes at most
-- `max_retries + 1` polls for each of the frames.
pub poll_all_drains :
    (ctx : Ctx) (before : ℕ) (times : List ℕ)
    → IsValid ctx
    → All (IsOlder before) ctx.pending
    → IsSpaced before times
    → used_pending ctx * (ctx.cfg.max_retries + 1) ≤ length times
    → used_pending (poll_all ctx times).0 ≡ 0
poll_all_drains ctx before times v older spaced enough = omega (
  arith,
  poll_all_spends ctx before times v older spaced,
  attempts-le-of_used ctx.cfg ctx.pending,
  used-le-attempts (poll_all ctx times).0.cfg (poll_all ctx times).0.pending,
)
