-- ===== src/Reliable/Retries.antt =====
-- Retransmission ends: every event of `relinow_reliable_poll` uses up one unit of a budget that
-- only `relinow_reliable_send` refills.
use relinow.Prelude.{
  ℕ, ◌+◌, ◌-◌, ◌*◌, ◌≤◌, ◌<◌, ◌≡◌, inl, inr, List, [], ◌∷◌, false, leb, if◌then◌else◌, arith,
  get_or, find_index, find_index-some, Bool-cases, Option-cases, total, total-set, count,
}
use relinow.Reliable.Types.{Ctx, Config, Pending, TxEvent, tx_none, zero_pending}
use relinow.Reliable.Sending.{is_due, retried_slot, poll, expire}
use relinow.Reliable.Slots.{used_pending}

-- What is left for a slot: its retransmissions and its final failure.
abbrev pub attempts_left : Config → Pending → ℕ
attempts_left cfg slot = if slot.in_use then cfg.max_retries - slot.retries + 1 else 0

abbrev pub attempts : Ctx → ℕ
attempts ctx = total (attempts_left ctx.cfg) ctx.pending

-- A result other than TX_NONE, as a number.
abbrev pub is_event : TxEvent → ℕ
is_event tx_none = 0
is_event _ = 1

pub poll-cfg : (ctx : Ctx) (now_ms : ℕ) → (poll ctx now_ms).1.cfg ≡ ctx.cfg
unfolding poll expire
poll-cfg ctx now_ms = ground arith

-- Each event of a poll takes one attempt away, and a poll without an event none.
pub poll-attempts :
    (ctx : Ctx) (now_ms : ℕ)
    → ctx.cfg.max_retries < 256
    → let (rc, ctx', result) = poll ctx now_ms in
      is_event result.event + attempts ctx' ≡ attempts ctx
unfolding poll expire
poll-attempts ctx now_ms small = elim (Option-cases (find_index (is_due now_ms) ctx.pending)) [
  | inl e ↦ rw (e, poll) (omega arith)
  | inr (i, e) ↦
      let slot = get_or ctx.pending i zero_pending in
      let (inside, due) = find_index-some (is_due now_ms) ctx.pending i zero_pending e in
      let sums =
        λ (v : Pending). total-set (attempts_left ctx.cfg) ctx.pending i v zero_pending inside in
      elim (Bool-cases (leb ctx.cfg.max_retries slot.retries)) [
        | inl spent ↦
            rw (e, poll, spent, expire) (ground (arith, sums (record slot { in_use = false })))
        | inr left ↦
            rw (e, poll, left, expire) (ground (arith, sums (retried_slot ctx now_ms slot)))
      ]
]

-- Polls at the given times in turn: the last state, and how many of them reported an event.
unfoldable pub poll_all : Ctx → List ℕ → Ctx × ℕ
poll_all ctx [] = (ctx, 0)
poll_all ctx (now_ms ∷ times) =
    let (rc, ctx', result) = poll ctx now_ms in
    let (last, events) = poll_all ctx' times in (last, is_event result.event + events)

poll_all-attempts :
    (ctx : Ctx) (times : List ℕ)
    → ctx.cfg.max_retries < 256
    → (poll_all ctx times).1 + attempts (poll_all ctx times).0 ≡ attempts ctx
unfolding poll_all
poll_all-attempts ctx [] small = omega arith
poll_all-attempts ctx (now_ms ∷ times) small = omega (
  arith,
  poll-attempts ctx now_ms small,
  poll_all-attempts (poll ctx now_ms).1 times (rw (poll-cfg ctx now_ms) small),
)

pub attempts-le-of_used :
    (cfg : Config) (slots : List Pending)
    → total (attempts_left cfg) slots ≤ count (λ slot. slot.in_use) slots * (cfg.max_retries + 1)
unfolding total count
attempts-le-of_used cfg [] = omega arith
attempts-le-of_used cfg (slot ∷ slots) =
    let rest = attempts-le-of_used cfg slots in
    elim (Bool-cases slot.in_use) [
      | inl busy ↦ rw busy (omega (arith, rest))
      | inr free ↦ rw free (omega (arith, rest))
    ]

pub used-le-attempts :
    (cfg : Config) (slots : List Pending)
    → count (λ slot. slot.in_use) slots ≤ total (attempts_left cfg) slots
unfolding total count
used-le-attempts cfg [] = omega arith
used-le-attempts cfg (slot ∷ slots) = ground (arith, used-le-attempts cfg slots)

-- However often and whenever a context with an 8-bit retry limit is polled, it reports at most
-- `max_retries + 1` retransmissions and failures for each frame in flight; and no more frames stay
-- in flight than there are attempts left that it has not reported.
pub poll_all_bounded :
    (ctx : Ctx) (times : List ℕ)
    → ctx.cfg.max_retries < 256
    → let (last, events) = poll_all ctx times in
      (events ≤ used_pending ctx * (ctx.cfg.max_retries + 1))
      × (used_pending last + events ≤ attempts ctx)
poll_all_bounded ctx times small =
    let spent = poll_all-attempts ctx times small in
    (
      omega (arith, spent, attempts-le-of_used ctx.cfg ctx.pending),
      omega (
        arith,
        spent,
        used-le-attempts (poll_all ctx times).0.cfg (poll_all ctx times).0.pending,
      ),
    )
