-- ===== src/Reliable/Expiry.antt =====
-- The timers of `relinow_reliable_poll`: which one is served, and what is left of its slot.
use relinow.Prelude.{
  ℕ, ◌+◌, ◌≤◌, ◌<◌, ◌≡◌, ◌≢◌, refl, sym, ap, ◌⊎◌, inl, inr, true, false, leb, arith, length, sub32,
  u8, get_or, get_or-set_self, get_or-set_ne, find_index, find_index-some, find_index-none,
  find_index_first, Bool-cases, Option-cases,
}
use relinow.Packet.{ok}
use relinow.Reliable.Types.{Ctx, Pending, zero_pending, tx_none, tx_retransmit, tx_failed}
use relinow.Reliable.Sending.{is_due, retried_slot, expire, poll, compute_timeout_ms}

-- The timer of a slot has run out: the slot waits for an acknowledgment, and since its last send
-- at least its timeout has passed, on a clock of 32 bits.
abbrev pub HasRunOut : ℕ → Pending → Type 0
HasRunOut now_ms slot = (slot.in_use ≡ true) × (slot.timeout_ms ≤ sub32 now_ms slot.last_send_ms)

abbrev pub pending_at : Ctx → ℕ → Pending
pending_at ctx i = get_or ctx.pending i zero_pending

-- A slot with its timer started again at a time, one retry later.
pub record IsRestarted (ctx : Ctx) (now_ms : ℕ) (slot slot' : Pending) : Type 0 where
  pub waiting : slot'.in_use ≡ true
  pub number : slot'.seq_id ≡ slot.seq_id
  pub retries : slot'.retries ≡ slot.retries + 1
  pub sent : slot'.last_send_ms ≡ now_ms
  pub timeout : slot'.timeout_ms ≡ compute_timeout_ms ctx.rtt_estimate_ms (slot.retries + 1)

due-HasRunOut : (now_ms : ℕ) (slot : Pending) → is_due now_ms slot ≡ true → HasRunOut now_ms slot
due-HasRunOut now_ms slot due = ground arith

not_due : (now_ms : ℕ) (slot : Pending) → is_due now_ms slot ≡ false → ¬ HasRunOut now_ms slot
not_due now_ms slot waits (used, passed) = ground arith

restarted :
    (ctx : Ctx) (now_ms : ℕ) (slot : Pending)
    → slot.in_use ≡ true
    → slot.retries < 255
    → IsRestarted ctx now_ms slot (retried_slot ctx now_ms slot)
restarted ctx now_ms slot used small =
    let counted : u8 (slot.retries + 1) ≡ slot.retries + 1 = omega (arith, small) in
    record {
      waiting = used;
      number = refl;
      retries = counted;
      sent = refl;
      timeout = ap (compute_timeout_ms ctx.rtt_estimate_ms) counted;
    }

-- `relinow_reliable_poll`, with a limit of retries of 8 bits. If no timer has run out, it reports
-- nothing and changes nothing. Otherwise it reports the frame of the first slot whose timer has run
-- out, and no other slot changes. If the slot has retries left, its frame is to be sent again, and
-- the slot goes on waiting under the same number with one retry more, its timer started at the time
-- of the poll with the timeout of that retry. If it has none left, its frame has failed and the slot
-- is released.
pub timers_run_out :
    (ctx : Ctx) (now_ms : ℕ)
    → ctx.cfg.max_retries < 256
    → let (rc, ctx', result) = poll ctx now_ms in
      (rc ≡ ok)
      × (((result.event ≡ tx_none)
            × (ctx' ≡ ctx)
            × ((j : ℕ) → j < length ctx.pending → ¬ HasRunOut now_ms (pending_at ctx j)))
          ⊎ ((i : ℕ) × HasRunOut now_ms (pending_at ctx i)
              × ((j : ℕ) → j < i → ¬ HasRunOut now_ms (pending_at ctx j))
              × (result.seq_id ≡ (pending_at ctx i).seq_id)
              × ((j : ℕ) → j ≢ i → pending_at ctx' j ≡ pending_at ctx j)
              × (((result.event ≡ tx_retransmit)
                    × ((pending_at ctx i).retries < ctx.cfg.max_retries)
                    × IsRestarted ctx now_ms (pending_at ctx i) (pending_at ctx' i))
                  ⊎ ((result.event ≡ tx_failed)
                      × (ctx.cfg.max_retries ≤ (pending_at ctx i).retries)
                      × ((pending_at ctx' i).in_use ≡ false)))))
unfolding poll expire
timers_run_out ctx now_ms small = elim (Option-cases (find_index (is_due now_ms) ctx.pending)) [
  | inl e ↦
      rw (e, poll)
        (
          refl,
          inl (
            refl,
            refl,
            λ j h.
                not_due now_ms (pending_at ctx j)
                  (find_index-none (is_due now_ms) ctx.pending j zero_pending e h),
          ),
        )
  | inr (i, e) ↦
      let slot = pending_at ctx i in
      let (inside, due) = find_index-some (is_due now_ms) ctx.pending i zero_pending e in
      let out = due-HasRunOut now_ms slot due in
      let first = λ (j : ℕ). λ (h : j < i).
        not_due now_ms (pending_at ctx j)
          (find_index_first (is_due now_ms) ctx.pending i j zero_pending e h) in
      let others = λ (v : Pending) (j : ℕ) (apart : j ≢ i).
        get_or-set_ne ctx.pending i j v zero_pending (λ same. apart (sym same)) in
      let written = λ (v : Pending). get_or-set_self ctx.pending i v zero_pending inside in
      let retried = retried_slot ctx now_ms slot in
      let freed = record slot { in_use = false } in
      elim (Bool-cases (leb ctx.cfg.max_retries slot.retries)) [
        | inl spent ↦
            rw (e, poll, spent, expire)
              (
                refl,
                inr (
                  i,
                  out,
                  first,
                  refl,
                  others freed,
                  inr (refl, ground arith, rw (written freed) refl),
                ),
              )
        | inr left ↦
            let room : slot.retries < ctx.cfg.max_retries = ground arith in
            rw (e, poll, left, expire)
              (
                refl,
                inr (
                  i,
                  out,
                  first,
                  refl,
                  others retried,
                  inl (
                    refl,
                    room,
                    rw (written retried)
                        (restarted ctx now_ms slot out.0 (omega (arith, room, small))),
                  ),
                ),
              )
      ]
]
