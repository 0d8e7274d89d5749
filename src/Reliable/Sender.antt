-- ===== src/Reliable/Sender.antt =====
-- The sending side: what `relinow_reliable_send`, `relinow_reliable_on_ack` and
-- `relinow_reliable_poll` do to the multiset of unacknowledged numbers.
use relinow.Prelude.{
  ℕ, ◌+◌, ◌-◌, ◌≤◌, ◌<◌, ◌≡◌, refl, ap, ◌⊎◌, inl, inr, List, none, true, false, leb, ◌==◌, arith,
  ==_iff, min, length, get_or, get_or-set_ne, count-set, find_index, find_index-some,
  find_index-none, find_index_first, Bool-cases, count_of_none, Option-cases, to_nat,
}
use relinow.Packet.{ok, invalid_packet, seq_next}
use relinow.Reliable.Types.{
  Ctx, Pending, TxResult, tx_none, tx_new, tx_retransmit, tx_failed, zero_pending,
}
use relinow.Reliable.Sending.{
  is_pending, is_free_pending, is_due, sent_slot, retried_slot, send, on_ack, poll, expire,
}
use relinow.Reliable.Slots.{in_flight, used_pending, count-not, count_of_some}

send_full :
    (ctx : Ctx) (now_ms : ℕ) (out : TxResult)
    → find_index is_free_pending ctx.pending ≡ none
    → used_pending ctx ≡ length ctx.pending
send_full ctx now_ms out e = omega (
  arith,
  count_of_none is_free_pending ctx.pending e,
  count-not (λ (slot : Pending). slot.in_use) ctx.pending,
)

-- A number that is not in flight is unlike every number that is.
in_flight-eq : (ctx : Ctx) (a q : ℕ) → in_flight ctx a ≡ 0 → (a == q) ≡ true → in_flight ctx q ≡ 0
in_flight-eq ctx a q z e = rw (← (==_iff a q).0 e) z

module _ (pending : List Pending) where
  -- A slot in use is none of the free ones.
  clash :
      (i j : ℕ)
      → is_free_pending (get_or pending i zero_pending) ≡ true
      → (get_or pending j zero_pending).in_use ≡ true
      → i ≡ j
      → ⊥
  clash i j free busy same =
      let moved = ap (λ (k : ℕ). (get_or pending k zero_pending).in_use) same in ground arith

-- `relinow_reliable_send` is refused exactly when every slot is in use, and then changes nothing.
-- Otherwise it adds the next number to those in flight, overwrites no slot in use, advances the
-- counter and reports the number as new.
pub send_lem :
    (ctx : Ctx) (now_ms : ℕ) (out : TxResult)
    → let (rc, ctx', result) = send ctx now_ms out in
      ((used_pending ctx ≡ length ctx.pending)
        × (rc ≡ invalid_packet)
        × (ctx' ≡ ctx)
        × (result ≡ out))
      ⊎ ((used_pending ctx < length ctx.pending)
          × (rc ≡ ok)
          × (result ≡ record { event = tx_new; seq_id = ctx.next_tx_seq })
          × (ctx'.next_tx_seq ≡ seq_next ctx.next_tx_seq)
          × (used_pending ctx' ≡ used_pending ctx + 1)
          × ((q : ℕ) → in_flight ctx' q ≡ in_flight ctx q + to_nat (ctx.next_tx_seq == q))
          × ((j : ℕ)
              → (get_or ctx.pending j zero_pending).in_use ≡ true
              → get_or ctx'.pending j zero_pending ≡ get_or ctx.pending j zero_pending))
unfolding send
send_lem ctx now_ms out = elim (Option-cases (find_index is_free_pending ctx.pending)) [
  | inl e ↦ rw (e, send) (inl (send_full ctx now_ms out e, refl, refl, refl))
  | inr (i, e) ↦
      let (inside, free) = find_index-some is_free_pending ctx.pending i zero_pending e in
      let sent = sent_slot ctx now_ms in
      let used =
        count-set (λ (slot : Pending). slot.in_use) ctx.pending i sent zero_pending inside in
      rw (e, send)
        (inr (
          omega (
            arith,
            count_of_some is_free_pending ctx.pending i e,
            count-not (λ (slot : Pending). slot.in_use) ctx.pending,
          ),
          refl,
          refl,
          refl,
          ground (arith, used),
          λ q. ground (arith, count-set (is_pending q) ctx.pending i sent zero_pending inside),
          λ j busy.
              get_or-set_ne ctx.pending i j sent zero_pending
                (λ same. clash ctx.pending i j free busy same),
        ))
]

-- An acknowledgment takes its number out of flight once if it is in flight, and otherwise changes
-- nothing; every other number, and the counter, stay as they were. It reports no event.
pub on_ack_lem :
    (ctx : Ctx) (ack_id now_ms : ℕ)
    → let (event, ctx') = on_ack ctx ack_id now_ms in
      (event ≡ tx_none)
      × ((q : ℕ) → in_flight ctx' q ≡ in_flight ctx q - to_nat (ack_id == q))
      × (used_pending ctx' + min 1 (in_flight ctx ack_id) ≡ used_pending ctx)
      × (ctx'.next_tx_seq ≡ ctx.next_tx_seq)
      × ((0 < in_flight ctx ack_id) ⊎ (ctx' ≡ ctx))
unfolding on_ack
on_ack_lem ctx ack_id now_ms = elim (Option-cases (find_index (is_pending ack_id) ctx.pending)) [
  | inl e ↦
      let absent = count_of_none (is_pending ack_id) ctx.pending e in
      rw (e, on_ack)
        (
          refl,
          λ q. ground (arith, absent, in_flight-eq ctx ack_id q),
          omega (arith, absent),
          refl,
          inr refl,
        )
  | inr (i, e) ↦
      let (inside, found) = find_index-some (is_pending ack_id) ctx.pending i zero_pending e in
      let present = count_of_some (is_pending ack_id) ctx.pending i e in
      let slot = get_or ctx.pending i zero_pending in
      let freed = record slot { in_use = false } in
      let used =
        count-set (λ (slot : Pending). slot.in_use) ctx.pending i freed zero_pending inside in
      rw (e, on_ack)
        (
          refl,
          λ q. ground (arith, count-set (is_pending q) ctx.pending i freed zero_pending inside),
          ground (arith, used),
          refl,
          inl (omega arith),
        )
]

-- `relinow_reliable_poll` reports the first slot whose timer has run out. If there is none, nothing
-- changes. If that slot has retries left, its frame is sent again and the numbers in flight stay;
-- otherwise the frame has failed, and its number leaves.
pub poll_lem :
    (ctx : Ctx) (now_ms : ℕ)
    → let (rc, ctx', result) = poll ctx now_ms in
      (rc ≡ ok)
      × (((result.event ≡ tx_none)
            × (ctx' ≡ ctx)
            × ((j : ℕ)
                → j < length ctx.pending
                → is_due now_ms (get_or ctx.pending j zero_pending) ≡ false))
          ⊎ ((i : ℕ) × (is_due now_ms (get_or ctx.pending i zero_pending) ≡ true)
              × ((j : ℕ) → j < i → is_due now_ms (get_or ctx.pending j zero_pending) ≡ false)
              × (result.seq_id ≡ (get_or ctx.pending i zero_pending).seq_id)
              × (((result.event ≡ tx_retransmit)
                    × ((get_or ctx.pending i zero_pending).retries < ctx.cfg.max_retries)
                    × ((q : ℕ) → in_flight ctx' q ≡ in_flight ctx q))
                  ⊎ ((result.event ≡ tx_failed)
                      × (ctx.cfg.max_retries ≤ (get_or ctx.pending i zero_pending).retries)
                      × (0 < in_flight ctx result.seq_id)
                      × ((q : ℕ)
                          → in_flight ctx' q ≡ in_flight ctx q - to_nat (result.seq_id == q))))))
unfolding poll expire
poll_lem ctx now_ms = elim (Option-cases (find_index (is_due now_ms) ctx.pending)) [
  | inl e ↦
      rw (e, poll)
        (
          refl,
          inl (refl, refl, λ j h. find_index-none (is_due now_ms) ctx.pending j zero_pending e h),
        )
  | inr (i, e) ↦
      let slot = get_or ctx.pending i zero_pending in
      let (inside, due) = find_index-some (is_due now_ms) ctx.pending i zero_pending e in
      let counts =
        λ (q : ℕ) (v : Pending). count-set (is_pending q) ctx.pending i v zero_pending inside in
      let first = λ (j : ℕ).
        λ (h : j < i). find_index_first (is_due now_ms) ctx.pending i j zero_pending e h in
      let retried = retried_slot ctx now_ms slot in
      let freed = record slot { in_use = false } in
      elim (Bool-cases (leb ctx.cfg.max_retries slot.retries)) [
        | inl spent ↦
            rw (e, poll, spent, expire)
              (
                refl,
                inr (
                  i,
                  due,
                  first,
                  refl,
                  inr (
                    refl,
                    ground arith,
                    ground (arith, counts slot.seq_id freed),
                    λ q. ground (arith, counts q freed),
                  ),
                ),
              )
        | inr left ↦
            rw (e, poll, left, expire)
              (
                refl,
                inr (
                  i,
                  due,
                  first,
                  refl,
                  inl (refl, ground arith, λ q. ground (arith, counts q retried)),
                ),
              )
      ]
]
