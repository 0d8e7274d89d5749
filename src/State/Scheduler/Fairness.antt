-- ===== src/State/Scheduler/Fairness.antt =====
-- The scheduler's order is fair: a channel that is due moves closer to its turn whenever another one
-- is served.
use relinow.Prelude.{
  ℕ, ◌+◌, ◌-◌, ◌%◌, ◌≤◌, ◌<◌, ◌≡◌, ◌≢◌, refl, ap, ◌∙◌, sym, subst, ◌⊎◌, inl, inr, true, false,
  arith, leb, ltb, ltb→lt, Bool-cases,
}
use relinow.Reliable.{TxResult, tx_none}
use relinow.State.Types.{StateErr, ok, State, max_peers}
use relinow.State.Lookup.{peer_at, channel_at}
use relinow.State.Scheduler.{polled_idx, Scheduled, scheduler_loop, scheduler_next}
use relinow.State.Scheduler.Rounds.{HasNumbers, Outcome, is_due_channel, serve, loop_lem}

-- How many channels come before channel `i` in a round that starts after channel `last`.
abbrev pub place : ℕ → ℕ → ℕ
place last i = (i + 15 - last) % 16

-- The round's outcome, told by the channels instead of their places.
abbrev pub FairOutcome : State → ℕ → ℕ → Scheduled → StateErr × State × Scheduled → Type 0
FairOutcome state p now_ms out r =
    let due = λ (i : ℕ). is_due_channel now_ms (channel_at state p i) in
    let last = (peer_at state p).last_polled_channel_idx in
    (((i : ℕ) → i < 16 → due i ≡ false) × (r ≡ (ok, state, out)))
    ⊎ ((i : ℕ) × (i < 16)
        × (due i ≡ true)
        × ((j : ℕ)
            → j < 16
            → due j ≡ true
            → j ≢ i
            → (place last i < place last j) × (place i j < place last j))
        × (r ≡ serve state p now_ms i))

module _ (state : State) (p now_ms : ℕ) (numbers : HasNumbers state p)
    (within : (peer_at state p).last_polled_channel_idx < 16) where
  abbrev last : ℕ
  last = (peer_at state p).last_polled_channel_idx

  idx-place : (i : ℕ) → i < 16 → polled_idx state p (place last i) ≡ i
  idx-place i small = omega (arith, within)

  place-idx : (k : ℕ) → k < 16 → place last (polled_idx state p k) ≡ k
  place-idx k small = omega (arith, within)

  later_place :
      (k j : ℕ)
      → k < 16
      → j < 16
      → ((k' : ℕ)
          → 0 ≤ k'
          → k' < k
          → is_due_channel now_ms (channel_at state p (polled_idx state p k')) ≡ false)
      → is_due_channel now_ms (channel_at state p j) ≡ true
      → j ≢ polled_idx state p k
      → k < place last j
  later_place k j small small' first due other = elim (Bool-cases (ltb (place last j) k)) [
    | inl before ↦
        let idle = first (place last j) (omega arith) (ltb→lt (place last j) k before) in
        let idle' = rw (idx-place j small') at idle in absurd (ground arith)
    | inr not_before ↦
        let apart : place last j ≢ k =
          λ same. other (sym (ap (polled_idx state p) (sym same) ∙ idx-place j small')) in
        ground (arith, apart)
  ]

  fair_outcome :
      (out : Scheduled) (r : StateErr × State × Scheduled)
      → Outcome state p now_ms numbers 0 out r
      → FairOutcome state p now_ms out r
  unfolding Outcome
  fair_outcome out r (inl (none_due, e)) = inl (
    (λ i small.
        subst (λ x. is_due_channel now_ms (channel_at state p x) ≡ false) (idx-place i small)
          (none_due (place last i) (omega arith) (omega arith))),
    e,
  )
  fair_outcome out r (inr (k, a, small, there, first, e)) = inr (
    polled_idx state p k,
    omega arith,
    there,
    (λ j small' due other.
        let further = later_place k j small small' first due other in
        (omega (arith, further, place-idx k small), omega (arith, further, within, small, small'))),
    e,
  )

  module _ (small : leb max_peers p ≡ false) (used : (peer_at state p).in_use ≡ true) where
    -- For a peer in use whose last served place is within the table and whose RELIABLE channels are
    -- each the one that their number names, one call of the scheduler either finds no channel with
    -- an event and changes nothing but the event that it stores, TX_NONE; or it serves the channel
    -- with an event that comes first in cyclic order after the last one served, whatever the channels'
    -- scheduling priorities: it polls this
    -- channel alone, notes it as the last one and stores its number and its event. Every other
    -- channel with an event is then closer to its turn than before.
    pub scheduler_next_fair :
        (out : Scheduled) (stale : TxResult)
        → FairOutcome state p now_ms
            (record out { tx = record out.tx { event = tx_none } })
            (scheduler_next state p now_ms out stale)
    unfolding scheduler_next
    scheduler_next_fair out stale =
        let cleared : Scheduled = record out { tx = record out.tx { event = tx_none } } in
        rw (small, scheduler_next, used)
          (fair_outcome cleared (scheduler_loop 16 0 state p now_ms cleared stale)
            (loop_lem state p now_ms numbers 16 0 cleared stale refl))
