-- ===== src/State/Scheduler/Rounds.antt =====
-- One round of the scheduler: the first channel that is due, in the round's order.
use relinow.Prelude.{
  ℕ, suc, ◌+◌, ◌≤◌, ◌<◌, ◌≡◌, refl, ap, ◌∙◌, ◌⊎◌, inl, inr, some, Bool, true, false, not, ◌&&◌,
  ◌==◌, ==_iff, arith, Bool-cases,
}
use relinow.Packet
use relinow.Packet.{mode_reliable}
use relinow.Reliable
use relinow.Reliable.{Ctx, TxEvent, TxResult, tx_none, tx_new, tx_retransmit, tx_failed}
use relinow.Reliable.Sender.{poll_lem}
use relinow.State.Types.{StateErr, ok, Channel, State}
use relinow.State.Lookup.{peer_at, channel_at, put_peer, put_channel, find_channel_mut}
use relinow.State.ReliableMode.{after_poll, note_polled, reliable_poll}
use relinow.State.ReliableMode.Over.{put_channel-channel_at}
use relinow.State.Scheduler.{is_none, polled_idx, is_polled, Scheduled, scheduler_loop}

-- A channel that the scheduler polls and whose context then reports an event.
unfoldable pub is_due_channel : ℕ → Channel → Bool
is_due_channel now_ms channel =
    is_polled channel && not (is_none (Reliable.poll channel.reliable now_ms).2.event)

-- Each channel that is polled is the one that its number names.
abbrev pub HasNumbers : State → ℕ → Type 0
HasNumbers state p =
    (i : ℕ)
    → is_polled (channel_at state p i) ≡ true
    → find_channel_mut state p (channel_at state p i).channel_id ≡ some i

-- What the scheduler returns when the channel of index `i` has an event: it polls this channel, notes
-- it as the last one and stores its number and the event.
unfoldable pub serve : State → ℕ → ℕ → ℕ → StateErr × State × Scheduled
serve state p now_ms i =
    let channel = channel_at state p i in
    let event = Reliable.poll channel.reliable now_ms in
    let polled = (after_poll state p channel.channel_id i event).1 in
    (
      ok,
      put_peer polled p (record (peer_at polled p) { last_polled_channel_idx = i }),
      record { channel_id = (channel_at polled p i).channel_id; tx = event.2 },
    )

module _ (state : State) (p now_ms : ℕ) (numbers : HasNumbers state p) where
  abbrev due : ℕ → Bool
  due count = is_due_channel now_ms (channel_at state p (polled_idx state p count))

  -- The poll of a channel that is polled.
  poll_found :
      (i : ℕ) (tx : TxResult)
      → is_polled (channel_at state p i) ≡ true
      → reliable_poll state p (channel_at state p i).channel_id now_ms tx
        ≡ after_poll state p
            (channel_at state p i).channel_id
            i
            (Reliable.poll (channel_at state p i).reliable now_ms)
  unfolding reliable_poll
  poll_found i tx polled =
      let in_mode : ((channel_at state p i).mode == mode_reliable) ≡ true = ground arith in
      rw (numbers i polled, reliable_poll, in_mode) refl

  after_poll-event :
      (i c : ℕ) (rc : Packet.Err) (ctx : Ctx) (event : TxEvent) (q : ℕ)
      → rc ≡ Packet.ok
      → (after_poll state p c i (rc, ctx, record { event = event; seq_id = q })).2
        ≡ record { event = event; seq_id = q }
  unfolding after_poll note_polled
  after_poll-event i c rc ctx tx_none q fine = rw fine refl
  after_poll-event i c rc ctx tx_new q fine = rw fine refl
  after_poll-event i c rc ctx tx_retransmit q fine = rw fine refl
  after_poll-event i c rc ctx tx_failed q fine = rw fine refl

  after_poll-idle :
      (i c : ℕ) (rc : Packet.Err) (ctx : Ctx) (event : TxEvent) (q : ℕ)
      → rc ≡ Packet.ok
      → event ≡ tx_none
      → ctx ≡ (channel_at state p i).reliable
      → (after_poll state p c i (rc, ctx, record { event = event; seq_id = q })).1 ≡ state
  unfolding after_poll
  after_poll-idle i c rc ctx event q fine none same =
      rw (fine, none)
        (ap (λ (x : Ctx). put_channel state p i (record (channel_at state p i) { reliable = x }))
            same
          ∙ put_channel-channel_at state p i)

  -- The event of a poll is the context's, and without an event nothing changes.
  poll_event :
      (i : ℕ)
      → let (rc, ctx, result) = Reliable.poll (channel_at state p i).reliable now_ms in
        (after_poll state p (channel_at state p i).channel_id i (rc, ctx, result)).2 ≡ result
  poll_event i =
      let (rc, ctx, result) = Reliable.poll (channel_at state p i).reliable now_ms in
      after_poll-event i (channel_at state p i).channel_id rc ctx result.event result.seq_id
        (poll_lem (channel_at state p i).reliable now_ms).0

  idle_poll :
      (i : ℕ)
      → is_none (Reliable.poll (channel_at state p i).reliable now_ms).2.event ≡ true
      → (after_poll state p
          (channel_at state p i).channel_id
          i
          (Reliable.poll (channel_at state p i).reliable now_ms)).1
        ≡ state
  idle_poll i quiet =
      let (rc, ctx, result) = Reliable.poll (channel_at state p i).reliable now_ms in
      let (fine, outcome) = poll_lem (channel_at state p i).reliable now_ms in
      elim outcome [
        | inl (none, same, idle) ↦
            after_poll-idle i (channel_at state p i).channel_id rc ctx result.event result.seq_id
              fine none same
        | inr (j, due_there, first, number, inl (e, more, same)) ↦
            absurd (let q = rw e at quiet in ground arith)
        | inr (j, due_there, first, number, inr (e, more, flew, left)) ↦
            absurd (let q = rw e at quiet in ground arith)
      ]

  -- The rest of a round: no channel in it is due and nothing changes, or the first that is is served.
  unfoldable pub Outcome : ℕ → Scheduled → StateErr × State × Scheduled → Type 0
  Outcome count out r =
      (((k : ℕ) → count ≤ k → k < 16 → due k ≡ false) × (r ≡ (ok, state, out)))
      ⊎ ((k : ℕ) × (count ≤ k)
          × (k < 16)
          × (due k ≡ true)
          × ((k' : ℕ) → count ≤ k' → k' < k → due k' ≡ false)
          × (r ≡ serve state p now_ms (polled_idx state p k)))

  not_due :
      (i : ℕ)
      → (is_polled (channel_at state p i) ≡ false)
        ⊎ (is_none (Reliable.poll (channel_at state p i).reliable now_ms).2.event ≡ true)
      → is_due_channel now_ms (channel_at state p i) ≡ false
  unfolding is_due_channel
  not_due i (inl unpolled) = ground arith
  not_due i (inr quiet) = ground arith

  is_due_there :
      (i : ℕ)
      → is_polled (channel_at state p i) ≡ true
      → is_none (Reliable.poll (channel_at state p i).reliable now_ms).2.event ≡ false
      → is_due_channel now_ms (channel_at state p i) ≡ true
  unfolding is_due_channel
  is_due_there i polled event = ground arith

  -- A channel that is not due is passed over.
  passed_over :
      (count : ℕ) (out : Scheduled) (r : StateErr × State × Scheduled)
      → due count ≡ false
      → Outcome (count + 1) out r
      → Outcome count out r
  unfolding Outcome
  passed_over count out r idle (inl (none_due, e)) = inl (
    (λ k a b. elim (Bool-cases (k == count)) [
      | inl same ↦ rw ((==_iff k count).0 same) idle
      | inr other ↦ none_due k (ground arith) b
    ]),
    e,
  )
  passed_over count out r idle (inr (k, a, b, there, first, e)) = inr (
    k,
    omega arith,
    b,
    there,
    (λ k' c d. elim (Bool-cases (k' == count)) [
      | inl same ↦ rw ((==_iff k' count).0 same) idle
      | inr other ↦ first k' (ground arith) d
    ]),
    e,
  )

  module _ (rounds count : ℕ) (out : Scheduled) (tx : TxResult) where
    abbrev here : ℕ
    here = polled_idx state p count

    abbrev polled_tx : TxResult
    polled_tx = (Reliable.poll (channel_at state p here).reliable now_ms).2

    loop_skip :
        is_polled (channel_at state p here) ≡ false
        → scheduler_loop (suc rounds) count state p now_ms out tx
          ≡ scheduler_loop rounds (count + 1) state p now_ms out tx
    unfolding scheduler_loop
    loop_skip unpolled = rw (unpolled, scheduler_loop) refl

    loop_quiet :
        is_polled (channel_at state p here) ≡ true
        → is_none polled_tx.event ≡ true
        → scheduler_loop (suc rounds) count state p now_ms out tx
          ≡ scheduler_loop rounds (count + 1) state p now_ms out polled_tx
    unfolding scheduler_loop
    loop_quiet polled quiet =
        rw
          (
            polled,
            scheduler_loop,
            poll_found here tx polled,
            poll_event here,
            quiet,
            poll_found here tx polled,
            poll_event here,
            idle_poll here quiet,
          )
          refl

    loop_serve :
        is_polled (channel_at state p here) ≡ true
        → is_none polled_tx.event ≡ false
        → scheduler_loop (suc rounds) count state p now_ms out tx ≡ serve state p now_ms here
    unfolding scheduler_loop serve
    loop_serve polled event =
        rw
          (
            polled,
            scheduler_loop,
            poll_found here tx polled,
            poll_event here,
            event,
            poll_found here tx polled,
            poll_event here,
          )
          refl

  pub loop_lem :
      (rounds count : ℕ) (out : Scheduled) (tx : TxResult)
      → count + rounds ≡ 16
      → Outcome count out (scheduler_loop rounds count state p now_ms out tx)
  unfolding scheduler_loop Outcome
  loop_lem ℕ.zero count out tx e = inl ((λ k a b. absurd (omega arith)), refl)
  loop_lem (suc rounds) count out tx e =
      let i = polled_idx state p count in
      let event = (Reliable.poll (channel_at state p i).reliable now_ms).2.event in
      elim (Bool-cases (is_polled (channel_at state p i))) [
        | inr unpolled ↦ rw (loop_skip rounds count out tx unpolled) (
            passed_over count out _ (not_due i (inl unpolled))
              (loop_lem rounds (count + 1) out tx (omega (arith, e))))
        | inl polled ↦ elim (Bool-cases (is_none event)) [
          | inl quiet ↦ rw (loop_quiet rounds count out tx polled quiet) (
              passed_over count out _ (not_due i (inr quiet)) (
                loop_lem rounds (count + 1) out
                  (Reliable.poll (channel_at state p i).reliable now_ms).2 (omega (arith, e))))
          | inr event_there ↦ inr (
            count,
            omega arith,
            omega (arith, e),
            is_due_there i polled event_there,
            (λ k' a b. absurd (omega arith)),
            loop_serve rounds count out tx polled event_there,
          )
        ]
      ]
