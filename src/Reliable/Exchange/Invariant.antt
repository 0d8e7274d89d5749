-- ===== src/Reliable/Exchange/Invariant.antt =====
-- The invariant of an exchange, and each step's part in it.
use relinow.Prelude.{
  ℕ, suc, ◌+◌, ◌-◌, ◌≤◌, ◌<◌, ◌≡◌, ◌∙◌, ◌⊎◌, inl, inr, List, [], ◌∷◌, count, ◌==◌, ==_iff, true,
  false, arith, length, Bool-cases, to_nat, subst,
}
use relinow.Packet
use relinow.Packet.{seq_next}
use relinow.Reliable.Types.{Ctx, TxResult, TxEvent, tx_none, tx_new, tx_retransmit, tx_failed}
use relinow.Reliable.Sending.{send, on_ack, poll, expire}
use relinow.Reliable.Slots.{in_flight, buffered}
use relinow.Reliable.Sender.{send_lem, on_ack_lem, poll_lem}
use relinow.Reliable.Receiver.{IsReceiver, consecutive}
use relinow.Reliable.Exchange.{Exchange, times, transmit, after_send, sending, polling, answering}
use relinow.Reliable.Exchange.Numbers.{count_at}

-- Where a number below the count of sends is: in flight, reported as failed, or delivered.
abbrev pub Accounted : Exchange → ℕ → Type 0
Accounted e q = (0 < in_flight e.sender q) ⊎ (0 < times q e.failed) ⊎ (0 < times q e.delivered)

-- The invariant while no number has been used twice.
pub record IsSound (e : Exchange) : Type 0 where
  pub next : e.sender.next_tx_seq ≡ e.sent
  pub flying : (q : ℕ) → 0 < in_flight e.sender q → q < e.sent
  pub framed : (q : ℕ) → 0 < times q e.frames → q < e.sent
  pub held : (q : ℕ) → 0 < buffered e.receiver q → q < e.sent
  pub receiver : IsReceiver e.receiver
  pub first : ℕ
  pub in_order : e.delivered ≡ consecutive first (length e.delivered)
  pub within : first + length e.delivered ≤ e.sent
  pub fresh : e.receiver.has_rx_window ≡ false → e.delivered ≡ []
  pub opened :
      e.receiver.has_rx_window ≡ true
      → (0 < length e.delivered) × (e.receiver.expected_rx_seq ≡ first + length e.delivered)
  pub acked : (q : ℕ) → 0 < times q e.acks → 0 < times q e.delivered
  pub accounted : (q : ℕ) → q < e.sent → Accounted e q

-- A step that keeps the invariant as long as the numbers last.
abbrev pub Keeps : Exchange → Exchange → Type 0
Keeps e e' = (e.sent ≤ e'.sent) × (IsSound e → e'.sent < 65536 → IsSound e')

module _ (e : Exchange) where
  -- A new frame gets the next number.
  new-IsSound :
      (ctx : Ctx)
      → ctx.next_tx_seq ≡ seq_next e.sender.next_tx_seq
      → ((q : ℕ) → in_flight ctx q ≡ in_flight e.sender q + to_nat (e.sender.next_tx_seq == q))
      → suc e.sent < 65536
      → IsSound e
      → IsSound (transmit e ctx tx_new e.sender.next_tx_seq)
  unfolding transmit seq_next count
  new-IsSound ctx next flying small h = record {
    next = omega (arith, next, h.next, small);
    flying = λ q k. elim (Bool-cases (e.sender.next_tx_seq == q)) [
      | inl same ↦ ground (arith, h.next)
      | inr other ↦ omega (arith, h.flying q (ground (arith, flying q)))
    ];
    framed = λ q k. elim (Bool-cases (e.sender.next_tx_seq == q)) [
      | inl same ↦ ground (arith, h.next)
      | inr other ↦ omega (arith, h.framed q (ground arith))
    ];
    held = λ q k. omega (arith, h.held q k);
    receiver = h.receiver;
    first = h.first;
    in_order = h.in_order;
    within = omega (arith, h.within);
    fresh = h.fresh;
    opened = h.opened;
    acked = h.acked;
    accounted = λ q k. elim (Bool-cases (e.sender.next_tx_seq == q)) [
      | inl same ↦ inl (ground (arith, flying q))
      | inr other ↦ elim (h.accounted q (ground (arith, h.next))) [
        | inl there ↦ inl (omega (arith, flying q))
        | inr gone ↦ inr gone
      ]
    ];
  }

  after_send-Keeps :
      (rc : Packet.Err) (ctx : Ctx) (result : TxResult)
      → (rc ≡ Packet.invalid_packet)
        ⊎ ((rc ≡ Packet.ok)
            × (result ≡ record { event = tx_new; seq_id = e.sender.next_tx_seq })
            × (ctx.next_tx_seq ≡ seq_next e.sender.next_tx_seq)
            × ((q : ℕ)
                → in_flight ctx q ≡ in_flight e.sender q + to_nat (e.sender.next_tx_seq == q)))
      → Keeps e (after_send e (rc, ctx, result))
  unfolding after_send
  after_send-Keeps rc ctx result (inl refused) = rw refused (omega arith, λ h _. h)
  after_send-Keeps rc ctx result (inr (accepted, new, next, flying)) =
      rw (accepted, new) (omega arith, λ h small. new-IsSound ctx next flying small h)

  pub sending-Keeps : (now_ms : ℕ) (out : TxResult) → Keeps e (sending e now_ms out)
  sending-Keeps now_ms out =
      let (rc, ctx, result) = send e.sender now_ms out in
      after_send-Keeps rc ctx result (elim (send_lem e.sender now_ms out) [
        | inl (full, refused, same, untouched) ↦ inl refused
        | inr (room, accepted, new, next, used, flying, others) ↦ inr (accepted, new, next, flying)
      ])

  -- What a step of the sender that sends nothing new leaves as it was.
  sender-IsSound :
      (ctx : Ctx)
      → ctx.next_tx_seq ≡ e.sender.next_tx_seq
      → ((q : ℕ) → in_flight ctx q ≤ in_flight e.sender q)
      → (frames failed : List ℕ) → ((q : ℕ) → 0 < times q frames → q < e.sent)
      → ((q : ℕ)
          → 0 < in_flight e.sender q
          → (0 < in_flight ctx q) ⊎ (0 < times q failed) ⊎ (0 < times q e.delivered))
      → ((q : ℕ) → times q e.failed ≤ times q failed)
      → IsSound e
      → IsSound (record e { sender = ctx; frames = frames; failed = failed })
  sender-IsSound ctx next flying frames failed framed left more h = record {
    next = next ∙ h.next;
    flying = λ q k. h.flying q (omega (arith, flying q));
    framed = framed;
    held = h.held;
    receiver = h.receiver;
    first = h.first;
    in_order = h.in_order;
    within = h.within;
    fresh = h.fresh;
    opened = h.opened;
    acked = h.acked;
    accounted = λ q k. elim (h.accounted q k) [
      | inl there ↦ left q there
      | inr (inl gone) ↦ inr (inl (omega (arith, more q)))
      | inr (inr arrived) ↦ inr (inr arrived)
    ];
  }

  poll-next : (now_ms : ℕ) → (poll e.sender now_ms).1.next_tx_seq ≡ e.sender.next_tx_seq
  unfolding poll expire
  poll-next now_ms = ground arith

  resent-IsSound :
      (ctx : Ctx) (r : ℕ)
      → ctx.next_tx_seq ≡ e.sender.next_tx_seq
      → ((q : ℕ) → in_flight ctx q ≡ in_flight e.sender q)
      → 0 < in_flight e.sender r
      → IsSound e
      → IsSound (transmit e ctx tx_retransmit r)
  unfolding transmit count
  resent-IsSound ctx r next same there h =
      sender-IsSound ctx next (λ q. omega (arith, same q)) (r ∷ e.frames) e.failed
        (λ q k. elim (Bool-cases (r == q)) [
          | inl equal ↦ ground (arith, h.flying r there)
          | inr other ↦ h.framed q (ground arith)
        ])
        (λ q k. inl (omega (arith, same q))) (λ q. omega arith) h

  failed-IsSound :
      (ctx : Ctx) (r : ℕ)
      → ctx.next_tx_seq ≡ e.sender.next_tx_seq
      → ((q : ℕ) → in_flight ctx q ≡ in_flight e.sender q - to_nat (r == q))
      → IsSound e
      → IsSound (transmit e ctx tx_failed r)
  unfolding transmit count
  failed-IsSound ctx r next left h =
      sender-IsSound ctx next (λ q. omega (arith, left q)) e.frames (r ∷ e.failed) h.framed
        (λ q k. elim (Bool-cases (r == q)) [
          | inl equal ↦ inr (inl (ground arith))
          | inr other ↦ inl (ground (arith, left q))
        ])
        (λ q. omega arith) h

  after_poll-Keeps :
      (ctx : Ctx) (event : TxEvent) (r : ℕ)
      → ctx.next_tx_seq ≡ e.sender.next_tx_seq
      → ((event ≡ tx_none) × (ctx ≡ e.sender))
        ⊎ ((event ≡ tx_retransmit)
            × (0 < in_flight e.sender r)
            × ((q : ℕ) → in_flight ctx q ≡ in_flight e.sender q))
        ⊎ ((event ≡ tx_failed)
            × ((q : ℕ) → in_flight ctx q ≡ in_flight e.sender q - to_nat (r == q)))
      → Keeps e (transmit e ctx event r)
  unfolding transmit
  after_poll-Keeps ctx event r next (inl (none, same)) = rw none (
    omega arith,
    λ h _.
        sender-IsSound ctx next (λ q. rw same (omega arith)) e.frames e.failed h.framed
          (λ q k. rw same (inl k)) (λ q. omega arith) h,
  )
  after_poll-Keeps ctx event r next (inr (inl (again, there, same))) =
      rw again (omega arith, λ h _. resent-IsSound ctx r next same there h)
  after_poll-Keeps ctx event r next (inr (inr (over, left))) =
      rw over (omega arith, λ h _. failed-IsSound ctx r next left h)

  pub polling-Keeps : (now_ms : ℕ) → Keeps e (polling e now_ms)
  polling-Keeps now_ms =
      let (rc, ctx, result) = poll e.sender now_ms in
      after_poll-Keeps ctx result.event result.seq_id (poll-next now_ms)
        (elim (poll_lem e.sender now_ms).1 [
          | inl (none, same, idle) ↦ inl (none, same)
          | inr (i, due, first, number, inl (again, left, same)) ↦
              inr (inl (again, rw number (count_at e.sender.pending i (ground arith)), same))
          | inr (i, due, first, number, inr (over, spent, flew, left)) ↦ inr (inr (over, left))
        ])

  -- Only delivered numbers are acknowledged.
  pub answering-Keeps : (a now_ms : ℕ) → 0 < times a e.acks → Keeps e (answering e a now_ms)
  answering-Keeps a now_ms there =
      let (event, left, spent, next, any) = on_ack_lem e.sender a now_ms in
      (
        omega arith,
        λ h _.
            sender-IsSound (on_ack e.sender a now_ms).1 next (λ q. omega (arith, left q)) e.frames
              e.failed h.framed
              (λ q k. elim (Bool-cases (a == q)) [
                | inl equal ↦ inr (
                    inr (
                      subst (λ s. 0 < times s e.delivered) ((==_iff a q).0 equal)
                        (h.acked a there)))
                | inr other ↦ inl (ground (arith, left q))
              ])
              (λ q. omega arith) h,
      )
