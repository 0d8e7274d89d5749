-- ===== src/State/ReliableMode/Accepting.antt =====
-- When `relinow_state_reliable_send` accepts a frame, and what it adds to the transmit queue.
use relinow.Prelude.{ℕ, ◌+◌, ◌<◌, ◌≡◌, ◌∙◌, refl, ap, ◌⊎◌, inl, inr, true, ◌==◌, arith, to_nat}
use relinow.Packet
use relinow.Packet.{mode_reliable}
use relinow.Reliable
use relinow.Reliable.Types.{Ctx, TxResult, tx_new}
use relinow.Reliable.Sender.{send_lem}
use relinow.State.Types.{StateErr, ok, queue_full, Channel, State, tx_queue_size}
use relinow.State.Lookup.{channel_at, put_channel}
use relinow.State.Lookup.Laws.{channel_at-put_channel}
use relinow.State.ReliableMode.{after_send, reliable_send}
use relinow.State.ReliableMode.Over.{marked, queued, put_channel-channel_at}
use relinow.State.ReliableMode.Mirror.{waiting, used_tx, queued_lem}
use relinow.State.ReliableMode.Kept.{after_send_new}
use relinow.State.ReliableMode.History.{IsHeld}

-- The two outcomes: the frame is refused and nothing changes, or its number is queued.
abbrev pub SendOutcome : State → ℕ → ℕ → TxResult → StateErr × State × TxResult → Type 0
SendOutcome state p i out (rc, state', result) =
    let channel = channel_at state p i in
    let channel' = channel_at state' p i in
    ((rc ≡ queue_full) × (used_tx channel ≡ tx_queue_size) × (state' ≡ state) × (result ≡ out))
    ⊎ ((rc ≡ ok)
        × (used_tx channel < tx_queue_size)
        × (result ≡ record { event = tx_new; seq_id = channel.reliable.next_tx_seq })
        × (used_tx channel' ≡ used_tx channel + 1)
        × ((q : ℕ)
            → waiting channel' q ≡ waiting channel q + to_nat (channel.reliable.next_tx_seq == q)))

module _ (state : State) (p c i : ℕ) (h : IsHeld state p c i) (out : TxResult) where
  abbrev channel : Channel
  channel = channel_at state p i

  refused :
      (rc : Packet.Err) (ctx : Ctx) (result : TxResult)
      → rc ≡ Packet.invalid_packet
      → ctx ≡ channel.reliable
      → result ≡ out
      → used_tx channel ≡ tx_queue_size
      → SendOutcome state p i out (after_send state p c i (rc, ctx, result))
  unfolding after_send
  refused rc ctx result e same untouched full = rw e (
      inl (
        refl,
        full,
        ap (λ (x : Ctx). put_channel state p i (record channel { reliable = x })) same
            ∙ put_channel-channel_at state p i,
        untouched,
      ))

  accepted :
      (rc : Packet.Err) (ctx : Ctx) (result : TxResult)
      → rc ≡ Packet.ok
      → result ≡ record { event = tx_new; seq_id = channel.reliable.next_tx_seq }
      → used_tx channel < tx_queue_size
      → SendOutcome state p i out (after_send state p c i (rc, ctx, result))
  unfolding after_send
  accepted rc ctx result e new room =
      let q = channel.reliable.next_tx_seq in
      let written = marked (record channel { reliable = ctx }) q in
      let (len, used, waits, same) = queued_lem written q (omega (arith, room, h.mirror.tx_room)) in
      let there =
        ap (λ (x : State). channel_at x p i)
          (after_send_new state p c i h.found h.mode h.mirror ctx q)
        ∙ channel_at-put_channel state p c i h.found (queued written q) in
      rw (e, new)
        (inr (
          refl,
          room,
          refl,
          ap used_tx there ∙ used,
          λ r. ap (λ (ch : Channel). waiting ch r) there ∙ waits r,
        ))

  -- On a RELIABLE channel whose transmit queue mirrors its context, `relinow_state_reliable_send`
  -- refuses a frame exactly when all 16 entries of the queue are in use, and then changes nothing.
  -- Otherwise it returns ok, reports the next number as new and adds exactly this number to the
  -- queue.
  pub reliable_send_mirrored :
      (now_ms : ℕ) → SendOutcome state p i out (reliable_send state p c now_ms out)
  unfolding reliable_send
  reliable_send_mirrored now_ms =
      let (rc, ctx, result) = Reliable.send channel.reliable now_ms out in
      let in_mode : (channel.mode == mode_reliable) ≡ true = rw h.mode refl in
      rw (h.found, reliable_send, in_mode)
        (elim (send_lem channel.reliable now_ms out) [
          | inl (full, e, same, untouched) ↦
              refused rc ctx result e same untouched (h.mirror.used ∙ full ∙ h.mirror.valid.room)
          | inr (room, e, new, next, used, flying, others) ↦
              accepted rc ctx result e new (omega (arith, room, h.mirror.used, h.mirror.valid.room))
        ])
