-- ===== src/State/ReliableMode/Mirror.antt =====
-- The transmit queue of a RELIABLE channel mirrors the frames in flight of its reliable context.
use relinow.Prelude.{
  ℕ, ◌+◌, ◌-◌, ◌<◌, ◌≡◌, refl, inl, inr, true, false, ◌==◌, ==_iff, arith, length, length-set,
  get_or, count, count-set, count_of_none, find_index, find_index-some, to_nat, min, Option-cases,
}
use relinow.Reliable.Slots.{in_flight, used_pending, count-not, count_of_some}
use relinow.Reliable.Invariant.{IsValid}
use relinow.State.Types.{Slot, Channel, zero_slot, tx_queue_size}
use relinow.State.Queues.{is_queued, is_free_slot, queued_slot, tx_remove_seq}
use relinow.State.ReliableMode.Over.{queued}

-- How many entries of the transmit queue carry a number, and how many are in use.
abbrev pub waiting : Channel → ℕ → ℕ
waiting channel q = count (is_queued q) channel.tx_queue

abbrev pub used_tx : Channel → ℕ
used_tx channel = count (λ (slot : Slot). slot.used) channel.tx_queue

-- The context is valid, and the queue holds the numbers in flight, each as often.
pub record IsMirror (channel : Channel) : Type 0 where
  pub valid : IsValid channel.reliable
  pub tx_room : length channel.tx_queue ≡ tx_queue_size
  pub used : used_tx channel ≡ used_pending channel.reliable
  pub same : (q : ℕ) → waiting channel q ≡ in_flight channel.reliable q

-- With a free entry in the queue, the number is added to it,
pub queued_lem :
    (channel : Channel) (q : ℕ)
    → used_tx channel < length channel.tx_queue
    → (length (queued channel q).tx_queue ≡ length channel.tx_queue)
      × (used_tx (queued channel q) ≡ used_tx channel + 1)
      × ((r : ℕ) → waiting (queued channel q) r ≡ waiting channel r + to_nat (q == r))
      × ((queued channel q).reliable ≡ channel.reliable)
unfolding queued
queued_lem channel q room = elim (Option-cases (find_index is_free_slot channel.tx_queue)) [
  | inl full ↦ absurd (
      omega (
        arith,
        count_of_none is_free_slot channel.tx_queue full,
        count-not (λ (slot : Slot). slot.used) channel.tx_queue,
      ))
  | inr (j, free) ↦
      let (inside, unused) = find_index-some is_free_slot channel.tx_queue j zero_slot free in
      let used =
        count-set (λ (slot : Slot). slot.used) channel.tx_queue j (queued_slot q) zero_slot
          inside in
      rw (queued, free)
        (
          length-set channel.tx_queue j (queued_slot q),
          ground (arith, used),
          λ r.
              ground (
                arith,
                count-set (is_queued r) channel.tx_queue j (queued_slot q) zero_slot inside,
              ),
          refl,
        )
]

-- and the removal of a number takes one entry out, if there is one.
pub tx_remove_seq_lem :
    (channel : Channel) (q : ℕ)
    → (length (tx_remove_seq channel q).tx_queue ≡ length channel.tx_queue)
      × (used_tx (tx_remove_seq channel q) + min 1 (waiting channel q) ≡ used_tx channel)
      × ((r : ℕ) → waiting (tx_remove_seq channel q) r ≡ waiting channel r - to_nat (q == r))
      × ((tx_remove_seq channel q).reliable ≡ channel.reliable)
unfolding tx_remove_seq
tx_remove_seq_lem channel q = elim (Option-cases (find_index (is_queued q) channel.tx_queue)) [
  | inl e ↦
      let absent = count_of_none (is_queued q) channel.tx_queue e in
      rw (tx_remove_seq, e)
        (refl, omega (arith, absent), λ r. ground (arith, absent, waiting-eq channel q r), refl)
  | inr (j, e) ↦
      let (inside, there) = find_index-some (is_queued q) channel.tx_queue j zero_slot e in
      let present = count_of_some (is_queued q) channel.tx_queue j e in
      let freed = record (get_or channel.tx_queue j zero_slot) { used = false } in
      let used = count-set (λ (slot : Slot). slot.used) channel.tx_queue j freed zero_slot inside in
      rw (tx_remove_seq, e)
        (
          length-set channel.tx_queue j freed,
          ground (arith, used),
          λ r. ground (arith, count-set (is_queued r) channel.tx_queue j freed zero_slot inside),
          refl,
        )
]
  where
    waiting-eq : (ch : Channel) (a r : ℕ) → waiting ch a ≡ 0 → (a == r) ≡ true → waiting ch r ≡ 0
    waiting-eq ch a r z e = rw (← (==_iff a r).0 e) z
