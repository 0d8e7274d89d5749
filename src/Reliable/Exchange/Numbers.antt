-- ===== src/Reliable/Exchange/Numbers.antt =====
-- Lists of consecutive numbers that stay below a bound do not wrap.
use relinow.Prelude.{
  ℕ, suc, ◌+◌, ◌-◌, ◌≤◌, ◌<◌, ◌≡◌, List, [], ◌∷◌, count, true, arith, subst, get_or,
}
use relinow.Packet.{seq_next}
use relinow.Reliable.Types.{Pending, zero_pending}
use relinow.Reliable.Sending.{is_pending}
use relinow.Reliable.Receiver.{consecutive}
use relinow.Reliable.Exchange.{times}

-- A list of consecutive numbers whose members are all below a bound ends below it.
pub consecutive-le :
    (a k n : ℕ) → a ≤ n → n < 65536 → ((s : ℕ) → 0 < times s (consecutive a k) → s < n) → a + k ≤ n
unfolding count seq_next
consecutive-le a ℕ.zero n h small below = omega (arith, h)
consecutive-le a (suc k) n h small below =
    let here : a < n = below a (ground arith) in
    let next : seq_next a ≡ a + 1 = omega (arith, here, small) in
    let rest =
      consecutive-le (seq_next a) k n (omega (arith, here, next)) small
        (λ s m. below s (ground (arith, m))) in
    omega (arith, rest, next)

-- The last of them is a member.
pub consecutive-last : (a k : ℕ) → a + k < 65536 → 0 < k → 0 < times (a + k - 1) (consecutive a k)
unfolding count seq_next
consecutive-last a ℕ.zero small some_there = absurd (omega (arith, some_there))
consecutive-last a (suc ℕ.zero) small some_there = ground arith
consecutive-last a (suc (suc k)) small some_there =
    let next : seq_next a ≡ a + 1 = omega (arith, small) in
    let rest = consecutive-last (seq_next a) (suc k) (omega (arith, next, small)) (omega arith) in
    let same : seq_next a + suc k - 1 ≡ a + suc (suc k) - 1 = omega (arith, next) in
    let rest' : 0 < times (a + suc (suc k) - 1) (consecutive (seq_next a) (suc k)) =
      subst (λ s. 0 < times s (consecutive (seq_next a) (suc k))) same rest in
    ground (arith, rest')

-- The number of a slot in use is in flight.
pub count_at :
    (slots : List Pending) (i : ℕ)
    → (get_or slots i zero_pending).in_use ≡ true
    → 0 < count (is_pending (get_or slots i zero_pending).seq_id) slots
unfolding count
count_at [] i busy = absurd (ground arith)
count_at (slot ∷ slots) ℕ.zero busy = ground arith
count_at (slot ∷ slots) (suc i) busy = ground (arith, count_at slots i busy)
