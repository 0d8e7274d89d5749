-- ===== src/Packet/Seq.antt =====
-- Serial arithmetic: `relinow_is_seq_newer` and `relinow_seq_next`.
use relinow.Prelude.{ℕ, ◌+◌, ◌<◌, ◌≡◌, ◌↔◌, ◌⊎◌, true, false, arith, u16, sub16}
use relinow.Packet.{is_seq_newer, seq_next}

-- Within half the number space of a common base, serial order is the order of the offsets, also
-- where the numbers wrap around.
pub is_seq_newer-offsets :
    (base i j : ℕ)
    → base < 65536
    → i < 32768
    → j < 32768
    → (is_seq_newer (u16 (base + i)) (u16 (base + j)) ≡ true) ↔ (j < i)
unfolding is_seq_newer
is_seq_newer-offsets base i j hb hi hj = ground arith

-- Two 16-bit numbers are the same, or exactly one of them is newer than the other, or they lie half
-- the number space apart; in the first case and the last neither is newer.
pub is_seq_newer_trichotomy :
    (a b : ℕ)
    → a < 65536
    → b < 65536
    → ((a ≡ b) × (is_seq_newer a b ≡ false) × (is_seq_newer b a ≡ false))
      ⊎ ((is_seq_newer a b ≡ true) × (is_seq_newer b a ≡ false))
      ⊎ ((is_seq_newer a b ≡ false) × (is_seq_newer b a ≡ true))
      ⊎ ((sub16 a b ≡ 32768) × (is_seq_newer a b ≡ false) × (is_seq_newer b a ≡ false))
unfolding is_seq_newer
is_seq_newer_trichotomy a b ha hb = ground arith

pub seq_next-lt : (a : ℕ) → seq_next a < 65536
unfolding seq_next
seq_next-lt a = omega arith
