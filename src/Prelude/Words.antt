-- ===== src/Prelude/Words.antt =====
-- Unsigned machine words: `uint8_t`, `uint16_t` and `uint32_t` values are numbers below the
-- modulus, and each cast or unsigned operation that can wrap is written out.
use Prim.Native.Nat.{ℕ, ◌+◌, ◌-◌, ◌%◌}

abbrev pub u8 : ℕ → ℕ
u8 x = x % 256

abbrev pub u16 : ℕ → ℕ
u16 x = x % 65536

abbrev pub u32 : ℕ → ℕ
u32 x = x % 4294967296

-- `uint32_t a - b`, and `(uint16_t)(a - b)` of two `uint16_t`.
abbrev pub sub32 : ℕ → ℕ → ℕ
sub32 a b = (a + 4294967296 - b) % 4294967296

abbrev pub sub16 : ℕ → ℕ → ℕ
sub16 a b = (a + 65536 - b) % 65536
