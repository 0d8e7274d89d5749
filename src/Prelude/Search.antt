-- ===== src/Prelude/Search.antt =====
-- The search loops of the program: the first entry of an array that passes a test, and how many
-- pass it.
use Prim.Native.Nat.{ℕ, zero, suc, ◌+◌, ◌*◌, ◌<◌, ◌≤◌}
use mathlib.Core.Path.{◌≡◌, refl}
use mathlib.Core.Bool.{Bool, true, false, ◌&&◌}
use mathlib.Core.Option.{Option, none, some}
use mathlib.Core.Option
use mathlib.Core.List.{List, [], ◌∷◌, ◌++◌}
use native.Mathlib.Omega.{arith}
use relinow.Prelude.Tests.{if◌then◌else◌}
use relinow.Prelude.Lists.{length, get_or, set}

-- A test's value as a number.
abbrev pub to_nat : Bool → ℕ
to_nat true = 1
to_nat false = 0

module _ {ℓ} {A : Type ℓ} (p : A → Bool) where
  -- `for (i = 0; i < N; ++i) if (p(a[i])) return i;`
  unfoldable pub find_index : List A → Option ℕ
  find_index [] = none
  find_index (x ∷ xs) = if p x then some zero else Option.map suc (find_index xs)

  -- `for (i = 0; i < N; ++i) if (p(a[i])) ++n;`
  unfoldable pub count : List A → ℕ
  count [] = 0
  count (x ∷ xs) = to_nat (p x) + count xs

  pub find_index-some :
      (xs : List A) (i : ℕ) (d : A)
      → find_index xs ≡ some i
      → (i < length xs) × (p (get_or xs i d) ≡ true)
  unfolding find_index
  find_index-some [] i d h = absurd (ground arith)
  find_index-some (x ∷ xs) zero d h = ground arith
  find_index-some (x ∷ xs) (suc i) d h = ground (arith, find_index-some xs i d)

  pub find_index_first :
      (xs : List A) (i j : ℕ) (d : A) → find_index xs ≡ some i → j < i → p (get_or xs j d) ≡ false
  unfolding find_index
  find_index_first [] i j d h k = absurd (ground arith)
  find_index_first (x ∷ xs) zero j d h k = absurd (omega arith)
  find_index_first (x ∷ xs) (suc i) zero d h k = ground arith
  find_index_first (x ∷ xs) (suc i) (suc j) d h k = ground (arith, find_index_first xs i j d)

  pub find_index-none :
      (xs : List A) (j : ℕ) (d : A)
      → find_index xs ≡ none
      → j < length xs
      → p (get_or xs j d) ≡ false
  unfolding find_index
  find_index-none [] j d h k = absurd (omega arith)
  find_index-none (x ∷ xs) zero d h k = ground arith
  find_index-none (x ∷ xs) (suc j) d h k = ground (arith, find_index-none xs j d)

  pub count_of_none : (xs : List A) → find_index xs ≡ none → count xs ≡ 0
  unfolding find_index count
  count_of_none [] h = refl
  count_of_none (x ∷ xs) h = ground (arith, count_of_none xs)

  pub find_index_of_count : (xs : List A) → count xs ≡ 0 → find_index xs ≡ none
  unfolding find_index count
  find_index_of_count [] h = refl
  find_index_of_count (x ∷ xs) h = ground (arith, find_index_of_count xs)

  pub count-le : (xs : List A) → count xs ≤ length xs
  unfolding count
  count-le [] = omega arith
  count-le (x ∷ xs) = ground (arith, count-le xs)

  pub count-append : (xs ys : List A) → count (xs ++ ys) ≡ count xs + count ys
  unfolding count
  count-append [] ys = omega arith
  count-append (x ∷ xs) ys = omega (arith, count-append xs ys)

  -- Writing one entry changes the count by that entry alone.
  pub count-set :
      (xs : List A) (i : ℕ) (v d : A)
      → i < length xs
      → count (set xs i v) + to_nat (p (get_or xs i d)) ≡ count xs + to_nat (p v)
  unfolding count
  count-set [] i v d h = absurd (omega arith)
  count-set (x ∷ xs) zero v d h = omega arith
  count-set (x ∷ xs) (suc i) v d h = omega (arith, count-set xs i v d (omega arith))

module _ {ℓ} {A : Type ℓ} (f : A → ℕ) where
  -- The sum of a measure over an array.
  unfoldable pub total : List A → ℕ
  total [] = 0
  total (x ∷ xs) = f x + total xs

  pub total-set :
      (xs : List A) (i : ℕ) (v d : A)
      → i < length xs
      → total (set xs i v) + f (get_or xs i d) ≡ total xs + f v
  unfolding total
  total-set [] i v d h = absurd (omega arith)
  total-set (x ∷ xs) zero v d h = omega arith
  total-set (x ∷ xs) (suc i) v d h = omega (arith, total-set xs i v d (omega arith))

  pub total-le : (xs : List A) (bound : ℕ) → ((a : A) → f a ≤ bound) → total xs ≤ length xs * bound
  unfolding total
  total-le [] bound h = omega arith
  total-le (x ∷ xs) bound h = omega (arith, h x, total-le xs bound h)

-- Two tests that agree everywhere find the same entry.
pub find_index_congr {ℓ} :
    {A : Type ℓ} (p q : A → Bool) (xs : List A)
    → ((a : A) → p a ≡ q a)
    → find_index p xs ≡ find_index q xs
unfolding find_index
find_index_congr p q [] h = refl
find_index_congr p q (x ∷ xs) h = ground (arith, h x, find_index_congr p q xs h)

-- To check a property of every small number by evaluation.
unfoldable pub holds_below : (ℕ → Bool) → ℕ → Bool
holds_below p zero = true
holds_below p (suc n) = p n && holds_below p n

pub holds_below_lem : (p : ℕ → Bool) (n i : ℕ) → holds_below p n ≡ true → i < n → p i ≡ true
unfolding holds_below
holds_below_lem p zero i h k = absurd (omega arith)
holds_below_lem p (suc n) i h k = ground (arith, holds_below_lem p n i)
