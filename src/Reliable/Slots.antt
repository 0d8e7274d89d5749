-- ===== src/Reliable/Slots.antt =====
-- The pending and reorder arrays of a context, seen as multisets of sequence numbers.
use relinow.Prelude.{
  ℕ, ◌+◌, ◌≤◌, ◌<◌, ◌≡◌, refl, List, [], ◌∷◌, some, Bool, not, ◌&&◌, arith, length, count,
  find_index,
}
use relinow.Reliable.Types.{Ctx}
use relinow.Reliable.Sending.{is_pending}
use relinow.Reliable.Receiving.{is_buffered}

-- How many unacknowledged frames carry the number `seq_id`.
abbrev pub in_flight : Ctx → ℕ → ℕ
in_flight ctx seq_id = count (is_pending seq_id) ctx.pending

-- How many pending slots are in use.
abbrev pub used_pending : Ctx → ℕ
used_pending ctx = count (λ slot. slot.in_use) ctx.pending

-- How many buffered frames carry the number `seq_id`.
abbrev pub buffered : Ctx → ℕ → ℕ
buffered ctx seq_id = count (is_buffered seq_id) ctx.reorder

-- How many reorder slots are in use.
abbrev pub used_reorder : Ctx → ℕ
used_reorder ctx = count (λ slot. slot.in_use) ctx.reorder

-- Counts of a test and of its negation make up the length.
pub count-not {ℓ} :
    {A : Type ℓ} (p : A → Bool) (xs : List A) → count p xs + count (λ a. not (p a)) xs ≡ length xs
unfolding count
count-not p [] = refl
count-not p (x ∷ xs) = ground (arith, count-not p xs)

-- A stronger test passes less often.
pub count-and-le {ℓ} :
    {A : Type ℓ} (p q : A → Bool) (xs : List A) → count (λ a. p a && q a) xs ≤ count p xs
unfolding count
count-and-le p q [] = omega arith
count-and-le p q (x ∷ xs) = ground (arith, count-and-le p q xs)

-- Where a search fails, no entry passes; where it finds `i`, one does.
pub count_of_some {ℓ} :
    {A : Type ℓ} (p : A → Bool) (xs : List A) (i : ℕ) → find_index p xs ≡ some i → 0 < count p xs
unfolding find_index count
count_of_some p [] i h = absurd (ground arith)
count_of_some p (x ∷ xs) ℕ.zero h = ground arith
count_of_some p (x ∷ xs) (ℕ.suc i) h = ground (arith, count_of_some p xs i)
