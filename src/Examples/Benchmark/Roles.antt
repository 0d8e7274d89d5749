-- ===== src/Examples/Benchmark/Roles.antt =====
-- Which of two devices sends.
use relinow.Prelude.{
  ℕ, ◌≡◌, ◌≢◌, refl, List, [], ◌∷◌, true, false, not, ◌==◌, ==_iff, arith, length, Bool-cases, inl,
  inr, ap₂,
}
use relinow.Examples.Benchmark.{mac_less}

-- Of two different addresses of one length exactly one is the lower.
pub mac_less_opposite :
    (a b : List ℕ) → length a ≡ length b → a ≢ b → mac_less a b ≡ not (mac_less b a)
unfolding mac_less
mac_less_opposite [] [] len differ = absurd (differ refl)
mac_less_opposite [] (y ∷ b) len differ = absurd (omega (arith, len))
mac_less_opposite (x ∷ a) [] len differ = absurd (omega (arith, len))
mac_less_opposite (x ∷ a) (y ∷ b) len differ = elim (Bool-cases (x == y)) [
  | inl same ↦
      let equal = (==_iff x y).0 same in
      let equal' : (y == x) ≡ true = ground arith in
      let rest =
        mac_less_opposite a b (omega (arith, len))
          (λ e. differ (ap₂ (λ (h : ℕ) (t : List ℕ). h ∷ t) equal e)) in
      rw (same, equal') rest
  | inr other ↦ let other' : (y == x) ≡ false = ground arith in rw (other, other') (ground arith)
]
