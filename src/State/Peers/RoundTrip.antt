-- ===== src/State/Peers/RoundTrip.antt =====
-- Adding a peer and opening a channel, and finding them again.
use relinow.Prelude.{
  ℕ, suc, ◌<◌, ◌≡◌, refl, List, [], ◌∷◌, none, some, Bool, true, arith, set, find_index,
  Option-cases, inl, inr, ◌⊎◌, length, count, find_index-some, count_of_none,
}
use relinow.State.Types.{ok, no_space, not_found, State, zero_peer}
use relinow.State.Lookup.{put_peer}
use relinow.State.Peers.{
  mac_equal, is_peer, is_free_peer, find_peer, new_peer, add_new_peer, add_peer,
}

mac_equal_refl : (mac : List ℕ) → mac_equal mac mac ≡ true
unfolding mac_equal
mac_equal_refl [] = refl
mac_equal_refl (b ∷ mac) = ground (arith, mac_equal_refl mac)

-- Writing over an entry that does not pass a test with one that does, where none passed.
pub find_index-set_first {ℓ} :
    {A : Type ℓ} (f : A → Bool) (xs : List A) (i : ℕ) (v : A)
    → find_index f xs ≡ none
    → i < length xs
    → f v ≡ true
    → find_index f (set xs i v) ≡ some i
unfolding find_index
find_index-set_first f [] i v h k l = absurd (omega arith)
find_index-set_first f (x ∷ xs) ℕ.zero v h k l = ground arith
find_index-set_first f (x ∷ xs) (suc i) v h k l = ground (arith, find_index-set_first f xs i v)

module _ (state : State) (mac : List ℕ) (out : ℕ) where
  find_peer_there :
      (i : ℕ) → find_index (is_peer mac) state.peers ≡ some i → find_peer state mac out ≡ (ok, i)
  unfolding find_peer
  find_peer_there i there = rw (there, find_peer) refl

  find_peer_away :
      find_index (is_peer mac) state.peers ≡ none → find_peer state mac out ≡ (not_found, out)
  unfolding find_peer
  find_peer_away away = rw (away, find_peer) refl

  add_peer_there :
      (i : ℕ)
      → find_index (is_peer mac) state.peers ≡ some i
      → add_peer state mac out ≡ (ok, state, i)
  unfolding add_peer
  add_peer_there i there = rw (find_peer_there i there, add_peer, find_peer_there i there) refl

  add_peer_away :
      find_index (is_peer mac) state.peers ≡ none
      → add_peer state mac out ≡ add_new_peer state mac out
  unfolding add_peer
  add_peer_away away = rw (find_peer_away away, add_peer) refl

  add_new_peer_free :
      (i : ℕ)
      → find_index is_free_peer state.peers ≡ some i
      → add_new_peer state mac out ≡ (ok, put_peer state i (new_peer mac), i)
  unfolding add_new_peer
  add_new_peer_free i free = rw (free, add_new_peer) refl

  add_new_peer_full :
      find_index is_free_peer state.peers ≡ none
      → add_new_peer state mac out ≡ (no_space, state, out)
  unfolding add_new_peer
  add_new_peer_full full = rw (full, add_new_peer) refl

-- A new peer is found where it was put; one that is there already is found without a change; and a
-- full table refuses a new one and stays as it was.
pub find_peer-add_peer :
    (state : State) (mac : List ℕ) (out out' : ℕ)
    → let (rc, state', index) = add_peer state mac out in
      ((rc ≡ ok)
        × (find_peer state' mac out' ≡ (ok, index))
        × (add_peer state' mac out' ≡ (ok, state', index)))
      ⊎ ((rc ≡ no_space)
          × (state' ≡ state)
          × (index ≡ out)
          × ((find_peer state mac out').0 ≡ not_found)
          × (count is_free_peer state.peers ≡ 0))
find_peer-add_peer state mac out out' = elim (Option-cases (find_index (is_peer mac) state.peers)) [
  | inr (i, there) ↦
      rw
        (
          add_peer_there state mac out i there,
          find_peer_there state mac out' i there,
          add_peer_there state mac out' i there,
        )
        (inl (refl, refl, refl))
  | inl away ↦ elim (Option-cases (find_index is_free_peer state.peers)) [
    | inr (i, free) ↦
        let put = put_peer state i (new_peer mac) in
        let there =
          find_index-set_first (is_peer mac) state.peers i (new_peer mac) away
            (find_index-some is_free_peer state.peers i zero_peer free).0 (mac_equal_refl mac) in
        rw
          (
            add_peer_away state mac out away,
            add_new_peer_free state mac out i free,
            find_peer_there put mac out' i there,
            add_peer_there put mac out' i there,
          )
          (inl (refl, refl, refl))
    | inl full ↦
        rw
          (
            add_peer_away state mac out away,
            add_new_peer_full state mac out full,
            find_peer_away state mac out' away,
          )
          (inr (refl, refl, refl, refl, count_of_none is_free_peer state.peers full))
  ]
]
