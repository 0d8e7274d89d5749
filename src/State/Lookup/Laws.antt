-- ===== src/State/Lookup/Laws.antt =====
-- How writing a channel and searching for one meet: an operation that finds its channel, changes it
-- and finds it again is one change of that channel.
use relinow.Prelude.{
  ℕ, suc, ◌<◌, ◌≡◌, refl, List, [], ◌∷◌, some, Bool, true, false, arith, leb, length, get_or, set,
  get_or-set_self, set-set, find_index, find_index-some,
}
use relinow.State.Types.{Channel, Peer, State, max_peers, zero_peer, zero_channel}
use relinow.State.Lookup.{peer_at, channel_at, put_channel, is_channel, find_channel_mut}

-- An entry that the default is unlike lies inside the array.
pub inside {ℓ} :
    {A : Type ℓ} (f : A → Bool) (xs : List A) (i : ℕ) (d : A)
    → f d ≡ false
    → f (get_or xs i d) ≡ true
    → i < length xs
inside f [] i d h k = absurd (ground arith)
inside f (x ∷ xs) ℕ.zero d h k = omega arith
inside f (x ∷ xs) (suc i) d h k = omega (arith, inside f xs i d h k)

find_index-set {ℓ} :
    {A : Type ℓ} (f : A → Bool) (xs : List A) (i : ℕ) (v : A)
    → find_index f xs ≡ some i
    → f v ≡ true
    → find_index f (set xs i v) ≡ some i
unfolding find_index
find_index-set f [] i v h k = absurd (ground arith)
find_index-set f (x ∷ xs) ℕ.zero v h k = ground arith
find_index-set f (x ∷ xs) (suc i) v h k = ground (arith, find_index-set f xs i v)

-- The channel `channel_id` of the peer stands at index `i`.
pub record IsFound (state : State) (peer_index channel_id i : ℕ) : Type 0 where
  pub peer_small : leb max_peers peer_index ≡ false
  pub peer_used : (peer_at state peer_index).in_use ≡ true
  pub first : find_index (is_channel channel_id) (peer_at state peer_index).channels ≡ some i

pub find_channel_mut-IsFound :
    (state : State) (peer_index channel_id i : ℕ)
    → find_channel_mut state peer_index channel_id ≡ some i
    → IsFound state peer_index channel_id i
unfolding find_channel_mut
find_channel_mut-IsFound state peer_index channel_id i h = record {
  peer_small = ground arith;
  peer_used = ground arith;
  first = ground arith;
}

pub IsFound-find_channel_mut :
    (state : State) (peer_index channel_id i : ℕ)
    → IsFound state peer_index channel_id i
    → find_channel_mut state peer_index channel_id ≡ some i
unfolding find_channel_mut
IsFound-find_channel_mut state peer_index channel_id i v = rw (v.peer_small, v.peer_used) v.first

module _ (state : State) (peer_index channel_id i : ℕ)
    (found : find_channel_mut state peer_index channel_id ≡ some i) where
  pub IsFound-at : IsFound state peer_index channel_id i
  IsFound-at = find_channel_mut-IsFound state peer_index channel_id i found

  peer_inside : peer_index < length state.peers
  peer_inside =
      inside (λ (peer : Peer). peer.in_use) state.peers peer_index zero_peer refl
        IsFound-at.peer_used

  pub channel_matches :
      (i < length (peer_at state peer_index).channels)
      × (is_channel channel_id (channel_at state peer_index i) ≡ true)
  channel_matches =
      find_index-some (is_channel channel_id) (peer_at state peer_index).channels i zero_channel
        IsFound-at.first

  pub peer_at-put_channel :
      (v : Channel)
      → peer_at (put_channel state peer_index i v) peer_index ≡ record (peer_at state peer_index) {
        channels = set (peer_at state peer_index).channels i v;
      }
  unfolding put_channel
  peer_at-put_channel v = get_or-set_self state.peers peer_index _ zero_peer peer_inside

  -- The written channel is read back,
  pub channel_at-put_channel :
      (v : Channel) → channel_at (put_channel state peer_index i v) peer_index i ≡ v
  channel_at-put_channel v =
      rw (peer_at-put_channel v)
        (get_or-set_self (peer_at state peer_index).channels i v zero_channel channel_matches.0)

  -- a later write replaces it,
  pub put_channel-put_channel :
      (v w : Channel)
      → put_channel (put_channel state peer_index i v) peer_index i w
        ≡ put_channel state peer_index i w
  unfolding put_channel
  put_channel-put_channel v w =
      rw
        (
          get_or-set_self state.peers peer_index
              (record (peer_at state peer_index) {
                channels = set (peer_at state peer_index).channels i v;
              })
              zero_peer peer_inside,
          set-set state.peers peer_index,
          set-set (peer_at state peer_index).channels i v w,
        )
        refl

  -- and as long as it keeps its number and its use, it is found at the same place.
  pub find_channel_mut-put_channel :
      (v : Channel)
      → is_channel channel_id v ≡ true
      → find_channel_mut (put_channel state peer_index i v) peer_index channel_id ≡ some i
  find_channel_mut-put_channel v ok =
      IsFound-find_channel_mut (put_channel state peer_index i v) peer_index channel_id i (record {
        peer_small = IsFound-at.peer_small;
        peer_used = rw (peer_at-put_channel v) IsFound-at.peer_used;
        first = rw (peer_at-put_channel v) (
            find_index-set (is_channel channel_id) (peer_at state peer_index).channels i v
              IsFound-at.first ok);
      })
