-- ===== src/State/Scheduler/Numbers.antt =====
-- Opening a channel keeps what the scheduler relies on: each RELIABLE channel of a peer is the one
-- that its number names.
use relinow.Prelude.{
  ℕ, suc, ◌<◌, ◌≡◌, ◌≢◌, refl, sym, ◌∙◌, subst, inl, inr, List, [], ◌∷◌, none, some, Bool, true,
  false, not, ◌||◌, ◌==◌, ==_iff, leb, arith, length, get_or, get_or-set_self, get_or-set_ne, set,
  find_index, find_index-some, find_index-none, Bool-cases, Option-cases,
}
use relinow.Packet.{heartbeat_channel}
use relinow.State.Types.{Channel, Peer, State, max_peers, zero_channel, zero_peer}
use relinow.State.Lookup.{peer_at, channel_at, put_channel, is_channel}
use relinow.State.Lookup.Laws.{find_channel_mut-IsFound, IsFound-find_channel_mut, inside}
use relinow.State.Peers.{
  mode_supported, is_free_channel, new_channel, open_new_channel, open_channel,
}
use relinow.State.Peers.RoundTrip.{find_index-set_first}
use relinow.State.Scheduler.{is_polled}
use relinow.State.Scheduler.Rounds.{HasNumbers}

-- Writing an entry that a test treats like the one before changes no search by it.
find_index-set_same {ℓ} :
    {A : Type ℓ} (f : A → Bool) (xs : List A) (i : ℕ) (v d : A)
    → f v ≡ f (get_or xs i d)
    → find_index f (set xs i v) ≡ find_index f xs
unfolding find_index
find_index-set_same f [] i v d h = refl
find_index-set_same f (x ∷ xs) ℕ.zero v d h = rw h refl
find_index-set_same f (x ∷ xs) (suc i) v d h = rw (find_index-set_same f xs i v d h) refl

-- The same on the list of a peer's channels.
abbrev Numbered : List Channel → Type 0
Numbered channels =
    (j : ℕ)
    → is_polled (get_or channels j zero_channel) ≡ true
    → find_index (is_channel (get_or channels j zero_channel).channel_id) channels ≡ some j

-- A change that keeps a channel's number keeps the names of all.
updated-Numbered :
    (channels : List Channel) (i : ℕ) (v : Channel)
    → i < length channels
    → is_polled v ≡ is_polled (get_or channels i zero_channel)
    → ((c : ℕ) → is_channel c v ≡ is_channel c (get_or channels i zero_channel))
    → v.channel_id ≡ (get_or channels i zero_channel).channel_id
    → Numbered channels
    → Numbered (set channels i v)
updated-Numbered channels i v small same tests id n j = elim (Bool-cases (i == j)) [
  | inl here ↦
      let at_i = get_or-set_self channels i v zero_channel small in
      subst
        (λ j.
          is_polled (get_or (set channels i v) j zero_channel) ≡ true
          → find_index (is_channel (get_or (set channels i v) j zero_channel).channel_id)
              (set channels i v)
            ≡ some j)
        ((==_iff i j).0 here)
        (rw at_i (λ polled.
          find_index-set_same (is_channel v.channel_id) channels i v zero_channel
            (tests v.channel_id)
          ∙ subst (λ c. find_index (is_channel c) channels ≡ some i) (sym id)
              (n i (sym same ∙ polled))))
  | inr other ↦
      let apart : i ≢ j = ground arith in
      rw (get_or-set_ne channels i j v zero_channel apart) (λ polled.
        let c = (get_or channels j zero_channel).channel_id in
        find_index-set_same (is_channel c) channels i v zero_channel (tests c) ∙ n j polled)
]

-- A channel under a new number in a free place keeps the names of all.
added-Numbered :
    (channels : List Channel) (i : ℕ) (v : Channel)
    → i < length channels
    → (get_or channels i zero_channel).in_use ≡ false
    → find_index (is_channel v.channel_id) channels ≡ none
    → is_channel v.channel_id v ≡ true
    → Numbered channels
    → Numbered (set channels i v)
added-Numbered channels i v small free absent matches n j = elim (Bool-cases (i == j)) [
  | inl here ↦
      let at_i = get_or-set_self channels i v zero_channel small in
      subst
        (λ j.
          is_polled (get_or (set channels i v) j zero_channel) ≡ true
          → find_index (is_channel (get_or (set channels i v) j zero_channel).channel_id)
              (set channels i v)
            ≡ some j)
        ((==_iff i j).0 here)
        (rw at_i (λ polled.
          find_index-set_first (is_channel v.channel_id) channels i v absent small matches))
  | inr other ↦
      let apart : i ≢ j = ground arith in
      rw (get_or-set_ne channels i j v zero_channel apart) (λ polled.
        let c = (get_or channels j zero_channel).channel_id in
        let there = n j polled in
        let (within, is_c) = find_index-some (is_channel c) channels j zero_channel there in
        let not_new =
          find_index-none (is_channel v.channel_id) channels j zero_channel absent within in
        let differ : is_channel c v ≡ is_channel c (get_or channels i zero_channel) =
          ground arith in
        find_index-set_same (is_channel c) channels i v zero_channel differ ∙ there)
]

HasNumbers-Numbered :
    (state : State) (p : ℕ) → HasNumbers state p → Numbered (peer_at state p).channels
HasNumbers-Numbered state p n j polled =
    (find_channel_mut-IsFound state p (channel_at state p j).channel_id j (n j polled)).first

module _ (state : State) (p : ℕ) (small : leb max_peers p ≡ false)
    (used : (peer_at state p).in_use ≡ true) where
  -- The table after a channel has been written.
  written-HasNumbers :
      (i : ℕ) (v : Channel)
      → Numbered (set (peer_at state p).channels i v)
      → HasNumbers (put_channel state p i v) p
  unfolding put_channel
  written-HasNumbers i v n =
      let new : Peer = record (peer_at state p) { channels = set (peer_at state p).channels i v } in
      let there : peer_at (put_channel state p i v) p ≡ new =
        get_or-set_self state.peers p new zero_peer
          (inside (λ (peer : Peer). peer.in_use) state.peers p zero_peer refl used) in
      λ j. rw there (λ polled.
        IsFound-find_channel_mut (put_channel state p i v) p
          (get_or (set (peer_at state p).channels i v) j zero_channel).channel_id j
          (record { peer_small = small; peer_used = rw there used; first = rw there (n j polled) }))

  opened_new-HasNumbers :
      (id mode priority : ℕ)
      → find_index (is_channel id) (peer_at state p).channels ≡ none
      → HasNumbers state p
      → HasNumbers (open_new_channel state p id mode priority).1 p
  unfolding open_new_channel new_channel
  opened_new-HasNumbers id mode priority absent n =
      elim (Option-cases (find_index is_free_channel (peer_at state p).channels)) [
        | inl full ↦ rw (open_new_channel, full) n
        | inr (i, free) ↦
            let (room, is_free) =
              find_index-some is_free_channel (peer_at state p).channels i zero_channel free in
            let named : (new_channel id mode priority).channel_id ≡ id = ground arith in
            let new = new_channel id mode priority in
            let matches : is_channel new.channel_id new ≡ true = ground arith in
            rw (open_new_channel, free)
              (written-HasNumbers i (new_channel id mode priority) (
                added-Numbered (peer_at state p).channels i (new_channel id mode priority) room
                  (ground arith) (rw named absent) matches (HasNumbers-Numbered state p n)))
      ]

  reopened-HasNumbers :
      (id priority i : ℕ)
      → find_index (is_channel id) (peer_at state p).channels ≡ some i
      → HasNumbers state p
      → HasNumbers (put_channel state p i (record (channel_at state p i) { priority = priority })) p
  reopened-HasNumbers id priority i first n =
      written-HasNumbers i (record (channel_at state p i) { priority = priority })
        (updated-Numbered (peer_at state p).channels i
          (record (channel_at state p i) { priority = priority })
          (find_index-some (is_channel id) (peer_at state p).channels i zero_channel first).0 refl
          (λ c. refl) refl (HasNumbers-Numbered state p n))

-- Whatever channel is opened, and with whatever result, each RELIABLE channel of the peer is still
-- the one that its number names.
pub open_channel-HasNumbers :
    (state : State) (p id mode priority : ℕ)
    → HasNumbers state p
    → HasNumbers (open_channel state p id mode priority).1 p
unfolding open_channel
open_channel-HasNumbers state p id mode priority n =
    elim (Bool-cases (leb max_peers p || not (mode_supported mode))) [
      | inl bad ↦ rw (open_channel, bad) n
      | inr fine ↦ elim (Bool-cases (id == heartbeat_channel)) [
        | inl reserved ↦ rw (open_channel, fine, reserved) n
        | inr other ↦ elim (Bool-cases (peer_at state p).in_use) [
          | inr absent ↦ rw (open_channel, fine, other, absent) n
          | inl used ↦
              let small : leb max_peers p ≡ false = ground arith in
              elim (Option-cases (find_index (is_channel id) (peer_at state p).channels)) [
                | inl away ↦
                    rw (open_channel, fine, other, used, away)
                      (opened_new-HasNumbers state p small used id mode priority away n)
                | inr (i, first) ↦ elim (Bool-cases ((channel_at state p i).mode == mode)) [
                  | inl same ↦
                      rw (open_channel, fine, other, used, first, same)
                        (reopened-HasNumbers state p small used id priority i first n)
                  | inr clash ↦ rw (open_channel, fine, other, used, first, clash) n
                ]
              ]
        ]
      ]
    ]
