-- ===== src/State/Peers/Opening.antt =====
-- Opening a channel, and finding it again in its mode.
use relinow.Prelude.{
  ℕ, ◌≡◌, refl, ap, ◌∙◌, inl, inr, none, some, true, false, not, ◌||◌, ◌==◌, ==_iff, leb, arith,
  set, get_or-set_self, find_index, find_index-some, Bool-cases, Option-cases,
}
use relinow.Packet.{heartbeat_channel}
use relinow.State.Types.{StateErr, ok, Channel, Peer, State, max_peers, zero_peer, zero_channel}
use relinow.State.Lookup.{peer_at, channel_at, put_channel, is_channel, get_channel_mode}
use relinow.State.Lookup.Laws.{
  IsFound, find_channel_mut-IsFound, IsFound-find_channel_mut, inside, channel_matches,
  channel_at-put_channel, find_channel_mut-put_channel,
}
use relinow.State.Peers.{
  mode_supported, is_free_channel, new_channel, open_new_channel, open_channel,
}
use relinow.State.Peers.RoundTrip.{find_index-set_first}

pub get_channel_mode_found :
    (state : State) (p id i out : ℕ)
    → IsFound state p id i
    → get_channel_mode state p id out ≡ (ok, (channel_at state p i).mode)
unfolding get_channel_mode
get_channel_mode_found state p id i out v =
    rw (v.peer_small, get_channel_mode, v.peer_used, v.first) refl

new_channel_matches :
    (id mode priority : ℕ)
    → (is_channel id (new_channel id mode priority) ≡ true)
      × ((new_channel id mode priority).mode ≡ mode)
unfolding new_channel
new_channel_matches id mode priority = ground arith

-- A call that, if it succeeds, leaves the channel open in the mode.
abbrev Opens : ℕ → ℕ → ℕ → ℕ → StateErr × State → Type 0
Opens p id mode out r = r.0 ≡ ok → get_channel_mode r.1 p id out ≡ (ok, mode)

module _ (state : State) (p id mode priority out : ℕ) (small : leb max_peers p ≡ false)
    (used : (peer_at state p).in_use ≡ true) where
  reopened :
      (i : ℕ)
      → find_index (is_channel id) (peer_at state p).channels ≡ some i
      → (channel_at state p i).mode ≡ mode
      → get_channel_mode
          (put_channel state p i (record (channel_at state p i) { priority = priority }))
          p
          id
          out
        ≡ (ok, mode)
  reopened i first same =
      let v = record (channel_at state p i) { priority = priority } in
      let found =
        IsFound-find_channel_mut state p id i
          (record { peer_small = small; peer_used = used; first = first }) in
      let again =
        find_channel_mut-put_channel state p id i found v (channel_matches state p id i found).1 in
      get_channel_mode_found (put_channel state p i v) p id i out
        (find_channel_mut-IsFound (put_channel state p i v) p id i again)
      ∙ ap (λ (m : ℕ). (ok, m))
          (ap (λ (c : Channel). c.mode) (channel_at-put_channel state p id i found v) ∙ same)

  opened_new :
      find_index (is_channel id) (peer_at state p).channels ≡ none
      → Opens p id mode out (open_new_channel state p id mode priority)
  unfolding open_new_channel put_channel
  opened_new away = elim (Option-cases (find_index is_free_channel (peer_at state p).channels)) [
    | inl full ↦ rw (open_new_channel, full) (λ e. absurd (ground arith))
    | inr (i, free) ↦
        let v = new_channel id mode priority in
        let (matches, in_mode) = new_channel_matches id mode priority in
        let room =
          (find_index-some is_free_channel (peer_at state p).channels i zero_channel free).0 in
        let written : Peer = record (peer_at state p) {
          channels = set (peer_at state p).channels i v;
        } in
        let there : peer_at (put_channel state p i v) p ≡ written =
          get_or-set_self state.peers p written zero_peer
            (inside (λ (peer : Peer). peer.in_use) state.peers p zero_peer refl used) in
        let found : IsFound (put_channel state p i v) p id i = record {
          peer_small = small;
          peer_used = rw there used;
          first = rw there (
              find_index-set_first (is_channel id) (peer_at state p).channels i v away room
                matches);
        } in
        rw (open_new_channel, free)
          (λ e.
            get_channel_mode_found (put_channel state p i v) p id i out found
            ∙ ap (λ (m : ℕ). (ok, m))
                (rw there (
                  ap (λ (c : Channel). c.mode)
                    (get_or-set_self (peer_at state p).channels i v zero_channel room)
                  ∙ in_mode)))
  ]

-- A channel that `relinow_state_open_channel` opens, new or not, is open afterwards: where the call
-- succeeds, `relinow_state_get_channel_mode` finds the channel with the mode that was asked for.
pub get_channel_mode-open_channel :
    (state : State) (peer_index channel_id mode priority out_mode : ℕ)
    → (open_channel state peer_index channel_id mode priority).0 ≡ ok
    → get_channel_mode
        (open_channel state peer_index channel_id mode priority).1
        peer_index
        channel_id
        out_mode
      ≡ (ok, mode)
unfolding open_channel
get_channel_mode-open_channel state p id mode priority out =
    elim (Bool-cases (leb max_peers p || not (mode_supported mode))) [
      | inl bad ↦ rw (open_channel, bad) (λ e. absurd (ground arith))
      | inr fine ↦ elim (Bool-cases (id == heartbeat_channel)) [
        | inl reserved ↦ rw (open_channel, fine, reserved) (λ e. absurd (ground arith))
        | inr other ↦ elim (Bool-cases (peer_at state p).in_use) [
          | inr absent ↦ rw (open_channel, fine, other, absent) (λ e. absurd (ground arith))
          | inl used ↦
              let small : leb max_peers p ≡ false = ground arith in
              elim (Option-cases (find_index (is_channel id) (peer_at state p).channels)) [
                | inl away ↦
                    rw (open_channel, fine, other, used, away)
                      (opened_new state p id mode priority out small used away)
                | inr (i, first) ↦ elim (Bool-cases ((channel_at state p i).mode == mode)) [
                  | inr conflicting ↦
                      rw (open_channel, fine, other, used, first, conflicting)
                        (λ e. absurd (ground arith))
                  | inl same ↦
                      rw (open_channel, fine, other, used, first, same)
                        (λ e.
                          reopened state p id mode priority out small used i first
                            ((==_iff (channel_at state p i).mode mode).0 same))
                ]
              ]
        ]
      ]
    ]
