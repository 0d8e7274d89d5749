-- ===== src/State/Peers.antt =====
-- Peers and the opening of channels: `relinow_state_find_peer`, `relinow_state_add_peer` and
-- `relinow_state_open_channel`.
pub mod RoundTrip
pub mod Opening
use relinow.Prelude.{
  ℕ, List, [], ◌∷◌, Option, none, some, Bool, true, false, not, ◌&&◌, ◌||◌, ◌==◌, leb,
  if◌then◌else◌, get_or, set, find_index,
}
use relinow.Packet.{heartbeat_channel, mode_reliable, mode_unreliable, mode_priority}
use relinow.Reliable
use relinow.State.Types.{
  StateErr, ok, invalid_arg, not_found, no_space, conflict, Channel, Peer, State, max_peers,
  zero_peer, zero_channel,
}
use relinow.State.Lookup.{peer_at, channel_at, put_peer, put_channel, is_channel}

-- `relinow_mac_equal`, on two addresses of six bytes.
unfoldable pub mac_equal : List ℕ → List ℕ → Bool
mac_equal [] [] = true
mac_equal (x ∷ a) (y ∷ b) = if not (x == y) then false else mac_equal a b
mac_equal _ _ = false

-- `relinow_mode_supported`
unfoldable pub mode_supported : ℕ → Bool
mode_supported mode = mode == mode_reliable || mode == mode_unreliable || mode == mode_priority

-- The test of the search loop of `relinow_state_find_peer`.
abbrev pub is_peer : List ℕ → Peer → Bool
is_peer mac peer = peer.in_use && mac_equal peer.mac mac

abbrev pub is_free_peer : Peer → Bool
is_free_peer peer = not peer.in_use

abbrev pub is_free_channel : Channel → Bool
is_free_channel channel = not channel.in_use

-- `relinow_state_find_peer`; the last argument and the last result are `*out_peer_index`.
unfoldable pub find_peer : State → List ℕ → ℕ → StateErr × ℕ
find_peer state mac out_peer_index = elim (find_index (is_peer mac) state.peers) [
  | none ↦ (not_found, out_peer_index)
  | some i ↦ (ok, i)
]

-- The peer that `relinow_state_add_peer` sets up.
abbrev pub new_peer : List ℕ → Peer
new_peer mac = record zero_peer { in_use = true; mac = mac }

-- The second half of `relinow_state_add_peer`, for an address that is not there.
unfoldable pub add_new_peer : State → List ℕ → ℕ → StateErr × State × ℕ
add_new_peer state mac out_peer_index = elim (find_index is_free_peer state.peers) [
  | none ↦ (no_space, state, out_peer_index)
  | some i ↦ (ok, put_peer state i (new_peer mac), i)
]

-- `relinow_state_add_peer`; `existing_idx` is not read where the search fails.
unfoldable pub add_peer : State → List ℕ → ℕ → StateErr × State × ℕ
unfolding find_peer add_new_peer
add_peer state mac out_peer_index =
    let (existing_rc, existing_idx) = find_peer state mac out_peer_index in
    elim existing_rc [ ok ↦ (ok, state, existing_idx) | _ ↦ add_new_peer state mac out_peer_index ]

-- The channel that `relinow_state_open_channel` sets up.
unfoldable pub new_channel : ℕ → ℕ → ℕ → Channel
new_channel channel_id mode priority =
    let channel = record zero_channel {
      in_use = true;
      channel_id = channel_id;
      mode = mode;
      priority = priority;
    } in
    if mode == mode_reliable then record channel { reliable = Reliable.init none } else channel

-- The second half of `relinow_state_open_channel`, for a channel that is not open.
unfoldable pub open_new_channel : State → ℕ → ℕ → ℕ → ℕ → StateErr × State
open_new_channel state peer_index channel_id mode priority =
    elim (find_index is_free_channel (peer_at state peer_index).channels) [
      | none ↦ (no_space, state)
      | some i ↦ (ok, put_channel state peer_index i (new_channel channel_id mode priority))
    ]

-- `relinow_state_open_channel`
unfoldable pub open_channel : State → ℕ → ℕ → ℕ → ℕ → StateErr × State
open_channel state peer_index channel_id mode priority =
    if leb max_peers peer_index || not (mode_supported mode)
    then (invalid_arg, state)
    else if channel_id == heartbeat_channel
    then (invalid_arg, state)
    else if not (peer_at state peer_index).in_use
    then (not_found, state)
    else elim (find_index (is_channel channel_id) (peer_at state peer_index).channels) [
      | none ↦ open_new_channel state peer_index channel_id mode priority
      | some i ↦
          let channel = channel_at state peer_index i in
          if not (channel.mode == mode)
          then (conflict, state)
          else (ok, put_channel state peer_index i (record channel { priority = priority }))
    ]
