-- ===== src/State/Lookup.antt =====
-- Reading and writing the tables of relinow_state.c through indices in place of pointers, and the
-- search for an open channel.
pub mod Laws
use relinow.Prelude.{
  ℕ, Option, none, some, Bool, not, ◌&&◌, ◌==◌, leb, if◌then◌else◌, get_or, set, find_index,
}
use relinow.State.Types.{
  StateErr, ok, invalid_arg, not_found, Channel, Peer, State, Stats, max_peers, zero_peer,
  zero_channel,
}

-- `&state->peers[peer_index]`, read.
abbrev pub peer_at : State → ℕ → Peer
peer_at state peer_index = get_or state.peers peer_index zero_peer

-- `&peer->channels[i]`, read.
abbrev pub channel_at : State → ℕ → ℕ → Channel
channel_at state peer_index i = get_or (peer_at state peer_index).channels i zero_channel

-- The same, written.
abbrev pub put_peer : State → ℕ → Peer → State
put_peer state peer_index peer = record state { peers = set state.peers peer_index peer }

unfoldable pub put_channel : State → ℕ → ℕ → Channel → State
put_channel state peer_index i channel =
    let peer = peer_at state peer_index in
    put_peer state peer_index (record peer { channels = set peer.channels i channel })

-- The test of the search loops over channels.
abbrev pub is_channel : ℕ → Channel → Bool
is_channel channel_id channel = channel.in_use && channel.channel_id == channel_id

-- `relinow_find_channel_mut`: the channel's index, or the null pointer.
unfoldable pub find_channel_mut : State → ℕ → ℕ → Option ℕ
find_channel_mut state peer_index channel_id =
    if leb max_peers peer_index
    then none
    else if not (peer_at state peer_index).in_use
    then none
    else find_index (is_channel channel_id) (peer_at state peer_index).channels

-- `relinow_state_get_channel_mode`; the last argument and the last result are `*out_mode`.
unfoldable pub get_channel_mode : State → ℕ → ℕ → ℕ → StateErr × ℕ
get_channel_mode state peer_index channel_id out_mode =
    if leb max_peers peer_index
    then (invalid_arg, out_mode)
    else if not (peer_at state peer_index).in_use
    then (not_found, out_mode)
    else elim (find_index (is_channel channel_id) (peer_at state peer_index).channels) [
      | none ↦ (not_found, out_mode)
      | some i ↦ (ok, (channel_at state peer_index i).mode)
    ]

-- `relinow_state_get_stats`
unfoldable pub get_stats : State → ℕ → ℕ → Stats → StateErr × Stats
get_stats state peer_index channel_id out_stats =
    if leb max_peers peer_index
    then (invalid_arg, out_stats)
    else if not (peer_at state peer_index).in_use
    then (not_found, out_stats)
    else elim (find_index (is_channel channel_id) (peer_at state peer_index).channels) [
      | none ↦ (not_found, out_stats)
      | some i ↦ (ok, (channel_at state peer_index i).stats)
    ]
