-- ===== src/Node/Caches.antt =====
-- The frame caches and the small helpers of relinow_espnow.c.
use relinow.Prelude.{
  ℕ, List, [], ◌∷◌, ◌++◌, Option, none, some, Bool, true, false, not, ◌&&◌, ◌==◌, ltb, leb,
  if◌then◌else◌, length, get_or, set, take, drop, find_index, count,
}
use relinow.Reliable.{max_pending}
use relinow.Reliable
use relinow.State.Types.{Channel, max_peers}
use relinow.State.Lookup.{peer_at, is_channel}
use relinow.Node.Types.{Node, Cached, zero_cached}

-- The tests of the search loops.
abbrev pub is_cached : ℕ → Cached → Bool
is_cached seq_id slot = slot.in_use && slot.seq_id == seq_id

abbrev pub is_free_cached : Cached → Bool
is_free_cached slot = not slot.in_use

-- `relinow_tx_cache_find`: the slot's index, or the null pointer.
unfoldable pub tx_cache_find : Node → ℕ → Option ℕ
tx_cache_find node seq_id = find_index (is_cached seq_id) node.tx_cache

-- `relinow_tx_cache_alloc`
unfoldable pub tx_cache_alloc : Node → Option ℕ
tx_cache_alloc node = find_index is_free_cached node.tx_cache

-- `slot->in_use = 0u`
abbrev pub release : List Cached → ℕ → List Cached
release cache i = set cache i (record (get_or cache i zero_cached) { in_use = false })

-- `relinow_tx_cache_remove`
unfoldable pub tx_cache_remove : Node → ℕ → Node
unfolding tx_cache_find
tx_cache_remove node seq_id = elim (tx_cache_find node seq_id) [
  | none ↦ node
  | some i ↦ record node { tx_cache = release node.tx_cache i }
]

-- `relinow_rx_cache_find`
unfoldable pub rx_cache_find : Node → ℕ → Option ℕ
rx_cache_find node seq_id = find_index (is_cached seq_id) node.rx_cache

-- `relinow_rx_cache_alloc`
unfoldable pub rx_cache_alloc : Node → Option ℕ
rx_cache_alloc node = find_index is_free_cached node.rx_cache

-- `relinow_rx_cache_remove`
unfoldable pub rx_cache_remove : Node → ℕ → Node
unfolding rx_cache_find
rx_cache_remove node seq_id = elim (rx_cache_find node seq_id) [
  | none ↦ node
  | some i ↦ record node { rx_cache = release node.rx_cache i }
]

-- `relinow_find_channel_state`: the channel's index, or the null pointer.
unfoldable pub find_channel_state : Node → ℕ → Option ℕ
find_channel_state node channel_id =
    if leb max_peers node.peer_index
    then none
    else if not (peer_at node.state node.peer_index).in_use
    then none
    else find_index (is_channel channel_id) (peer_at node.state node.peer_index).channels

-- `relinow_count_free_pending`
unfoldable pub count_free_pending : Channel → ℕ
count_free_pending channel = count Reliable.is_free_pending channel.reliable.pending

-- `relinow_count_free_tx_cache`
unfoldable pub count_free_tx_cache : Node → ℕ
count_free_tx_cache node = count is_free_cached node.tx_cache

-- `relinow_fragment_tx_track`
unfoldable pub fragment_tx_track : Node → ℕ → Node
fragment_tx_track node seq_id =
    if ltb (length node.fragmented_tx_seq) max_pending
    then record node {
      fragmented_tx_seq = node.fragmented_tx_seq ++ (seq_id ∷ []);
      fragmented_tx_active = true;
    }
    else node

-- The entries of an array with the one at an index shifted out.
abbrev pub shift_out : List ℕ → ℕ → List ℕ
shift_out seqs i = take i seqs ++ drop (ℕ.suc i) seqs

-- `relinow_fragment_tx_on_ack`
unfoldable pub fragment_tx_on_ack : Node → ℕ → Node
fragment_tx_on_ack node ack_id =
    if not node.fragmented_tx_active
    then node
    else elim (find_index (λ seq_id. seq_id == ack_id) node.fragmented_tx_seq) [
      | none ↦ node
      | some i ↦
          let left = shift_out node.fragmented_tx_seq i in
          record node {
            fragmented_tx_seq = left;
            fragmented_tx_active = if length left == 0 then false else node.fragmented_tx_active;
          }
    ]

-- `relinow_reassembly_reset`
unfoldable pub reassembly_reset : Node → Node
reassembly_reset node = record node {
  reassembly_active = false;
  reassembly_first_seq = 0;
  reassembly_buf = [];
  reassembly_start_ms = 0;
}
