-- ===== src/Node/EndToEnd/Taking.antt =====
-- A node takes in a DATA frame that is due on a RELIABLE channel.
use relinow.Prelude.{
  ℕ, ◌≡◌, refl, ap, ◌∙◌, inl, inr, List, [], ◌∷◌, ◌++◌, none, some, true, false, ==_iff, arith, set,
  set-set, get_or, get_or-set_self, take, find_index, find_index-some, find_index_of_count,
  count-set, count_of_none, Bool-cases,
}
use relinow.Packet.{Header, has_flag, flag_fragment}
use relinow.State.Peers.RoundTrip.{find_index-set_first}
use relinow.Node.Types.{message, Node, World, Cached, zero_cached}
use relinow.Node.Caches.{
  is_cached, is_free_cached, release, reassembly_reset, rx_cache_find, rx_cache_remove,
}
use relinow.Node.Receiving.{deliver_whole, deliver_one}

-- A free slot that is taken and released again holds no number that was not there before.
pub find_index-released :
    (cache : List Cached) (s q : ℕ) (slot : Cached)
    → find_index (is_cached q) cache ≡ none
    → find_index is_free_cached cache ≡ some s
    → find_index (is_cached q) (release (set cache s slot) s) ≡ none
find_index-released cache s q slot absent free =
    let (inside, unused) = find_index-some is_free_cached cache s zero_cached free in
    let gone : Cached = record (get_or (set cache s slot) s zero_cached) { in_use = false } in
    rw (set-set cache s slot gone) (
      find_index_of_count (is_cached q) (set cache s gone) (
        ground (
          arith,
          count_of_none (is_cached q) cache absent,
          count-set (is_cached q) cache s gone zero_cached inside,
        )))

-- What the receive cache holds of the frame.
abbrev pub received_slot : Header → List ℕ → Cached
received_slot h payload = record {
  in_use = true;
  seq_id = h.seq_id;
  flags = h.flags;
  payload_len = h.payload_len;
  payload = take h.payload_len payload;
}

deliver_whole_lem :
    (w : World) (src_mac : List ℕ) (channel_id : ℕ) (slot : Cached)
    → w.node.on_message ≡ true
    → let w' = deliver_whole w src_mac channel_id slot in
      (w'.log ≡ w.log ++ (message src_mac channel_id slot.seq_id slot.payload ∷ []))
      × (w'.node.state ≡ w.node.state)
      × (w'.node.peer_index ≡ w.node.peer_index)
      × (w'.node.rx_cache ≡ w.node.rx_cache)
unfolding deliver_whole reassembly_reset
deliver_whole_lem w src_mac channel_id slot told = elim (Bool-cases w.node.reassembly_active) [
  | inl active ↦ rw (active, deliver_whole, told) (refl, refl, refl, refl)
  | inr closed ↦ rw (closed, deliver_whole, told) (refl, refl, refl, refl)
]

rx_cache_remove_lem :
    (node : Node) (cache : List Cached) (s q : ℕ) (slot : Cached)
    → node.rx_cache ≡ set cache s slot
    → find_index (is_cached q) (set cache s slot) ≡ some s
    → let node' = rx_cache_remove node q in
      (node'.rx_cache ≡ release (set cache s slot) s)
      × (node'.state ≡ node.state)
      × (node'.peer_index ≡ node.peer_index)
unfolding rx_cache_remove rx_cache_find
rx_cache_remove_lem node cache s q slot same there =
    rw (same, rx_cache_remove, there) (ap (λ (xs : List Cached). release xs s) same, refl, refl)

-- A whole message in the cache is handed over, and leaves the cache.
pub record IsHandedOver (w : World) (src_mac : List ℕ) (channel_id q : ℕ) (payload : List ℕ)
    (w' : World) : Type 0 where
  pub log : w'.log ≡ w.log ++ (message src_mac channel_id q payload ∷ [])
  pub state : w'.node.state ≡ w.node.state
  pub peer_index : w'.node.peer_index ≡ w.node.peer_index
  pub gone : rx_cache_find w'.node q ≡ none

module _ (w : World) (src_mac : List ℕ) (channel_id now_ms : ℕ) (cache : List Cached) (s : ℕ)
    (slot : Cached) (absent : find_index (is_cached slot.seq_id) cache ≡ none)
    (free : find_index is_free_cached cache ≡ some s) (used : slot.in_use ≡ true)
    (whole : slot.flags ≡ 0) (holds : w.node.rx_cache ≡ set cache s slot)
    (told : w.node.on_message ≡ true) where
  cached_there : find_index (is_cached slot.seq_id) (set cache s slot) ≡ some s
  cached_there =
      find_index-set_first (is_cached slot.seq_id) cache s slot absent
        (find_index-some is_free_cached cache s zero_cached free).0
        (rw (used) ((==_iff slot.seq_id slot.seq_id).1 refl))

  pub deliver_one-IsHandedOver :
      IsHandedOver w src_mac channel_id slot.seq_id slot.payload
        (deliver_one w src_mac channel_id now_ms slot.seq_id)
  unfolding deliver_one rx_cache_find has_flag
  deliver_one-IsHandedOver =
      let there : find_index (is_cached slot.seq_id) w.node.rx_cache ≡ some s =
        rw holds cached_there in
      let read : get_or w.node.rx_cache s zero_cached ≡ slot = rw holds (
        get_or-set_self cache s slot zero_cached
          (find_index-some is_free_cached cache s zero_cached free).0) in
      let whole_frame : has_flag slot.flags flag_fragment ≡ false = rw whole refl in
      let given = deliver_whole w src_mac channel_id slot in
      let (log, state, index, same) = deliver_whole_lem w src_mac channel_id slot told in
      let (left, state', index') =
        rx_cache_remove_lem given.node cache s slot.seq_id slot (same ∙ holds) cached_there in
      rw (there, deliver_one, read, whole_frame)
        (record {
          log = log;
          state = state' ∙ state;
          peer_index = index' ∙ index;
          gone = rw left (find_index-released cache s slot.seq_id slot absent free);
        })
