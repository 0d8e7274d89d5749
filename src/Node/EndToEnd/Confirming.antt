-- ===== src/Node/EndToEnd/Confirming.antt =====
-- An acknowledgment arrives at the sender: the number leaves the context, and the frame the cache.
use relinow.Prelude.{
  ℕ, ◌-◌, ◌<◌, ◌≡◌, refl, sym, ap, ◌∙◌, List, [], some, none, true, false, not, ◌==◌, ==_iff, arith,
  set, find_index, find_index-some, to_nat, if_true,
}
use mathlib.Core.List.{append-nil}
use relinow.Packet.{header_bytes, heartbeat_channel, mode_reliable}
use relinow.State.Types.{ok, State}
use relinow.State.Lookup.{get_channel_mode}
use relinow.State.Lookup.Laws.{find_channel_mut-IsFound}
use relinow.State.Peers.{mac_equal}
use relinow.State.Peers.Opening.{get_channel_mode_found}
use relinow.State.Peers.RoundTrip.{find_index-set_first}
use relinow.State.ReliableMode.{reliable_on_ack}
use relinow.State.ReliableMode.History.{IsHeld}
use relinow.State.ReliableMode.Outcomes.{flying, IsAcked, reliable_on_ack-IsAcked}
use relinow.Node.Types.{EspErr, esp_ok, Radio, Node, World, Cached, zero_cached}
use relinow.Node.Caches.{
  is_cached, is_free_cached, release, tx_cache_find, tx_cache_remove, fragment_tx_on_ack,
}
use relinow.Node.Receiving.{with_node, receive_ack, receive_channel, receive_decoded, on_receive}
use relinow.Node.EndToEnd.{on_receive_wire}
use relinow.Node.EndToEnd.Headers.{ack_header, ack-IsHeader, ack_valid}
use relinow.Node.EndToEnd.Taking.{find_index-released}

-- A sender that waits for an acknowledgment: the channel stands at a place of the table and has its
-- mirror, the frame was put in a free slot of a cache that did not hold its number, and no
-- fragmented message is under way.
pub record IsWaiting (node : Node) (src_mac : List ℕ) (channel_id q place : ℕ) : Type 0 where
  pub known : mac_equal src_mac node.peer_mac ≡ true
  pub held : IsHeld node.state node.peer_index channel_id place
  pub cache : List Cached
  pub cache_slot : ℕ
  pub slot : Cached
  pub number : slot.seq_id ≡ q
  pub in_use : slot.in_use ≡ true
  pub free : find_index is_free_cached cache ≡ some cache_slot
  pub absent : find_index (is_cached q) cache ≡ none
  pub stored : node.tx_cache ≡ set cache cache_slot slot
  pub idle : node.fragmented_tx_active ≡ false

-- What the acknowledgment does: nothing is sent or reported, the number is in flight once less, and
-- the cache does not hold it any more.
pub record IsConfirmed (w : World) (q place : ℕ) (r : EspErr × World) : Type 0 where
  pub success : r.0 ≡ esp_ok
  pub log : r.1.log ≡ w.log
  pub flights :
      (s : ℕ)
      → flying r.1.node.state r.1.node.peer_index place s
        ≡ flying w.node.state w.node.peer_index place s - to_nat (q == s)
  pub gone : tx_cache_find r.1.node q ≡ none

tx_cache_remove_lem :
    (node : Node) (cache : List Cached) (s q : ℕ) (slot : Cached)
    → node.tx_cache ≡ set cache s slot
    → find_index (is_cached q) (set cache s slot) ≡ some s
    → tx_cache_remove node q ≡ record node { tx_cache = release (set cache s slot) s }
unfolding tx_cache_remove tx_cache_find
tx_cache_remove_lem node cache s q slot same there =
    rw (same, tx_cache_remove, there)
      (ap (λ (xs : List Cached). record node { tx_cache = release xs s }) same)

fragment_tx_on_ack_idle :
    (node : Node) (q : ℕ) → node.fragmented_tx_active ≡ false → fragment_tx_on_ack node q ≡ node
unfolding fragment_tx_on_ack
fragment_tx_on_ack_idle node q idle =
    let passed : not node.fragmented_tx_active ≡ true = rw idle refl in if_true _ _ passed

module _ (radio : Radio) (w : World) (src_mac : List ℕ) (channel_id q place : ℕ) (now_ms : ℕ)
    (small_id : channel_id < 255) (small : q < 65536)
    (v : IsWaiting w.node src_mac channel_id q place) where
  abbrev acked_state : State
  acked_state = (reliable_on_ack w.node.state w.node.peer_index channel_id q now_ms).1

  abbrev confirmed : World
  confirmed = with_node w (record w.node {
    state = acked_state;
    tx_cache = release (set v.cache v.cache_slot v.slot) v.cache_slot;
  })

  acked :
      IsAcked w.node.state w.node.peer_index channel_id place v.held now_ms q
        (reliable_on_ack w.node.state w.node.peer_index channel_id q now_ms)
  acked = reliable_on_ack-IsAcked w.node.state w.node.peer_index channel_id place v.held now_ms q

  cached_there : find_index (is_cached q) (set v.cache v.cache_slot v.slot) ≡ some v.cache_slot
  cached_there =
      find_index-set_first (is_cached q) v.cache v.cache_slot v.slot v.absent
        (find_index-some is_free_cached v.cache v.cache_slot zero_cached v.free).0
        (rw (v.in_use) ((==_iff v.slot.seq_id q).1 v.number))

  received_ack : receive_ack w (ack_header channel_id q) now_ms ≡ confirmed
  unfolding receive_ack
  received_ack =
      let acked_node : Node = record w.node { state = acked_state } in
      let removed =
        tx_cache_remove_lem acked_node v.cache v.cache_slot q v.slot v.stored cached_there in
      rw (acked.accepted, receive_ack, removed)
        (ap (with_node w) (fragment_tx_on_ack_idle confirmed.node q v.idle))

  opened : get_channel_mode w.node.state w.node.peer_index channel_id 0 ≡ (ok, mode_reliable)
  opened =
      get_channel_mode_found w.node.state w.node.peer_index channel_id place 0
        (find_channel_mut-IsFound w.node.state w.node.peer_index channel_id place v.held.found)
      ∙ ap (λ (m : ℕ). (ok, m)) v.held.mode

  pub on_receive-IsConfirmed :
      IsConfirmed w q place
        (on_receive radio w src_mac (header_bytes (ack_header channel_id q)) now_ms)
  unfolding receive_decoded receive_channel tx_cache_find
  on_receive-IsConfirmed =
      let h = ack_header channel_id q in
      let other : (channel_id == heartbeat_channel) ≡ false = ground arith in
      let received : on_receive radio w src_mac (header_bytes h) now_ms ≡ (esp_ok, confirmed) =
        ap (λ (bytes : List ℕ). on_receive radio w src_mac bytes now_ms)
          (sym (append-nil (header_bytes h)))
        ∙ on_receive_wire radio w src_mac h [] now_ms v.known
            (ack-IsHeader channel_id q small_id small) refl
            (ack_valid channel_id q small_id small w.node.max_payload)
        ∙ rw (other, receive_decoded, opened) (ap (λ (u : World). (esp_ok, u)) received_ack) in
      rw received (record {
        success = refl;
        log = refl;
        flights = acked.flights;
        gone = find_index-released v.cache v.cache_slot q v.slot v.absent v.free;
      })
