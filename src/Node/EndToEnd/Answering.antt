-- ===== src/Node/EndToEnd/Answering.antt =====
-- A DATA frame that is due arrives at a node: it is acknowledged and handed to the application.
use relinow.Prelude.{
  ℕ, ◌≤◌, ◌<◌, ◌≡◌, refl, ap, ap₂, ◌∙◌, List, [], ◌∷◌, ◌++◌, some, none, true, false, ◌==◌, arith,
  length, set, take, take_all, find_index,
}
use mathlib.Core.List.{append_assoc}
use relinow.Packet.{header_bytes, heartbeat_channel, mode_reliable, type_ack}
use relinow.State.Types.{ok, State}
use relinow.State.Lookup.{channel_at, put_channel, find_channel_mut, get_channel_mode}
use relinow.State.Lookup.Laws.{find_channel_mut-IsFound, channel_at-put_channel}
use relinow.State.Queues.{is_free_slot}
use relinow.State.Peers.{mac_equal}
use relinow.State.Peers.Opening.{get_channel_mode_found}
use relinow.State.ReliableMode.Arriving.{IsAlone, taken_in, reliable_on_data_alone}
use relinow.Node.Types.{EspErr, esp_ok, transmitted, message, Radio, World, emit}
use relinow.Node.Caches.{rx_cache_find, rx_cache_alloc}
use relinow.Node.Frames.Wire.{sent_empty}
use relinow.Node.Receiving.{
  unset_rx, empty_frame, with_node, cache_frame, deliver_all, receive_data, receive_channel,
  receive_decoded, on_receive,
}
use relinow.Node.EndToEnd.{on_receive_wire}
use relinow.Node.EndToEnd.Headers.{ack_header, ack_valid, data_header, data-IsHeader, data_valid}
use relinow.Node.EndToEnd.Taking.{received_slot, deliver_one-IsHandedOver}

-- The conditions on a receiver: it takes frames of the sender's address, has the channel open in
-- RELIABLE mode at a place of the table, the number is due there and the one after it not waiting,
-- the receive queue and the receive cache have a free entry, the cache does not hold the number,
-- there is a callback, and there is room for the message.
pub record IsExpecting (w : World) (src_mac : List ℕ) (channel_id q len place queue_slot : ℕ)
    : Type 0 where
  pub cache_slot : ℕ
  pub known : mac_equal src_mac w.node.peer_mac ≡ true
  pub found : find_channel_mut w.node.state w.node.peer_index channel_id ≡ some place
  pub mode : (channel_at w.node.state w.node.peer_index place).mode ≡ mode_reliable
  pub alone : IsAlone (channel_at w.node.state w.node.peer_index place).reliable q
  pub queue_free :
      find_index is_free_slot (channel_at w.node.state w.node.peer_index place).rx_queue
      ≡ some queue_slot
  pub absent : rx_cache_find w.node q ≡ none
  pub cache_free : rx_cache_alloc w.node ≡ some cache_slot
  pub on_message : w.node.on_message ≡ true
  pub room : len ≤ w.node.max_payload

-- What such a frame does: an acknowledgment of its number goes out, and the message is handed over.
pub record IsAnswered (radio : Radio) (w : World) (src_mac : List ℕ)
    (channel_id q place queue_slot : ℕ) (payload : List ℕ) (r : EspErr × World) : Type 0 where
  pub success : r.0 ≡ esp_ok
  pub log :
      let ack = header_bytes (ack_header channel_id q) in
      r.1.log
      ≡ w.log
        ++ (transmitted w.node.peer_mac ack (radio w.log w.node.peer_mac ack)
            ∷ message src_mac channel_id q payload
            ∷ [])
  pub channel :
      channel_at r.1.node.state r.1.node.peer_index place
      ≡ taken_in (channel_at w.node.state w.node.peer_index place) q queue_slot
  pub gone : rx_cache_find r.1.node q ≡ none

module _ (radio : Radio) (w : World) (src_mac : List ℕ) (channel_id q place queue_slot : ℕ)
    (payload : List ℕ) (now_ms : ℕ) (small_id : channel_id < 255) (short : length payload < 65536)
    (v : IsExpecting w src_mac channel_id q (length payload) place queue_slot) where
  -- The node with the frame in its cache and the reliable layer moved on, and the acknowledgment.
  abbrev stored : World
  stored = with_node w (record w.node {
    state =
        put_channel w.node.state w.node.peer_index place
          (taken_in (channel_at w.node.state w.node.peer_index place) q queue_slot);
    rx_cache =
        set w.node.rx_cache v.cache_slot (received_slot (data_header channel_id q payload) payload);
  })

  abbrev acked : World
  acked =
      let ack = header_bytes (ack_header channel_id q) in
      emit stored (transmitted w.node.peer_mac ack (radio w.log w.node.peer_mac ack))

  stored_frame :
      cache_frame w.node (data_header channel_id q payload) payload
      ≡ record w.node { rx_cache = stored.node.rx_cache }
  unfolding cache_frame
  stored_frame = rw (v.absent, cache_frame, v.cache_free) refl

  receive_data_alone :
      receive_data radio w src_mac (data_header channel_id q payload) payload now_ms
      ≡ (esp_ok, deliver_all acked src_mac channel_id now_ms (q ∷ []))
  unfolding receive_data
  receive_data_alone =
      let taken =
        reliable_on_data_alone w.node.state w.node.peer_index channel_id place v.found q queue_slot
          v.alone v.queue_free unset_rx v.mode in
      let sent =
        sent_empty radio stored (empty_frame mode_reliable channel_id type_ack q) refl refl
          (ack_valid channel_id q small_id v.alone.small w.node.max_payload) in
      rw (stored_frame, receive_data, taken, sent) refl

  opened : get_channel_mode w.node.state w.node.peer_index channel_id 0 ≡ (ok, mode_reliable)
  opened =
      get_channel_mode_found w.node.state w.node.peer_index channel_id place 0
        (find_channel_mut-IsFound w.node.state w.node.peer_index channel_id place v.found)
      ∙ ap (λ (m : ℕ). (ok, m)) v.mode

  received_whole :
      on_receive radio w src_mac (header_bytes (data_header channel_id q payload) ++ payload) now_ms
      ≡ (esp_ok, deliver_all acked src_mac channel_id now_ms (q ∷ []))
  unfolding receive_decoded receive_channel
  received_whole =
      let h = data_header channel_id q payload in
      let other : (channel_id == heartbeat_channel) ≡ false = ground arith in
      on_receive_wire radio w src_mac h payload now_ms v.known
        (data-IsHeader channel_id q small_id v.alone.small payload short) refl
        (data_valid channel_id q small_id v.alone.small payload w.node.max_payload v.room)
      ∙ rw (other, receive_decoded, opened) receive_data_alone

  -- The frame is answered and its message delivered.
  pub on_receive-IsAnswered : IsAnswered radio w src_mac channel_id q place queue_slot payload (
      on_receive radio w src_mac
        (header_bytes (data_header channel_id q payload) ++ payload)
        now_ms)
  unfolding deliver_all rx_cache_find rx_cache_alloc
  on_receive-IsAnswered =
      let slot = received_slot (data_header channel_id q payload) payload in
      let bytes : take (length payload) payload ≡ payload =
        take_all (length payload) payload refl in
      let handed =
        deliver_one-IsHandedOver acked src_mac channel_id now_ms w.node.rx_cache v.cache_slot slot
          v.absent v.cache_free refl refl refl v.on_message in
      rw received_whole (record {
        success = refl;
        log =
            handed.log
            ∙ ap (λ (bs : List ℕ). acked.log ++ (message src_mac channel_id q bs ∷ [])) bytes
            ∙ append_assoc w.log _ _;
        channel =
            ap₂ (λ (st : State) (p : ℕ). channel_at st p place) handed.state handed.peer_index
            ∙ channel_at-put_channel w.node.state w.node.peer_index channel_id place v.found _;
        gone = handed.gone;
      })
