-- ===== src/Node/Receiving/Losses.antt =====
-- What a full receive cache does to a DATA frame on a RELIABLE channel.
use relinow.Prelude.{ℕ, ◌≡◌, refl, ap, ◌∙◌, List, [], ◌∷◌, none}
use relinow.Packet.{Header, type_ack, mode_reliable}
use relinow.Reliable.{RxResult}
use relinow.State.Types.{StateErr, ok, State}
use relinow.State.ReliableMode.{reliable_on_data}
use relinow.Node.Types.{esp_ok, Radio, Node, World}
use relinow.Node.Caches.{rx_cache_find, rx_cache_alloc}
use relinow.Node.Frames.{send_frame}
use relinow.Node.Frames.Wire.{send_frame-node}
use relinow.Node.Sending.{with_state}
use relinow.Node.Receiving.{
  unset_rx, empty_frame, cache_frame, deliver_one, deliver_all, receive_data,
}

-- A frame that is not in the cache is not stored in a full one.
uncached :
    (node : Node) (header : Header) (payload : List ℕ)
    → rx_cache_find node header.seq_id ≡ none
    → rx_cache_alloc node ≡ none
    → cache_frame node header payload ≡ node
unfolding cache_frame
uncached node header payload absent full = rw (cache_frame, absent, full) refl

-- A number without a frame in the cache is delivered to nobody.
undelivered :
    (w : World) (src_mac : List ℕ) (channel_id now_ms seq_id : ℕ)
    → rx_cache_find w.node seq_id ≡ none
    → deliver_all w src_mac channel_id now_ms (seq_id ∷ []) ≡ w
unfolding deliver_all deliver_one
undelivered w src_mac channel_id now_ms seq_id absent = rw (deliver_one, absent) refl

-- What the reliable layer answers to a frame.
abbrev pub answer : World → Header → StateErr × State × RxResult
answer w header =
    reliable_on_data w.node.state w.node.peer_index header.channel_id header.seq_id unset_rx

-- A DATA frame that the receive cache has no room for, and that the reliable layer delivers, is
-- answered with success and an acknowledgment, and that is all that happens besides the change of
-- the reliable layer: the message is not handed to the application, and nothing keeps it.
pub full_cache_loses_frame :
    (radio : Radio) (w : World) (src_mac : List ℕ) (header : Header) (payload : List ℕ) (now_ms : ℕ)
    → rx_cache_find w.node header.seq_id ≡ none
    → rx_cache_alloc w.node ≡ none
    → (answer w header).0 ≡ ok
    → (answer w header).2.delivered ≡ header.seq_id ∷ []
    → let (_, state, rx) = answer w header in
      receive_data radio w src_mac header payload now_ms ≡ (
        esp_ok,
        (send_frame radio
            (with_state w state)
            (empty_frame mode_reliable header.channel_id type_ack rx.ack_id)).1,
      )
unfolding receive_data rx_cache_find
full_cache_loses_frame radio w src_mac header payload now_ms absent full success delivered =
    let r = answer w header in
    let ack = empty_frame mode_reliable header.channel_id type_ack r.2.ack_id in
    let acked = (send_frame radio (with_state w r.1) ack).1 in
    let still : rx_cache_find acked.node header.seq_id ≡ none =
      rw (send_frame-node radio (with_state w r.1) ack) absent in
    rw (receive_data, uncached w.node header payload absent full, success)
      (ap (λ (ds : List ℕ). (esp_ok, deliver_all acked src_mac header.channel_id now_ms ds))
          delivered
        ∙ ap (λ (v : World). (esp_ok, v))
            (undelivered acked src_mac header.channel_id now_ms header.seq_id still))
