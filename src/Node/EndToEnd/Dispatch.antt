-- ===== src/Node/EndToEnd/Dispatch.antt =====
-- `relinow_send_reliable` for a message that fits one frame, where nothing refuses it.
use relinow.Prelude.{
  ℕ, ◌≤◌, ◌<◌, ◌≡◌, refl, ap, ◌∙◌, List, ◌++◌, some, none, false, ◌==◌, arith, length, ltb, set,
  find_index, if_false,
}
use relinow.Packet.{header_bytes, mode_reliable}
use relinow.Reliable.{tx_new}
use relinow.State.Types.{ok, State, tx_queue_size}
use relinow.State.Lookup.{channel_at, get_channel_mode}
use relinow.State.Lookup.Laws.{IsFound, find_channel_mut-IsFound}
use relinow.State.Peers.Opening.{get_channel_mode_found}
use relinow.State.ReliableMode.{reliable_send}
use relinow.State.ReliableMode.Mirror.{used_tx}
use relinow.State.ReliableMode.History.{IsHeld}
use relinow.State.ReliableMode.Outcomes.{ctx_at, IsSent, reliable_send-IsSent}
use relinow.Node.Types.{esp_ok, transmitted, Radio, World, emit, max_payload_size}
use relinow.Node.Caches.{is_free_cached, tx_cache_find, tx_cache_alloc, find_channel_state}
use relinow.Node.Frames.Wire.{sent_valid}
use relinow.Node.Sending.{unset_tx, report, cached, transmit, send_whole, send_reliable}
use relinow.Node.Polling.SentWhole.{whole_frame}
use relinow.Node.EndToEnd.Headers.{data_header, data_valid}

-- The conditions on a sender: the channel stands at a place of the table, is RELIABLE and has its
-- mirror; its queue and the transmission cache have a free entry, and the cache does not hold the
-- channel's next number; no fragmented message is under way; and the message fits one frame.
pub record IsClear (w : World) (channel_id place : ℕ) (payload : List ℕ) : Type 0 where
  pub cache_slot : ℕ
  pub held : IsHeld w.node.state w.node.peer_index channel_id place
  pub room : used_tx (channel_at w.node.state w.node.peer_index place) < tx_queue_size
  pub cache_free : tx_cache_alloc w.node ≡ some cache_slot
  pub absent : tx_cache_find w.node (ctx_at w.node.state w.node.peer_index place).next_tx_seq ≡ none
  pub idle : w.node.fragmented_tx_active ≡ false
  pub some_bytes : 0 < length payload
  pub short : length payload ≤ max_payload_size
  pub fits : length payload ≤ w.node.max_payload

module _ (radio : Radio) (w : World) (channel_id place : ℕ) (payload : List ℕ) (now_ms : ℕ)
    (small_id : channel_id < 255) (v : IsClear w channel_id place payload) where
  abbrev pub next : ℕ
  next = (ctx_at w.node.state w.node.peer_index place).next_tx_seq

  -- The frame on the air.
  abbrev pub sent_frame : List ℕ
  sent_frame = header_bytes (data_header channel_id next payload) ++ payload

  abbrev pub sent_state : State
  sent_state = (reliable_send w.node.state w.node.peer_index channel_id now_ms unset_tx).1

  -- The node with the frame in its cache.
  abbrev pub prepared : World
  prepared = record w {
    node = record w.node {
      state = sent_state;
      tx_cache = set w.node.tx_cache v.cache_slot (cached next 0 payload);
    };
  }

  abbrev pub dispatched : World
  dispatched = report (emit prepared (transmitted w.node.peer_mac sent_frame esp_ok)) tx_new next

  found : IsFound w.node.state w.node.peer_index channel_id place
  found = find_channel_mut-IsFound w.node.state w.node.peer_index channel_id place v.held.found

  pub sent :
      IsSent w.node.state w.node.peer_index channel_id place v.held now_ms
        (reliable_send w.node.state w.node.peer_index channel_id now_ms unset_tx)
  sent =
      reliable_send-IsSent w.node.state w.node.peer_index channel_id place v.held now_ms unset_tx
        v.room

  opened : get_channel_mode w.node.state w.node.peer_index channel_id 0 ≡ (ok, mode_reliable)
  opened =
      get_channel_mode_found w.node.state w.node.peer_index channel_id place 0 found
      ∙ ap (λ (m : ℕ). (ok, m)) v.held.mode

  there : find_channel_state w.node channel_id ≡ some place
  unfolding find_channel_state
  there = rw (found.peer_small, found.peer_used) found.first

  transmitted_whole :
      radio w.log w.node.peer_mac sent_frame ≡ esp_ok
      → transmit radio prepared channel_id (cached next 0 payload) ≡ (esp_ok, dispatched)
  unfolding transmit
  transmitted_whole accepted =
      let large : ltb w.node.max_payload (length payload) ≡ false = ground (arith, v.fits) in
      let on_air =
        sent_valid radio prepared (whole_frame channel_id next payload) payload refl refl large
          v.short
          (data_valid channel_id next small_id v.held.mirror.valid.next payload w.node.max_payload
            v.fits) in
      rw (on_air, transmit, accepted) refl

  whole :
      radio w.log w.node.peer_mac sent_frame ≡ esp_ok
      → send_whole radio w channel_id payload now_ms ≡ (esp_ok, dispatched)
  unfolding send_whole tx_cache_alloc
  whole accepted =
      let free : find_index is_free_cached w.node.tx_cache ≡ some v.cache_slot = v.cache_free in
      rw (sent.accepted, send_whole, sent.result, free, sent.result) (transmitted_whole accepted)

  -- The message is accepted, and goes out as one frame under the channel's next number.
  pub send_reliable_whole :
      radio w.log w.node.peer_mac sent_frame ≡ esp_ok
      → send_reliable radio w channel_id payload now_ms ≡ (esp_ok, dispatched)
  unfolding send_reliable
  send_reliable_whole accepted =
      let bytes : (length payload == 0) ≡ false = ground (arith, v.some_bytes) in
      let large : ltb w.node.max_payload (length payload) ≡ false = ground (arith, v.fits) in
      rw (opened, send_reliable, bytes, there)
        (if_false _ _ v.idle ∙ (if_false _ _ large ∙ whole accepted))
