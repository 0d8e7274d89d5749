-- ===== src/Node/Polling/SentWhole.antt =====
-- What `relinow_send_reliable` leaves in the transmission cache for a message that fits one frame.
use relinow.Prelude.{
  ℕ, ◌≤◌, ◌<◌, ltb, ◌≡◌, refl, ap, ◌∙◌, inl, inr, List, some, not, ◌||◌, arith, length, set,
  find_index, Bool-cases, Option-cases,
}
use relinow.Packet
use relinow.Packet.{Header, header_bytes, validate_header, mode_reliable}
use relinow.Reliable.{tx_new}
use relinow.State.ReliableMode.{reliable_send}
use relinow.Node.Types.{esp_ok, Radio, Node, World, Cached, max_payload_size}
use relinow.Node.Setup.{is_state_ok}
use relinow.Node.Caches.{is_free_cached, tx_cache_alloc}
use relinow.Node.Frames.{Outgoing, frame_header, send_frame}
use relinow.Node.Frames.Wire.{ok_or_not, sent_invalid, sent_over, sent_large, send_frame-node}
use relinow.Node.Sending.{
  is_new, is_esp_ok, unset_tx, report, transmit, cached, data_frame, send_whole,
}

-- The frame of a DATA message that needs no fragments.
abbrev pub whole_frame : ℕ → ℕ → List ℕ → Outgoing
whole_frame channel_id seq_id payload =
    data_frame mode_reliable channel_id 0 seq_id payload (length payload)

-- What a successful send of such a message did: it took the first free slot of the cache, and the
-- frame's header was valid.
pub record IsCachedAt (w : World) (channel_id : ℕ) (payload : List ℕ) (seq_id : ℕ) (w' : World)
    : Type 0 where
  pub slot : ℕ
  pub free : find_index is_free_cached w.node.tx_cache ≡ some slot
  pub cache : w'.node.tx_cache ≡ set w.node.tx_cache slot (cached seq_id 0 payload)
  pub mac : w'.node.peer_mac ≡ w.node.peer_mac
  pub room : w'.node.max_payload ≡ w.node.max_payload
  pub short : length payload ≤ max_payload_size
  pub valid :
      validate_header (frame_header (whole_frame channel_id seq_id payload)) w.node.max_payload
      ≡ Packet.ok

pub report-node : (w : World) (seq_id : ℕ) → (report w tx_new seq_id).node ≡ w.node
report-node w seq_id = elim (Bool-cases w.node.on_tx_event) [
  | inl on ↦ rw on refl
  | inr off ↦ rw off refl
]

module _ (radio : Radio) where
  pub transmit-node :
      (w : World) (channel_id : ℕ) (slot : Cached)
      → (transmit radio w channel_id slot).1.node ≡ w.node
  unfolding transmit
  transmit-node w channel_id slot =
      let out =
        data_frame mode_reliable channel_id slot.flags slot.seq_id slot.payload slot.payload_len in
      let r = send_frame radio w out in
      elim (Bool-cases (is_esp_ok r.0)) [
        | inl sent ↦ rw (transmit, sent) (report-node r.1 slot.seq_id ∙ send_frame-node radio w out)
        | inr failed ↦ rw (transmit, failed) (send_frame-node radio w out)
      ]

  -- A header that is not valid is not transmitted, and neither is a payload that passes the frame.
  transmit-valid :
      (w : World) (channel_id seq_id : ℕ) (payload : List ℕ)
      → (transmit radio w channel_id (cached seq_id 0 payload)).0 ≡ esp_ok
      → (validate_header (frame_header (whole_frame channel_id seq_id payload)) w.node.max_payload
          ≡ Packet.ok)
        × (length payload ≤ max_payload_size)
  unfolding transmit
  transmit-valid w channel_id seq_id payload =
      let out = whole_frame channel_id seq_id payload in
      elim (ok_or_not (validate_header (frame_header out) w.node.max_payload)) [
        | inl valid ↦ elim (Bool-cases (ltb w.node.max_payload (length payload))) [
          | inl large ↦ rw (transmit, sent_large radio w out large) (λ e. absurd (ground arith))
          | inr fits ↦ elim (Bool-cases (ltb max_payload_size (length payload))) [
            | inr not_over ↦ λ e. (valid, ground arith)
            | inl over ↦
                let long : max_payload_size < length payload = ground arith in
                rw (transmit, sent_over radio w out fits long valid) (λ e. absurd (ground arith))
          ]
        ]
        | inr bad ↦ rw (transmit, sent_invalid radio w out bad) (λ e. absurd (ground arith))
      ]

  -- The first channel's and the second channel's send are taken apart alike.
  pub send_whole-IsCachedAt :
      (w : World) (channel_id : ℕ) (payload : List ℕ) (now_ms : ℕ)
      → (send_whole radio w channel_id payload now_ms).0 ≡ esp_ok
      → IsCachedAt w channel_id payload
          (reliable_send w.node.state w.node.peer_index channel_id now_ms unset_tx).2.seq_id
          (send_whole radio w channel_id payload now_ms).1
  unfolding send_whole tx_cache_alloc
  send_whole-IsCachedAt w channel_id payload now_ms =
      let (src, state, tx) =
        reliable_send w.node.state w.node.peer_index channel_id now_ms unset_tx in
      elim (Bool-cases (not (is_state_ok src) || not (is_new tx.event))) [
        | inl failed ↦ rw (failed, send_whole) (λ e. absurd (ground arith))
        | inr fine ↦ elim (Option-cases (find_index is_free_cached w.node.tx_cache)) [
          | inl full ↦ rw (fine, send_whole, full) (λ e. absurd (ground arith))
          | inr (j, free) ↦
              let stored : World = record w {
                node = record w.node {
                  state = state;
                  tx_cache = set w.node.tx_cache j (cached tx.seq_id 0 payload);
                };
              } in
              let same = transmit-node stored channel_id (cached tx.seq_id 0 payload) in
              rw (fine, send_whole, free)
                (λ e. record {
                  slot = j;
                  free = free;
                  cache = ap (λ (n : Node). n.tx_cache) same;
                  mac = ap (λ (n : Node). n.peer_mac) same;
                  room = ap (λ (n : Node). n.max_payload) same;
                  short = (transmit-valid stored channel_id tx.seq_id payload e).1;
                  valid = (transmit-valid stored channel_id tx.seq_id payload e).0;
                })
        ]
      ]
