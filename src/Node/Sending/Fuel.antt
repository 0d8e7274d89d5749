-- ===== src/Node/Sending/Fuel.antt =====
-- The fragment loop ends: the fuel that `relinow_send_reliable` gives it is enough.
use relinow.Prelude.{
  ℕ, suc, ◌<◌, ◌≡◌, ◌≢◌, inl, inr, refl, ◌∙◌, List, [], Bool, true, false, not, ◌||◌, ◌==◌,
  if◌then◌else◌, ltb, arith, length, take, drop, length-drop, set, replicate, Bool-cases,
  Option-cases,
}
use relinow.Packet
use relinow.Packet.{encode_header, mode_reliable}
use relinow.Reliable.{max_pending}
use relinow.State.Lookup.{channel_at, get_channel_mode}
use relinow.State.ReliableMode.{reliable_send}
use relinow.Node.Setup.{is_state_ok}
use relinow.Node.Types.{
  max_payload_size, EspErr, out_of_fuel, Radio, Node, World, Cached, Effect, max_frame,
}
use relinow.Node.Caches.{
  tx_cache_alloc, fragment_tx_track, find_channel_state, count_free_pending, count_free_tx_cache,
}
use relinow.Node.Frames.{Outgoing, frame_header, send_encoded, send_frame}
use relinow.Node.Sending.{
  is_new, is_esp_ok, unset_tx, with_state, transmit, cached, data_frame, fragment_len,
  fragment_flags, fragment_count, send_fragment, send_fragments, send_whole, send_split,
  send_reliable,
}

-- What a step may do, apart from what it is for: it never says that it ran out of fuel, and leaves
-- the largest payload alone.
abbrev IsStep : World → EspErr × World → Type 0
IsStep w r = (r.0 ≢ out_of_fuel) × (r.1.node.max_payload ≡ w.node.max_payload)

-- The radio has no such answer.
abbrev pub IsRadio : Radio → Type 0
IsRadio radio = (log : List Effect) (mac frame : List ℕ) → radio log mac frame ≢ out_of_fuel

fragment_tx_track_max :
    (node : Node) (seq_id : ℕ) → (fragment_tx_track node seq_id).max_payload ≡ node.max_payload
unfolding fragment_tx_track
fragment_tx_track_max node seq_id = ground arith

if_ends :
    (b : Bool) (x y : EspErr × World)
    → x.0 ≢ out_of_fuel
    → y.0 ≢ out_of_fuel
    → (if b then x else y).0 ≢ out_of_fuel
if_ends true x y h k = h
if_ends false x y h k = k

-- A round takes at least one byte where some are left.
shorter :
    (w : World) (cursor : List ℕ)
    → 0 < w.node.max_payload
    → (length cursor == 0) ≡ false
    → (0 < fragment_len w.node cursor) × (0 < length cursor)
shorter w cursor positive some_left = ground arith

module _ (radio : Radio) (answers : IsRadio radio) where
  send_encoded-IsStep :
      (w : World) (out : Outgoing) (rc : Packet.Err) (frame : List ℕ)
      → IsStep w (send_encoded radio w out (rc, frame))
  unfolding send_encoded
  send_encoded-IsStep w out Packet.ok frame =
      elim (Bool-cases (ltb max_payload_size out.payload_len)) [
        | inl over ↦ rw over (ground arith, refl)
        | inr fits ↦ rw fits (answers _ _ _, refl)
      ]
  send_encoded-IsStep w out Packet.invalid_arg frame = (ground arith, refl)
  send_encoded-IsStep w out Packet.invalid_packet frame = (ground arith, refl)
  send_encoded-IsStep w out Packet.payload_too_large frame = (ground arith, refl)

  send_frame-IsStep : (w : World) (out : Outgoing) → IsStep w (send_frame radio w out)
  unfolding send_frame
  send_frame-IsStep w out = elim (Bool-cases (ltb w.node.max_payload out.payload_len)) [
    | inl large ↦ rw (send_frame, large) (ground arith, refl)
    | inr fits ↦
        let encoded = encode_header (frame_header out) w.node.max_payload (replicate max_frame 0) in
        rw (send_frame, fits) (send_encoded-IsStep w out encoded.0 encoded.1)
  ]

  transmit-IsStep :
      (w : World) (channel_id : ℕ) (slot : Cached) → IsStep w (transmit radio w channel_id slot)
  unfolding transmit
  transmit-IsStep w channel_id slot =
      let out =
        data_frame mode_reliable channel_id slot.flags slot.seq_id slot.payload slot.payload_len in
      let step = send_frame-IsStep w out in
      let r = send_frame radio w out in
      elim (Bool-cases (is_esp_ok r.0)) [
        | inr failed ↦ rw (transmit, failed) step
        | inl sent ↦ elim (Bool-cases r.1.node.on_tx_event) [
          | inl reported ↦ rw (transmit, sent, reported) (ground arith, step.1)
          | inr silent ↦ rw (transmit, sent, silent) (ground arith, step.1)
        ]
      ]

  send_fragment-IsStep :
      (w : World) (channel_id : ℕ) (cursor : List ℕ) (now_ms : ℕ)
      → IsStep w (send_fragment radio w channel_id cursor now_ms)
  unfolding send_fragment
  send_fragment-IsStep w channel_id cursor now_ms =
      let r = reliable_send w.node.state w.node.peer_index channel_id now_ms unset_tx in
      let w' = with_state w r.1 in
      elim (Bool-cases (not (is_state_ok r.0) || not (is_new r.2.event))) [
        | inl failed ↦ elim (Bool-cases (length w.node.fragmented_tx_seq == 0)) [
          | inl none_sent ↦ rw (send_fragment, failed, none_sent) (ground arith, refl)
          | inr some_sent ↦ rw (send_fragment, failed, some_sent) (ground arith, refl)
        ]
        | inr sent ↦ elim (Option-cases (tx_cache_alloc w'.node)) [
          | inl full ↦ rw (send_fragment, sent, full) (ground arith, refl)
          | inr (j, free) ↦
              let slot =
                cached r.2.seq_id (fragment_flags w'.node cursor)
                  (take (fragment_len w'.node cursor) cursor) in
              let stored = record w'.node { tx_cache = set w'.node.tx_cache j slot } in
              let tracked = fragment_tx_track stored r.2.seq_id in
              let step = transmit-IsStep (record w' { node = tracked }) channel_id slot in
              rw (send_fragment, sent, free)
                (step.0, step.1 ∙ fragment_tx_track_max stored r.2.seq_id)
        ]
      ]

  -- Enough fuel is one round more than there are bytes left.
  pub send_fragments_fuel :
      (fuel : ℕ) (w : World) (channel_id : ℕ) (cursor : List ℕ) (now_ms : ℕ)
      → 0 < w.node.max_payload
      → length cursor < fuel
      → (send_fragments fuel radio w channel_id cursor now_ms).0 ≢ out_of_fuel
  unfolding send_fragments
  send_fragments_fuel ℕ.zero w channel_id cursor now_ms positive enough = absurd (omega arith)
  send_fragments_fuel (suc fuel) w channel_id cursor now_ms positive enough =
      let step = send_fragment-IsStep w channel_id cursor now_ms in
      let r = send_fragment radio w channel_id cursor now_ms in
      elim (Bool-cases (length cursor == 0)) [
        | inl none_left ↦ rw (send_fragments, none_left) (ground arith)
        | inr some_left ↦ elim (Bool-cases (is_esp_ok r.0)) [
          | inl sent ↦
              rw (send_fragments, some_left, sent)
                (send_fragments_fuel fuel r.1 channel_id (drop (fragment_len w.node cursor) cursor)
                  now_ms (omega (arith, step.1))
                  (omega (
                    arith,
                    length-drop (fragment_len w.node cursor) cursor,
                    shorter w cursor positive some_left,
                  )))
          | inr failed ↦ rw (send_fragments, some_left, failed) step.0
        ]
      ]

  send_whole-IsStep :
      (w : World) (channel_id : ℕ) (payload : List ℕ) (now_ms : ℕ)
      → IsStep w (send_whole radio w channel_id payload now_ms)
  unfolding send_whole
  send_whole-IsStep w channel_id payload now_ms =
      let r = reliable_send w.node.state w.node.peer_index channel_id now_ms unset_tx in
      let w' = with_state w r.1 in
      elim (Bool-cases (not (is_state_ok r.0) || not (is_new r.2.event))) [
        | inl failed ↦ rw (send_whole, failed) (ground arith, refl)
        | inr sent ↦ elim (Option-cases (tx_cache_alloc w'.node)) [
          | inl full ↦ rw (send_whole, sent, full) (ground arith, refl)
          | inr (j, free) ↦
              let slot = cached r.2.seq_id 0 payload in
              let stored = record w'.node { tx_cache = set w'.node.tx_cache j slot } in
              rw (send_whole, sent, free)
                (transmit-IsStep (record w' { node = stored }) channel_id slot)
        ]
      ]

  send_split_ends :
      (w : World) (channel_id i : ℕ) (payload : List ℕ) (now_ms : ℕ)
      → 0 < w.node.max_payload
      → (send_split radio w channel_id i payload now_ms).0 ≢ out_of_fuel
  unfolding send_split
  send_split_ends w channel_id i payload now_ms positive =
      let n = fragment_count (length payload) w.node.max_payload in
      elim (Bool-cases (ltb max_pending n)) [
        | inl many ↦ rw (send_split, many) (ground arith)
        | inr few ↦
            elim (Bool-cases (
              ltb (count_free_pending (channel_at w.node.state w.node.peer_index i)) n
              || ltb (count_free_tx_cache w.node) n)) [
                | inl full ↦ rw (send_split, few, full) (ground arith)
                | inr room ↦
                    rw (send_split, few, room)
                      (send_fragments_fuel (suc (length payload))
                        (record w {
                          node = record w.node {
                            fragmented_tx_active = true;
                            fragmented_tx_seq = [];
                          };
                        })
                        channel_id payload now_ms positive (omega arith))
              ]
      ]

-- `relinow_send_reliable` always ends: with a radio that does not answer `out_of_fuel`, which is no
-- code of its own, and a node that allows a payload of a byte or more, it does not run out of the
-- fuel of its fragment loop.
pub send_reliable_ends :
    (radio : Radio) (w : World) (channel_id : ℕ) (payload : List ℕ) (now_ms : ℕ)
    → IsRadio radio
    → 0 < w.node.max_payload
    → (send_reliable radio w channel_id payload now_ms).0 ≢ out_of_fuel
unfolding send_reliable
send_reliable_ends radio w channel_id payload now_ms answers positive =
    let m = get_channel_mode w.node.state w.node.peer_index channel_id 0 in
    if_ends (length payload == 0) _ _ (ground arith) (
      if_ends (not (is_state_ok m.0) || not (m.1 == mode_reliable)) _ _ (ground arith)
        (elim (Option-cases (find_channel_state w.node channel_id)) [
          | inl absent ↦ rw absent (ground arith)
          | inr (i, there) ↦ rw there (
              if_ends w.node.fragmented_tx_active _ _ (ground arith) (
                if_ends (ltb w.node.max_payload (length payload)) _ _
                  (send_split_ends radio answers w channel_id i payload now_ms positive)
                  (send_whole-IsStep radio answers w channel_id payload now_ms).0))
        ]))
