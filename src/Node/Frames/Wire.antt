-- ===== src/Node/Frames/Wire.antt =====
-- What `relinow_send_frame` puts on the air.
use relinow.Prelude.{
  ℕ, ◌+◌, ◌≤◌, ◌<◌, ◌≡◌, ◌⊎◌, inl, inr, refl, ap, ◌∙◌, List, ◌++◌, [], ◌∷◌, none, some, true, false,
  arith, length, take, drop, replicate, Bool-cases, ltb, take-append, take_all, ◌≢◌, sym,
}
use relinow.Packet
use relinow.Packet.{
  Header, Err, encode_header, decode_header, validate_header, header_size, header_bytes,
}
use relinow.Packet.RoundTrip.{
  IsHeader, decode_header-encode_header, encode_header_inv, encode_header_valid,
}
use relinow.Packet.Validate.{validate_header_iff}
use relinow.Node.Types.{
  invalid_arg, frame_overrun, transmitted, Radio, World, emit, max_frame, max_payload_size,
}
use relinow.Node.Frames.{Outgoing, frame_header, with_payload, send_encoded, send_frame}

laid_out :
    (h : Header) (rest payload : List ℕ) (n : ℕ)
    → n ≡ length payload
    → take (header_size + n) (with_payload (header_bytes h ++ rest) (some payload) n)
      ≡ header_bytes h ++ payload
unfolding header_bytes
laid_out h rest [] n len = rw (len) refl
laid_out h rest (b ∷ payload) n len =
    let behind = drop (header_size + n) (header_bytes h ++ rest) in
    let some_bytes : ltb 0 n ≡ true = ground arith in
    rw (some_bytes, take_all n (b ∷ payload) len)
      (take-append (header_size + n) (header_bytes h ++ (b ∷ payload)) behind (omega (arith, len)))

refused :
    (radio : Radio) (w : World) (out : Outgoing) (rc : Err) (frame : List ℕ)
    → rc ≢ Packet.ok
    → send_encoded radio w out (rc, frame) ≡ (invalid_arg, w)
unfolding send_encoded
refused radio w out Packet.ok frame h = absurd (h refl)
refused radio w out Packet.invalid_arg frame h = refl
refused radio w out Packet.invalid_packet frame h = refl
refused radio w out Packet.payload_too_large frame h = refl

pub ok_or_not : (rc : Err) → (rc ≡ Packet.ok) ⊎ (rc ≢ Packet.ok)
ok_or_not Packet.ok = inl refl
ok_or_not Packet.invalid_arg = inr (ground arith)
ok_or_not Packet.invalid_packet = inr (ground arith)
ok_or_not Packet.payload_too_large = inr (ground arith)

pub decoded :
    (h seen : Header) (max_payload : ℕ) (payload : List ℕ)
    → IsHeader h
    → length payload ≡ h.payload_len
    → validate_header h max_payload ≡ Packet.ok
    → decode_header (header_bytes h ++ payload) max_payload seen ≡ (Packet.ok, h)
unfolding header_bytes
decoded h seen max_payload payload v len valid =
    let encoded = encode_header_valid h max_payload [] valid in
    rw encoded at (
      decode_header-encode_header h seen max_payload [] payload v
        (ap (λ (r : Err × List ℕ). r.0) encoded) len)

module _ (radio : Radio) (w : World) (out : Outgoing) (payload : List ℕ)
    (given : out.payload ≡ some payload) (len : length payload ≡ out.payload_len) where
  abbrev pub wire_frame : List ℕ
  wire_frame = header_bytes (frame_header out) ++ payload

  sent_ok :
      (rest : List ℕ)
      → ltb max_payload_size out.payload_len ≡ false
      → let erc = radio w.log w.node.peer_mac wire_frame in
        send_encoded radio w out (Packet.ok, header_bytes (frame_header out) ++ rest)
        ≡ (erc, emit w (transmitted w.node.peer_mac wire_frame erc))
  unfolding send_encoded
  sent_ok rest short =
      rw
        (
          send_encoded,
          short,
          given,
          laid_out (frame_header out) rest payload out.payload_len (sym len),
        )
        refl

  pub sent_valid :
      ltb w.node.max_payload out.payload_len ≡ false
      → out.payload_len ≤ max_payload_size
      → validate_header (frame_header out) w.node.max_payload ≡ Packet.ok
      → let erc = radio w.log w.node.peer_mac wire_frame in
        send_frame radio w out ≡ (erc, emit w (transmitted w.node.peer_mac wire_frame erc))
  unfolding send_frame
  sent_valid fits short valid =
      let fine : ltb max_payload_size out.payload_len ≡ false = ground (arith, short) in
      rw (send_frame, fits)
        (ap (send_encoded radio w out) (
            encode_header_valid (frame_header out) w.node.max_payload (replicate max_frame 0) valid)
          ∙ sent_ok (drop header_size (replicate max_frame 0)) fine)

pub sent_large :
    (radio : Radio) (w : World) (out : Outgoing)
    → ltb w.node.max_payload out.payload_len ≡ true
    → send_frame radio w out ≡ (invalid_arg, w)
unfolding send_frame
sent_large radio w out large = rw (send_frame, large) refl

-- A payload for which `frame` is too short is written past its end.
pub sent_over :
    (radio : Radio) (w : World) (out : Outgoing)
    → ltb w.node.max_payload out.payload_len ≡ false
    → max_payload_size < out.payload_len
    → validate_header (frame_header out) w.node.max_payload ≡ Packet.ok
    → send_frame radio w out ≡ (frame_overrun, w)
unfolding send_frame send_encoded
sent_over radio w out fits large valid =
    let over : ltb max_payload_size out.payload_len ≡ true = ground (arith, large) in
    rw (send_frame, fits)
      (ap (send_encoded radio w out)
          (encode_header_valid (frame_header out) w.node.max_payload (replicate max_frame 0) valid)
        ∙ rw over refl)

-- A frame without a payload is its header alone.
pub sent_empty :
    (radio : Radio) (w : World) (out : Outgoing)
    → out.payload ≡ none
    → out.payload_len ≡ 0
    → validate_header (frame_header out) w.node.max_payload ≡ Packet.ok
    → let frame = header_bytes (frame_header out) in
      let erc = radio w.log w.node.peer_mac frame in
      send_frame radio w out ≡ (erc, emit w (transmitted w.node.peer_mac frame erc))
unfolding send_frame send_encoded header_bytes
sent_empty radio w out given len valid =
    let fits : ltb w.node.max_payload out.payload_len ≡ false = ground arith in
    rw (send_frame, fits)
      (ap (send_encoded radio w out)
          (encode_header_valid (frame_header out) w.node.max_payload (replicate max_frame 0) valid)
        ∙ rw (given, len) refl)

pub sent_invalid :
    (radio : Radio) (w : World) (out : Outgoing)
    → validate_header (frame_header out) w.node.max_payload ≢ Packet.ok
    → send_frame radio w out ≡ (invalid_arg, w)
unfolding send_frame
sent_invalid radio w out bad =
    let encoded = encode_header (frame_header out) w.node.max_payload (replicate max_frame 0) in
    elim (Bool-cases (ltb w.node.max_payload out.payload_len)) [
      | inl large ↦ rw (send_frame, large) refl
      | inr fits ↦
          rw (send_frame, fits)
            (refused radio w out encoded.0 encoded.1
              (λ e. bad (encode_header_inv (frame_header out) w.node.max_payload _ e)))
    ]

-- A frame with a payload of the length given and with fields within their widths. If its header is
-- valid and the payload has at most 241 bytes, it is sent once, to the node's peer, as the header's
-- nine bytes and then the payload; the result is the radio's answer; and the receiver decodes the
-- frame to the same header. If its header is valid and the payload is longer, which takes a node
-- with a payload limit above 241, the local buffer is overrun. If its header is not valid, it is
-- refused without an effect.
pub send_frame_lem :
    (radio : Radio) (w : World) (out : Outgoing) (payload : List ℕ) (seen : Header)
    → out.payload ≡ some payload
    → length payload ≡ out.payload_len
    → IsHeader (frame_header out)
    → let (erc, w') = send_frame radio w out in
      let frame = header_bytes (frame_header out) ++ payload in
      ((validate_header (frame_header out) w.node.max_payload ≡ Packet.ok)
        × (out.payload_len ≤ max_payload_size)
        × (erc ≡ radio w.log w.node.peer_mac frame)
        × (w' ≡ emit w (transmitted w.node.peer_mac frame erc))
        × (decode_header frame w.node.max_payload seen ≡ (Packet.ok, frame_header out)))
      ⊎ ((validate_header (frame_header out) w.node.max_payload ≡ Packet.ok)
          × (max_payload_size < out.payload_len)
          × (max_payload_size < w.node.max_payload)
          × (erc ≡ frame_overrun))
      ⊎ ((validate_header (frame_header out) w.node.max_payload ≢ Packet.ok)
          × (erc ≡ invalid_arg)
          × (w' ≡ w))
send_frame_lem radio w out payload seen given len v =
    let h = frame_header out in
    elim (ok_or_not (validate_header h w.node.max_payload)) [
      | inl valid ↦
          let fits : out.payload_len ≤ w.node.max_payload =
            ((validate_header_iff h w.node.max_payload (omega (arith, v.flags))).0 valid).fits in
          let fine : ltb w.node.max_payload out.payload_len ≡ false = ground (arith, fits) in
          elim (Bool-cases (ltb max_payload_size out.payload_len)) [
            | inr not_over ↦
                let short : out.payload_len ≤ max_payload_size = ground arith in
                inl (
                  rw (sent_valid radio w out payload given len fine short valid) (
                    valid,
                    short,
                    refl,
                    refl,
                    decoded h seen w.node.max_payload payload v len valid,
                  ))
            | inl over ↦
                let long : max_payload_size < out.payload_len = ground arith in
                inr (
                  inl (
                    rw (sent_over radio w out fine long valid)
                      (valid, long, omega (arith, long, fits), refl)))
          ]
      | inr bad ↦ inr (inr (rw (sent_invalid radio w out bad) (bad, refl, refl)))
    ]

send_encoded-node :
    (radio : Radio) (w : World) (out : Outgoing) (rc : Err) (frame : List ℕ)
    → (send_encoded radio w out (rc, frame)).1.node ≡ w.node
unfolding send_encoded
send_encoded-node radio w out Packet.ok frame =
    elim (Bool-cases (ltb max_payload_size out.payload_len)) [
      | inl over ↦ rw over refl
      | inr fits ↦ rw fits refl
    ]
send_encoded-node radio w out Packet.invalid_arg frame = refl
send_encoded-node radio w out Packet.invalid_packet frame = refl
send_encoded-node radio w out Packet.payload_too_large frame = refl

-- Sending a frame leaves the node as it was.
pub send_frame-node :
    (radio : Radio) (w : World) (out : Outgoing) → (send_frame radio w out).1.node ≡ w.node
unfolding send_frame
send_frame-node radio w out = elim (Bool-cases (ltb w.node.max_payload out.payload_len)) [
  | inl large ↦ rw (send_frame, large) refl
  | inr fits ↦
      let encoded = encode_header (frame_header out) w.node.max_payload (replicate max_frame 0) in
      rw (send_frame, fits) (send_encoded-node radio w out encoded.0 encoded.1)
]
