-- ===== src/Packet/RoundTrip.antt =====
-- The wire format: `relinow_encode_header` and `relinow_decode_header` are inverse.
use relinow.Prelude.{
  ℕ, ◌+◌, ◌<◌, ◌≤◌, ◌≡◌, ◌∙◌, ap, ◌++◌, List, arith, length, take, drop, get_or, IsBytes,
  get_or-lt-of_IsBytes, bit_or-shl, drop-cons, ◌∷◌, u8, u16, bit_or, shl, shr, low_bits,
}
use relinow.Packet.{
  Header, ok, header_size, encode_header, decode_header, validate_header, header_bytes,
  parse_header,
}

-- The fields are within the widths of `relinow_header_t`, and the flags within their four bits.
pub record IsHeader (h : Header) : Type 0 where
  pub version : h.version < 16
  pub mode : h.mode < 16
  pub type : h.type < 16
  pub flags : h.flags < 16
  pub seq_id : h.seq_id < 65536
  pub ack_id : h.ack_id < 65536
  pub channel_id : h.channel_id < 256
  pub payload_len : h.payload_len < 65536

-- A byte of two nibbles, and a word of two bytes, taken apart and put together again.
nibbles_of_byte :
    (hi lo : ℕ)
    → hi < 16
    → lo < 16
    → let b = u8 (bit_or (shl (low_bits hi 4) 4) (low_bits lo 4)) in
      (u8 (low_bits (shr b 4) 4) ≡ hi) × (u8 (low_bits b 4) ≡ lo)
nibbles_of_byte hi lo h k =
    omega (arith, bit_or-shl 4 (low_bits hi 4) (low_bits lo 4) (omega arith))

byte_of_nibbles :
    (b : ℕ)
    → b < 256
    → u8 (bit_or (shl (low_bits (u8 (low_bits (shr b 4) 4)) 4) 4) (low_bits (u8 (low_bits b 4)) 4))
      ≡ b
byte_of_nibbles b h = omega (
  arith,
  bit_or-shl 4 (low_bits (u8 (low_bits (shr b 4) 4)) 4) (low_bits (u8 (low_bits b 4)) 4)
      (omega arith),
)

word_of_bytes : (w : ℕ) → w < 65536 → u16 (bit_or (shl (u8 (shr w 8)) 8) (u8 (low_bits w 8))) ≡ w
word_of_bytes w h = omega (arith, bit_or-shl 8 (u8 (shr w 8)) (u8 (low_bits w 8)) (omega arith))

bytes_of_word :
    (hi lo : ℕ)
    → hi < 256
    → lo < 256
    → let w = u16 (bit_or (shl hi 8) lo) in (u8 (shr w 8) ≡ hi) × (u8 (low_bits w 8) ≡ lo)
bytes_of_word hi lo h k = omega (arith, bit_or-shl 8 hi lo (omega arith))

parse_header-header_bytes :
    (h : Header) (payload : List ℕ) → IsHeader h → parse_header (header_bytes h ++ payload) ≡ h
unfolding parse_header header_bytes
parse_header-header_bytes h payload v = ground (
  arith,
  nibbles_of_byte h.version h.mode v.version v.mode,
  nibbles_of_byte h.type h.flags v.type v.flags,
  word_of_bytes h.seq_id v.seq_id,
  word_of_bytes h.ack_id v.ack_id,
  word_of_bytes h.payload_len v.payload_len,
)

-- A frame of nine bytes or more is those nine and the rest.
frame_split :
    (frame : List ℕ)
    → 9 ≤ length frame
    → let b = get_or frame in
      frame ≡ b 0 0 ∷ b 1 0 ∷ b 2 0 ∷ b 3 0 ∷ b 4 0 ∷ b 5 0 ∷ b 6 0 ∷ b 7 0 ∷ b 8 0 ∷ drop 9 frame
frame_split frame long = cc (
  drop-cons 0 frame 0 (omega arith),
  drop-cons 1 frame 0 (omega arith),
  drop-cons 2 frame 0 (omega arith),
  drop-cons 3 frame 0 (omega arith),
  drop-cons 4 frame 0 (omega arith),
  drop-cons 5 frame 0 (omega arith),
  drop-cons 6 frame 0 (omega arith),
  drop-cons 7 frame 0 (omega arith),
  drop-cons 8 frame 0 (omega arith),
)

module _ (frame : List ℕ) (bytes : IsBytes frame) where
  abbrev byte_at : ℕ → ℕ
  byte_at i = get_or frame i 0

  byte : (i : ℕ) → byte_at i < 256
  byte i = get_or-lt-of_IsBytes frame i bytes

  word_bytes :
      (i j : ℕ)
      → let w = u16 (bit_or (shl (byte_at i) 8) (byte_at j)) in
        (u8 (shr w 8) ≡ byte_at i) × (u8 (low_bits w 8) ≡ byte_at j)
  word_bytes i j = bytes_of_word (byte_at i) (byte_at j) (byte i) (byte j)

  header_bytes-parse_header :
      9 ≤ length frame → header_bytes (parse_header frame) ++ drop 9 frame ≡ frame
  unfolding parse_header header_bytes
  header_bytes-parse_header long = cc (
    frame_split frame long,
    byte_of_nibbles (byte_at 0) (byte 0),
    byte_of_nibbles (byte_at 1) (byte 1),
    (word_bytes 2 3).0,
    (word_bytes 2 3).1,
    (word_bytes 4 5).0,
    (word_bytes 4 5).1,
    (word_bytes 7 8).0,
    (word_bytes 7 8).1,
  )

-- Encoding succeeds exactly on a valid header, and then stores its nine bytes.
pub encode_header_inv :
    (h : Header) (max_payload : ℕ) (buffer : List ℕ)
    → (encode_header h max_payload buffer).0 ≡ ok
    → validate_header h max_payload ≡ ok
unfolding encode_header
encode_header_inv h max_payload buffer e = ground arith

pub encode_header_valid :
    (h : Header) (max_payload : ℕ) (buffer : List ℕ)
    → validate_header h max_payload ≡ ok
    → encode_header h max_payload buffer ≡ (ok, header_bytes h ++ drop 9 buffer)
unfolding encode_header
encode_header_valid h max_payload buffer e = ground arith

-- Decoding succeeds exactly on a frame of the length that its header names, with a valid header.
decode_header_inv :
    (frame : List ℕ) (max_payload : ℕ) (out_header : Header)
    → (decode_header frame max_payload out_header).0 ≡ ok
    → (9 ≤ length frame)
      × (decode_header frame max_payload out_header ≡ (ok, parse_header frame))
      × (validate_header (parse_header frame) max_payload ≡ ok)
unfolding decode_header
decode_header_inv frame max_payload out_header e = ground arith

decode_header_valid :
    (frame : List ℕ) (max_payload : ℕ) (out_header : Header)
    → length frame ≡ (parse_header frame).payload_len + 9
    → validate_header (parse_header frame) max_payload ≡ ok
    → decode_header frame max_payload out_header ≡ (ok, parse_header frame)
unfolding decode_header
decode_header_valid frame max_payload out_header len e = ground arith

-- A header that encodes into a buffer of nine bytes or more decodes from there, with a payload of
-- its length behind it, to itself, whatever `out_header` held.
pub decode_header-encode_header :
    (h out_header : Header) (max_payload : ℕ) (buffer payload : List ℕ)
    → IsHeader h
    → (encode_header h max_payload buffer).0 ≡ ok
    → length payload ≡ h.payload_len
    → decode_header
        (take header_size (encode_header h max_payload buffer).1 ++ payload)
        max_payload
        out_header
      ≡ (ok, h)
unfolding header_bytes
decode_header-encode_header h out_header max_payload buffer payload v e len =
    let valid = encode_header_inv h max_payload buffer e in
    let parsed = parse_header-header_bytes h payload v in
    rw (encode_header_valid h max_payload buffer valid) (
      decode_header_valid (header_bytes h ++ payload) max_payload out_header
        (rw parsed (omega arith)) (rw parsed valid)
      ∙ ap (λ (g : Header). (ok, g)) parsed)

-- A frame of bytes that decodes, encodes again to the same frame: writing the decoded header over
-- the frame changes no byte of it.
pub encode_header-decode_header :
    (frame : List ℕ) (out_header : Header) (max_payload : ℕ)
    → IsBytes frame
    → (decode_header frame max_payload out_header).0 ≡ ok
    → encode_header (decode_header frame max_payload out_header).1 max_payload frame ≡ (ok, frame)
encode_header-decode_header frame out_header max_payload bytes e =
    let (long, decoded, valid) = decode_header_inv frame max_payload out_header e in
    rw decoded (
      encode_header_valid (parse_header frame) max_payload frame valid
      ∙ ap (λ (f : List ℕ). (ok, f)) (header_bytes-parse_header frame bytes long))
