-- ===== src/Packet/Accepts.antt =====
-- What `relinow_decode_header` accepts, in the bytes of the frame. PROTOCOL.md lets a receiver ignore
-- the acknowledgment number in UNRELIABLE mode; the code refuses the frame unless it is 0.
use relinow.Prelude.{
  ℕ, ◌+◌, ◌*◌, ◌/◌, ◌%◌, ◌<◌, ◌≤◌, ◌≡◌, refl, ◌↔◌, List, arith, length, get_or, IsBytes,
  get_or-lt-of_IsBytes, bit_or-shl, u8, u16, bit_or, shl, shr, low_bits,
}
use relinow.Packet.{
  Header, ok, protocol_version, mode_reliable, mode_unreliable, mode_priority, type_data, type_ack,
  type_ping, type_pong, heartbeat_channel, header_size, parse_header, decode_header,
  validate_header,
}
use relinow.Packet.Validate.{IsWellFormed, validate_header_iff}

abbrev pub byte_at : List ℕ → ℕ → ℕ
byte_at frame i = get_or frame i 0

-- Two bytes, the high one first.
abbrev pub word_at : List ℕ → ℕ → ℕ
word_at frame i = byte_at frame i * 256 + byte_at frame (i + 1)

-- A frame of the format that a receiver with a payload limit takes. Byte 0 holds the version and
-- the mode, byte 1 the type and the flags, bytes 4 and 5 the acknowledgment number, byte 6 the
-- channel, bytes 7 and 8 the payload's length; the payload is the rest of the frame.
pub record IsFrame (frame : List ℕ) (max_payload : ℕ) : Type 0 where
  pub whole : length frame ≡ header_size + word_at frame 7
  pub version : byte_at frame 0 / 16 ≡ protocol_version
  pub mode : (mode_reliable ≤ byte_at frame 0 % 16) × (byte_at frame 0 % 16 ≤ mode_priority)
  pub type : (type_data ≤ byte_at frame 1 / 16) × (byte_at frame 1 / 16 ≤ type_pong)
  pub reserved_clear : byte_at frame 1 / 8 % 2 ≡ 0
  pub fits : length frame ≤ header_size + max_payload
  pub heartbeat : (byte_at frame 6 ≡ heartbeat_channel) ↔ (type_ping ≤ byte_at frame 1 / 16)
  pub ack_empty : byte_at frame 1 / 16 ≡ type_ack → length frame ≡ header_size
  pub unacknowledged :
      byte_at frame 0 % 16 ≡ mode_unreliable → (byte_at frame 4 ≡ 0) × (byte_at frame 5 ≡ 0)
  pub fragment_reliable : byte_at frame 1 % 2 ≡ 1 → byte_at frame 0 % 16 ≡ mode_reliable
  pub last_is_fragment : byte_at frame 1 / 2 % 2 ≡ 1 → byte_at frame 1 % 2 ≡ 1

nibbles : (b : ℕ) → b < 256 → (u8 (low_bits (shr b 4) 4) ≡ b / 16) × (u8 (low_bits b 4) ≡ b % 16)
nibbles b h = omega (arith, h)

word : (hi lo : ℕ) → hi < 256 → lo < 256 → u16 (bit_or (shl hi 8) lo) ≡ hi * 256 + lo
word hi lo h k = omega (arith, bit_or-shl 8 hi lo (omega (arith, k)))

-- The fields that a frame's bytes hold.
pub record IsParsed (frame : List ℕ) (h : Header) : Type 0 where
  pub version : h.version ≡ byte_at frame 0 / 16
  pub mode : h.mode ≡ byte_at frame 0 % 16
  pub type : h.type ≡ byte_at frame 1 / 16
  pub flags : h.flags ≡ byte_at frame 1 % 16
  pub ack_id : h.ack_id ≡ word_at frame 4
  pub channel_id : h.channel_id ≡ byte_at frame 6
  pub payload_len : h.payload_len ≡ word_at frame 7

module _ (frame : List ℕ) (bytes : IsBytes frame) where
  byte : (i : ℕ) → byte_at frame i < 256
  byte i = get_or-lt-of_IsBytes frame i bytes

  parsed : IsParsed frame (parse_header frame)
  unfolding parse_header
  parsed = record {
    version = (nibbles (byte_at frame 0) (byte 0)).0;
    mode = (nibbles (byte_at frame 0) (byte 0)).1;
    type = (nibbles (byte_at frame 1) (byte 1)).0;
    flags = (nibbles (byte_at frame 1) (byte 1)).1;
    ack_id = word (byte_at frame 4) (byte_at frame 5) (byte 4) (byte 5);
    channel_id = refl;
    payload_len = word (byte_at frame 7) (byte_at frame 8) (byte 7) (byte 8);
  }

  module _ (h : Header) (p : IsParsed frame h) (max_payload : ℕ)
      (whole : length frame ≡ header_size + word_at frame 7) where
    well_formed-IsFrame : IsWellFormed h max_payload → IsFrame frame max_payload
    well_formed-IsFrame w = record {
      whole = whole;
      version = omega (arith, p.version, w.version_known);
      mode = omega (arith, p.mode, w.mode_known);
      type = omega (arith, p.type, w.type_known);
      reserved_clear = omega (arith, p.flags, w.reserved_clear);
      fits = omega (arith, p.payload_len, w.fits, whole);
      heartbeat = ground (arith, p.channel_id, p.type, w.heartbeat);
      ack_empty = ground (arith, p.type, p.payload_len, w.ack_empty, whole);
      unacknowledged = ground (arith, p.mode, p.ack_id, w.unacknowledged);
      fragment_reliable = ground (arith, p.flags, p.mode, w.fragment_reliable);
      last_is_fragment = ground (arith, p.flags, w.last_is_fragment);
    }

    IsFrame-IsWellFormed : IsFrame frame max_payload → IsWellFormed h max_payload
    IsFrame-IsWellFormed f = record {
      version_known = omega (arith, p.version, f.version);
      mode_known = omega (arith, p.mode, f.mode);
      type_known = omega (arith, p.type, f.type);
      reserved_clear = omega (arith, p.flags, f.reserved_clear);
      fits = omega (arith, p.payload_len, f.fits, whole);
      heartbeat = ground (arith, p.channel_id, p.type, f.heartbeat);
      ack_empty = ground (arith, p.type, p.payload_len, f.ack_empty, whole);
      unacknowledged = ground (arith, p.mode, p.ack_id, f.unacknowledged);
      fragment_reliable = ground (arith, p.flags, p.mode, f.fragment_reliable);
      last_is_fragment = ground (arith, p.flags, f.last_is_fragment);
    }

-- Decoding succeeds exactly on a frame of the length that its header names, with a valid header.
decoded_iff :
    (frame : List ℕ) (max_payload : ℕ) (out_header : Header)
    → ((decode_header frame max_payload out_header).0 ≡ ok) ↔ (
        (length frame ≡ header_size + (parse_header frame).payload_len)
        × (validate_header (parse_header frame) max_payload ≡ ok))
unfolding decode_header
decoded_iff frame max_payload out_header = (λ e. ground arith, λ e. ground arith)

-- A frame of bytes is accepted by `relinow_decode_header`, whatever `out_header` held, exactly when
-- its bytes make up a frame of the format. In UNRELIABLE mode this asks for the acknowledgment
-- number 0.
pub decode_header_iff :
    (frame : List ℕ) (max_payload : ℕ) (out_header : Header)
    → IsBytes frame
    → ((decode_header frame max_payload out_header).0 ≡ ok) ↔ IsFrame frame max_payload
decode_header_iff frame max_payload out_header bytes =
    let p = parsed frame bytes in
    let h = parse_header frame in
    let small : h.flags < 256 = omega (arith, p.flags) in
    let valid = validate_header_iff h max_payload small in
    let accepted = decoded_iff frame max_payload out_header in
    (
      λ e.
          let (len, fine) = accepted.0 e in
          well_formed-IsFrame frame bytes h p max_payload (omega (arith, len, p.payload_len))
            (valid.0 fine),
      λ f. accepted.1 (
        omega (arith, f.whole, p.payload_len),
        valid.1 (IsFrame-IsWellFormed frame bytes h p max_payload f.whole f),
      ),
    )
