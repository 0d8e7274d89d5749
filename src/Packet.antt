-- ===== src/Packet.antt =====
-- core/src/relinow_packet.c and core/include/relinow_packet.h: the nine-byte wire header, and the
-- serial arithmetic of sequence numbers. A buffer with its length is a list of bytes.
pub mod Seq
pub mod Validate
pub mod Accepts
pub mod RoundTrip
mod Tests
use relinow.Prelude.{
  ℕ, ◌+◌, ◌-◌, List, [], ◌∷◌, ◌++◌, Bool, true, false, not, ◌&&◌, ◌||◌, ltb, leb, ◌==◌,
  if◌then◌else◌, bit_and, bit_or, shl, shr, low_bits, u8, u16, sub16, length, get_or, drop,
}

abbrev pub header_size : ℕ
header_size = 9

abbrev pub protocol_version : ℕ
protocol_version = 0x01

abbrev pub mode_reliable : ℕ
mode_reliable = 0x01

abbrev pub mode_unreliable : ℕ
mode_unreliable = 0x02

abbrev pub mode_priority : ℕ
mode_priority = 0x03

abbrev pub type_data : ℕ
type_data = 0x01

abbrev pub type_ack : ℕ
type_ack = 0x02

abbrev pub type_nack : ℕ
type_nack = 0x03

abbrev pub type_ping : ℕ
type_ping = 0x04

abbrev pub type_pong : ℕ
type_pong = 0x05

abbrev pub flag_fragment : ℕ
flag_fragment = 0x01

abbrev pub flag_last_fragment : ℕ
flag_last_fragment = 0x02

abbrev pub flag_reserved : ℕ
flag_reserved = 0x08

abbrev pub heartbeat_channel : ℕ
heartbeat_channel = 0xff

-- `relinow_err_t`
pub data Err : Type 0 where
  ok invalid_arg invalid_packet payload_too_large : Err

-- `relinow_header_t`
pub record Header : Type 0 where
  pub version : ℕ
  pub mode : ℕ
  pub type : ℕ
  pub flags : ℕ
  pub seq_id : ℕ
  pub ack_id : ℕ
  pub channel_id : ℕ
  pub payload_len : ℕ

pub is_valid_mode : ℕ → Bool
is_valid_mode mode = mode == mode_reliable || mode == mode_unreliable || mode == mode_priority

pub is_valid_type : ℕ → Bool
is_valid_type type = leb type_data type && leb type type_pong

-- `(flags & bit) != 0u`
unfoldable pub has_flag : ℕ → ℕ → Bool
has_flag flags bit = not (bit_and flags bit == 0)

-- `relinow_validate_header`, from the test of the payload length on.
validate_fields : Header → ℕ → Err
unfolding has_flag
validate_fields h max_payload =
    if ltb max_payload h.payload_len
    then payload_too_large
    else if h.channel_id == heartbeat_channel
        && (not (h.type == type_ping) && not (h.type == type_pong))
    then invalid_packet
    else if not (h.channel_id == heartbeat_channel) && (h.type == type_ping || h.type == type_pong)
    then invalid_packet
    else if h.type == type_ack && not (h.payload_len == 0)
    then invalid_packet
    else if h.mode == mode_unreliable && not (h.ack_id == 0)
    then invalid_packet
    else if has_flag h.flags flag_fragment && not (h.mode == mode_reliable)
    then invalid_packet
    else if has_flag h.flags flag_last_fragment && not (has_flag h.flags flag_fragment)
    then invalid_packet
    else ok

-- `relinow_validate_header`
unfoldable pub validate_header : Header → ℕ → Err
unfolding is_valid_mode is_valid_type has_flag validate_fields
validate_header h max_payload =
    if not (h.version == protocol_version)
    then invalid_packet
    else if not (is_valid_mode h.mode) || not (is_valid_type h.type)
    then invalid_packet
    else if has_flag h.flags flag_reserved
    then invalid_packet
    else validate_fields h max_payload

-- The nine bytes that `relinow_encode_header` stores.
unfoldable pub header_bytes : Header → List ℕ
header_bytes h =
    u8 (bit_or (shl (low_bits h.version 4) 4) (low_bits h.mode 4))
    ∷ u8 (bit_or (shl (low_bits h.type 4) 4) (low_bits h.flags 4))
    ∷ u8 (shr h.seq_id 8)
    ∷ u8 (low_bits h.seq_id 8)
    ∷ u8 (shr h.ack_id 8)
    ∷ u8 (low_bits h.ack_id 8)
    ∷ h.channel_id
    ∷ u8 (shr h.payload_len 8)
    ∷ u8 (low_bits h.payload_len 8)
    ∷ []

-- `relinow_encode_header`: the new content of the buffer `out_bytes`, which a refusal leaves alone.
unfoldable pub encode_header : Header → ℕ → List ℕ → Err × List ℕ
encode_header h max_payload out_bytes = elim (validate_header h max_payload) [
  | ok ↦ (ok, header_bytes h ++ drop header_size out_bytes)
  | invalid_arg ↦ (invalid_arg, out_bytes)
  | invalid_packet ↦ (invalid_packet, out_bytes)
  | payload_too_large ↦ (payload_too_large, out_bytes)
]

-- The fields that `relinow_decode_header` stores in `out_header`.
unfoldable pub parse_header : List ℕ → Header
parse_header frame = record {
  version = u8 (low_bits (shr (get_or frame 0 0) 4) 4);
  mode = u8 (low_bits (get_or frame 0 0) 4);
  type = u8 (low_bits (shr (get_or frame 1 0) 4) 4);
  flags = u8 (low_bits (get_or frame 1 0) 4);
  seq_id = u16 (bit_or (shl (get_or frame 2 0) 8) (get_or frame 3 0));
  ack_id = u16 (bit_or (shl (get_or frame 4 0) 8) (get_or frame 5 0));
  channel_id = get_or frame 6 0;
  payload_len = u16 (bit_or (shl (get_or frame 7 0) 8) (get_or frame 8 0));
}

-- `relinow_decode_header`: the result, and what `out_header` holds then. A short frame leaves it
-- alone; a later refusal has already stored the fields.
unfoldable pub decode_header : List ℕ → ℕ → Header → Err × Header
decode_header frame max_payload out_header =
    if ltb (length frame) header_size
    then (invalid_packet, out_header)
    else if not ((parse_header frame).payload_len == length frame - header_size)
    then (invalid_packet, parse_header frame)
    else (validate_header (parse_header frame) max_payload, parse_header frame)

-- `relinow_is_seq_newer`: `(int16_t)(seq_a - seq_b) > 0`.
unfoldable pub is_seq_newer : ℕ → ℕ → Bool
is_seq_newer seq_a seq_b = ltb 0 (sub16 seq_a seq_b) && ltb (sub16 seq_a seq_b) 32768

-- `relinow_seq_next`
unfoldable pub seq_next : ℕ → ℕ
seq_next current = u16 (current + 1)
