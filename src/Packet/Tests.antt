-- ===== src/Packet/Tests.antt =====
-- The frame format and the serial numbers at concrete values.
use relinow.Prelude.{
  ◌+◌, ◌<◌, true, u16, ℕ, ◌≡◌, ◌↔◌, refl, List, [], ◌∷◌, ◌++◌, arith, take, replicate,
}
use relinow.Packet.{
  Header, ok, invalid_packet, header_size, mode_reliable, type_data, validate_header, encode_header,
  decode_header, header_bytes, parse_header, is_seq_newer,
}
use relinow.Packet.Seq.{is_seq_newer-offsets}
use relinow.Packet.Accepts.{IsFrame, decode_header_iff}
use relinow.Packet.RoundTrip.{IsHeader, decode_header-encode_header, encode_header-decode_header}

-- The last fragment of a message on channel 7.
abbrev fragment_header : Header
fragment_header = record {
  version = 1;
  mode = mode_reliable;
  type = type_data;
  flags = 3;
  seq_id = 513;
  ack_id = 0;
  channel_id = 7;
  payload_len = 2;
}

abbrev blank_header : Header
blank_header = record fragment_header { flags = 2; payload_len = 0 }

abbrev fragment_frame : List ℕ
fragment_frame = 17 ∷ 19 ∷ 2 ∷ 1 ∷ 0 ∷ 0 ∷ 7 ∷ 0 ∷ 2 ∷ 170 ∷ 187 ∷ []

fragment_header-IsHeader : IsHeader fragment_header
fragment_header-IsHeader = record {
  version = omega arith;
  mode = omega arith;
  type = omega arith;
  flags = omega arith;
  seq_id = omega arith;
  ack_id = omega arith;
  channel_id = omega arith;
  payload_len = omega arith;
}

encoded_test :
    encode_header fragment_header 241 (replicate header_size 0)
    ≡ (ok, 17 ∷ 19 ∷ 2 ∷ 1 ∷ 0 ∷ 0 ∷ 7 ∷ 0 ∷ 2 ∷ [])
unfolding encode_header validate_header header_bytes
encoded_test = refl

refused_test : validate_header blank_header 241 ≡ invalid_packet
unfolding validate_header
refused_test = refl

decode_header_iff_example :
    ((decode_header fragment_frame 241 blank_header).0 ≡ ok) ↔ IsFrame fragment_frame 241
decode_header_iff_example = decode_header_iff fragment_frame 241 blank_header (omega arith)

decode_header-encode_header_example :
    decode_header
      (take header_size (encode_header fragment_header 241 (replicate header_size 0)).1
        ++ (170 ∷ 187 ∷ []))
      241
      blank_header
    ≡ (ok, fragment_header)
unfolding encode_header validate_header
decode_header-encode_header_example =
    decode_header-encode_header fragment_header blank_header 241 (replicate header_size 0)
      (170 ∷ 187 ∷ []) fragment_header-IsHeader refl refl

encode_header-decode_header_example :
    encode_header (decode_header fragment_frame 241 blank_header).1 241 fragment_frame
    ≡ (ok, fragment_frame)
unfolding decode_header validate_header parse_header
encode_header-decode_header_example =
    encode_header-decode_header fragment_frame blank_header 241 (omega arith) refl

-- 3 lies five after 65534.
is_seq_newer-offsets_example : (is_seq_newer (u16 (65530 + 9)) (u16 (65530 + 4)) ≡ true) ↔ (4 < 9)
is_seq_newer-offsets_example =
    is_seq_newer-offsets 65530 9 4 (omega arith) (omega arith) (omega arith)
