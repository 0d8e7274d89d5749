-- ===== src/Node/Frames.antt =====
-- `relinow_send_frame`: a header and a payload become one frame for the radio.
pub mod Wire
use relinow.Prelude.{
  ℕ, ◌+◌, List, [], ◌++◌, Option, none, some, ltb, if◌then◌else◌, take, drop, replicate,
}
use relinow.Packet
use relinow.Packet.{Header, header_size, protocol_version, encode_header}
use relinow.Node.Types.{
  EspErr, invalid_arg, frame_overrun, max_payload_size, Effect, transmitted, Radio, Node, World,
  emit, max_frame,
}

-- The arguments of `relinow_send_frame` after the node; `none` is a null payload.
pub record Outgoing : Type 0 where
  pub mode : ℕ
  pub channel_id : ℕ
  pub type : ℕ
  pub flags : ℕ
  pub seq_id : ℕ
  pub ack_id : ℕ
  pub payload : Option (List ℕ)
  pub payload_len : ℕ

abbrev pub frame_header : Outgoing → Header
frame_header out = record {
  version = protocol_version;
  mode = out.mode;
  type = out.type;
  flags = out.flags;
  seq_id = out.seq_id;
  ack_id = out.ack_id;
  channel_id = out.channel_id;
  payload_len = out.payload_len;
}

-- `memcpy` of the payload behind the header, where `frame` has room for it.
abbrev pub with_payload : List ℕ → Option (List ℕ) → ℕ → List ℕ
with_payload frame none payload_len = frame
with_payload frame (some payload) payload_len =
    if ltb 0 payload_len
    then take header_size frame
      ++ (take payload_len payload ++ drop (header_size + payload_len) frame)
    else frame

-- The part of `relinow_send_frame` after the encoding, with its code and what `frame` holds. More
-- than 241 bytes pass the end of `frame`: what the program does then is not defined.
unfoldable pub send_encoded : Radio → World → Outgoing → Packet.Err × List ℕ → EspErr × World
send_encoded radio w out (Packet.ok, frame) =
    if ltb max_payload_size out.payload_len
    then (frame_overrun, w)
    else let sent =
        take (header_size + out.payload_len) (with_payload frame out.payload out.payload_len) in
      let erc = radio w.log w.node.peer_mac sent in
      (erc, emit w (transmitted w.node.peer_mac sent erc))
send_encoded radio w out (_, frame) = (invalid_arg, w)

-- `relinow_send_frame`. The local `frame` is not initialised; zeros stand for what it holds, of
-- which nothing is sent where the payload is given or empty.
unfoldable pub send_frame : Radio → World → Outgoing → EspErr × World
unfolding send_encoded
send_frame radio w out =
    if ltb w.node.max_payload out.payload_len
    then (invalid_arg, w)
    else send_encoded radio w out
        (encode_header (frame_header out) w.node.max_payload (replicate max_frame 0))
