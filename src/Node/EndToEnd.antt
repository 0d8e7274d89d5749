-- ===== src/Node/EndToEnd.antt =====
-- From `relinow_send_unreliable` of one node to the application of another. RELIABLE messages, with
-- their acknowledgments, are the subject of the files below.
pub mod Headers
pub mod Taking
pub mod Answering
pub mod Dispatch
pub mod Confirming
pub mod Confirmed
mod Tests
use relinow.Prelude.{
  ℕ, ◌+◌, ◌≤◌, ◌<◌, ◌≡◌, ◌≢◌, refl, ap, ◌∙◌, List, [], ◌∷◌, ◌++◌, some, true, false, not, ◌||◌,
  ◌==◌, arith, length, ltb, drop, if◌then◌else◌,
}
use relinow.Packet
use relinow.Packet.{
  Header, seq_next, header_size, header_bytes, decode_header, validate_header, mode_unreliable,
  type_data, heartbeat_channel,
}
use relinow.Packet.RoundTrip.{IsHeader}
use relinow.Packet.Validate.{IsWellFormed, validate_header_iff}
use relinow.State.Types.{ok, State, Channel}
use relinow.State.Lookup.{channel_at, put_channel, find_channel_mut, get_channel_mode}
use relinow.State.Lookup.Laws.{find_channel_mut-IsFound, channel_at-put_channel}
use relinow.State.Peers.{mac_equal}
use relinow.State.Peers.Opening.{get_channel_mode_found}
use relinow.State.OtherModes.{unreliable_send, unreliable_on_data}
use relinow.Node.Types.{EspErr, esp_ok, transmitted, message, Radio, World, emit, max_payload_size}
use relinow.Node.Frames.{Outgoing, frame_header, send_frame}
use relinow.Node.Frames.Wire.{decoded, sent_valid}
use relinow.Node.Sending.{with_state, data_frame, send_unreliable}
use relinow.Node.Receiving.{
  unset_header, deliver, receive_decoded, receive_channel, receive_unreliable, on_receive,
}

module _ (radio : Radio) (w : World) (src_mac : List ℕ) (h : Header) (payload : List ℕ) (now_ms : ℕ)
    (known : mac_equal src_mac w.node.peer_mac ≡ true) where
  -- A frame of a valid header and its payload, from the node's peer, is taken apart into the two.
  pub on_receive_wire :
      IsHeader h
      → length payload ≡ h.payload_len
      → validate_header h w.node.max_payload ≡ Packet.ok
      → on_receive radio w src_mac (header_bytes h ++ payload) now_ms
        ≡ receive_decoded radio w src_mac h payload now_ms
  unfolding on_receive header_bytes
  on_receive_wire v len valid =
      let long : ltb (length (header_bytes h ++ payload)) header_size ≡ false = ground arith in
      let body = λ (r : Packet.Err × Header).
        let out : EspErr × World = elim r.0 [
          | Packet.ok ↦ receive_decoded radio w src_mac r.1 payload now_ms
          | _ ↦ (esp_ok, w)
        ] in
        out in
      rw (long, on_receive, known)
        (ap body (decoded h unset_header w.node.max_payload payload v len valid))

  -- An UNRELIABLE frame for an open channel is counted and handed over.
  receive_decoded_unreliable :
      (h.channel_id == heartbeat_channel) ≡ false
      → h.mode ≡ mode_unreliable
      → h.type ≡ type_data
      → get_channel_mode w.node.state w.node.peer_index h.channel_id 0 ≡ (ok, mode_unreliable)
      → receive_decoded radio w src_mac h payload now_ms ≡ (
        esp_ok,
        deliver
            (with_state w
              (unreliable_on_data w.node.state w.node.peer_index h.channel_id h.seq_id).1)
            src_mac
            h.channel_id
            h.seq_id
            payload,
      )
  unfolding receive_decoded receive_channel receive_unreliable
  receive_decoded_unreliable other in_mode is_data opened =
      let kind : (h.type == type_data) ≡ true = ground arith in
      let mode : (h.mode == mode_unreliable) ≡ true = ground arith in
      let mode' : (mode_unreliable == h.mode) ≡ true = ground arith in
      rw (other, receive_decoded, opened, mode', mode, kind) refl

-- The frame of an UNRELIABLE message.
abbrev pub unreliable_frame : ℕ → ℕ → List ℕ → Outgoing
unreliable_frame channel_id seq_id payload =
    data_frame mode_unreliable channel_id 0 seq_id payload (length payload)

module _ (channel_id seq_id : ℕ) (payload : List ℕ) (small_id : channel_id < 255)
    (small_seq : seq_id < 65536) (some_bytes : 0 < length payload) where
  abbrev header : Header
  header = frame_header (unreliable_frame channel_id seq_id payload)

  unreliable-IsHeader : length payload ≤ max_payload_size → IsHeader header
  unreliable-IsHeader short = record {
    version = omega arith;
    mode = omega arith;
    type = omega arith;
    flags = omega arith;
    seq_id = small_seq;
    ack_id = omega arith;
    channel_id = omega (arith, small_id);
    payload_len = omega (arith, short);
  }

  unreliable-valid :
      (max_payload : ℕ)
      → length payload ≤ max_payload
      → validate_header header max_payload ≡ Packet.ok
  unreliable-valid max_payload fits =
      (validate_header_iff header max_payload (omega arith)).1 (record {
        version_known = refl;
        mode_known = (omega arith, omega arith);
        type_known = (omega arith, omega arith);
        reserved_clear = refl;
        fits = fits;
        heartbeat = (λ e. absurd (omega (arith, e, small_id)), λ e. absurd (omega (arith, e)));
        ack_empty = λ e. absurd (omega (arith, e));
        unacknowledged = λ e. refl;
        fragment_reliable = λ e. absurd (omega (arith, e));
        last_is_fragment = λ e. absurd (omega (arith, e));
      })

module _ (radio : Radio) (w : World) (channel_id i : ℕ) (payload : List ℕ)
    (found : find_channel_mut w.node.state w.node.peer_index channel_id ≡ some i)
    (mode : (channel_at w.node.state w.node.peer_index i).mode ≡ mode_unreliable)
    (small_id : channel_id < 255) (some_bytes : 0 < length payload)
    (fits : length payload ≤ w.node.max_payload) (short : length payload ≤ max_payload_size) where
  abbrev sender : Channel
  sender = channel_at w.node.state w.node.peer_index i

  -- The state after the send: the channel's counter has moved on.
  abbrev counted : State
  counted =
      put_channel w.node.state w.node.peer_index i
        (record sender { next_tx_seq = seq_next sender.next_tx_seq })

  numbered :
      unreliable_send w.node.state w.node.peer_index channel_id 0
      ≡ (ok, counted, sender.next_tx_seq)
  unfolding unreliable_send
  numbered =
      let in_mode : (sender.mode == mode_unreliable) ≡ true = rw mode refl in
      rw (found, unreliable_send, in_mode) refl

  -- A message on an open UNRELIABLE channel goes out as one frame under the channel's next number.
  send_unreliable_sends :
      sender.next_tx_seq < 65536
      → let frame =
          header_bytes (frame_header (unreliable_frame channel_id sender.next_tx_seq payload))
          ++ payload in
        let erc = radio w.log w.node.peer_mac frame in
        send_unreliable radio w channel_id payload
        ≡ (erc, emit (with_state w counted) (transmitted w.node.peer_mac frame erc))
  unfolding send_unreliable
  send_unreliable_sends small_seq =
      let v = find_channel_mut-IsFound w.node.state w.node.peer_index channel_id i found in
      let taken = get_channel_mode_found w.node.state w.node.peer_index channel_id i 0 v in
      let some_there : (length payload == 0) ≡ false = ground arith in
      let room : ltb w.node.max_payload (length payload) ≡ false = ground arith in
      let in_mode : (sender.mode == mode_unreliable) ≡ true = rw mode refl in
      rw (some_there, send_unreliable, room, taken, in_mode, numbered)
        (sent_valid radio (with_state w counted)
          (unreliable_frame channel_id sender.next_tx_seq payload) payload refl refl room short
          (unreliable-valid channel_id sender.next_tx_seq payload small_id small_seq some_bytes
            w.node.max_payload fits))

-- The conditions on a receiver: it takes frames of the sender's address, has the channel open in
-- UNRELIABLE mode, a callback, and room for the message.
pub record IsListening (w : World) (src_mac : List ℕ) (channel_id len : ℕ) : Type 0 where
  pub known : mac_equal src_mac w.node.peer_mac ≡ true
  pub opened : get_channel_mode w.node.state w.node.peer_index channel_id 0 ≡ (ok, mode_unreliable)
  pub on_message : w.node.on_message ≡ true
  pub room : len ≤ w.node.max_payload

on_receive_unreliable :
    (radio : Radio) (w : World) (src_mac payload : List ℕ) (channel_id seq_id now_ms : ℕ)
    → channel_id < 255
    → seq_id < 65536
    → 0 < length payload
    → length payload ≤ max_payload_size
    → IsListening w src_mac channel_id (length payload)
    → let h = frame_header (unreliable_frame channel_id seq_id payload) in
      let state = (unreliable_on_data w.node.state w.node.peer_index channel_id seq_id).1 in
      on_receive radio w src_mac (header_bytes h ++ payload) now_ms
      ≡ (esp_ok, emit (with_state w state) (message src_mac channel_id seq_id payload))
on_receive_unreliable radio w src_mac payload channel_id seq_id now_ms small_id small_seq some_bytes
      short v =
    let h = frame_header (unreliable_frame channel_id seq_id payload) in
    let other : (channel_id == heartbeat_channel) ≡ false = ground arith in
    let valid =
      unreliable-valid channel_id seq_id payload small_id small_seq some_bytes w.node.max_payload
        v.room in
    on_receive_wire radio w src_mac h payload now_ms v.known
      (unreliable-IsHeader channel_id seq_id payload small_id small_seq some_bytes short) refl valid
    ∙ (receive_decoded_unreliable radio w src_mac h payload now_ms v.known other refl refl v.opened
        ∙ rw v.on_message refl)

-- A node sends a message of 1 to 241 bytes, no longer than its `max_payload`, on an UNRELIABLE
-- channel that is open under a number below 255, with a 16-bit counter; and the frame that it hands
-- to its radio arrives at a node that takes frames of this address, has the channel open in the
-- same mode, a callback and room for the message. Then the sender hands exactly one frame to the
-- radio, returns the radio's answer and moves its counter on; and the receiver calls its
-- application back exactly once, with the message byte for byte, under the sender's number.
pub on_receive-send_unreliable :
    (radio radio' : Radio) (sender receiver : World) (channel_id i : ℕ) (payload src_mac : List ℕ)
    (now_ms : ℕ)
    → find_channel_mut sender.node.state sender.node.peer_index channel_id ≡ some i
    → (channel_at sender.node.state sender.node.peer_index i).mode ≡ mode_unreliable
    → (channel_at sender.node.state sender.node.peer_index i).next_tx_seq < 65536
    → channel_id < 255
    → 0 < length payload
    → length payload ≤ max_payload_size
    → length payload ≤ sender.node.max_payload
    → IsListening receiver src_mac channel_id (length payload)
    → let seq_id = (channel_at sender.node.state sender.node.peer_index i).next_tx_seq in
      let frame =
        header_bytes (frame_header (unreliable_frame channel_id seq_id payload)) ++ payload in
      let (erc, sender') = send_unreliable radio sender channel_id payload in
      let (rc, receiver') = on_receive radio' receiver src_mac frame now_ms in
      (erc ≡ radio sender.log sender.node.peer_mac frame)
      × (sender'.log ≡ sender.log ++ (transmitted sender.node.peer_mac frame erc ∷ []))
      × (channel_at sender'.node.state sender'.node.peer_index i
          ≡ record (channel_at sender.node.state sender.node.peer_index i) {
            next_tx_seq = seq_next seq_id;
          })
      × (rc ≡ esp_ok)
      × (receiver'.log ≡ receiver.log ++ (message src_mac channel_id seq_id payload ∷ []))
on_receive-send_unreliable radio radio' sender receiver channel_id i payload src_mac now_ms found
      mode small_seq small_id some_bytes short fits listening =
    let seq_id = (channel_at sender.node.state sender.node.peer_index i).next_tx_seq in
    let sent =
      send_unreliable_sends radio sender channel_id i payload found mode small_id some_bytes fits
        short small_seq in
    let received =
      on_receive_unreliable radio' receiver src_mac payload channel_id seq_id now_ms small_id
        small_seq some_bytes short listening in
    rw (sent, received)
      (
        refl,
        refl,
        channel_at-put_channel sender.node.state sender.node.peer_index channel_id i found _,
        refl,
        refl,
      )
