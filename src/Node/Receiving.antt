-- ===== src/Node/Receiving.antt =====
-- `relinow_on_receive`: a frame from the radio, up to the application's callback.
pub mod Losses
pub mod Reassembly
use relinow.Prelude.{
  ℕ, ◌+◌, List, [], ◌∷◌, ◌++◌, none, some, true, false, not, ◌||◌, ◌==◌, ltb, if◌then◌else◌, length,
  get_or, set, take, drop, u32,
}
use relinow.Packet
use relinow.Packet.{
  Header, header_size, mode_reliable, mode_unreliable, mode_priority, type_data, type_ack,
  type_ping, type_pong, flag_fragment, flag_last_fragment, heartbeat_channel, has_flag,
  decode_header,
}
use relinow.Reliable.{RxResult, rx_delivered}
use relinow.State.Lookup.{get_channel_mode}
use relinow.State.Peers.{mac_equal}
use relinow.State.ReliableMode.{reliable_on_ack, reliable_on_data}
use relinow.State.OtherModes.{unreliable_on_data, priority_on_data}
use relinow.State.Heartbeat.{on_pong}
use relinow.Node.Types.{
  EspErr, esp_ok, esp_fail, invalid_arg, message, Radio, Node, World, Cached, zero_cached, emit,
  max_reassembly,
}
use relinow.Node.Caches.{
  tx_cache_remove, rx_cache_find, rx_cache_alloc, rx_cache_remove, fragment_tx_on_ack,
  reassembly_reset,
}
use relinow.Node.Frames.{Outgoing, send_frame}
use relinow.Node.Setup.{is_state_ok}
use relinow.Node.Sending.{with_state}

-- What the uninitialised locals `header` and `rx` hold; they are read only once stored to.
abbrev pub unset_header : Header
unset_header = record {
  version = 0;
  mode = 0;
  type = 0;
  flags = 0;
  seq_id = 0;
  ack_id = 0;
  channel_id = 0;
  payload_len = 0;
}

abbrev pub unset_rx : RxResult
unset_rx = record { status = rx_delivered; delivered = []; ack_id = 0 }

-- A frame with no payload.
abbrev pub empty_frame : ℕ → ℕ → ℕ → ℕ → Outgoing
empty_frame mode channel_id type ack_id = record {
  mode = mode;
  channel_id = channel_id;
  type = type;
  flags = 0;
  seq_id = 0;
  ack_id = ack_id;
  payload = none;
  payload_len = 0;
}

-- `if (node->on_message != 0) node->on_message(...)`
abbrev pub deliver : World → List ℕ → ℕ → ℕ → List ℕ → World
deliver w src_mac channel_id seq_id payload =
    if w.node.on_message then emit w (message src_mac channel_id seq_id payload) else w

abbrev pub with_node : World → Node → World
with_node w node = record w { node = node }

-- The branch for the heartbeat channel.
unfoldable pub receive_heartbeat : Radio → World → Header → World
receive_heartbeat radio w header =
    if header.type == type_ping
    then (send_frame radio w (empty_frame header.mode heartbeat_channel type_pong header.seq_id)).1
    else if header.type == type_pong
    then with_state w (on_pong w.node.state w.node.peer_index).1
    else w

-- The branch for UNRELIABLE frames.
unfoldable pub receive_unreliable : World → List ℕ → Header → List ℕ → World
receive_unreliable w src_mac header payload =
    if not (header.type == type_data)
    then w
    else let state =
        (unreliable_on_data w.node.state w.node.peer_index header.channel_id header.seq_id).1 in
      deliver (with_state w state) src_mac header.channel_id header.seq_id payload

-- The branch for PRIORITY frames.
unfoldable pub receive_priority : World → List ℕ → Header → List ℕ → EspErr × World
receive_priority w src_mac header payload =
    if not (header.type == type_data)
    then (esp_ok, w)
    else let (src, state, should_deliver) =
        priority_on_data w.node.state w.node.peer_index header.channel_id header.seq_id false in
      let w' = with_state w state in
      if not (is_state_ok src)
      then (esp_fail, w')
      else if should_deliver
      then (esp_ok, deliver w' src_mac header.channel_id header.seq_id payload)
      else (esp_ok, w')

-- The branch for acknowledgments on a RELIABLE channel.
unfoldable pub receive_ack : World → Header → ℕ → World
receive_ack w header now_ms =
    let (src, state) =
      reliable_on_ack w.node.state w.node.peer_index header.channel_id header.ack_id now_ms in
    let w' = with_state w state in
    if is_state_ok src
    then with_node w' (fragment_tx_on_ack (tx_cache_remove w'.node header.ack_id) header.ack_id)
    else w'

-- A DATA frame is stored in the receive cache, unless its number is there or no slot is free.
unfoldable pub cache_frame : Node → Header → List ℕ → Node
cache_frame node header payload = elim (rx_cache_find node header.seq_id) [
  | some i ↦ node
  | none ↦ elim (rx_cache_alloc node) [
    | none ↦ node
    | some i ↦
        let slot : Cached = record {
          in_use = true;
          seq_id = header.seq_id;
          flags = header.flags;
          payload_len = header.payload_len;
          payload = take header.payload_len payload;
        } in
        record node { rx_cache = set node.rx_cache i slot }
  ]
]

-- The reassembly buffer, opened by the first fragment.
abbrev pub open_reassembly : Node → Cached → ℕ → Node
open_reassembly node slot now_ms = if node.reassembly_active then node else record node {
  reassembly_active = true;
  reassembly_first_seq = slot.seq_id;
  reassembly_buf = [];
  reassembly_start_ms = now_ms;
}

-- A delivered fragment extends the message in the open buffer of `node`, and the last one delivers
-- it.
unfoldable pub extend_message : World → List ℕ → ℕ → Cached → Node → World
extend_message w src_mac channel_id slot node =
    let combined_len = u32 (length node.reassembly_buf + slot.payload_len) in
    if ltb max_reassembly combined_len
    then with_node w (reassembly_reset node)
    else let extended =
        if ltb 0 slot.payload_len
        then record node {
          reassembly_buf = node.reassembly_buf ++ take slot.payload_len slot.payload;
        }
        else node in
      let w' = with_node w extended in
      if not (has_flag slot.flags flag_last_fragment)
      then w'
      else let told =
          deliver w' src_mac channel_id extended.reassembly_first_seq extended.reassembly_buf in
        with_node told (reassembly_reset told.node)

-- The branch for a delivered fragment.
unfoldable pub deliver_fragment : World → List ℕ → ℕ → Cached → ℕ → World
unfolding extend_message
deliver_fragment w src_mac channel_id slot now_ms =
    extend_message w src_mac channel_id slot (open_reassembly w.node slot now_ms)

-- A delivered frame that is a whole message; an unfinished reassembly is given up.
unfoldable pub deliver_whole : World → List ℕ → ℕ → Cached → World
deliver_whole w src_mac channel_id slot =
    let node = if w.node.reassembly_active then reassembly_reset w.node else w.node in
    deliver (with_node w node) src_mac channel_id slot.seq_id slot.payload

-- One round of the delivery loop.
unfoldable pub deliver_one : World → List ℕ → ℕ → ℕ → ℕ → World
deliver_one w src_mac channel_id now_ms seq_id = elim (rx_cache_find w.node seq_id) [
  | none ↦ w
  | some i ↦
      let slot = get_or w.node.rx_cache i zero_cached in
      let told =
        if has_flag slot.flags flag_fragment
        then deliver_fragment w src_mac channel_id slot now_ms
        else deliver_whole w src_mac channel_id slot in
      with_node told (rx_cache_remove told.node slot.seq_id)
]

-- The delivery loop, over the numbers that the reliable layer released.
unfoldable pub deliver_all : World → List ℕ → ℕ → ℕ → List ℕ → World
deliver_all w src_mac channel_id now_ms [] = w
deliver_all w src_mac channel_id now_ms (seq_id ∷ delivered) =
    deliver_all (deliver_one w src_mac channel_id now_ms seq_id) src_mac channel_id now_ms delivered

-- The branch for DATA on a RELIABLE channel.
unfoldable pub receive_data : Radio → World → List ℕ → Header → List ℕ → ℕ → EspErr × World
receive_data radio w src_mac header payload now_ms =
    let stored = with_node w (cache_frame w.node header payload) in
    let (src, state, rx) =
      reliable_on_data stored.node.state stored.node.peer_index header.channel_id header.seq_id
        unset_rx in
    let w' = with_state stored state in
    if not (is_state_ok src)
    then (esp_fail, w')
    else let acked =
        (send_frame radio w' (empty_frame mode_reliable header.channel_id type_ack rx.ack_id)).1 in
      (esp_ok, deliver_all acked src_mac header.channel_id now_ms rx.delivered)

-- The branches of `relinow_on_receive` by mode, once the channel is known to be open in that mode.
unfoldable pub receive_channel : Radio → World → List ℕ → Header → List ℕ → ℕ → EspErr × World
unfolding receive_unreliable receive_priority receive_ack receive_data
receive_channel radio w src_mac header payload now_ms =
    if header.mode == mode_unreliable
    then (esp_ok, receive_unreliable w src_mac header payload)
    else if header.mode == mode_priority
    then receive_priority w src_mac header payload
    else if not (header.mode == mode_reliable)
    then (esp_ok, w)
    else if header.type == type_ack
    then (esp_ok, receive_ack w header now_ms)
    else if header.type == type_data
    then receive_data radio w src_mac header payload now_ms
    else (esp_ok, w)

-- The part of `relinow_on_receive` behind the header's decoding.
unfoldable pub receive_decoded : Radio → World → List ℕ → Header → List ℕ → ℕ → EspErr × World
unfolding receive_heartbeat receive_channel
receive_decoded radio w src_mac header payload now_ms =
    if header.channel_id == heartbeat_channel
    then (esp_ok, receive_heartbeat radio w header)
    else let (src, channel_mode) =
        get_channel_mode w.node.state w.node.peer_index header.channel_id 0 in
      if not (is_state_ok src) || not (channel_mode == header.mode)
      then (esp_ok, w)
      else receive_channel radio w src_mac header payload now_ms

-- `relinow_on_receive`
unfoldable pub on_receive : Radio → World → List ℕ → List ℕ → ℕ → EspErr × World
unfolding receive_decoded
on_receive radio w src_mac frame now_ms =
    if ltb (length frame) header_size
    then (invalid_arg, w)
    else if not (mac_equal src_mac w.node.peer_mac)
    then (esp_ok, w)
    else let (prc, header) = decode_header frame w.node.max_payload unset_header in
      elim prc [
        | Packet.ok ↦ receive_decoded radio w src_mac header (drop header_size frame) now_ms
        | _ ↦ (esp_ok, w)
      ]
