-- ===== src/Node/Sending.antt =====
-- `relinow_send_reliable`, `relinow_send_unreliable` and `relinow_send_priority`.
pub mod Fragments
pub mod Fuel
pub mod Content
use relinow.Prelude.{
  ℕ, suc, ◌+◌, ◌-◌, ◌/◌, List, [], ◌∷◌, Option, none, some, Bool, true, false, not, ◌&&◌, ◌||◌,
  ◌==◌, ltb, if◌then◌else◌, length, set, take, drop, min, u8, bit_or,
}
use relinow.Packet.{
  mode_reliable, mode_unreliable, mode_priority, type_data, flag_fragment, flag_last_fragment,
}
use relinow.Reliable.{TxEvent, TxResult, tx_none, tx_new, max_pending}
use relinow.State.Types.{State, ok}
use relinow.State.Lookup.{channel_at, get_channel_mode}
use relinow.State.ReliableMode.{reliable_send}
use relinow.State.OtherModes.{unreliable_send, priority_send, Sent}
use relinow.Node.Types.{
  EspErr, esp_ok, esp_fail, invalid_arg, invalid_state, no_mem, out_of_fuel, tx_event, Radio, Node,
  World, Cached, emit,
}
use relinow.Node.Caches.{
  tx_cache_alloc, find_channel_state, count_free_pending, count_free_tx_cache, fragment_tx_track,
}
use relinow.Node.Frames.{Outgoing, send_frame}
use relinow.Node.Setup.{is_state_ok}

abbrev pub is_new : TxEvent → Bool
is_new tx_new = true
is_new _ = false

abbrev pub is_esp_ok : EspErr → Bool
is_esp_ok esp_ok = true
is_esp_ok _ = false

-- What the uninitialised local `tx` holds; it is read only once it has been stored to.
abbrev pub unset_tx : TxResult
unset_tx = record { event = tx_none; seq_id = 0 }

abbrev pub with_state : World → State → World
with_state w state = record w { node = record w.node { state = state } }

-- `if (node->on_tx_event != 0) node->on_tx_event(event, seq_id, ...)`
abbrev pub report : World → TxEvent → ℕ → World
report w event seq_id = if w.node.on_tx_event then emit w (tx_event event seq_id) else w

-- A DATA frame without an acknowledgment.
abbrev pub data_frame : ℕ → ℕ → ℕ → ℕ → List ℕ → ℕ → Outgoing
data_frame mode channel_id flags seq_id payload payload_len = record {
  mode = mode;
  channel_id = channel_id;
  type = type_data;
  flags = flags;
  seq_id = seq_id;
  ack_id = 0;
  payload = some payload;
  payload_len = payload_len;
}

abbrev pub cached : ℕ → ℕ → List ℕ → Cached
cached seq_id flags bytes = record {
  in_use = true;
  seq_id = seq_id;
  flags = flags;
  payload_len = length bytes;
  payload = bytes;
}

-- A frame that has its slot in the transmission cache is sent and reported.
unfoldable pub transmit : Radio → World → ℕ → Cached → EspErr × World
transmit radio w channel_id slot =
    let (erc, sent) =
      send_frame radio w (
        data_frame mode_reliable channel_id slot.flags slot.seq_id slot.payload slot.payload_len) in
    if is_esp_ok erc then (esp_ok, report sent tx_new slot.seq_id) else (erc, sent)

-- The part of `relinow_send_reliable` for a payload that fits one frame.
unfoldable pub send_whole : Radio → World → ℕ → List ℕ → ℕ → EspErr × World
send_whole radio w channel_id payload now_ms =
    let (src, state, tx) =
      reliable_send w.node.state w.node.peer_index channel_id now_ms unset_tx in
    let w' = with_state w state in
    if not (is_state_ok src) || not (is_new tx.event)
    then (esp_fail, w')
    else elim (tx_cache_alloc w'.node) [
      | none ↦ (no_mem, w')
      | some j ↦
          let slot = cached tx.seq_id 0 payload in
          transmit radio
            (record w' { node = record w'.node { tx_cache = set w'.node.tx_cache j slot } })
            channel_id slot
    ]

-- `frag_len` and `frag_flags`
abbrev pub fragment_len : Node → List ℕ → ℕ
fragment_len node cursor =
    if ltb node.max_payload (length cursor) then node.max_payload else length cursor

abbrev pub fragment_flags : Node → List ℕ → ℕ
fragment_flags node cursor =
    if length cursor == fragment_len node cursor
    then u8 (bit_or flag_fragment flag_last_fragment)
    else flag_fragment

-- One round of the fragment loop; it goes on where the result is `esp_ok`.
unfoldable pub send_fragment : Radio → World → ℕ → List ℕ → ℕ → EspErr × World
send_fragment radio w channel_id cursor now_ms =
    let (src, state, tx) =
      reliable_send w.node.state w.node.peer_index channel_id now_ms unset_tx in
    let w' = with_state w state in
    if not (is_state_ok src) || not (is_new tx.event)
    then (
      esp_fail,
      if length w'.node.fragmented_tx_seq == 0
          then record w' { node = record w'.node { fragmented_tx_active = false } }
          else w',
    )
    else elim (tx_cache_alloc w'.node) [
      | none ↦ (no_mem, w')
      | some j ↦
          let slot =
            cached tx.seq_id (fragment_flags w'.node cursor)
              (take (fragment_len w'.node cursor) cursor) in
          let stored = record w'.node { tx_cache = set w'.node.tx_cache j slot } in
          transmit radio (record w' { node = fragment_tx_track stored tx.seq_id }) channel_id slot
    ]

-- The fragment loop: `cursor` is what remains of the payload.
unfoldable pub send_fragments : ℕ → Radio → World → ℕ → List ℕ → ℕ → EspErr × World
send_fragments ℕ.zero radio w channel_id cursor now_ms = (out_of_fuel, w)
send_fragments (suc fuel) radio w channel_id cursor now_ms =
    let (erc, w') = send_fragment radio w channel_id cursor now_ms in
    let rest =
      send_fragments fuel radio w' channel_id (drop (fragment_len w.node cursor) cursor) now_ms in
    elim (length cursor == 0) [
      | true ↦ (esp_ok, w)
      | false ↦ elim (is_esp_ok erc) [ true ↦ rest | false ↦ (erc, w') ]
    ]

-- `fragment_count`, cast to `uint8_t`.
unfoldable pub fragment_count : ℕ → ℕ → ℕ
fragment_count payload_len max_payload = u8 ((payload_len + max_payload - 1) / max_payload)

-- The part of `relinow_send_reliable` for a payload that needs fragments, on the channel of
-- index `i`.
unfoldable pub send_split : Radio → World → ℕ → ℕ → List ℕ → ℕ → EspErr × World
unfolding fragment_count
send_split radio w channel_id i payload now_ms =
    let fragments = fragment_count (length payload) w.node.max_payload in
    if ltb max_pending fragments
    then (no_mem, w)
    else if ltb (count_free_pending (channel_at w.node.state w.node.peer_index i)) fragments
        || ltb (count_free_tx_cache w.node) fragments
    then (no_mem, w)
    else send_fragments (suc (length payload)) radio
        (record w { node = record w.node { fragmented_tx_active = true; fragmented_tx_seq = [] } })
        channel_id payload now_ms

-- `relinow_send_reliable`
unfoldable pub send_reliable : Radio → World → ℕ → List ℕ → ℕ → EspErr × World
unfolding send_split send_whole
send_reliable radio w channel_id payload now_ms =
    let (src, channel_mode) = get_channel_mode w.node.state w.node.peer_index channel_id 0 in
    if length payload == 0
    then (invalid_arg, w)
    else if not (is_state_ok src) || not (channel_mode == mode_reliable)
    then (invalid_state, w)
    else elim (find_channel_state w.node channel_id) [
      | none ↦ (invalid_state, w)
      | some i ↦
          if w.node.fragmented_tx_active
          then (invalid_state, w)
          else if ltb w.node.max_payload (length payload)
          then send_split radio w channel_id i payload now_ms
          else send_whole radio w channel_id payload now_ms
    ]

-- `relinow_send_unreliable`
unfoldable pub send_unreliable : Radio → World → ℕ → List ℕ → EspErr × World
send_unreliable radio w channel_id payload =
    if length payload == 0 || ltb w.node.max_payload (length payload)
    then (invalid_arg, w)
    else let (src, channel_mode) = get_channel_mode w.node.state w.node.peer_index channel_id 0 in
      if not (is_state_ok src) || not (channel_mode == mode_unreliable)
      then (invalid_state, w)
      else let (sent, state, seq_id) =
          unreliable_send w.node.state w.node.peer_index channel_id 0 in
        if not (is_state_ok sent)
        then (esp_fail, with_state w state)
        else send_frame radio (with_state w state)
            (data_frame mode_unreliable channel_id 0 seq_id payload (length payload))

-- `relinow_send_priority`
unfoldable pub send_priority : Radio → World → ℕ → List ℕ → EspErr × World
send_priority radio w channel_id payload =
    if length payload == 0 || ltb w.node.max_payload (length payload)
    then (invalid_arg, w)
    else let (src, channel_mode) = get_channel_mode w.node.state w.node.peer_index channel_id 0 in
      if not (is_state_ok src) || not (channel_mode == mode_priority)
      then (invalid_state, w)
      else let (sent, state, out) =
          priority_send w.node.state w.node.peer_index channel_id
            (record { seq_id = 0; replaced = false; replaced_seq_id = 0 }) in
        if not (is_state_ok sent)
        then (esp_fail, with_state w state)
        else send_frame radio (with_state w state)
            (data_frame mode_priority channel_id 0 out.seq_id payload (length payload))
