-- ===== src/Examples/Firmware/Callbacks.antt =====
-- The callbacks of examples/esp32_a and examples/esp32_b: what the radio and the library call, and
-- the lines that they log.
use Prim.Native.String.{String}
use relinow.Prelude.{ℕ, List, [], ◌∷◌, Option, none, some, Bool, ◌==◌, ltb, if◌then◌else◌, length}
use relinow.Packet
use relinow.Packet.{
  Header, header_size, type_data, type_ack, type_nack, type_ping, type_pong, decode_header,
}
use relinow.Reliable.{TxEvent, tx_new, tx_retransmit, tx_failed}
use relinow.Node.Types.{EspErr, Radio, World, max_payload_size}
use relinow.Node.Setup.{on_send_status}
use relinow.Node.Sending.{is_esp_ok}
use relinow.Node.Receiving.{unset_header, with_node, on_receive}

-- The lines of the log, with the values that they print.
pub data Line : Type 0 where
  rx_message : (src_mac : List ℕ) (channel_id seq_id : ℕ) (payload : List ℕ) → Line
  tx_line : (what : String) (seq_id : ℕ) → Line
  tx_status : (status : String) (dst_mac : List ℕ) → Line
  raw_short : (len : ℕ) (src_mac : List ℕ) → Line
  raw_decode_fail : Packet.Err → (len : ℕ) (src_mac : List ℕ) → Line
  raw_frame : (type : String) → Header → (src_mac : List ℕ) → Line
  on_receive_rc : EspErr → Line

-- `on_message`
unfoldable pub on_message : List ℕ → ℕ → ℕ → List ℕ → Line
on_message src_mac channel_id seq_id payload = rx_message src_mac channel_id seq_id payload

-- `on_tx_event`
unfoldable pub on_tx_event : TxEvent → ℕ → List Line
on_tx_event tx_new seq_id = tx_line "TX new" seq_id ∷ []
on_tx_event tx_retransmit seq_id = tx_line "TX retransmit" seq_id ∷ []
on_tx_event tx_failed seq_id = tx_line "TX failed" seq_id ∷ []
on_tx_event _ seq_id = []

-- `send_status_str`, for whether the status is `ESP_NOW_SEND_SUCCESS`.
unfoldable pub send_status_str : Bool → String
send_status_str success = if success then "SUCCESS" else "FAIL"

-- `frame_type_str`
unfoldable pub frame_type_str : ℕ → String
frame_type_str type =
    if type == type_data
    then "DATA"
    else if type == type_ack
    then "ACK"
    else if type == type_nack
    then "NACK"
    else if type == type_ping
    then "PING"
    else if type == type_pong
    then "PONG"
    else "UNKNOWN"

-- `log_raw_rx_frame`
unfoldable pub log_raw_rx_frame : List ℕ → List ℕ → Line
unfolding frame_type_str
log_raw_rx_frame src_mac bytes =
    if ltb (length bytes) header_size
    then raw_short (length bytes) src_mac
    else let (prc, header) = decode_header bytes max_payload_size unset_header in
      elim prc [
        | Packet.ok ↦ raw_frame (frame_type_str header.type) header src_mac
        | err ↦ raw_decode_fail err (length bytes) src_mac
      ]

-- What a callback leaves: the node's world, and the lines it has logged.
abbrev pub Logged : Type 0
Logged = World × List Line

-- `send_cb`, with the address, if there is one, and whether the lock was free.
unfoldable pub send_cb : World → Option (List ℕ) → Bool → Bool → Logged
unfolding send_status_str
send_cb w none success lock = (w, [])
send_cb w (some dst_mac) success lock = (
  if lock then with_node w (on_send_status w.node dst_mac) else w,
  tx_status (send_status_str success) dst_mac ∷ [],
)

-- The part of `recv_cb` that holds the lock.
unfoldable pub recv_locked : Radio → World → List ℕ → List ℕ → ℕ → Logged
unfolding log_raw_rx_frame
recv_locked radio w src_mac bytes now_ms =
    let (rc, w') = on_receive radio w src_mac bytes now_ms in
    (w', log_raw_rx_frame src_mac bytes ∷ (if is_esp_ok rc then [] else on_receive_rc rc ∷ []))

-- `recv_cb`, with the sender's address and the data, each unless it is a null pointer; the data are
-- its `len` bytes, none where `len` is not positive.
unfoldable pub recv_cb : Radio → World → Option (List ℕ) → Option (List ℕ) → Bool → ℕ → Logged
unfolding recv_locked
recv_cb radio w (some src_mac) (some bytes) lock now_ms =
    if length bytes == 0
    then (w, [])
    else if lock
    then recv_locked radio w src_mac bytes now_ms
    else (w, [])
recv_cb radio w _ _ lock now_ms = (w, [])
