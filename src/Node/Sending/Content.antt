-- ===== src/Node/Sending/Content.antt =====
-- What a successful `relinow_send_reliable` has put on the air.
use relinow.Prelude.{
  ℕ, suc, ◌≤◌, ◌<◌, ◌≡◌, refl, sym, ap, ◌∙◌, inl, inr, List, [], ◌∷◌, ◌++◌, some, Bool, true, false,
  not, ◌||◌, ◌==◌, if◌then◌else◌, ltb, arith, length, take, drop, set, take-append-drop, Bool-cases,
  Option-cases,
}
use mathlib.Core.List.{append-nil, append_assoc}
use relinow.Packet.{Header, header_bytes, header_size, mode_reliable, validate_header}
use relinow.Reliable.{TxEvent, tx_new, max_pending}
use relinow.State.Lookup.{channel_at, get_channel_mode}
use relinow.State.ReliableMode.{reliable_send}
use relinow.Node.Types.{
  EspErr, esp_ok, Effect, transmitted, message, tx_event, peer_timeout, Radio, World,
  max_payload_size,
}
use relinow.Node.Setup.{is_state_ok}
use relinow.Node.Caches.{
  tx_cache_alloc, fragment_tx_track, find_channel_state, count_free_pending, count_free_tx_cache,
}
use relinow.Node.Frames.{Outgoing, frame_header, send_frame}
use relinow.Node.Frames.Wire.{ok_or_not, sent_valid, sent_over, sent_invalid}
use relinow.Node.Sending.{
  is_new, is_esp_ok, unset_tx, with_state, report, transmit, cached, data_frame, fragment_len,
  fragment_flags, fragment_count, send_fragment, send_fragments, send_whole, send_split,
  send_reliable,
}

-- The payloads of the frames sent so far, one after the other.
unfoldable pub sent_bytes : List Effect → List ℕ
sent_bytes [] = []
sent_bytes (transmitted mac frame erc ∷ log) = drop header_size frame ++ sent_bytes log
sent_bytes (message mac channel_id seq_id payload ∷ log) = sent_bytes log
sent_bytes (tx_event event seq_id ∷ log) = sent_bytes log
sent_bytes (peer_timeout mac ∷ log) = sent_bytes log

sent_bytes-append : (xs ys : List Effect) → sent_bytes (xs ++ ys) ≡ sent_bytes xs ++ sent_bytes ys
unfolding sent_bytes
sent_bytes-append [] ys = refl
sent_bytes-append (transmitted mac frame erc ∷ xs) ys =
    ap (λ (l : List ℕ). drop header_size frame ++ l) (sent_bytes-append xs ys)
    ∙ sym (append_assoc (drop header_size frame) (sent_bytes xs) (sent_bytes ys))
sent_bytes-append (message mac channel_id seq_id payload ∷ xs) ys = sent_bytes-append xs ys
sent_bytes-append (tx_event event seq_id ∷ xs) ys = sent_bytes-append xs ys
sent_bytes-append (peer_timeout mac ∷ xs) ys = sent_bytes-append xs ys

-- A step that, if it succeeds, has sent these bytes.
abbrev Sends : World → List ℕ → EspErr × World → Type 0
Sends w bytes r = r.0 ≡ esp_ok → sent_bytes r.1.log ≡ sent_bytes w.log ++ bytes

no_bytes : (xs : List ℕ) → (length xs == 0) ≡ true → xs ≡ []
no_bytes [] h = refl
no_bytes (x ∷ xs) h = absurd (ground arith)

if_Sends :
    (w : World) (bytes : List ℕ) (b : Bool) (x y : EspErr × World)
    → Sends w bytes x
    → Sends w bytes y
    → Sends w bytes (if b then x else y)
if_Sends w bytes true x y p q = p
if_Sends w bytes false x y p q = q

is_esp_ok_eq : (e : EspErr) → is_esp_ok e ≡ true → e ≡ esp_ok
is_esp_ok_eq e h = ground arith

emitted :
    (w : World) (h : Header) (payload mac : List ℕ) (erc : EspErr)
    → sent_bytes (w.log ++ (transmitted mac (header_bytes h ++ payload) erc ∷ []))
      ≡ sent_bytes w.log ++ payload
unfolding sent_bytes header_bytes
emitted w h payload mac erc =
    sent_bytes-append w.log (transmitted mac (header_bytes h ++ payload) erc ∷ [])
    ∙ ap (λ (l : List ℕ). sent_bytes w.log ++ l) (append-nil payload)

reported :
    (w : World) (event : TxEvent) (seq_id : ℕ)
    → sent_bytes (report w event seq_id).log ≡ sent_bytes w.log
unfolding sent_bytes
reported w event seq_id = elim (Bool-cases w.node.on_tx_event) [
  | inl on ↦
      rw on (sent_bytes-append w.log (tx_event event seq_id ∷ []) ∙ append-nil (sent_bytes w.log))
  | inr off ↦ rw off refl
]

module _ (radio : Radio) where
  send_frame-Sends :
      (w : World) (out : Outgoing) (payload : List ℕ)
      → out.payload ≡ some payload
      → length payload ≡ out.payload_len
      → Sends w payload (send_frame radio w out)
  unfolding send_frame
  send_frame-Sends w out payload given len =
      elim (Bool-cases (ltb w.node.max_payload out.payload_len)) [
        | inl large ↦ rw (send_frame, large) (λ e. absurd (ground arith))
        | inr fits ↦ elim (ok_or_not (validate_header (frame_header out) w.node.max_payload)) [
          | inl valid ↦ elim (Bool-cases (ltb max_payload_size out.payload_len)) [
            | inr not_over ↦
                let short : out.payload_len ≤ max_payload_size = ground arith in
                rw (sent_valid radio w out payload given len fits short valid)
                  (λ e. emitted w (frame_header out) payload w.node.peer_mac _)
            | inl over ↦
                let long : max_payload_size < out.payload_len = ground arith in
                rw (sent_over radio w out fits long valid) (λ e. absurd (ground arith))
          ]
          | inr bad ↦ rw (sent_invalid radio w out bad) (λ e. absurd (ground arith))
        ]
      ]

  transmit-Sends :
      (w : World) (channel_id seq_id flags : ℕ) (bytes : List ℕ)
      → Sends w bytes (transmit radio w channel_id (cached seq_id flags bytes))
  unfolding transmit
  transmit-Sends w channel_id seq_id flags bytes =
      let out = data_frame mode_reliable channel_id flags seq_id bytes (length bytes) in
      let step = send_frame-Sends w out bytes refl refl in
      let r = send_frame radio w out in
      elim (Bool-cases (is_esp_ok r.0)) [
        | inr failed ↦ rw (transmit, failed) step
        | inl sent ↦
            rw (transmit, sent) (λ e. reported r.1 tx_new seq_id ∙ step (is_esp_ok_eq r.0 sent))
      ]

  send_fragment-Sends :
      (w : World) (channel_id : ℕ) (cursor : List ℕ) (now_ms : ℕ)
      → Sends w
          (take (fragment_len w.node cursor) cursor)
          (send_fragment radio w channel_id cursor now_ms)
  unfolding send_fragment
  send_fragment-Sends w channel_id cursor now_ms =
      let r = reliable_send w.node.state w.node.peer_index channel_id now_ms unset_tx in
      let w' = with_state w r.1 in
      let bytes = take (fragment_len w.node cursor) cursor in
      if_Sends w bytes (not (is_state_ok r.0) || not (is_new r.2.event)) _ _
        (λ e. absurd (ground arith))
        (elim (Option-cases (tx_cache_alloc w'.node)) [
          | inl full ↦ rw full (λ e. absurd (ground arith))
          | inr (j, free) ↦
              let slot = cached r.2.seq_id (fragment_flags w'.node cursor) bytes in
              let stored = record w'.node { tx_cache = set w'.node.tx_cache j slot } in
              rw free (
                transmit-Sends (record w' { node = fragment_tx_track stored r.2.seq_id }) channel_id
                  r.2.seq_id (fragment_flags w'.node cursor) bytes)
        ])

  send_fragments-Sends :
      (fuel : ℕ) (w : World) (channel_id : ℕ) (cursor : List ℕ) (now_ms : ℕ)
      → Sends w cursor (send_fragments fuel radio w channel_id cursor now_ms)
  unfolding send_fragments
  send_fragments-Sends ℕ.zero w channel_id cursor now_ms = λ e. absurd (ground arith)
  send_fragments-Sends (suc fuel) w channel_id cursor now_ms =
      let r = send_fragment radio w channel_id cursor now_ms in
      let n = fragment_len w.node cursor in
      elim (Bool-cases (length cursor == 0)) [
        | inl none_left ↦
            rw (send_fragments, none_left)
              (λ e. sym (
                ap (λ (l : List ℕ). sent_bytes w.log ++ l) (no_bytes cursor none_left)
                ∙ append-nil (sent_bytes w.log)))
        | inr some_left ↦ elim (Bool-cases (is_esp_ok r.0)) [
          | inl sent ↦
              let step = send_fragment-Sends w channel_id cursor now_ms (is_esp_ok_eq r.0 sent) in
              rw (send_fragments, some_left, sent)
                (λ e.
                  send_fragments-Sends fuel r.1 channel_id (drop n cursor) now_ms e
                  ∙ (ap (λ (l : List ℕ). l ++ drop n cursor) step
                      ∙ (append_assoc (sent_bytes w.log) (take n cursor) (drop n cursor)
                          ∙ ap (λ (l : List ℕ). sent_bytes w.log ++ l)
                              (take-append-drop n cursor))))
          | inr failed ↦ rw (send_fragments, some_left, failed) (λ e. absurd (ground arith))
        ]
      ]

  send_whole-Sends :
      (w : World) (channel_id : ℕ) (payload : List ℕ) (now_ms : ℕ)
      → Sends w payload (send_whole radio w channel_id payload now_ms)
  unfolding send_whole
  send_whole-Sends w channel_id payload now_ms =
      let r = reliable_send w.node.state w.node.peer_index channel_id now_ms unset_tx in
      let w' = with_state w r.1 in
      if_Sends w payload (not (is_state_ok r.0) || not (is_new r.2.event)) _ _
        (λ e. absurd (ground arith))
        (elim (Option-cases (tx_cache_alloc w'.node)) [
          | inl full ↦ rw full (λ e. absurd (ground arith))
          | inr (j, free) ↦
              let slot = cached r.2.seq_id 0 payload in
              let stored = record w'.node { tx_cache = set w'.node.tx_cache j slot } in
              rw free (transmit-Sends (record w' { node = stored }) channel_id r.2.seq_id 0 payload)
        ])

  send_split-Sends :
      (w : World) (channel_id i : ℕ) (payload : List ℕ) (now_ms : ℕ)
      → Sends w payload (send_split radio w channel_id i payload now_ms)
  unfolding send_split
  send_split-Sends w channel_id i payload now_ms =
      let n = fragment_count (length payload) w.node.max_payload in
      if_Sends w payload (ltb max_pending n) _ _ (λ e. absurd (ground arith))
        (if_Sends w payload
          (ltb (count_free_pending (channel_at w.node.state w.node.peer_index i)) n
            || ltb (count_free_tx_cache w.node) n)
          _ _ (λ e. absurd (ground arith))
          (send_fragments-Sends (suc (length payload))
            (record w {
              node = record w.node { fragmented_tx_active = true; fragmented_tx_seq = [] };
            })
            channel_id payload now_ms))

-- A message that `relinow_send_reliable` takes is sent in full: where the call succeeds, the
-- payloads of the frames that it has sent, whether one frame or many fragments, make up the
-- message, byte for byte and in order.
pub send_reliable_sends :
    (radio : Radio) (w : World) (channel_id : ℕ) (payload : List ℕ) (now_ms : ℕ)
    → (send_reliable radio w channel_id payload now_ms).0 ≡ esp_ok
    → sent_bytes (send_reliable radio w channel_id payload now_ms).1.log
      ≡ sent_bytes w.log ++ payload
unfolding send_reliable
send_reliable_sends radio w channel_id payload now_ms =
    let m = get_channel_mode w.node.state w.node.peer_index channel_id 0 in
    if_Sends w payload (length payload == 0) _ _ (λ e. absurd (ground arith))
      (if_Sends w payload (not (is_state_ok m.0) || not (m.1 == mode_reliable)) _ _
        (λ e. absurd (ground arith))
        (elim (Option-cases (find_channel_state w.node channel_id)) [
          | inl absent ↦ rw absent (λ e. absurd (ground arith))
          | inr (i, there) ↦ rw there (
              if_Sends w payload w.node.fragmented_tx_active _ _ (λ e. absurd (ground arith))
                (if_Sends w payload (ltb w.node.max_payload (length payload)) _ _
                  (send_split-Sends radio w channel_id i payload now_ms)
                  (send_whole-Sends radio w channel_id payload now_ms)))
        ]))
