-- ===== src/Node/EndToEnd/Confirmed.antt =====
-- One RELIABLE message from `relinow_send_reliable` of a node to the application of another, and
-- its acknowledgment back.
use relinow.Prelude.{
  ℕ, ◌+◌, ◌<◌, ◌≡◌, refl, sym, subst, ap, ◌∙◌, inl, inr, Bool, List, [], ◌∷◌, ◌++◌, none, true,
  false, ◌==◌, arith, length, Bool-cases, to_nat,
}
use mathlib.Core.List.{append_assoc}
use relinow.Packet.{header_bytes}
use relinow.Reliable.{tx_new}
use relinow.State.Peers.{mac_equal}
use relinow.State.ReliableMode.Outcomes.{ctx_at, flying}
use relinow.Node.Types.{EspErr, Effect, esp_ok, transmitted, tx_event, Radio, Node, World, emit}
use relinow.Node.Caches.{tx_cache_find, tx_cache_alloc}
use relinow.Node.Sending.{report, send_reliable, cached}
use relinow.Node.Receiving.{on_receive}
use relinow.Node.Polling.SentWhole.{report-node}
use relinow.Node.EndToEnd.Headers.{ack_header, data_header}
use relinow.Node.EndToEnd.Answering.{IsExpecting, IsAnswered, on_receive-IsAnswered}
use relinow.Node.EndToEnd.Dispatch.{IsClear, next, sent, prepared, dispatched, send_reliable_whole}
use relinow.Node.EndToEnd.Confirming.{IsWaiting, on_receive-IsConfirmed}

-- What the application learns of a new frame.
abbrev pub told_new : Bool → ℕ → List Effect
told_new true q = tx_event tx_new q ∷ []
told_new false q = []

report-log :
    (w : World) (effect : Effect) (q : ℕ)
    → (report (emit w effect) tx_new q).log ≡ w.log ++ (effect ∷ told_new w.node.on_tx_event q)
report-log w effect q = elim (Bool-cases w.node.on_tx_event) [
  | inl on ↦ rw on (append_assoc w.log (effect ∷ []) _)
  | inr off ↦ rw off refl
]

module _ (radio : Radio) (w : World) (src_mac : List ℕ) (channel_id place : ℕ) (payload : List ℕ)
    (now_ms : ℕ) (small_id : channel_id < 255) (v : IsClear w channel_id place payload)
    (known : mac_equal src_mac w.node.peer_mac ≡ true) where
  abbrev q : ℕ
  q = next radio w channel_id place payload now_ms small_id v

  abbrev after : World
  after = dispatched radio w channel_id place payload now_ms small_id v

  after-node : after.node ≡ (prepared radio w channel_id place payload now_ms small_id v).node
  after-node = report-node _ q

  dispatched-IsWaiting : IsWaiting after.node src_mac channel_id q place
  unfolding tx_cache_find tx_cache_alloc
  dispatched-IsWaiting =
      let sent_ok = sent radio w channel_id place payload now_ms small_id v in
      subst (λ (node : Node). IsWaiting node src_mac channel_id q place) (sym after-node)
        (record {
          known = known;
          held = sent_ok.held;
          cache = w.node.tx_cache;
          cache_slot = v.cache_slot;
          slot = cached q 0 payload;
          number = refl;
          in_use = refl;
          free = v.cache_free;
          absent = v.absent;
          stored = refl;
          idle = v.idle;
        })

-- How a message fares: what the sender's call, the receiver's and the acknowledgment's arrival do.
pub record IsDelivered (radio radio' : Radio) (sender receiver : World) (src_mac : List ℕ)
    (channel_id q place place' queue_slot : ℕ) (payload : List ℕ)
    (sending answering confirming : EspErr × World) : Type 0 where
  pub sent : sending.0 ≡ esp_ok
  pub log :
      let frame = header_bytes (data_header channel_id q payload) ++ payload in
      sending.1.log
      ≡ sender.log
        ++ (transmitted sender.node.peer_mac frame esp_ok ∷ told_new sender.node.on_tx_event q)
  pub answered : IsAnswered radio' receiver src_mac channel_id q place' queue_slot payload answering
  pub confirmed : confirming.0 ≡ esp_ok
  pub quiet : confirming.1.log ≡ sending.1.log
  pub flights :
      (s : ℕ)
      → flying confirming.1.node.state confirming.1.node.peer_index place s
        ≡ flying sender.node.state sender.node.peer_index place s
  pub gone : tx_cache_find confirming.1.node q ≡ none

-- The number that a node's next message gets on the channel at a place, and the message's frame.
abbrev pub next_number : World → ℕ → ℕ
next_number w place = (ctx_at w.node.state w.node.peer_index place).next_tx_seq

abbrev pub message_frame : ℕ → ℕ → List ℕ → List ℕ
message_frame channel_id q payload = header_bytes (data_header channel_id q payload) ++ payload

-- One message of 1 to 241 bytes, no longer than the sender's limit, goes over a RELIABLE channel of
-- a number below 255.
-- The sender: the channel has its mirror; its queue and the transmission cache, which all channels
-- share, have a free entry; the cache does not hold the channel's next number, be it for another
-- channel; no fragmented message is under way; the radio accepts the frame.
-- The receiver: it takes frames of this address and has the channel open in RELIABLE mode; the
-- number is the expected one or the first it ever gets on the channel, and no frame of the number
-- after it waits in the reorder buffer; the channel's receive queue and the receive cache have a
-- free entry, and the cache does not hold the number; the message is within its limit; and a
-- message callback is set.
-- The acknowledgment that comes back arrives at the sender. Then the send succeeds, puts one frame on the air and reports the number as
-- new if there is a callback; the receiver acknowledges this number and calls its application back
-- once, with the message byte for byte, and its window moves on by one; and the acknowledgment, with
-- no effect to be seen, leaves in flight at the sender exactly what was before, and its cache
-- without the frame, so that it is not sent again.
pub on_receive-send_reliable :
    (radio radio' : Radio) (sender receiver : World) (src_mac dst_mac : List ℕ)
    (channel_id place place' queue_slot : ℕ) (payload : List ℕ) (sent_ms received_ms acked_ms : ℕ)
    (small_id : channel_id < 255) (v : IsClear sender channel_id place payload)
    (e : IsExpecting receiver src_mac channel_id
      (next_number sender place)
      (length payload)
      place'
      queue_slot)
    → mac_equal dst_mac sender.node.peer_mac ≡ true
    → radio sender.log sender.node.peer_mac
        (message_frame channel_id (next_number sender place) payload)
      ≡ esp_ok
    → let q = next_number sender place in
      let frame = message_frame channel_id q payload in
      let ack = header_bytes (ack_header channel_id q) in
      let sending = send_reliable radio sender channel_id payload sent_ms in
      IsDelivered radio radio' sender receiver src_mac channel_id q place place' queue_slot payload
        sending
        (on_receive radio' receiver src_mac frame received_ms)
        (on_receive radio sending.1 dst_mac ack acked_ms)
on_receive-send_reliable radio radio' sender receiver src_mac dst_mac channel_id place place'
      queue_slot payload sent_ms received_ms acked_ms small_id v e known accepted =
    let q = next_number sender place in
    let frame = message_frame channel_id q payload in
    let after = dispatched radio sender channel_id place payload sent_ms small_id v in
    let same = after-node radio sender dst_mac channel_id place payload sent_ms small_id v known in
    let waiting =
      dispatched-IsWaiting radio sender dst_mac channel_id place payload sent_ms small_id v known in
    let acked =
      on_receive-IsConfirmed radio after dst_mac channel_id q place acked_ms small_id
        v.held.mirror.valid.next waiting in
    let before = sent radio sender channel_id place payload sent_ms small_id v in
    let flown : (s : ℕ)
        → flying after.node.state after.node.peer_index place s
          ≡ flying sender.node.state sender.node.peer_index place s + to_nat (q == s) =
      λ s.
        ap (λ (node : Node). flying node.state node.peer_index place s) same ∙ before.flights s in
    rw (send_reliable_whole radio sender channel_id place payload sent_ms small_id v accepted)
      (record {
        sent = refl;
        log =
            report-log (prepared radio sender channel_id place payload sent_ms small_id v)
              (transmitted sender.node.peer_mac frame esp_ok) q;
        answered =
            on_receive-IsAnswered radio' receiver src_mac channel_id q place' queue_slot payload
              received_ms small_id (omega (arith, v.short)) e;
        confirmed = acked.success;
        quiet = acked.log;
        flights = λ s. acked.flights s ∙ omega (arith, flown s);
        gone = acked.gone;
      })
