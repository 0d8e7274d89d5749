-- ===== src/Node/Polling/Resending.antt =====
-- What `relinow_poll` sends again on the only RELIABLE channel of a peer.
use relinow.Prelude.{
  ℕ, ◌≡◌, refl, sym, ap, subst, inl, inr, List, [], ◌∷◌, ◌++◌, false, ◌&&◌, ltb, leb, arith, get_or,
  sub32, Bool-cases, All,
}
use mathlib.Core.List.{Mem, append-nil}
use relinow.Packet.{heartbeat_channel, mode_unreliable, type_ping}
use relinow.Reliable.{TxEvent, Ctx, tx_retransmit}
use relinow.State.Types.{Peer, Channel, zero_channel, State, max_peers}
use relinow.State.Lookup.{peer_at, put_peer}
use relinow.State.Lookup.Laws.{find_channel_mut-IsFound}
use relinow.State.Heartbeat.{Beat, beat, poll_heartbeat}
use relinow.State.Scheduler.Only.{put_peer-IsOnly, put_peer-channels}
use relinow.Node.Types.{Effect, transmitted, tx_event, Radio, Node, World}
use relinow.Node.Caches.{reassembly_reset}
use relinow.Node.Frames.Wire.{send_frame-node}
use relinow.Node.Sending.{with_state, report}
use relinow.Node.Receiving.{empty_frame}
use relinow.Node.Polling.{poll_reassembly, poll_beat}
use relinow.Node.EndToEnd.Confirmed.{message_frame}
use relinow.Node.Polling.InFlight.{History, IsAgreeing}
use relinow.Node.Polling.Faithful.{IsFaithful, SameCore}

-- The first two blocks of a poll leave the cache in step.
beat_same :
    (peer : Peer) (now_ms : ℕ)
    → let peer' = (beat peer now_ms).0 in
      (peer'.channels ≡ peer.channels)
      × (peer'.in_use ≡ peer.in_use)
      × (peer'.last_polled_channel_idx ≡ peer.last_polled_channel_idx)
unfolding beat
beat_same peer now_ms = ground arith

poll_heartbeat-state :
    (state : State) (p now_ms : ℕ) (out : Beat)
    → leb max_peers p ≡ false
    → (poll_heartbeat state p now_ms out).1 ≡ put_peer state p (beat (peer_at state p) now_ms).0
unfolding poll_heartbeat
poll_heartbeat-state state p now_ms out small = rw (small, poll_heartbeat) refl

pub poll_reassembly-SameCore :
    (w : World) (now_ms : ℕ) → SameCore w.node (poll_reassembly w now_ms).node
unfolding poll_reassembly reassembly_reset
poll_reassembly-SameCore w now_ms =
    let same : (node : Node) → SameCore node node =
      λ node. record { state = refl; peer_index = refl; max_payload = refl; tx_cache = refl } in
    elim (Bool-cases (
      w.node.reassembly_active
      && ltb w.node.fragment_timeout_ms (sub32 now_ms w.node.reassembly_start_ms))) [
        | inl over ↦
            rw (over, poll_reassembly)
              (record { state = refl; peer_index = refl; max_payload = refl; tx_cache = refl })
        | inr running ↦ rw (running, poll_reassembly) (same w.node)
      ]

module _ (radio : Radio) (w : World) (now_ms : ℕ) where
  abbrev quiet : Beat
  quiet = record { should_ping = false; peer_timeout = false }

  abbrev beaten : State
  beaten = (poll_heartbeat w.node.state w.node.peer_index now_ms quiet).1

  poll_beat-node : (poll_beat radio w now_ms).node ≡ record w.node { state = beaten }
  unfolding poll_beat
  poll_beat-node =
      let b = (poll_heartbeat w.node.state w.node.peer_index now_ms quiet).2 in
      elim (Bool-cases (b.peer_timeout && w.node.on_peer_timeout)) [
        | inl over ↦ rw (over, poll_beat) refl
        | inr fine ↦ elim (Bool-cases b.should_ping) [
          | inl ping ↦
              rw (fine, poll_beat, ping)
                (send_frame-node radio (with_state w beaten)
                  (empty_frame mode_unreliable heartbeat_channel type_ping 0))
          | inr no_ping ↦ rw (fine, poll_beat, no_ping) refl
        ]
      ]

  pub poll_beat-IsFaithful :
      (c i : ℕ) (history : History)
      → IsFaithful w.node c i history
      → IsFaithful (poll_beat radio w now_ms).node c i history
  poll_beat-IsFaithful c i history h =
      let found = find_channel_mut-IsFound w.node.state w.node.peer_index c i h.only.held.found in
      let peer = peer_at w.node.state w.node.peer_index in
      let (channels, in_use, last) = beat_same peer now_ms in
      let peer' = (beat peer now_ms).0 in
      let only =
        put_peer-IsOnly w.node.state w.node.peer_index c i h.only peer' channels in_use
          (omega (arith, last, h.only.last)) in
      let same_channels =
        put_peer-channels w.node.state w.node.peer_index c i h.only peer' channels in
      let same_ctx =
        ap (λ (cs : List Channel). (get_or cs i zero_channel).reliable) same_channels in
      let written =
        poll_heartbeat-state w.node.state w.node.peer_index now_ms quiet found.peer_small in
      subst (λ (node : Node). IsFaithful node c i history) (sym poll_beat-node)
        (subst (λ (st : State). IsFaithful (record w.node { state = st }) c i history) (sym written)
          (record {
            bounded = h.bounded;
            only = only;
            agrees =
                subst (λ (ctx : Ctx). IsAgreeing w.node.max_payload w.node.tx_cache ctx history)
                  (sym same_ctx) h.agrees;
          }))

-- What a poll of the channel does for its context's event.
abbrev pub IsSilent : Effect → Type 0
IsSilent (transmitted mac frame erc) = ⊥
IsSilent _ = Unit

-- Where the event is a retransmission, a frame goes out, of the number that ran out and the message
-- that was sent under it; otherwise none does.
abbrev pub IsSentAgain : Radio → World → ℕ → History → TxEvent → ℕ → World → Type 0
IsSentAgain radio u c history tx_retransmit q u' =
    (payload : List ℕ) × (told : List Effect) × Mem (q, payload) history
    × (let frame = message_frame c q payload in
        u'.log
        ≡ u.log ++ (transmitted u.node.peer_mac frame (radio u.log u.node.peer_mac frame) ∷ told))
    × All IsSilent told
IsSentAgain radio u c history _ q u' =
    (told : List Effect) × (u'.log ≡ u.log ++ told) × All IsSilent told

pub report-Silent :
    (w : World) (event : TxEvent) (q : ℕ)
    → (told : List Effect) × ((report w event q).log ≡ w.log ++ told) × All IsSilent told
report-Silent w event q = elim (Bool-cases w.node.on_tx_event) [
  | inl on ↦ rw on (tx_event event q ∷ [], refl, (tt, tt))
  | inr off ↦ rw off ([], sym (append-nil w.log), tt)
]

pub report_node : (w : World) (event : TxEvent) (q : ℕ) → (report w event q).node ≡ w.node
report_node w event q = elim (Bool-cases w.node.on_tx_event) [
  | inl on ↦ rw on refl
  | inr off ↦ rw off refl
]
