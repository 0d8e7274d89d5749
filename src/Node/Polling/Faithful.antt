-- ===== src/Node/Polling/Faithful.antt =====
-- A node whose peer has one RELIABLE channel keeps its transmission cache in step with the channel:
-- what a send and an acknowledgment do to it.
use relinow.Prelude.{
  ℕ, ◌≤◌, ◌<◌, ◌≡◌, refl, sym, ap, ◌∙◌, subst, inl, inr, List, ◌∷◌, true, false, ◌==◌, ltb, arith,
  length, set, find_index, Bool-cases, Option-cases, if◌then◌else◌,
}
use relinow.Reliable.{TxResult}
use relinow.State.Types.{StateErr, queue_full, State, tx_queue_size}
use relinow.State.Lookup.{channel_at}
use relinow.State.ReliableMode.{reliable_send, reliable_on_ack}
use relinow.State.ReliableMode.Kept.{reliable_send-IsKept}
use relinow.State.ReliableMode.KeptSender.{reliable_on_ack-IsKept}
use relinow.State.ReliableMode.Mirror.{used_tx}
use relinow.State.ReliableMode.Accepting.{reliable_send_mirrored}
use relinow.State.ReliableMode.Outcomes.{ctx_at, reliable_send-IsSent, reliable_on_ack-IsAcked}
use relinow.State.Scheduler.Only.{IsOnly, IsKept-IsOnly}
use relinow.Node.Types.{Radio, Node, World, Cached, max_payload_size}
use relinow.Node.Caches.{
  is_cached, tx_cache_alloc, tx_cache_find, tx_cache_remove, fragment_tx_on_ack,
}
use relinow.Node.Setup.{is_state_ok}
use relinow.Node.Sending.{unset_tx, cached, with_state, send_whole}
use relinow.Node.Receiving.{receive_ack}
use relinow.Node.EndToEnd.Headers.{ack_header}
use relinow.Node.Polling.SentWhole.{transmit-node}
use relinow.Node.Polling.InFlight.{
  History, IsAgreeing, stored-IsAgreeing, slot_free, tx_cache_remove-IsAgreeing,
}

-- The channel of number `c` at `i` is the only RELIABLE one, the cache agrees with it, and what the
-- payload limit lets pass fits a frame.
pub record IsFaithful (node : Node) (c i : ℕ) (history : History) : Type 0 where
  pub bounded : node.max_payload ≤ max_payload_size
  pub only : IsOnly node.state node.peer_index c i
  pub agrees :
      IsAgreeing node.max_payload node.tx_cache (ctx_at node.state node.peer_index i) history

-- Nodes that are the same as far as this goes.
pub record SameCore (node node' : Node) : Type 0 where
  pub state : node'.state ≡ node.state
  pub peer_index : node'.peer_index ≡ node.peer_index
  pub max_payload : node'.max_payload ≡ node.max_payload
  pub tx_cache : node'.tx_cache ≡ node.tx_cache

abbrev Core : State → ℕ → ℕ → List Cached → ℕ → ℕ → History → Type 0
Core state p limit cache c i history =
    (limit ≤ max_payload_size)
    × IsOnly state p c i
    × IsAgreeing limit cache (ctx_at state p i) history

pub SameCore-IsFaithful :
    (node node' : Node) (c i : ℕ) (history : History)
    → SameCore node node'
    → IsFaithful node c i history
    → IsFaithful node' c i history
SameCore-IsFaithful node node' c i history s h =
    let moved : Core node'.state node'.peer_index node'.max_payload node'.tx_cache c i history =
      rw (s.state, s.peer_index, s.max_payload, s.tx_cache) (h.bounded, h.only, h.agrees) in
    record { bounded = moved.0; only = moved.1; agrees = moved.2 }

-- The bookkeeping of fragments is apart from it, and removing a frame changes the cache alone.
fragment_tx_on_ack-SameCore : (node : Node) (q : ℕ) → SameCore node (fragment_tx_on_ack node q)
unfolding fragment_tx_on_ack
fragment_tx_on_ack-SameCore node q = elim (Bool-cases node.fragmented_tx_active) [
  | inr idle ↦
      rw (idle, fragment_tx_on_ack)
        (record { state = refl; peer_index = refl; max_payload = refl; tx_cache = refl })
  | inl active ↦ elim (Option-cases (find_index (λ seq_id. seq_id == q) node.fragmented_tx_seq)) [
    | inl absent ↦
        rw (active, fragment_tx_on_ack, absent)
          (record { state = refl; peer_index = refl; max_payload = refl; tx_cache = refl })
    | inr (j, there) ↦
        rw (active, fragment_tx_on_ack, there)
          (record { state = refl; peer_index = refl; max_payload = refl; tx_cache = refl })
  ]
]

pub tx_cache_remove-rest :
    (node : Node) (q : ℕ)
    → tx_cache_remove node q ≡ record node { tx_cache = (tx_cache_remove node q).tx_cache }
unfolding tx_cache_remove tx_cache_find
tx_cache_remove-rest node q = elim (Option-cases (find_index (is_cached q) node.tx_cache)) [
  | inl absent ↦ rw (absent, tx_cache_remove) refl
  | inr (s, there) ↦ rw (there, tx_cache_remove) refl
]

-- What the history is after a send: the message is in it if the channel took it.
abbrev pub after_sending : World → ℕ → History → List ℕ → History
after_sending w i history payload =
    let channel = channel_at w.node.state w.node.peer_index i in
    if ltb (used_tx channel) tx_queue_size
    then (channel.reliable.next_tx_seq, payload) ∷ history
    else history

module _ (radio : Radio) (w : World) (c i : ℕ) (history : History)
    (h : IsFaithful w.node c i history) where
  abbrev p : ℕ
  p = w.node.peer_index

  abbrev next : ℕ
  next = (ctx_at w.node.state p i).next_tx_seq

  module _ (payload : List ℕ) (now_ms : ℕ) (fits : length payload ≤ w.node.max_payload) where
    abbrev r : StateErr × State × TxResult
    r = reliable_send w.node.state p c now_ms unset_tx

    taken-IsFaithful :
        used_tx (channel_at w.node.state p i) < tx_queue_size
        → IsFaithful (send_whole radio w c payload now_ms).1.node c i ((next, payload) ∷ history)
    unfolding send_whole tx_cache_alloc
    taken-IsFaithful room =
        let held = h.only.held in
        let sent = reliable_send-IsSent w.node.state p c i held now_ms unset_tx room in
        let (s, free) =
          slot_free w.node.max_payload w.node.tx_cache (ctx_at w.node.state p i)
            (ctx_at w.node.state p i) history h.agrees next
            (omega (arith, room, held.mirror.used)) in
        let slot = cached next 0 payload in
        let prepared : World = record w {
          node = record w.node { state = r.1; tx_cache = set w.node.tx_cache s slot };
        } in
        let kept =
          reliable_send-IsKept w.node.state p c i held.found held.mode held.mirror now_ms
            unset_tx in
        let faithful : IsFaithful prepared.node c i ((next, payload) ∷ history) = record {
          bounded = h.bounded;
          only = IsKept-IsOnly w.node.state p c i h.only r.1 kept;
          agrees =
              stored-IsAgreeing w.node.max_payload w.node.tx_cache (ctx_at w.node.state p i)
                (ctx_at r.1 p i) history h.agrees next s payload free held.mirror.valid.next fits
                sent.used sent.flights;
        } in
        rw (sent.accepted, send_whole, sent.result, free, sent.result)
          (subst (λ (n : Node). IsFaithful n c i ((next, payload) ∷ history))
            (sym (transmit-node radio prepared c slot)) faithful)

    refused-IsFaithful :
        (rc : StateErr) (state : State) (tx : TxResult)
        → r ≡ (rc, state, tx)
        → rc ≡ queue_full
        → state ≡ w.node.state
        → IsFaithful (send_whole radio w c payload now_ms).1.node c i history
    unfolding send_whole
    refused-IsFaithful rc state tx same full untouched =
        let failed : is_state_ok r.0 ≡ false =
          ap (λ (x : StateErr × State × TxResult). is_state_ok x.0) same ∙ rw full refl in
        let state_same : r.1 ≡ w.node.state =
          ap (λ (x : StateErr × State × TxResult). x.1) same ∙ untouched in
        rw (failed, send_whole)
          (SameCore-IsFaithful w.node (with_state w r.1).node c i history
            (record { state = state_same; peer_index = refl; max_payload = refl; tx_cache = refl })
            h)

    -- A message that fits one frame leaves the cache in step, whether it is taken or not.
    pub send_whole-IsFaithful :
        IsFaithful
          (send_whole radio w c payload now_ms).1.node
          c
          i
          (after_sending w i history payload)
    send_whole-IsFaithful =
        elim (reliable_send_mirrored w.node.state p c i h.only.held unset_tx now_ms) [
          | inl (e, full, untouched, out) ↦
              let no_room : ltb (used_tx (channel_at w.node.state p i)) tx_queue_size ≡ false =
                ground (arith, full) in
              rw no_room (refused-IsFaithful r.0 r.1 r.2 refl e untouched)
          | inr (e, room, result, more, waits) ↦
              let some_room : ltb (used_tx (channel_at w.node.state p i)) tx_queue_size ≡ true =
                ground (arith, room) in
              rw some_room (taken-IsFaithful room)
        ]

  -- So does an acknowledgment.
  pub receive_ack-IsFaithful :
      (q now_ms : ℕ) → IsFaithful (receive_ack w (ack_header c q) now_ms).node c i history
  unfolding receive_ack
  receive_ack-IsFaithful q now_ms =
      let held = h.only.held in
      let acked = reliable_on_ack-IsAcked w.node.state p c i held now_ms q in
      let state = (reliable_on_ack w.node.state p c q now_ms).1 in
      let node : Node = record w.node { state = state } in
      let removed = tx_cache_remove node q in
      let kept =
        reliable_on_ack-IsKept w.node.state p c i held.found held.mode held.mirror q now_ms in
      let faithful : IsFaithful (record node { tx_cache = removed.tx_cache }) c i history = record {
        bounded = h.bounded;
        only = IsKept-IsOnly w.node.state p c i h.only state kept;
        agrees =
            tx_cache_remove-IsAgreeing w.node.max_payload w.node.tx_cache (ctx_at w.node.state p i)
              (ctx_at state p i) history h.agrees q node refl acked.used acked.flights;
      } in
      rw (acked.accepted, receive_ack)
        (SameCore-IsFaithful removed (fragment_tx_on_ack removed q) c i history
          (fragment_tx_on_ack-SameCore removed q)
          (subst (λ (n : Node). IsFaithful n c i history) (sym (tx_cache_remove-rest node q))
            faithful))
