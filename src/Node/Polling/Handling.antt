-- ===== src/Node/Polling/Handling.antt =====
-- What an event of the scheduler sends on the only RELIABLE channel of a peer.
use relinow.Prelude.{
  ℕ, suc, ◌+◌, ◌-◌, ◌<◌, ◌≡◌, refl, sym, ap, ◌∙◌, subst, inl, inr, List, [], ◌∷◌, Bool, true, false,
  ◌==◌, arith, get_or, find_index, find_index-some, count, count_of_none, min, to_nat, Bool-cases,
  Option-cases,
}
use mathlib.Core.List.{Mem, append-nil, append_assoc}
use relinow.Reliable
use relinow.Reliable.{
  TxEvent, TxResult, Pending, Ctx, tx_none, tx_new, tx_retransmit, tx_failed, is_due, zero_pending,
}
use relinow.Reliable.Slots.{in_flight, used_pending}
use relinow.Reliable.Sender.{poll_lem}
use relinow.State.Types.{State}
use relinow.State.ReliableMode.KeptSender.{poll_used}
use relinow.State.ReliableMode.Outcomes.{ctx_at}
use relinow.State.Scheduler.{Scheduled}
use relinow.State.Scheduler.Only.{IsOnly}
use relinow.Node.Types.{transmitted, Radio, Node, World, zero_cached, emit}
use relinow.Node.Caches.{is_cached, tx_cache_remove}
use relinow.Node.Sending.{is_esp_ok, cached, with_state}
use relinow.Node.Receiving.{with_node}
use relinow.Node.EndToEnd.Headers.{data_valid}
use relinow.Node.EndToEnd.Confirmed.{message_frame}
use relinow.Node.Polling.{retransmit, handle_event}
use relinow.Node.Polling.SharedCache.{retransmit-cached}
use relinow.Node.Polling.InFlight.{History, tx_cache_remove-IsAgreeing}
use relinow.Node.Polling.Faithful.{IsFaithful, tx_cache_remove-rest}
use relinow.Node.Polling.Resending.{IsSentAgain, report-Silent, report_node}

-- An entry that passes a test, where the default does not, counts.
count_of_entry {ℓ} :
    {A : Type ℓ} (f : A → Bool) (xs : List A) (j : ℕ) (d : A)
    → f d ≡ false
    → f (get_or xs j d) ≡ true
    → 0 < count f xs
unfolding count
count_of_entry f [] j d h k = absurd (ground arith)
count_of_entry f (x ∷ xs) ℕ.zero d h k = ground arith
count_of_entry f (x ∷ xs) (suc j) d h k = omega (arith, count_of_entry f xs j d h k)

-- The frame of a timer that has run out is in flight.
due_flies :
    (ctx : Ctx) (now_ms j q : ℕ)
    → is_due now_ms (get_or ctx.pending j zero_pending) ≡ true
    → q ≡ (get_or ctx.pending j zero_pending).seq_id
    → 0 < in_flight ctx q
due_flies ctx now_ms j q due same =
    count_of_entry (Reliable.is_pending q) ctx.pending j zero_pending refl (ground (arith, same))

module _ (radio : Radio) (u : World) (c i : ℕ) (history : History) (small_id : c < 255)
    (h : IsFaithful u.node c i history) (state : State) where
  abbrev w : World
  w = with_state u state

  abbrev scheduled : TxEvent → ℕ → Scheduled
  scheduled event q = record { channel_id = c; tx = record { event = event; seq_id = q } }

  -- The cache holds the message of a number in flight.
  pub record IsKnown (q : ℕ) : Type 0 where
    pub payload : List ℕ
    pub sent : Mem (q, payload) history
    pub resent :
        let frame = message_frame c q payload in
        let erc = radio u.log u.node.peer_mac frame in
        retransmit radio w (scheduled tx_retransmit q)
        ≡ (erc, emit w (transmitted u.node.peer_mac frame erc))

  flying-IsKnown : (q : ℕ) → 0 < in_flight (ctx_at u.node.state u.node.peer_index i) q → IsKnown q
  flying-IsKnown q flies = elim (Option-cases (find_index (is_cached q) u.node.tx_cache)) [
    | inl absent ↦
        absurd (
          omega (arith, flies, h.agrees.same q, count_of_none (is_cached q) u.node.tx_cache absent))
    | inr (s, found) ↦
        let slot = get_or u.node.tx_cache s zero_cached in
        let there = (find_index-some (is_cached q) u.node.tx_cache s zero_cached found).1 in
        let used : slot.in_use ≡ true = ground arith in
        let number : slot.seq_id ≡ q = ground arith in
        let v = h.agrees.content s used in
        let whole : slot ≡ cached q 0 slot.payload =
          v.whole ∙ ap (λ (n : ℕ). cached n 0 slot.payload) number in
        record {
          payload = slot.payload;
          sent = subst (λ (n : ℕ). Mem (n, slot.payload) history) number v.there;
          resent =
              retransmit-cached radio w c q s slot.payload found whole
                (data_valid c q small_id (omega (arith, number, v.small)) slot.payload
                  u.node.max_payload v.fits)
                (omega (arith, v.fits, h.bounded));
        }
  ]

  -- Handling the event does what the event says, and leaves the node as it was, or for a failed
  -- frame without that frame in the cache.
  handled_retransmit :
      (q : ℕ)
      → IsKnown q
      → let u' = (handle_event radio w (scheduled tx_retransmit q)).1 in
        IsSentAgain radio u c history tx_retransmit q u' × (u'.node ≡ w.node)
  unfolding handle_event
  handled_retransmit q k =
      let frame = message_frame c q k.payload in
      let erc = radio u.log u.node.peer_mac frame in
      let effect = transmitted u.node.peer_mac frame erc in
      elim (Bool-cases (is_esp_ok erc)) [
        | inl sent ↦
            let (told, log, silent) = report-Silent (emit w effect) tx_retransmit q in
            rw (k.resent, handle_event, sent)
              (
                (k.payload, told, k.sent, log ∙ append_assoc u.log (effect ∷ []) told, silent),
                report_node (emit w effect) tx_retransmit q,
              )
        | inr failed ↦ rw (k.resent, handle_event, failed) ((k.payload, [], k.sent, refl, tt), refl)
      ]

  handled_failed :
      (q : ℕ)
      → let u' = (handle_event radio w (scheduled tx_failed q)).1 in
        IsSentAgain radio u c history tx_failed q u' × (u'.node ≡ tx_cache_remove w.node q)
  unfolding handle_event
  handled_failed q =
      let removed = with_node w (tx_cache_remove w.node q) in
      (report-Silent removed tx_failed q, report_node removed tx_failed q)

  handled_none :
      (q : ℕ)
      → let u' = (handle_event radio w (scheduled tx_none q)).1 in
        IsSentAgain radio u c history tx_none q u' × (u'.node ≡ w.node)
  unfolding handle_event
  handled_none q = (([], sym (append-nil u.log), tt), refl)

  module _ (only : IsOnly state u.node.peer_index c i) (now_ms : ℕ)
      (context : ctx_at state u.node.peer_index i
        ≡ (Reliable.poll (ctx_at u.node.state u.node.peer_index i) now_ms).1) where
    abbrev ctx : Ctx
    ctx = ctx_at u.node.state u.node.peer_index i

    abbrev ctx' : Ctx
    ctx' = (Reliable.poll ctx now_ms).1

    kept-IsFaithful :
        used_pending ctx' ≡ used_pending ctx
        → ((q : ℕ) → in_flight ctx' q ≡ in_flight ctx q)
        → IsFaithful w.node c i history
    kept-IsFaithful used same = record {
      bounded = h.bounded;
      only = only;
      agrees = rw context (record {
        size = h.agrees.size;
        used = h.agrees.used ∙ sym used;
        same = λ q. h.agrees.same q ∙ sym (same q);
        content = h.agrees.content;
      });
    }

    failed-IsFaithful :
        (q : ℕ)
        → used_pending ctx' + min 1 (in_flight ctx q) ≡ used_pending ctx
        → ((r : ℕ) → in_flight ctx' r ≡ in_flight ctx r - to_nat (q == r))
        → IsFaithful (tx_cache_remove w.node q) c i history
    failed-IsFaithful q used left =
        let removed =
          tx_cache_remove-IsAgreeing u.node.max_payload u.node.tx_cache ctx ctx' history h.agrees q
            w.node refl used left in
        subst (λ (n : Node). IsFaithful n c i history) (sym (tx_cache_remove-rest w.node q))
          (record { bounded = h.bounded; only = only; agrees = rw context removed })

    -- What an event of the scheduler does.
    abbrev pub Handled : TxEvent → ℕ → Type 0
    Handled event q =
        let u' = (handle_event radio w (scheduled event q)).1 in
        IsSentAgain radio u c history event q u' × IsFaithful u'.node c i history

    pub handled : let tx = (Reliable.poll ctx now_ms).2 in Handled tx.event tx.seq_id
    handled =
        let tx = (Reliable.poll ctx now_ms).2 in
        let (fine, outcome) = poll_lem ctx now_ms in
        let (failed_used, resent_used) =
          poll_used u.node.state u.node.peer_index c i h.only.held.found h.only.held.mode
            h.only.held.mirror now_ms in
        let faithful = λ (n n' : Node) (e : n' ≡ n) (v : IsFaithful n c i history).
          subst (λ (x : Node). IsFaithful x c i history) (sym e) v in
        elim outcome [
          | inl (e, same, idle) ↦
              let (resends, node) = handled_none tx.seq_id in
              subst (λ (event : TxEvent). Handled event tx.seq_id) (sym e)
                (
                  resends,
                  faithful _ _ node (
                      kept-IsFaithful (ap used_pending same)
                        (λ q. ap (λ (x : Ctx). in_flight x q) same)),
                )
          | inr (j, due, first, number, inl (e, more, flying)) ↦
              let known = flying-IsKnown tx.seq_id (due_flies ctx now_ms j tx.seq_id due number) in
              let (resends, node) = handled_retransmit tx.seq_id known in
              subst (λ (event : TxEvent). Handled event tx.seq_id) (sym e)
                (resends, faithful _ _ node (kept-IsFaithful (resent_used e) flying))
          | inr (j, due, first, number, inr (e, spent, flew, left)) ↦
              let (resends, node) = handled_failed tx.seq_id in
              let used : used_pending ctx' + min 1 (in_flight ctx tx.seq_id) ≡ used_pending ctx =
                omega (arith, failed_used e, flew) in
              subst (λ (event : TxEvent). Handled event tx.seq_id) (sym e)
                (resends, faithful _ _ node (failed-IsFaithful tx.seq_id used left))
        ]
