-- ===== src/Node/Polling/OwnMessage.antt =====
-- One poll of a node whose peer has one RELIABLE channel: what it sends again is the message of the
-- number that ran out.
use relinow.Prelude.{ℕ, ◌<◌, ◌≡◌, sym, ap, ◌∙◌, subst, inl, inr, [], if◌then◌else◌}
use mathlib.Core.List.{append-nil}
use relinow.Reliable
use relinow.Reliable.{
  TxEvent, TxResult, Pending, Ctx, tx_none, tx_new, tx_retransmit, tx_failed, is_due, zero_pending,
}
use relinow.State.Types.{StateErr, ok, State}
use relinow.State.ReliableMode.Outcomes.{ctx_at}
use relinow.State.Scheduler.{Scheduled}
use relinow.State.Scheduler.Only.{IsServed, scheduler_next_only}
use relinow.Node.Types.{EspErr, esp_ok, Radio, World}
use relinow.Node.Setup.{is_state_ok}
use relinow.Node.Sending.{unset_tx, with_state}
use relinow.Node.Polling.{handle_event, poll_scheduler, poll_beat, poll_reassembly, poll}
use relinow.Node.Polling.InFlight.{History}
use relinow.Node.Polling.Faithful.{IsFaithful, SameCore-IsFaithful}
use relinow.Node.Polling.Resending.{IsSentAgain, poll_reassembly-SameCore, poll_beat-IsFaithful}
use relinow.Node.Polling.Handling.{handled}

-- The world as the scheduler finds it, after the reassembly and the heartbeat, and what the poll of
-- a channel's context reports then.
abbrev pub before_scheduler : Radio → World → ℕ → World
before_scheduler radio w now_ms = poll_beat radio (poll_reassembly w now_ms) now_ms

abbrev pub due_event : World → ℕ → ℕ → TxResult
due_event w i now_ms = (Reliable.poll (ctx_at w.node.state w.node.peer_index i) now_ms).2

-- One call of `relinow_poll`, on a node whose cache is in step with the only RELIABLE channel of its
-- peer.
module _ (radio : Radio) (w : World) (c i : ℕ) (history : History) (small_id : c < 255)
    (h : IsFaithful w.node c i history) (now_ms : ℕ) where
  abbrev before : World
  before = before_scheduler radio w now_ms

  before-IsFaithful : IsFaithful before.node c i history
  before-IsFaithful = poll_beat-IsFaithful radio (poll_reassembly w now_ms) now_ms c i history (
      SameCore-IsFaithful w.node (poll_reassembly w now_ms).node c i history
        (poll_reassembly-SameCore w now_ms) h)

  abbrev event : TxResult
  event = due_event before i now_ms

  abbrev pub Polled : World → Type 0
  Polled u' =
      IsSentAgain radio before c history event.event event.seq_id u'
      × IsFaithful u'.node c i history

  abbrev unset_scheduled : Scheduled
  unset_scheduled = record { channel_id = 0; tx = unset_tx }

  -- The part of the poll that follows the scheduler's call.
  abbrev following : StateErr × State × Scheduled → EspErr × World
  following r =
      if is_state_ok r.0
      then handle_event radio (with_state before r.1) r.2
      else (esp_ok, with_state before r.1)

  served :
      (r : StateErr × State × Scheduled)
      → IsServed before.node.state before.node.peer_index c i before-IsFaithful.only now_ms r
      → Polled (following r).1
  served r v =
      let done =
        handled radio before c i history small_id before-IsFaithful r.1 v.only now_ms v.context in
      let same : following r
          ≡ handle_event radio (with_state before r.1) (record { channel_id = c; tx = event }) =
        ap
          (λ (rc : StateErr).
            if is_state_ok rc
            then handle_event radio (with_state before r.1) r.2
            else (esp_ok, with_state before r.1))
          v.success
        ∙ ap (handle_event radio (with_state before r.1)) v.event in
      subst (λ (x : EspErr × World). Polled x.1) (sym same) done

  idle : event.event ≡ tx_none → Polled (following (ok, before.node.state, unset_scheduled)).1
  unfolding handle_event
  idle none_due =
      subst
        (λ (e : TxEvent).
          IsSentAgain radio before c history e event.seq_id before
          × IsFaithful before.node c i history)
        (sym none_due) (([], sym (append-nil before.log), tt), before-IsFaithful)

  -- A poll keeps the cache in step, and what it sends again is the message of the number that ran
  -- out.
  pub poll_lem_only : Polled (poll radio w now_ms).1
  unfolding poll poll_scheduler
  poll_lem_only =
      let f = before-IsFaithful in
      elim (scheduler_next_only before.node.state before.node.peer_index c i f.only now_ms
        unset_scheduled unset_tx) [
          | inl v ↦ served _ v
          | inr (none_due, e) ↦
              subst (λ (r : StateErr × State × Scheduled). Polled (following r).1) (sym e)
                (idle none_due)
        ]
