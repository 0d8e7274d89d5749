-- ===== src/State/Scheduler/Only.antt =====
-- A peer with one RELIABLE channel: what the calls on it and the scheduler leave.
use relinow.Prelude.{
  ℕ, ◌<◌, ◌≡◌, ◌≢◌, refl, sym, ap, ◌∙◌, subst, ◌⊎◌, inl, inr, some, true, false, ◌==◌, ==_iff, List,
  get_or, arith, set, get_or-set_self, get_or-set_ne, Bool-cases,
}
use relinow.Packet.{mode_reliable}
use relinow.Reliable
use relinow.Reliable.{TxResult, TxEvent, tx_none, tx_new, tx_retransmit, tx_failed}
use relinow.State.Types.{StateErr, ok, Channel, Peer, State, zero_peer, zero_channel}
use relinow.State.Lookup.{peer_at, channel_at, put_peer, find_channel_mut}
use relinow.State.Lookup.Laws.{
  IsFound, find_channel_mut-IsFound, IsFound-find_channel_mut, inside, channel_matches,
  peer_at-put_channel,
}
use relinow.State.ReliableMode.{after_poll, reliable_poll}
use relinow.State.ReliableMode.Kept.{IsKept}
use relinow.State.ReliableMode.KeptSender.{reliable_poll-IsKept}
use relinow.State.ReliableMode.History.{IsHeld, IsKept-IsHeld}
use relinow.State.ReliableMode.Outcomes.{ctx_at, after_poll-ctx}
use relinow.State.Scheduler.{is_none, is_polled, Scheduled, scheduler_next}
use relinow.State.Scheduler.Rounds.{HasNumbers, is_due_channel, serve}
use relinow.State.Scheduler.Fairness.{scheduler_next_fair}

-- The channel of number `c` stands at `i` and has its mirror, and no other is RELIABLE.
pub record IsOnly (state : State) (p c i : ℕ) : Type 0 where
  pub index : i < 16
  pub held : IsHeld state p c i
  pub others : (j : ℕ) → j ≢ i → is_polled (channel_at state p j) ≡ false
  pub last : (peer_at state p).last_polled_channel_idx < 16

-- A peer with the same channels has the same only one.
pub record SamePeer (state state' : State) (p : ℕ) : Type 0 where
  pub channels : (peer_at state' p).channels ≡ (peer_at state p).channels
  pub in_use : (peer_at state' p).in_use ≡ (peer_at state p).in_use
  pub last : (peer_at state' p).last_polled_channel_idx < 16

module _ (state : State) (p c i : ℕ) (h : IsOnly state p c i) where
  found : IsFound state p c i
  found = find_channel_mut-IsFound state p c i h.held.found

  -- Writing the peer's other fields keeps the channel the only one.
  pub SamePeer-IsOnly : (state' : State) → SamePeer state state' p → IsOnly state' p c i
  SamePeer-IsOnly state' s =
      let same : (j : ℕ) → channel_at state' p j ≡ channel_at state p j =
        λ j. ap (λ (cs : List Channel). get_or cs j zero_channel) s.channels in
      record {
        index = h.index;
        held = record {
          found = IsFound-find_channel_mut state' p c i (record {
            peer_small = found.peer_small;
            peer_used = s.in_use ∙ found.peer_used;
            first = rw s.channels found.first;
          });
          mode = rw (same i) h.held.mode;
          mirror = rw (same i) h.held.mirror;
        };
        others = λ j apart. rw (same j) (h.others j apart);
        last = s.last;
      }

  -- So does every call on the channel.
  pub IsKept-IsOnly : (state' : State) → IsKept state p c i state' → IsOnly state' p c i
  IsKept-IsOnly state' k =
      let written : peer_at state' p
          ≡ record (peer_at state p) { channels = set (peer_at state p).channels i k.channel } =
        ap (λ (st : State). peer_at st p) k.written
        ∙ peer_at-put_channel state p c i h.held.found k.channel in
      record {
        index = h.index;
        held = IsKept-IsHeld state p c i state' h.held.found k;
        others = λ j apart.
            let away : i ≢ j = λ e. apart (sym e) in
            rw (written, get_or-set_ne (peer_at state p).channels i j k.channel zero_channel away)
              (h.others j apart);
        last = rw written h.last;
      }

  put_peer-there : (peer : Peer) → peer_at (put_peer state p peer) p ≡ peer
  put_peer-there peer =
      get_or-set_self state.peers p peer zero_peer
        (inside (λ (x : Peer). x.in_use) state.peers p zero_peer refl found.peer_used)

  pub put_peer-channels :
      (peer : Peer)
      → peer.channels ≡ (peer_at state p).channels
      → (peer_at (put_peer state p peer) p).channels ≡ (peer_at state p).channels
  put_peer-channels peer channels = rw (put_peer-there peer) channels

  -- What the scheduler writes is read back.
  pub put_peer-IsOnly :
      (peer : Peer)
      → peer.channels ≡ (peer_at state p).channels
      → peer.in_use ≡ (peer_at state p).in_use
      → peer.last_polled_channel_idx < 16
      → IsOnly (put_peer state p peer) p c i
  put_peer-IsOnly peer channels in_use last =
      let there = put_peer-there peer in
      SamePeer-IsOnly (put_peer state p peer)
        (record { channels = rw there channels; in_use = rw there in_use; last = rw there last })

none_or_some : (event : TxEvent) → is_none event ≡ true → event ≡ tx_none
none_or_some tx_none e = refl
none_or_some tx_new e = absurd (ground arith)
none_or_some tx_retransmit e = absurd (ground arith)
none_or_some tx_failed e = absurd (ground arith)

abbrev no_result : TxResult
no_result = record { event = tx_none; seq_id = 0 }

module _ (state : State) (p c i : ℕ) (h : IsOnly state p c i) (now_ms : ℕ) where
  abbrev channel : Channel
  channel = channel_at state p i

  -- The state after the channel's own poll.
  abbrev polled : State
  polled = (after_poll state p c i (Reliable.poll channel.reliable now_ms)).1

  numbered : channel.channel_id ≡ c
  numbered =
      (==_iff channel.channel_id c).0 (ground (arith, channel_matches state p c i h.held.found))

  polled-IsKept : IsKept state p c i polled
  unfolding reliable_poll
  polled-IsKept =
      let in_mode : (channel.mode == mode_reliable) ≡ true = rw h.held.mode refl in
      let called : reliable_poll state p c now_ms no_result
          ≡ after_poll state p c i (Reliable.poll channel.reliable now_ms) =
        rw (h.held.found, reliable_poll, in_mode) refl in
      subst (λ (st : State). IsKept state p c i st)
        (ap (λ (r : StateErr × State × TxResult). r.1) called)
        (reliable_poll-IsKept state p c i h.held.found h.held.mode h.held.mirror now_ms no_result)

  -- The scheduler's result when it serves the channel.
  pub record IsServed (r : StateErr × State × Scheduled) : Type 0 where
    pub success : r.0 ≡ ok
    pub only : IsOnly r.1 p c i
    pub context : ctx_at r.1 p i ≡ (Reliable.poll channel.reliable now_ms).1
    pub event : r.2 ≡ record { channel_id = c; tx = (Reliable.poll channel.reliable now_ms).2 }

  polled_number : (channel_at polled p i).channel_id ≡ c
  polled_number =
      let held = IsKept-IsHeld state p c i polled h.held.found polled-IsKept in
      (==_iff (channel_at polled p i).channel_id c).0
        (ground (arith, channel_matches polled p c i held.found))

  serve-IsServed : IsServed (serve state p now_ms i)
  unfolding serve
  serve-IsServed =
      let event = Reliable.poll channel.reliable now_ms in
      let body = λ (n : ℕ).
        let st = (after_poll state p n i event).1 in
        let scheduled : Scheduled = record {
          channel_id = (channel_at st p i).channel_id;
          tx = event.2;
        } in
        let marked : Peer = record (peer_at st p) { last_polled_channel_idx = i } in
        let out : StateErr × State × Scheduled = (ok, put_peer st p marked, scheduled) in out in
      let only = IsKept-IsOnly state p c i h polled polled-IsKept in
      let marked : Peer = record (peer_at polled p) { last_polled_channel_idx = i } in
      let there = put_peer-IsOnly polled p c i only marked refl refl h.index in
      let same = put_peer-channels polled p c i only marked refl in
      subst IsServed (sym (ap body numbered)) (record {
        success = refl;
        only = there;
        context =
            ap (λ (cs : List Channel). (get_or cs i zero_channel).reliable) same
            ∙ after_poll-ctx state p c i h.held now_ms;
        event =
            ap (λ (n : ℕ). let out : Scheduled = record { channel_id = n; tx = event.2 } in out)
              polled_number;
      })

  numbers : HasNumbers state p
  numbers j there = elim (Bool-cases (j == i)) [
    | inl same ↦
        let here = (==_iff j i).0 same in
        subst (λ (k : ℕ). find_channel_mut state p (channel_at state p k).channel_id ≡ some k)
          (sym here) (rw numbered h.held.found)
    | inr other ↦
        let apart : j ≢ i = ground arith in let idle = h.others j apart in absurd (ground arith)
  ]

  only_due : (j : ℕ) → is_due_channel now_ms (channel_at state p j) ≡ true → j ≡ i
  unfolding is_due_channel
  only_due j due = elim (Bool-cases (j == i)) [
    | inl same ↦ (==_iff j i).0 same
    | inr other ↦
        let apart : j ≢ i = ground arith in let idle = h.others j apart in absurd (ground arith)
  ]

  nothing_due :
      is_due_channel now_ms channel ≡ false
      → (Reliable.poll channel.reliable now_ms).2.event ≡ tx_none
  unfolding is_due_channel
  nothing_due idle =
      let there = (channel_matches state p c i h.held.found).1 in
      let in_mode : (channel.mode == mode_reliable) ≡ true = rw h.held.mode refl in
      none_or_some (Reliable.poll channel.reliable now_ms).2.event (ground arith)

  -- The scheduler serves the channel; or the channel has no event, and the scheduler changes nothing
  -- and stores none.
  pub scheduler_next_only :
      (out : Scheduled) (stale : TxResult)
      → IsServed (scheduler_next state p now_ms out stale)
        ⊎ (((Reliable.poll channel.reliable now_ms).2.event ≡ tx_none)
            × (scheduler_next state p now_ms out stale
                ≡ (ok, state, record out { tx = record out.tx { event = tx_none } })))
  scheduler_next_only out stale =
      let v = found state p c i h in
      elim (scheduler_next_fair state p now_ms numbers h.last v.peer_small v.peer_used out stale) [
        | inl (none_due, e) ↦ inr (nothing_due (none_due i h.index), e)
        | inr (j, small, due, first, e) ↦
            let here = only_due j due in
            inl (
              subst IsServed (sym (e ∙ ap (λ (k : ℕ). serve state p now_ms k) here)) serve-IsServed)
      ]
