-- ===== src/State/OtherModes/Latest.antt =====
-- PRIORITY channels: only the latest value matters, at the sender and at the receiver.
use relinow.Prelude.{
  ℕ, ◌≡◌, ◌<◌, ◌==◌, refl, List, [], ◌∷◌, Bool, true, false, arith, some, if◌then◌else◌, Bool-cases,
  inl, inr,
}
use relinow.Packet.{mode_priority, is_seq_newer, seq_next}
use relinow.State.Types.{ok, Channel, State}
use relinow.State.Lookup.{channel_at, put_channel, find_channel_mut}
use relinow.State.Lookup.Laws.{
  channel_matches, channel_at-put_channel, put_channel-put_channel, find_channel_mut-put_channel,
}
use relinow.State.Queues.{clear_inflight}
use relinow.State.OtherModes.{Sent, priority_send, priority_on_data}

-- Numbers of which each is newer than the one before it, the first than `last`.
abbrev pub IsNewerEach : ℕ → List ℕ → Type 0
IsNewerEach last [] = Unit {0}
IsNewerEach last (s ∷ rest) = (is_seq_newer s last ≡ true) × IsNewerEach s rest

-- The last of some numbers, or the given one where there are none.
abbrev pub last_or : ℕ → List ℕ → ℕ
last_or last [] = last
last_or last (s ∷ rest) = last_or s rest

-- The frames of a channel as they arrive, and those of them that are delivered.
unfoldable pub priority_all : State → ℕ → ℕ → List ℕ → State × List ℕ
priority_all state p c [] = (state, [])
priority_all state p c (s ∷ frames) =
    let (rc, state', deliver) = priority_on_data state p c s false in
    let (last, rest) = priority_all state' p c frames in (last, if deliver then s ∷ rest else rest)

-- A frame on a PRIORITY channel is delivered exactly if it is the first or newer than the last one
-- delivered.
module _ (state : State) (p c i : ℕ) (found : find_channel_mut state p c ≡ some i)
    (mode : (channel_at state p i).mode ≡ mode_priority) where
  abbrev seen_at : ℕ → Channel
  seen_at s = record (channel_at state p i) { has_rx_seq = true; expected_rx_seq = s }

  newer :
      (s : ℕ) (out : Bool)
      → is_seq_newer s (channel_at state p i).expected_rx_seq ≡ true
      → priority_on_data state p c s out ≡ (ok, put_channel state p i (seen_at s), true)
  unfolding priority_on_data
  newer s out h = elim (Bool-cases (channel_at state p i).has_rx_seq) [
    | inl has ↦ rw (found, priority_on_data, mode, has, h) refl
    | inr has ↦ rw (found, priority_on_data, mode, has) refl
  ]

  older :
      (s : ℕ) (out : Bool)
      → (channel_at state p i).has_rx_seq ≡ true
      → is_seq_newer s (channel_at state p i).expected_rx_seq ≡ false
      → priority_on_data state p c s out ≡ (ok, state, false)
  unfolding priority_on_data
  older s out has h = rw (found, priority_on_data, mode, has, h) refl

  seen_found : (s : ℕ) → find_channel_mut (put_channel state p i (seen_at s)) p c ≡ some i
  seen_found s =
      find_channel_mut-put_channel state p c i found (seen_at s)
        (channel_matches state p c i found).1

-- Whatever frames arrive on a PRIORITY channel that has seen one, each frame that is delivered is
-- newer than the one delivered before it; the channel ends with the number of the last one
-- delivered, or as it was.
pub priority_all_newer :
    (state : State) (p c i : ℕ) (frames : List ℕ)
    → find_channel_mut state p c ≡ some i
    → (channel_at state p i).mode ≡ mode_priority
    → (channel_at state p i).has_rx_seq ≡ true
    → let (last, delivered) = priority_all state p c frames in
      IsNewerEach (channel_at state p i).expected_rx_seq delivered
      × ((channel_at last p i).expected_rx_seq
          ≡ last_or (channel_at state p i).expected_rx_seq delivered)
unfolding priority_all
priority_all_newer state p c i [] found mode has = (tt, refl)
priority_all_newer state p c i (s ∷ frames) found mode has =
    elim (Bool-cases (is_seq_newer s (channel_at state p i).expected_rx_seq)) [
      | inl h ↦
          let kept = channel_at-put_channel state p c i found (seen_at state p c i found mode s) in
          let ih =
            priority_all_newer (put_channel state p i (seen_at state p c i found mode s)) p c i
              frames (seen_found state p c i found mode s) (rw kept mode) (rw kept refl) in
          rw (newer state p c i found mode s false h) ((h, (rw kept at ih).0), (rw kept at ih).1)
      | inr h ↦
          rw (older state p c i found mode s false has h)
            (priority_all_newer state p c i frames found mode has)
    ]

-- The channel after a message, and what the call reports.
abbrev sent_at : Channel → Channel
sent_at channel = record channel {
  next_tx_seq = seq_next channel.next_tx_seq;
  has_inflight = true;
  inflight_seq = channel.next_tx_seq;
}

abbrev sent_of : Channel → Sent
sent_of channel = record {
  seq_id = channel.next_tx_seq;
  replaced = channel.has_inflight;
  replaced_seq_id = if channel.has_inflight then channel.inflight_seq else 0;
}

module _ (state : State) (p c i : ℕ) (found : find_channel_mut state p c ≡ some i) where
  priority_send_lem :
      (out : Sent)
      → (channel_at state p i).mode ≡ mode_priority
      → priority_send state p c out ≡ (
        ok,
        put_channel state p i (sent_at (channel_at state p i)),
        sent_of (channel_at state p i),
      )
  unfolding priority_send
  priority_send_lem out mode = rw (found, priority_send, mode) refl

  clear_inflight_other :
      (s : ℕ)
      → ((channel_at state p i).inflight_seq == s) ≡ false
      → clear_inflight state p c s ≡ (ok, state)
  unfolding clear_inflight
  clear_inflight_other s h = elim (Bool-cases (channel_at state p i).has_inflight) [
    | inl has ↦ rw (found, clear_inflight, has, h) refl
    | inr has ↦ rw (found, clear_inflight, has) refl
  ]

  clear_inflight_this :
      (s : ℕ)
      → (channel_at state p i).has_inflight ≡ true
      → ((channel_at state p i).inflight_seq == s) ≡ true
      → clear_inflight state p c s
        ≡ (ok, put_channel state p i (record (channel_at state p i) { has_inflight = false }))
  unfolding clear_inflight
  clear_inflight_this s has h = rw (found, clear_inflight, has, h) refl

-- On a PRIORITY channel with a 16-bit counter, a message that is sent before the last one was
-- confirmed replaces it: the second call reports the number of the first, a confirmation of the
-- first then changes nothing, and one of the second clears the channel.
pub priority_send_replaces :
    (state : State) (p c i : ℕ) (out out' : Sent)
    → find_channel_mut state p c ≡ some i
    → (channel_at state p i).mode ≡ mode_priority
    → (channel_at state p i).next_tx_seq < 65536
    → let (rc, state', first) = priority_send state p c out in
      let (rc', state'', second) = priority_send state' p c out' in
      (rc ≡ ok)
      × (rc' ≡ ok)
      × (second.replaced ≡ true)
      × (second.replaced_seq_id ≡ first.seq_id)
      × (second.seq_id ≡ seq_next first.seq_id)
      × (clear_inflight state'' p c first.seq_id ≡ (ok, state''))
      × (channel_at (clear_inflight state'' p c second.seq_id).1 p i
          ≡ record (channel_at state'' p i) { has_inflight = false })
unfolding seq_next
priority_send_replaces state p c i out out' found mode small =
    let channel = channel_at state p i in
    let once = sent_at channel in
    let twice = sent_at once in
    let kept = channel_at-put_channel state p c i found in
    let is_open = (channel_matches state p c i found).1 in
    let found' = find_channel_mut-put_channel state p c i found once is_open in
    let found'' = find_channel_mut-put_channel state p c i found twice is_open in
    let state'' = put_channel state p i twice in
    let other =
      clear_inflight_other state'' p c i found'' channel.next_tx_seq
        (rw (kept twice) (ground arith)) in
    let this =
      clear_inflight_this state'' p c i found'' (seq_next channel.next_tx_seq)
        (rw (kept twice) refl) (rw (kept twice) (ground arith)) in
    let again =
      priority_send_lem (put_channel state p i once) p c i found' out' (rw (kept once) mode) in
    rw
      (
        priority_send_lem state p c i found out mode,
        again,
        kept once,
        put_channel-put_channel state p c i found once twice,
        other,
        this,
      )
      (
        refl,
        refl,
        refl,
        refl,
        refl,
        refl,
        channel_at-put_channel state'' p c i found''
            (record (channel_at state'' p i) { has_inflight = false }),
      )
