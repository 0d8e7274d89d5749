-- ===== src/State/ReliableMode/KeptReceiving.antt =====
-- `relinow_state_reliable_on_data` and `relinow_state_set_reliable_config` keep the mirror of the
-- transmit queue and the context.
use relinow.Prelude.{
  ℕ, ◌<◌, ◌≡◌, refl, ap, ◌∙◌, inl, inr, List, [], ◌∷◌, some, true, false, ◌==◌, arith, replicate,
  find_index, Option-cases, count,
}
use relinow.Packet
use relinow.Packet.{mode_reliable}
use relinow.Reliable
use relinow.Reliable.Types.{Config, Ctx, RxResult}
use relinow.Reliable.Invariant.{init-IsValid, on_data-SameSender, on_data-IsValid}
use relinow.State.Types.{
  StateErr, ok, invalid_arg, not_found, no_space, conflict, queue_full, wrong_mode, Channel, State,
  zero_slot, tx_queue_size, rx_queue_size,
}
use relinow.State.Lookup.{channel_at, put_channel, find_channel_mut, is_channel}
use relinow.State.Lookup.Laws.{channel_matches, put_channel-put_channel}
use relinow.State.Queues.{is_free_slot, enqueue_rx}
use relinow.State.ReliableMode.{
  set_reliable_config, after_enqueue, enqueue_delivered, note_expected, note_received,
  reliable_on_data,
}
use relinow.State.ReliableMode.Over.{IsReliable, rx_queued, over-channel, enqueue_rx-over}
use relinow.State.ReliableMode.Mirror.{IsMirror}
use relinow.State.ReliableMode.Kept.{IsKept}

on_data_ok : (ctx : Ctx) (seq_id : ℕ) → (Reliable.on_data ctx seq_id).0 ≡ Packet.ok
unfolding Reliable.on_data Reliable.deliver_expected Reliable.buffer_newer Reliable.reorder_insert
on_data_ok ctx seq_id = ground arith

-- The receive queue is no part of the mirror.
rx_queued-IsKept :
    (c : ℕ) (channel : Channel) (q : ℕ)
    → IsReliable c channel
    → IsMirror channel
    → IsReliable c (rx_queued channel q) × IsMirror (rx_queued channel q)
unfolding rx_queued
rx_queued-IsKept c channel q v m = elim (Option-cases (find_index is_free_slot channel.rx_queue)) [
  | inl full ↦ rw (rx_queued, full) (v, m)
  | inr (j, free) ↦
      rw (rx_queued, free)
        (v, record { valid = m.valid; tx_room = m.tx_room; used = m.used; same = m.same })
]

module _ (state : State) (p c i : ℕ) (found : find_channel_mut state p c ≡ some i) where
  enqueue_rx-IsKept :
      (st : State) (q : ℕ) → IsKept state p c i st → IsKept state p c i (enqueue_rx st p c q).1
  enqueue_rx-IsKept st q k =
      let (v, m) = rx_queued-IsKept c k.channel q k.reliable k.mirror in
      record {
        channel = rx_queued k.channel q;
        written =
            ap (λ (x : State). (enqueue_rx x p c q).1) k.written
            ∙ enqueue_rx-over state p c i found k.channel k.reliable q;
        reliable = v;
        mirror = m;
      }

  after_enqueue-IsKept :
      (qrc : StateErr) (queued : State) (rest : StateErr × State)
      → IsKept state p c i queued
      → IsKept state p c i rest.1
      → IsKept state p c i (after_enqueue qrc queued rest).1
  unfolding after_enqueue
  after_enqueue-IsKept ok queued rest k r = r
  after_enqueue-IsKept invalid_arg queued rest k r = k
  after_enqueue-IsKept not_found queued rest k r = k
  after_enqueue-IsKept no_space queued rest k r = k
  after_enqueue-IsKept conflict queued rest k r = k
  after_enqueue-IsKept queue_full queued rest k r = k
  after_enqueue-IsKept wrong_mode queued rest k r = k

  enqueue_delivered-IsKept :
      (st : State) (delivered : List ℕ)
      → IsKept state p c i st
      → IsKept state p c i (enqueue_delivered st p c delivered).1
  unfolding enqueue_delivered
  enqueue_delivered-IsKept st [] k = k
  enqueue_delivered-IsKept st (q ∷ delivered) k =
      let queued = enqueue_rx-IsKept st q k in
      let rest = enqueue_delivered-IsKept (enqueue_rx st p c q).1 delivered queued in
      after_enqueue-IsKept (enqueue_rx st p c q).0 (enqueue_rx st p c q).1
        (enqueue_delivered (enqueue_rx st p c q).1 p c delivered) queued rest

  note_expected-IsKept :
      (rc : StateErr) (st : State) (result : RxResult)
      → IsKept state p c i st
      → IsKept state p c i (note_expected (rc, st) p i result).1
  unfolding note_expected
  note_expected-IsKept ok st result k =
      let channel = channel_at st p i in
      let same : channel ≡ k.channel =
        ap (λ (x : State). channel_at x p i) k.written
        ∙ over-channel state p c i found k.channel k.reliable in
      record {
        channel = record k.channel { expected_rx_seq = k.channel.reliable.expected_rx_seq };
        written =
            ap
              (λ (ch : Channel).
                put_channel st p i (record ch { expected_rx_seq = ch.reliable.expected_rx_seq }))
              same
            ∙ ap
                (λ (x : State).
                  put_channel x p i
                    (record k.channel { expected_rx_seq = k.channel.reliable.expected_rx_seq }))
                k.written
            ∙ put_channel-put_channel state p c i found _ _;
        reliable = k.reliable;
        mirror = record {
          valid = k.mirror.valid;
          tx_room = k.mirror.tx_room;
          used = k.mirror.used;
          same = k.mirror.same;
        };
      }
  note_expected-IsKept invalid_arg st result k = k
  note_expected-IsKept not_found st result k = k
  note_expected-IsKept no_space st result k = k
  note_expected-IsKept conflict st result k = k
  note_expected-IsKept queue_full st result k = k
  note_expected-IsKept wrong_mode st result k = k

  module _ (mode : (channel_at state p i).mode ≡ mode_reliable) where
    matches : is_channel c (channel_at state p i) ≡ true
    matches = (channel_matches state p c i found).1

    in_mode : ((channel_at state p i).mode == mode_reliable) ≡ true
    in_mode = rw mode refl

    -- A configuration, new or renewed, starts with an empty queue and nothing in flight.
    pub set_reliable_config-IsKept :
        (cfg : Config)
        → cfg.max_retries < 256
        → cfg.initial_rtt_ms < 65536
        → cfg.rtt_alpha_q8 < 256
        → IsKept state p c i (set_reliable_config state p c cfg).1
    unfolding set_reliable_config Reliable.init count
    set_reliable_config-IsKept cfg a b d =
        let channel : Channel = record (channel_at state p i) {
          reliable = Reliable.init (some cfg);
          has_inflight = false;
          tx_queue = replicate tx_queue_size zero_slot;
          rx_queue = replicate rx_queue_size zero_slot;
        } in
        rw (found, set_reliable_config, in_mode)
          (record {
            channel = channel;
            written = refl;
            reliable = (matches, mode);
            mirror = record {
              valid = init-IsValid cfg a b d;
              tx_room = refl;
              used = refl;
              same = λ r. refl;
            };
          })

    note_received-IsKept :
        (rc : Packet.Err) (ctx : Ctx) (result : RxResult)
        → rc ≡ Packet.ok
        → IsMirror (record (channel_at state p i) { reliable = ctx })
        → IsKept state p c i (note_received state p c i (rc, ctx, result)).1
    unfolding note_received
    note_received-IsKept rc ctx result fine m =
        let st = put_channel state p i (record (channel_at state p i) { reliable = ctx }) in
        let received : IsKept state p c i st = record {
          channel = record (channel_at state p i) { reliable = ctx };
          written = refl;
          reliable = (matches, mode);
          mirror = m;
        } in
        rw fine (
          note_expected-IsKept (enqueue_delivered st p c result.delivered).0
            (enqueue_delivered st p c result.delivered).1 result
            (enqueue_delivered-IsKept st result.delivered received))

    pub reliable_on_data-IsKept :
        (seq_id : ℕ) (out : RxResult)
        → seq_id < 65536
        → IsMirror (channel_at state p i)
        → IsKept state p c i (reliable_on_data state p c seq_id out).1
    unfolding reliable_on_data
    reliable_on_data-IsKept seq_id out small m =
        let (rc, ctx, result) = Reliable.on_data (channel_at state p i).reliable seq_id in
        let (cfg, next, rtt, pending) = on_data-SameSender (channel_at state p i).reliable seq_id in
        rw (found, reliable_on_data, in_mode)
          (note_received-IsKept rc ctx result (on_data_ok (channel_at state p i).reliable seq_id)
            (record {
              valid = on_data-IsValid (channel_at state p i).reliable seq_id small m.valid;
              tx_room = m.tx_room;
              used = rw pending m.used;
              same = λ r. rw pending (m.same r);
            }))
