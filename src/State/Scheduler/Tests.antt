-- ===== src/State/Scheduler/Tests.antt =====
-- A peer with two RELIABLE channels, both with a frame that is due.
use relinow.Prelude.{ℕ, ◌≡◌, suc, refl, ◌∷◌, some, true, arith, replicate, find_index, get_or}
use relinow.Packet.{mode_reliable}
use relinow.Reliable
use relinow.Reliable.{TxResult, tx_none, tx_retransmit, default_config, Ctx}
use relinow.State.Types.{Channel, State, zero_channel, zero_peer}
use relinow.State.Lookup.{find_channel_mut, put_channel, put_peer}
use relinow.State.Queues.{mark_inflight}
use relinow.State.ReliableMode.{reliable_poll}
use relinow.State.Scheduler.{Scheduled, scheduler_next}
use relinow.State.Scheduler.Rounds.{HasNumbers}
use relinow.State.Scheduler.Fairness.{FairOutcome, scheduler_next_fair}

abbrev no_event : TxResult
no_event = record { event = tx_none; seq_id = 0 }

-- A context with number 0 in flight since time 10.
abbrev waiting_ctx : Ctx
waiting_ctx = (Reliable.send (Reliable.init (some default_config)) 10 no_event).1

abbrev busy_channel : ℕ → Channel
busy_channel id = record zero_channel {
  in_use = true;
  channel_id = id;
  mode = mode_reliable;
  reliable = waiting_ctx;
}

abbrev two_channels : State
two_channels = record {
  peers =
      record zero_peer {
        in_use = true;
        channels = busy_channel 4 ∷ busy_channel 5 ∷ replicate 14 zero_channel;
      }
      ∷ replicate 19 zero_peer;
}

abbrev nothing_scheduled : Scheduled
nothing_scheduled = record { channel_id = 0; tx = no_event }

-- Channel 0 was the last one, so it is the turn of channel 1.
turn_test : (scheduler_next two_channels 0 400 nothing_scheduled no_event).2.channel_id ≡ 5
unfolding scheduler_next reliable_poll find_channel_mut find_index Reliable.poll Reliable.send
    Reliable.init Reliable.compute_timeout_ms Reliable.expire mark_inflight put_channel put_peer
turn_test = refl

zero_at : (n i : ℕ) → get_or (replicate n zero_channel) i zero_channel ≡ zero_channel
zero_at ℕ.zero i = refl
zero_at (suc n) ℕ.zero = refl
zero_at (suc n) (suc i) = zero_at n i

two_channels-HasNumbers : HasNumbers two_channels 0
unfolding find_channel_mut find_index
two_channels-HasNumbers ℕ.zero polled = refl
two_channels-HasNumbers (suc ℕ.zero) polled = refl
two_channels-HasNumbers (suc (suc i)) polled =
    let none = rw (zero_at 14 i) at polled in absurd (ground arith)

scheduler_next_fair_example :
    FairOutcome two_channels 0 400 nothing_scheduled
      (scheduler_next two_channels 0 400 nothing_scheduled no_event)
scheduler_next_fair_example =
    scheduler_next_fair two_channels 0 400 two_channels-HasNumbers (omega arith) refl refl
      nothing_scheduled no_event
