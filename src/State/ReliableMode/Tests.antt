-- ===== src/State/ReliableMode/Tests.antt =====
-- RELIABLE channels of the table at concrete values.
use relinow.Prelude.{refl, List, [], ◌∷◌, true, arith, replicate, find_index}
use relinow.Packet.{mode_reliable}
use relinow.Reliable.Types.{TxResult, RxResult, tx_none, rx_dropped}
use relinow.Reliable.Setup.{default_config}
use relinow.State.Types.{State, zero_channel, zero_peer}
use relinow.State.Lookup.{find_channel_mut}
use relinow.State.ReliableMode.{set_reliable_config, reliable_send}
use relinow.State.ReliableMode.KeptReceiving.{set_reliable_config-IsKept}
use relinow.State.ReliableMode.History.{
  Call, sending, acknowledged, polling, receiving, run, IsHeld, IsKept-IsHeld, run-IsHeld,
}
use relinow.State.ReliableMode.Accepting.{SendOutcome, reliable_send_mirrored}

-- A table with one peer, whose channel 7 is open in RELIABLE mode.
abbrev open_table : State
open_table = record {
  peers =
      record zero_peer {
        in_use = true;
        channels =
            record zero_channel { in_use = true; channel_id = 7; mode = mode_reliable }
            ∷ replicate 15 zero_channel;
      }
      ∷ replicate 19 zero_peer;
}

abbrev configured : State
configured = (set_reliable_config open_table 0 7 default_config).1

abbrev no_event : TxResult
no_event = record { event = tx_none; seq_id = 0 }

abbrev nothing_received : RxResult
nothing_received = record { status = rx_dropped; delivered = []; ack_id = 0 }

-- Two frames are sent, the first is acknowledged, the second is sent again, and one is received.
abbrev some_calls : List Call
some_calls =
    sending 10 no_event
    ∷ sending 20 no_event
    ∷ acknowledged 0 40
    ∷ polling 500 no_event
    ∷ receiving 9 nothing_received
    ∷ []

configured-IsHeld : IsHeld configured 0 7 0
unfolding find_channel_mut find_index
configured-IsHeld = IsKept-IsHeld open_table 0 7 0 configured refl (
    set_reliable_config-IsKept open_table 0 7 0 refl refl default_config (omega arith) (omega arith)
      (omega arith))

run-IsHeld_example : IsHeld (run 0 7 configured some_calls) 0 7 0
run-IsHeld_example =
    run-IsHeld 0 7 0 some_calls configured (tt, (tt, (tt, (tt, (omega arith, tt)))))
      configured-IsHeld

reliable_send_mirrored_example :
    SendOutcome configured 0 0 no_event (reliable_send configured 0 7 10 no_event)
reliable_send_mirrored_example =
    reliable_send_mirrored configured 0 7 0 configured-IsHeld no_event 10
