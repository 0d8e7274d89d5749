-- ===== src/State/ReliableMode/History.antt =====
-- Any sequence of the calls on a RELIABLE channel.
use relinow.Prelude.{ℕ, ◌≡◌, ◌<◌, ◌∙◌, ap, List, [], ◌∷◌, some, All}
use relinow.Packet.{mode_reliable}
use relinow.Reliable.Types.{Config, TxResult, RxResult}
use relinow.State.Types.{Channel, State}
use relinow.State.Lookup.{channel_at, find_channel_mut}
use relinow.State.ReliableMode.{
  set_reliable_config, reliable_send, reliable_on_ack, reliable_poll, reliable_on_data,
}
use relinow.State.ReliableMode.Over.{over-found, over-channel}
use relinow.State.ReliableMode.Mirror.{IsMirror}
use relinow.State.ReliableMode.Kept.{IsKept, reliable_send-IsKept}
use relinow.State.ReliableMode.KeptSender.{reliable_on_ack-IsKept, reliable_poll-IsKept}
use relinow.State.ReliableMode.KeptReceiving.{set_reliable_config-IsKept, reliable_on_data-IsKept}

-- The calls that drive a RELIABLE channel, with their arguments.
pub data Call : Type 0 where
  configure : Config → Call
  sending : ℕ → TxResult → Call
  acknowledged : ℕ → ℕ → Call
  polling : ℕ → TxResult → Call
  receiving : ℕ → RxResult → Call

-- The state a call leaves.
unfoldable pub step : ℕ → ℕ → State → Call → State
step p c state (configure cfg) = (set_reliable_config state p c cfg).1
step p c state (sending now_ms out) = (reliable_send state p c now_ms out).1
step p c state (acknowledged ack_id now_ms) = (reliable_on_ack state p c ack_id now_ms).1
step p c state (polling now_ms out) = (reliable_poll state p c now_ms out).1
step p c state (receiving seq_id out) = (reliable_on_data state p c seq_id out).1

unfoldable pub run : ℕ → ℕ → State → List Call → State
run p c state [] = state
run p c state (call ∷ calls) = run p c (step p c state call) calls

-- The arguments fit the widths of their parameters.
abbrev pub IsFitting : Call → Type 0
IsFitting (configure cfg) =
    (cfg.max_retries < 256) × (cfg.initial_rtt_ms < 65536) × (cfg.rtt_alpha_q8 < 256)
IsFitting (receiving seq_id out) = seq_id < 65536
IsFitting _ = Unit {0}

-- The channel is found, is RELIABLE and has its mirror.
pub record IsHeld (state : State) (p c i : ℕ) : Type 0 where
  pub found : find_channel_mut state p c ≡ some i
  pub mode : (channel_at state p i).mode ≡ mode_reliable
  pub mirror : IsMirror (channel_at state p i)

module _ (state : State) (p c i : ℕ) where
  pub IsKept-IsHeld :
      (st : State) → find_channel_mut state p c ≡ some i → IsKept state p c i st → IsHeld st p c i
  IsKept-IsHeld st found k =
      let there : channel_at st p i ≡ k.channel =
        ap (λ (x : State). channel_at x p i) k.written
        ∙ over-channel state p c i found k.channel k.reliable in
      record {
        found =
            ap (λ (x : State). find_channel_mut x p c) k.written
            ∙ over-found state p c i found k.channel k.reliable;
        mode = ap (λ (ch : Channel). ch.mode) there ∙ k.reliable.1;
        mirror = rw there k.mirror;
      }

  -- Each call changes the channel alone.
  pub step-IsKept :
      (call : Call) → IsFitting call → IsHeld state p c i → IsKept state p c i (step p c state call)
  unfolding step
  step-IsKept (configure cfg) (a, b, d) h =
      set_reliable_config-IsKept state p c i h.found h.mode cfg a b d
  step-IsKept (sending now_ms out) _ h =
      reliable_send-IsKept state p c i h.found h.mode h.mirror now_ms out
  step-IsKept (acknowledged ack_id now_ms) _ h =
      reliable_on_ack-IsKept state p c i h.found h.mode h.mirror ack_id now_ms
  step-IsKept (polling now_ms out) _ h =
      reliable_poll-IsKept state p c i h.found h.mode h.mirror now_ms out
  step-IsKept (receiving seq_id out) small h =
      reliable_on_data-IsKept state p c i h.found h.mode seq_id out small h.mirror

  pub step-IsHeld :
      (call : Call) → IsFitting call → IsHeld state p c i → IsHeld (step p c state call) p c i
  step-IsHeld call fits h = IsKept-IsHeld (step p c state call) h.found (step-IsKept call fits h)

-- On a RELIABLE channel whose transmit queue mirrors its context, every sequence of configuring,
-- sending, acknowledging, polling and receiving, with arguments within their widths, leaves the
-- channel in its place and mode and keeps the mirror: the context is valid, and the queue of 16
-- entries holds exactly the unacknowledged numbers of the context, each as often.
pub run-IsHeld :
    (p c i : ℕ) (calls : List Call) (state : State)
    → All IsFitting calls
    → IsHeld state p c i
    → IsHeld (run p c state calls) p c i
unfolding run
run-IsHeld p c i [] state fits h = h
run-IsHeld p c i (call ∷ calls) state fits h =
    run-IsHeld p c i calls (step p c state call) fits.1 (step-IsHeld state p c i call fits.0 h)
