-- ===== src/Node/Polling/Runs.antt =====
-- Sending, acknowledgments and polling, in any order, on the only RELIABLE channel of a peer.
use relinow.Prelude.{ℕ, ◌≤◌, ◌<◌, List, [], ◌∷◌, length}
use relinow.Node.Types.{Radio, World}
use relinow.Node.Sending.{send_whole}
use relinow.Node.Receiving.{receive_ack}
use relinow.Node.Polling.{poll}
use relinow.Node.EndToEnd.Headers.{ack_header}
use relinow.Node.Polling.InFlight.{History}
use relinow.Node.Polling.Faithful.{
  IsFaithful, after_sending, send_whole-IsFaithful, receive_ack-IsFaithful,
}
use relinow.Node.Polling.OwnMessage.{poll_lem_only}

-- The calls, with their arguments.
pub data Call : Type 0 where
  sending : (payload : List ℕ) (now_ms : ℕ) → Call
  acknowledged : (ack_id now_ms : ℕ) → Call
  polling : (now_ms : ℕ) → Call

module _ (radio : Radio) (c i : ℕ) where
  -- What a call leaves of the world and of the history of messages.
  unfoldable pub step : World → History → Call → World × History
  step w history (sending payload now_ms) =
      ((send_whole radio w c payload now_ms).1, after_sending w i history payload)
  step w history (acknowledged ack_id now_ms) =
      (receive_ack w (ack_header c ack_id) now_ms, history)
  step w history (polling now_ms) = ((poll radio w now_ms).1, history)

  unfoldable pub run : World → History → List Call → World × History
  unfolding step
  run w history [] = (w, history)
  run w history (call ∷ calls) = let (w', history') = step w history call in run w' history' calls

  -- Each message fits one frame when it is sent.
  abbrev pub IsFitting : World → Call → Type 0
  IsFitting w (sending payload now_ms) = length payload ≤ w.node.max_payload
  IsFitting w _ = Unit

  abbrev pub AreFitting : World → History → List Call → Type 0
  AreFitting w history [] = Unit
  AreFitting w history (call ∷ calls) =
      IsFitting w call × AreFitting (step w history call).0 (step w history call).1 calls

  module _ (small_id : c < 255) where
    step-IsFaithful :
        (w : World) (history : History) (call : Call)
        → IsFitting w call
        → IsFaithful w.node c i history
        → IsFaithful (step w history call).0.node c i (step w history call).1
    unfolding step
    step-IsFaithful w history (sending payload now_ms) fits h =
        send_whole-IsFaithful radio w c i history h payload now_ms fits
    step-IsFaithful w history (acknowledged ack_id now_ms) fits h =
        receive_ack-IsFaithful radio w c i history h ack_id now_ms
    step-IsFaithful w history (polling now_ms) fits h =
        (poll_lem_only radio w c i history small_id h now_ms).1

    pub run-IsFaithful :
        (w : World) (history : History) (calls : List Call)
        → AreFitting w history calls
        → IsFaithful w.node c i history
        → IsFaithful (run w history calls).0.node c i (run w history calls).1
    unfolding run
    run-IsFaithful w history [] fits h = h
    run-IsFaithful w history (call ∷ calls) fits h =
        run-IsFaithful (step w history call).0 (step w history call).1 calls fits.1
          (step-IsFaithful w history call fits.0 h)
