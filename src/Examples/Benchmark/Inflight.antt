-- ===== src/Examples/Benchmark/Inflight.antt =====
-- The sender's test for frames in flight.
use relinow.Prelude.{ℕ, ◌≡◌, ◌≢◌, refl, ap, ◌∙◌, List, [], ◌∷◌, some, All, get_or-set_ne}
use relinow.State.Types.{Channel, State, zero_channel}
use relinow.State.Lookup.{peer_at, channel_at, put_channel, find_channel_mut}
use relinow.State.Lookup.Laws.{peer_at-put_channel}
use relinow.State.ReliableMode.History.{
  Call, step, run, IsFitting, IsHeld, step-IsHeld, step-IsKept,
}
use relinow.Examples.Benchmark.{benchmark_channel, inflight}

module _ (p i : ℕ) (apart : i ≢ benchmark_channel) where
  -- A change of one channel is not seen at another place of the table.
  other_place :
      (state : State) (channel : Channel)
      → find_channel_mut state p benchmark_channel ≡ some i
      → channel_at (put_channel state p i channel) p benchmark_channel
        ≡ channel_at state p benchmark_channel
  other_place state channel found =
      rw (peer_at-put_channel state p benchmark_channel i found channel)
        (get_or-set_ne (peer_at state p).channels i benchmark_channel channel zero_channel apart)

  step-inflight :
      (state : State) (call : Call)
      → IsFitting call
      → IsHeld state p benchmark_channel i
      → inflight (step p benchmark_channel state call) p ≡ inflight state p
  unfolding inflight
  step-inflight state call fits h =
      let k = step-IsKept state p benchmark_channel i call fits h in
      let same =
        ap (λ (st : State). channel_at st p benchmark_channel) k.written
        ∙ other_place state k.channel h.found in
      rw (same, inflight) refl

  -- Where the benchmark's channel 10 is in RELIABLE mode, with a transmit queue that mirrors its
  -- context, but not in place 10 of the table, no sequence of configuring, sending, acknowledging,
  -- polling and receiving on it, with arguments within their widths, changes what the sender takes
  -- for its frames in flight: the test looks at another channel.
  pub run-inflight :
      (calls : List Call) (state : State)
      → All IsFitting calls
      → IsHeld state p benchmark_channel i
      → inflight (run p benchmark_channel state calls) p ≡ inflight state p
  unfolding run
  run-inflight [] state fits h = refl
  run-inflight (call ∷ calls) state fits h =
      run-inflight calls (step p benchmark_channel state call) fits.1
        (step-IsHeld state p benchmark_channel i call fits.0 h)
      ∙ step-inflight state call fits.0 h
