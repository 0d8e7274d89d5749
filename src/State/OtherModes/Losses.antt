-- ===== src/State/OtherModes/Losses.antt =====
-- The loss statistics of an UNRELIABLE channel.
use relinow.Prelude.{ℕ, suc, ◌+◌, ◌%◌, ◌<◌, ◌≡◌, List, [], ◌∷◌, true, arith, u16, u32}
use relinow.Packet.{is_seq_newer}
use relinow.State.Types.{Channel}
use relinow.State.OtherModes.{count_received}

-- Frames as they arrive on a channel.
unfoldable pub count_all : Channel → List ℕ → Channel
count_all channel [] = channel
count_all channel (seq_id ∷ frames) = count_all (count_received channel seq_id) frames

-- `n` frames in order after `last`, none missing.
abbrev pub following : ℕ → ℕ → List ℕ
following last ℕ.zero = []
following last (suc n) = u16 (last + 1) ∷ following (u16 (last + 1)) n

abbrev next_counted : Channel → Channel
next_counted channel = record channel {
  stats = record {
    total_rx = u32 (channel.stats.total_rx + 1);
    total_lost = u32 (channel.stats.total_lost + 1);
  };
  expected_rx_seq = u16 (channel.expected_rx_seq + 1);
}

-- The frame right after the last one received counts as one lost.
counted :
    (channel : Channel)
    → channel.has_rx_seq ≡ true
    → channel.expected_rx_seq < 65536
    → count_received channel (u16 (channel.expected_rx_seq + 1)) ≡ next_counted channel
unfolding count_received is_seq_newer
counted channel has small = ground arith

-- A channel that has received a frame, and then receives `n` frames in order with none missing
-- between them, still counts each of those as lost: `total_lost` grows by `n`, as `total_rx` does,
-- up to 32 bits.
pub count_all-following :
    (n : ℕ) (channel : Channel)
    → channel.has_rx_seq ≡ true
    → channel.expected_rx_seq < 65536
    → let channel' = count_all channel (following channel.expected_rx_seq n) in
      (channel'.stats.total_lost % 4294967296 ≡ (channel.stats.total_lost + n) % 4294967296)
      × (channel'.stats.total_rx % 4294967296 ≡ (channel.stats.total_rx + n) % 4294967296)
unfolding count_all
count_all-following ℕ.zero channel has small = omega arith
count_all-following (suc n) channel has small =
    rw (count_all, counted channel has small)
      (let ih = count_all-following n (next_counted channel) has (omega arith) in
        (omega (arith, ih.0), omega (arith, ih.1)))
