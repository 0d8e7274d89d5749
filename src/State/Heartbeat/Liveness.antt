-- ===== src/State/Heartbeat/Liveness.antt =====
-- Liveness of a peer: missed answers are counted up to the limit, and an answer starts again.
use relinow.Prelude.{
  ℕ, ◌+◌, ◌≤◌, ◌<◌, ◌≡◌, ◌⊎◌, List, [], ◌∷◌, ◌++◌, length, true, false, arith, sub32,
}
use relinow.State.Types.{Peer}
use relinow.State.Heartbeat.{beat}

-- One poll of the heartbeat of a peer in use, with an interval set, a limit of 8 bits and no more
-- unanswered pings than that. Before the interval is over nothing happens; after it a ping is due
-- and is counted while fewer than the limit are unanswered, and otherwise the peer has timed out.
-- Never both, and the counter neither passes the limit nor wraps.
beat_lem :
    (peer : Peer) (now_ms : ℕ)
    → peer.in_use ≡ true
    → 0 < peer.heartbeat_interval_ms
    → peer.heartbeat_miss_count_max < 256
    → peer.missed_pongs ≤ peer.heartbeat_miss_count_max
    → let (peer', result) = beat peer now_ms in
      let elapsed = sub32 now_ms peer.last_ping_sent_ms in
      (peer'.missed_pongs ≤ peer'.heartbeat_miss_count_max)
      × (((elapsed < peer.heartbeat_interval_ms)
            × (peer' ≡ peer)
            × (result ≡ record { should_ping = false; peer_timeout = false }))
          ⊎ ((peer.heartbeat_interval_ms ≤ elapsed)
              × (peer.missed_pongs < peer.heartbeat_miss_count_max)
              × (peer' ≡ record peer {
                missed_pongs = peer.missed_pongs + 1;
                last_ping_sent_ms = now_ms;
              })
              × (result ≡ record { should_ping = true; peer_timeout = false }))
          ⊎ ((peer.heartbeat_interval_ms ≤ elapsed)
              × (peer.missed_pongs ≡ peer.heartbeat_miss_count_max)
              × (peer' ≡ peer)
              × (result ≡ record { should_ping = false; peer_timeout = true })))
unfolding beat
beat_lem peer now_ms used on small within = ground arith

-- Polls at the given times with no answer in between.
unfoldable pub beat_all : Peer → List ℕ → Peer
beat_all peer [] = peer
beat_all peer (now_ms ∷ times) = beat_all (beat peer now_ms).0 times

-- Times that lie an interval apart, the first an interval after the last ping.
abbrev pub IsSpaced : ℕ → ℕ → List ℕ → Type 0
IsSpaced interval last [] = Unit {0}
IsSpaced interval last (now_ms ∷ times) =
    (interval ≤ sub32 now_ms last) × IsSpaced interval now_ms times

pinged :
    (peer : Peer) (now_ms : ℕ)
    → peer.in_use ≡ true
    → 0 < peer.heartbeat_interval_ms
    → peer.heartbeat_miss_count_max < 256
    → peer.missed_pongs < peer.heartbeat_miss_count_max
    → peer.heartbeat_interval_ms ≤ sub32 now_ms peer.last_ping_sent_ms
    → (beat peer now_ms).0
      ≡ record peer { missed_pongs = peer.missed_pongs + 1; last_ping_sent_ms = now_ms }
unfolding beat
pinged peer now_ms used on small under due = ground arith

timed_out :
    (peer : Peer) (now_ms : ℕ)
    → peer.in_use ≡ true
    → 0 < peer.heartbeat_interval_ms
    → peer.missed_pongs ≡ peer.heartbeat_miss_count_max
    → peer.heartbeat_interval_ms ≤ sub32 now_ms peer.last_ping_sent_ms
    → (beat peer now_ms).1 ≡ record { should_ping = false; peer_timeout = true }
unfolding beat
timed_out peer now_ms used on reached due = ground arith

-- A silent peer times out. For a peer in use, with an interval set and a limit of 8 bits, that is
-- polled at times an interval or more apart with no answer in between: after as many pings as the
-- limit leaves, the next poll reports the timeout and no ping.
pub silent_timeout :
    (peer : Peer) (times : List ℕ) (last_ms : ℕ)
    → peer.in_use ≡ true
    → 0 < peer.heartbeat_interval_ms
    → peer.heartbeat_miss_count_max < 256
    → length times + peer.missed_pongs ≡ peer.heartbeat_miss_count_max
    → IsSpaced peer.heartbeat_interval_ms peer.last_ping_sent_ms (times ++ (last_ms ∷ []))
    → (beat (beat_all peer times) last_ms).1 ≡ record { should_ping = false; peer_timeout = true }
unfolding beat_all
silent_timeout peer [] last_ms used on small reached spaced =
    timed_out peer last_ms used on (omega arith) spaced.0
silent_timeout peer (now_ms ∷ times) last_ms used on small reached spaced =
    rw (pinged peer now_ms used on small (omega arith) spaced.0) (
      silent_timeout
        (record peer { missed_pongs = peer.missed_pongs + 1; last_ping_sent_ms = now_ms }) times
        last_ms used on small (omega arith) spaced.1)
