-- ===== src/Examples/Firmware/Pacing.antt =====
-- The timers of the loop of `app_main`: how often the boards send.
use relinow.Prelude.{
  ℕ, subst, ◌+◌, ◌*◌, ◌≤◌, ◌<◌, ◌≡◌, refl, ◌⊎◌, inl, inr, List, [], ◌∷◌, some, true, arith, leb,
  u32, sub32, Bool-cases, Option-cases, Option, none,
}
use native.Mathlib.Nat.{zero-mul, add-mul, one-mul, le-mul_of_pos_right, mod-eq_of_lt}
use relinow.Node.Types.{Radio, Node}
use relinow.Examples.Firmware.{
  Device, Texts, SendReliable, Board, Round, timer_due, reliable_turn, unreliable_turn,
  priority_turn, poll_turn, loop_round, loop, start_node, start,
}

-- The rounds' times do not go back, and stay within the clock's 32 bits.
abbrev pub Ascending : ℕ → List Round → Type 0
Ascending before [] = Unit
Ascending before (round ∷ rounds) =
    (before ≤ round.now) × (round.now < 4294967296) × Ascending round.now rounds

-- The time of the last round.
abbrev pub end_time : ℕ → List Round → ℕ
end_time before [] = before
end_time before (round ∷ rounds) = end_time round.now rounds

-- A timer that has fired `count` times: a period or more apart, last at `last`, and never before
-- the guard.
pub record IsPaced (guard period count last now : ℕ) : Type 0 where
  pub apart : count * period ≤ last
  pub past : last ≤ now
  pub guarded : (count ≡ 0) ⊎ (guard ≤ last)

later-IsPaced :
    {guard period count last now now' : ℕ}
    → now ≤ now'
    → IsPaced guard period count last now
    → IsPaced guard period count last now'
later-IsPaced le v = record {
  apart = v.apart;
  past = omega (arith, le, v.past);
  guarded = v.guarded;
}

-- A timer that is due fires; its counter does not wrap.
fired-IsPaced :
    {guard period count last now : ℕ}
    → 0 < period
    → now < 4294967296
    → guard ≤ now
    → leb period (sub32 now last) ≡ true
    → IsPaced guard period count last now
    → IsPaced guard period (u32 (count + 1)) now now
fired-IsPaced {guard} {period} {count} {last} {now} positive small open_now due v =
    let spread : (count + 1) * period ≡ count * period + period = rw (add-mul, one-mul) refl in
    let apart : (count + 1) * period ≤ now = rw spread (ground (arith, v.apart, v.past)) in
    let small_count : count + 1 ≤ (count + 1) * period = le-mul_of_pos_right (count + 1) positive in
    let kept : u32 (count + 1) ≡ count + 1 = mod-eq_of_lt (omega (arith, apart, small_count)) in
    record { apart = rw kept apart; past = omega arith; guarded = inr open_now }

-- A board whose three timers are paced, at the time of its last round.
pub record IsPacedBoard (device : Device) (board : Board) (now : ℕ) : Type 0 where
  pub reliable :
      IsPaced board.startup_guard_until device.reliable_tx_period_ms board.reliable_counter
        board.last_reliable_send now
  pub unreliable :
      IsPaced board.startup_guard_until device.unreliable_burst_period_ms board.unreliable_counter
        board.last_unreliable_burst now
  pub priority :
      IsPaced board.startup_guard_until device.priority_burst_period_ms board.priority_counter
        board.last_priority_burst now

-- All three periods are positive.
pub record HasPeriods (device : Device) : Type 0 where
  pub reliable : 0 < device.reliable_tx_period_ms
  pub unreliable : 0 < device.unreliable_burst_period_ms
  pub priority : 0 < device.priority_burst_period_ms

module _ (radio : Radio) (send : SendReliable) (device : Device) (texts : Texts)
    (positive : HasPeriods device) where
  module _ (board : Board) (round : Round) (small : round.now < 4294967296)
      (v : IsPacedBoard device board round.now) where
    reliable_turn-IsPaced :
        IsPacedBoard device (reliable_turn radio send device texts board round) round.now
    unfolding reliable_turn timer_due
    reliable_turn-IsPaced =
        elim (Bool-cases
          (timer_due board round.now board.last_reliable_send device.reliable_tx_period_ms)) [
            | inr not_due ↦ rw (not_due, reliable_turn) v
            | inl due ↦
                rw (due, reliable_turn)
                  (record {
                    reliable =
                        fired-IsPaced positive.reliable small (ground arith) (ground arith)
                          v.reliable;
                    unreliable = v.unreliable;
                    priority = v.priority;
                  })
          ]

    unreliable_turn-IsPaced :
        IsPacedBoard device (unreliable_turn radio device texts board round) round.now
    unfolding unreliable_turn timer_due
    unreliable_turn-IsPaced =
        elim (Bool-cases (
          timer_due board round.now board.last_unreliable_burst
            device.unreliable_burst_period_ms)) [
              | inr not_due ↦ rw (not_due, unreliable_turn) v
              | inl due ↦
                  rw (due, unreliable_turn)
                    (record {
                      reliable = v.reliable;
                      unreliable =
                          fired-IsPaced positive.unreliable small (ground arith) (ground arith)
                            v.unreliable;
                      priority = v.priority;
                    })
            ]

    priority_turn-IsPaced :
        IsPacedBoard device (priority_turn radio device texts board round) round.now
    unfolding priority_turn timer_due
    priority_turn-IsPaced =
        elim (Bool-cases
          (timer_due board round.now board.last_priority_burst device.priority_burst_period_ms)) [
            | inr not_due ↦ rw (not_due, priority_turn) v
            | inl due ↦
                rw (due, priority_turn)
                  (record {
                    reliable = v.reliable;
                    unreliable = v.unreliable;
                    priority =
                        fired-IsPaced positive.priority small (ground arith) (ground arith)
                          v.priority;
                  })
          ]

    poll_turn-IsPaced : IsPacedBoard device (poll_turn radio board round) round.now
    unfolding poll_turn
    poll_turn-IsPaced = elim (Bool-cases round.poll_lock) [
      | inl free ↦
          rw (free, poll_turn)
            (record { reliable = v.reliable; unreliable = v.unreliable; priority = v.priority })
      | inr held ↦ rw (held, poll_turn) v
    ]

  -- Each round keeps the timers paced, and leaves the guard.
  loop_round-IsPaced :
      (board : Board) (round : Round) (before : ℕ)
      → before ≤ round.now
      → round.now < 4294967296
      → IsPacedBoard device board before
      → IsPacedBoard device (loop_round radio send device texts board round) round.now
  unfolding loop_round
  loop_round-IsPaced board round before le small v =
      let v0 : IsPacedBoard device board round.now = record {
        reliable = later-IsPaced le v.reliable;
        unreliable = later-IsPaced le v.unreliable;
        priority = later-IsPaced le v.priority;
      } in
      let board1 = reliable_turn radio send device texts board round in
      let board2 = unreliable_turn radio device texts board1 round in
      let board3 = priority_turn radio device texts board2 round in
      let v1 = reliable_turn-IsPaced board round small v0 in
      let v2 = unreliable_turn-IsPaced board1 round small v1 in
      let v3 = priority_turn-IsPaced board2 round small v2 in
      poll_turn-IsPaced board3 round small v3

  loop-IsPaced :
      (rounds : List Round) (board : Board) (before : ℕ)
      → Ascending before rounds
      → IsPacedBoard device board before
      → IsPacedBoard device (loop radio send device texts board rounds) (end_time before rounds)
  unfolding loop
  loop-IsPaced [] board before up v = v
  loop-IsPaced (round ∷ rounds) board before (le, small, up) v =
      loop-IsPaced rounds (loop_round radio send device texts board round) round.now up
        (loop_round-IsPaced board round before le small v)

-- Where there is a board, its timers are paced.
abbrev ArePaced : Device → ℕ → Option Board → Type 0
ArePaced device now_ms none = Unit
ArePaced device now_ms (some board) = IsPacedBoard device board now_ms

zero-IsPaced : (guard period now : ℕ) → IsPaced guard period 0 0 now
zero-IsPaced guard period now = record {
  apart = rw zero-mul (omega arith);
  past = omega arith;
  guarded = inl refl;
}

start-IsPaced :
    (device : Device) (node : Node) (now_ms : ℕ) (board : Board)
    → start device node now_ms ≡ some board
    → IsPacedBoard device board now_ms
unfolding start
start-IsPaced device node now_ms board e =
    subst (ArePaced device now_ms) e (elim (Option-cases (start_node device node)) [
      | inl failed ↦ rw (failed, start) tt
      | inr (node', ready) ↦
          rw (ready, start)
            (record {
              reliable = zero-IsPaced _ _ _;
              unreliable = zero-IsPaced _ _ _;
              priority = zero-IsPaced _ _ _;
            })
    ])

-- A board of positive periods that has started, and whose rounds come at times that do not go back
-- and stay within the clock's 32 bits: on each of its three timers it has sent, or tried to, so
-- often that the number of times, each taken a whole period, fits in the time up to the last one;
-- the counters do not wrap; and nothing was sent before the guard of its start was over.
pub loop_paced :
    (radio : Radio) (send : SendReliable) (device : Device) (texts : Texts) (node : Node)
    (now_ms : ℕ) (board : Board) (rounds : List Round)
    → HasPeriods device
    → start device node now_ms ≡ some board
    → Ascending now_ms rounds
    → IsPacedBoard device (loop radio send device texts board rounds) (end_time now_ms rounds)
loop_paced radio send device texts node now_ms board rounds positive started up =
    loop-IsPaced radio send device texts positive rounds board now_ms up
      (start-IsPaced device node now_ms board started)
