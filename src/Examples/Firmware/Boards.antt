-- ===== src/Examples/Firmware/Boards.antt =====
-- The constants of examples/esp32_a/main/main.c and examples/esp32_b/main/main.c, and the second
-- program's own `app_main`.
use relinow.Prelude.{ℕ, [], ◌∷◌, Option}
use relinow.Node.Types.{Radio, Node}
use relinow.Examples.Firmware.{Device, Texts, SendReliable, Board, Round, start, loop_round}

-- esp32_a, with the address of esp32_b.
abbrev pub device_a : Device
device_a = record {
  peer_mac = 0xac ∷ 0x15 ∷ 0x18 ∷ 0xe6 ∷ 0x5b ∷ 0xd0 ∷ [];
  reliable_tx_period_ms = 1000;
  unreliable_burst_period_ms = 4000;
  priority_burst_period_ms = 1500;
}

-- esp32_b, with the address of esp32_a.
abbrev pub device_b : Device
device_b = record {
  peer_mac = 0x88 ∷ 0x13 ∷ 0xbf ∷ 0x25 ∷ 0x1b ∷ 0x30 ∷ [];
  reliable_tx_period_ms = 3000;
  unreliable_burst_period_ms = 5000;
  priority_burst_period_ms = 1700;
}

-- `app_main` of esp32_b up to its loop.
abbrev pub start_b : Node → ℕ → Option Board
start_b = start device_b

-- One round of the loop of `app_main` of esp32_b.
abbrev pub loop_round_b : Radio → SendReliable → Texts → Board → Round → Board
loop_round_b radio send texts board round = loop_round radio send device_b texts board round
