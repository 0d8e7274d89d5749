-- ===== src/Examples/Firmware.antt =====
-- examples/esp32_a/main/main.c and examples/esp32_b/main/main.c: two boards that send to each other
-- on a RELIABLE, an UNRELIABLE and a PRIORITY channel, each on its own timer. The two programs are
-- the same but for the constants of `Device` and the texts.
--
-- The device's setup is not modelled. Of FreeRTOS the model has what `xSemaphoreTake` answers, and
-- of the C library what `snprintf` writes; both are arguments. The call of `relinow_send_reliable`
-- lacks the channel that the library asks for, so what it does is an argument too.
pub mod Callbacks
pub mod Boards
pub mod Pacing
mod Tests
use relinow.Prelude.{
  ℕ, zero, suc, ◌+◌, List, [], ◌∷◌, Option, none, some, Bool, true, false, not, ◌&&◌, ltb, leb,
  if◌then◌else◌, length, u32, sub32,
}
use relinow.Packet.{mode_reliable, mode_unreliable, mode_priority}
use relinow.Node.Types.{EspErr, Radio, Node, NodeConfig, World, default_node_config}
use relinow.Node.Setup.{init, open_channel}
use relinow.Node.Sending.{is_esp_ok, send_unreliable, send_priority}
use relinow.Node.Polling.{poll}

abbrev pub reliable_channel_id : ℕ
reliable_channel_id = 1

abbrev pub unreliable_channel_id : ℕ
unreliable_channel_id = 2

abbrev pub priority_channel_id : ℕ
priority_channel_id = 3

abbrev pub unreliable_burst_count : ℕ
unreliable_burst_count = 3

abbrev pub startup_guard_ms : ℕ
startup_guard_ms = 2500

-- In what the two programs differ.
pub record Device : Type 0 where
  pub peer_mac : List ℕ
  pub reliable_tx_period_ms : ℕ
  pub unreliable_burst_period_ms : ℕ
  pub priority_burst_period_ms : ℕ

-- What `snprintf` writes for each counter, with the number of the frame in a burst; the empty text
-- stands for an error. All texts are shorter than their buffer of 96 bytes.
pub record Texts : Type 0 where
  pub reliable : ℕ → List ℕ
  pub unreliable : ℕ → ℕ → List ℕ
  pub stale : ℕ → List ℕ
  pub fresh : ℕ → List ℕ

-- The call of `relinow_send_reliable` with the node, the message and the time.
abbrev pub SendReliable : Type 0
SendReliable = Radio → World → List ℕ → ℕ → EspErr × World

-- The local variables of `app_main` that its loop uses, and the node.
pub record Board : Type 0 where
  pub world : World
  pub last_reliable_send : ℕ
  pub last_unreliable_burst : ℕ
  pub last_priority_burst : ℕ
  pub reliable_counter : ℕ
  pub unreliable_counter : ℕ
  pub priority_counter : ℕ
  pub startup_guard_until : ℕ

-- One round of the loop: the time, and whether each `xSemaphoreTake` gets the lock.
pub record Round : Type 0 where
  pub now : ℕ
  pub reliable_lock : Bool
  pub unreliable_lock : ℕ → Bool
  pub priority_lock : Bool
  pub poll_lock : Bool

-- `cfg`
abbrev pub board_config : Device → NodeConfig
board_config device = record default_node_config {
  peer_mac = device.peer_mac;
  channel_id = reliable_channel_id;
  mode = mode_reliable;
  on_message = true;
  on_tx_event = true;
}

-- `ESP_ERROR_CHECK`: the program goes on with the node, or ends.
abbrev pub checked : EspErr × Node → Option Node
checked (erc, node) = if is_esp_ok erc then some node else none

infixl 5 ◌>>=◌
abbrev pub ◌>>=◌ : {A B : Type 0} → Option A → (A → Option B) → Option B
none >>= f = none
some a >>= f = f a

-- The three calls on the node before the loop; `node` is what its memory holds.
unfoldable pub start_node : Device → Node → Option Node
start_node device node = do
  started ← checked (init node (board_config device))
  opened ← checked (open_channel started unreliable_channel_id mode_unreliable 0)
  checked (open_channel opened priority_channel_id mode_priority 0)

-- The local variables before the loop, at the time that is read for the guard.
abbrev pub before_loop : ℕ → Node → Board
before_loop now_ms node = record {
  world = record { node = node; log = [] };
  last_reliable_send = 0;
  last_unreliable_burst = 0;
  last_priority_burst = 0;
  reliable_counter = 0;
  unreliable_counter = 0;
  priority_counter = 0;
  startup_guard_until = u32 (now_ms + startup_guard_ms);
}

-- `app_main` up to its loop.
unfoldable pub start : Device → Node → ℕ → Option Board
start device node now_ms = do started ← start_node device node; some (before_loop now_ms started)

-- `now >= startup_guard_until && (now - last) >= period`
unfoldable pub timer_due : Board → ℕ → ℕ → ℕ → Bool
timer_due board now last period = leb board.startup_guard_until now && leb period (sub32 now last)

abbrev pub with_world : Board → World → Board
with_world board w = record board { world = w }

-- The first block of the loop; an error of the send is only logged.
unfoldable pub reliable_turn : Radio → SendReliable → Device → Texts → Board → Round → Board
unfolding timer_due
reliable_turn radio send device texts board round =
    if timer_due board round.now board.last_reliable_send device.reliable_tx_period_ms
    then (let msg = texts.reliable board.reliable_counter in
        record board {
          world =
              if ltb 0 (length msg) && round.reliable_lock
              then (send radio board.world msg round.now).1
              else board.world;
          reliable_counter = u32 (board.reliable_counter + 1);
          last_reliable_send = round.now;
        })
    else board

-- The loop of an UNRELIABLE burst, with the frames that are left and the number of the next one.
unfoldable pub unreliable_burst : ℕ → Radio → Texts → Round → ℕ → ℕ → World → World
unreliable_burst zero radio texts round counter i w = w
unreliable_burst (suc left) radio texts round counter i w =
    let msg = texts.unreliable counter i in
    let w' : World =
      if ltb 0 (length msg) && round.unreliable_lock i
      then (send_unreliable radio w unreliable_channel_id msg).1
      else w in
    unreliable_burst left radio texts round counter (i + 1) w'

-- The second block of the loop.
unfoldable pub unreliable_turn : Radio → Device → Texts → Board → Round → Board
unfolding timer_due unreliable_burst
unreliable_turn radio device texts board round =
    if timer_due board round.now board.last_unreliable_burst device.unreliable_burst_period_ms
    then record board {
      world =
          unreliable_burst unreliable_burst_count radio texts round board.unreliable_counter 0
            board.world;
      unreliable_counter = u32 (board.unreliable_counter + 1);
      last_unreliable_burst = round.now;
    }
    else board

-- The third block of the loop: a message and its replacement.
unfoldable pub priority_turn : Radio → Device → Texts → Board → Round → Board
unfolding timer_due
priority_turn radio device texts board round =
    if timer_due board round.now board.last_priority_burst device.priority_burst_period_ms
    then (let stale_msg = texts.stale board.priority_counter in
        let fresh_msg = texts.fresh board.priority_counter in
        record board {
          world =
              if ltb 0 (length stale_msg) && ltb 0 (length fresh_msg) && round.priority_lock
              then (let stale = send_priority radio board.world priority_channel_id stale_msg in
                  (send_priority radio stale.1 priority_channel_id fresh_msg).1)
              else board.world;
          priority_counter = u32 (board.priority_counter + 1);
          last_priority_burst = round.now;
        })
    else board

-- The last block of the loop.
unfoldable pub poll_turn : Radio → Board → Round → Board
poll_turn radio board round =
    if round.poll_lock then with_world board (poll radio board.world round.now).1 else board

-- One round of the loop of `app_main`.
unfoldable pub loop_round : Radio → SendReliable → Device → Texts → Board → Round → Board
unfolding reliable_turn unreliable_turn priority_turn poll_turn
loop_round radio send device texts board round =
    let reliable = reliable_turn radio send device texts board round in
    let unreliable = unreliable_turn radio device texts reliable round in
    let priority = priority_turn radio device texts unreliable round in
    poll_turn radio priority round

-- The loop over the rounds given.
unfoldable pub loop : Radio → SendReliable → Device → Texts → Board → List Round → Board
loop radio send device texts board [] = board
loop radio send device texts board (round ∷ rounds) =
    loop radio send device texts (loop_round radio send device texts board round) rounds
