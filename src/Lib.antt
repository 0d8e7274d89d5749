-- ===== src/Lib.antt =====
-- ReliNow: delivery guarantees on top of ESP-NOW, the connectionless radio protocol of the ESP32.
--
-- The library is the C code under core/. Packets (core/src/relinow_packet.c) have a nine-byte
-- header. A reliable context (core/src/relinow_reliable.c) keeps, for one channel, the frames that
-- wait for an acknowledgment with their timers, and the buffer of frames that came early. The state
-- table (core/src/relinow_state.c) holds 20 peers with 16 channels each; a channel is RELIABLE,
-- UNRELIABLE or PRIORITY, and a RELIABLE one drives a reliable context. A node
-- (core/src/relinow_espnow.c) ties the table to the radio: it splits and reassembles messages,
-- caches frames, answers pings and calls the application back.
--
-- Files. Each component's definitions are in its own file, or in the files below it that are named
-- here, and the theorems in the other files below it.
--   Packet.antt: `validate_header`, `encode_header`, `decode_header`, `is_seq_newer` and `seq_next`
--     are the functions `relinow_` of these names.
--   Reliable/: `init`, `send`, `on_ack`, `poll`, `on_data` and their helpers are the functions
--     `relinow_reliable_` of these names, in Types, Setup, Sending and Receiving. Exchange.antt puts
--     two contexts at the ends of a network that loses, repeats, delays and reorders.
--   State/: the functions `relinow_state_` of the same names, by topic, in Types, Lookup, Peers,
--     Queues, ReliableMode, OtherModes, Heartbeat and Scheduler.
--   Node/: the functions of relinow_espnow.c, in Types, Caches, Frames, Setup, Sending, Receiving
--     and Polling.
--   Examples/: what examples/benchmark_c, examples/wokwi_demo and the firmware of examples/esp32_a
--     and examples/esp32_b do to a node, in Benchmark, Demo and Firmware. The firmware's calls of
--     `relinow_send_reliable` lack the channel, so that call is a parameter there.
--   Prelude.antt: shared names, arrays as lists, searches, bits and words.
-- Tests.antt of each component evaluates the definitions and applies the theorems to examples.
--
-- How the code is read.
--   * An operation on a structure takes its value and returns the new one. Pointers into the table
--     are indices; the null tests that guard each function have no counterpart.
--   * An out-parameter is an argument, what the variable holds before, and a result; it is left out
--     where the function stores to it first. Locals without an initial value are arguments or
--     constants that are named as such.
--   * A node's `max_payload` is at most 241: `relinow_init` refuses more, and nothing changes it
--     later. So what is copied into the frame of 250 bytes and into the caches fits. For a node
--     with a larger limit `relinow_send_frame` would write past the end of its frame; the model
--     answers `frame_overrun` there and sends nothing.
--   * An integer of the C code is a natural number, and each cast or wrap of 8, 16 or 32 bits that
--     can matter is written out (`u8`, `u16`, `u32`, `sub16`, `sub32`). An array is a list of its
--     declared length; a buffer with its length is a list.
--   * A function that is long in C is cut into steps that are named for the code's blocks.
--   * `esp_now_send` and the application's callbacks are not in the repository. The first is a
--     parameter of the node's operations, which may answer anything at any time; the callbacks are
--     effects in a log, and are taken not to call the node back.
--   * Loops over an array are searches or recursion on its indices. The scheduler's loop has its 16
--     rounds as fuel. The fragment loop has one round for each byte of the payload and one more,
--     which is enough since every round takes a byte or more.
--
-- Not modelled: the Rust bindings under rust/; the Rust example; the tests, the tools and the
-- documentation; and, of the examples that are modelled, the device's setup, tasks, clock and
-- log. The heartbeat and the frames carry no encryption: the flag for it is accepted and has no
-- effect.
pub mod Prelude
pub mod Packet
pub mod Reliable
pub mod State
pub mod Node
pub mod Examples
