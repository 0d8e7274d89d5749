-- ===== src/State.antt =====
-- core/src/relinow_state.c and core/include/relinow_state.h: the table of peers, each with its
-- channels. The children define the operations; the modules below each of those prove what they do.
pub mod Types
pub mod Lookup
pub mod Peers
pub mod Queues
pub mod ReliableMode
pub mod OtherModes
pub mod Heartbeat
pub mod Scheduler
mod Tests
