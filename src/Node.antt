-- ===== src/Node.antt =====
-- core/src/relinow_espnow.c and core/include/relinow_espnow.h: a node, which joins the state table
-- with the radio, the frame caches, fragmentation and the application's callbacks.
pub mod Types
pub mod Caches
pub mod Frames
pub mod Setup
pub mod Sending
pub mod Receiving
pub mod Polling
pub mod EndToEnd
mod Tests
