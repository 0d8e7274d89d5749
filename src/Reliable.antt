-- ===== src/Reliable.antt =====
-- core/src/relinow_reliable.c and core/include/relinow_reliable.h: the reliable context of one
-- channel. It holds a window of unacknowledged frames with their retransmission timers on the
-- sending side, and the expected number with a reorder buffer on the receiving side.
pub mod Types
pub mod Setup
pub mod Sending
pub mod Receiving
pub mod Timeout
pub mod Slots
pub mod Sender
pub mod Expiry
pub mod Retries
pub mod Window
pub mod Receiver
pub mod Delivery
pub mod Acknowledge
pub mod Invariant
pub mod Calls
pub mod Exchange
pub mod Draining
mod Tests
pub use Types.*
unfoldable pub use Setup.*
unfoldable pub use Sending.*
unfoldable pub use Receiving.*
