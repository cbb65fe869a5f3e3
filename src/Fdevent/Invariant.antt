-- ===== src/Fdevent/Invariant.antt =====
-- adb/fdevent.c: what holds of the event loop's variables between the calls of its clients.
mod Defs
mod Alike
mod Set
pub mod Tests
mod Ops
mod Drain
mod Grow
mod Install
mod Ready
mod Process
mod Remove
pub use Defs.*
pub use Set.*
pub use Ops.*
pub use Drain.*
pub use Grow.*
pub use Install.*
pub use Ready.*
pub use Process.*
pub use Remove.*
