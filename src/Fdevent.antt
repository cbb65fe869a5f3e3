-- ===== src/Fdevent.antt =====
-- adb/fdevent.c: the event loop of the daemon.
pub mod Plist
pub mod Events
pub mod State
pub mod Select
pub mod Table
pub mod Api
pub mod Dispatch
pub mod Invariant
pub mod Watch
