-- ===== src/Jdwp.antt =====
-- adb/jdwp_service.c: the processes that a debugger can reach, and the services that list them.
pub mod Text
pub mod State
pub mod Process
pub mod Connect
pub mod Sockets
mod Tests
