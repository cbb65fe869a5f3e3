-- ===== src/Transport.antt =====
-- adb/transport.cpp, adb/transport_local.cpp: packets and their way over a transport.
pub mod Packet
pub mod Rwx
pub mod Link
pub mod Choice
pub mod Tests
