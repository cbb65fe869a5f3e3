-- ===== src/Daemon.antt =====
-- adb/adb.cpp and adb/adb_auth_client.c: the transports of adbd, its packets, and who may connect.
pub mod State
pub mod Auth
pub mod Packets
pub mod Banner
pub mod Tests
