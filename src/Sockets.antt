-- ===== src/Sockets.antt =====
-- adb/sockets.cpp: the local sockets, which join a descriptor to a peer.
pub mod State
pub mod Remote
pub mod Create
pub mod Pieces
pub mod Close
pub mod Local
pub mod Smart
pub mod Receive
pub mod Tests
