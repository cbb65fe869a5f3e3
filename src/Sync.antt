-- ===== src/Sync.antt =====
-- adb/file_sync_service.c: the daemon's side of the file transfer protocol of adb/SYNC.TXT.
pub mod Wire
pub mod World
pub mod Mkdirs
pub mod Send
pub mod Ledger
pub mod Ends
pub mod Upload
pub mod Recv
pub mod Listing
pub mod Push
pub mod Kept
pub mod Service
pub mod Tests
