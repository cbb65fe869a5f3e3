-- ===== src/Sync/Wire.antt =====
-- adb/file_sync_service.h: the message ids and words of the protocol, on a little-endian machine.
pub use adb_wide.Base.Words.{le32, word}
use adb_wide.Base.{ℕ, ◌+◌, ◌*◌, List, ◌++◌}

-- The macro MKID, for characters below 128.
abbrev pub mkid : ℕ → ℕ → ℕ → ℕ → ℕ
mkid a b c d = a + b * 256 + c * 65536 + d * 16777216

abbrev pub id_stat : ℕ
id_stat = mkid b'S' b'T' b'A' b'T'

abbrev pub id_list : ℕ
id_list = mkid b'L' b'I' b'S' b'T'

abbrev pub id_send : ℕ
id_send = mkid b'S' b'E' b'N' b'D'

abbrev pub id_recv : ℕ
id_recv = mkid b'R' b'E' b'C' b'V'

abbrev pub id_dent : ℕ
id_dent = mkid b'D' b'E' b'N' b'T'

abbrev pub id_done : ℕ
id_done = mkid b'D' b'O' b'N' b'E'

abbrev pub id_data : ℕ
id_data = mkid b'D' b'A' b'T' b'A'

abbrev pub id_okay : ℕ
id_okay = mkid b'O' b'K' b'A' b'Y'

abbrev pub id_fail : ℕ
id_fail = mkid b'F' b'A' b'I' b'L'

abbrev pub id_quit : ℕ
id_quit = mkid b'Q' b'U' b'I' b'T'

abbrev pub sync_data_max : ℕ
sync_data_max = 65536

-- The members `data`, `status` and `req` of syncmsg: an id and a word.
abbrev pub message : ℕ → ℕ → List ℕ
message id size = le32 id ++ le32 size
