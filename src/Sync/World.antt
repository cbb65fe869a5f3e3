-- ===== src/Sync/World.antt =====
-- adb/file_sync_service.c: what the service reads, and the system calls that it makes.
use adb_wide.Base.{
  ℕ, Bool, true, false, Option, none, some, List, [], ◌∷◌, length, take, drop, ltb, if◌then◌else◌,
}
use adb_wide.Sync.Wire.{message, id_fail}

-- A path or other text: its bytes, without the final null.
abbrev pub Text : Type 0
Text = List ℕ

pub data Errno : Type 0 where
  success enoent eexist eintr : Errno
  other : ℕ → Errno

-- O_WRONLY | O_CREAT | O_EXCL; O_WRONLY; O_RDONLY.
pub data Flags : Type 0 where
  create_new write_only read_only : Flags

-- The calls of the system, in the order of the source. `send` is writex to the client; `dir` says that
-- the name given to restorecon is a directory made on the way.
pub data Call : Type 0 where
  send : List ℕ → Call
  open_file : Text → Flags → ℕ → Call
  close_file : ℕ → Call
  read_file : ℕ → Call
  write_file : ℕ → List ℕ → Call
  fchown : ℕ → ℕ → ℕ → Call
  fchmod : ℕ → ℕ → Call
  mkdir : Text → ℕ → Call
  chown : Text → ℕ → ℕ → Call
  restorecon : Text → Call
  utime : Text → ℕ → Call
  unlink : Text → Call
  lstat : Text → Call
  symlink : Text → Text → Call
  opendir : Text → Call
  closedir : ℕ → Call

pub record Stat : Type 0 where
  pub mode : ℕ
  pub size : ℕ
  pub time : ℕ

-- The result of a call: whether it failed and how, and the part of the rest that the call has: a
-- descriptor, that of the stream for a directory, the bytes read, the attributes of a file, the names in a directory.
pub record Reply : Type 0 where
  pub failed : Bool
  pub errno : Errno
  pub fd : ℕ
  pub bytes : List ℕ
  pub stat : Stat
  pub names : List Text

-- The owner and the mode that fs_config gives.
pub record Owner : Type 0 where
  pub uid : ℕ
  pub gid : ℕ
  pub mode : ℕ

-- What the code relies on and this repository does not hold: the system, which answers a call after
-- the calls made before it (the latest first); strerror; fs_config, of a name, whether it is a
-- directory, and the owner and mode so far; the number that strtoul gives and the errno that it
-- leaves, where errno was 0; what the buffer of the service holds behind the bytes last read into it.
pub record Platform : Type 0 where
  pub reply : List Call → Call → Reply
  pub strerror : Errno → Text
  pub fs_config : Text → Bool → Owner → Owner
  pub strtoul : Text → ℕ × Errno
  pub stale : List Call → List ℕ

-- The bytes that the client has still to send, the calls made so far (the latest first), and errno.
pub record World : Type 0 where
  pub input : List ℕ
  pub trace : List Call
  pub errno : Errno

module _ (sys : Platform) where
  unfoldable pub do_call : Call → World → Reply × World
  do_call c w =
      let r = sys.reply w.trace c in
      (r, record w { trace = c ∷ w.trace; errno = if r.failed then r.errno else w.errno })

  -- writex to the client: true if it failed. Nothing is written of no bytes.
  unfoldable pub send_bytes : List ℕ → World → Bool × World
  unfolding do_call
  send_bytes [] w = (false, w)
  send_bytes (b ∷ bytes) w = let (r, w') = do_call (send (b ∷ bytes)) w in (r.failed, w')

  -- fail_message: true if the client could not be told.
  unfoldable pub fail_message : Text → World → Bool × World
  unfolding send_bytes
  fail_message reason w =
      let (failed, w') = send_bytes (message id_fail (length reason)) w in
      if failed then (true, w') else send_bytes reason w'

  unfoldable pub fail_errno : World → Bool × World
  unfolding fail_message
  fail_errno w = fail_message (sys.strerror w.errno) w

-- readx from the client, `none` where the stream ends before.
unfoldable pub readx : ℕ → World → Option (List ℕ) × World
readx n w =
    if ltb (length w.input) n
    then (none, record w { input = [] })
    else (some (take n w.input), record w { input = drop n w.input })
