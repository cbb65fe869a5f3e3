-- ===== src/Sync/Push.antt =====
-- adb/file_sync_service.c: handle_send_link and do_send.
pub mod Mode
use Prim.Native.Nat.{bit_and, bit_or}
use adb_wide.Base.{
  ℕ, ◌/◌, ◌%◌, Bool, true, false, ◌||◌, Option, none, some, List, [], ◌∷◌, ◌++◌, drop, ltb, ◌==◌,
  if◌then◌else◌,
}
use adb_wide.Sync.Wire.{word, message, id_data, id_done, id_okay, sync_data_max}
use adb_wide.Sync.World.{
  Text, Errno, success, lstat, symlink, Owner, Platform, World, do_call, send_bytes, fail_message,
  fail_errno, readx,
}
use adb_wide.Sync.Mkdirs.{mkdirs, no_id, is_enoent, is_on_system}
use adb_wide.Sync.Send.{expected_data, expected_done, oversize_data, unlink_if, handle_send_file}

-- The bytes up to the first null.
abbrev pub c_string : List ℕ → Text
c_string [] = []
c_string (c ∷ cs) = if c == 0 then [] else c ∷ c_string cs

-- strrchr(path, ','): what stands before the last comma and after it.
unfoldable pub last_comma : Text → Option (Text × Text)
last_comma [] = none
last_comma (c ∷ cs) = elim (last_comma cs) [
  | some (name, digits) ↦ some (c ∷ name, digits)
  | none ↦ if c == b',' then some ([], cs) else none
]

-- S_ISREG and S_ISLNK.
abbrev pub is_reg : ℕ → Bool
is_reg mode = mode / 4096 % 16 == 8

abbrev pub is_lnk : ℕ → Bool
is_lnk mode = mode / 4096 % 16 == 10

-- The user's permission bits for the group, and the group's for the others.
unfoldable pub spread_mode : ℕ → ℕ
spread_mode mode =
    let mode' = bit_or mode (bit_and (mode / 8) 0o070) in bit_or mode' (bit_and (mode' / 8) 0o007)

abbrev pub is_success : Errno → Bool
is_success success = true
is_success _ = false

abbrev pub skip_slash : Text → Text
skip_slash [] = []
skip_slash (c ∷ cs) = if c == b'/' then cs else c ∷ cs

module _ (sys : Platform) where
  -- After symlink has succeeded: the message that ends the link.
  unfoldable pub finish_link : World → Bool × World
  finish_link w =
      let (head, w1) = readx 8 w in
      elim head [
        | none ↦ (true, w1)
        | some h ↦
            (if word h == id_done
              then send_bytes sys (message id_okay 0) w1
              else (true, (fail_message sys expected_done w1).1))
      ]

  -- The making of the link, with a second try in a new directory.
  unfoldable pub make_link : Text → Text → World → Bool × World
  unfolding do_call finish_link
  make_link target path w =
      let (r, w1) = do_call sys (symlink target path) w in
      let (stuck, w2) = mkdirs sys path w1 in
      let (r', w3) = do_call sys (symlink target path) w2 in
      if r.failed
      then (if is_enoent w1.errno
          then (if stuck
              then (true, (fail_errno sys w2).1)
              else if r'.failed
              then (true, (fail_errno sys w3).1)
              else finish_link w3)
          else (true, (fail_errno sys w1).1))
      else finish_link w1

  -- The link to the bytes read, which need not end in a null.
  unfoldable pub link_to : Text → Option (List ℕ) → World → Bool × World
  unfolding make_link
  link_to path none w = (true, w)
  link_to path (some buffer) w = make_link (c_string (buffer ++ sys.stale w.trace)) path w

  -- The data message after its head.
  unfoldable pub link_message : Text → ℕ → ℕ → World → Bool × World
  unfolding link_to
  link_message path id len w =
      let (bytes, w1) = readx len w in
      if id == id_data
      then (if ltb sync_data_max len
          then (true, (fail_message sys oversize_data w).1)
          else link_to path bytes w1)
      else (true, (fail_message sys expected_data w).1)

  unfoldable pub link_head : Text → Option (List ℕ) → World → Bool × World
  unfolding link_message
  link_head path none w = (true, w)
  link_head path (some h) w = link_message path (word h) (word (drop 4 h)) w

  unfoldable pub handle_send_link : Text → World → Bool × World
  unfolding link_head
  handle_send_link path w = let (head, w1) = readx 8 w in link_head path head w1

  -- The owner and mode of a file that is sent with this mode.
  unfoldable pub owner_for : Text → ℕ → Owner
  unfolding spread_mode
  owner_for path mode =
      let owner : Owner = record { uid = no_id; gid = no_id; mode = spread_mode mode } in
      if is_on_system path then sys.fs_config (skip_slash path) false owner else owner

  abbrev pub send_file : ℕ → Text → ℕ → Bool → World → Option Bool × World
  send_file fuel path mode do_unlink w =
      handle_send_file sys fuel path (owner_for path mode) do_unlink w

  abbrev pub as_result : Bool × World → Option Bool × World
  as_result (failed, w) = (some failed, w)

  -- The mode was read: a link, or a file over which the old one is deleted, if it may be.
  unfoldable pub send_with_mode : ℕ → Text → ℕ → World → Option Bool × World
  unfolding do_call owner_for
  send_with_mode fuel path mode w =
      let (r, w1) = do_call sys (lstat path) w in
      let do_unlink = r.failed || (is_reg r.stat.mode || is_lnk r.stat.mode) in
      let w2 = unlink_if sys do_unlink path w1 in
      if is_lnk mode
      then as_result (handle_send_link path w2)
      else send_file fuel path (mode % 512) do_unlink w2

  -- True as a result stands for -1, `none` for a loop that was cut short.
  unfoldable pub do_send : ℕ → Text → World → Option Bool × World
  unfolding send_with_mode owner_for last_comma
  do_send fuel path w = elim (last_comma path) [
    | none ↦ send_file fuel path 0o644 true w
    | some (name, digits) ↦
        (let (n, errno) = sys.strtoul digits in
          if is_success errno
          then send_with_mode fuel name (n % 4294967296) (record w { errno = success })
          else send_file fuel name 0o644 true (record w { errno = errno }))
  ]
