-- ===== src/Sync/Send.antt =====
-- adb/file_sync_service.c: handle_send_file, handle_send_link and do_send.
use adb_wide.Base.{
  ℕ, zero, suc, Bool, true, false, Option, none, some, List, [], ◌∷◌, ltb, ◌==◌, if◌then◌else◌,
  drop,
}
use adb_wide.Sync.Wire.{word, message, id_done, id_data, id_okay, sync_data_max}
use adb_wide.Sync.World.{
  Text, Flags, success, create_new, write_only, open_file, close_file, write_file, fchown, fchmod,
  restorecon, utime, unlink, Owner, Platform, World, do_call, send_bytes, fail_message, fail_errno,
  readx,
}
use adb_wide.Sync.Mkdirs.{mkdirs, is_eexist, is_enoent}

-- The reasons that the client is told.
abbrev pub invalid_data : Text
invalid_data =
    b'i' ∷ b'n' ∷ b'v' ∷ b'a' ∷ b'l' ∷ b'i' ∷ b'd' ∷ b' ' ∷ b'd' ∷ b'a' ∷ b't' ∷ b'a' ∷ b' ' ∷ b'm'
    ∷ b'e' ∷ b's' ∷ b's' ∷ b'a' ∷ b'g' ∷ b'e' ∷ []

abbrev pub oversize_data : Text
oversize_data =
    b'o' ∷ b'v' ∷ b'e' ∷ b'r' ∷ b's' ∷ b'i' ∷ b'z' ∷ b'e' ∷ b' ' ∷ b'd' ∷ b'a' ∷ b't' ∷ b'a' ∷ b' '
    ∷ b'm' ∷ b'e' ∷ b's' ∷ b's' ∷ b'a' ∷ b'g' ∷ b'e' ∷ []

abbrev pub expected_data : Text
expected_data =
    b'i' ∷ b'n' ∷ b'v' ∷ b'a' ∷ b'l' ∷ b'i' ∷ b'd' ∷ b' ' ∷ b'd' ∷ b'a' ∷ b't' ∷ b'a' ∷ b' ' ∷ b'm'
    ∷ b'e' ∷ b's' ∷ b's' ∷ b'a' ∷ b'g' ∷ b'e' ∷ b':' ∷ b' ' ∷ b'e' ∷ b'x' ∷ b'p' ∷ b'e' ∷ b'c'
    ∷ b't' ∷ b'e' ∷ b'd' ∷ b' ' ∷ b'I' ∷ b'D' ∷ b'_' ∷ b'D' ∷ b'A' ∷ b'T' ∷ b'A' ∷ []

abbrev pub expected_done : Text
expected_done =
    b'i' ∷ b'n' ∷ b'v' ∷ b'a' ∷ b'l' ∷ b'i' ∷ b'd' ∷ b' ' ∷ b'd' ∷ b'a' ∷ b't' ∷ b'a' ∷ b' ' ∷ b'm'
    ∷ b'e' ∷ b's' ∷ b's' ∷ b'a' ∷ b'g' ∷ b'e' ∷ b':' ∷ b' ' ∷ b'e' ∷ b'x' ∷ b'p' ∷ b'e' ∷ b'c'
    ∷ b't' ∷ b'e' ∷ b'd' ∷ b' ' ∷ b'I' ∷ b'D' ∷ b'_' ∷ b'D' ∷ b'O' ∷ b'N' ∷ b'E' ∷ []

-- Where the receiving of a file stands: the function has returned -1, or it goes on, with the file or,
-- after an error that the client was told of, without.
pub data Progress : Type 0 where
  returned : Progress
  going : Option ℕ → Progress

-- How the loop over the data messages ends: by `done` with the file and the time stamp, by
-- `goto fail`, or by return -1; `no_fuel` is no end of the code.
pub data LoopEnd : Type 0 where
  finished : Option ℕ → ℕ → LoopEnd
  failed : Option ℕ → LoopEnd
  gave_up : LoopEnd
  no_fuel : LoopEnd

-- One round of the loop: it stops, or goes on with the file, if there is one.
pub data Round : Type 0 where
  stop : LoopEnd → Round
  next : Option ℕ → Round

module _ (sys : Platform) where
  -- The descriptor that open gives, if any.
  unfoldable pub try_open : Text → Flags → ℕ → World → Option ℕ × World
  unfolding do_call
  try_open path flags mode w =
      let (r, w') = do_call sys (open_file path flags mode) w in
      (if r.failed then none else some r.fd, w')

  -- The second try, after the directories are made.
  unfoldable pub open_in_new_dir : Text → ℕ → World → Progress × World
  unfolding try_open
  open_in_new_dir path mode w =
      let (stuck, w1) = mkdirs sys path w in
      let (untold, w2) = fail_errno sys w1 in
      let (fd, w3) = try_open path create_new mode w1 in
      if stuck then (if untold then (returned, w2) else (going none, w2)) else (going fd, w3)

  -- fchown and fchmod of the open file, or the report that there is none.
  unfoldable pub settle_owner : Option ℕ → Owner → World → Progress × World
  unfolding do_call
  settle_owner none owner w =
      let (untold, w') = fail_errno sys w in if untold then (returned, w') else (going none, w')
  settle_owner (some fd) owner w =
      let (r, w1) = do_call sys (fchown fd owner.uid owner.gid) w in
      let (untold, w2) = fail_errno sys w1 in
      let w3 = if r.failed then record w2 { errno = success } else w1 in
      (going (some fd), (do_call sys (fchmod fd owner.mode) w3).1)

  -- The tries after the first open: in a new directory, then over an existing file.
  unfoldable pub open_again : Text → Owner → Option ℕ → World → Progress × World
  unfolding open_in_new_dir
  open_again path owner (some fd) w = (going (some fd), w)
  open_again path owner none w =
      if is_enoent w.errno then open_in_new_dir path owner.mode w else (going none, w)

  unfoldable pub open_existing : Text → Owner → Option ℕ → World → Option ℕ × World
  unfolding try_open
  open_existing path owner (some fd) w = (some fd, w)
  open_existing path owner none w =
      if is_eexist w.errno then try_open path write_only owner.mode w else (none, w)

  -- From the third open on.
  unfoldable pub open_last : Text → Owner → Progress → World → Progress × World
  unfolding open_existing settle_owner
  open_last path owner returned w = (returned, w)
  open_last path owner (going fd) w =
      let (fd', w') = open_existing path owner fd w in settle_owner fd' owner w'

  -- The part of handle_send_file up to its loop.
  unfoldable pub open_target : Text → Owner → World → Progress × World
  unfolding try_open open_again open_last
  open_target path owner w =
      let (fd, w1) = try_open path create_new owner.mode w in
      let (step, w2) = open_again path owner fd w1 in open_last path owner step w2

  abbrev pub unlink_if : Bool → Text → World → World
  unlink_if do_unlink path w = if do_unlink then (do_call sys (unlink path) w).1 else w

  -- A failed write: the errno of writex is told, that of close and unlink is not.
  unfoldable pub write_failed : Text → Bool → ℕ → World → Progress × World
  unfolding do_call
  write_failed path do_unlink fd w =
      let w1 = unlink_if do_unlink path (do_call sys (close_file fd) w).1 in
      let (untold, w2) = fail_errno sys (record w1 { errno = w.errno }) in
      if untold then (returned, w2) else (going none, w2)

  -- One chunk of data, read already, goes to the file.
  unfoldable pub write_chunk : Text → Bool → Option ℕ → List ℕ → World → Progress × World
  unfolding do_call write_failed
  write_chunk path do_unlink none bytes w = (going none, w)
  write_chunk path do_unlink (some fd) [] w = (going (some fd), w)
  write_chunk path do_unlink (some fd) (b ∷ bytes) w =
      let (r, w1) = do_call sys (write_file fd (b ∷ bytes)) w in
      if r.failed then write_failed path do_unlink fd w1 else (going (some fd), w1)

  -- A data message after its head.
  unfoldable pub receive_chunk : Text → Bool → Option ℕ → Option (List ℕ) → World → Round × World
  unfolding write_chunk
  receive_chunk path do_unlink fd none w = (stop (failed fd), w)
  receive_chunk path do_unlink fd (some buffer) w =
      let (step, w') = write_chunk path do_unlink fd buffer w in
      (elim step [ returned ↦ stop gave_up | going fd' ↦ next fd' ], w')

  unfoldable pub receive_head : Text → Bool → Option ℕ → ℕ → ℕ → World → Round × World
  unfolding receive_chunk readx
  receive_head path do_unlink fd id len w =
      let (chunk, w') = readx len w in
      if id == id_data
      then (if ltb sync_data_max len
          then (stop (failed fd), (fail_message sys oversize_data w).1)
          else receive_chunk path do_unlink fd chunk w')
      else if id == id_done
      then (stop (finished fd len), w)
      else (stop (failed fd), (fail_message sys invalid_data w).1)

  unfoldable pub receive_message : Text → Bool → Option ℕ → Option (List ℕ) → World → Round × World
  unfolding receive_head
  receive_message path do_unlink fd none w = (stop (failed fd), w)
  receive_message path do_unlink fd (some head) w =
      receive_head path do_unlink fd (word head) (word (drop 4 head)) w

  -- The loop over the data messages.
  unfoldable pub receive : Text → Bool → ℕ → Option ℕ → World → LoopEnd × World
  unfolding receive_message readx
  receive path do_unlink zero fd w = (no_fuel, w)
  receive path do_unlink (suc fuel) fd w =
      let (head, w1) = readx 8 w in
      let (round, w2) = receive_message path do_unlink fd head w1 in
      elim round [ stop end ↦ (end, w2) | next fd' ↦ receive path do_unlink fuel fd' w2 ]

  abbrev pub close_if : Option ℕ → World → World
  close_if none w = w
  close_if (some fd) w = (do_call sys (close_file fd) w).1

  -- The end of handle_send_file: true stands for -1, `none` for a loop that was cut short.
  unfoldable pub conclude : Text → Bool → LoopEnd → World → Option Bool × World
  unfolding do_call
  conclude path do_unlink (finished none time) w = (some false, w)
  conclude path do_unlink (finished (some fd) time) w =
      let w1 = (do_call sys (close_file fd) w).1 in
      let w2 = (do_call sys (restorecon path) w1).1 in
      let w3 = (do_call sys (utime path time) w2).1 in
      let (untold, w4) = send_bytes sys (message id_okay 0) w3 in (some untold, w4)
  conclude path do_unlink (failed fd) w = (some true, unlink_if do_unlink path (close_if fd w))
  conclude path do_unlink gave_up w = (some true, w)
  conclude path do_unlink no_fuel w = (none, w)

  unfoldable pub receive_from : ℕ → Text → Bool → Progress → World → Option Bool × World
  unfolding receive conclude
  receive_from fuel path do_unlink returned w = (some true, w)
  receive_from fuel path do_unlink (going fd) w =
      let (end, w') = receive path do_unlink fuel fd w in conclude path do_unlink end w'

  unfoldable pub handle_send_file : ℕ → Text → Owner → Bool → World → Option Bool × World
  unfolding open_target receive_from
  handle_send_file fuel path owner do_unlink w =
      let (step, w') = open_target path owner w in receive_from fuel path do_unlink step w'
