-- ===== src/Sync/Kept.antt =====
-- adb/file_sync_service.c: what every call of the system and every read from the client keeps, the
-- parts of handle_send_file and do_recv keep.
pub mod Commands
use adb_wide.Base.{
  ℕ, zero, suc, ◌≡◌, ◌∙◌, refl, Bool, true, false, Option, none, some, List, [], ◌∷◌, ◌++◌, arith,
  drop, length, ltb, ◌==◌, if◌then◌else◌,
}
use adb_wide.Sync.Wire.{word, message, id_data, id_done, id_okay, id_fail, sync_data_max}
use adb_wide.Sync.World.{
  Text, Errno, success, Flags, Call, send, open_file, create_new, write_only, close_file,
  write_file, fchown, fchmod, mkdir, chown, restorecon, utime, unlink, read_only, read_file, Owner,
  Platform, World, do_call, send_bytes, fail_message, fail_errno, readx,
}
use adb_wide.Sync.Mkdirs.{first_owner, configured, make_dir, mkdirs_from, mkdirs}
use adb_wide.Sync.Send.{
  Progress, returned, going, LoopEnd, finished, failed, gave_up, no_fuel, Round, stop, next,
  try_open, open_in_new_dir, settle_owner, open_again, open_existing, open_last, open_target,
  unlink_if, write_failed, write_chunk, receive_chunk, receive_head, receive_message, receive,
  close_if, conclude, receive_from, handle_send_file, invalid_data, oversize_data,
}

-- A test of the world that calls, reads and the setting of errno leave true.
pub record IsKept (sys : Platform) (P : World → Bool) : Type 0 where
  pub calls : (c : Call) (w : World) → P w ≡ true → P (do_call sys c w).1 ≡ true
  pub sets : (e : Errno) (w : World) → P w ≡ true → P (record w { errno = e }) ≡ true
  pub reading : (n : ℕ) (w : World) → P w ≡ true → P (readx n w).1 ≡ true

module _ (sys : Platform) (P : World → Bool) (kept : IsKept sys P) where
  pub kept-send_bytes :
      (bytes : List ℕ) (w : World) → P w ≡ true → P (send_bytes sys bytes w).1 ≡ true
  unfolding send_bytes
  kept-send_bytes [] w h = h
  kept-send_bytes (b ∷ bytes) w h = kept.calls (send (b ∷ bytes)) w h

  pub kept-fail_message :
      (reason : Text) (w : World) → P w ≡ true → P (fail_message sys reason w).1 ≡ true
  unfolding fail_message
  kept-fail_message reason w h =
      let told = message id_fail (length reason) in
      ground (arith, kept-send_bytes told w, kept-send_bytes reason (send_bytes sys told w).1)

  pub kept-fail_errno : (w : World) → P w ≡ true → P (fail_errno sys w).1 ≡ true
  unfolding fail_errno
  kept-fail_errno w h = kept-fail_message (sys.strerror w.errno) w h

  kept-make_dir :
      (name : Text) (o : Owner) (w : World) → P w ≡ true → P (make_dir sys name o w).1 ≡ true
  unfolding make_dir
  kept-make_dir name o w h =
      let w1 = (do_call sys (mkdir name o.mode) w).1 in
      let w2 = (do_call sys (chown name o.uid o.gid) w1).1 in
      ground (
        arith,
        kept.calls (mkdir name o.mode) w,
        kept.calls (chown name o.uid o.gid) w1,
        kept.calls (restorecon name) w2,
      )

  kept-mkdirs_from :
      (name rest : Text) (o : Owner) (w : World)
      → P w ≡ true
      → P (mkdirs_from sys name rest o w).1 ≡ true
  unfolding mkdirs_from
  kept-mkdirs_from name [] o w h = h
  kept-mkdirs_from name (c ∷ rest) o w h =
      let o' = configured sys name o in
      ground (
        arith,
        kept-make_dir name o' w,
        kept-mkdirs_from (name ++ c ∷ []) rest o' (make_dir sys name o' w).1,
        kept-mkdirs_from (name ++ c ∷ []) rest o w,
      )

  pub kept-mkdirs : (name : Text) (w : World) → P w ≡ true → P (mkdirs sys name w).1 ≡ true
  unfolding mkdirs
  kept-mkdirs [] w h = h
  kept-mkdirs (c ∷ rest) w h = ground (arith, kept-mkdirs_from (c ∷ []) rest first_owner w)

  kept-try_open :
      (path : Text) (flags : Flags) (mode : ℕ) (w : World)
      → P w ≡ true
      → P (try_open sys path flags mode w).1 ≡ true
  unfolding try_open
  kept-try_open path flags mode w h = kept.calls (open_file path flags mode) w h

  kept-settle_owner :
      (fd : Option ℕ) (o : Owner) (w : World) → P w ≡ true → P (settle_owner sys fd o w).1 ≡ true
  unfolding settle_owner
  kept-settle_owner none o w h = ground (arith, kept-fail_errno w)
  kept-settle_owner (some fd) o w h =
      let (r, w1) = do_call sys (fchown fd o.uid o.gid) w in
      let w2 = (fail_errno sys w1).1 in
      let w3 = record w2 { errno = success } in
      ground (
        arith,
        kept.calls (fchown fd o.uid o.gid) w,
        kept-fail_errno w1,
        kept.sets success w2,
        kept.calls (fchmod fd o.mode) w1,
        kept.calls (fchmod fd o.mode) w3,
      )

  kept-open_again :
      (path : Text) (o : Owner) (fd : Option ℕ) (w : World)
      → P w ≡ true
      → P (open_again sys path o fd w).1 ≡ true
  unfolding open_again open_in_new_dir
  kept-open_again path o (some fd) w h = h
  kept-open_again path o none w h =
      let w1 = (mkdirs sys path w).1 in
      ground
        (arith, kept-mkdirs path w, kept-fail_errno w1, kept-try_open path create_new o.mode w1)

  kept-open_last :
      (path : Text) (o : Owner) (step : Progress) (w : World)
      → P w ≡ true
      → P (open_last sys path o step w).1 ≡ true
  unfolding open_last open_existing
  kept-open_last path o returned w h = h
  kept-open_last path o (going (some fd)) w h = kept-settle_owner (some fd) o w h
  kept-open_last path o (going none) w h =
      let (fd', w') = open_existing sys path o none w in
      kept-settle_owner fd' o w' (ground (arith, kept-try_open path write_only o.mode w))

  pub kept-open_target :
      (path : Text) (o : Owner) (w : World) → P w ≡ true → P (open_target sys path o w).1 ≡ true
  unfolding open_target
  kept-open_target path o w h =
      let (fd, w1) = try_open sys path create_new o.mode w in
      let (step, w2) = open_again sys path o fd w1 in
      kept-open_last path o step w2
        (kept-open_again path o fd w1 (kept-try_open path create_new o.mode w h))

  pub kept-unlink_if :
      (b : Bool) (path : Text) (w : World) → P w ≡ true → P (unlink_if sys b path w) ≡ true
  kept-unlink_if b path w h = ground (arith, kept.calls (unlink path) w)

  kept-write_failed :
      (path : Text) (b : Bool) (fd : ℕ) (w : World)
      → P w ≡ true
      → P (write_failed sys path b fd w).1 ≡ true
  unfolding write_failed
  kept-write_failed path b fd w h =
      let w1 = (do_call sys (close_file fd) w).1 in
      let w2 = unlink_if sys b path w1 in
      ground (
        arith,
        kept.calls (close_file fd) w,
        kept-unlink_if b path w1,
        kept.sets w.errno w2,
        kept-fail_errno (record w2 { errno = w.errno }),
      )

  pub kept-write_chunk :
      (path : Text) (b : Bool) (fd : Option ℕ) (bytes : List ℕ) (w : World)
      → P w ≡ true
      → P (write_chunk sys path b fd bytes w).1 ≡ true
  unfolding write_chunk
  kept-write_chunk path b none bytes w h = h
  kept-write_chunk path b (some fd) [] w h = h
  kept-write_chunk path b (some fd) (x ∷ bytes) w h =
      let w1 = (do_call sys (write_file fd (x ∷ bytes)) w).1 in
      ground (arith, kept.calls (write_file fd (x ∷ bytes)) w, kept-write_failed path b fd w1)

  kept-receive_chunk :
      (path : Text) (b : Bool) (fd : Option ℕ) (chunk : Option (List ℕ)) (w : World)
      → P w ≡ true
      → P (receive_chunk sys path b fd chunk w).1 ≡ true
  unfolding receive_chunk
  kept-receive_chunk path b fd none w h = h
  kept-receive_chunk path b fd (some buffer) w h = kept-write_chunk path b fd buffer w h

  kept-receive_head :
      (path : Text) (b : Bool) (fd : Option ℕ) (id len : ℕ) (w : World)
      → P w ≡ true
      → P (receive_head sys path b fd id len w).1 ≡ true
  unfolding receive_head
  kept-receive_head path b fd id len w h =
      let (chunk, w') = readx len w in
      ground (
        arith,
        kept.reading len w,
        kept-fail_message oversize_data w,
        kept-fail_message invalid_data w,
        kept-receive_chunk path b fd chunk w',
      )

  kept-receive_message :
      (path : Text) (b : Bool) (fd : Option ℕ) (head : Option (List ℕ)) (w : World)
      → P w ≡ true
      → P (receive_message sys path b fd head w).1 ≡ true
  unfolding receive_message
  kept-receive_message path b fd none w h = h
  kept-receive_message path b fd (some head) w h =
      kept-receive_head path b fd (word head) (word (drop 4 head)) w h

  after_round-kept :
      (round : Round) (w : World) (rest : Option ℕ → LoopEnd × World)
      → P w ≡ true
      → ((fd : Option ℕ) → P (rest fd).1 ≡ true)
      → let out : LoopEnd × World = elim round [ stop end ↦ (end, w) | next fd ↦ rest fd ] in
        P out.1 ≡ true
  after_round-kept (stop end) w rest h later = h
  after_round-kept (next fd) w rest h later = later fd

  kept-receive :
      (path : Text) (b : Bool) (fuel : ℕ) (fd : Option ℕ) (w : World)
      → P w ≡ true
      → P (receive sys path b fuel fd w).1 ≡ true
  unfolding receive
  kept-receive path b zero fd w h = h
  kept-receive path b (suc fuel) fd w h =
      let (head, w1) = readx 8 w in
      let (round, w2) = receive_message sys path b fd head w1 in
      let same = kept-receive_message path b fd head w1 (kept.reading 8 w h) in
      after_round-kept round w2 (λ fd'. receive sys path b fuel fd' w2) same
        λ fd'. kept-receive path b fuel fd' w2 same

  kept-conclude :
      (path : Text) (b : Bool) (end : LoopEnd) (w : World)
      → P w ≡ true
      → P (conclude sys path b end w).1 ≡ true
  unfolding conclude
  kept-conclude path b (finished none time) w h = h
  kept-conclude path b (finished (some fd) time) w h =
      let w1 = (do_call sys (close_file fd) w).1 in
      let w2 = (do_call sys (restorecon path) w1).1 in
      let w3 = (do_call sys (utime path time) w2).1 in
      kept-send_bytes (message id_okay 0) w3 (
        kept.calls (utime path time) w2
          (kept.calls (restorecon path) w1 (kept.calls (close_file fd) w h)))
  kept-conclude path b (failed none) w h = kept-unlink_if b path w h
  kept-conclude path b (failed (some fd)) w h =
      kept-unlink_if b path (do_call sys (close_file fd) w).1 (kept.calls (close_file fd) w h)
  kept-conclude path b gave_up w h = h
  kept-conclude path b no_fuel w h = h

  kept-receive_from :
      (fuel : ℕ) (path : Text) (b : Bool) (step : Progress) (w : World)
      → P w ≡ true
      → P (receive_from sys fuel path b step w).1 ≡ true
  unfolding receive_from
  kept-receive_from fuel path b returned w h = h
  kept-receive_from fuel path b (going fd) w h =
      let (end, w') = receive sys path b fuel fd w in
      kept-conclude path b end w' (kept-receive path b fuel fd w h)

  pub kept-handle_send_file :
      (fuel : ℕ) (path : Text) (o : Owner) (b : Bool) (w : World)
      → P w ≡ true
      → P (handle_send_file sys fuel path o b w).1 ≡ true
  unfolding handle_send_file
  kept-handle_send_file fuel path o b w h =
      let (step, w') = open_target sys path o w in
      kept-receive_from fuel path b step w' (kept-open_target path o w h)
