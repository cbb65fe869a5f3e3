-- ===== src/Sync/Ledger.antt =====
-- adb/file_sync_service.c: the file descriptors that the service holds, read off its calls.
use adb_wide.Base.{
  ℕ, zero, suc, ◌≡◌, refl, ◌∙◌, Bool, Option, none, some, List, [], ◌∷◌, ◌++◌, arith, erase, ◌==◌,
  if◌then◌else◌, ltb, drop, ==-refl, length, if_cases,
}
use adb_wide.Sync.Wire.{word, message, id_data, id_done, id_okay, id_fail, sync_data_max}
use adb_wide.Sync.World.{
  Text, Call, open_file, close_file, opendir, closedir, fchown, write_file, restorecon, utime,
  Flags, create_new, write_only, Owner, Platform, World, do_call, send_bytes, fail_message,
  fail_errno, readx,
}
use adb_wide.Sync.Mkdirs.{first_owner, make_dir, mkdirs_from, mkdirs, configured}
use adb_wide.Sync.Send.{
  Progress, returned, going, LoopEnd, finished, failed, gave_up, no_fuel, try_open, open_in_new_dir,
  settle_owner, open_again, open_existing, open_last, open_target, write_failed, receive_chunk,
  receive_head, receive_message, receive_from, Round, stop, next, unlink_if, write_chunk, receive,
  close_if, conclude, handle_send_file, invalid_data, oversize_data,
}

module _ (sys : Platform) where
  -- The descriptors of files and directories that are open after these calls, the latest first.
  abbrev pub held : List Call → List ℕ
  held [] = []
  held (open_file path flags mode ∷ h) =
      let r = sys.reply h (open_file path flags mode) in if r.failed then held h else r.fd ∷ held h
  held (close_file fd ∷ h) = erase fd (held h)
  held (opendir path ∷ h) =
      let r = sys.reply h (opendir path) in if r.failed then held h else r.fd ∷ held h
  held (closedir fd ∷ h) = erase fd (held h)
  held (_ ∷ h) = held h

  pub held-send_bytes :
      (bytes : List ℕ) (w : World) → held (send_bytes sys bytes w).1.trace ≡ held w.trace
  unfolding send_bytes
  held-send_bytes [] w = refl
  held-send_bytes (b ∷ bytes) w = refl

  pub held-fail_message :
      (reason : Text) (w : World) → held (fail_message sys reason w).1.trace ≡ held w.trace
  unfolding fail_message
  held-fail_message reason w =
      let told = message id_fail (length reason) in
      ground (arith, held-send_bytes told w, held-send_bytes reason (send_bytes sys told w).1)

  pub held-fail_errno : (w : World) → held (fail_errno sys w).1.trace ≡ held w.trace
  unfolding fail_errno
  held-fail_errno w = held-fail_message (sys.strerror w.errno) w

  held-make_dir :
      (name : Text) (o : Owner) (w : World) → held (make_dir sys name o w).1.trace ≡ held w.trace
  unfolding make_dir do_call
  held-make_dir name o w = ground arith

  held-mkdirs_from :
      (name rest : Text) (o : Owner) (w : World)
      → held (mkdirs_from sys name rest o w).1.trace ≡ held w.trace
  unfolding mkdirs_from
  held-mkdirs_from name [] o w = refl
  held-mkdirs_from name (c ∷ rest) o w =
      let o' = configured sys name o in
      ground (
        arith,
        held-make_dir name o' w,
        held-mkdirs_from (name ++ c ∷ []) rest o' (make_dir sys name o' w).1,
        held-mkdirs_from (name ++ c ∷ []) rest o w,
      )

  pub held-mkdirs : (name : Text) (w : World) → held (mkdirs sys name w).1.trace ≡ held w.trace
  unfolding mkdirs
  held-mkdirs [] w = refl
  held-mkdirs (c ∷ rest) w = ground (arith, held-mkdirs_from (c ∷ []) rest first_owner w)

  -- The descriptors with the file that is being written, if there is one.
  abbrev pub with_file : Option ℕ → List ℕ → List ℕ
  with_file none h = h
  with_file (some fd) h = fd ∷ h

  abbrev progress_held : Progress → List ℕ → List ℕ
  progress_held returned h = h
  progress_held (going fd) h = with_file fd h

  pub held-try_open :
      (path : Text) (flags : Flags) (mode : ℕ) (w : World)
      → let (fd, w') = try_open sys path flags mode w in held w'.trace ≡ with_file fd (held w.trace)
  unfolding try_open do_call
  held-try_open path flags mode w = ground arith

  held-open_in_new_dir :
      (path : Text) (mode : ℕ) (w : World)
      → let (step, w') = open_in_new_dir sys path mode w in
        held w'.trace ≡ progress_held step (held w.trace)
  unfolding open_in_new_dir
  held-open_in_new_dir path mode w =
      let w1 = (mkdirs sys path w).1 in
      ground (arith, held-mkdirs path w, held-fail_errno w1, held-try_open path create_new mode w1)

  held-settle_owner :
      (fd : Option ℕ) (o : Owner) (w : World)
      → let (step, w') = settle_owner sys fd o w in
        (h : List ℕ) → held w.trace ≡ with_file fd h → held w'.trace ≡ progress_held step h
  unfolding settle_owner do_call
  held-settle_owner none o w h e = ground (arith, held-fail_errno w)
  held-settle_owner (some fd) o w h e =
      ground (arith, held-fail_errno (do_call sys (fchown fd o.uid o.gid) w).1)

  held-open_again :
      (path : Text) (o : Owner) (fd : Option ℕ) (w : World)
      → let (step, w') = open_again sys path o fd w in
        (h : List ℕ) → held w.trace ≡ with_file fd h → held w'.trace ≡ progress_held step h
  unfolding open_again
  held-open_again path o (some fd) w h e = e
  held-open_again path o none w h e = ground (arith, held-open_in_new_dir path o.mode w)

  held-open_existing :
      (path : Text) (o : Owner) (fd : Option ℕ) (w : World)
      → let (fd', w') = open_existing sys path o fd w in
        (h : List ℕ) → held w.trace ≡ with_file fd h → held w'.trace ≡ with_file fd' h
  unfolding open_existing
  held-open_existing path o (some fd) w h e = e
  held-open_existing path o none w h e = ground (arith, held-try_open path write_only o.mode w)

  held-open_last :
      (path : Text) (o : Owner) (step : Progress) (w : World) (h : List ℕ)
      → held w.trace ≡ progress_held step h
      → let (step', w') = open_last sys path o step w in held w'.trace ≡ progress_held step' h
  unfolding open_last
  held-open_last path o returned w h e = e
  held-open_last path o (going fd) w h e =
      let (fd', w') = open_existing sys path o fd w in
      held-settle_owner fd' o w' h (held-open_existing path o fd w h e)

  held-open_target :
      (path : Text) (o : Owner) (w : World)
      → let (step, w') = open_target sys path o w in
        held w'.trace ≡ progress_held step (held w.trace)
  unfolding open_target
  held-open_target path o w =
      let (fd, w1) = try_open sys path create_new o.mode w in
      let (step, w2) = open_again sys path o fd w1 in
      held-open_last path o step w2 (held w.trace)
        (held-open_again path o fd w1 (held w.trace) (held-try_open path create_new o.mode w))

  pub held-unlink_if :
      (b : Bool) (path : Text) (w : World) → held (unlink_if sys b path w).trace ≡ held w.trace
  unfolding do_call
  held-unlink_if b path w = ground arith

  pub held-close :
      (fd : ℕ) (w : World) (h : List ℕ)
      → held w.trace ≡ fd ∷ h
      → held (do_call sys (close_file fd) w).1.trace ≡ h
  unfolding do_call
  held-close fd w h e = rw (e, ==-refl fd)

  held-write_failed :
      (path : Text) (b : Bool) (fd : ℕ) (w : World) (h : List ℕ)
      → held w.trace ≡ fd ∷ h
      → let (step, w') = write_failed sys path b fd w in held w'.trace ≡ progress_held step h
  unfolding write_failed
  held-write_failed path b fd w h e =
      let w1 = (do_call sys (close_file fd) w).1 in
      ground (
        arith,
        held-close fd w h,
        held-unlink_if b path w1,
        held-fail_errno (record (unlink_if sys b path w1) { errno = w.errno }),
      )

  held-write_chunk :
      (path : Text) (b : Bool) (fd : Option ℕ) (bytes : List ℕ) (w : World) (h : List ℕ)
      → held w.trace ≡ with_file fd h
      → let (step, w') = write_chunk sys path b fd bytes w in held w'.trace ≡ progress_held step h
  unfolding write_chunk do_call
  held-write_chunk path b none bytes w h e = e
  held-write_chunk path b (some fd) [] w h e = e
  held-write_chunk path b (some fd) (x ∷ bytes) w h e =
      ground (arith, held-write_failed path b fd (do_call sys (write_file fd (x ∷ bytes)) w).1 h e)

  abbrev end_held : LoopEnd → List ℕ → List ℕ
  end_held (finished fd time) h = with_file fd h
  end_held (failed fd) h = with_file fd h
  end_held gave_up h = h
  end_held no_fuel h = h

  abbrev round_held : Round → List ℕ → List ℕ
  round_held (stop end) h = end_held end h
  round_held (next fd) h = with_file fd h

  pub held-readx : (n : ℕ) (w : World) → held (readx n w).1.trace ≡ held w.trace
  unfolding readx
  held-readx n w = ground arith

  progress_round :
      (step : Progress) (h : List ℕ)
      → progress_held step h
        ≡ round_held (elim step [ returned ↦ stop gave_up | going fd ↦ next fd ]) h
  progress_round returned h = refl
  progress_round (going fd) h = refl

  held-receive_chunk :
      (path : Text) (b : Bool) (fd : Option ℕ) (chunk : Option (List ℕ)) (w : World) (h : List ℕ)
      → held w.trace ≡ with_file fd h
      → let (round, w') = receive_chunk sys path b fd chunk w in held w'.trace ≡ round_held round h
  unfolding receive_chunk
  held-receive_chunk path b fd none w h e = e
  held-receive_chunk path b fd (some buffer) w h e =
      held-write_chunk path b fd buffer w h e
      ∙ progress_round (write_chunk sys path b fd buffer w).0 h

  held-receive_head :
      (path : Text) (b : Bool) (fd : Option ℕ) (id len : ℕ) (w : World) (h : List ℕ)
      → held w.trace ≡ with_file fd h
      → let (round, w') = receive_head sys path b fd id len w in held w'.trace ≡ round_held round h
  unfolding receive_head
  held-receive_head path b fd id len w h e =
      let P = λ (out : Round × World). held out.1.trace ≡ round_held out.0 h in
      let (chunk, w') = readx len w in
      if_cases P (id == id_data) _ _
        (λ _.
          if_cases P (ltb sync_data_max len) _ _ (λ _. held-fail_message oversize_data w ∙ e)
            λ _. held-receive_chunk path b fd chunk w' h (held-readx len w ∙ e))
        λ _. if_cases P (id == id_done) _ _ (λ _. e) λ _. held-fail_message invalid_data w ∙ e

  held-receive_message :
      (path : Text) (b : Bool) (fd : Option ℕ) (head : Option (List ℕ)) (w : World) (h : List ℕ)
      → held w.trace ≡ with_file fd h
      → let (round, w') = receive_message sys path b fd head w in held w'.trace ≡ round_held round h
  unfolding receive_message
  held-receive_message path b fd none w h e = e
  held-receive_message path b fd (some head) w h e =
      held-receive_head path b fd (word head) (word (drop 4 head)) w h e

  -- What the loop holds at its end.
  abbrev EndHolds : List ℕ → LoopEnd × World → Type 0
  EndHolds h (finished fd time, w) = held w.trace ≡ with_file fd h
  EndHolds h (failed fd, w) = held w.trace ≡ with_file fd h
  EndHolds h (gave_up, w) = held w.trace ≡ h
  EndHolds h (no_fuel, w) = Unit {0}

  round-EndHolds :
      (round : Round) (w : World) (h : List ℕ) (rest : Option ℕ → LoopEnd × World)
      → held w.trace ≡ round_held round h
      → ((fd : Option ℕ) → held w.trace ≡ with_file fd h → EndHolds h (rest fd))
      → EndHolds h (elim round [ stop end ↦ (end, w) | next fd ↦ rest fd ])
  round-EndHolds (stop (finished fd time)) w h rest e later = e
  round-EndHolds (stop (failed fd)) w h rest e later = e
  round-EndHolds (stop gave_up) w h rest e later = e
  round-EndHolds (stop no_fuel) w h rest e later = tt
  round-EndHolds (next fd) w h rest e later = later fd e

  receive-EndHolds :
      (path : Text) (b : Bool) (fuel : ℕ) (fd : Option ℕ) (w : World) (h : List ℕ)
      → held w.trace ≡ with_file fd h
      → EndHolds h (receive sys path b fuel fd w)
  unfolding receive
  receive-EndHolds path b zero fd w h e = tt
  receive-EndHolds path b (suc fuel) fd w h e =
      let (head, w1) = readx 8 w in
      let (round, w2) = receive_message sys path b fd head w1 in
      round-EndHolds round w2 h (λ fd'. receive sys path b fuel fd' w2)
        (held-receive_message path b fd head w1 h (held-readx 8 w ∙ e))
        λ fd' e'. receive-EndHolds path b fuel fd' w2 h e'

  -- A function that has returned holds what it held before; one that was cut short says nothing.
  abbrev pub ReturnHolds : List ℕ → Option Bool × World → Type 0
  ReturnHolds h (none, w) = Unit {0}
  ReturnHolds h (some result, w) = held w.trace ≡ h

  held-close_if :
      (fd : Option ℕ) (w : World) (h : List ℕ)
      → held w.trace ≡ with_file fd h
      → held (close_if sys fd w).trace ≡ h
  held-close_if none w h e = e
  held-close_if (some fd) w h e = held-close fd w h e

  conclude-ReturnHolds :
      (path : Text) (b : Bool) (end : LoopEnd) (w : World) (h : List ℕ)
      → EndHolds h (end, w)
      → ReturnHolds h (conclude sys path b end w)
  unfolding conclude
  conclude-ReturnHolds path b (finished none time) w h e = e
  conclude-ReturnHolds path b (finished (some fd) time) w h e =
      let w1 = (do_call sys (close_file fd) w).1 in
      let w2 = (do_call sys (restorecon path) w1).1 in
      let w3 = (do_call sys (utime path time) w2).1 in
      held-send_bytes (message id_okay 0) w3 ∙ unfold do_call in held-close fd w h e
  conclude-ReturnHolds path b (failed fd) w h e =
      held-unlink_if b path (close_if sys fd w) ∙ held-close_if fd w h e
  conclude-ReturnHolds path b gave_up w h e = e
  conclude-ReturnHolds path b no_fuel w h e = tt

  receive_from-ReturnHolds :
      (fuel : ℕ) (path : Text) (b : Bool) (step : Progress) (w : World) (h : List ℕ)
      → held w.trace ≡ progress_held step h
      → ReturnHolds h (receive_from sys fuel path b step w)
  unfolding receive_from
  receive_from-ReturnHolds fuel path b returned w h e = e
  receive_from-ReturnHolds fuel path b (going fd) w h e =
      let (end, w') = receive sys path b fuel fd w in
      conclude-ReturnHolds path b end w' h (receive-EndHolds path b fuel fd w h e)

  -- Whatever the client sends and the system answers, when handle_send_file returns, the files that
  -- are open are those that were open before: every file that it opened is closed, and no other.
  pub handle_send_file-ReturnHolds :
      (fuel : ℕ) (path : Text) (owner : Owner) (do_unlink : Bool) (w : World)
      → ReturnHolds (held w.trace) (handle_send_file sys fuel path owner do_unlink w)
  unfolding handle_send_file
  handle_send_file-ReturnHolds fuel path owner do_unlink w =
      let (step, w') = open_target sys path owner w in
      receive_from-ReturnHolds fuel path do_unlink step w' (held w.trace)
        (held-open_target path owner w)
