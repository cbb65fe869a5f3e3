-- ===== src/Sync/Upload.antt =====
-- adb/file_sync_service.c: a file that the client sends in chunks is written as it was sent.
use mathlib.Core.List.{append_assoc}
use adb_wide.Base.{
  ℕ, zero, suc, ◌≤◌, ◌<◌, ◌≡◌, refl, ◌∙◌, ap, Bool, false, Option, some, List, [], ◌∷◌, ◌++◌, arith,
  ltb, length, length-append, take-append, drop-append,
}
use adb_wide.Base.Words.{word-le32}
use adb_wide.Sync.Wire.{message, id_data, id_done, id_okay, sync_data_max}
use adb_wide.Sync.World.{
  Text, Call, send, open_file, create_new, close_file, write_file, fchown, fchmod, restorecon,
  utime, Owner, Platform, World, do_call, send_bytes, readx,
}
use adb_wide.Sync.Send.{
  Progress, going, LoopEnd, finished, Round, stop, next, write_chunk, receive_chunk, receive_head,
  receive_message, receive, conclude, receive_from, open_target, handle_send_file, try_open,
  open_again, open_existing, open_last, settle_owner,
}

-- The messages of a client that sends these chunks, and then the time stamp.
abbrev pub upload : List (List ℕ) → ℕ → List ℕ
upload [] time = message id_done time
upload (c ∷ cs) time = message id_data (length c) ++ (c ++ upload cs time)

-- No chunk is larger than the protocol allows.
abbrev pub AllFit : List (List ℕ) → Type 0
AllFit [] = Unit {0}
AllFit (c ∷ cs) = (length c ≤ sync_data_max) × AllFit cs

-- The calls that write the chunks to the file, in order, the latest first; none for an empty chunk.
abbrev pub written : ℕ → List (List ℕ) → List Call → List Call
written fd [] t = t
written fd ([] ∷ cs) t = written fd cs t
written fd ((b ∷ bytes) ∷ cs) t = written fd cs (write_file fd (b ∷ bytes) ∷ t)

written_cons :
    (fd : ℕ) (c : List ℕ) (cs : List (List ℕ)) (t : List Call)
    → written fd cs (written fd (c ∷ []) t) ≡ written fd (c ∷ cs) t
written_cons fd [] cs t = refl
written_cons fd (b ∷ bytes) cs t = refl

module _ (sys : Platform)
    (succeeds : (h : List Call) (c : Call) → (sys.reply h c).failed ≡ false) where
  -- readx of exactly the bytes that come next.
  readx-append :
      (xs ys : List ℕ) (w : World)
      → w.input ≡ xs ++ ys
      → readx (length xs) w ≡ (some xs, record w { input = ys })
  unfolding readx
  readx-append xs ys w e =
      rw e (ground (arith, length-append xs ys, take-append xs ys, drop-append xs ys))

  write_chunk-written :
      (path : Text) (b : Bool) (fd : ℕ) (c : List ℕ) (w : World)
      → write_chunk sys path b (some fd) c w
        ≡ (going (some fd), record w { trace = written fd (c ∷ []) w.trace })
  unfolding write_chunk do_call
  write_chunk-written path b fd [] w = refl
  write_chunk-written path b fd (x ∷ bytes) w =
      ground (arith, succeeds w.trace (write_file fd (x ∷ bytes)))

  chunk_round :
      (path : Text) (b : Bool) (fd : ℕ) (c rest : List ℕ) (w : World)
      → length c ≤ sync_data_max
      → w.input ≡ c ++ rest
      → receive_head sys path b (some fd) id_data (length c) w
        ≡ (next (some fd), record w { input = rest; trace = written fd (c ∷ []) w.trace })
  unfolding receive_head receive_chunk
  chunk_round path b fd c rest w h e =
      let fits : ltb sync_data_max (length c) ≡ false = ground arith in
      rw
        (fits, readx-append c rest w e, write_chunk-written path b fd c (record w { input = rest }))

  data_message :
      (path : Text) (b : Bool) (fd : ℕ) (c rest : List ℕ) (w : World)
      → length c ≤ sync_data_max
      → w.input ≡ message id_data (length c) ++ (c ++ rest)
      → let (head, w1) = readx 8 w in
        receive_message sys path b (some fd) head w1
        ≡ (next (some fd), record w { input = rest; trace = written fd (c ∷ []) w.trace })
  unfolding receive_message
  data_message path b fd c rest w h e =
      rw (readx-append (message id_data (length c)) (c ++ rest) w e) (
        rw (word-le32 (length c) (omega arith))
          (chunk_round path b fd c rest (record w { input = c ++ rest }) h refl))

  done_message :
      (path : Text) (b : Bool) (fd : ℕ) (time : ℕ) (rest : List ℕ) (w : World)
      → time < 4294967296
      → w.input ≡ message id_done time ++ rest
      → let (head, w1) = readx 8 w in
        receive_message sys path b (some fd) head w1
        ≡ (stop (finished (some fd) time), record w { input = rest })
  unfolding receive_message receive_head
  done_message path b fd time rest w h e =
      rw (readx-append (message id_done time) rest w e) (ground (arith, word-le32 time h))

  -- One step of the loop, whose round is known.
  after_round : Text → Bool → ℕ → Round × World → LoopEnd × World
  after_round path b fuel (stop end, w) = (end, w)
  after_round path b fuel (next fd, w) = receive sys path b fuel fd w

  receive_step :
      (path : Text) (b : Bool) (fuel : ℕ) (fd : Option ℕ) (w : World)
      → let (head, w1) = readx 8 w in
        receive sys path b (suc fuel) fd w
        ≡ after_round path b fuel (receive_message sys path b fd head w1)
  unfolding receive after_round
  receive_step path b fuel fd w =
      let (head, w1) = readx 8 w in go (receive_message sys path b fd head w1)
    where
      go :
          (out : Round × World)
          → ◌≡◌ {A = LoopEnd × World}
              (elim out.0 [
                | stop end ↦ (end, out.1)
                | next fd' ↦ receive sys path b fuel fd' out.1
              ])
              (after_round path b fuel out)
      go (stop end, w') = refl
      go (next fd', w') = refl

  -- The loop over an upload writes every chunk, and stops at the time stamp.
  receive-upload :
      (path : Text) (b : Bool) (fuel fd : ℕ) (cs : List (List ℕ)) (time : ℕ) (rest : List ℕ)
      (w : World)
      → AllFit cs
      → time < 4294967296
      → length cs < fuel
      → w.input ≡ upload cs time ++ rest
      → receive sys path b fuel (some fd) w
        ≡ (finished (some fd) time, record w { input = rest; trace = written fd cs w.trace })
  unfolding after_round
  receive-upload path b zero fd cs time rest w fit t h e = absurd (omega arith)
  receive-upload path b (suc fuel) fd [] time rest w fit t h e =
      receive_step path b fuel (some fd) w
      ∙ ap (after_round path b fuel) (done_message path b fd time rest w t e)
  receive-upload path b (suc fuel) fd (c ∷ cs) time rest w fit t h e =
      receive_step path b fuel (some fd) w
      ∙ ap (after_round path b fuel) (
          data_message path b fd c (upload cs time ++ rest) w fit.0
            (e ∙ ap (λ x. message id_data (length c) ++ x) (append_assoc c (upload cs time) rest)))
      ∙ receive-upload path b fuel fd cs time rest
          (record w { input = upload cs time ++ rest; trace = written fd (c ∷ []) w.trace }) fit.1 t
          (omega arith) refl
      ∙ ap (λ x. (finished (some fd) time, record w { input = rest; trace = x }))
          (written_cons fd c cs w.trace)

  -- The calls before the first chunk: the file is created and its owner and mode are set.
  abbrev pub begun : Text → Owner → World → ℕ × List Call
  begun path owner w =
      let create = open_file path create_new owner.mode in
      let fd = (sys.reply w.trace create).fd in
      (fd, fchmod fd owner.mode ∷ fchown fd owner.uid owner.gid ∷ create ∷ w.trace)

  open_target-ok :
      (path : Text) (owner : Owner) (w : World)
      → let (fd, t) = begun path owner w in
        open_target sys path owner w ≡ (going (some fd), record w { trace = t })
  unfolding open_target try_open open_again open_last open_existing settle_owner
  open_target-ok path owner w = simp succeeds

  conclude-ok :
      (path : Text) (b : Bool) (fd time : ℕ) (w : World)
      → conclude sys path b (finished (some fd) time) w ≡ (
        some false,
        record w {
          trace =
              send (message id_okay 0)
              ∷ utime path time
              ∷ restorecon path
              ∷ close_file fd
              ∷ w.trace;
        },
      )
  unfolding conclude send_bytes
  conclude-ok path b fd time w = simp succeeds

  -- Where every call of the system succeeds, no chunk is above SYNC_DATA_MAX, and the time stamp has
  -- 32 bits, handle_send_file of an upload, with more fuel than chunks, returns 0: it creates the
  -- file, sets its owner and mode, writes the chunks to it in their order, closes it, sets the time
  -- stamp and answers OKAY, and it leaves what the client sends after the upload unread.
  pub handle_send_file-upload :
      (path : Text) (owner : Owner) (b : Bool) (fuel : ℕ) (cs : List (List ℕ)) (time : ℕ)
      (rest : List ℕ) (w : World)
      → AllFit cs
      → time < 4294967296
      → length cs < fuel
      → w.input ≡ upload cs time ++ rest
      → let (fd, t) = begun path owner w in
        handle_send_file sys fuel path owner b w ≡ (
          some false,
          record w {
            input = rest;
            trace =
                send (message id_okay 0)
                ∷ utime path time
                ∷ restorecon path
                ∷ close_file fd
                ∷ written fd cs t;
          },
        )
  unfolding handle_send_file receive_from
  handle_send_file-upload path owner b fuel cs time rest w fit t h e =
      let (fd, made) = begun path owner w in
      let w1 = record w { trace = made } in
      ap (λ (out : Progress × World). receive_from sys fuel path b out.0 out.1)
        (open_target-ok path owner w)
      ∙ ap (λ (out : LoopEnd × World). conclude sys path b out.0 out.1)
          (receive-upload path b fuel fd cs time rest w1 fit t h e)
      ∙ conclude-ok path b fd time (record w { input = rest; trace = written fd cs made })
