-- ===== src/Sync/Recv/Download.antt =====
-- adb/file_sync_service.c, do_recv: what the client gets of a file.
use mathlib.Core.List.{append_assoc}
use adb_wide.Base.{
  ℕ, zero, suc, ◌+◌, ◌<◌, ◌≡◌, refl, ◌∙◌, ap, Bool, false, Option, some, List, [], ◌∷◌, ◌++◌,
  length, arith,
}
use adb_wide.Sync.Wire.{message, id_data, id_done}
use adb_wide.Sync.World.{
  Text, Call, send, open_file, read_only, close_file, read_file, Platform, World, do_call,
  send_bytes,
}
use adb_wide.Sync.Send.{try_open}
use adb_wide.Sync.Recv.{again, pulled, pull_chunk, pull_round, pull, recv_from, do_recv}
use adb_wide.Sync.Recv.Step.{after_pull, pull_step}
use adb_wide.Sync.Upload.{upload}

-- The bytes that the client was sent, in order.
abbrev pub sent : List Call → List ℕ
sent [] = []
sent (send bytes ∷ h) = sent h ++ bytes
sent (_ ∷ h) = sent h

-- How many times files were read.
abbrev pub reads : List Call → ℕ
reads [] = 0
reads (read_file fd ∷ h) = suc (reads h)
reads (_ ∷ h) = reads h

-- What the read number `n` of these chunks gives: nothing after the last.
abbrev pub chunk_at : ℕ → List (List ℕ) → List ℕ
chunk_at n [] = []
chunk_at zero (c ∷ cs) = c
chunk_at (suc n) (c ∷ cs) = chunk_at n cs

abbrev pub AllSome : List (List ℕ) → Type 0
AllSome [] = Unit {0}
AllSome (c ∷ cs) = (0 < length c) × AllSome cs

-- After `k` reads, the reads of the file give these chunks and then its end.
abbrev pub IsReading : Platform → ℕ → List (List ℕ) → Type 0
IsReading sys k cs =
    (h : List Call) (fd n : ℕ)
    → reads h ≡ k + n
    → (sys.reply h (read_file fd)).bytes ≡ chunk_at n cs

module _ (sys : Platform)
    (succeeds : (h : List Call) (c : Call) → (sys.reply h c).failed ≡ false) where
  -- The calls of a round that passes this chunk on.
  abbrev passed : ℕ → List ℕ → World → World
  passed fd c w = record w {
    trace = send c ∷ send (message id_data (length c)) ∷ read_file fd ∷ w.trace;
  }

  pull_chunk-passed :
      (fd : ℕ) (c : List ℕ) (w : World)
      → 0 < length c
      → pull_chunk sys fd c w
        ≡ (again, record w { trace = send c ∷ send (message id_data (length c)) ∷ w.trace })
  unfolding pull_chunk send_bytes do_call
  pull_chunk-passed fd [] w h = absurd (omega arith)
  pull_chunk-passed fd (b ∷ bytes) w h = simp succeeds

  pull_round-passed :
      (fd : ℕ) (c : List ℕ) (w : World)
      → 0 < length c
      → (sys.reply w.trace (read_file fd)).bytes ≡ c
      → pull_round sys fd w ≡ (again, passed fd c w)
  unfolding pull_round do_call
  pull_round-passed fd c w h e =
      rw (succeeds w.trace (read_file fd), e)
        (pull_chunk-passed fd c (record w { trace = read_file fd ∷ w.trace }) h)

  pull_round-pulled :
      (fd : ℕ) (w : World)
      → (sys.reply w.trace (read_file fd)).bytes ≡ []
      → pull_round sys fd w ≡ (pulled, record w { trace = read_file fd ∷ w.trace })
  unfolding pull_round pull_chunk do_call
  pull_round-pulled fd w e = rw (succeeds w.trace (read_file fd), e) refl

  -- The client was sent the file as an upload, and the result is 0.
  abbrev pub Downloaded : List (List ℕ) → World → Option Bool × World → Type 0
  Downloaded cs w out = (out.0 ≡ some false) × (sent out.1.trace ≡ sent w.trace ++ upload cs 0)

  after_pull-end :
      (fuel fd : ℕ) (w : World)
      → after_pull sys fuel fd (pulled, w)
        ≡ (some false, record w { trace = send (message id_done 0) ∷ close_file fd ∷ w.trace })
  unfolding after_pull send_bytes do_call
  after_pull-end fuel fd w = simp succeeds

  pull-end :
      (fuel fd : ℕ) (w : World)
      → (sys.reply w.trace (read_file fd)).bytes ≡ []
      → pull sys (suc fuel) fd w ≡ (
        some false,
        record w { trace = send (message id_done 0) ∷ close_file fd ∷ read_file fd ∷ w.trace },
      )
  pull-end fuel fd w e =
      pull_step sys fuel fd w
      ∙ ap (after_pull sys fuel fd) (pull_round-pulled fd w e)
      ∙ after_pull-end fuel fd (record w { trace = read_file fd ∷ w.trace })

  pull-more :
      (fuel fd : ℕ) (c : List ℕ) (w : World)
      → 0 < length c
      → (sys.reply w.trace (read_file fd)).bytes ≡ c
      → pull sys (suc fuel) fd w ≡ pull sys fuel fd (passed fd c w)
  unfolding after_pull
  pull-more fuel fd c w h e =
      pull_step sys fuel fd w ∙ ap (after_pull sys fuel fd) (pull_round-passed fd c w h e)

  pull-Downloaded :
      (fuel fd k : ℕ) (cs : List (List ℕ)) (w : World)
      → AllSome cs
      → length cs < fuel
      → reads w.trace ≡ k
      → IsReading sys k cs
      → Downloaded cs w (pull sys fuel fd w)
  pull-Downloaded zero fd k cs w some_bytes h e reading = absurd (omega arith)
  pull-Downloaded (suc fuel) fd k [] w some_bytes h e reading =
      rw (pull-end fuel fd w (reading w.trace fd 0 (omega arith))) (refl, refl)
  pull-Downloaded (suc fuel) fd k (c ∷ cs) w some_bytes h e reading =
      let (result, bytes) =
        pull-Downloaded fuel fd (suc k) cs (passed fd c w) some_bytes.1 (omega arith) (omega arith)
          λ h' fd' n r. reading h' fd' (suc n) (omega arith) in
      rw (pull-more fuel fd c w some_bytes.0 (reading w.trace fd 0 (omega arith))) (
        result,
        bytes
            ∙ append_assoc (sent w.trace ++ message id_data (length c)) c (upload cs 0)
            ∙ append_assoc (sent w.trace) (message id_data (length c)) (c ++ upload cs 0),
      )

  -- Where every call of the system succeeds, and the reads of the file give these chunks, none of
  -- them empty, and then its end, do_recv with more fuel than chunks returns 0, and the client was
  -- sent the chunks in their order as the messages of an upload with time stamp 0.
  pub do_recv-Downloaded :
      (fuel : ℕ) (path : Text) (cs : List (List ℕ)) (w : World)
      → AllSome cs
      → length cs < fuel
      → IsReading sys (reads w.trace) cs
      → Downloaded cs w (do_recv sys fuel path w)
  unfolding do_recv recv_from try_open do_call
  do_recv-Downloaded fuel path cs w some_bytes h reading =
      let opening = open_file path read_only 0 in
      rw (succeeds w.trace opening) (
        pull-Downloaded fuel (sys.reply w.trace opening).fd (reads w.trace) cs
          (record w { trace = opening ∷ w.trace }) some_bytes h refl reading)
