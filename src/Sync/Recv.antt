-- ===== src/Sync/Recv.antt =====
-- adb/file_sync_service.c: do_stat and do_recv.
pub mod Step
pub mod Files
pub mod Download
use adb_wide.Base.{
  ℕ, zero, suc, Bool, true, false, Option, none, some, List, [], ◌∷◌, ◌++◌, length, if◌then◌else◌,
}
use adb_wide.Sync.Wire.{le32, message, id_stat, id_data, id_done}
use adb_wide.Sync.World.{
  Text, Errno, eintr, read_only, close_file, read_file, lstat, Platform, World, do_call, send_bytes,
  fail_errno,
}
use adb_wide.Sync.Send.{try_open}

abbrev pub is_eintr : Errno → Bool
is_eintr eintr = true
is_eintr _ = false

-- One round of the loop of do_recv: it goes on, ends with the file, or do_recv returns.
pub data Pull : Type 0 where
  again pulled : Pull
  quit : Bool → Pull

module _ (sys : Platform) where
  -- True if the client could not be told, as for the other results.
  unfoldable pub do_stat : Text → World → Bool × World
  unfolding do_call
  do_stat path w =
      let (r, w1) = do_call sys (lstat path) w in
      if r.failed
      then send_bytes sys (le32 id_stat ++ (le32 0 ++ (le32 0 ++ le32 0))) w1
      else send_bytes sys
          (le32 id_stat ++ (le32 r.stat.mode ++ (le32 r.stat.size ++ le32 r.stat.time))) w1

  -- The bytes of a read go to the client.
  unfoldable pub pull_chunk : ℕ → List ℕ → World → Pull × World
  unfolding do_call
  pull_chunk fd [] w = (pulled, w)
  pull_chunk fd (b ∷ bytes) w =
      let (failed, w1) = send_bytes sys (message id_data (length (b ∷ bytes))) w in
      let (failed', w2) = send_bytes sys (b ∷ bytes) w1 in
      if failed
      then (quit true, (do_call sys (close_file fd) w1).1)
      else if failed'
      then (quit true, (do_call sys (close_file fd) w2).1)
      else (again, w2)

  unfoldable pub pull_round : ℕ → World → Pull × World
  unfolding do_call pull_chunk
  pull_round fd w =
      let (r, w1) = do_call sys (read_file fd) w in
      let (untold, w2) = fail_errno sys w1 in
      if r.failed
      then (if is_eintr w1.errno
          then (again, w1)
          else (quit untold, (do_call sys (close_file fd) w2).1))
      else pull_chunk fd r.bytes w1

  -- The loop and what follows it; `none` means that the fuel ran out.
  unfoldable pub pull : ℕ → ℕ → World → Option Bool × World
  unfolding pull_round do_call
  pull zero fd w = (none, w)
  pull (suc fuel) fd w =
      let (round, w1) = pull_round fd w in
      elim round [
        | again ↦ pull fuel fd w1
        | pulled ↦
            (let (untold, w2) =
                send_bytes sys (message id_done 0) (do_call sys (close_file fd) w1).1 in
              (some untold, w2))
        | quit result ↦ (some result, w1)
      ]

  unfoldable pub recv_from : ℕ → Option ℕ → World → Option Bool × World
  unfolding pull
  recv_from fuel none w = let (untold, w') = fail_errno sys w in (some untold, w')
  recv_from fuel (some fd) w = pull fuel fd w

  -- adb_open has no mode; 0 stands for it.
  unfoldable pub do_recv : ℕ → Text → World → Option Bool × World
  unfolding recv_from
  do_recv fuel path w = let (fd, w') = try_open sys path read_only 0 w in recv_from fuel fd w'
