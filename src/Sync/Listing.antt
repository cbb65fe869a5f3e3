-- ===== src/Sync/Listing.antt =====
-- adb/file_sync_service.c: do_list.
use adb_wide.Base.{ℕ, Bool, true, false, List, [], ◌∷◌, ◌++◌, length, ltb, if◌then◌else◌}
use adb_wide.Sync.Wire.{le32, id_dent, id_done}
use adb_wide.Sync.World.{Text, opendir, closedir, lstat, Stat, Platform, World, do_call, send_bytes}

-- The member `dent` of syncmsg.
abbrev pub dent : ℕ → Stat → ℕ → List ℕ
dent id st namelen = le32 id ++ (le32 st.mode ++ (le32 st.size ++ (le32 st.time ++ le32 namelen)))

abbrev pub no_stat : Stat
no_stat = record { mode = 0; size = 0; time = 0 }

module _ (sys : Platform) where
  -- closedir and return -1, after a failed write. `dir` is the descriptor of the open directory.
  abbrev pub give_up_list : ℕ → World → Bool × World
  give_up_list dir w = (true, (do_call sys (closedir dir) w).1)

  -- The entry `name` of the directory; true if do_list returns -1 at it.
  unfoldable pub list_entry : ℕ → Text → Text → World → Bool × World
  unfolding do_call
  list_entry dir path name w =
      let (r, w1) = do_call sys (lstat (path ++ b'/' ∷ name)) w in
      let (untold, w2) = send_bytes sys (dent id_dent r.stat (length name)) w1 in
      let (untold', w3) = send_bytes sys name w2 in
      if ltb 256 (length name)
      then (false, w)
      else if r.failed
      then (false, w1)
      else if untold
      then give_up_list dir w2
      else if untold'
      then give_up_list dir w3
      else (false, w3)

  -- From `done` on.
  unfoldable pub list_done : World → Bool × World
  list_done w = send_bytes sys (dent id_done no_stat 0) w

  -- The loop over the names that readdir gives, and what follows it.
  unfoldable pub list_from : ℕ → Text → List Text → World → Bool × World
  unfolding list_entry list_done
  list_from dir path [] w = list_done (do_call sys (closedir dir) w).1
  list_from dir path (name ∷ names) w =
      let (stop, w1) = list_entry dir path name w in
      elim stop [ true ↦ (true, w1) | false ↦ list_from dir path names w1 ]

  unfoldable pub do_list : Text → World → Bool × World
  unfolding list_from list_done
  do_list path w =
      let (r, w1) = do_call sys (opendir path) w in
      if r.failed then list_done w1 else list_from r.fd path r.names w1
