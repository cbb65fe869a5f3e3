-- ===== src/Sync/Kept/Commands.antt =====
-- adb/file_sync_service.c: what calls, reads and errno keep, the commands of the service keep.
use adb_wide.Base.{
  ℕ, zero, suc, ◌≡◌, ◌%◌, ◌||◌, Bool, true, Option, none, some, List, [], ◌∷◌, ◌++◌, arith, drop,
  length, if◌then◌else◌, if_cases,
}
use adb_wide.Sync.Wire.{le32, word, message, id_data, id_done, id_okay, id_stat, id_dent}
use adb_wide.Sync.World.{
  Text, success, open_file, close_file, read_only, read_file, lstat, symlink, opendir, closedir,
  Platform, World, do_call, send_bytes, fail_errno, readx,
}
use adb_wide.Sync.Mkdirs.{mkdirs}
use adb_wide.Sync.Send.{try_open, unlink_if, expected_data, expected_done, oversize_data}
use adb_wide.Sync.Recv.{
  Pull, again, pulled, quit, do_stat, pull_chunk, pull_round, pull, recv_from, do_recv,
}
use adb_wide.Sync.Recv.Step.{after_pull, pull_step}
use adb_wide.Sync.Listing.{dent, no_stat, list_entry, list_done, list_from, do_list}
use adb_wide.Sync.Push.{
  c_string, last_comma, is_reg, is_lnk, is_success, owner_for, send_file, as_result, finish_link,
  make_link, link_to, link_message, link_head, handle_send_link, send_with_mode, do_send,
}
use adb_wide.Sync.Service.{
  command_failure, unknown_command, invalid_namelen, filename_failure, serve_command, serve_name,
  serve_request, serve_head,
}
use adb_wide.Sync.Kept.{
  IsKept, kept-send_bytes, kept-fail_message, kept-fail_errno, kept-mkdirs, kept-unlink_if,
  kept-handle_send_file,
}

module _ (sys : Platform) (P : World → Bool) (kept : IsKept sys P) where
  kept-do_stat : (path : Text) (w : World) → P w ≡ true → P (do_stat sys path w).1 ≡ true
  unfolding do_stat
  kept-do_stat path w h =
      let (r, w1) = do_call sys (lstat path) w in
      let gone = le32 id_stat ++ (le32 0 ++ (le32 0 ++ le32 0)) in
      let found = le32 id_stat ++ (le32 r.stat.mode ++ (le32 r.stat.size ++ le32 r.stat.time)) in
      ground (
        arith,
        kept.calls (lstat path) w,
        kept-send_bytes sys P kept gone w1,
        kept-send_bytes sys P kept found w1,
      )

  kept-list_entry :
      (dir : ℕ) (path name : Text) (w : World)
      → P w ≡ true
      → P (list_entry sys dir path name w).1 ≡ true
  unfolding list_entry
  kept-list_entry dir path name w h =
      let (r, w1) = do_call sys (lstat (path ++ b'/' ∷ name)) w in
      let told = dent id_dent r.stat (length name) in
      let w2 = (send_bytes sys told w1).1 in
      let w3 = (send_bytes sys name w2).1 in
      ground (
        arith,
        kept.calls (lstat (path ++ b'/' ∷ name)) w,
        kept-send_bytes sys P kept told w1,
        kept-send_bytes sys P kept name w2,
        kept.calls (closedir dir) w2,
        kept.calls (closedir dir) w3,
      )

  kept-list_done : (w : World) → P w ≡ true → P (list_done sys w).1 ≡ true
  unfolding list_done
  kept-list_done w h = kept-send_bytes sys P kept (dent id_done no_stat 0) w h

  kept-list_from :
      (dir : ℕ) (path : Text) (names : List Text) (w : World)
      → P w ≡ true
      → P (list_from sys dir path names w).1 ≡ true
  unfolding list_from
  kept-list_from dir path [] w h =
      kept-list_done (do_call sys (closedir dir) w).1 (kept.calls (closedir dir) w h)
  kept-list_from dir path (name ∷ names) w h =
      let w1 = (list_entry sys dir path name w).1 in
      ground (arith, kept-list_entry dir path name w, kept-list_from dir path names w1)

  kept-do_list : (path : Text) (w : World) → P w ≡ true → P (do_list sys path w).1 ≡ true
  unfolding do_list
  kept-do_list path w h =
      let (r, w1) = do_call sys (opendir path) w in
      ground
        (arith, kept.calls (opendir path) w, kept-list_done w1, kept-list_from r.fd path r.names w1)

  kept-finish_link : (w : World) → P w ≡ true → P (finish_link sys w).1 ≡ true
  unfolding finish_link
  kept-finish_link w h =
      let w1 = (readx 8 w).1 in
      ground (
        arith,
        kept.reading 8 w,
        kept-send_bytes sys P kept (message id_okay 0) w1,
        kept-fail_message sys P kept expected_done w1,
      )

  kept-make_link :
      (target path : Text) (w : World) → P w ≡ true → P (make_link sys target path w).1 ≡ true
  unfolding make_link
  kept-make_link target path w h =
      let w1 = (do_call sys (symlink target path) w).1 in
      let w2 = (mkdirs sys path w1).1 in
      let w3 = (do_call sys (symlink target path) w2).1 in
      ground (
        arith,
        kept.calls (symlink target path) w,
        kept-mkdirs sys P kept path w1,
        kept.calls (symlink target path) w2,
        kept-fail_errno sys P kept w1,
        kept-fail_errno sys P kept w2,
        kept-fail_errno sys P kept w3,
        kept-finish_link w1,
        kept-finish_link w3,
      )

  kept-link_to :
      (path : Text) (bytes : Option (List ℕ)) (w : World)
      → P w ≡ true
      → P (link_to sys path bytes w).1 ≡ true
  unfolding link_to
  kept-link_to path none w h = h
  kept-link_to path (some buffer) w h =
      kept-make_link (c_string (buffer ++ sys.stale w.trace)) path w h

  kept-link_message :
      (path : Text) (id len : ℕ) (w : World)
      → P w ≡ true
      → P (link_message sys path id len w).1 ≡ true
  unfolding link_message
  kept-link_message path id len w h =
      let (bytes, w1) = readx len w in
      ground (
        arith,
        kept.reading len w,
        kept-fail_message sys P kept oversize_data w,
        kept-fail_message sys P kept expected_data w,
        kept-link_to path bytes w1,
      )

  kept-link_head :
      (path : Text) (head : Option (List ℕ)) (w : World)
      → P w ≡ true
      → P (link_head sys path head w).1 ≡ true
  unfolding link_head
  kept-link_head path none w h = h
  kept-link_head path (some head) w h = kept-link_message path (word head) (word (drop 4 head)) w h

  kept-handle_send_link :
      (path : Text) (w : World) → P w ≡ true → P (handle_send_link sys path w).1 ≡ true
  unfolding handle_send_link
  kept-handle_send_link path w h =
      let (head, w1) = readx 8 w in kept-link_head path head w1 (kept.reading 8 w h)

  kept-as_result : (out : Bool × World) → P out.1 ≡ true → P (as_result sys out).1 ≡ true
  kept-as_result (failed, w) h = h

  kept-send_with_mode :
      (fuel : ℕ) (path : Text) (mode : ℕ) (w : World)
      → P w ≡ true
      → P (send_with_mode sys fuel path mode w).1 ≡ true
  unfolding send_with_mode
  kept-send_with_mode fuel path mode w h =
      let (r, w1) = do_call sys (lstat path) w in
      let do_unlink = r.failed || (is_reg r.stat.mode || is_lnk r.stat.mode) in
      let w2 = unlink_if sys do_unlink path w1 in
      let same = kept-unlink_if sys P kept do_unlink path w1 (kept.calls (lstat path) w h) in
      if_cases (λ (out : Option Bool × World). P out.1 ≡ true) (is_lnk mode)
        (as_result sys (handle_send_link sys path w2))
        (send_file sys fuel path (mode % 512) do_unlink w2)
        (λ _. kept-as_result (handle_send_link sys path w2) (kept-handle_send_link path w2 same))
        λ _.
          kept-handle_send_file sys P kept fuel path (owner_for sys path (mode % 512)) do_unlink w2
            same

  kept-do_send :
      (fuel : ℕ) (path : Text) (w : World) → P w ≡ true → P (do_send sys fuel path w).1 ≡ true
  unfolding do_send
  kept-do_send fuel path w h = go (last_comma path)
    where
      plain :
          (name : Text) (w' : World)
          → P w' ≡ true
          → P (send_file sys fuel name 0o644 true w').1 ≡ true
      plain name w' h' =
          kept-handle_send_file sys P kept fuel name (owner_for sys name 0o644) true w' h'

      go :
          (cut : Option (Text × Text))
          → P
              (elim cut as (λ _. Option Bool × World) [
                | none ↦ send_file sys fuel path 0o644 true w
                | some (name, digits) ↦
                    (let (n, errno) = sys.strtoul digits in
                      if is_success errno
                      then send_with_mode sys fuel name
                          (n % 4294967296)
                          (record w { errno = success })
                      else send_file sys fuel name 0o644 true (record w { errno = errno }))
              ]).1
            ≡ true
      go none = plain path w h
      go (some (name, digits)) =
          let (n, errno) = sys.strtoul digits in
          let w1 = record w { errno = success } in
          let w2 = record w { errno = errno } in
          if_cases (λ (out : Option Bool × World). P out.1 ≡ true) (is_success errno)
            (send_with_mode sys fuel name (n % 4294967296) w1)
            (send_file sys fuel name 0o644 true w2)
            (λ _. kept-send_with_mode fuel name (n % 4294967296) w1 (kept.sets success w h))
            λ _. plain name w2 (kept.sets errno w h)

  pub kept-pull_chunk :
      (fd : ℕ) (bytes : List ℕ) (w : World) → P w ≡ true → P (pull_chunk sys fd bytes w).1 ≡ true
  unfolding pull_chunk
  kept-pull_chunk fd [] w h = h
  kept-pull_chunk fd (b ∷ bytes) w h =
      let told = message id_data (length (b ∷ bytes)) in
      let w1 = (send_bytes sys told w).1 in
      let w2 = (send_bytes sys (b ∷ bytes) w1).1 in
      ground (
        arith,
        kept-send_bytes sys P kept told w,
        kept-send_bytes sys P kept (b ∷ bytes) w1,
        kept.calls (close_file fd) w1,
        kept.calls (close_file fd) w2,
      )

  kept-pull_round : (fd : ℕ) (w : World) → P w ≡ true → P (pull_round sys fd w).1 ≡ true
  unfolding pull_round
  kept-pull_round fd w h =
      let (r, w1) = do_call sys (read_file fd) w in
      let w2 = (fail_errno sys w1).1 in
      ground (
        arith,
        kept.calls (read_file fd) w,
        kept-fail_errno sys P kept w1,
        kept.calls (close_file fd) w2,
        kept-pull_chunk fd r.bytes w1,
      )

  kept-after_pull :
      (fuel fd : ℕ) (out : Pull × World)
      → P out.1 ≡ true
      → ((w : World) → P w ≡ true → P (pull sys fuel fd w).1 ≡ true)
      → P (after_pull sys fuel fd out).1 ≡ true
  unfolding after_pull
  kept-after_pull fuel fd (again, w) h more = more w h
  kept-after_pull fuel fd (pulled, w) h more =
      kept-send_bytes sys P kept (message id_done 0) (do_call sys (close_file fd) w).1
        (kept.calls (close_file fd) w h)
  kept-after_pull fuel fd (quit result, w) h more = h

  kept-pull : (fuel fd : ℕ) (w : World) → P w ≡ true → P (pull sys fuel fd w).1 ≡ true
  unfolding pull
  kept-pull zero fd w h = h
  kept-pull (suc fuel) fd w h = rw (pull_step sys fuel fd w) (
      kept-after_pull fuel fd (pull_round sys fd w) (kept-pull_round fd w h)
        λ w' h'. kept-pull fuel fd w' h')

  kept-recv_from :
      (fuel : ℕ) (fd : Option ℕ) (w : World) → P w ≡ true → P (recv_from sys fuel fd w).1 ≡ true
  unfolding recv_from
  kept-recv_from fuel none w h = kept-fail_errno sys P kept w h
  kept-recv_from fuel (some fd) w h = kept-pull fuel fd w h

  kept-do_recv :
      (fuel : ℕ) (path : Text) (w : World) → P w ≡ true → P (do_recv sys fuel path w).1 ≡ true
  unfolding do_recv try_open
  kept-do_recv fuel path w h =
      let (fd, w') = try_open sys path read_only 0 w in
      kept-recv_from fuel fd w' (kept.calls (open_file path read_only 0) w h)

  kept-serve_command :
      (limit id : ℕ) (name : Text) (w : World)
      → P w ≡ true
      → P (serve_command sys limit id name w).1 ≡ true
  unfolding serve_command
  kept-serve_command limit id name w h = ground (
    arith,
    kept-do_stat name w,
    kept-do_list name w,
    kept-do_send limit name w,
    kept-do_recv limit name w,
    kept-fail_message sys P kept unknown_command w,
  )

  kept-serve_name :
      (limit id : ℕ) (name : Option (List ℕ)) (w : World)
      → P w ≡ true
      → P (serve_name sys limit id name w).1 ≡ true
  unfolding serve_name
  kept-serve_name limit id none w h = kept-fail_message sys P kept filename_failure w h
  kept-serve_name limit id (some bytes) w h = kept-serve_command limit id (c_string bytes) w h

  kept-serve_request :
      (limit id namelen : ℕ) (w : World)
      → P w ≡ true
      → P (serve_request sys limit id namelen w).1 ≡ true
  unfolding serve_request
  kept-serve_request limit id namelen w h =
      let (name, w1) = readx namelen w in
      ground (
        arith,
        kept.reading namelen w,
        kept-fail_message sys P kept invalid_namelen w,
        kept-serve_name limit id name w1,
      )

  pub kept-serve_head :
      (limit : ℕ) (head : Option (List ℕ)) (w : World)
      → P w ≡ true
      → P (serve_head sys limit head w).1 ≡ true
  unfolding serve_head
  kept-serve_head limit none w h = kept-fail_message sys P kept command_failure w h
  kept-serve_head limit (some head) w h =
      kept-serve_request limit (word head) (word (drop 4 head)) w h
