-- ===== src/Sync/Service/Files.antt =====
-- adb/file_sync_service.c: the files that are open during a session of the service.
use adb_wide.Base.{
  ==-refl, ltb, if◌then◌else◌, ℕ, zero, suc, ◌≡◌, refl, ◌∙◌, ap, Bool, true, false, Option, none,
  some, List, [], ◌∷◌, ◌++◌, erase, arith, subst, drop, length, ltb, ◌==◌, if◌then◌else◌, if_cases,
  ◌%◌, ◌||◌,
}
use adb_wide.Sync.Wire.{
  le32, word, message, id_okay, id_stat, id_list, id_send, id_recv, id_quit, id_dent, id_done,
}
use adb_wide.Sync.World.{
  Text, success, opendir, closedir, close_file, lstat, symlink, Platform, World, do_call,
  send_bytes, readx,
}
use adb_wide.Sync.Mkdirs.{mkdirs}
use adb_wide.Sync.Send.{unlink_if, expected_data, expected_done, oversize_data}
use adb_wide.Sync.Recv.{do_stat}
use adb_wide.Sync.Recv.Files.{do_recv-ReturnHolds}
use adb_wide.Sync.Listing.{dent, no_stat, give_up_list, list_entry, list_done, list_from, do_list}
use adb_wide.Sync.Push.{
  c_string, last_comma, is_reg, is_lnk, is_success, owner_for, send_file, as_result, finish_link,
  make_link, link_to, link_message, link_head, handle_send_link, send_with_mode, do_send,
}
use adb_wide.Sync.Service.{
  command_failure, unknown_command, invalid_namelen, filename_failure, max_name, refuse,
  serve_command, serve_name, serve_request, serve_head, serve, file_sync_service,
}
use adb_wide.Sync.Ledger.{
  held, held-send_bytes, held-fail_message, held-fail_errno, held-readx, held-unlink_if,
  held-mkdirs, handle_send_file-ReturnHolds, ReturnHolds,
}

module _ (sys : Platform) where
  held-do_stat :
      (path : Text) (w : World) → held sys (do_stat sys path w).1.trace ≡ held sys w.trace
  unfolding do_stat do_call
  held-do_stat path w =
      let (r, w1) = do_call sys (lstat path) w in
      let gone = le32 id_stat ++ (le32 0 ++ (le32 0 ++ le32 0)) in
      let found = le32 id_stat ++ (le32 r.stat.mode ++ (le32 r.stat.size ++ le32 r.stat.time)) in
      ground (arith, held-send_bytes sys gone w1, held-send_bytes sys found w1)

  -- At the end of an entry or of the names: the directory is closed where the listing ends.
  abbrev Listed : ℕ → List ℕ → Bool × World → Type 0
  Listed dir h (stop, w) = held sys w.trace ≡ (if stop then h else dir ∷ h)

  give_up_list-Listed :
      (dir : ℕ) (w : World) (h : List ℕ)
      → held sys w.trace ≡ dir ∷ h
      → Listed dir h (give_up_list sys dir w)
  unfolding do_call
  give_up_list-Listed dir w h e = rw (e, ==-refl dir) refl

  list_entry-Listed :
      (dir : ℕ) (path name : Text) (w : World) (h : List ℕ)
      → held sys w.trace ≡ dir ∷ h
      → Listed dir h (list_entry sys dir path name w)
  unfolding list_entry
  list_entry-Listed dir path name w h e =
      let P = Listed dir h in
      let (r, w1) = do_call sys (lstat (path ++ b'/' ∷ name)) w in
      let told = dent id_dent r.stat (length name) in
      let w2 = (send_bytes sys told w1).1 in
      let w3 = (send_bytes sys name w2).1 in
      let e1 : held sys w1.trace ≡ dir ∷ h = unfold do_call in e in
      let e2 : held sys w2.trace ≡ dir ∷ h = held-send_bytes sys told w1 ∙ e1 in
      let e3 : held sys w3.trace ≡ dir ∷ h = held-send_bytes sys name w2 ∙ e2 in
      if_cases P (ltb 256 (length name)) _ _ (λ _. e)
        λ _.
          if_cases P r.failed _ _ (λ _. e1)
            λ _.
              if_cases P (send_bytes sys told w1).0 _ _ (λ _. give_up_list-Listed dir w2 h e2)
                λ _.
                  if_cases P (send_bytes sys name w2).0 _ _ (λ _. give_up_list-Listed dir w3 h e3)
                    λ _. e3

  held-list_done : (w : World) → held sys (list_done sys w).1.trace ≡ held sys w.trace
  unfolding list_done
  held-list_done w = held-send_bytes sys (dent id_done no_stat 0) w

  held-list_from :
      (dir : ℕ) (path : Text) (names : List Text) (w : World) (h : List ℕ)
      → held sys w.trace ≡ dir ∷ h
      → held sys (list_from sys dir path names w).1.trace ≡ h
  unfolding list_from
  held-list_from dir path [] w h e =
      held-list_done (do_call sys (closedir dir) w).1 ∙ give_up_list-Listed dir w h e
  held-list_from dir path (name ∷ names) w h e =
      go (list_entry sys dir path name w) (list_entry-Listed dir path name w h e)
        (λ w1 e1. held-list_from dir path names w1 h e1)
    where
      go :
          (out : Bool × World)
          → Listed dir h out
          → ((w1 : World)
              → held sys w1.trace ≡ dir ∷ h
              → held sys (list_from sys dir path names w1).1.trace ≡ h)
          → held sys
              (elim out.0 as (λ _. Bool × World) [
                | true ↦ (true, out.1)
                | false ↦ list_from sys dir path names out.1
              ]).1.trace
            ≡ h
      go (true, w1) listed more = listed
      go (false, w1) listed more = more w1 listed

  held-do_list :
      (path : Text) (w : World) → held sys (do_list sys path w).1.trace ≡ held sys w.trace
  unfolding do_list
  held-do_list path w =
      let r = sys.reply w.trace (opendir path) in
      let w1 = (do_call sys (opendir path) w).1 in
      if_cases (λ (out : Bool × World). held sys out.1.trace ≡ held sys w.trace) r.failed
        (list_done sys w1) (list_from sys r.fd path r.names w1)
        (λ bad. held-list_done w1 ∙ unfold do_call in rw bad refl)
        λ opened.
          held-list_from r.fd path r.names w1 (held sys w.trace) (unfold do_call in rw opened refl)

  held-finish_link : (w : World) → held sys (finish_link sys w).1.trace ≡ held sys w.trace
  unfolding finish_link
  held-finish_link w =
      let w1 = (readx 8 w).1 in
      ground (
        arith,
        held-readx sys 8 w,
        held-send_bytes sys (message id_okay 0) w1,
        held-fail_message sys expected_done w1,
      )

  held-make_link :
      (target path : Text) (w : World)
      → held sys (make_link sys target path w).1.trace ≡ held sys w.trace
  unfolding make_link do_call
  held-make_link target path w =
      let w1 = (do_call sys (symlink target path) w).1 in
      let w2 = (mkdirs sys path w1).1 in
      let w3 = (do_call sys (symlink target path) w2).1 in
      ground (
        arith,
        held-mkdirs sys path w1,
        held-fail_errno sys w1,
        held-fail_errno sys w2,
        held-fail_errno sys w3,
        held-finish_link w1,
        held-finish_link w3,
      )

  held-link_to :
      (path : Text) (bytes : Option (List ℕ)) (w : World)
      → held sys (link_to sys path bytes w).1.trace ≡ held sys w.trace
  unfolding link_to
  held-link_to path none w = refl
  held-link_to path (some buffer) w = held-make_link (c_string (buffer ++ sys.stale w.trace)) path w

  held-link_message :
      (path : Text) (id len : ℕ) (w : World)
      → held sys (link_message sys path id len w).1.trace ≡ held sys w.trace
  unfolding link_message
  held-link_message path id len w =
      let (bytes, w1) = readx len w in
      ground (
        arith,
        held-readx sys len w,
        held-fail_message sys oversize_data w,
        held-fail_message sys expected_data w,
        held-link_to path bytes w1,
      )

  held-link_head :
      (path : Text) (head : Option (List ℕ)) (w : World)
      → held sys (link_head sys path head w).1.trace ≡ held sys w.trace
  unfolding link_head
  held-link_head path none w = refl
  held-link_head path (some h) w = held-link_message path (word h) (word (drop 4 h)) w

  held-handle_send_link :
      (path : Text) (w : World) → held sys (handle_send_link sys path w).1.trace ≡ held sys w.trace
  unfolding handle_send_link
  held-handle_send_link path w =
      let (head, w1) = readx 8 w in held-link_head path head w1 ∙ held-readx sys 8 w

  as_result-ReturnHolds :
      (out : Bool × World) (h : List ℕ)
      → held sys out.1.trace ≡ h
      → ReturnHolds sys h (as_result sys out)
  as_result-ReturnHolds (failed, w) h e = e

  send_with_mode-ReturnHolds :
      (fuel : ℕ) (path : Text) (mode : ℕ) (w : World) (h : List ℕ)
      → held sys w.trace ≡ h
      → ReturnHolds sys h (send_with_mode sys fuel path mode w)
  unfolding send_with_mode do_call
  send_with_mode-ReturnHolds fuel path mode w h e =
      let (r, w1) = do_call sys (lstat path) w in
      let do_unlink = r.failed || (is_reg r.stat.mode || is_lnk r.stat.mode) in
      let w2 = unlink_if sys do_unlink path w1 in
      let same : held sys w2.trace ≡ h = held-unlink_if sys do_unlink path w1 ∙ e in
      if_cases (ReturnHolds sys h) (is_lnk mode) (as_result sys (handle_send_link sys path w2))
        (send_file sys fuel path (mode % 512) do_unlink w2)
        (λ _.
          as_result-ReturnHolds (handle_send_link sys path w2) h
            (held-handle_send_link path w2 ∙ same))
        λ _.
          subst (λ x. ReturnHolds sys x (send_file sys fuel path (mode % 512) do_unlink w2)) same
            (handle_send_file-ReturnHolds sys fuel path (owner_for sys path (mode % 512)) do_unlink
              w2)

  -- Whatever the client sends and the system answers, when do_send returns, the files that are open
  -- are those that were open before.
  do_send-ReturnHolds :
      (fuel : ℕ) (path : Text) (w : World)
      → ReturnHolds sys (held sys w.trace) (do_send sys fuel path w)
  unfolding do_send
  do_send-ReturnHolds fuel path w = go (last_comma path)
    where
      go :
          (cut : Option (Text × Text))
          → ReturnHolds sys (held sys w.trace) (elim cut [
            | none ↦ send_file sys fuel path 0o644 true w
            | some (name, digits) ↦
                (let (n, errno) = sys.strtoul digits in
                  if is_success errno
                  then send_with_mode sys fuel name (n % 4294967296) (record w { errno = success })
                  else send_file sys fuel name 0o644 true (record w { errno = errno }))
          ])
      go none = handle_send_file-ReturnHolds sys fuel path (owner_for sys path 0o644) true w
      go (some (name, digits)) =
          let (n, errno) = sys.strtoul digits in
          if_cases (ReturnHolds sys (held sys w.trace)) (is_success errno)
            (send_with_mode sys fuel name (n % 4294967296) (record w { errno = success }))
            (send_file sys fuel name 0o644 true (record w { errno = errno }))
            (λ _.
              send_with_mode-ReturnHolds fuel name (n % 4294967296) (record w { errno = success })
                (held sys w.trace) refl)
            λ _.
              handle_send_file-ReturnHolds sys fuel name (owner_for sys name 0o644) true
                (record w { errno = errno })

  refuse-ReturnHolds :
      (limit : ℕ) (reason : Text) (w : World) (h : List ℕ)
      → held sys w.trace ≡ h
      → ReturnHolds sys h (refuse sys limit reason w)
  refuse-ReturnHolds limit reason w h e = held-fail_message sys reason w ∙ e

  serve_command-ReturnHolds :
      (limit id : ℕ) (name : Text) (w : World)
      → ReturnHolds sys (held sys w.trace) (serve_command sys limit id name w)
  unfolding serve_command
  serve_command-ReturnHolds limit id name w =
      let h = held sys w.trace in
      let P = ReturnHolds sys h in
      if_cases P (id == id_stat) _ _
        (λ _. as_result-ReturnHolds (do_stat sys name w) h (held-do_stat name w))
        λ _.
          if_cases P (id == id_list) _ _
            (λ _. as_result-ReturnHolds (do_list sys name w) h (held-do_list name w))
            λ _.
              if_cases P (id == id_send) _ _ (λ _. do_send-ReturnHolds limit name w)
                λ _.
                  if_cases P (id == id_recv) _ _ (λ _. do_recv-ReturnHolds sys limit name w)
                    λ _.
                      if_cases P (id == id_quit) _ _ (λ _. refl)
                        λ _. refuse-ReturnHolds limit unknown_command w h refl

  serve_name-ReturnHolds :
      (limit id : ℕ) (name : Option (List ℕ)) (w : World) (h : List ℕ)
      → held sys w.trace ≡ h
      → ReturnHolds sys h (serve_name sys limit id name w)
  unfolding serve_name
  serve_name-ReturnHolds limit id none w h e = refuse-ReturnHolds limit filename_failure w h e
  serve_name-ReturnHolds limit id (some bytes) w h e =
      subst (λ x. ReturnHolds sys x (serve_command sys limit id (c_string bytes) w)) e
        (serve_command-ReturnHolds limit id (c_string bytes) w)

  serve_request-ReturnHolds :
      (limit id namelen : ℕ) (w : World) (h : List ℕ)
      → held sys w.trace ≡ h
      → ReturnHolds sys h (serve_request sys limit id namelen w)
  unfolding serve_request
  serve_request-ReturnHolds limit id namelen w h e =
      let (name, w1) = readx namelen w in
      if_cases (ReturnHolds sys h) (ltb max_name namelen) _ _
        (λ _. refuse-ReturnHolds limit invalid_namelen w h e)
        λ _. serve_name-ReturnHolds limit id name w1 h (held-readx sys namelen w ∙ e)

  serve_head-ReturnHolds :
      (limit : ℕ) (head : Option (List ℕ)) (w : World) (h : List ℕ)
      → held sys w.trace ≡ h
      → ReturnHolds sys h (serve_head sys limit head w)
  unfolding serve_head
  serve_head-ReturnHolds limit none w h e = refuse-ReturnHolds limit command_failure w h e
  serve_head-ReturnHolds limit (some head) w h e =
      serve_request-ReturnHolds limit (word head) (word (drop 4 head)) w h e

  -- The files that are open when a service has ended.
  abbrev pub EndHolds : List ℕ → Option World → Type 0
  EndHolds h none = Unit {0}
  EndHolds h (some w) = held sys w.trace ≡ h

  served-EndHolds :
      (h : List ℕ) (out : Option Bool × World) (rest : World → Option World)
      → ReturnHolds sys h out
      → ((w : World) → held sys w.trace ≡ h → EndHolds h (rest w))
      → EndHolds h (elim out.0 [
        | none ↦ none
        | some stop ↦ elim stop [ true ↦ some out.1 | false ↦ rest out.1 ]
      ])
  served-EndHolds h (none, w) rest e more = tt
  served-EndHolds h (some true, w) rest e more = e
  served-EndHolds h (some false, w) rest e more = more w e

  serve-EndHolds :
      (limit rounds : ℕ) (w : World) (h : List ℕ)
      → held sys w.trace ≡ h
      → EndHolds h (serve sys limit rounds w)
  unfolding serve
  serve-EndHolds limit zero w h e = tt
  serve-EndHolds limit (suc rounds) w h e =
      let (head, w1) = readx 8 w in
      served-EndHolds h (serve_head sys limit head w1) (serve sys limit rounds)
        (serve_head-ReturnHolds limit head w1 h (held-readx sys 8 w ∙ e))
        λ w' e'. serve-EndHolds limit rounds w' h e'

  closed-EndHolds :
      (fd : ℕ) (served : Option World) (h : List ℕ)
      → EndHolds h served
      → EndHolds
          (erase fd h)
          (elim served [ none ↦ none | some w' ↦ some (do_call sys (close_file fd) w').1 ])
  unfolding do_call
  closed-EndHolds fd none h e = tt
  closed-EndHolds fd (some w) h e = ap (erase fd) e

  -- Whatever the client sends and the system answers, when file_sync_service ends, the files and directories
  -- that are open are those that were open before, less the client's descriptor.
  pub file_sync_service-EndHolds :
      (limit rounds : ℕ) (buffer : Bool) (fd : ℕ) (w : World)
      → EndHolds (erase fd (held sys w.trace)) (file_sync_service sys limit rounds buffer fd w)
  unfolding file_sync_service
  file_sync_service-EndHolds limit rounds true fd w =
      closed-EndHolds fd (serve sys limit rounds w) (held sys w.trace)
        (serve-EndHolds limit rounds w (held sys w.trace) refl)
  file_sync_service-EndHolds limit rounds false fd w = refl
