-- ===== src/Sync/Recv/Files.antt =====
-- adb/file_sync_service.c, do_recv: the files that are open.
use adb_wide.Base.{
  ℕ, zero, suc, ◌≡◌, ◌∙◌, Option, none, some, List, [], ◌∷◌, length, arith, ==-refl,
}
use adb_wide.Sync.Wire.{message, id_data, id_done}
use adb_wide.Sync.World.{
  Text, read_only, close_file, read_file, Platform, World, do_call, send_bytes,
}
use adb_wide.Sync.Send.{try_open}
use adb_wide.Sync.Recv.{Pull, again, pulled, quit, pull_chunk, pull_round, pull, recv_from, do_recv}
use adb_wide.Sync.Recv.Step.{after_pull, pull_step}
use adb_wide.Sync.Ledger.{
  held, with_file, held-send_bytes, held-fail_errno, held-try_open, held-close, ReturnHolds,
}

module _ (sys : Platform) where
  PullHolds : ℕ → List ℕ → Pull × World → Type 0
  PullHolds fd h (quit result, w) = held sys w.trace ≡ h
  PullHolds fd h (again, w) = held sys w.trace ≡ fd ∷ h
  PullHolds fd h (pulled, w) = held sys w.trace ≡ fd ∷ h

  pull_chunk-PullHolds :
      (fd : ℕ) (bytes : List ℕ) (w : World) (h : List ℕ)
      → held sys w.trace ≡ fd ∷ h
      → PullHolds fd h (pull_chunk sys fd bytes w)
  unfolding pull_chunk PullHolds do_call
  pull_chunk-PullHolds fd [] w h e = e
  pull_chunk-PullHolds fd (b ∷ bytes) w h e =
      let told = message id_data (length (b ∷ bytes)) in
      let w1 = (send_bytes sys told w).1 in
      ground (arith, held-send_bytes sys told w, held-send_bytes sys (b ∷ bytes) w1, ==-refl fd)

  pull_round-PullHolds :
      (fd : ℕ) (w : World) (h : List ℕ)
      → held sys w.trace ≡ fd ∷ h
      → PullHolds fd h (pull_round sys fd w)
  unfolding pull_round PullHolds do_call
  pull_round-PullHolds fd w h e =
      let (r, w1) = do_call sys (read_file fd) w in
      ground (arith, pull_chunk-PullHolds fd r.bytes w1 h e, held-fail_errno sys w1, ==-refl fd)

  after_pull-ReturnHolds :
      (fuel fd : ℕ) (h : List ℕ) (out : Pull × World)
      → PullHolds fd h out
      → ((w : World) → held sys w.trace ≡ fd ∷ h → ReturnHolds sys h (pull sys fuel fd w))
      → ReturnHolds sys h (after_pull sys fuel fd out)
  unfolding PullHolds after_pull
  after_pull-ReturnHolds fuel fd h (again, w) e more = more w e
  after_pull-ReturnHolds fuel fd h (pulled, w) e more =
      held-send_bytes sys (message id_done 0) (do_call sys (close_file fd) w).1
      ∙ held-close sys fd w h e
  after_pull-ReturnHolds fuel fd h (quit result, w) e more = e

  pull-ReturnHolds :
      (fuel fd : ℕ) (w : World) (h : List ℕ)
      → held sys w.trace ≡ fd ∷ h
      → ReturnHolds sys h (pull sys fuel fd w)
  unfolding pull
  pull-ReturnHolds zero fd w h e = tt
  pull-ReturnHolds (suc fuel) fd w h e = rw (pull_step sys fuel fd w) (
      after_pull-ReturnHolds fuel fd h (pull_round sys fd w) (pull_round-PullHolds fd w h e)
        λ w' e'. pull-ReturnHolds fuel fd w' h e')

  recv_from-ReturnHolds :
      (fuel : ℕ) (fd : Option ℕ) (w : World) (h : List ℕ)
      → held sys w.trace ≡ with_file sys fd h
      → ReturnHolds sys h (recv_from sys fuel fd w)
  unfolding recv_from
  recv_from-ReturnHolds fuel none w h e = held-fail_errno sys w ∙ e
  recv_from-ReturnHolds fuel (some fd) w h e = pull-ReturnHolds fuel fd w h e

  -- Whatever the system answers, when do_recv returns, the files that are open are those that were
  -- open before.
  pub do_recv-ReturnHolds :
      (fuel : ℕ) (path : Text) (w : World)
      → ReturnHolds sys (held sys w.trace) (do_recv sys fuel path w)
  unfolding do_recv
  do_recv-ReturnHolds fuel path w =
      let (fd, w') = try_open sys path read_only 0 w in
      recv_from-ReturnHolds fuel fd w' (held sys w.trace) (held-try_open sys path read_only 0 w)
