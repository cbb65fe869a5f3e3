-- ===== src/Sync/Recv/Step.antt =====
-- adb/file_sync_service.c, do_recv: one round of the loop.
use adb_wide.Base.{ℕ, suc, ◌≡◌, refl, Bool, Option, some}
use adb_wide.Sync.Wire.{message, id_done}
use adb_wide.Sync.World.{close_file, Platform, World, do_call, send_bytes}
use adb_wide.Sync.Recv.{Pull, again, pulled, quit, pull_round, pull}

module _ (sys : Platform) where
  -- What follows a round of the loop.
  unfoldable pub after_pull : ℕ → ℕ → Pull × World → Option Bool × World
  after_pull fuel fd (again, w) = pull sys fuel fd w
  after_pull fuel fd (pulled, w) =
      let (untold, w2) = send_bytes sys (message id_done 0) (do_call sys (close_file fd) w).1 in
      (some untold, w2)
  after_pull fuel fd (quit result, w) = (some result, w)

  pub pull_step :
      (fuel fd : ℕ) (w : World)
      → pull sys (suc fuel) fd w ≡ after_pull fuel fd (pull_round sys fd w)
  unfolding pull after_pull
  pull_step fuel fd w = go (pull_round sys fd w)
    where
      go :
          (out : Pull × World)
          → ◌≡◌ {A = Option Bool × World}
              (elim out.0 [
                | again ↦ pull sys fuel fd out.1
                | pulled ↦
                    (let (untold, w2) =
                        send_bytes sys (message id_done 0) (do_call sys (close_file fd) out.1).1 in
                      (some untold, w2))
                | quit result ↦ (some result, out.1)
              ])
              (after_pull fuel fd out)
      go (again, w1) = refl
      go (pulled, w1) = refl
      go (quit result, w1) = refl
