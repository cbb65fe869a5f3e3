-- ===== src/Sync/Service/Tests.antt =====
-- adb/file_sync_service.c: sessions of the service, and instances of the theorems.
use adb_wide.Base.{
  ℕ, suc, ◌≤◌, List, ◌∷◌, ◌==◌, if◌then◌else◌, ◌≡◌, ◌≢◌, refl, true, none, [], ◌++◌, erase, arith,
}
use adb_wide.Sync.Wire.{message, id_stat, id_list, id_recv, id_quit}
use adb_wide.Sync.World.{success, Call, read_file, open_file, Reply, Platform, World}
use adb_wide.Sync.Tests.{willing, path, file, done_well}
use adb_wide.Sync.Recv.Download.{chunk_at}
use adb_wide.Sync.Push.{spread_mode}
use adb_wide.Sync.Push.Mode.{spread, spread_mode-spread}
use adb_wide.Sync.Service.{file_sync_service, unknown_command}
use adb_wide.Sync.Service.Files.{EndHolds, file_sync_service-EndHolds}
use adb_wide.Sync.Service.Ends.{reads_of, IsFinite, file_sync_service_ends}
use adb_wide.Sync.Service.Refusals.{Refused, file_sync_service-Refused}

-- A request for the attributes of a file, and the end.
abbrev asking : World
asking = record {
  input = message id_stat 2 ++ (path ++ message id_quit 0);
  trace = [];
  errno = success;
}

-- A request that no service knows.
abbrev confused : World
confused = record asking { input = message 1 0 }

-- A request for the names in a directory, and the end.
abbrev browsing : World
browsing = record asking { input = message id_list 2 ++ (path ++ message id_quit 0) }

file_sync_service-EndHolds_example :
    EndHolds willing (erase 3 []) (file_sync_service willing 19 19 true 3 browsing)
file_sync_service-EndHolds_example = file_sync_service-EndHolds willing 19 19 true 3 browsing

-- The reads of a descriptor since the last call of open, which gives the descriptor of done_well.
abbrev reads_at : ℕ → List Call → ℕ
reads_at fd [] = 0
reads_at fd (read_file k ∷ h) = let before = reads_at fd h in if k == fd then suc before else before
reads_at fd (open_file name flags mode ∷ h) =
    let before = reads_at fd h in if done_well.fd == fd then 0 else before
reads_at fd (_ ∷ h) = reads_at fd h

-- A system whose files all hold the chunks of `file`, from their beginning each time that they are opened.
abbrev with_files : List Call → Call → Reply
with_files h (read_file fd) = record done_well { bytes = chunk_at (reads_at fd h) file }
with_files h c = done_well

abbrev filing : Platform
filing = record willing { reply = with_files }

reads_of-filing : (fd : ℕ) (h : List Call) → reads_of filing fd h ≡ reads_at fd h
unfolding reads_of
reads_of-filing fd [] = refl
reads_of-filing fd (read_file k ∷ h) = ground (arith, reads_of-filing fd h)
reads_of-filing fd (open_file name flags mode ∷ h) = ground (arith, reads_of-filing fd h)
reads_of-filing fd (_ ∷ h) = reads_of-filing fd h

nothing_after_two : (k : ℕ) → 2 ≤ k → chunk_at k file ≡ []
nothing_after_two k h = ground (arith, h)

filing-IsFinite : IsFinite filing 2
filing-IsFinite h fd n =
    (refl, nothing_after_two (reads_at fd h) (omega (arith, reads_of-filing fd h)))

-- A request for a file, and the end.
abbrev fetching : World
fetching = record asking { input = message id_recv 2 ++ (path ++ message id_quit 0) }

file_sync_service_ends_example : file_sync_service filing 19 19 true 3 fetching ≢ none
file_sync_service_ends_example =
    file_sync_service_ends filing 19 2 filing-IsFinite (omega arith) 19 true 3 fetching
      (omega arith) (omega arith)

file_sync_service-Refused_example :
    Refused willing
      (λ h c. refl)
      9
      1
      3
      unknown_command
      confused
      (file_sync_service willing 9 2 true 3 confused)
file_sync_service-Refused_example =
    file_sync_service-Refused willing (λ h c. refl) 9 1 3 unknown_command confused refl

spread_mode-spread_example : spread_mode 0o640 ≡ spread 0o640
spread_mode-spread_example = spread_mode-spread 0o640 (omega arith)
