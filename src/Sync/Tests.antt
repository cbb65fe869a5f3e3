-- ===== src/Sync/Tests.antt =====
-- adb/file_sync_service.c: uploads by a concrete client, and instances of the theorems.
use adb_wide.Base.{ap, ℕ, ◌≡◌, refl, true, false, some, List, [], ◌∷◌, ◌++◌, arith}
use adb_wide.Sync.Wire.{message, id_okay}
use adb_wide.Sync.World.{
  Call, read_file, Text, success, send, close_file, restorecon, utime, Reply, Owner, Platform,
  World,
}
use adb_wide.Sync.Send.{handle_send_file}
use adb_wide.Sync.Upload.{upload, written, begun, handle_send_file-upload}
use adb_wide.Sync.Recv.{do_recv}
use adb_wide.Sync.Recv.Download.{reads, chunk_at, Downloaded, do_recv-Downloaded}

abbrev pub done_well : Reply
done_well = record {
  failed = false;
  errno = success;
  fd = 7;
  bytes = [];
  stat = record { mode = 0; size = 0; time = 0 };
  names = [];
}

-- A system on which every call succeeds.
abbrev pub willing : Platform
willing = record {
  reply = λ h c. done_well;
  strerror = λ e. [];
  fs_config = λ name is_dir owner. owner;
  strtoul = λ t. (0o644, success);
  stale = λ h. 0 ∷ [];
}

abbrev root : Owner
root = record { uid = 0; gid = 0; mode = 0o644 }

-- "/a"
abbrev pub path : Text
path = b'/' ∷ b'a' ∷ []

abbrev chunks : List (List ℕ)
chunks = (1 ∷ 2 ∷ []) ∷ [] ∷ (3 ∷ []) ∷ []

-- The upload, and a byte after it.
abbrev client : World
client = record { input = upload chunks 9 ++ 5 ∷ []; trace = []; errno = success }

handle_send_file-upload_example :
    let (fd, t) = begun willing (λ h c. refl) path root client in
    handle_send_file willing 4 path root true client ≡ (
      some false,
      record client {
        input = 5 ∷ [];
        trace =
            send (message id_okay 0)
            ∷ utime path 9
            ∷ restorecon path
            ∷ close_file fd
            ∷ written fd chunks t;
      },
    )
handle_send_file-upload_example =
    handle_send_file-upload willing (λ h c. refl) path root true 4 chunks 9 (5 ∷ []) client
      (omega arith, (omega arith, (omega arith, tt))) (omega arith) (omega arith) refl

abbrev pub file : List (List ℕ)
file = (1 ∷ 2 ∷ []) ∷ (3 ∷ []) ∷ []

-- A system whose reads give the file.
abbrev with_reads : List Call → Call → Reply
with_reads h (read_file fd) = record done_well { bytes = chunk_at (reads h) file }
with_reads h c = done_well

abbrev reading : Platform
reading = record willing { reply = with_reads }

with_reads-succeeds : (h : List Call) (c : Call) → (with_reads h c).failed ≡ false
with_reads-succeeds h c = ground arith

do_recv-Downloaded_example :
    Downloaded reading with_reads-succeeds file client (do_recv reading 3 path client)
do_recv-Downloaded_example =
    do_recv-Downloaded reading with_reads-succeeds 3 path file client
      (omega arith, (omega arith, tt)) (omega arith)
      λ h fd n e. let same : reads h ≡ n = omega (arith, e) in ap (λ k. chunk_at k file) same
