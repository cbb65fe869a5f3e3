-- ===== src/Jdwp/Tests.antt =====
-- adb/jdwp_service.c: a process with one descriptor waiting, and instances of the theorems.
use adb_wide.Base.{
  ℕ, ◌+◌, ◌-◌, ◌<◌, ◌≡◌, refl, true, false, none, some, List, [], ◌∷◌, length, take, drop, arith,
  update,
}
use adb_wide.Base.Int.{ℤ, pos, negsuc}
use adb_wide.Fdevent.Events.{fde_read}
use adb_wide.Fdevent.State.{Fde, Loop, client, ok}
use adb_wide.Fdevent.Select.{fd_zero}
use adb_wide.Fdevent.Invariant.{Inv, fresh_fde}
use adb_wide.Fdevent.Invariant.Tests.{blank, empty_ring}
use adb_wide.Jdwp.Text.{jdwp_process_list, jdwp_process_list_msg}
use adb_wide.Sockets.Smart.{unhex}
use adb_wide.Jdwp.Text.Lines.{IsListing, lines, jdwp_process_list_lem, jdwp_process_list_msg-unhex}
use adb_wide.Jdwp.State.{Proc, Jdwp}
use adb_wide.Jdwp.Process.{Received, bytes, interrupted, read_pid, write_event, jdwp_process_free}
use adb_wide.Jdwp.Process.Reads.{ReadsPid, read_pid-ReadsPid}
use adb_wide.Jdwp.Process.Free.{
  IsOpen, Freed, jdwp_process_free-Freed, not_restored, write_event_closes_twice,
}
use adb_wide.Jdwp.Connect.{create_jdwp_connection_fd}
use adb_wide.Jdwp.Connect.Queue.{
  AreWatched, Connected, create_jdwp_connection_fd-AreWatched, create_jdwp_connection_fd-Connected,
}
use adb_wide.Jdwp.Connect.Passing.{going_well, Passed, write_event-Passed}

-- The fdevent at address 5 of the socket 3, as jdwp_process_alloc leaves it, with something to write.
abbrev watcher : Fde
watcher = record (fresh_fde 3 (client 1) 9) {
  wanted = record fde_read { write = true; dont_close = true };
  created = true;
}

abbrev loop_of_one : Loop
loop_of_one = record {
  fde = update (λ p. blank) 5 watcher;
  links = empty_ring;
  fd_table = update (λ i. none) 3 (some 5);
  fd_table_max = 256;
  select_n = 4;
  read_fds = update fd_zero 3 true;
  write_fds = update fd_zero 3 true;
  error_fds = fd_zero;
  closed = [];
}

-- The process 77 at address 9, for which the descriptor 40 waits.
abbrev debuggee : Proc
debuggee = record {
  pid = pos 77;
  socket = some 3;
  fde = 5;
  in_buff = [];
  out_fds = λ i. 40 + i;
  out_count = 1;
}

abbrev one_process : Jdwp
one_process = record {
  loop = loop_of_one;
  proc = λ p. debuggee;
  list = 9 ∷ [];
  trackers = [];
  need_update = λ t. false;
  sent = [];
  hung_up = [];
  passed = [];
}

loop_of_one-Inv : Inv loop_of_one []
loop_of_one-Inv = record {
  ring = record { chain = (refl, refl); apart = refl; distinct = tt };
  waits = λ p. ground arith;
  bound = omega arith;
  entries = λ i. ground arith;
  owned = λ p a. ground arith;
  reads = λ i. ground arith;
  writes = λ i. ground arith;
  errors = λ i. ground arith;
}

one_process-AreWatched : AreWatched one_process
one_process-AreWatched = record {
  each = λ p h. record { room = omega arith; write = refl };
  own = λ p k h j ne. ground arith;
}

one_process-IsOpen : IsOpen one_process 9 3
one_process-IsOpen = record { socket = refl; created = refl; kept_open = refl }

abbrev known : List ℤ
known = pos 77 ∷ negsuc 0 ∷ pos 5 ∷ []

jdwp_process_list_lem_example :
    (length (jdwp_process_list 100 known) < 100)
    × ((k : ℕ) × (jdwp_process_list 100 known ≡ lines (take k known))
        × IsListing (take k known) (jdwp_process_list 100 known))
    × (length (lines known) < 100 → jdwp_process_list 100 known ≡ lines known)
    × IsListing known (lines known)
jdwp_process_list_lem_example = jdwp_process_list_lem 100 known (omega arith)

jdwp_process_list_msg-unhex_example :
    let msg = jdwp_process_list_msg 1024 known in
    (length msg < 1024)
    × (unhex msg 4 ≡ length (drop 4 msg))
    × (drop 4 msg ≡ jdwp_process_list (1024 - 4) known)
jdwp_process_list_msg-unhex_example =
    jdwp_process_list_msg-unhex 1024 known (omega arith) (omega arith)

abbrev pieces : List Received
pieces = interrupted ∷ bytes (b'0' ∷ b'0' ∷ []) ∷ bytes (b'4' ∷ b'd' ∷ b'!' ∷ []) ∷ []

read_pid-ReadsPid_example : ReadsPid (b'0' ∷ b'0' ∷ b'4' ∷ b'd' ∷ b'!' ∷ []) (read_pid [] pieces)
read_pid-ReadsPid_example =
    read_pid-ReadsPid [] pieces (omega arith, (omega arith, tt)) (omega arith) (omega arith)

create_jdwp_connection_fd-AreWatched_example :
    AreWatched (create_jdwp_connection_fd (pos 77) (some (50, 51)) one_process).1
create_jdwp_connection_fd-AreWatched_example =
    create_jdwp_connection_fd-AreWatched (pos 77) (some (50, 51)) one_process one_process-AreWatched

create_jdwp_connection_fd-Connected_example :
    Connected one_process 9 50 51 (create_jdwp_connection_fd (pos 77) (some (50, 51)) one_process)
unfolding create_jdwp_connection_fd
create_jdwp_connection_fd-Connected_example =
    create_jdwp_connection_fd-Connected (pos 77) 9 50 51 one_process one_process-AreWatched refl

write_event-Passed_example : Passed one_process 9 (write_event (going_well 2) 9 one_process)
write_event-Passed_example =
    write_event-Passed 2 one_process 9 one_process-AreWatched refl (omega arith)

jdwp_process_free-Freed_example : Freed one_process 9 3 [] (jdwp_process_free 9 one_process)
jdwp_process_free-Freed_example =
    jdwp_process_free-Freed one_process 9 3 [] loop_of_one-Inv one_process-IsOpen

write_event_closes_twice_example :
    (s : Jdwp) × (write_event (not_restored 0) 9 one_process ≡ ok s)
    × (s.loop.closed ≡ 40 ∷ 3 ∷ 40 ∷ [])
write_event_closes_twice_example =
    write_event_closes_twice 0 one_process 9 3 [] loop_of_one-Inv one_process-IsOpen refl
