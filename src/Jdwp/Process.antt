-- ===== src/Jdwp/Process.antt =====
-- adb/jdwp_service.c: jdwp_process_alloc, jdwp_process_free and jdwp_process_event.
pub mod Reads
pub mod Free
use adb_wide.Base.{
  ℕ, zero, suc, ◌+◌, ◌-◌, Bool, true, false, Option, none, some, List, [], ◌∷◌, ◌++◌, length, take,
  drop, erase, leb, ltb, ◌==◌, if◌then◌else◌, update,
}
use adb_wide.Base.Int.{ℤ, pos, negsuc}
use adb_wide.Fdevent.Events.{Events, fde_read, fde_write}
use adb_wide.Fdevent.State.{Loop, client, Outcome, ok, abort, ◌>>=◌, put_fde}
use adb_wide.Fdevent.Table.{Memory}
use adb_wide.Fdevent.Api.{fdevent_create, fdevent_destroy, fdevent_add, fdevent_del}
use adb_wide.Jdwp.State.{Proc, Jdwp, put_proc, put_loop, adb_close, jdwp_process_list_updated}

-- The descriptors out_fds[n .. n + k - 1] are closed, in this order.
abbrev pub close_out : (ℕ → ℕ) → ℕ → ℕ → List ℕ → List ℕ
close_out fds n zero closed = closed
close_out fds n (suc k) closed = close_out fds (n + 1) k (fds n ∷ closed)

abbrev pub close_socket : Option ℕ → Jdwp → Jdwp
close_socket none s = s
close_socket (some fd) s = adb_close fd (record s { hung_up = fd ∷ s.hung_up })

abbrev pub close_pending : ℕ → Jdwp → Jdwp
close_pending p s =
    let f = s.proc p in
    put_proc p (record f { out_count = 0 })
      (put_loop (record s.loop { closed = close_out f.out_fds 0 f.out_count s.loop.closed }) s)

-- The part after fdevent_destroy.
abbrev pub free_rest : ℕ → Loop → Jdwp → Jdwp
free_rest p loop s = jdwp_process_list_updated (
    close_pending p
      (put_proc p (record (s.proc p) { socket = none; pid = negsuc 0 }) (put_loop loop s)))

-- jdwp_process_free of a process.
unfoldable pub jdwp_process_free : ℕ → Jdwp → Outcome Jdwp
jdwp_process_free p s =
    let f = s.proc p in
    let s1 = close_socket f.socket (record s { list = erase p s.list }) in
    fdevent_destroy (some f.fde) s1.loop >>= λ loop. ok (free_rest p loop s1)

-- `p` is what calloc returns, `address` what malloc returns in fdevent_create; the functions that
-- fdevent_create is given are the clients' by number.
unfoldable pub jdwp_process_alloc :
    Memory → Option ℕ → Option ℕ → ℕ → Jdwp → Outcome (Option ℕ × Jdwp)
jdwp_process_alloc m none address socket s = ok (none, s)
jdwp_process_alloc m (some p) none socket s = ok (none, s)
jdwp_process_alloc m (some p) (some f) socket s =
    fdevent_create m (some f) (pos socket) (client 1) p s.loop >>= λ made.
    let loop = made.1 in
    let wanted = record ((loop.fde f).wanted) { dont_close = true } in
    let loop' = put_fde f (record (loop.fde f) { wanted = wanted }) loop in
    let proc : Proc = record {
      pid = negsuc 0;
      socket = some socket;
      fde = f;
      in_buff = [];
      out_fds = λ i. 0;
      out_count = 0;
    } in
    ok (
      some p,
      put_proc p proc (record s { loop = fdevent_add f fde_read loop'; list = s.list ++ p ∷ [] }),
    )

-- What recv gives, one after another: the bytes that are there, of which it takes as many as it is
-- asked for, the end of the stream where there are none; or an error. After the last, EAGAIN.
pub data Received : Type 0 where
  bytes : List ℕ → Received
  interrupted broken : Received

-- How the reading of the pid stops: all four bytes are there, it has to wait, or `goto CloseProcess`.
pub data Reading : Type 0 where
  complete waiting closing : Reading

-- while (size > 0): the bytes so far, and what is left to receive.
unfoldable pub read_pid : List ℕ → List Received → Reading × List ℕ × List Received
read_pid buff [] = if leb 4 (length buff) then (complete, buff, []) else (waiting, buff, [])
read_pid buff (interrupted ∷ rs) =
    let rest = read_pid buff rs in
    if leb 4 (length buff) then (complete, buff, interrupted ∷ rs) else rest
read_pid buff (broken ∷ rs) =
    if leb 4 (length buff) then (complete, buff, broken ∷ rs) else (closing, buff, rs)
read_pid buff (bytes [] ∷ rs) =
    if leb 4 (length buff) then (complete, buff, bytes [] ∷ rs) else (closing, buff, rs)
read_pid buff (bytes (b ∷ bs) ∷ rs) =
    let size = 4 - length buff in
    let rest = read_pid (buff ++ take size (b ∷ bs)) rs in
    if leb 4 (length buff)
    then (complete, buff, bytes (b ∷ bs) ∷ rs)
    else if ltb size (length (b ∷ bs))
    then (complete, buff ++ take size (b ∷ bs), bytes (drop size (b ∷ bs)) ∷ rs)
    else rest

-- The loop where the pid is known: true for `break`, false for return at EAGAIN.
unfoldable pub ignore_input : List Received → Bool
ignore_input [] = false
ignore_input (interrupted ∷ rs) = ignore_input rs
ignore_input (broken ∷ rs) = true
ignore_input (bytes [] ∷ rs) = true
ignore_input (bytes (b ∷ bs) ∷ rs) = ignore_input rs

-- The system's answers where a descriptor is passed on: to F_GETFL and F_SETFL, to sendmsg after
-- so many EINTR, and to F_SETFL again; true for success.
pub record Passing : Type 0 where
  pub got_flags : Bool
  pub blocking : Bool
  pub interruptions : ℕ
  pub delivered : Bool
  pub restored : Bool

-- for (;;) sendmsg of fd, until it succeeds or fails but by EINTR; true where it succeeds, and then fd is
-- closed.
unfoldable pub send_fd : ℕ → Bool → Option ℕ → ℕ → Jdwp → Bool × Jdwp
send_fd zero true socket fd s = (true, adb_close fd (record s { passed = (socket, fd) ∷ s.passed }))
send_fd zero false socket fd s = (false, s)
send_fd (suc n) delivered socket fd s = send_fd n delivered socket fd s

-- for (n = 1; n < out_count; n++) out_fds[n-1] = out_fds[n];
abbrev pub shift_fds : (ℕ → ℕ) → ℕ → ℕ → ℕ
shift_fds fds count i = if ltb (i + 1) count then fds (i + 1) else fds i

-- After the shift: the flags are restored, or the process is closed.
unfoldable pub count_down : Bool → ℕ → Jdwp → Outcome Jdwp
unfolding jdwp_process_free
count_down restored p s =
    let f = s.proc p in
    let s1 = put_proc p (record f { out_count = f.out_count - 1 }) s in
    if restored
    then (if f.out_count - 1 == 0
        then ok (put_loop (fdevent_del f.fde fde_write s1.loop) s1)
        else ok s1)
    else jdwp_process_free p s

-- The part of jdwp_process_event under FDE_WRITE.
unfoldable pub write_event : Passing → ℕ → Jdwp → Outcome Jdwp
unfolding count_down send_fd
write_event a p s =
    let f = s.proc p in
    let (sent, s1) = send_fd a.interruptions a.delivered f.socket (f.out_fds 0) s in
    let s2 = put_proc p (record f { out_fds = shift_fds f.out_fds f.out_count }) s1 in
    if f.out_count == 0
    then ok s
    else if a.got_flags
    then (if a.blocking
        then (if sent then count_down a.restored p s2 else jdwp_process_free p s)
        else jdwp_process_free p s)
    else jdwp_process_free p s

-- The four characters read as a pid: `scan` is sscanf with "%04x", `none` where it finds no number.
unfoldable pub set_pid : (List ℕ → Option ℤ) → ℕ → Jdwp → Option Jdwp
set_pid scan p s = elim (scan (s.proc p).in_buff) [
  | none ↦ none
  | some pid ↦ some (jdwp_process_list_updated (put_proc p (record (s.proc p) { pid = pid }) s))
]

-- Under FDE_READ, where the pid is not known: `next` is what follows.
unfoldable pub read_event :
    (List ℕ → Option ℤ) → (Jdwp → Outcome Jdwp) → List Received → ℕ → Jdwp → Outcome Jdwp
unfolding read_pid set_pid jdwp_process_free
read_event scan next rs p s =
    let (reading, buff, rest) = read_pid (s.proc p).in_buff rs in
    let s1 = put_proc p (record (s.proc p) { in_buff = buff }) s in
    elim reading [
      | complete ↦ elim (set_pid scan p s1) [ none ↦ jdwp_process_free p s1 | some s2 ↦ next s2 ]
      | waiting ↦ ok s1
      | closing ↦ jdwp_process_free p s1
    ]

abbrev pub is_negative : ℤ → Bool
is_negative (pos n) = false
is_negative (negsuc n) = true

-- jdwp_process_event of a process.
unfoldable pub jdwp_process_event :
    (List ℕ → Option ℤ) → List Received → Passing → Events → ℕ → Jdwp → Outcome Jdwp
unfolding read_event ignore_input write_event
jdwp_process_event scan rs a events p s =
    let next = λ (s' : Jdwp). if events.write then write_event a p s' else ok s' in
    if events.read
    then (if is_negative (s.proc p).pid
        then read_event scan next rs p s
        else if ignore_input rs
        then jdwp_process_free p s
        else ok s)
    else next s
