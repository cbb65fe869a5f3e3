-- ===== src/Fdevent/Select.antt =====
-- adb/fdevent.c, the select() backend: the watched sets and the scan of what is ready.
use adb_wide.Base.{
  ℕ, zero, suc, ◌+◌, ◌-◌, Bool, true, false, ◌||◌, Option, none, some, update, leb, ◌==◌,
  if◌then◌else◌,
}
use adb_wide.Fdevent.Events.{Events, no_events, bits_or}
use adb_wide.Fdevent.Plist.{plist_enqueue}
use adb_wide.Fdevent.State.{FdSet, Loop, Outcome, ok, abort, ◌>>=◌, put_fde}

-- FD_ZERO, and FD_SET or FD_CLR as the test says.
abbrev pub fd_zero : FdSet
fd_zero i = false

abbrev pub fd_assign : FdSet → ℕ → Bool → FdSet
fd_assign = update

unfoldable pub fdevent_init : Loop → Loop
fdevent_init s = record s { read_fds = fd_zero; write_fds = fd_zero; error_fds = fd_zero }

unfoldable pub fdevent_connect : ℕ → Loop → Loop
fdevent_connect p s =
    let fd = (s.fde p).fd in if leb s.select_n fd then record s { select_n = fd + 1 } else s

abbrev pub is_used : Option ℕ → Bool
is_used none = false
is_used (some p) = true

-- for (; i < select_n; i++) if (fd_table[i] != 0) n = i;
unfoldable pub last_used : (ℕ → Option ℕ) → ℕ → ℕ → ℕ → ℕ
last_used table zero i n = n
last_used table (suc rounds) i n =
    last_used table rounds (i + 1) (if is_used (table i) then i else n)

unfoldable pub fdevent_disconnect : ℕ → Loop → Loop
unfolding last_used
fdevent_disconnect p s =
    let fd = (s.fde p).fd in
    record s {
      read_fds = fd_assign s.read_fds fd false;
      write_fds = fd_assign s.write_fds fd false;
      error_fds = fd_assign s.error_fds fd false;
      select_n = last_used s.fd_table s.select_n 0 0 + 1;
    }

unfoldable pub fdevent_update : ℕ → Events → Loop → Loop
fdevent_update p events s =
    let f = s.fde p in
    put_fde p (record f { wanted = events })
      (record s {
        read_fds = fd_assign s.read_fds f.fd events.read;
        write_fds = fd_assign s.write_fds f.fd events.write;
        error_fds = fd_assign s.error_fds f.fd events.error;
      })

-- `bad i` says that fcntl(i, F_GETFL) fails.
unfoldable pub fd_check_from : (ℕ → Bool) → (ℕ → Option ℕ) → ℕ → ℕ → FdSet → ℕ → FdSet × ℕ
fd_check_from bad table zero i fds n = (fds, n)
fd_check_from bad table (suc rounds) i fds n =
    let hit = if is_used (table i) then bad i else false in
    fd_check_from bad table rounds (i + 1) (if hit then fd_assign fds i true else fds)
      (if hit then n + 1 else n)

unfoldable pub fdevent_fd_check : (ℕ → Bool) → FdSet → Loop → FdSet × ℕ
unfolding fd_check_from
fdevent_fd_check bad fds s = fd_check_from bad s.fd_table s.select_n 0 fds 0

-- What select() returns: the number of ready bits with the three sets, or an error.
pub data Selected : Type 0 where
  ready : ℕ → FdSet → FdSet → FdSet → Selected
  eintr ebadf other_error : Selected

-- The part of the scan that runs for a ready fdevent.
unfoldable pub signal : ℕ → Events → Loop → Loop
signal p events s =
    let f = record (s.fde p) { events = bits_or (s.fde p).events events } in
    if f.pending
    then put_fde p f s
    else put_fde p (record f { pending = true }) (record s { links = plist_enqueue p s.links })

abbrev pub ready_events : FdSet → FdSet → FdSet → ℕ → Events
ready_events r w e i = record no_events { read = r i; write = w i; error = e i }

abbrev pub bit : Bool → ℕ
bit b = if b then 1 else 0

abbrev pub ready_bits : FdSet → FdSet → FdSet → ℕ → ℕ
ready_bits r w e i = bit (r i) + bit (w i) + bit (e i)

unfoldable pub process_fd : FdSet → FdSet → FdSet → ℕ → Loop → Outcome Loop
unfolding signal
process_fd r w e i s =
    if r i || (w i || e i)
    then (elim (s.fd_table i) [ none ↦ abort | some p ↦ ok (signal p (ready_events r w e i) s) ])
    else ok s

-- for (; (i < select_n) && (n > 0); i++), where `n` stops at 0 and the code may go below.
unfoldable pub process_from : FdSet → FdSet → FdSet → ℕ → ℕ → ℕ → Loop → Outcome Loop
unfolding process_fd
process_from r w e zero i n s = ok s
process_from r w e (suc rounds) i n s = elim (n == 0) [
  | true ↦ ok s
  | false ↦
      process_fd r w e i s >>= λ s'. process_from r w e rounds (i + 1) (n - ready_bits r w e i) s'
]

-- After an error or when nothing is ready, the bad descriptors are taken for readable.
unfoldable pub fdevent_process : (ℕ → Bool) → Selected → Loop → Outcome Loop
unfolding process_from fdevent_fd_check
fdevent_process bad eintr s = ok s
fdevent_process bad other_error s = ok s
fdevent_process bad ebadf s =
    let (rfd, n) = fdevent_fd_check bad fd_zero s in
    process_from rfd fd_zero fd_zero s.select_n 0 n s
fdevent_process bad (ready n r w e) s =
    let (rfd, n') = fdevent_fd_check bad r s in
    if n == 0 then process_from rfd w e s.select_n 0 n' s else process_from r w e s.select_n 0 n s
