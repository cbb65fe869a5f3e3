-- ===== src/Fdevent/Table.antt =====
-- adb/fdevent.c: fd_table, which finds the fdevent of a descriptor.
use adb_wide.Base.{
  ℕ, zero, suc, ◌+◌, ◌-◌, ◌*◌, ◌/◌, Bool, false, Option, none, some, ◌∷◌, update, leb, ltb, ◌==◌,
  if◌then◌else◌,
}
use adb_wide.Fdevent.State.{Loop, Outcome, ok, abort, ◌>>=◌}
use adb_wide.Fdevent.Select.{fdevent_init}

-- What the build and the C library decide when the table grows: the size of a pointer, in units of
-- sizeof(int); what realloc leaves in the new entries; whether it finds the memory.
pub record Memory : Type 0 where
  pub ptr_ints : ℕ
  pub garbage : ℕ → Option ℕ
  pub available : Bool

-- while (fd_table_max <= fd) fd_table_max *= 2;
unfoldable pub double_past : ℕ → ℕ → ℕ → ℕ
double_past zero fd m = m
double_past (suc fuel) fd m = let rest = double_past fuel fd (m * 2) in if leb m fd then rest else m

-- memset clears sizeof(int) bytes for each new entry. An index past the table is no entry.
unfoldable pub grown_table : Memory → (ℕ → Option ℕ) → ℕ → ℕ → ℕ → Option ℕ
grown_table m table oldmax newmax i =
    if ltb i oldmax
    then table i
    else if ltb i (oldmax + (newmax - oldmax) / m.ptr_ints)
    then none
    else if ltb i newmax
    then m.garbage i
    else none

-- Room for the descriptor `fd`, which is not below `fd_table_max`.
unfoldable pub grow : Memory → ℕ → Loop → Outcome Loop
unfolding double_past grown_table
grow m fd s =
    let oldmax = s.fd_table_max in
    let s1 = if oldmax == 0 then record (fdevent_init s) { fd_table_max = 256 } else s in
    let newmax = double_past (fd + 1) fd s1.fd_table_max in
    if ltb 32000 fd
    then abort
    else if m.available
    then ok
        (record s1 { fd_table_max = newmax; fd_table = grown_table m s1.fd_table oldmax newmax })
    else abort

unfoldable pub fdevent_register : Memory → ℕ → Loop → Outcome Loop
unfolding grow
fdevent_register m p s =
    let fd = (s.fde p).fd in
    (if leb s.fd_table_max fd then grow m fd s else ok s) >>= λ s'.
    ok (record s' { fd_table = update s'.fd_table fd (some p) })

abbrev pub holds : Option ℕ → ℕ → Bool
holds none p = false
holds (some q) p = q == p

unfoldable pub fdevent_unregister : ℕ → Loop → Outcome Loop
fdevent_unregister p s =
    let f = s.fde p in
    if leb s.fd_table_max f.fd
    then abort
    else if holds (s.fd_table f.fd) p
    then (let s' = record s { fd_table = update s.fd_table f.fd none } in
        if f.wanted.dont_close then ok s' else ok (record s' { closed = f.fd ∷ s.closed }))
    else abort
