-- ===== src/Fdevent/Dispatch.antt =====
-- adb/fdevent.c: the callbacks of the pending fdevents, and the handler of the shell-exit socket.
use adb_wide.Base.{
  ℕ, zero, suc, true, false, not, Option, none, some, List, [], ◌∷◌, leb, ◌==◌, if◌then◌else◌,
}
use adb_wide.Base.Int.{ℤ, pos, negsuc}
use adb_wide.Fdevent.Events.{Events, no_events, fde_read, bits_or}
use adb_wide.Fdevent.Plist.{plist_dequeue}
use adb_wide.Fdevent.State.{Func, subproc, client, Loop, Outcome, ok, abort, ◌>>=◌, put_fde}
use adb_wide.Fdevent.Table.{Memory}
use adb_wide.Fdevent.Api.{
  fdevent_install, fdevent_create, fdevent_remove, fdevent_destroy, fdevent_set, fdevent_add,
  fdevent_del,
}

-- The calls that a client's callback can make.
pub data Op : Type 0 where
  install : ℕ → ℤ → Func → ℕ → Op
  create : Option ℕ → ℤ → Func → ℕ → Op
  destroy : Option ℕ → Op
  remove : ℕ → Op
  set : ℕ → Events → Op
  add : ℕ → Events → Op
  del : ℕ → Events → Op

unfoldable pub apply_op : Memory → Op → Loop → Outcome Loop
apply_op m (install p fd func arg) s = fdevent_install m p fd func arg s
apply_op m (create address fd func arg) s =
    fdevent_create m address fd func arg s >>= λ result. ok result.1
apply_op m (destroy p) s = fdevent_destroy p s
apply_op m (remove p) s = fdevent_remove p s
apply_op m (set p events) s = ok (fdevent_set p events s)
apply_op m (add p events) s = ok (fdevent_add p events s)
apply_op m (del p events) s = ok (fdevent_del p events s)

unfoldable pub run_ops : Memory → List Op → Loop → Outcome Loop
run_ops m [] s = ok s
run_ops m (op ∷ ops) s = apply_op m op s >>= λ s'. run_ops m ops s'

-- The functions of the clients: what they call, by function, descriptor, events, argument and state.
abbrev pub Client : Type 0
Client = ℕ → ℕ → Events → ℕ → Loop → List Op

-- What the shell-exit socket has to read: readx fails, or gives a descriptor, of which ioctl(FIONREAD)
-- then gives the number of bytes left. The end of the list is the end of the stream.
pub data Note : Type 0 where
  unreadable : Note
  exited : ℤ → ℕ → Note

abbrev pub Called : Type 0
Called = Outcome (List Note × Loop)

-- The subprocess behind a registered descriptor `fd` has ended, and `rcount` bytes are left.
unfoldable pub subproc_ended : (ℕ → Loop → Called) → ℕ → ℕ → ℕ → List Note → Loop → Called
subproc_ended call p fd rcount rest s =
    let f = s.fde p in
    let s1 = put_fde p (record f { force_eof = true }) s in
    let g = record f { force_eof = true; events = bits_or f.events fde_read } in
    if not (f.fd == fd)
    then ok (rest, s)
    else if not (rcount == 0)
    then ok (rest, s1)
    else if f.pending
    then ok (rest, put_fde p g s)
    else call p (put_fde p (record g { pending = true }) s)

unfoldable pub subproc_read : (ℕ → Loop → Called) → Note → List Note → Loop → Called
unfolding subproc_ended
subproc_read call unreadable rest s = abort
subproc_read call (exited (negsuc k) rcount) rest s = ok (rest, s)
subproc_read call (exited (pos fd) rcount) rest s =
    if leb s.fd_table_max fd then ok (rest, s) else (elim (s.fd_table fd) [
      | none ↦ ok (rest, s)
      | some p ↦ subproc_ended call p fd rcount rest s
    ])

-- `read` is the rest of the handler, where the socket is readable. A null entry is dereferenced.
unfoldable pub fdevent_subproc_event_func : (Loop → Called) → List Note → ℕ → Events → Loop → Called
fdevent_subproc_event_func read notes fd events s =
    if leb s.fd_table_max fd then abort else (elim (s.fd_table fd) [
      | none ↦ abort
      | some p ↦
          (let s' = fdevent_add p fde_read s in if events.read then read s' else ok (notes, s'))
    ])

unfoldable pub call_func :
    Memory → Client → (Loop → Called) → List Note → Func → ℕ → Events → ℕ → Loop → Called
unfolding fdevent_subproc_event_func
call_func m c read notes subproc fd events arg s = fdevent_subproc_event_func read notes fd events s
call_func m c read notes (client k) fd events arg s =
    run_ops m (c k fd events arg s) s >>= λ s'. ok (notes, s')

-- fdevent_call_fdfunc, with the rest of the handler of the shell-exit socket as an argument.
unfoldable pub call_fdfunc_with : Memory → Client → (Loop → Called) → List Note → ℕ → Loop → Called
unfolding call_func
call_fdfunc_with m c read notes p s =
    let f = s.fde p in
    if f.pending
    then call_func m c read notes f.func f.fd f.events f.arg
        (put_fde p (record f { events = no_events; pending = false }) s)
    else ok (notes, put_fde p (record f { events = no_events }) s)

-- Each call of the handler reads one note, so the recursion through it is on the notes left.
unfoldable pub fdevent_call_fdfunc : Memory → Client → List Note → ℕ → Loop → Called
unfolding call_fdfunc_with subproc_read
fdevent_call_fdfunc m c [] p s = call_fdfunc_with m c (λ _. abort) [] p s
fdevent_call_fdfunc m c (note ∷ rest) p s =
    call_fdfunc_with m c (subproc_read (fdevent_call_fdfunc m c rest) note rest) (note ∷ rest) p s

-- while((fde = fdevent_plist_dequeue())) fdevent_call_fdfunc(fde); `none` means that the fuel ran out.
unfoldable pub drain : Memory → Client → ℕ → List Note → Loop → Option Called
unfolding fdevent_call_fdfunc
drain m c zero notes s = none
drain m c (suc fuel) notes s =
    let (node, links) = plist_dequeue s.links in
    elim node [
      | none ↦ some (ok (notes, s))
      | some p ↦ elim (fdevent_call_fdfunc m c notes p (record s { links = links })) [
        | abort ↦ some abort
        | ok (notes', s') ↦ drain m c fuel notes' s'
      ]
    ]
