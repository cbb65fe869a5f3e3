-- ===== src/Fdevent/Invariant/Drain.antt =====
-- adb/fdevent.c: the callbacks keep the invariant, and the inner loop of fdevent_loop ends.
use mathlib.Core.Path.{fun_ext}
use adb_wide.Base.{
  ℕ, zero, suc, ◌≤◌, ◌<◌, ◌≡◌, refl, true, false, not, Option, none, some, List, [], ◌∷◌, length,
  arith, ◌==◌, Bool-cases, Option-cases, inl, inr, subst, sym, ap, if_cases, ==-refl, update_self,
  ◌∙◌, leb,
}
use adb_wide.Base.Int.{pos, negsuc}
use adb_wide.Fdevent.Events.{Events, no_events, bits_or, fde_read}
use adb_wide.Fdevent.Plist.{plist_remove}
use adb_wide.Fdevent.Plist.Ring.{plist_dequeue-nil, plist_dequeue-cons}
use adb_wide.Fdevent.State.{Func, subproc, client, Fde, Loop, ok, abort, put_fde}
use adb_wide.Fdevent.Table.{Memory}
use adb_wide.Fdevent.Dispatch.{
  Client, Note, unreadable, exited, Called, subproc_ended, subproc_read, fdevent_subproc_event_func,
  call_func, call_fdfunc_with, fdevent_call_fdfunc, drain,
}
use adb_wide.Fdevent.Invariant.Defs.{Inv}
use adb_wide.Fdevent.Invariant.Alike.{IsAlike, Inv-put_fde}
use adb_wide.Fdevent.Invariant.Set.{dequeue-Inv}
use adb_wide.Fdevent.Invariant.Ops.{AllAllowed, run_ops-Returned, fdevent_add-Inv}

-- The call ended the process, or it returned with the invariant kept and no more fdevents waiting.
abbrev pub Settled : Called → List ℕ → Type 0
Settled abort q = Unit {0}
Settled (ok (notes, s)) q = (q' : List ℕ) × Inv s q' × (length q' ≤ length q)

-- The clients' callbacks make only calls that are allowed when they make them.
abbrev pub IsWellBehaved : Memory → Client → Type 0
IsWellBehaved m c =
    (k fd : ℕ) (events : Events) (arg : ℕ) (s : Loop) (q : List ℕ)
    → Inv s q
    → AllAllowed m (c k fd events arg s) s q

-- An fdevent at the time of its callback.
abbrev called : Fde → Fde
called f = record f { events = no_events; pending = false }

put_fde-put_fde : (p : ℕ) (f g : Fde) (s : Loop) → put_fde p g (put_fde p f s) ≡ put_fde p g s
put_fde-put_fde p f g s = ap (λ t. record s { fde = t }) (fun_ext λ k. ground arith)

-- The callback sees the same loop if the fdevent was changed just before.
again :
    (p : ℕ) (g : Fde) (s : Loop)
    → put_fde p (called ((put_fde p g s).fde p)) (put_fde p g s) ≡ put_fde p (called g) s
again p g s =
    ap (λ h. put_fde p (called h) (put_fde p g s)) (update_self s.fde p g)
    ∙ put_fde-put_fde p g (called g) s

-- What the reading part of the shell-exit handler has to do.
abbrev Reads : (Loop → Called) → Type 0
Reads read = (s : Loop) (q : List ℕ) → Inv s q → Settled (read s) q

-- What a call of a pending fdevent's function has to do: the invariant holds but for its flag.
abbrev Calls : (ℕ → Loop → Called) → Type 0
Calls call =
    (p : ℕ) (s : Loop) (q : List ℕ)
    → (s.fde p).pending ≡ true
    → Inv (put_fde p (called (s.fde p)) s) q
    → Settled (call p s) q

Settled-mono :
    (out : Called) (q q' : List ℕ) → length q' ≤ length q → Settled out q' → Settled out q
Settled-mono abort q q' h t = tt
Settled-mono (ok (notes, s)) q q' h (q2, v, l) = (q2, v, omega arith)

event_func-Settled :
    (read : Loop → Called) (notes : List Note) (fd : ℕ) (events : Events) (s : Loop) (q : List ℕ)
    → Reads read
    → Inv s q
    → Settled (fdevent_subproc_event_func read notes fd events s) q
unfolding fdevent_subproc_event_func
event_func-Settled read notes fd events s q reads v = elim (Bool-cases (leb s.fd_table_max fd)) [
  | inl out ↦ rw out tt
  | inr inside ↦ rw inside (elim (Option-cases (s.fd_table fd)) [
    | inl empty ↦ rw empty tt
    | inr (p, entry) ↦
        let (q', v', l) = fdevent_add-Inv p fde_read s q v in
        rw entry (elim (Bool-cases events.read) [
          | inl hot ↦ rw hot (Settled-mono _ q q' l (reads _ q' v'))
          | inr cold ↦ rw cold (q', v', l)
        ])
  ])
]

module _ (m : Memory) (c : Client) (good : IsWellBehaved m c) where
  call_func-Settled :
      (read : Loop → Called) (notes : List Note) (func : Func) (fd : ℕ) (events : Events) (arg : ℕ)
      (s : Loop) (q : List ℕ)
      → Reads read
      → Inv s q
      → Settled (call_func m c read notes func fd events arg s) q
  unfolding call_func
  call_func-Settled read notes subproc fd events arg s q reads v =
      event_func-Settled read notes fd events s q reads v
  call_func-Settled read notes (client k) fd events arg s q reads v =
      let (s', q', e, v', l) =
        run_ops-Returned m (c k fd events arg s) s q v (good k fd events arg s q v) in
      rw e (q', v', l)

  call_fdfunc_with-Calls :
      (read : Loop → Called) (notes : List Note)
      → Reads read
      → Calls (call_fdfunc_with m c read notes)
  unfolding call_fdfunc_with
  call_fdfunc_with-Calls read notes reads p s q waits v = rw waits (
      call_func-Settled read notes (s.fde p).func (s.fde p).fd (s.fde p).events (s.fde p).arg _ q
        reads v)

-- The rest of the handler for a subprocess that has ended.
subproc_ended-Settled :
    (call : ℕ → Loop → Called) (p fd rcount : ℕ) (rest : List Note) (s : Loop) (q : List ℕ)
    → Calls call
    → Inv s q
    → Settled (subproc_ended call p fd rcount rest s) q
unfolding subproc_ended
subproc_ended-Settled call p fd rcount rest s q calls v =
    let f = s.fde p in
    let g = record f { force_eof = true; events = bits_or f.events fde_read } in
    let waiting = put_fde p (record g { pending = true }) s in
    let P = λ (out : Called). Settled out q in
    let kept : (h : Fde)
        → IsAlike f h
        → h.pending ≡ f.pending
        → Settled (ok (rest, put_fde p h s)) q =
      λ h same e. (q, Inv-put_fde s p h same q e v, omega arith) in
    if_cases P (not (f.fd == fd)) _ _ (λ _. (q, v, omega arith))
      λ _.
        if_cases P (not (rcount == 0)) _ _
          (λ _. kept (record f { force_eof = true }) (ground arith) refl)
          λ _.
            if_cases P f.pending _ _ (λ _. kept g (ground arith) refl)
              λ new. calls p waiting q (ground arith) (
                subst (λ t. Inv t q) (sym (again p (record g { pending = true }) s))
                  (Inv-put_fde s p (called g) (ground arith) q (sym new) v))

subproc_read-Reads :
    (call : ℕ → Loop → Called) (note : Note) (rest : List Note)
    → Calls call
    → Reads (subproc_read call note rest)
unfolding subproc_read
subproc_read-Reads call unreadable rest calls s q v = tt
subproc_read-Reads call (exited (negsuc k) rcount) rest calls s q v = (q, v, omega arith)
subproc_read-Reads call (exited (pos fd) rcount) rest calls s q v =
    if_cases (λ out. Settled out q) (leb s.fd_table_max fd) _ _ (λ _. (q, v, omega arith))
      λ _. elim (Option-cases (s.fd_table fd)) [
        | inl empty ↦ rw empty (q, v, omega arith)
        | inr (p, entry) ↦ rw entry (subproc_ended-Settled call p fd rcount rest s q calls v)
      ]

-- A drained ring: the process was ended by FATAL, or nothing waits any more.
abbrev pub Drained : Option Called → Type 0
Drained none = ⊥
Drained (some abort) = Unit {0}
Drained (some (ok (notes, s))) = Inv s []

Drained-cases :
    (out : Called) (q : List ℕ) (rest : List Note → Loop → Option Called)
    → Settled out q
    → ((notes : List Note) (s : Loop) (q' : List ℕ)
        → Inv s q'
        → length q' ≤ length q
        → Drained (rest notes s))
    → Drained (elim out [ abort ↦ some abort | ok (notes, s) ↦ rest notes s ])
Drained-cases abort q rest t h = tt
Drained-cases (ok (notes, s)) q rest (q', v, l) h = h notes s q' v l

module _ (m : Memory) (c : Client) (good : IsWellBehaved m c) where
  -- fdevent_call_fdfunc of a pending fdevent keeps the invariant, whatever the function calls.
  fdevent_call_fdfunc-Calls : (notes : List Note) → Calls (fdevent_call_fdfunc m c notes)
  unfolding fdevent_call_fdfunc
  fdevent_call_fdfunc-Calls [] = call_fdfunc_with-Calls m c good (λ _. abort) [] (λ s q v. tt)
  fdevent_call_fdfunc-Calls (note ∷ rest) =
      call_fdfunc_with-Calls m c good _ (note ∷ rest)
        (subproc_read-Reads _ note rest (fdevent_call_fdfunc-Calls rest))

  -- The first pending fdevent, taken off the ring and ready to be called.
  take_first :
      (s : Loop) (p : ℕ) (q : List ℕ)
      → Inv s (p ∷ q)
      → Inv (put_fde p (called (s.fde p)) (record s { links = plist_remove p s.links })) q
  take_first s p q v = rw (==-refl p) at (
      dequeue-Inv s (p ∷ q) p (called (s.fde p)) v (ground arith) refl (v.waits p ∙ rw (==-refl p)))

  -- Where the invariant holds and the clients' callbacks make only calls that are allowed when they
  -- make them, the inner loop of fdevent_loop ends: with more fuel than fdevents wait, it calls them
  -- until none waits and the invariant still holds, unless FATAL ends the process first.
  pub drain-Drained :
      (fuel : ℕ) (notes : List Note) (s : Loop) (q : List ℕ)
      → Inv s q
      → length q < fuel
      → Drained (drain m c fuel notes s)
  unfolding drain
  drain-Drained zero notes s q v h = absurd (omega arith)
  drain-Drained (suc fuel) notes s [] v h = rw (plist_dequeue-nil s.links v.ring, Drained) v
  drain-Drained (suc fuel) notes s (p ∷ q) v h =
      let taken = record s { links = plist_remove p s.links } in
      let waits : (s.fde p).pending ≡ true = v.waits p ∙ rw (==-refl p) in
      rw
        (
          ap (λ r. r.0) (plist_dequeue-cons s.links p q v.ring),
          ap (λ r. r.1) (plist_dequeue-cons s.links p q v.ring),
          Drained,
        )
        (Drained-cases (fdevent_call_fdfunc m c notes p taken) q (drain m c fuel)
          (fdevent_call_fdfunc-Calls notes p taken q waits (take_first s p q v))
          λ notes' s' q' v' l. drain-Drained fuel notes' s' q' v' (omega arith))
