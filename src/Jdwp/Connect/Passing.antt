-- ===== src/Jdwp/Connect/Passing.antt =====
-- adb/jdwp_service.c, jdwp_process_event: a descriptor is passed on to its process.
use adb_wide.Base.{
  Option, ℕ, zero, suc, ◌-◌, ◌<◌, ◌≡◌, refl, ◌∙◌, ap, sym, true, false, ◌∷◌, contains, arith, ◌==◌,
  if_cases, update, subst,
}
use adb_wide.Fdevent.Events.{Events, fde_write, bits_and, bits_not}
use adb_wide.Fdevent.State.{Fde, Outcome, ok, abort}
use adb_wide.Fdevent.Api.{fdevent_set, fdevent_del}
use adb_wide.Fdevent.Watch.{wanted-fdevent_set, fde-fdevent_set_ne, closed-fdevent_set}
use adb_wide.Jdwp.State.{Proc, Jdwp, put_proc, adb_close}
use adb_wide.Jdwp.Process.{Passing, shift_fds, send_fd, count_down, write_event}
use adb_wide.Jdwp.Connect.Queue.{slots, waiting_fds, slots-shift, AreWatched, watched_update}

-- The rule still holds, the first `n` descriptors of `fds` wait, and what was closed and sent is that
-- of `old`.
abbrev Counted : ℕ → (ℕ → ℕ) → ℕ → Jdwp → Outcome Jdwp → Type 0
Counted p fds n old abort = ⊥
Counted p fds n old (ok s) =
    AreWatched s
    × (waiting_fds (s.proc p) ≡ slots fds 0 n)
    × (s.loop.closed ≡ old.loop.closed)
    × (s.passed ≡ old.passed)

count_down-Counted :
    (s : Jdwp) (p : ℕ)
    → AreWatched s
    → contains p s.list ≡ true
    → 0 < (s.proc p).out_count
    → Counted p (s.proc p).out_fds ((s.proc p).out_count - 1) s (count_down true p s)
unfolding count_down fdevent_del
count_down-Counted s p v here some_fd =
    let f = s.proc p in
    let f' = record f { out_count = f.out_count - 1 } in
    let old = v.each p here in
    let wanted = bits_and (s.loop.fde f.fde).wanted (bits_not fde_write) in
    let same : waiting_fds (update s.proc p f' p) ≡ slots f.out_fds 0 (f.out_count - 1) =
      ground arith in
    if_cases (Counted p f.out_fds (f.out_count - 1) s) (f.out_count - 1 == 0) _ _
      (λ last. (
        watched_update s p f' (fdevent_set f.fde wanted s.loop) v here refl
            (record {
              room = omega (arith, old.room);
              write =
                  ap (λ (w : Events). w.write) (wanted-fdevent_set f.fde wanted s.loop)
                  ∙ ground arith;
            })
            (λ k far. ap (λ (g : Fde). g.wanted) (fde-fdevent_set_ne f.fde k wanted s.loop far)),
        same,
        closed-fdevent_set f.fde wanted s.loop,
        refl,
      ))
      λ more. (
        watched_update s p f' s.loop v here refl
            (record { room = omega (arith, old.room); write = ground (arith, old.write) })
            (λ k far. refl),
        same,
        refl,
        refl,
      )

-- The state after sendmsg has taken the descriptor.
abbrev pub handed_on : Option ℕ → ℕ → Jdwp → Jdwp
handed_on socket fd s = adb_close fd (record s { passed = (socket, fd) ∷ s.passed })

pub send_fd-delivered :
    (n : ℕ) (socket : Option ℕ) (fd : ℕ) (s : Jdwp)
    → send_fd n true socket fd s ≡ (true, handed_on socket fd s)
unfolding send_fd
send_fd-delivered zero socket fd s = refl
send_fd-delivered (suc n) socket fd s = send_fd-delivered n socket fd s

-- The system lets a descriptor through, after `n` interruptions.
abbrev pub going_well : ℕ → Passing
going_well n = record {
  got_flags = true;
  blocking = true;
  interruptions = n;
  delivered = true;
  restored = true;
}

-- The first descriptor that waits was passed on over the socket of the process, and no other: it is
-- closed here, and the others still wait.
abbrev pub Passed : Jdwp → ℕ → Outcome Jdwp → Type 0
Passed s p abort = ⊥
Passed s p (ok s') =
    AreWatched s'
    × (waiting_fds (s.proc p) ≡ (s.proc p).out_fds 0 ∷ waiting_fds (s'.proc p))
    × (s'.loop.closed ≡ (s.proc p).out_fds 0 ∷ s.loop.closed)
    × (s'.passed ≡ ((s.proc p).socket, (s.proc p).out_fds 0) ∷ s.passed)

Counted-Passed :
    (s : Jdwp) (p : ℕ) (out : Outcome Jdwp)
    → 0 < (s.proc p).out_count
    → Counted p
        (shift_fds (s.proc p).out_fds (s.proc p).out_count)
        ((s.proc p).out_count - 1)
        (handed_on (s.proc p).socket ((s.proc p).out_fds 0) s)
        out
    → Passed s p out
Counted-Passed s p abort h c = c
Counted-Passed s p (ok s') h (v, waits, closed, sent) =
    let f = s.proc p in
    let count : f.out_count ≡ suc (f.out_count - 1) = omega arith in
    let front : waiting_fds f ≡ f.out_fds 0 ∷ slots f.out_fds 1 (f.out_count - 1) =
      ap (slots f.out_fds 0) count in
    (
      v,
      front
          ∙ ap (λ l. f.out_fds 0 ∷ l)
              (sym (waits ∙ slots-shift f.out_fds f.out_count 0 (f.out_count - 1) (omega arith))),
      closed,
      sent,
    )

-- Where descriptors wait for a process and the system lets one through, however often it
-- interrupts, jdwp_process_event under FDE_WRITE sends the first over the socket of the process, once and no
-- other, and closes it; the others wait in
-- their order, and the loop goes on watching for writing exactly if there are any.
pub write_event-Passed :
    (n : ℕ) (s : Jdwp) (p : ℕ)
    → AreWatched s
    → contains p s.list ≡ true
    → 0 < (s.proc p).out_count
    → Passed s p (write_event (going_well n) p s)
unfolding write_event
write_event-Passed n s p v here some_fd =
    let f = s.proc p in
    let f1 = record f { out_fds = shift_fds f.out_fds f.out_count } in
    let s0 = handed_on f.socket (f.out_fds 0) s in
    let s1 = put_proc p f1 s0 in
    let old = v.each p here in
    let v0 : AreWatched s0 = record {
      each = λ k h. record { room = (v.each k h).room; write = (v.each k h).write };
      own = v.own;
    } in
    let w : AreWatched s1 =
      watched_update s0 p f1 s0.loop v0 here refl (record { room = old.room; write = old.write })
        (λ k far. refl) in
    let itself : update s.proc p f1 p ≡ f1 = ground arith in
    let nonempty : (f.out_count == 0) ≡ false = ground arith in
    let counted =
      subst (λ (g : Proc). Counted p g.out_fds (g.out_count - 1) s0 (count_down true p s1)) itself
        (count_down-Counted s1 p w here
          (subst (λ (g : Proc). 0 < g.out_count) (sym itself) some_fd)) in
    rw (nonempty, send_fd-delivered n f.socket (f.out_fds 0) s)
      (Counted-Passed s p (count_down true p s1) some_fd counted)
