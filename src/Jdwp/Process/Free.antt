-- ===== src/Jdwp/Process/Free.antt =====
-- adb/jdwp_service.c, jdwp_process_free: what is closed with a process.
use adb_wide.Base.{
  ◌≢◌, ℕ, zero, suc, ◌+◌, ◌≡◌, refl, ◌∙◌, ap, sym, subst, Bool, true, false, Option, none, some,
  update_self, List, [], ◌∷◌, erase, arith, ◌==◌, if◌then◌else◌,
}
use adb_wide.Base.Int.{negsuc}
use adb_wide.Fdevent.State.{Loop, Outcome, ok, abort, ◌>>=◌}
use adb_wide.Fdevent.Api.{fdevent_destroy}
use adb_wide.Fdevent.Invariant.{IsEntry, Inv, fdevent_remove-Inv}
use adb_wide.Jdwp.State.{Proc, Jdwp, put_proc, jdwp_process_list_updated}
use adb_wide.Jdwp.Process.{
  Passing, close_out, close_socket, shift_fds, send_fd, count_down, write_event, jdwp_process_free,
  free_rest,
}
use adb_wide.Jdwp.Connect.Queue.{slots, waiting_fds}
use adb_wide.Jdwp.Connect.Passing.{going_well, handed_on, send_fd-delivered}

-- The elements put on a pile, one after another.
abbrev pub onto : List ℕ → List ℕ → List ℕ
onto [] pile = pile
onto (x ∷ xs) pile = onto xs (x ∷ pile)

close_out-onto :
    (fds : ℕ → ℕ) (n k : ℕ) (closed : List ℕ)
    → close_out fds n k closed ≡ onto (slots fds n k) closed
close_out-onto fds n zero closed = refl
close_out-onto fds n (suc k) closed = close_out-onto fds (n + 1) k (fds n ∷ closed)

-- A process whose socket the fdevent leaves open.
pub record IsOpen (s : Jdwp) (p fd : ℕ) : Type 0 where
  pub socket : (s.proc p).socket ≡ some fd
  pub created : (s.loop.fde (s.proc p).fde).created ≡ true
  pub kept_open : (s.loop.fde (s.proc p).fde).wanted.dont_close ≡ true

-- The process is out of the list, its fdevent is not active and neither on the queue nor in fd_table, and its
-- socket and the descriptors
-- that wait for it are closed, in this order.
abbrev pub Freed : Jdwp → ℕ → ℕ → List ℕ → Outcome Jdwp → Type 0
Freed s p fd q abort = ⊥
Freed s p fd q (ok s') =
    Inv s'.loop (erase (s.proc p).fde q)
    × ((s'.loop.fde (s.proc p).fde).active ≡ false)
    × ((fd : ℕ) → s'.loop.fd_table fd ≢ some (s.proc p).fde)
    × (s'.list ≡ erase p s.list)
    × (s'.loop.closed ≡ onto (waiting_fds (s.proc p)) (fd ∷ s.loop.closed))

Inv-closed : (l : Loop) (q closed : List ℕ) → Inv l q → Inv (record l { closed = closed }) q
Inv-closed l q closed v = record {
  ring = v.ring;
  waits = v.waits;
  bound = v.bound;
  entries = v.entries;
  owned = v.owned;
  reads = v.reads;
  writes = v.writes;
  errors = v.errors;
}

-- An fdevent that is not active is nowhere in the table.
no_entry :
    (l : Loop) (q : List ℕ) (k : ℕ)
    → Inv l q
    → (l.fde k).active ≡ false
    → (fd : ℕ) → l.fd_table fd ≢ some k
no_entry l q k v inactive fd e =
    let entry = subst (IsEntry l fd) e (v.entries fd) in cc (sym entry.1 ∙ inactive)

-- Where the fdevent of a process was made by fdevent_create and leaves its descriptor open, as
-- jdwp_process_alloc makes it, jdwp_process_free does not end adbd: the process is out of the list and
-- its fdevent, no longer active, out of the loop's queue and out of fd_table, the loop's invariant is kept, and its socket and then each of the
-- descriptors that wait for it are closed, once and nothing else.
pub jdwp_process_free-Freed :
    (s : Jdwp) (p fd : ℕ) (q : List ℕ)
    → Inv s.loop q
    → IsOpen s p fd
    → Freed s p fd q (jdwp_process_free p s)
unfolding jdwp_process_free fdevent_destroy jdwp_process_list_updated
jdwp_process_free-Freed s p fd q v open_one =
    let f = s.proc p in
    let s0 = record s { list = erase p s.list } in
    let s1 = close_socket (some fd) s0 in
    let l1 = record s.loop { closed = fd ∷ s.loop.closed } in
    let (l2, e, v2, inactive, shut) =
      fdevent_remove-Inv l1 q f.fde (Inv-closed s.loop q (fd ∷ s.loop.closed) v) in
    let destroyed : fdevent_destroy (some f.fde) l1 ≡ ok l2 = rw open_one.created e in
    let once : l2.closed ≡ fd ∷ s.loop.closed = shut ∙ ground (arith, open_one.kept_open) in
    let f' = record f { socket = none; pid = negsuc 0 } in
    let pile : (free_rest p l2 s1).loop.closed ≡ onto (waiting_fds f) (fd ∷ s.loop.closed) =
      ap (λ (g : Proc). close_out g.out_fds 0 g.out_count l2.closed) (update_self s.proc p f')
      ∙ close_out-onto f.out_fds 0 f.out_count l2.closed
      ∙ ap (onto (waiting_fds f)) once in
    subst
      (λ (socket : Option ℕ). Freed s p fd q (
        fdevent_destroy (some f.fde) (close_socket socket s0).loop >>= λ loop.
        ok (free_rest p loop (close_socket socket s0))))
      (sym open_one.socket)
      (subst (λ (out : Outcome Loop). Freed s p fd q (out >>= λ loop. ok (free_rest p loop s1)))
        (sym destroyed)
        (
          Inv-closed l2 (erase f.fde q) (free_rest p l2 s1).loop.closed v2,
          inactive,
          no_entry l2 (erase f.fde q) f.fde v2 inactive,
          refl,
          pile,
        ))

Freed-ok :
    (s : Jdwp) (p fd : ℕ) (q : List ℕ) (out : Outcome Jdwp)
    → Freed s p fd q out
    → (s' : Jdwp) × (out ≡ ok s')
      × (s'.loop.closed ≡ onto (waiting_fds (s.proc p)) (fd ∷ s.loop.closed))
Freed-ok s p fd q abort h = absurd h
Freed-ok s p fd q (ok s') (v, inactive, no_entry, list, closed) = (s', refl, closed)

-- The system lets a descriptor through, but the flags of the socket cannot be restored.
abbrev pub not_restored : ℕ → Passing
not_restored n = record (going_well n) { restored = false }

write_event-not_restored :
    (n : ℕ) (s : Jdwp) (p : ℕ)
    → ((s.proc p).out_count == 0) ≡ false
    → let f = s.proc p in
      let f1 = record f { out_fds = shift_fds f.out_fds f.out_count } in
      write_event (not_restored n) p s
      ≡ jdwp_process_free p (put_proc p f1 (handed_on f.socket (f.out_fds 0) s))
unfolding write_event count_down
write_event-not_restored n s p nonempty =
    let f = s.proc p in
    let f1 = record f { out_fds = shift_fds f.out_fds f.out_count } in
    let sent : Bool × Jdwp → Outcome Jdwp =
      λ r. if r.0 then count_down false p (put_proc p f1 r.1) else jdwp_process_free p s in
    let tried = send_fd n true f.socket (f.out_fds 0) s in
    ap (λ (b : Bool). if b then ok s else sent tried) nonempty
    ∙ ap sent (send_fd-delivered n f.socket (f.out_fds 0) s)

-- A descriptor that is the only one to wait, and is passed on before the flags of the socket cannot
-- be restored, is closed when it was sent and once more with the process.
pub write_event_closes_twice :
    (n : ℕ) (s : Jdwp) (p fd : ℕ) (q : List ℕ)
    → Inv s.loop q
    → IsOpen s p fd
    → (s.proc p).out_count ≡ 1
    → let fd0 = (s.proc p).out_fds 0 in
      (s' : Jdwp) × (write_event (not_restored n) p s ≡ ok s')
      × (s'.loop.closed ≡ fd0 ∷ fd ∷ fd0 ∷ s.loop.closed)
unfolding write_event count_down
write_event_closes_twice n s p fd q v open_one one =
    let f = s.proc p in
    let fd0 = f.out_fds 0 in
    let f1 = record f { out_fds = shift_fds f.out_fds f.out_count } in
    let s1 = put_proc p f1 (handed_on f.socket fd0 s) in
    let itself : s1.proc p ≡ f1 = update_self s.proc p f1 in
    let fde : (s1.proc p).fde ≡ f.fde = ap (λ (g : Proc). g.fde) itself in
    let open_still : IsOpen s1 p fd = record {
      socket = ap (λ (g : Proc). g.socket) itself ∙ open_one.socket;
      created = rw fde open_one.created;
      kept_open = rw fde open_one.kept_open;
    } in
    let (s', e, closed) = Freed-ok s1 p fd q (jdwp_process_free p s1) (
      jdwp_process_free-Freed s1 p fd q (Inv-closed s.loop q (fd0 ∷ s.loop.closed) v) open_still) in
    let left : waiting_fds (s1.proc p) ≡ fd0 ∷ [] =
      ap waiting_fds itself ∙ ap (λ c. slots (shift_fds f.out_fds c) 0 c) one in
    (
      s',
      write_event-not_restored n s p (ground arith) ∙ e,
      closed ∙ ap (λ l. onto l (fd ∷ fd0 ∷ s.loop.closed)) left,
    )
