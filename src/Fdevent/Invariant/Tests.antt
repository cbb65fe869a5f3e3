-- ===== src/Fdevent/Invariant/Tests.antt =====
-- adb/fdevent.c: runs of the event loop at concrete states, and instances of the theorems.
use adb_wide.Base.{◌≡◌, refl, true, false, none, some, [], ◌∷◌, arith, update}
use adb_wide.Base.Int.{pos}
use adb_wide.Fdevent.Events.{fde_read, fde_write}
use adb_wide.Fdevent.Plist.{Links, list_pending}
use adb_wide.Fdevent.State.{client, Fde, Loop, ok}
use adb_wide.Fdevent.Select.{fd_zero, ready, fdevent_process}
use adb_wide.Fdevent.Table.{Memory}
use adb_wide.Fdevent.Api.{fdevent_install, fdevent_remove, fdevent_set}
use adb_wide.Fdevent.Dispatch.{Client, drain}
use adb_wide.Fdevent.Invariant.{
  Inv, fresh_fde, queue_after_set, fdevent_set-Inv, fdevent_set_watches, fdevent_remove-Inv,
  fdevent_process-Inv, fdevent_install-Inv, Drained, drain-Drained,
}

-- Before the first fdevent.
abbrev pub blank : Fde
blank = record (fresh_fde 0 (client 0) 0) { active = false }

abbrev pub empty_ring : Links
empty_ring = record { next = λ p. list_pending; prev = λ p. list_pending }

abbrev empty_loop : Loop
empty_loop = record {
  fde = λ p. blank;
  links = empty_ring;
  fd_table = λ i. none;
  fd_table_max = 0;
  select_n = 0;
  read_fds = fd_zero;
  write_fds = fd_zero;
  error_fds = fd_zero;
  closed = [];
}

-- The fdevent at address 5 of descriptor 3 wants to read, and waits with a read and a write event.
abbrev reader : Fde
reader = record (fresh_fde 3 (client 1) 0) {
  wanted = fde_read;
  pending = true;
  events = record fde_read { write = true };
}

abbrev one_loop : Loop
one_loop = record empty_loop {
  fde = update (λ p. blank) 5 reader;
  links = record { next = update (λ p. 5) 5 1; prev = update (λ p. 5) 5 1 };
  fd_table = update (λ i. none) 3 (some 5);
  fd_table_max = 256;
  select_n = 4;
  read_fds = update fd_zero 3 true;
}

abbrev roomy : Memory
roomy = record { ptr_ints = 1; garbage = λ i. none; available = true }

abbrev quiet : Client
quiet k fd events arg s = []

empty-Inv : Inv empty_loop []
empty-Inv = record {
  ring = record { chain = (refl, refl); apart = refl; distinct = tt };
  waits = λ p. refl;
  bound = omega arith;
  entries = λ i. tt;
  owned = λ p a. cc;
  reads = λ i. refl;
  writes = λ i. refl;
  errors = λ i. refl;
}

one-Inv : Inv one_loop (5 ∷ [])
one-Inv = record {
  ring = record { chain = (refl, refl, (refl, refl)); apart = refl; distinct = (refl, tt) };
  waits = λ p. ground arith;
  bound = omega arith;
  entries = λ i. ground arith;
  owned = λ p a. ground arith;
  reads = λ i. ground arith;
  writes = λ i. ground arith;
  errors = λ i. ground arith;
}

fdevent_set-Inv_example :
    Inv (fdevent_set 5 fde_write one_loop) (queue_after_set 5 fde_write one_loop (5 ∷ []))
fdevent_set-Inv_example = fdevent_set-Inv one_loop (5 ∷ []) 5 fde_write one-Inv

fdevent_set_watches_example :
    let s = fdevent_set 5 fde_write one_loop in
    ((s.fde 5).wanted ≡ fde_write)
    × (s.read_fds 3 ≡ false)
    × (s.write_fds 3 ≡ true)
    × (s.error_fds 3 ≡ false)
fdevent_set_watches_example = fdevent_set_watches one_loop (5 ∷ []) 5 fde_write one-Inv refl

fdevent_remove-Inv_example :
    (s : Loop) × (fdevent_remove 5 one_loop ≡ ok s)
    × Inv s []
    × ((s.fde 5).active ≡ false)
    × (s.closed ≡ 3 ∷ [])
fdevent_remove-Inv_example = fdevent_remove-Inv one_loop (5 ∷ []) 5 one-Inv

fdevent_process-Inv_example :
    (s : Loop) × (fdevent_process
        (λ i. false)
        (ready 1 (update fd_zero 3 true) fd_zero fd_zero)
        one_loop
      ≡ ok s)
    × Inv s (5 ∷ [])
fdevent_process-Inv_example =
    fdevent_process-Inv one_loop (5 ∷ []) one-Inv (λ i. false)
      (ready 1 (update fd_zero 3 true) fd_zero fd_zero) (refl, λ i h. h, λ i h. cc, λ i h. cc)

fdevent_install-Inv_example :
    (s : Loop) × (fdevent_install roomy 5 (pos 300) (client 1) 0 empty_loop ≡ ok s)
    × Inv s []
    × (s.fd_table 300 ≡ some 5)
    × (s.fde 5 ≡ fresh_fde 300 (client 1) 0)
fdevent_install-Inv_example =
    fdevent_install-Inv roomy empty_loop [] 5 300 (client 1) 0 refl refl (omega arith)
      (record { no_entry = refl; not_active = refl; not_waiting = refl; a_node = omega arith })
      empty-Inv

drain-Drained_example : Drained (drain roomy quiet 2 [] one_loop)
drain-Drained_example =
    drain-Drained roomy quiet (λ k fd events arg s q v. tt) 2 [] one_loop (5 ∷ []) one-Inv
      (omega arith)
