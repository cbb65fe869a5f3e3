-- ===== src/Fdevent/Invariant/Ops.antt =====
-- adb/fdevent.c: the calls of the clients keep the invariant and queue nothing.
use adb_wide.Base.{
  ℕ, ◌≤◌, ◌≡◌, refl, true, none, some, List, [], ◌∷◌, length, erase, arith, length-erase-le,
}
use adb_wide.Base.Int.{pos, negsuc}
use adb_wide.Fdevent.Events.{Events, bits_or}
use adb_wide.Fdevent.State.{Loop, Outcome, ok, put_fde}
use adb_wide.Fdevent.Table.{Memory}
use adb_wide.Fdevent.Api.{
  fdevent_create, fdevent_remove, fdevent_destroy, fdevent_set, fdevent_add, fdevent_del,
}
use adb_wide.Fdevent.Dispatch.{
  Op, install, create, destroy, remove, set, add, del, apply_op, run_ops,
}
use adb_wide.Fdevent.Invariant.Defs.{Inv}
use adb_wide.Fdevent.Invariant.Alike.{Inv-put_fde}
use adb_wide.Fdevent.Invariant.Set.{fdevent_set-Inv, queue_after_set}
use adb_wide.Fdevent.Invariant.Remove.{fdevent_remove-ok, removed, removed-Inv}
use adb_wide.Fdevent.Invariant.Install.{IsFree, fdevent_install-Inv}

-- When a client may make a call: a new fdevent is unused, and so is its descriptor; memory is there.
abbrev pub Allowed : Memory → Op → Loop → List ℕ → Type 0
Allowed m (install p (pos fd) func arg) s q =
    (m.ptr_ints ≡ 1) × (m.available ≡ true) × (fd ≤ 32000) × IsFree s q p fd
Allowed m (install p (negsuc k) func arg) s q = ⊥
Allowed m (create none fd func arg) s q = Unit {0}
Allowed m (create (some p) (pos fd) func arg) s q =
    (m.ptr_ints ≡ 1) × (m.available ≡ true) × (fd ≤ 32000) × IsFree s q p fd
Allowed m (create (some p) (negsuc k) func arg) s q = ⊥
Allowed m (destroy none) s q = Unit {0}
Allowed m (destroy (some p)) s q = (s.fde p).created ≡ true
Allowed m (remove p) s q = Unit {0}
Allowed m (set p events) s q = Unit {0}
Allowed m (add p events) s q = Unit {0}
Allowed m (del p events) s q = Unit {0}

-- The call returned, the invariant holds, and no more fdevents wait than before.
abbrev pub Returned : Outcome Loop → List ℕ → Type 0
Returned out q = (s' : Loop) × (q' : List ℕ) × (out ≡ ok s') × Inv s' q' × (length q' ≤ length q)

length-queue_after_set :
    (p : ℕ) (events : Events) (s : Loop) (q : List ℕ)
    → length (queue_after_set p events s q) ≤ length q
length-queue_after_set p events s q = ground (arith, length-erase-le p q)

set_Returned :
    (p : ℕ) (events : Events) (s : Loop) (q : List ℕ)
    → Inv s q
    → Returned (ok (fdevent_set p events s)) q
set_Returned p events s q v = (
  fdevent_set p events s,
  queue_after_set p events s q,
  refl,
  fdevent_set-Inv s q p events v,
  length-queue_after_set p events s q,
)

remove_Returned : (p : ℕ) (s : Loop) (q : List ℕ) → Inv s q → Returned (fdevent_remove p s) q
remove_Returned p s q v =
    (removed p s, erase p q, fdevent_remove-ok s q p v, removed-Inv s q p v, length-erase-le p q)

-- fdevent_add keeps the invariant and queues nothing.
pub fdevent_add-Inv :
    (p : ℕ) (events : Events) (s : Loop) (q : List ℕ)
    → Inv s q
    → (q' : List ℕ) × Inv (fdevent_add p events s) q' × (length q' ≤ length q)
unfolding fdevent_add
fdevent_add-Inv p events s q v =
    let wanted = bits_or (s.fde p).wanted events in
    (
      queue_after_set p wanted s q,
      fdevent_set-Inv s q p wanted v,
      length-queue_after_set p wanted s q,
    )

-- Every call that a client may make returns, and queues nothing.
pub apply_op-Returned :
    (m : Memory) (op : Op) (s : Loop) (q : List ℕ)
    → Inv s q
    → Allowed m op s q
    → Returned (apply_op m op s) q
unfolding apply_op fdevent_add fdevent_del fdevent_destroy fdevent_create
apply_op-Returned m (install p (pos fd) func arg) s q v (ints, memory, small, free) =
    let (s', e, v', _, _) = fdevent_install-Inv m s q p fd func arg ints memory small free v in
    (s', q, e, v', omega arith)
apply_op-Returned m (install p (negsuc k) func arg) s q v a = elim a [ ]
apply_op-Returned m (create none fd func arg) s q v a = (s, q, refl, v, omega arith)
apply_op-Returned m (create (some p) (pos fd) func arg) s q v (ints, memory, small, free) =
    let (s', e, v', _, _) = fdevent_install-Inv m s q p fd func arg ints memory small free v in
    (
      put_fde p (record (s'.fde p) { created = true }) s',
      q,
      rw e,
      Inv-put_fde s' p _ (ground arith) q refl v',
      omega arith,
    )
apply_op-Returned m (create (some p) (negsuc k) func arg) s q v a = elim a [ ]
apply_op-Returned m (destroy none) s q v a = (s, q, refl, v, omega arith)
apply_op-Returned m (destroy (some p)) s q v a = rw a (remove_Returned p s q v)
apply_op-Returned m (remove p) s q v a = remove_Returned p s q v
apply_op-Returned m (set p events) s q v a = set_Returned p events s q v
apply_op-Returned m (add p events) s q v a = set_Returned p _ s q v
apply_op-Returned m (del p events) s q v a = set_Returned p _ s q v

-- Each call of the list is allowed when its turn comes.
abbrev pub AllAllowed : Memory → List Op → Loop → List ℕ → Type 0
AllAllowed m [] s q = Unit {0}
AllAllowed m (op ∷ ops) s q =
    Allowed m op s q
    × ((s' : Loop) (q' : List ℕ) → apply_op m op s ≡ ok s' → Inv s' q' → AllAllowed m ops s' q')

pub run_ops-Returned :
    (m : Memory) (ops : List Op) (s : Loop) (q : List ℕ)
    → Inv s q
    → AllAllowed m ops s q
    → Returned (run_ops m ops s) q
unfolding run_ops
run_ops-Returned m [] s q v a = (s, q, refl, v, omega arith)
run_ops-Returned m (op ∷ ops) s q v (now, later) =
    let (s1, q1, e1, v1, l1) = apply_op-Returned m op s q v now in
    let (s2, q2, e2, v2, l2) = run_ops-Returned m ops s1 q1 v1 (later s1 q1 e1 v1) in
    (s2, q2, rw e1 e2, v2, omega arith)
