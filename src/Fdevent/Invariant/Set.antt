-- ===== src/Fdevent/Invariant/Set.antt =====
-- adb/fdevent.c: fdevent_set keeps the invariant.
use adb_wide.Base.{
  ℕ, ◌≡◌, refl, true, false, some, List, contains, erase, arith, if◌then◌else◌, contains-erase_ne,
  contains-erase_self, Bool-cases, inl, inr, ◌∙◌,
}
use adb_wide.Fdevent.Events.{Events, no_events, bits_eq, bits_eq_iff, bits_and, bits_not}
use adb_wide.Fdevent.Plist.{plist_remove}
use adb_wide.Fdevent.Plist.Ring.{plist_remove-IsRing}
use adb_wide.Fdevent.State.{Fde, Loop, put_fde}
use adb_wide.Fdevent.Select.{fdevent_update}
use adb_wide.Fdevent.Api.{fdevent_set, set_wanted, unsignal}
use adb_wide.Fdevent.Invariant.Defs.{Inv}
use adb_wide.Fdevent.Invariant.Alike.{
  IsAlike, Inv-put_fde, entries-put_fde, owned-put_fde, wants-put_fde,
}

-- The queue after fdevent_set.
abbrev pub queue_after_set : ℕ → Events → Loop → List ℕ → List ℕ
queue_after_set p events s q =
    if bits_eq (s.fde p).wanted events
    then q
    else (if contains p q
        then (if bits_eq (bits_and (s.fde p).events (bits_not events)) no_events
            then erase p q
            else q)
        else q)

module _ (s : Loop) (q : List ℕ) (p : ℕ) (events : Events) (v : Inv s q) where
  -- fdevent_update of a registered fdevent.
  update-Inv : (s.fde p).active ≡ true → Inv (fdevent_update p events s) q
  unfolding fdevent_update
  update-Inv a = record {
    ring = v.ring;
    waits = λ k. grind (arith, v.waits);
    bound = v.bound;
    entries = λ i. grind (arith, v.entries);
    owned = λ k. grind (arith, v.owned);
    reads = λ i. ground (arith, v.reads i, v.entries i, v.owned p);
    writes = λ i. ground (arith, v.writes i, v.entries i, v.owned p);
    errors = λ i. ground (arith, v.errors i, v.entries i, v.owned p);
  }

-- Taking a pending fdevent off the ring.
pub dequeue-Inv :
    (s : Loop) (q : List ℕ) (p : ℕ) (g : Fde)
    → Inv s q
    → IsAlike (s.fde p) g
    → g.pending ≡ false
    → (s.fde p).pending ≡ true
    → Inv (put_fde p g (record s { links = plist_remove p s.links })) (erase p q)
dequeue-Inv s q p g v same e w = record {
  ring = plist_remove-IsRing p s.links q (ground (arith, v.waits p)) v.ring;
  waits = λ k.
      ground (arith, v.waits k, contains-erase_ne k p q, contains-erase_self p q v.ring.distinct);
  bound = v.bound;
  entries = entries-put_fde s p g same v.entries;
  owned = owned-put_fde s p g same v.owned;
  reads = λ i. v.reads i ∙ wants-put_fde s p g same (λ e. e.read) v.entries i;
  writes = λ i. v.writes i ∙ wants-put_fde s p g same (λ e. e.write) v.entries i;
  errors = λ i. v.errors i ∙ wants-put_fde s p g same (λ e. e.error) v.entries i;
}

-- What fdevent_set does to a pending fdevent.
unsignal-Inv :
    (s : Loop) (q : List ℕ) (p : ℕ) (events : Events)
    → Inv s q
    → (s.fde p).pending ≡ true
    → Inv
        (unsignal p events s)
        (if bits_eq (bits_and (s.fde p).events (bits_not events)) no_events then erase p q else q)
unfolding unsignal
unsignal-Inv s q p events v w =
    let left = bits_and (s.fde p).events (bits_not events) in
    elim (Bool-cases (bits_eq left no_events)) [
      | inl none_left ↦ rw none_left (
          dequeue-Inv s q p (record (s.fde p) { events = left; pending = false }) v (ground arith)
            refl w)
      | inr some_left ↦
          rw some_left
            (Inv-put_fde s p (record (s.fde p) { events = left }) (ground arith) q refl v)
    ]

pub set_wanted_fields :
    (s : Loop) (p : ℕ) (events : Events)
    → (((set_wanted p events s).fde p).pending ≡ (s.fde p).pending)
      × (((set_wanted p events s).fde p).events ≡ (s.fde p).events)
      × (((set_wanted p events s).fde p).wanted ≡ events)
unfolding set_wanted fdevent_update
set_wanted_fields s p events = ground arith

IsAlike-update :
    (s : Loop) (p : ℕ) (events : Events)
    → IsAlike
        ((fdevent_update p events s).fde p)
        (record ((fdevent_update p events s).fde p) { wanted = events })
unfolding fdevent_update
IsAlike-update s p events = record {
  same_fd = refl;
  same_active = refl;
  same_wanted = ground arith;
}

-- Recording the new events keeps the invariant.
set_wanted-Inv :
    (s : Loop) (q : List ℕ) (p : ℕ) (events : Events) → Inv s q → Inv (set_wanted p events s) q
unfolding set_wanted
set_wanted-Inv s q p events v = elim (Bool-cases (s.fde p).active) [
  | inl a ↦ rw a (
      Inv-put_fde (fdevent_update p events s) p _ (IsAlike-update s p events) q refl
        (update-Inv s q p events v a))
  | inr a ↦ rw a (Inv-put_fde s p _ (ground arith) q refl v)
]

-- Where the invariant holds, fdevent_set keeps it, with the fdevent taken off the queue where none
-- of its events is left.
pub fdevent_set-Inv :
    (s : Loop) (q : List ℕ) (p : ℕ) (events : Events)
    → Inv s q
    → Inv (fdevent_set p events s) (queue_after_set p events s q)
unfolding fdevent_set
fdevent_set-Inv s q p events v = ground (
  arith,
  v.waits p,
  set_wanted_fields s p events,
  set_wanted-Inv s q p events v,
  unsignal-Inv (set_wanted p events s) q p events,
)

set_wanted_kept :
    (s : Loop) (p : ℕ) (events : Events)
    → (((set_wanted p events s).fde p).fd ≡ (s.fde p).fd)
      × (((set_wanted p events s).fde p).active ≡ (s.fde p).active)
unfolding set_wanted fdevent_update
set_wanted_kept s p events = ground arith

unsignal_kept :
    (s : Loop) (p : ℕ) (events : Events)
    → (((unsignal p events s).fde p).fd ≡ (s.fde p).fd)
      × (((unsignal p events s).fde p).active ≡ (s.fde p).active)
      × (((unsignal p events s).fde p).wanted ≡ (s.fde p).wanted)
      × (((unsignal p events s).fde p).events ≡ bits_and (s.fde p).events (bits_not events))
unfolding unsignal
unsignal_kept s p events = ground arith

fdevent_set_fields :
    (s : Loop) (p : ℕ) (events : Events)
    → (((fdevent_set p events s).fde p).fd ≡ (s.fde p).fd)
      × (((fdevent_set p events s).fde p).active ≡ (s.fde p).active)
      × (((fdevent_set p events s).fde p).wanted ≡ events)
unfolding fdevent_set
fdevent_set_fields s p events = ground (
  arith,
  set_wanted_kept s p events,
  set_wanted_fields s p events,
  unsignal_kept (set_wanted p events s) p events,
  bits_eq_iff (s.fde p).wanted events,
)

-- Where the invariant holds, after fdevent_set of an active fdevent the select() sets watch its
-- descriptor for exactly the read, write and error bits of the new events, which are recorded as
-- wanted.
pub fdevent_set_watches :
    (s : Loop) (q : List ℕ) (p : ℕ) (events : Events)
    → Inv s q
    → (s.fde p).active ≡ true
    → let s' = fdevent_set p events s in
      ((s'.fde p).wanted ≡ events)
      × (s'.read_fds (s.fde p).fd ≡ events.read)
      × (s'.write_fds (s.fde p).fd ≡ events.write)
      × (s'.error_fds (s.fde p).fd ≡ events.error)
fdevent_set_watches s q p events v a =
    let v' = fdevent_set-Inv s q p events v in
    let (same_fd, same_active, wanted) = fdevent_set_fields s p events in
    let entry : (fdevent_set p events s).fd_table (s.fde p).fd ≡ some p =
      rw same_fd at (v'.owned p (same_active ∙ a)) in
    (
      wanted,
      ground (arith, v'.reads (s.fde p).fd),
      ground (arith, v'.writes (s.fde p).fd),
      ground (arith, v'.errors (s.fde p).fd),
    )
