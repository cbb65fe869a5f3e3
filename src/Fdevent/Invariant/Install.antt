-- ===== src/Fdevent/Invariant/Install.antt =====
-- adb/fdevent.c: fdevent_install makes room in the table and keeps the invariant.
use adb_wide.Base.{
  ℕ, ◌≤◌, ◌<◌, ◌≡◌, ◌≢◌, refl, Bool, true, false, none, some, List, contains, arith, ◌==◌,
  if◌then◌else◌, Bool-cases, inl, inr, update, ap, ◌∙◌, sym, Option-cases,
}
use adb_wide.Base.Int.{pos}
use adb_wide.Fdevent.Events.{Events, no_events}
use adb_wide.Fdevent.Plist.{list_pending, null, set_next, set_prev}
use adb_wide.Fdevent.Plist.Ring.{IsRing-clear}
use adb_wide.Fdevent.State.{Func, Fde, Loop, ok, put_fde}
use adb_wide.Fdevent.Select.{fdevent_connect}
use adb_wide.Fdevent.Table.{Memory}
use adb_wide.Fdevent.Api.{fdevent_install}
use adb_wide.Fdevent.Invariant.Grow.{Inv-IsTidy, HasRoom, register_lem}
use adb_wide.Fdevent.Invariant.Defs.{Inv, wants, IsEntry}

-- A fresh fdevent as fdevent_install makes it.
abbrev pub fresh_fde : ℕ → Func → ℕ → Fde
fresh_fde fd func arg = record {
  fd = fd;
  force_eof = false;
  wanted = no_events;
  active = true;
  pending = false;
  created = false;
  events = no_events;
  func = func;
  arg = arg;
}

-- The fdevent and its descriptor are not in use.
pub record IsFree (s : Loop) (q : List ℕ) (p fd : ℕ) : Type 0 where
  pub no_entry : s.fd_table fd ≡ none
  pub not_active : (s.fde p).active ≡ false
  pub not_waiting : contains p q ≡ false
  pub a_node : p ≢ list_pending

module _ (s s1 : Loop) (q : List ℕ) (p fd : ℕ) (func : Func) (arg : ℕ) (v : Inv s q)
    (free : IsFree s q p fd) (r : HasRoom (put_fde p (fresh_fde fd func arg) s) s1 fd) where
  -- The loop at the end of fdevent_install.
  installed : Loop
  installed = fdevent_connect p (record s1 { fd_table = update s1.fd_table fd (some p) })

  fde-installed : (k : ℕ) → installed.fde k ≡ (if p == k then fresh_fde fd func arg else s.fde k)
  unfolding installed fdevent_connect
  fde-installed k = rw r.same_fde (ground arith)

  table-installed : (i : ℕ) → installed.fd_table i ≡ (if fd == i then some p else s.fd_table i)
  unfolding installed fdevent_connect
  table-installed i = ground (arith, r.same_entry i)

  reach-installed :
      (fd < installed.select_n)
      × (s.select_n ≤ installed.select_n)
      × (installed.select_n ≤ installed.fd_table_max)
  unfolding installed fdevent_connect
  reach-installed =
      ground (arith, ap (λ f. (f p).fd) r.same_fde, r.same_select_n, r.more, r.room, v.bound)

  sets-installed :
      (i : ℕ)
      → (installed.read_fds i ≡ s.read_fds i)
        × (installed.write_fds i ≡ s.write_fds i)
        × (installed.error_fds i ≡ s.error_fds i)
  unfolding installed fdevent_connect
  sets-installed i = ground (arith, r.same_sets i)

  links-installed : installed.links ≡ s.links
  unfolding installed fdevent_connect
  links-installed = ground (arith, r.same_links)

  -- The entries of other descriptors do not point to the new fdevent.
  wants-installed :
      (bit : Events → Bool)
      → bit no_events ≡ false
      → (i : ℕ) → wants bit installed.fde (installed.fd_table i) ≡ wants bit s.fde (s.fd_table i)
  wants-installed bit e i = elim (Bool-cases (fd == i)) [
    | inl here ↦ rw (table-installed i, here) (ground (arith, fde-installed p, free.no_entry))
    | inr there ↦
        rw (table-installed i, there)
          (elim (Option-cases (s.fd_table i)) [
            | inl empty ↦ rw empty
            | inr (k, entry) ↦
                rw entry (ground (arith, fde-installed k, v.entries i, free.not_active))
          ])
  ]

  entries-installed : (i : ℕ) → IsEntry installed i (installed.fd_table i)
  entries-installed i = elim (Bool-cases (fd == i)) [
    | inl here ↦
        rw (table-installed i, here) (ground (arith, fde-installed p, reach-installed, free.a_node))
    | inr there ↦
        rw (table-installed i, there)
          (elim (Option-cases (s.fd_table i)) [
            | inl empty ↦ rw empty tt
            | inr (k, entry) ↦
                rw entry
                  (ground (arith, fde-installed k, v.entries i, free.not_active, reach-installed))
          ])
  ]

  owned-installed :
      (k : ℕ) → (installed.fde k).active ≡ true → installed.fd_table (installed.fde k).fd ≡ some k
  owned-installed k = elim (Bool-cases (p == k)) [
    | inl this ↦ rw (fde-installed k, this) (λ _. ground (arith, table-installed fd))
    | inr other ↦
        rw (fde-installed k, other)
          (λ a. ground (arith, v.owned k a, table-installed (s.fde k).fd, free.no_entry))
  ]

  installed-Inv : Inv installed q
  installed-Inv = record {
    ring = rw links-installed v.ring;
    waits = λ k. rw (fde-installed k) (ground (arith, v.waits k, free.not_waiting));
    bound = reach-installed.2;
    entries = entries-installed;
    owned = owned-installed;
    reads = λ i. (sets-installed i).0 ∙ v.reads i ∙ sym (wants-installed (λ e. e.read) refl i);
    writes = λ i. (sets-installed i).1 ∙ v.writes i ∙ sym (wants-installed (λ e. e.write) refl i);
    errors = λ i. (sets-installed i).2 ∙ v.errors i ∙ sym (wants-installed (λ e. e.error) refl i);
  }

-- The loop with the links of a node set to null, as memset sets them.
abbrev links_cleared : ℕ → Loop → Loop
links_cleared p s = record s { links = set_prev p null (set_next p null s.links) }

links_cleared-Inv :
    (s : Loop) (q : List ℕ) (p fd : ℕ) → IsFree s q p fd → Inv s q → Inv (links_cleared p s) q
links_cleared-Inv s q p fd free v = record {
  ring = IsRing-clear s.links p q free.a_node free.not_waiting v.ring;
  waits = v.waits;
  bound = v.bound;
  entries = v.entries;
  owned = v.owned;
  reads = v.reads;
  writes = v.writes;
  errors = v.errors;
}

-- Where the invariant holds, fdevent_install of an unused fdevent on an unused descriptor up to
-- 32000, with the memory at hand and pointers as wide as int, goes on: the invariant is kept, the
-- table has the new entry, and the fdevent has its first values.
pub fdevent_install-Inv :
    (m : Memory) (s : Loop) (q : List ℕ) (p fd : ℕ) (func : Func) (arg : ℕ)
    → m.ptr_ints ≡ 1
    → m.available ≡ true
    → fd ≤ 32000
    → IsFree s q p fd
    → Inv s q
    → (s' : Loop) × (fdevent_install m p (pos fd) func arg s ≡ ok s')
      × Inv s' q
      × (s'.fd_table fd ≡ some p)
      × (s'.fde p ≡ fresh_fde fd func arg)
unfolding fdevent_install installed
fdevent_install-Inv m old q p fd func arg ints memory small unused kept =
    let s = links_cleared p old in
    let v = links_cleared-Inv old q p fd unused kept in
    let free : IsFree s q p fd = record {
      no_entry = unused.no_entry;
      not_active = unused.not_active;
      not_waiting = unused.not_waiting;
      a_node = unused.a_node;
    } in
    let begun = put_fde p (fresh_fde fd func arg) s in
    let tidy = Inv-IsTidy s q v in
    let (s1, r, e) =
      register_lem m fd begun (record { above = tidy.above; idle = tidy.idle }) ints p
        (ground arith) small memory in
    (
      installed s s1 q p fd func arg v free r,
      rw e,
      installed-Inv s s1 q p fd func arg v free r,
      ground (arith, table-installed s s1 q p fd func arg v free r fd),
      ground (arith, fde-installed s s1 q p fd func arg v free r p),
    )
