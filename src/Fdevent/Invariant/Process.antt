-- ===== src/Fdevent/Invariant/Process.antt =====
-- adb/fdevent.c: fdevent_process finds the fdevent of every ready descriptor, and queues each once.
use adb_wide.Base.{
  ℕ, zero, suc, ◌+◌, ◌-◌, ◌≤◌, ◌<◌, ◌≡◌, ◌≢◌, refl, Bool, true, false, ◌||◌, Option, none, some,
  List, [], ◌∷◌, ◌++◌, contains, arith, ◌==◌, if◌then◌else◌, Bool-cases, Option-cases, inl, inr,
  contains-append, ◌∙◌, subst,
}
use adb_wide.Fdevent.Events.{Events, bits_or}
use adb_wide.Fdevent.Plist.{plist_enqueue, list_pending}
use adb_wide.Fdevent.Plist.Ring.{plist_enqueue-IsRing}
use adb_wide.Fdevent.State.{Fde, FdSet, Loop, ok, put_fde}
use adb_wide.Fdevent.Select.{is_used, ready_bits, ready_events, signal, process_fd, process_from}
use adb_wide.Fdevent.Invariant.Defs.{Inv}
use adb_wide.Fdevent.Invariant.Alike.{
  IsAlike, Inv-put_fde, entries-put_fde, owned-put_fde, wants-put_fde,
}

-- The queue with an entry's fdevent at its end, unless it waits already.
abbrev pub push_new : Option ℕ → List ℕ → List ℕ
push_new none q = q
push_new (some p) q = if contains p q then q else q ++ p ∷ []

-- An fdevent that begins to wait goes to the end of the queue.
enqueue-Inv :
    (s : Loop) (q : List ℕ) (p : ℕ) (g : Fde)
    → Inv s q
    → p ≢ list_pending
    → contains p q ≡ false
    → IsAlike (s.fde p) g
    → g.pending ≡ true
    → Inv (put_fde p g (record s { links = plist_enqueue p s.links })) (q ++ p ∷ [])
enqueue-Inv s q p g v ne new same e = record {
  ring = plist_enqueue-IsRing p s.links q ne new v.ring;
  waits = λ k. ground (arith, v.waits k, contains-append k q (p ∷ []));
  bound = v.bound;
  entries = entries-put_fde s p g same v.entries;
  owned = owned-put_fde s p g same v.owned;
  reads = λ i. v.reads i ∙ wants-put_fde s p g same (λ e. e.read) v.entries i;
  writes = λ i. v.writes i ∙ wants-put_fde s p g same (λ e. e.write) v.entries i;
  errors = λ i. v.errors i ∙ wants-put_fde s p g same (λ e. e.error) v.entries i;
}

-- An fdevent with more events.
abbrev noted : Fde → Events → Fde
noted f events = record f { events = bits_or f.events events }

signal_waiting :
    (s : Loop) (p : ℕ) (events : Events)
    → (s.fde p).pending ≡ true
    → signal p events s ≡ put_fde p (noted (s.fde p) events) s
unfolding signal
signal_waiting s p events h = rw h

signal_idle :
    (s : Loop) (p : ℕ) (events : Events)
    → (s.fde p).pending ≡ false
    → signal p events s
      ≡ put_fde p
          (record (noted (s.fde p) events) { pending = true })
          (record s { links = plist_enqueue p s.links })
unfolding signal
signal_idle s p events h = rw h

-- signal keeps the invariant, and queues the fdevent once.
signal-Inv :
    (s : Loop) (q : List ℕ) (p : ℕ) (events : Events)
    → Inv s q
    → p ≢ list_pending
    → Inv (signal p events s) (push_new (some p) q)
signal-Inv s q p events v ne =
    let alike : IsAlike (s.fde p) (noted (s.fde p) events) = ground arith in
    let alike' : IsAlike (s.fde p) (record (noted (s.fde p) events) { pending = true }) =
      ground arith in
    elim (Bool-cases (contains p q)) [
      | inl old ↦
          rw (signal_waiting s p events (v.waits p ∙ old), old) (Inv-put_fde s p _ alike q refl v)
      | inr new ↦
          rw (signal_idle s p events (v.waits p ∙ new), new)
            (enqueue-Inv s q p _ v ne new alike' refl)
    ]

fd_table-signal : (p : ℕ) (events : Events) (s : Loop) → (signal p events s).fd_table ≡ s.fd_table
unfolding signal
fd_table-signal p events s = ground arith

module _ (r w e : FdSet) where
  abbrev pub is_ready : ℕ → Bool
  is_ready i = r i || (w i || e i)

  -- The queue after a scan, as the scan would make it of the table alone.
  abbrev pub scan_queue : (ℕ → Option ℕ) → ℕ → ℕ → List ℕ → List ℕ
  scan_queue t zero i q = q
  scan_queue t (suc rounds) i q =
      scan_queue t rounds (i + 1) (if is_ready i then push_new (t i) q else q)

  -- The number of ready bits among `rounds` descriptors from `i` on.
  abbrev pub ready_total : ℕ → ℕ → ℕ
  ready_total zero i = 0
  ready_total (suc rounds) i = ready_bits r w e i + ready_total rounds (i + 1)

  -- With no ready bit left the rest of the scan does nothing.
  scan_queue_idle :
      (t : ℕ → Option ℕ) (rounds i : ℕ) (q : List ℕ)
      → ready_total rounds i ≡ 0
      → scan_queue t rounds i q ≡ q
  scan_queue_idle t zero i q h = refl
  scan_queue_idle t (suc rounds) i q h = ground (arith, scan_queue_idle t rounds (i + 1) q)

  -- One round of the scan, where the table has the descriptor.
  pub scanned : ℕ → Loop → Loop
  scanned i s =
      if is_ready i
      then (elim (s.fd_table i) [ none ↦ s | some p ↦ signal p (ready_events r w e i) s ])
      else s

  module _ (s : Loop) (i : ℕ) where
    process_fd-ok :
        (is_ready i ≡ true → is_used (s.fd_table i) ≡ true)
        → process_fd r w e i s ≡ ok (scanned i s)
    unfolding process_fd scanned
    process_fd-ok h = ground arith

    fd_table-scanned : (scanned i s).fd_table ≡ s.fd_table
    unfolding scanned signal
    fd_table-scanned = ground arith

    scanned-Inv :
        (q : List ℕ)
        → Inv s q
        → Inv (scanned i s) (if is_ready i then push_new (s.fd_table i) q else q)
    unfolding scanned
    scanned-Inv q v = elim (Bool-cases (is_ready i)) [
      | inr idle ↦ rw idle v
      | inl hot ↦ rw hot (elim (Option-cases (s.fd_table i)) [
        | inl e ↦ rw e v
        | inr (p, entry) ↦
            rw entry (signal-Inv s q p (ready_events r w e i) v (ground (arith, v.entries i)))
      ])
    ]

  -- The scan, without the test that ends it early.
  pub scanned_from : ℕ → ℕ → Loop → Loop
  scanned_from zero i s = s
  scanned_from (suc rounds) i s = scanned_from rounds (i + 1) (scanned i s)

  scanned_idle : (rounds i : ℕ) (s : Loop) → ready_total rounds i ≡ 0 → scanned_from rounds i s ≡ s
  unfolding scanned scanned_from
  scanned_idle zero i s h = refl
  scanned_idle (suc rounds) i s h = ground (arith, scanned_idle rounds (i + 1) s)

  -- With every ready bit counted, and every ready descriptor in the table, the scan visits all.
  pub process_from-ok :
      (rounds i n : ℕ) (s : Loop)
      → ((j : ℕ) → i ≤ j → j < i + rounds → is_ready j ≡ true → is_used (s.fd_table j) ≡ true)
      → ready_total rounds i ≤ n
      → process_from r w e rounds i n s ≡ ok (scanned_from rounds i s)
  unfolding process_from scanned_from
  process_from-ok zero i n s h total = refl
  process_from-ok (suc rounds) i n s h total = elim (Bool-cases (n == 0)) [
    | inl done ↦ rw (done, process_from) (ground (arith, scanned_idle (suc rounds) i s))
    | inr more ↦
        rw (more, process_from, process_fd-ok s i (h i (omega arith) (omega arith)))
          (process_from-ok rounds (i + 1) (n - ready_bits r w e i) (scanned i s)
            (λ j a b hot. rw (fd_table-scanned s i) (h j (omega arith) (omega arith) hot))
            (omega arith))
  ]

  pub scanned_from-Inv :
      (rounds i : ℕ) (s : Loop) (q : List ℕ)
      → Inv s q
      → Inv (scanned_from rounds i s) (scan_queue s.fd_table rounds i q)
  unfolding scanned_from
  scanned_from-Inv zero i s q v = v
  scanned_from-Inv (suc rounds) i s q v =
      subst
        (λ t.
          Inv (scanned_from rounds (i + 1) (scanned i s)) (scan_queue t rounds (i + 1) (after q)))
        (fd_table-scanned s i)
        (scanned_from-Inv rounds (i + 1) (scanned i s) (after q) (scanned-Inv s i q v))
    where
      after : List ℕ → List ℕ
      after q' = if is_ready i then push_new (s.fd_table i) q' else q'
