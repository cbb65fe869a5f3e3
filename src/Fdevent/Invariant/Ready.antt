-- ===== src/Fdevent/Invariant/Ready.antt =====
-- adb/fdevent.c: fdevent_process never ends the process, whatever select() returns.
use adb_wide.Base.{
  ℕ, zero, suc, ◌+◌, ◌≤◌, ◌<◌, ◌≡◌, refl, Bool, true, false, ◌&&◌, Option, List, arith, ◌==◌,
  if◌then◌else◌, Bool-cases, inl, inr, leb, ltb, update,
}
use adb_wide.Fdevent.State.{FdSet, Loop, ok}
use adb_wide.Fdevent.Select.{
  fd_zero, is_used, fd_check_from, fdevent_fd_check, Selected, ready, eintr, ebadf, other_error,
  process_from, fdevent_process,
}
use adb_wide.Fdevent.Invariant.Defs.{Inv}
use adb_wide.Fdevent.Invariant.Process.{
  is_ready, ready_total, scan_queue, scanned_from, process_from-ok, scanned_from-Inv,
}

-- The registered descriptors that fcntl rejects.
abbrev pub bad_fds : (ℕ → Bool) → (ℕ → Option ℕ) → FdSet
bad_fds bad t i = if is_used (t i) then bad i else false

fd_check-set :
    (bad : ℕ → Bool) (t : ℕ → Option ℕ) (rounds i : ℕ) (fds : FdSet) (n j : ℕ)
    → (fd_check_from bad t rounds i fds n).0 j
      ≡ (if leb i j && (ltb j (i + rounds) && bad_fds bad t j) then true else fds j)
unfolding fd_check_from
fd_check-set bad t zero i fds n j = ground arith
fd_check-set bad t (suc rounds) i fds n j = ground (
  arith,
  fd_check-set bad t rounds (i + 1) (if bad_fds bad t i then update fds i true else fds)
      (if bad_fds bad t i then n + 1 else n) j,
)

fd_check-count :
    (bad : ℕ → Bool) (t : ℕ → Option ℕ) (rounds i : ℕ) (fds : FdSet) (n : ℕ)
    → (fd_check_from bad t rounds i fds n).1
      ≡ n + ready_total (bad_fds bad t) fd_zero fd_zero rounds i
unfolding fd_check_from
fd_check-count bad t zero i fds n = omega arith
fd_check-count bad t (suc rounds) i fds n = ground (
  arith,
  fd_check-count bad t rounds (i + 1) (if bad_fds bad t i then update fds i true else fds)
      (if bad_fds bad t i then n + 1 else n),
)

-- The two scans agree where the sets do.
abbrev Agree : (r w e r' w' e' : FdSet) → ℕ → ℕ → Type 0
Agree r w e r' w' e' i rounds =
    (j : ℕ) → i ≤ j → j < i + rounds → (r j ≡ r' j) × (w j ≡ w' j) × (e j ≡ e' j)

ready_total_congr :
    (r w e r' w' e' : FdSet) (rounds i : ℕ)
    → Agree r w e r' w' e' i rounds
    → ready_total r w e rounds i ≡ ready_total r' w' e' rounds i
ready_total_congr r w e r' w' e' zero i h = refl
ready_total_congr r w e r' w' e' (suc rounds) i h = ground (
  arith,
  h i,
  ready_total_congr r w e r' w' e' rounds (i + 1) (λ j a b. h j (omega arith) (omega arith)),
)

scan_queue_congr :
    (r w e r' w' e' : FdSet) (t : ℕ → Option ℕ) (rounds i : ℕ) (q : List ℕ)
    → Agree r w e r' w' e' i rounds
    → scan_queue r w e t rounds i q ≡ scan_queue r' w' e' t rounds i q
scan_queue_congr r w e r' w' e' t zero i q h = refl
scan_queue_congr r w e r' w' e' t (suc rounds) i q h =
    let (a, b, c) = h i (omega arith) (omega arith) in
    rw (a, b, c)
      (scan_queue_congr r w e r' w' e' t rounds (i + 1) _
        (λ j a b. h j (omega arith) (omega arith)))

none_ready :
    (r w e : FdSet) (rounds i : ℕ)
    → ready_total r w e rounds i ≡ 0
    → Agree r w e fd_zero fd_zero fd_zero i rounds
none_ready r w e zero i h j a b = absurd (omega arith)
none_ready r w e (suc rounds) i h j a b = elim (Bool-cases (i == j)) [
  | inl here ↦ ground arith
  | inr later ↦ none_ready r w e rounds (i + 1) (omega arith) j (ground arith) (omega arith)
]

-- What select() promises of a successful call on the watched sets: it counts the bits that it
-- leaves, and leaves only bits that were asked for. An error promises nothing.
abbrev pub IsSelected : Loop → Selected → Type 0
IsSelected s (ready n r w e) =
    (n ≡ ready_total r w e s.select_n 0)
    × ((i : ℕ) → r i ≡ true → s.read_fds i ≡ true)
    × ((i : ℕ) → w i ≡ true → s.write_fds i ≡ true)
    × ((i : ℕ) → e i ≡ true → s.error_fds i ≡ true)
IsSelected s _ = Unit {0}

-- The queue after fdevent_process: the ready fdevents in the order of their descriptors, or, after
-- EBADF and where nothing is ready, those whose descriptor is bad.
abbrev pub queue_after_process : (ℕ → Bool) → Selected → Loop → List ℕ → List ℕ
queue_after_process bad (ready n r w e) s q =
    if n == 0
    then scan_queue (bad_fds bad s.fd_table) fd_zero fd_zero s.fd_table s.select_n 0 q
    else scan_queue r w e s.fd_table s.select_n 0 q
queue_after_process bad ebadf s q =
    scan_queue (bad_fds bad s.fd_table) fd_zero fd_zero s.fd_table s.select_n 0 q
queue_after_process bad _ s q = q

none_total : (rounds i : ℕ) → ready_total fd_zero fd_zero fd_zero rounds i ≡ 0
none_total zero i = refl
none_total (suc rounds) i = omega (arith, none_total rounds (i + 1))

module _ (s : Loop) (q : List ℕ) (v : Inv s q) where
  -- A scan whose ready bits are counted and belong to registered descriptors.
  scan_ok :
      (r w e : FdSet) (n : ℕ)
      → ((j : ℕ) → j < s.select_n → is_ready r w e j ≡ true → is_used (s.fd_table j) ≡ true)
      → ready_total r w e s.select_n 0 ≤ n
      → (s' : Loop) × (process_from r w e s.select_n 0 n s ≡ ok s')
        × Inv s' (scan_queue r w e s.fd_table s.select_n 0 q)
  scan_ok r w e n used total = (
    scanned_from r w e s.select_n 0 s,
    process_from-ok r w e s.select_n 0 n s (λ j a b. used j (omega arith)) total,
    scanned_from-Inv r w e s.select_n 0 s q v,
  )

  -- The scan for bad descriptors, where select() left no bit.
  check_ok :
      (bad : ℕ → Bool) (r w e : FdSet)
      → ready_total r w e s.select_n 0 ≡ 0
      → let (rfd, n) = fdevent_fd_check bad r s in
        (s' : Loop) × (process_from rfd w e s.select_n 0 n s ≡ ok s')
        × Inv s' (scan_queue (bad_fds bad s.fd_table) fd_zero fd_zero s.fd_table s.select_n 0 q)
  unfolding fdevent_fd_check
  check_ok bad r w e h =
      let rfd = (fdevent_fd_check bad r s).0 in
      let n = (fdevent_fd_check bad r s).1 in
      let agree : Agree rfd w e (bad_fds bad s.fd_table) fd_zero fd_zero 0 s.select_n = λ j a b.
        ground (
          arith,
          fd_check-set bad s.fd_table s.select_n 0 r 0 j,
          none_ready r w e s.select_n 0 h j a b,
        ) in
      let (s', e1, v') =
        scan_ok rfd w e n (λ j b hot. ground (arith, agree j (omega arith) (omega arith)))
          (omega (
            arith,
            fd_check-count bad s.fd_table s.select_n 0 r 0,
            ready_total_congr rfd w e (bad_fds bad s.fd_table) fd_zero fd_zero s.select_n 0 agree,
          )) in
      (
        s',
        e1,
        rw
            (scan_queue_congr rfd w e (bad_fds bad s.fd_table) fd_zero fd_zero s.fd_table s.select_n
              0 q agree)
            at v',
      )

  -- A bit that select() leaves was asked for, so the descriptor is registered.
  selected_used :
      (r w e : FdSet) (n j : ℕ)
      → IsSelected s (ready n r w e)
      → is_ready r w e j ≡ true
      → is_used (s.fd_table j) ≡ true
  selected_used r w e n j sel hot =
      ground (arith, sel.1 j, sel.2 j, sel.3 j, v.reads j, v.writes j, v.errors j)

  -- Where the invariant holds, and select() leaves only bits that were asked for and counts them
  -- right, fdevent_process does not end the process: it returns with the invariant kept and the
  -- ready fdevents at the end of the queue, each once and in the order of their descriptors.
  pub fdevent_process-Inv :
      (bad : ℕ → Bool) (sel : Selected)
      → IsSelected s sel
      → (s' : Loop) × (fdevent_process bad sel s ≡ ok s') × Inv s' (queue_after_process bad sel s q)
  unfolding fdevent_process
  fdevent_process-Inv bad (ready n r w e) sel = elim (Bool-cases (n == 0)) [
    | inl nothing ↦ rw nothing (check_ok bad r w e (ground arith))
    | inr some_ready ↦
        rw some_ready (scan_ok r w e n (λ j _ hot. selected_used r w e n j sel hot) (omega arith))
  ]
  fdevent_process-Inv bad ebadf sel = check_ok bad fd_zero fd_zero fd_zero (none_total s.select_n 0)
  fdevent_process-Inv bad eintr sel = (s, refl, v)
  fdevent_process-Inv bad other_error sel = (s, refl, v)
