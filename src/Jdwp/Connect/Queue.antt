-- ===== src/Jdwp/Connect/Queue.antt =====
-- adb/jdwp_service.c: the descriptors that wait for a process are a queue of four at most, and the loop
-- watches for writing exactly while it is not empty.
use adb_wide.Base.{
  ℕ, zero, suc, ◌+◌, ◌≤◌, ◌<◌, ◌≡◌, refl, ◌∙◌, ap, true, false, Option, none, some, List, [], ◌∷◌,
  ◌++◌, contains, arith, ltb, leb, ◌==◌, update, inl, inr, ◌⊎◌, if_cases,
}
use adb_wide.Base.Int.{ℤ}
use adb_wide.Fdevent.Events.{Events, fde_write, bits_or}
use adb_wide.Fdevent.State.{Fde, Loop}
use adb_wide.Fdevent.Api.{fdevent_set, fdevent_add}
use adb_wide.Fdevent.Watch.{wanted-fdevent_set, fde-fdevent_set_ne}
use adb_wide.Jdwp.State.{Proc, Jdwp, max_out_fds, put_proc, put_loop}
use adb_wide.Jdwp.Process.{shift_fds}
use adb_wide.Jdwp.Connect.{find_pid, connect_to, create_jdwp_connection_fd}

-- The descriptors fds[n .. n + k - 1].
abbrev pub slots : (ℕ → ℕ) → ℕ → ℕ → List ℕ
slots fds n zero = []
slots fds n (suc k) = fds n ∷ slots fds (n + 1) k

-- The descriptors that wait to be sent to a process, the first first.
abbrev pub waiting_fds : Proc → List ℕ
waiting_fds f = slots f.out_fds 0 f.out_count

slots-update : (fds : ℕ → ℕ) (n k i v : ℕ) → n + k ≤ i → slots (update fds i v) n k ≡ slots fds n k
slots-update fds n zero i v h = refl
slots-update fds n (suc k) i v h = ground (arith, slots-update fds (n + 1) k i v)

slots-append :
    (fds : ℕ → ℕ) (n k v : ℕ) → slots (update fds (n + k) v) n (k + 1) ≡ slots fds n k ++ v ∷ []
slots-append fds n zero v = ground arith
slots-append fds n (suc k) v =
    let same : n + suc k ≡ (n + 1) + k = omega arith in
    let more : suc k + 1 ≡ suc (k + 1) = omega arith in
    rw (same, more) (ground (arith, slots-append fds (n + 1) k v))

pub slots-shift :
    (fds : ℕ → ℕ) (count n k : ℕ)
    → n + k + 1 ≤ count
    → slots (shift_fds fds count) n k ≡ slots fds (n + 1) k
slots-shift fds count n zero h = refl
slots-shift fds count n (suc k) h = ground (arith, slots-shift fds count (n + 1) k)

-- What holds of every process of the list.
pub record IsWatched (l : Loop) (f : Proc) : Type 0 where
  pub room : f.out_count ≤ max_out_fds
  pub write : (l.fde f.fde).wanted.write ≡ ltb 0 f.out_count

pub record AreWatched (s : Jdwp) : Type 0 where
  pub each : (p : ℕ) → contains p s.list ≡ true → IsWatched s.loop (s.proc p)
  pub own :
      (p k : ℕ)
      → contains p s.list ≡ true
      → contains k s.list ≡ true
      → (k == p) ≡ false
      → ((s.proc k).fde == (s.proc p).fde) ≡ false

pub find_pid-contains :
    (pid : ℤ) (proc : ℕ → Proc) (list : List ℕ) (p : ℕ)
    → find_pid pid proc list ≡ some p
    → contains p list ≡ true
unfolding find_pid
find_pid-contains pid proc [] p h = cc
find_pid-contains pid proc (x ∷ list) p h = ground (arith, find_pid-contains pid proc list p)

-- A process that changes its count and the events of its fdevent together keeps to the rule, and the
-- others do not notice.
pub watched_update :
    (s : Jdwp) (p : ℕ) (g : Proc) (l : Loop)
    → AreWatched s
    → contains p s.list ≡ true
    → g.fde ≡ (s.proc p).fde
    → IsWatched l g
    → ((k : ℕ) → (k == g.fde) ≡ false → (l.fde k).wanted ≡ (s.loop.fde k).wanted)
    → AreWatched (put_loop l (put_proc p g s))
watched_update s p g l v here same new others = record {
  each = λ k h.
      if_cases (IsWatched l) (p == k) g (s.proc k) (λ _. new)
        λ e.
          let old = v.each k h in
          let apart : (k == p) ≡ false = ground arith in
          let far : ((s.proc k).fde == g.fde) ≡ false = rw same (v.own p k here h apart) in
          record {
            room = old.room;
            write = ap (λ (w : Events). w.write) (others (s.proc k).fde far) ∙ old.write;
          };
  own = λ j k hj hk ne. ground (arith, v.own j k);
}

-- What a connection to the process leaves: refused with four descriptors waiting, else the far end
-- waits behind them and the near end is the result.
abbrev pub Connected : Jdwp → ℕ → ℕ → ℕ → Option ℕ × Jdwp → Type 0
Connected s p fd0 fd1 out =
    (((s.proc p).out_count ≡ 4) × (out ≡ (none, s)))
    ⊎ (((s.proc p).out_count < 4)
        × (out.0 ≡ some fd0)
        × (waiting_fds (out.1.proc p) ≡ waiting_fds (s.proc p) ++ fd1 ∷ []))

module _ (s : Jdwp) (p fd0 fd1 : ℕ) (v : AreWatched s) (here : contains p s.list ≡ true) where
  connect_to-AreWatched : AreWatched (connect_to (some (fd0, fd1)) p s).1
  unfolding connect_to fdevent_add
  connect_to-AreWatched =
      let f = s.proc p in
      let f' = record f {
        out_fds = update f.out_fds f.out_count fd1;
        out_count = f.out_count + 1;
      } in
      let old = v.each p here in
      let wanted = bits_or (s.loop.fde f.fde).wanted fde_write in
      if_cases (λ (out : Option ℕ × Jdwp). AreWatched out.1) (leb max_out_fds f.out_count) _ _
        (λ _. v)
        λ free.
          if_cases (λ (out : Option ℕ × Jdwp). AreWatched out.1) (f.out_count + 1 == 1) _ _
            (λ _.
              watched_update s p f' (fdevent_set f.fde wanted s.loop) v here refl
                (record {
                  room = ground arith;
                  write =
                      ap (λ (w : Events). w.write) (wanted-fdevent_set f.fde wanted s.loop)
                      ∙ ground arith;
                })
                λ k far. ap (λ (g : Fde). g.wanted) (fde-fdevent_set_ne f.fde k wanted s.loop far))
            λ more.
              watched_update s p f' s.loop v here refl
                (record { room = ground arith; write = ground (arith, old.write) }) λ k far. refl

  connect_to-Connected : Connected s p fd0 fd1 (connect_to (some (fd0, fd1)) p s)
  unfolding connect_to
  connect_to-Connected =
      let f = s.proc p in
      let old = v.each p here in
      let joins = slots-append f.out_fds 0 f.out_count fd1 in
      if_cases (Connected s p fd0 fd1) (leb max_out_fds f.out_count) _ _
        (λ over. inl (ground (arith, old.room), refl))
        λ free.
          if_cases (Connected s p fd0 fd1) (f.out_count + 1 == 1) _ _
            (λ _. inr (ground arith, refl, ground (arith, joins)))
            λ _. inr (ground arith, refl, ground (arith, joins))

-- A connection keeps the rule that at most four descriptors wait for a process and that the loop
-- watches its socket for writing exactly while one does, whether or not socketpair succeeds.
pub create_jdwp_connection_fd-AreWatched :
    (pid : ℤ) (pair : Option (ℕ × ℕ)) (s : Jdwp)
    → AreWatched s
    → AreWatched (create_jdwp_connection_fd pid pair s).1
unfolding create_jdwp_connection_fd
create_jdwp_connection_fd-AreWatched pid pair s v =
    go (find_pid pid s.proc s.list) (λ p e. find_pid-contains pid s.proc s.list p e) pair
  where
    go :
        (found : Option ℕ)
        → ((p : ℕ) → found ≡ some p → contains p s.list ≡ true)
        → (pair' : Option (ℕ × ℕ))
        → AreWatched
            (elim found as (λ _. Option ℕ × Jdwp) [
              | none ↦ (none, s)
              | some p ↦ connect_to pair' p s
            ]).1
    go none h pair' = v
    go (some p) h none = unfold connect_to in v
    go (some p) h (some (fd0, fd1)) = connect_to-AreWatched s p fd0 fd1 v (h p refl)

-- A connection to a process that is in the list: with four descriptors waiting it is refused and
-- changes nothing; else the near end of the pair is the result, and the far end waits behind the
-- others.
pub create_jdwp_connection_fd-Connected :
    (pid : ℤ) (p fd0 fd1 : ℕ) (s : Jdwp)
    → AreWatched s
    → find_pid pid s.proc s.list ≡ some p
    → Connected s p fd0 fd1 (create_jdwp_connection_fd pid (some (fd0, fd1)) s)
unfolding create_jdwp_connection_fd
create_jdwp_connection_fd-Connected pid p fd0 fd1 s v found =
    let here = find_pid-contains pid s.proc s.list p found in
    rw (found, create_jdwp_connection_fd) (connect_to-Connected s p fd0 fd1 v here)
