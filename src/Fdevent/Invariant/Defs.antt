-- ===== src/Fdevent/Invariant/Defs.antt =====
-- adb/fdevent.c: the invariant of fd_table, of the watched sets and of the pending ring.
use adb_wide.Base.{ℕ, ◌≤◌, ◌<◌, ◌≡◌, ◌≢◌, Bool, true, false, Option, none, some, List, contains}
use adb_wide.Fdevent.Events.{Events}
use adb_wide.Fdevent.Plist.{list_pending}
use adb_wide.Fdevent.Plist.Ring.{IsRing}
use adb_wide.Fdevent.State.{Fde, Loop}

-- A bit of the events that the fdevent of an entry wants.
abbrev pub wants : (Events → Bool) → (ℕ → Fde) → Option ℕ → Bool
wants bit fde none = false
wants bit fde (some p) = bit (fde p).wanted

-- An entry of fd_table: it points to an active fdevent of this descriptor, in reach of the scans.
abbrev pub IsEntry : Loop → ℕ → Option ℕ → Type 0
IsEntry s i none = Unit {0}
IsEntry s i (some p) =
    ((s.fde p).fd ≡ i) × ((s.fde p).active ≡ true) × (i < s.select_n) × (p ≢ list_pending)

-- `q` is the queue of pending fdevents, oldest first.
pub record Inv (s : Loop) (q : List ℕ) : Type 0 where
  pub ring : IsRing s.links q
  pub waits : (p : ℕ) → (s.fde p).pending ≡ contains p q
  pub bound : s.select_n ≤ s.fd_table_max
  pub entries : (i : ℕ) → IsEntry s i (s.fd_table i)
  pub owned : (p : ℕ) → (s.fde p).active ≡ true → s.fd_table (s.fde p).fd ≡ some p
  pub reads : (i : ℕ) → s.read_fds i ≡ wants (λ e. e.read) s.fde (s.fd_table i)
  pub writes : (i : ℕ) → s.write_fds i ≡ wants (λ e. e.write) s.fde (s.fd_table i)
  pub errors : (i : ℕ) → s.error_fds i ≡ wants (λ e. e.error) s.fde (s.fd_table i)
