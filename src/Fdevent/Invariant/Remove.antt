-- ===== src/Fdevent/Invariant/Remove.antt =====
-- adb/fdevent.c: fdevent_remove never ends the process and keeps the invariant.
use adb_wide.Base.{
  ℕ, zero, suc, ◌+◌, ◌≤◌, ◌<◌, ◌≡◌, refl, true, false, ◌&&◌, not, Option, none, some, List, [], ◌∷◌,
  contains, erase, arith, ◌==◌, if◌then◌else◌, update, Bool-cases, inl, inr, contains-erase_ne,
  contains-erase_self,
}
use adb_wide.Fdevent.Events.{no_events}
use adb_wide.Fdevent.Plist.{plist_remove}
use adb_wide.Fdevent.Plist.Ring.{IsRing, plist_remove-IsRing}
use adb_wide.Fdevent.State.{Fde, Loop, ok, put_fde}
use adb_wide.Fdevent.Select.{fdevent_disconnect, last_used, is_used}
use adb_wide.Fdevent.Table.{fdevent_unregister}
use adb_wide.Fdevent.Api.{fdevent_remove}
use adb_wide.Fdevent.Invariant.Defs.{Inv, wants, IsEntry}

last_used-lt :
    (t : ℕ → Option ℕ) (rounds i n b : ℕ) → n < b → i + rounds ≤ b → last_used t rounds i n < b
unfolding last_used
last_used-lt t zero i n b h k = h
last_used-lt t (suc r) i n b h k =
    ground (arith, last_used-lt t r (i + 1) (if is_used (t i) then i else n) b)

last_used-ge : (t : ℕ → Option ℕ) (rounds i n : ℕ) → n ≤ i → n ≤ last_used t rounds i n
unfolding last_used
last_used-ge t zero i n h = omega arith
last_used-ge t (suc r) i n h =
    ground (arith, last_used-ge t r (i + 1) (if is_used (t i) then i else n))

-- The scan finds the greatest index in use.
last_used_bound :
    (t : ℕ → Option ℕ) (rounds i n j : ℕ)
    → n ≤ i
    → i ≤ j
    → j < i + rounds
    → is_used (t j) ≡ true
    → j ≤ last_used t rounds i n
unfolding last_used
last_used_bound t zero i n j h a b u = absurd (omega arith)
last_used_bound t (suc r) i n j h a b u = elim (Bool-cases (i == j)) [
  | inl e ↦ ground (arith, last_used-ge t r (i + 1) i)
  | inr e ↦ ground (arith, last_used_bound t r (i + 1) (if is_used (t i) then i else n) j)
]

pub erase-absent : (p : ℕ) (q : List ℕ) → contains p q ≡ false → erase p q ≡ q
erase-absent p [] h = refl
erase-absent p (x ∷ q) h = ground (arith, erase-absent p q)

-- An fdevent after its removal.
abbrev pub cleared : Fde → Fde
cleared f = record f {
  wanted = no_events;
  active = false;
  pending = false;
  created = false;
  events = no_events;
}

abbrev off_ring : ℕ → Loop → Loop
off_ring p s = if (s.fde p).pending then record s { links = plist_remove p s.links } else s

abbrev off_table : ℕ → Loop → Loop
off_table p s =
    let f = s.fde p in
    record (fdevent_disconnect p s) {
      fd_table = update s.fd_table f.fd none;
      closed = if f.wanted.dont_close then s.closed else f.fd ∷ s.closed;
    }

-- The loop after fdevent_remove: out of the ring, out of the table, closed where that is wanted.
unfoldable pub removed : ℕ → Loop → Loop
removed p s =
    let s1 = off_ring p s in
    let s2 = if (s.fde p).active then off_table p s1 else s1 in put_fde p (cleared (s2.fde p)) s2

module _ (s : Loop) (q : List ℕ) (p : ℕ) (v : Inv s q) where
  -- fdevent_remove never ends the process.
  pub fdevent_remove-ok : fdevent_remove p s ≡ ok (removed p s)
  unfolding fdevent_remove removed fdevent_unregister fdevent_disconnect
  fdevent_remove-ok = ground (arith, v.owned p, v.entries (s.fde p).fd, v.bound)

  removed-IsRing : IsRing (removed p s).links (erase p q)
  unfolding removed fdevent_disconnect
  removed-IsRing =
      ground (arith, v.waits p, plist_remove-IsRing p s.links q, v.ring, erase-absent p q)

  removed_waits : (k : ℕ) → ((removed p s).fde k).pending ≡ contains k (erase p q)
  unfolding removed fdevent_disconnect
  removed_waits k =
      ground (arith, v.waits k, contains-erase_ne k p q, contains-erase_self p q v.ring.distinct)

  removed_bound : (removed p s).select_n ≤ (removed p s).fd_table_max
  unfolding removed fdevent_disconnect
  removed_bound = ground (
    arith,
    v.bound,
    v.owned p,
    v.entries (s.fde p).fd,
    last_used-lt s.fd_table s.select_n 0 0 s.select_n,
  )

  removed_entries : (i : ℕ) → IsEntry (removed p s) i ((removed p s).fd_table i)
  unfolding removed fdevent_disconnect
  removed_entries i =
      ground (arith, v.entries i, v.owned p, last_used_bound s.fd_table s.select_n 0 0 i)

  removed_owned :
      (k : ℕ)
      → ((removed p s).fde k).active ≡ true
      → (removed p s).fd_table ((removed p s).fde k).fd ≡ some k
  unfolding removed fdevent_disconnect
  removed_owned k a = ground (arith, v.owned k, v.owned p)

  removed_reads :
      (i : ℕ)
      → (removed p s).read_fds i ≡ wants (λ e. e.read) (removed p s).fde ((removed p s).fd_table i)
  unfolding removed fdevent_disconnect
  removed_reads i = ground (arith, v.reads i, v.entries i, v.owned p)

  removed_writes :
      (i : ℕ)
      → (removed p s).write_fds i
        ≡ wants (λ e. e.write) (removed p s).fde ((removed p s).fd_table i)
  unfolding removed fdevent_disconnect
  removed_writes i = ground (arith, v.writes i, v.entries i, v.owned p)

  removed_errors :
      (i : ℕ)
      → (removed p s).error_fds i
        ≡ wants (λ e. e.error) (removed p s).fde ((removed p s).fd_table i)
  unfolding removed fdevent_disconnect
  removed_errors i = ground (arith, v.errors i, v.entries i, v.owned p)

  removed_inactive : ((removed p s).fde p).active ≡ false
  unfolding removed
  removed_inactive = ground arith

  removed_closed : (removed p s).closed ≡ (
      if (s.fde p).active && not (s.fde p).wanted.dont_close
      then (s.fde p).fd ∷ s.closed
      else s.closed)
  unfolding removed
  removed_closed = ground arith

  pub removed-Inv : Inv (removed p s) (erase p q)
  removed-Inv = record {
    ring = removed-IsRing;
    waits = removed_waits;
    bound = removed_bound;
    entries = removed_entries;
    owned = removed_owned;
    reads = removed_reads;
    writes = removed_writes;
    errors = removed_errors;
  }

  -- Where the invariant holds, fdevent_remove does not end the process; it keeps the invariant,
  -- takes the fdevent off the queue and leaves it inactive, and its descriptor is closed exactly
  -- where the fdevent was active without FDE_DONT_CLOSE.
  pub fdevent_remove-Inv :
      (s' : Loop) × (fdevent_remove p s ≡ ok s')
      × Inv s' (erase p q)
      × ((s'.fde p).active ≡ false)
      × (s'.closed ≡ (
          if (s.fde p).active && not (s.fde p).wanted.dont_close
          then (s.fde p).fd ∷ s.closed
          else s.closed))
  fdevent_remove-Inv =
      (removed p s, fdevent_remove-ok, removed-Inv, removed_inactive, removed_closed)
