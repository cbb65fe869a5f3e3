-- ===== src/Fdevent/Invariant/Grow.antt =====
-- adb/fdevent.c: fdevent_register finds or makes room in fd_table.
use adb_wide.Base.{
  ℕ, zero, suc, ◌+◌, ◌*◌, ◌-◌, ◌/◌, ◌≤◌, ◌<◌, ◌≡◌, ◌⊎◌, refl, true, false, Option, none, some, List,
  arith, ◌==◌, if◌then◌else◌, Bool-cases, inl, inr, leb, ltb, update,
}
use adb_wide.Fdevent.State.{Loop, ok}
use adb_wide.Fdevent.Select.{fdevent_init}
use adb_wide.Fdevent.Table.{Memory, double_past, grown_table, grow, fdevent_register}
use adb_wide.Fdevent.Invariant.Defs.{Inv}

-- With a size above 0 and fuel enough for the descriptor, the doubling loop of fdevent_register ends
-- above the descriptor and not below the size; it leaves the size alone or ends at most twice as
-- high as the descriptor.
pub double_past_bounds :
    (fuel fd m : ℕ)
    → 0 < m
    → fd < m + fuel
    → (fd < double_past fuel fd m)
      × (m ≤ double_past fuel fd m)
      × ((double_past fuel fd m ≡ m) ⊎ (double_past fuel fd m ≤ 2 * fd))
unfolding double_past
double_past_bounds zero fd m h k = (omega arith, omega arith, inl refl)
double_past_bounds (suc fuel) fd m h k = ground (arith, double_past_bounds fuel fd (m * 2))

-- The first size of the table, or the present one.
abbrev start_max : ℕ → ℕ
start_max oldmax = if oldmax == 0 then 256 else oldmax

abbrev next_max : ℕ → ℕ → ℕ
next_max fd oldmax = double_past (fd + 1) fd (start_max oldmax)

-- The loop after the table has grown.
pub grown : Memory → ℕ → Loop → Loop
grown m fd s =
    let s1 = if s.fd_table_max == 0 then record (fdevent_init s) { fd_table_max = 256 } else s in
    record s1 {
      fd_table_max = next_max fd s.fd_table_max;
      fd_table = grown_table m s1.fd_table s.fd_table_max (next_max fd s.fd_table_max);
    }

grow-ok :
    (m : Memory) (fd : ℕ) (s : Loop)
    → fd ≤ 32000
    → m.available ≡ true
    → grow m fd s ≡ ok (grown m fd s)
unfolding grow grown
grow-ok m fd s h a = ground arith

-- With pointers as wide as int memset reaches every new entry.
pub grown_table-clear :
    (m : Memory) (t : ℕ → Option ℕ) (oldmax newmax i : ℕ)
    → m.ptr_ints ≡ 1
    → grown_table m t oldmax newmax i ≡ (if ltb i oldmax then t i else none)
unfolding grown_table
grown_table-clear m t oldmax newmax i ints =
    let whole : (newmax - oldmax) / m.ptr_ints ≡ newmax - oldmax = rw ints (omega arith) in
    ground arith

-- What the growth of the table relies on: no entry past its end, no watched descriptor without one.
pub record IsTidy (s : Loop) : Type 0 where
  pub above : (i : ℕ) → s.fd_table_max ≤ i → s.fd_table i ≡ none
  pub idle :
      (i : ℕ)
      → s.fd_table i ≡ none
      → (s.read_fds i ≡ false) × (s.write_fds i ≡ false) × (s.error_fds i ≡ false)

pub Inv-IsTidy : (s : Loop) (q : List ℕ) → Inv s q → IsTidy s
Inv-IsTidy s q v = record {
  above = λ i h. ground (arith, v.entries i, v.bound);
  idle = λ i h. ground (arith, v.reads i, v.writes i, v.errors i);
}

-- What the growth of the table leaves as it was, and the room that it makes.
pub record HasRoom (s s' : Loop) (fd : ℕ) : Type 0 where
  pub same_fde : s'.fde ≡ s.fde
  pub same_links : s'.links ≡ s.links
  pub same_select_n : s'.select_n ≡ s.select_n
  pub more : s.fd_table_max ≤ s'.fd_table_max
  pub room : fd < s'.fd_table_max
  pub same_entry : (i : ℕ) → s'.fd_table i ≡ s.fd_table i
  pub same_sets :
      (i : ℕ)
      → (s'.read_fds i ≡ s.read_fds i)
        × (s'.write_fds i ≡ s.write_fds i)
        × (s'.error_fds i ≡ s.error_fds i)

module _ (m : Memory) (fd : ℕ) (s : Loop) (v : IsTidy s) (ints : m.ptr_ints ≡ 1) where
  grown_entry : (i : ℕ) → (grown m fd s).fd_table i ≡ s.fd_table i
  unfolding grown fdevent_init
  grown_entry i = ground (
    arith,
    v.above i,
    grown_table-clear m s.fd_table s.fd_table_max (next_max fd s.fd_table_max) i,
  )

  grown_sets :
      (i : ℕ)
      → ((grown m fd s).read_fds i ≡ s.read_fds i)
        × ((grown m fd s).write_fds i ≡ s.write_fds i)
        × ((grown m fd s).error_fds i ≡ s.error_fds i)
  unfolding grown fdevent_init
  grown_sets i = ground (arith, v.above i, v.idle i)

  grown-HasRoom : HasRoom s (grown m fd s) fd
  unfolding grown fdevent_init
  grown-HasRoom = record {
    same_fde = ground arith;
    same_links = ground arith;
    same_select_n = ground arith;
    more = ground (arith, double_past_bounds (fd + 1) fd (start_max s.fd_table_max));
    room = ground (arith, double_past_bounds (fd + 1) fd (start_max s.fd_table_max));
    same_entry = grown_entry;
    same_sets = grown_sets;
  }

  -- fdevent_register finds or makes room, and writes one entry.
  pub register_lem :
      (p : ℕ)
      → (s.fde p).fd ≡ fd
      → fd ≤ 32000
      → m.available ≡ true
      → (s' : Loop) × HasRoom s s' fd
        × (fdevent_register m p s ≡ ok (record s' { fd_table = update s'.fd_table fd (some p) }))
  unfolding fdevent_register
  register_lem p e h a = elim (Bool-cases (leb s.fd_table_max fd)) [
    | inl full ↦ (grown m fd s, grown-HasRoom, rw (e, full, grow-ok m fd s h a))
    | inr free ↦ (s, ground arith, rw (e, free))
  ]
