-- ===== src/Fdevent/Invariant/Alike.antt =====
-- adb/fdevent.c: the invariant does not read every field of an fdevent.
use adb_wide.Base.{ℕ, ◌≡◌, Bool, true, false, some, List, arith, ◌∙◌, ◌⊎◌}
use adb_wide.Fdevent.Events.{Events}
use adb_wide.Fdevent.State.{Fde, Loop, put_fde}
use adb_wide.Fdevent.Invariant.Defs.{Inv, wants, IsEntry}

-- An fdevent may be replaced by one that agrees with it on what the invariant reads.
pub record IsAlike (f g : Fde) : Type 0 where
  pub same_fd : g.fd ≡ f.fd
  pub same_active : g.active ≡ f.active
  pub same_wanted : (f.active ≡ false) ⊎ (g.wanted ≡ f.wanted)

module _ (s : Loop) (p : ℕ) (g : Fde) (same : IsAlike (s.fde p) g) where
  pub entries-put_fde :
      ((i : ℕ) → IsEntry s i (s.fd_table i)) → (i : ℕ) → IsEntry (put_fde p g s) i (s.fd_table i)
  entries-put_fde h i = grind (arith, h)

  pub owned-put_fde :
      ((p : ℕ) → (s.fde p).active ≡ true → s.fd_table (s.fde p).fd ≡ some p)
      → (k : ℕ) → ((put_fde p g s).fde k).active ≡ true
      → s.fd_table ((put_fde p g s).fde k).fd ≡ some k
  owned-put_fde h k = grind (arith, h)

  pub wants-put_fde :
      (bit : Events → Bool)
      → ((i : ℕ) → IsEntry s i (s.fd_table i))
      → (i : ℕ) → wants bit s.fde (s.fd_table i) ≡ wants bit (put_fde p g s).fde (s.fd_table i)
  wants-put_fde bit h i = ground (arith, h i)

  pub Inv-put_fde : (q : List ℕ) → g.pending ≡ (s.fde p).pending → Inv s q → Inv (put_fde p g s) q
  Inv-put_fde q e v = record {
    ring = v.ring;
    waits = λ k. grind (arith, v.waits);
    bound = v.bound;
    entries = entries-put_fde v.entries;
    owned = owned-put_fde v.owned;
    reads = λ i. v.reads i ∙ wants-put_fde (λ e. e.read) v.entries i;
    writes = λ i. v.writes i ∙ wants-put_fde (λ e. e.write) v.entries i;
    errors = λ i. v.errors i ∙ wants-put_fde (λ e. e.error) v.entries i;
  }
