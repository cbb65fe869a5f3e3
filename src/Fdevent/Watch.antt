-- ===== src/Fdevent/Watch.antt =====
-- adb/fdevent.c: what fdevent_set changes of an fdevent, and what it leaves alone.
use adb_wide.Base.{ℕ, ◌≡◌, false, arith, ◌==◌}
use adb_wide.Fdevent.Events.{Events, bits_eq_iff}
use adb_wide.Fdevent.State.{Loop}
use adb_wide.Fdevent.Select.{fdevent_update}
use adb_wide.Fdevent.Api.{fdevent_set, set_wanted, unsignal}

pub wanted-fdevent_set :
    (p : ℕ) (events : Events) (s : Loop) → ((fdevent_set p events s).fde p).wanted ≡ events
unfolding fdevent_set set_wanted unsignal fdevent_update
wanted-fdevent_set p events s = ground (arith, (bits_eq_iff (s.fde p).wanted events).0)

pub fde-fdevent_set_ne :
    (p k : ℕ) (events : Events) (s : Loop)
    → (k == p) ≡ false
    → (fdevent_set p events s).fde k ≡ s.fde k
unfolding fdevent_set set_wanted unsignal fdevent_update
fde-fdevent_set_ne p k events s h = ground arith

pub closed-fdevent_set :
    (p : ℕ) (events : Events) (s : Loop) → (fdevent_set p events s).closed ≡ s.closed
unfolding fdevent_set set_wanted unsignal fdevent_update
closed-fdevent_set p events s = ground arith
