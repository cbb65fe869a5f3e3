-- ===== src/Fdevent/Api.antt =====
-- adb/fdevent.c: the calls that clients make of the event loop.
use adb_wide.Base.{ℕ, true, false, Option, none, some, if◌then◌else◌}
use adb_wide.Base.Int.{ℤ, pos, negsuc}
use adb_wide.Fdevent.Events.{Events, no_events, bits_or, bits_and, bits_not, bits_eq}
use adb_wide.Fdevent.Plist.{null, set_next, set_prev, plist_remove}
use adb_wide.Fdevent.State.{Func, Fde, Loop, Outcome, ok, abort, ◌>>=◌, put_fde}
use adb_wide.Fdevent.Select.{fdevent_connect, fdevent_disconnect, fdevent_update}
use adb_wide.Fdevent.Table.{Memory, fdevent_register, fdevent_unregister}

-- A negative descriptor ends the process in fdevent_register, before the field is used.
unfoldable pub fdevent_install : Memory → ℕ → ℤ → Func → ℕ → Loop → Outcome Loop
fdevent_install m p (negsuc k) func arg s = abort
fdevent_install m p (pos fd) func arg s =
    let f : Fde = record {
      fd = fd;
      force_eof = false;
      wanted = no_events;
      active = true;
      pending = false;
      created = false;
      events = no_events;
      func = func;
      arg = arg;
    } in
    let links = set_prev p null (set_next p null s.links) in
    fdevent_register m p (put_fde p f (record s { links = links })) >>= λ s'.
    ok (fdevent_connect p s')

-- `address` is what malloc returns, `none` for no memory; the result is the new fdevent, if any.
unfoldable pub fdevent_create : Memory → Option ℕ → ℤ → Func → ℕ → Loop → Outcome (Option ℕ × Loop)
unfolding fdevent_install
fdevent_create m none fd func arg s = ok (none, s)
fdevent_create m (some p) fd func arg s = fdevent_install m p fd func arg s >>= λ s'.
    ok (some p, put_fde p (record (s'.fde p) { created = true }) s')

unfoldable pub fdevent_remove : ℕ → Loop → Outcome Loop
fdevent_remove p s =
    let s1 = if (s.fde p).pending then record s { links = plist_remove p s.links } else s in
    (if (s.fde p).active then fdevent_unregister p (fdevent_disconnect p s1) else ok s1) >>= λ s2.
    ok (
      put_fde p
        (record (s2.fde p) {
          wanted = no_events;
          active = false;
          pending = false;
          created = false;
          events = no_events;
        })
        s2)

unfoldable pub fdevent_destroy : Option ℕ → Loop → Outcome Loop
unfolding fdevent_remove
fdevent_destroy none s = ok s
fdevent_destroy (some p) s = if (s.fde p).created then fdevent_remove p s else abort

-- What fdevent_set does to an fdevent that waits for its callback.
unfoldable pub unsignal : ℕ → Events → Loop → Loop
unsignal p events s =
    let f = record (s.fde p) { events = bits_and (s.fde p).events (bits_not events) } in
    if bits_eq f.events no_events
    then put_fde p (record f { pending = false }) (record s { links = plist_remove p s.links })
    else put_fde p f s

-- The part of fdevent_set that records the new events.
unfoldable pub set_wanted : ℕ → Events → Loop → Loop
set_wanted p events s =
    let s1 = if (s.fde p).active then fdevent_update p events s else s in
    put_fde p (record (s1.fde p) { wanted = events }) s1

-- The argument is the C argument under FDE_EVENTMASK.
unfoldable pub fdevent_set : ℕ → Events → Loop → Loop
fdevent_set p events s =
    let s' = set_wanted p events s in
    if bits_eq (s.fde p).wanted events
    then s
    else if (s'.fde p).pending
    then unsignal p events s'
    else s'

unfoldable pub fdevent_add : ℕ → Events → Loop → Loop
fdevent_add p events s = fdevent_set p (bits_or (s.fde p).wanted events) s

unfoldable pub fdevent_del : ℕ → Events → Loop → Loop
fdevent_del p events s = fdevent_set p (bits_and (s.fde p).wanted (bits_not events)) s
