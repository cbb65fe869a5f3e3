-- ===== src/Jdwp/Connect.antt =====
-- adb/jdwp_service.c: create_jdwp_connection_fd and jdwp_control_event.
pub mod Queue
pub mod Passing
use adb_wide.Base.{
  ℕ, suc, ◌+◌, Bool, true, false, Option, none, some, List, [], ◌∷◌, leb, ◌==◌, if◌then◌else◌,
  update,
}
use adb_wide.Base.Int.{ℤ, pos, negsuc}
use adb_wide.Fdevent.Events.{Events, fde_read, fde_write}
use adb_wide.Fdevent.State.{client, Outcome, ok, abort, ◌>>=◌}
use adb_wide.Fdevent.Table.{Memory}
use adb_wide.Fdevent.Api.{fdevent_create, fdevent_add}
use adb_wide.Jdwp.State.{Proc, Jdwp, max_out_fds, put_proc, put_loop, adb_close}
use adb_wide.Jdwp.Process.{jdwp_process_alloc}

abbrev pub same_pid : ℤ → ℤ → Bool
same_pid (pos m) (pos n) = m == n
same_pid (negsuc m) (negsuc n) = m == n
same_pid _ _ = false

-- The first process of the list with this pid.
unfoldable pub find_pid : ℤ → (ℕ → Proc) → List ℕ → Option ℕ
find_pid pid proc [] = none
find_pid pid proc (p ∷ ps) = if same_pid (proc p).pid pid then some p else find_pid pid proc ps

-- From FoundIt on. `pair` is what socketpair gives, if it succeeds; the result is the near end, if any.
unfoldable pub connect_to : Option (ℕ × ℕ) → ℕ → Jdwp → Option ℕ × Jdwp
connect_to none p s = (none, s)
connect_to (some fds) p s =
    let f = s.proc p in
    let f' = record f {
      out_fds = update f.out_fds f.out_count fds.1;
      out_count = f.out_count + 1;
    } in
    let s1 = put_proc p f' s in
    if leb max_out_fds f.out_count
    then (none, s)
    else if f.out_count + 1 == 1
    then (some fds.0, put_loop (fdevent_add f.fde fde_write s1.loop) s1)
    else (some fds.0, s1)

unfoldable pub create_jdwp_connection_fd : ℤ → Option (ℕ × ℕ) → Jdwp → Option ℕ × Jdwp
unfolding find_pid connect_to
create_jdwp_connection_fd pid pair s = elim (find_pid pid s.proc s.list) [
  | none ↦ (none, s)
  | some p ↦ connect_to pair p s
]

-- What accept gives, one after another: a descriptor, EINTR, or another error.
pub data Accepted : Type 0 where
  accepted : ℕ → Accepted
  retry refused : Accepted

-- do ... while (s < 0); the end of the list stands for an error.
unfoldable pub accept_loop : List Accepted → Option ℕ
accept_loop [] = none
accept_loop (accepted fd ∷ rs) = some fd
accept_loop (retry ∷ rs) = accept_loop rs
accept_loop (refused ∷ rs) = none

unfoldable pub control_accept : Memory → Option ℕ → Option ℕ → Option ℕ → Jdwp → Outcome Jdwp
control_accept m p address none s = ok s
control_accept m p address (some fd) s = jdwp_process_alloc m p address fd s >>= λ made. ok made.1

unfoldable pub jdwp_control_event :
    Memory → Option ℕ → Option ℕ → List Accepted → Events → Jdwp → Outcome Jdwp
unfolding accept_loop control_accept
jdwp_control_event m p address rs events s =
    if events.read then control_accept m p address (accept_loop rs) s else ok s

-- What the calls of jdwp_control_init give: socket(), and whether bind and listen succeed.
pub record Listening : Type 0 where
  pub socket : Option ℕ
  pub bound : Bool
  pub listens : Bool

-- JDWP_CONTROL_NAME_LEN, with the null in front, and sizeof sun_path.
abbrev pub control_name_len : ℕ
control_name_len = 13

abbrev pub max_path : ℕ
max_path = 108

unfoldable pub listen_on : Memory → Option ℕ → Listening → ℕ → Jdwp → Outcome (Bool × Jdwp)
listen_on m address l fd s =
    if l.bound
    then (if l.listens
        then (fdevent_create m address (pos fd) (client 2) 0 s.loop >>= λ made. ok (elim made.0 [
          | none ↦ (false, adb_close fd (put_loop made.1 s))
          | some f ↦ (true, put_loop (fdevent_add f fde_read made.1) s)
        ]))
        else ok (false, adb_close fd s))
    else ok (false, adb_close fd s)

-- True if it returns 0.
unfoldable pub jdwp_control_init : Memory → Option ℕ → Listening → ℕ → Jdwp → Outcome (Bool × Jdwp)
unfolding listen_on
jdwp_control_init m address l socknamelen s =
    if leb max_path socknamelen
    then ok (false, s)
    else (elim l.socket [ none ↦ ok (false, s) | some fd ↦ listen_on m address l fd s ])

unfoldable pub init_jdwp : Memory → Option ℕ → Listening → Jdwp → Outcome (Bool × Jdwp)
unfolding jdwp_control_init
init_jdwp m address l s =
    jdwp_control_init m address l control_name_len (record s { list = []; trackers = [] })
