-- ===== src/Fdevent/State.antt =====
-- adb/fdevent.h, adb/fdevent.c: an fdevent, and the variables of the event loop.
use adb_wide.Base.{ℕ, Bool, Option, List, update}
use adb_wide.Fdevent.Events.{Events}
use adb_wide.Fdevent.Plist.{Links}

-- `fd_func`: the handler of the shell-exit socket, or a function of a client of the loop.
pub data Func : Type 0 where
  subproc : Func
  client : ℕ → Func

-- `struct fdevent` without `next` and `prev`, which `Links` holds. Its word `state` is `wanted`, the
-- part under FDE_EVENTMASK, and the three flags of FDE_STATEMASK.
pub record Fde : Type 0 where
  pub fd : ℕ
  pub force_eof : Bool
  pub wanted : Events
  pub active : Bool
  pub pending : Bool
  pub created : Bool
  pub events : Events
  pub func : Func
  pub arg : ℕ

abbrev pub FdSet : Type 0
FdSet = ℕ → Bool

-- The memory that holds the fdevents, by address, and the static variables of fdevent.c. A null entry
-- of `fd_table` is `none`. `closed` records the calls of adb_close, the latest first.
pub record Loop : Type 0 where
  pub fde : ℕ → Fde
  pub links : Links
  pub fd_table : ℕ → Option ℕ
  pub fd_table_max : ℕ
  pub select_n : ℕ
  pub read_fds : FdSet
  pub write_fds : FdSet
  pub error_fds : FdSet
  pub closed : List ℕ

-- What a call comes to: it returns, or FATAL ends the process.
pub data Outcome {ℓ} (A : Type ℓ) : Type ℓ where
  ok : A → Outcome A
  abort : Outcome A

infixl 5 ◌>>=◌
abbrev pub ◌>>=◌ {ℓ κ} : {A : Type ℓ} {B : Type κ} → Outcome A → (A → Outcome B) → Outcome B
ok a >>= f = f a
abort >>= f = abort

abbrev pub put_fde : ℕ → Fde → Loop → Loop
put_fde p f s = record s { fde = update s.fde p f }
