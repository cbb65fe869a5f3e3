-- ===== src/Fdevent/Events.antt =====
-- adb/fdevent.h and adb/fdevent.c: sets of event bits, the low byte FDE_EVENTMASK of a state word.
-- A set is a record of the five bits that have a name.
use adb_wide.Base.{◌≡◌, ◌↔◌, Bool, true, false, not, ◌&&◌, ◌||◌, arith, if◌then◌else◌}

pub record Events : Type 0 where
  pub read : Bool
  pub write : Bool
  pub error : Bool
  pub timeout : Bool
  pub dont_close : Bool

abbrev pub no_events : Events
no_events = record {
  read = false;
  write = false;
  error = false;
  timeout = false;
  dont_close = false;
}

abbrev pub fde_read : Events
fde_read = record no_events { read = true }

abbrev pub fde_write : Events
fde_write = record no_events { write = true }

abbrev pub fde_dont_close : Events
fde_dont_close = record no_events { dont_close = true }

-- The C operators `|`, `&` and `~` on such words.
abbrev pub bits_or : Events → Events → Events
bits_or a b = record {
  read = a.read || b.read;
  write = a.write || b.write;
  error = a.error || b.error;
  timeout = a.timeout || b.timeout;
  dont_close = a.dont_close || b.dont_close;
}

abbrev pub bits_and : Events → Events → Events
bits_and a b = record {
  read = a.read && b.read;
  write = a.write && b.write;
  error = a.error && b.error;
  timeout = a.timeout && b.timeout;
  dont_close = a.dont_close && b.dont_close;
}

abbrev pub bits_not : Events → Events
bits_not a = record {
  read = not a.read;
  write = not a.write;
  error = not a.error;
  timeout = not a.timeout;
  dont_close = not a.dont_close;
}

same_bit : Bool → Bool → Bool
same_bit a b = if a then b else not b

-- The test `a == b` on two words.
unfoldable pub bits_eq : Events → Events → Bool
unfolding same_bit
bits_eq a b =
    same_bit a.read b.read
    && (same_bit a.write b.write
        && (same_bit a.error b.error
            && (same_bit a.timeout b.timeout && same_bit a.dont_close b.dont_close)))

pub bits_eq_iff : (a b : Events) → (bits_eq a b ≡ true) ↔ (a ≡ b)
unfolding bits_eq
bits_eq_iff a b = ground arith
