-- ===== src/Jdwp/Text.antt =====
-- adb/jdwp_service.c: jdwp_process_list and jdwp_process_list_msg, as texts.
pub mod Lines
use adb_wide.Base.{
  ℕ, zero, suc, ◌+◌, ◌-◌, ◌/◌, ◌%◌, List, [], ◌∷◌, ◌++◌, length, leb, ltb, ◌==◌, true, false,
  if◌then◌else◌,
}
use adb_wide.Base.Int.{ℤ, pos, negsuc}

-- The decimal digits of a number, before those in `acc`.
unfoldable pub decimal_from : ℕ → ℕ → List ℕ → List ℕ
decimal_from zero n acc = acc
decimal_from (suc fuel) n acc =
    let acc' = (b'0' + n % 10) ∷ acc in
    elim (n / 10 == 0) [ true ↦ acc' | false ↦ decimal_from fuel (n / 10) acc' ]

-- "%d\n", which is used of numbers that are not negative.
unfoldable pub line : ℕ → List ℕ
unfolding decimal_from
line n = decimal_from (suc n) n [] ++ b'\n' ∷ []

abbrev pub hex_digit : ℕ → ℕ
hex_digit d = if ltb d 10 then b'0' + d else b'a' + (d - 10)

-- "%04x" of a number below 65536.
abbrev pub hex4 : ℕ → List ℕ
hex4 n =
    hex_digit (n / 4096 % 16)
    ∷ hex_digit (n / 256 % 16)
    ∷ hex_digit (n / 16 % 16)
    ∷ hex_digit (n % 16)
    ∷ []

-- The loop of jdwp_process_list over the pids, with `room` bytes from p to end.
unfoldable pub list_from : ℕ → List ℤ → List ℕ
unfolding line
list_from room [] = []
list_from room (negsuc k ∷ pids) = list_from room pids
list_from room (pos n ∷ pids) =
    let rest = list_from (room - length (line n)) pids in
    if leb room (length (line n)) then [] else line n ++ rest

-- What jdwp_process_list writes to a buffer of `bufferlen` bytes, before the null.
unfoldable pub jdwp_process_list : ℕ → List ℤ → List ℕ
unfolding list_from
jdwp_process_list bufferlen pids = list_from bufferlen pids

unfoldable pub jdwp_process_list_msg : ℕ → List ℤ → List ℕ
unfolding jdwp_process_list
jdwp_process_list_msg bufferlen pids =
    let text = jdwp_process_list (bufferlen - 4) pids in hex4 (length text) ++ text
