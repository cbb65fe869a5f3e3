-- ===== src/Jdwp/Text/Lines.antt =====
-- adb/jdwp_service.c: the printed list of processes fits its buffer, and its head gives its length.
use mathlib.Core.List.{append_assoc}
use adb_wide.Base.{
  ◌+◌, zero, ◌*◌, ◌/◌, ◌%◌, ◌∙◌, Bool, true, false, ◌&&◌, ◌==◌, subst, sym, ℕ, suc, ◌-◌, ◌≤◌, ◌<◌,
  ◌≡◌, refl, ap, List, [], ◌∷◌, ◌++◌, length, take, drop, length-append, arith, leb, Bool-cases,
  inl, inr,
}
use adb_wide.Base.Int.{ℤ, pos, negsuc}
use adb_wide.Jdwp.Text.{decimal_from, line, list_from, jdwp_process_list, jdwp_process_list_msg}
use adb_wide.Sockets.Smart.{unhex}
use adb_wide.Sockets.Smart.Unhex.{unhex-hex4}

-- The lines of all the pids that are known.
abbrev pub lines : List ℤ → List ℕ
lines [] = []
lines (negsuc k ∷ pids) = lines pids
lines (pos n ∷ pids) = line n ++ lines pids

list_from_fits : (room : ℕ) (pids : List ℤ) → 0 < room → length (list_from room pids) < room
unfolding list_from
list_from_fits room [] h = h
list_from_fits room (negsuc k ∷ pids) h = list_from_fits room pids h
list_from_fits room (pos n ∷ pids) h =
    let size = length (line n) in
    ground (
      arith,
      list_from_fits (room - size) pids,
      length-append (line n) (list_from (room - size) pids),
    )

list_from_all :
    (room : ℕ) (pids : List ℤ) → length (lines pids) < room → list_from room pids ≡ lines pids
unfolding list_from
list_from_all room [] h = refl
list_from_all room (negsuc k ∷ pids) h = list_from_all room pids h
list_from_all room (pos n ∷ pids) h =
    let size = length (line n) in
    ground (arith, list_from_all (room - size) pids, length-append (line n) (lines pids))

list_from_first : (room : ℕ) (pids : List ℤ) → (k : ℕ) × (list_from room pids ≡ lines (take k pids))
unfolding list_from
list_from_first room [] = (0, refl)
list_from_first room (negsuc j ∷ pids) = let (k, e) = list_from_first room pids in (suc k, e)
list_from_first room (pos n ∷ pids) = elim (Bool-cases (leb room (length (line n)))) [
  | inl full ↦ (0, rw full)
  | inr fits ↦
      (let (k, e) = list_from_first (room - length (line n)) pids in
        (suc k, rw fits (ap (λ t. line n ++ t) e)))
]

abbrev pub is_decimal_digit : ℕ → Bool
is_decimal_digit c = leb b'0' c && leb c b'9'

abbrev pub all_decimal : List ℕ → Bool
all_decimal [] = true
all_decimal (c ∷ cs) = is_decimal_digit c && all_decimal cs

-- The number that decimal digits spell behind those of `acc`.
abbrev pub value : ℕ → List ℕ → ℕ
value acc [] = acc
value acc (c ∷ cs) = value (acc * 10 + (c - b'0')) cs

abbrev pub begins_with_0 : List ℕ → Bool
begins_with_0 [] = false
begins_with_0 (c ∷ cs) = c == b'0'

-- The digits spell the number, without a 0 before others.
abbrev pub IsDecimal : ℕ → List ℕ → Type 0
IsDecimal n digits =
    (all_decimal digits ≡ true) × (value 0 digits ≡ n) × (begins_with_0 digits ≡ (n == 0))

-- The text has a line for each of the pids that is known: its digits and a line feed.
unfoldable pub IsListing : List ℤ → List ℕ → Type 0
IsListing [] text = text ≡ []
IsListing (negsuc k ∷ pids) text = IsListing pids text
IsListing (pos n ∷ pids) text =
    (digits : List ℕ) × (rest : List ℕ) × IsDecimal n digits
    × (text ≡ digits ++ (b'\n' ∷ rest))
    × IsListing pids rest

decimal_from-all_decimal :
    (fuel n : ℕ) (acc : List ℕ)
    → all_decimal acc ≡ true
    → all_decimal (decimal_from fuel n acc) ≡ true
unfolding decimal_from
decimal_from-all_decimal zero n acc h = h
decimal_from-all_decimal (suc fuel) n acc h =
    ground (arith, decimal_from-all_decimal fuel (n / 10) ((b'0' + n % 10) ∷ acc))

value_last : (n : ℕ) → (n / 10 == 0) ≡ true → 0 * 10 + (b'0' + n % 10 - b'0') ≡ n
value_last n h = ground (arith, h)

decimal_last :
    (fuel n : ℕ) (acc : List ℕ)
    → (n / 10 == 0) ≡ true
    → decimal_from (suc fuel) n acc ≡ (b'0' + n % 10) ∷ acc
unfolding decimal_from
decimal_last fuel n acc h = rw (decimal_from, h) refl

decimal_more :
    (fuel n : ℕ) (acc : List ℕ)
    → (n / 10 == 0) ≡ false
    → decimal_from (suc fuel) n acc ≡ decimal_from fuel (n / 10) ((b'0' + n % 10) ∷ acc)
unfolding decimal_from
decimal_more fuel n acc h = rw (decimal_from, h) refl

decimal_from-value :
    (fuel n : ℕ) (acc : List ℕ) → n ≤ fuel → value 0 (decimal_from (suc fuel) n acc) ≡ value n acc
decimal_from-value zero n acc h =
    let last : (n / 10 == 0) ≡ true = ground (arith, h) in
    ap (value 0) (decimal_last 0 n acc last) ∙ ap (λ k. value k acc) (value_last n last)
decimal_from-value (suc fuel) n acc h = elim (Bool-cases (n / 10 == 0)) [
  | inl last ↦
      ap (value 0) (decimal_last (suc fuel) n acc last) ∙ ap (λ k. value k acc) (value_last n last)
  | inr more ↦
      (let e : n / 10 * 10 + (b'0' + n % 10 - b'0') ≡ n = omega arith in
        ap (value 0) (decimal_more (suc fuel) n acc more)
        ∙ decimal_from-value fuel (n / 10) ((b'0' + n % 10) ∷ acc) (ground (arith, more, h))
        ∙ ap (λ k. value k acc) e)
]

decimal_from-begins_with_0 :
    (fuel n : ℕ) (acc : List ℕ)
    → n ≤ fuel
    → begins_with_0 (decimal_from (suc fuel) n acc) ≡ (n == 0)
decimal_from-begins_with_0 zero n acc h =
    let last : (n / 10 == 0) ≡ true = ground (arith, h) in
    ap begins_with_0 (decimal_last 0 n acc last) ∙ ground (arith, last)
decimal_from-begins_with_0 (suc fuel) n acc h = elim (Bool-cases (n / 10 == 0)) [
  | inl last ↦ ap begins_with_0 (decimal_last (suc fuel) n acc last) ∙ ground (arith, last)
  | inr more ↦
      ap begins_with_0 (decimal_more (suc fuel) n acc more)
      ∙ decimal_from-begins_with_0 fuel (n / 10) ((b'0' + n % 10) ∷ acc) (ground (arith, more, h))
      ∙ ground (arith, more)
]

lines-IsListing : (pids : List ℤ) → IsListing pids (lines pids)
unfolding IsListing line
lines-IsListing [] = refl
lines-IsListing (negsuc k ∷ pids) = lines-IsListing pids
lines-IsListing (pos n ∷ pids) =
    let digits = decimal_from (suc n) n [] in
    (
      digits,
      lines pids,
      (
        decimal_from-all_decimal (suc n) n [] refl,
        decimal_from-value n n [] (omega arith),
        decimal_from-begins_with_0 n n [] (omega arith),
      ),
      append_assoc digits (b'\n' ∷ []) (lines pids),
      lines-IsListing pids,
    )

-- jdwp_process_list leaves room for the null in its buffer; it prints the pids of the first
-- processes that have one, and those of all, where they fit, each as its decimal digits, without a 0
-- before others, and a line feed.
pub jdwp_process_list_lem :
    (bufferlen : ℕ) (pids : List ℤ)
    → 0 < bufferlen
    → (length (jdwp_process_list bufferlen pids) < bufferlen)
      × ((k : ℕ) × (jdwp_process_list bufferlen pids ≡ lines (take k pids))
          × IsListing (take k pids) (jdwp_process_list bufferlen pids))
      × (length (lines pids) < bufferlen → jdwp_process_list bufferlen pids ≡ lines pids)
      × IsListing pids (lines pids)
unfolding jdwp_process_list
jdwp_process_list_lem bufferlen pids h =
    let (k, e) = list_from_first bufferlen pids in
    (
      list_from_fits bufferlen pids h,
      (k, e, subst (IsListing (take k pids)) (sym e) (lines-IsListing (take k pids))),
      list_from_all bufferlen pids,
      lines-IsListing pids,
    )

-- A message of jdwp_process_list_msg in a buffer of five to 65536 bytes fits it, and unhex reads the
-- length of the text that follows from its first four bytes.
pub jdwp_process_list_msg-unhex :
    (bufferlen : ℕ) (pids : List ℤ)
    → 4 < bufferlen
    → bufferlen ≤ 65536
    → let msg = jdwp_process_list_msg bufferlen pids in
      (length msg < bufferlen)
      × (unhex msg 4 ≡ length (drop 4 msg))
      × (drop 4 msg ≡ jdwp_process_list (bufferlen - 4) pids)
unfolding jdwp_process_list_msg
jdwp_process_list_msg-unhex bufferlen pids h k =
    let text = jdwp_process_list (bufferlen - 4) pids in
    let fits : length text < bufferlen - 4 =
      unfold jdwp_process_list in list_from_fits (bufferlen - 4) pids (omega arith) in
    (omega arith, unhex-hex4 (length text) text (omega arith), refl)
