-- ===== src/Sockets/Smart/Serial.antt =====
-- adb/sockets.cpp: where the serial number in a request ends (skip_host_serial).
use adb_wide.Base.{
  ℕ, suc, ◌+◌, Bool, false, ◌&&◌, Option, none, some, List, [], ◌∷◌, ◌==◌, length, drop, leb,
  if◌then◌else◌,
}
use adb_wide.Sockets.Create.{starts_with, usb_prefix}
use adb_wide.Transport.Choice.{product_prefix, model_prefix, device_prefix}

abbrev pub prefixes : List (List ℕ)
prefixes = usb_prefix ∷ product_prefix ∷ model_prefix ∷ device_prefix ∷ []

abbrev pub shifted : ℕ → Option ℕ → Option ℕ
shifted n none = none
shifted n (some at) = some (n + at)

-- strchr(s, ':'), as the number of bytes before it.
unfoldable pub colon_at : List ℕ → Option ℕ
colon_at [] = none
colon_at (c ∷ s) = if c == b':' then some 0 else shifted 1 (colon_at s)

-- The length of the first prefix that the service starts with.
unfoldable pub first_prefix : List (List ℕ) → List ℕ → Option ℕ
unfolding starts_with
first_prefix [] service = none
first_prefix (p ∷ ps) service =
    if starts_with p service then some (length p) else first_prefix ps service

abbrev pub is_digit : ℕ → Bool
is_digit c = leb b'0' c && leb c b'9'

unfoldable pub digits : List ℕ → ℕ
digits [] = 0
digits (c ∷ s) = if is_digit c then suc (digits s) else 0

unfoldable pub is_at_colon : List ℕ → Bool
is_at_colon [] = false
is_at_colon (c ∷ s) = c == b':'

-- From the first colon: over the digits behind it, where they end at another colon.
unfoldable pub serial_end : ℕ → List ℕ → ℕ
unfolding digits is_at_colon
serial_end first_colon after =
    let n = digits after in
    if n == 0
    then first_colon
    else if is_at_colon (drop n after)
    then first_colon + 1 + n
    else first_colon

-- The offset of the byte behind the serial number, `none` for NULL.
unfoldable pub skip_host_serial : List ℕ → Option ℕ
unfolding colon_at first_prefix serial_end
skip_host_serial service = elim (first_prefix prefixes service) [
  | some len ↦ shifted len (colon_at (drop len service))
  | none ↦ elim (colon_at service) [
    | none ↦ none
    | some first_colon ↦ some (serial_end first_colon (drop (suc first_colon) service))
  ]
]
