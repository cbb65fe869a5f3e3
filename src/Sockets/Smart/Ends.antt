-- ===== src/Sockets/Smart/Ends.antt =====
-- adb/sockets.cpp: the serial numbers of a request and where skip_host_serial finds their end.
use adb_wide.Base.{
  ℕ, suc, ◌+◌, ◌≡◌, ◌≢◌, refl, ◌∙◌, Bool, true, false, not, ◌&&◌, ◌||◌, none, some, List, [], ◌∷◌,
  ◌++◌, ◌==◌, ap, arith, inl, inr, length, drop, contains, Bool-cases, length-append,
}
use adb_wide.Base.Lists.{same_text}
use adb_wide.Base.{map}
use mathlib.Core.List.{append_assoc}
use adb_wide.Transport.Choice.Match.{same_text_iff}
use adb_wide.Sockets.Create.{starts_with}
use adb_wide.Sockets.Smart.Serial.{
  prefixes, shifted, colon_at, first_prefix, is_digit, digits, is_at_colon, serial_end,
  skip_host_serial,
}

-- What a serial number can be: a word of `prefixes` with a name behind it, or a host, with a port or
-- without one.
pub data Serial : Type 0 where
  named : List ℕ → List ℕ → Serial
  host_only : List ℕ → Serial
  host_port : List ℕ → List ℕ → Serial

abbrev pub print : Serial → List ℕ
print (named word name) = word ++ (b':' ∷ name)
print (host_only host) = host
print (host_port host port) = host ++ (b':' ∷ port)

-- "usb", "product", "model", "device"
abbrev pub words : List (List ℕ)
words =
    (b'u' ∷ b's' ∷ b'b' ∷ [])
    ∷ (b'p' ∷ b'r' ∷ b'o' ∷ b'd' ∷ b'u' ∷ b'c' ∷ b't' ∷ [])
    ∷ (b'm' ∷ b'o' ∷ b'd' ∷ b'e' ∷ b'l' ∷ [])
    ∷ (b'd' ∷ b'e' ∷ b'v' ∷ b'i' ∷ b'c' ∷ b'e' ∷ [])
    ∷ []

unfoldable pub is_one_of : List (List ℕ) → List ℕ → Bool
unfolding same_text
is_one_of [] text = false
is_one_of (w ∷ ws) text = same_text w text || is_one_of ws text

abbrev pub all_digits : List ℕ → Bool
all_digits [] = true
all_digits (c ∷ cs) = is_digit c && all_digits cs

-- The texts that are a port and a colon with anything behind it.
abbrev pub begins_with_port : Bool → List ℕ → Bool
begins_with_port any [] = false
begins_with_port any (c ∷ cs) = (any && c == b':') || (is_digit c && begins_with_port true cs)

-- The parts have no colon, the word is one of those of the prefixes and a host is none of them, a
-- port is a number, and behind a host alone no port follows.
abbrev pub IsSerial : Serial → List ℕ → Type 0
IsSerial (named word name) service = (is_one_of words word ≡ true) × (contains b':' name ≡ false)
IsSerial (host_only host) service =
    (is_one_of words host ≡ false)
    × (contains b':' host ≡ false)
    × (begins_with_port false service ≡ false)
IsSerial (host_port host port) service =
    (is_one_of words host ≡ false)
    × (contains b':' host ≡ false)
    × (all_digits port ≡ true)
    × (port ≢ [])

colon_at-append :
    (xs ys : List ℕ) → contains b':' xs ≡ false → colon_at (xs ++ (b':' ∷ ys)) ≡ some (length xs)
unfolding colon_at
colon_at-append [] ys h = refl
colon_at-append (x ∷ xs) ys h = ground (arith, colon_at-append xs ys)

drop-length : (xs : List ℕ) (y : ℕ) (ys : List ℕ) → drop (suc (length xs)) (xs ++ (y ∷ ys)) ≡ ys
drop-length [] y ys = refl
drop-length (x ∷ xs) y ys = drop-length xs y ys

-- A prefix is a word and a colon.
starts_with-same_text :
    (w host rest : List ℕ)
    → contains b':' w ≡ false
    → contains b':' host ≡ false
    → starts_with (w ++ (b':' ∷ [])) (host ++ (b':' ∷ rest)) ≡ same_text w host
unfolding starts_with same_text
starts_with-same_text [] [] rest h k = refl
starts_with-same_text [] (y ∷ host) rest h k = ground arith
starts_with-same_text (x ∷ w) [] rest h k = ground arith
starts_with-same_text (x ∷ w) (y ∷ host) rest h k =
    ground (arith, starts_with-same_text w host rest)

abbrev with_colon : List ℕ → List ℕ
with_colon w = w ++ (b':' ∷ [])

abbrev no_colons : List (List ℕ) → Bool
no_colons [] = true
no_colons (w ∷ ws) = not (contains b':' w) && no_colons ws

first_prefix-none :
    (ws : List (List ℕ)) (host rest : List ℕ)
    → no_colons ws ≡ true
    → is_one_of ws host ≡ false
    → contains b':' host ≡ false
    → first_prefix (map with_colon ws) (host ++ (b':' ∷ rest)) ≡ none
unfolding first_prefix is_one_of
first_prefix-none [] host rest plain h k = refl
first_prefix-none (w ∷ ws) host rest plain h k =
    ground (arith, starts_with-same_text w host rest, first_prefix-none ws host rest)

first_prefix-some :
    (ws : List (List ℕ)) (word rest : List ℕ)
    → no_colons ws ≡ true
    → is_one_of ws word ≡ true
    → contains b':' word ≡ false
    → first_prefix (map with_colon ws) (word ++ (b':' ∷ rest)) ≡ some (length word + 1)
unfolding first_prefix is_one_of
first_prefix-some [] word rest plain h k = ground arith
first_prefix-some (w ∷ ws) word rest plain h k = elim (Bool-cases (same_text w word)) [
  | inl e ↦
      (let same = (same_text_iff w word).0 e in
        ground
          (arith, starts_with-same_text w word rest, length-append w (b':' ∷ []), ap length same))
  | inr e ↦ ground (arith, starts_with-same_text w word rest, first_prefix-some ws word rest)
]

digits-append :
    (port rest : List ℕ) → all_digits port ≡ true → digits (port ++ (b':' ∷ rest)) ≡ length port
unfolding digits
digits-append [] rest h = refl
digits-append (c ∷ port) rest h = ground (arith, digits-append port rest)

drop-length_here : (xs ys : List ℕ) → drop (length xs) (xs ++ ys) ≡ ys
drop-length_here [] ys = refl
drop-length_here (x ∷ xs) ys = drop-length_here xs ys

serial_end_port :
    (at : ℕ) (port rest : List ℕ)
    → all_digits port ≡ true
    → port ≢ []
    → serial_end at (port ++ (b':' ∷ rest)) ≡ at + 1 + length port
unfolding serial_end is_at_colon
serial_end_port at [] rest h k = absurd (k refl)
serial_end_port at (c ∷ port) rest h k =
    rw (digits-append (c ∷ port) rest h, drop-length_here (c ∷ port) (b':' ∷ rest)) (ground arith)

begins_with_port-digits :
    (any : Bool) (rest : List ℕ)
    → begins_with_port any rest
      ≡ (not (digits rest == 0) || any) && is_at_colon (drop (digits rest) rest)
unfolding digits is_at_colon
begins_with_port-digits any [] = ground arith
begins_with_port-digits any (c ∷ rest) = ground (arith, begins_with_port-digits true rest)

serial_end_host :
    (at : ℕ) (rest : List ℕ) → begins_with_port false rest ≡ false → serial_end at rest ≡ at
unfolding serial_end
serial_end_host at rest h = ground (arith, begins_with_port-digits false rest)

is_one_of-plain :
    (ws : List (List ℕ)) (word : List ℕ)
    → no_colons ws ≡ true
    → is_one_of ws word ≡ true
    → contains b':' word ≡ false
unfolding is_one_of
is_one_of-plain [] word plain h = ground arith
is_one_of-plain (w ∷ ws) word plain h = elim (Bool-cases (same_text w word)) [
  | inl e ↦ (let same = (same_text_iff w word).0 e in ground (arith, ap (contains b':') same))
  | inr e ↦ is_one_of-plain ws word (ground (arith, plain)) (ground (arith, h, e))
]

skip_named :
    (len : ℕ) (service : List ℕ)
    → first_prefix prefixes service ≡ some len
    → skip_host_serial service ≡ shifted len (colon_at (drop len service))
unfolding skip_host_serial
skip_named len service h = rw (skip_host_serial, h) refl

skip_host :
    (first_colon : ℕ) (service : List ℕ)
    → first_prefix prefixes service ≡ none
    → colon_at service ≡ some first_colon
    → skip_host_serial service ≡ some (serial_end first_colon (drop (suc first_colon) service))
unfolding skip_host_serial
skip_host first_colon service h k = rw (skip_host_serial, h, k) refl

skip_host_serial-host :
    (host rest : List ℕ)
    → is_one_of words host ≡ false
    → contains b':' host ≡ false
    → skip_host_serial (host ++ (b':' ∷ rest)) ≡ some (serial_end (length host) rest)
skip_host_serial-host host rest free plain =
    skip_host (length host) (host ++ (b':' ∷ rest))
      (first_prefix-none words host rest refl free plain) (colon_at-append host rest plain)
    ∙ ap (λ after. some (serial_end (length host) after)) (drop-length host b':' rest)

skip_host_serial-named :
    (word rest : List ℕ)
    → is_one_of words word ≡ true
    → skip_host_serial (word ++ (b':' ∷ rest)) ≡ shifted (length word + 1) (colon_at rest)
skip_host_serial-named word rest known =
    skip_named (length word + 1) (word ++ (b':' ∷ rest))
      (first_prefix-some words word rest refl known (is_one_of-plain words word refl known))
    ∙ ap (λ after. shifted (length word + 1) (colon_at after))
        (ap (λ n. drop n (word ++ (b':' ∷ rest))) {y = suc (length word)} (omega arith)
          ∙ drop-length word b':' rest)

-- skip_host_serial gives the place of the colon between the serial number and the service behind it,
-- where the serial number is one of these: a word of `prefixes` and a name without a colon; a host that
-- has no colon and is none of those words, with the service not beginning with digits and a colon; or such
-- a host and a port of one or more digits.
pub skip_host_serial-print :
    (s : Serial) (service : List ℕ)
    → IsSerial s service
    → skip_host_serial (print s ++ (b':' ∷ service)) ≡ some (length (print s))
skip_host_serial-print (named word name) service (known, plain) =
    ap skip_host_serial (append_assoc word (b':' ∷ name) (b':' ∷ service))
    ∙ skip_host_serial-named word (name ++ (b':' ∷ service)) known
    ∙ ap (shifted (length word + 1)) (colon_at-append name service plain)
    ∙ ap some (omega (arith, length-append word (b':' ∷ name)))
skip_host_serial-print (host_only host) service (free, plain, no_port) =
    skip_host_serial-host host service free plain
    ∙ ap some (serial_end_host (length host) service no_port)
skip_host_serial-print (host_port host port) service (free, plain, number, some_port) =
    ap skip_host_serial (append_assoc host (b':' ∷ port) (b':' ∷ service))
    ∙ skip_host_serial-host host (port ++ (b':' ∷ service)) free plain
    ∙ ap some (serial_end_port (length host) port service number some_port)
    ∙ ap some (omega (arith, length-append host (b':' ∷ port)))
