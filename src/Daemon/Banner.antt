-- ===== src/Daemon/Banner.antt =====
-- adb/adb.cpp: the banner that a device sends and what parse_banner reads from it beside the state
-- (fill_connect_data, qual_overwrite, parse_banner).
pub mod RoundTrip
use adb_wide.Base.{
  ℕ, ◌+◌, ◌-◌, Option, none, some, List, [], ◌∷◌, ◌++◌, ◌==◌, take, length, if◌then◌else◌,
}
use adb_wide.Base.Lists.{same_text}
use adb_wide.Daemon.Auth.{c_string}
use adb_wide.Transport.Choice.{Choosable}

-- "ro.product.name", "ro.product.model" and "ro.product.device"
abbrev pub ro_product : List ℕ → List ℕ
ro_product word = b'r' ∷ b'o' ∷ b'.' ∷ b'p' ∷ b'r' ∷ b'o' ∷ b'd' ∷ b'u' ∷ b'c' ∷ b't' ∷ b'.' ∷ word

abbrev pub product_name : List ℕ
product_name = ro_product (b'n' ∷ b'a' ∷ b'm' ∷ b'e' ∷ [])

abbrev pub product_model : List ℕ
product_model = ro_product (b'm' ∷ b'o' ∷ b'd' ∷ b'e' ∷ b'l' ∷ [])

abbrev pub product_device : List ℕ
product_device = ro_product (b'd' ∷ b'e' ∷ b'v' ∷ b'i' ∷ b'c' ∷ b'e' ∷ [])

-- One call of snprintf, with the room that is left and the text so far: it writes a byte less than there
-- is room for and returns the whole length, which is taken from the room. Where that is more than the
-- room, the code wraps around and this stops at 0.
unfoldable pub snprintf : List ℕ → ℕ × List ℕ → ℕ × List ℕ
snprintf text (remaining, buf) = (remaining - length text, buf ++ take (remaining - 1) text)

abbrev pub head_text : List ℕ → List ℕ
head_text banner = banner ++ (b':' ∷ b':' ∷ [])

abbrev pub prop_text : List ℕ → List ℕ → List ℕ
prop_text key value = key ++ (b'=' ∷ (value ++ (b';' ∷ [])))

-- The bytes of the banner, with the null of the last snprintf.
unfoldable pub fill_connect_data : ℕ → List ℕ → (List ℕ → List ℕ) → List ℕ
unfolding snprintf
fill_connect_data bufsize adb_device_banner property_get =
    let s0 = snprintf (head_text adb_device_banner) (bufsize, []) in
    let s1 = snprintf (prop_text product_name (property_get product_name)) s0 in
    let s2 = snprintf (prop_text product_model (property_get product_model)) s1 in
    let s3 = snprintf (prop_text product_device (property_get product_device)) s2 in
    s3.1 ++ (0 ∷ [])

-- What stands behind the first c, `none` where there is none.
unfoldable pub behind : ℕ → List ℕ → Option (List ℕ)
behind c [] = none
behind c (x ∷ s) = if x == c then some s else behind c s

unfoldable pub before : ℕ → List ℕ → List ℕ
before c [] = []
before c (x ∷ s) = if x == c then [] else x ∷ before c s

abbrev pub put_token : List ℕ → List (List ℕ) → List (List ℕ)
put_token [] tokens = tokens
put_token (c ∷ cs) tokens = (c ∷ cs) ∷ tokens

-- The tokens that strtok_r gives for ";", with the start of the one that is being read.
unfoldable pub tokens_from : List ℕ → List ℕ → List (List ℕ)
tokens_from token [] = put_token token []
tokens_from token (c ∷ s) =
    if c == b';' then put_token token (tokens_from [] s) else tokens_from (token ++ (c ∷ [])) s

-- The new value of a qualifier.
abbrev pub qual_overwrite : List ℕ → Option (List ℕ)
qual_overwrite [] = none
qual_overwrite (c ∷ cs) = some (c ∷ cs)

unfoldable pub set_qualifier : List ℕ → Choosable → Choosable
unfolding behind before same_text
set_qualifier token t = elim (behind b'=' token) [
  | none ↦ t
  | some value ↦
      (let key = before b'=' token in
        if same_text key product_name
        then record t { product = qual_overwrite value }
        else if same_text key product_model
        then record t { model = qual_overwrite value }
        else if same_text key product_device
        then record t { device = qual_overwrite value }
        else t)
]

unfoldable pub set_qualifiers : List (List ℕ) → Choosable → Choosable
unfolding set_qualifier
set_qualifiers [] t = t
set_qualifiers (token ∷ tokens) t = set_qualifiers tokens (set_qualifier token t)

-- parse_banner but for the connection state.
unfoldable pub parse_qualifiers : List ℕ → Choosable → Choosable
unfolding c_string behind tokens_from set_qualifiers
parse_qualifiers banner t = elim (behind b':' (c_string banner)) [
  | none ↦ t
  | some second ↦ elim (behind b':' second) [
    | none ↦ t
    | some third ↦ set_qualifiers (tokens_from [] third) t
  ]
]
