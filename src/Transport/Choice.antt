-- ===== src/Transport/Choice.antt =====
-- adb/transport.cpp: the choice of the transport for a client (qual_match, acquire_one_transport).
pub mod Match
pub mod Only
use adb_wide.Base.Lists.{same_text}
use adb_wide.Base.{
  ℕ, Bool, true, false, not, ◌&&◌, ◌||◌, Option, none, some, List, [], ◌∷◌, leb, ◌==◌,
  if◌then◌else◌,
}

-- Of connection_state, the values that the choice looks for by name. A caller's CS_ANY is `none`.
abbrev pub cs_offline : ℕ
cs_offline = 0

abbrev pub cs_noperm : ℕ
cs_noperm = 5

abbrev pub cs_unauthorized : ℕ
cs_unauthorized = 7

pub data TransportType : Type 0 where
  usb local any_type host_type : TransportType

-- The part of `atransport` that the choice reads, with the transport's address. A text is its bytes
-- before the null, a null pointer `none`.
pub record Choosable : Type 0 where
  pub address : ℕ
  pub connection_state : ℕ
  pub type_of : TransportType
  pub serial : Option (List ℕ)
  pub product : Option (List ℕ)
  pub model : Option (List ℕ)
  pub device : Option (List ℕ)
  pub devpath : Option (List ℕ)

-- What a client asks for.
pub record Query : Type 0 where
  pub state : Option ℕ
  pub ttype : TransportType
  pub wanted_serial : Option (List ℕ)

unfoldable pub qual_char_is_invalid : ℕ → Bool
qual_char_is_invalid ch =
    if leb b'A' ch && leb ch b'Z'
    then false
    else if leb b'a' ch && leb ch b'z'
    then false
    else if leb b'0' ch && leb ch b'9'
    then false
    else true

unfoldable pub sanitized : Bool → ℕ → ℕ
unfolding qual_char_is_invalid
sanitized sanitize_qual ch = if sanitize_qual && qual_char_is_invalid ch then b'_' else ch

-- The loop over the qualifier, which ends at the first byte that differs.
unfoldable pub match_rest : Bool → List ℕ → List ℕ → Bool
unfolding sanitized
match_rest sanitize_qual [] [] = true
match_rest sanitize_qual (c ∷ to_test) [] = false
match_rest sanitize_qual [] (ch ∷ qual) = false
match_rest sanitize_qual (c ∷ to_test) (ch ∷ qual) =
    sanitized sanitize_qual ch == c && match_rest sanitize_qual to_test qual

-- The loop over the prefix, then that over the qualifier.
unfoldable pub match_from : Bool → List ℕ → List ℕ → List ℕ → Bool
unfolding match_rest
match_from sanitize_qual to_test [] qual = match_rest sanitize_qual to_test qual
match_from sanitize_qual [] (p ∷ prefix) qual = false
match_from sanitize_qual (c ∷ to_test) (p ∷ prefix) qual =
    p == c && match_from sanitize_qual to_test prefix qual

abbrev pub is_null_text : Option (List ℕ) → Bool
is_null_text none = true
is_null_text (some []) = true
is_null_text (some (c ∷ cs)) = false

unfoldable pub qual_match : List ℕ → List ℕ → Option (List ℕ) → Bool → Bool
unfolding match_from
qual_match [] prefix qual sanitize_qual = is_null_text qual
qual_match (c ∷ to_test) prefix none sanitize_qual = false
qual_match (c ∷ to_test) prefix (some qual) sanitize_qual =
    match_from sanitize_qual (c ∷ to_test) prefix qual

-- "product:", "model:" and "device:"
abbrev pub product_prefix : List ℕ
product_prefix = b'p' ∷ b'r' ∷ b'o' ∷ b'd' ∷ b'u' ∷ b'c' ∷ b't' ∷ b':' ∷ []

abbrev pub model_prefix : List ℕ
model_prefix = b'm' ∷ b'o' ∷ b'd' ∷ b'e' ∷ b'l' ∷ b':' ∷ []

abbrev pub device_prefix : List ℕ
device_prefix = b'd' ∷ b'e' ∷ b'v' ∷ b'i' ∷ b'c' ∷ b'e' ∷ b':' ∷ []

unfoldable pub is_text : Option (List ℕ) → List ℕ → Bool
unfolding same_text
is_text none text = false
is_text (some own) text = same_text text own

unfoldable pub goes_by : List ℕ → Choosable → Bool
unfolding is_text qual_match
goes_by text t =
    is_text t.serial text
    || is_text t.devpath text
    || qual_match text product_prefix t.product false
    || qual_match text model_prefix t.model true
    || qual_match text device_prefix t.device false

unfoldable pub has_type : TransportType → TransportType → Bool
has_type usb usb = true
has_type usb _ = false
has_type local local = true
has_type local _ = false
has_type any_type _ = true
has_type host_type _ = false

-- Whether the loop takes the transport, where its connection state does not stop that.
unfoldable pub fits_query : Query → Choosable → Bool
unfolding goes_by has_type
fits_query q t = elim q.wanted_serial [
  | none ↦ has_type q.ttype t.type_of
  | some text ↦ goes_by text t
]

-- The texts that error_out gets.
pub data Fault : Type 0 where
  device_not_found insufficient_permissions : Fault
  more_than_one_device more_than_one_emulator more_than_one_device_and_emulator : Fault
  device_unauthorized device_offline invalid_device_state : Fault

unfoldable pub more_than_one : Query → Fault
more_than_one q = elim q.wanted_serial [
  | some text ↦ more_than_one_device
  | none ↦ elim q.ttype [
    | usb ↦ more_than_one_device
    | local ↦ more_than_one_emulator
    | any_type ↦ more_than_one_device_and_emulator
    | host_type ↦ more_than_one_device_and_emulator
  ]
]

-- The variables of the loop over transport_list.
pub record Found : Type 0 where
  pub result : Option Choosable
  pub ambiguous : Bool
  pub error : Fault

-- The loop goes on, or breaks.
pub data Step : Type 0 where
  go_on stop : Found → Step

unfoldable pub look_at : Query → Choosable → Found → Step
unfolding fits_query more_than_one
look_at q t r =
    if t.connection_state == cs_noperm
    then go_on (record r { error = insufficient_permissions })
    else if fits_query q t
    then elim r.result [
      | some first ↦ stop (record { result = none; ambiguous = true; error = more_than_one q })
      | none ↦ go_on (record r { result = some t })
    ]
    else go_on r

unfoldable pub look : Query → List Choosable → Found → Found
unfolding look_at
look q [] r = r
look q (t ∷ ts) r = elim (look_at q t r) [ go_on r' ↦ look q ts r' | stop r' ↦ r' ]

abbrev pub not_found : Found
not_found = record { result = none; ambiguous = false; error = device_not_found }

-- The result, or what error_out tells.
pub data Choice : Type 0 where
  chosen : Choosable → Choice
  refused : Fault → Choice

-- The tests of the transport that the loop leaves.
unfoldable pub check_state : Query → Choosable → Choice
check_state q t =
    if t.connection_state == cs_unauthorized
    then refused device_unauthorized
    else if t.connection_state == cs_offline
    then refused device_offline
    else elim q.state [
      | none ↦ chosen t
      | some state ↦
          (if t.connection_state == state then chosen t else refused invalid_device_state)
    ]

unfoldable pub taken : Query → Found → Choice
unfolding check_state
taken q r = elim r.result [ none ↦ refused r.error | some t ↦ check_state q t ]

-- Whether it sleeps and looks again where it has found none.
unfoldable pub waits : Query → Bool → Bool
waits q ambiguous = elim q.state [
  | none ↦ false
  | some state ↦ elim q.wanted_serial [ some text ↦ true | none ↦ not ambiguous ]
]

-- The transports on the list each time that it looks; `none` where it waits after the last of them.
unfoldable pub acquire_one_transport : Query → List (List Choosable) → Option Choice
unfolding look taken waits
acquire_one_transport q [] = none
acquire_one_transport q (ts ∷ later) =
    let r = look q ts not_found in
    let again = acquire_one_transport q later in
    elim (taken q r) [
      | chosen t ↦ some (chosen t)
      | refused fault ↦ (if waits q r.ambiguous then again else some (refused fault))
    ]
