-- ===== src/Transport/Choice/Match.antt =====
-- adb/transport.cpp: the texts that qual_match takes.
use adb_wide.Base.Lists.{same_text}
use adb_wide.Base.{
  leb, ◌&&◌, not, if◌then◌else◌, ◌⊎◌, ◌||◌, ℕ, ◌≡◌, refl, Bool, true, false, Option, none, some,
  List, [], ◌∷◌, ◌++◌, arith, map, ◌↔◌,
}
use adb_wide.Transport.Choice.{
  sanitized, match_rest, match_from, qual_match, is_text, goes_by, Choosable, product_prefix,
  model_prefix, device_prefix,
}

abbrev pub is_letter_or_digit : ℕ → Bool
is_letter_or_digit c =
    (leb b'0' c && leb c b'9') || (leb b'A' c && leb c b'Z') || (leb b'a' c && leb c b'z')

-- A text as it is, or with a _ for each byte that is neither a letter nor a digit.
abbrev pub plain : Bool → List ℕ → List ℕ
plain mask [] = []
plain mask (c ∷ cs) = (if mask && not (is_letter_or_digit c) then b'_' else c) ∷ plain mask cs

sanitized-plain : (mask : Bool) (qual : List ℕ) → map (sanitized mask) qual ≡ plain mask qual
unfolding sanitized
sanitized-plain mask [] = refl
sanitized-plain mask (c ∷ cs) = ground (arith, sanitized-plain mask cs)

match_rest_lem :
    (sanitize_qual : Bool) (to_test qual : List ℕ)
    → (match_rest sanitize_qual to_test qual ≡ true)
      ↔ (to_test ≡ map (sanitized sanitize_qual) qual)
unfolding match_rest
match_rest_lem b [] [] = ((λ h. refl), (λ h. refl))
match_rest_lem b (c ∷ to_test) [] = ground arith
match_rest_lem b [] (ch ∷ qual) = ground arith
match_rest_lem b (c ∷ to_test) (ch ∷ qual) = ground (arith, match_rest_lem b to_test qual)

match_from_lem :
    (sanitize_qual : Bool) (to_test prefix qual : List ℕ)
    → (match_from sanitize_qual to_test prefix qual ≡ true)
      ↔ (to_test ≡ prefix ++ map (sanitized sanitize_qual) qual)
unfolding match_from
match_from_lem b to_test [] qual = match_rest_lem b to_test qual
match_from_lem b [] (p ∷ prefix) qual = ground arith
match_from_lem b (c ∷ to_test) (p ∷ prefix) qual =
    ground (arith, match_from_lem b to_test prefix qual)

-- The text is the prefix and the qualifier behind it, with a _ for each of its bytes that is neither a
-- letter nor a digit where it is to be sanitized.
abbrev pub IsPrefixed : List ℕ → List ℕ → Option (List ℕ) → Bool → Type 0
IsPrefixed to_test prefix qual sanitize_qual =
    (own : List ℕ) × ((qual ≡ some own) × (to_test ≡ prefix ++ plain sanitize_qual own))

qual_match_lem :
    (c : ℕ) (cs prefix : List ℕ) (qual : Option (List ℕ)) (sanitize_qual : Bool)
    → (qual_match (c ∷ cs) prefix qual sanitize_qual ≡ true)
      ↔ IsPrefixed (c ∷ cs) prefix qual sanitize_qual
unfolding qual_match
qual_match_lem c cs prefix none b = ground arith
qual_match_lem c cs prefix (some qual) b =
    ground (arith, match_from_lem b (c ∷ cs) prefix qual, sanitized-plain b qual)

pub same_text_iff : (xs ys : List ℕ) → (same_text xs ys ≡ true) ↔ (xs ≡ ys)
unfolding same_text
same_text_iff [] [] = ground arith
same_text_iff [] (y ∷ ys) = ground arith
same_text_iff (x ∷ xs) [] = ground arith
same_text_iff (x ∷ xs) (y ∷ ys) = ground (arith, same_text_iff xs ys)

is_text_lem :
    (own : Option (List ℕ)) (text : List ℕ) → (is_text own text ≡ true) ↔ (own ≡ some text)
unfolding is_text
is_text_lem none text = ground arith
is_text_lem (some own) text = ground (arith, same_text_iff text own)

or_iff : {P Q : Type 0} {a b : Bool} → (a ≡ true) ↔ P → (b ≡ true) ↔ Q → ((a || b) ≡ true) ↔ (P ⊎ Q)
or_iff {a = false} p q = ground arith
or_iff {a = true} p q = ground arith

-- What a client may call a transport by a text that is not empty.
abbrev pub IsNameOf : List ℕ → Choosable → Type 0
IsNameOf text t =
    ((((t.serial ≡ some text) ⊎ (t.devpath ≡ some text))
        ⊎ IsPrefixed text product_prefix t.product false)
      ⊎ IsPrefixed text model_prefix t.model true)
    ⊎ IsPrefixed text device_prefix t.device false

-- A text that is not empty stands for a transport exactly where it is the serial number or the device
-- path, or "product:", "model:" or "device:" with the transport's own behind it, that of "model:"
-- with a _ for each byte that is neither a letter nor a digit.
pub goes_by-IsNameOf :
    (c : ℕ) (cs : List ℕ) (t : Choosable) → (goes_by (c ∷ cs) t ≡ true) ↔ IsNameOf (c ∷ cs) t
unfolding goes_by
goes_by-IsNameOf c cs t =
    let text = c ∷ cs in
    let own = or_iff (is_text_lem t.serial text) (is_text_lem t.devpath text) in
    let product = or_iff own (qual_match_lem c cs product_prefix t.product false) in
    let model = or_iff product (qual_match_lem c cs model_prefix t.model true) in
    or_iff model (qual_match_lem c cs device_prefix t.device false)
