-- ===== src/Base/Lists.antt =====
-- Lists measured and indexed by native numbers, and membership of numbers as a test.
use Prim.Native.Nat.{ℕ, zero, suc, ◌+◌, ◌-◌, ◌≤◌, min}
use mathlib.Core.Path.{◌≡◌, refl, ap, sym, ◌∙◌}
use mathlib.Core.Bool.{Bool, true, false, ◌&&◌}
use mathlib.Core.List.{List, [], ◌∷◌, ◌++◌}
use native.Mathlib.Omega.{arith}
use adb_wide.Base.Tests.{◌==◌, if◌then◌else◌}

-- strcmp(xs, ys) == 0
unfoldable pub same_text : List ℕ → List ℕ → Bool
same_text [] [] = true
same_text (x ∷ xs) (y ∷ ys) = x == y && same_text xs ys
same_text _ _ = false

module _ {ℓ} {A : Type ℓ} where
  abbrev pub length : List A → ℕ
  length [] = 0
  length (x ∷ xs) = suc (length xs)

  abbrev pub take : ℕ → List A → List A
  take zero xs = []
  take (suc n) [] = []
  take (suc n) (x ∷ xs) = x ∷ take n xs

  abbrev pub drop : ℕ → List A → List A
  drop zero xs = xs
  drop (suc n) [] = []
  drop (suc n) (x ∷ xs) = drop n xs

  pub length-append : (xs ys : List A) → length (xs ++ ys) ≡ length xs + length ys
  length-append [] ys = omega arith
  length-append (x ∷ xs) ys = omega (arith, length-append xs ys)

  pub length-take : (n : ℕ) (xs : List A) → length (take n xs) ≡ min n (length xs)
  length-take zero xs = omega arith
  length-take (suc n) [] = omega arith
  length-take (suc n) (x ∷ xs) = omega (arith, length-take n xs)

  pub length-drop : (n : ℕ) (xs : List A) → length (drop n xs) ≡ length xs - n
  length-drop zero xs = omega arith
  length-drop (suc n) [] = omega arith
  length-drop (suc n) (x ∷ xs) = omega (arith, length-drop n xs)

  pub take-append : (xs ys : List A) → take (length xs) (xs ++ ys) ≡ xs
  take-append [] ys = refl
  take-append (x ∷ xs) ys = ap (◌∷◌ x) (take-append xs ys)

  -- A piece of a prefix, and the piece that follows it.
  pub take-add : (a b : ℕ) (xs : List A) → take (a + b) xs ≡ take a xs ++ take b (drop a xs)
  take-add zero b xs = ap (λ n. take n xs) (omega arith)
  take-add (suc a) b [] = ap (λ n. take n []) suc_out ∙ sym (take_nil b)
    where
      suc_out : suc a + b ≡ suc (a + b)
      suc_out = omega arith

      take_nil : (n : ℕ) → take n [] ≡ []
      take_nil zero = refl
      take_nil (suc n) = refl
  take-add (suc a) b (x ∷ xs) = ap (λ n. take n (x ∷ xs)) suc_out ∙ ap (◌∷◌ x) (take-add a b xs)
    where
      suc_out : suc a + b ≡ suc (a + b)
      suc_out = omega arith

  pub drop-add : (a b : ℕ) (xs : List A) → drop (a + b) xs ≡ drop b (drop a xs)
  drop-add zero b xs = ap (λ n. drop n xs) (omega arith)
  drop-add (suc a) b [] = ap (λ n. drop n []) suc_out ∙ sym (drop_nil b)
    where
      suc_out : suc a + b ≡ suc (a + b)
      suc_out = omega arith

      drop_nil : (n : ℕ) → drop n [] ≡ []
      drop_nil zero = refl
      drop_nil (suc n) = refl
  drop-add (suc a) b (x ∷ xs) = ap (λ n. drop n (x ∷ xs)) suc_out ∙ drop-add a b xs
    where
      suc_out : suc a + b ≡ suc (a + b)
      suc_out = omega arith

  pub take-all : (n : ℕ) (xs : List A) → length xs ≤ n → take n xs ≡ xs
  take-all zero [] h = refl
  take-all zero (x ∷ xs) h = absurd (omega arith)
  take-all (suc n) [] h = refl
  take-all (suc n) (x ∷ xs) h = ap (λ l. x ∷ l) (take-all n xs (omega arith))

  pub take-drop : (n : ℕ) (xs : List A) → take n xs ++ drop n xs ≡ xs
  take-drop zero xs = refl
  take-drop (suc n) [] = refl
  take-drop (suc n) (x ∷ xs) = ap (λ l. x ∷ l) (take-drop n xs)

  pub drop-append : (xs ys : List A) → drop (length xs) (xs ++ ys) ≡ ys
  drop-append [] ys = refl
  drop-append (x ∷ xs) ys = drop-append xs ys

-- Is the number among those of the list?
abbrev pub contains : ℕ → List ℕ → Bool
contains a [] = false
contains a (x ∷ xs) = if a == x then true else contains a xs

-- The list without the first occurrence of the number.
abbrev pub erase : ℕ → List ℕ → List ℕ
erase a [] = []
erase a (x ∷ xs) = if a == x then xs else x ∷ erase a xs

-- No number stands in the list twice.
abbrev pub Distinct : List ℕ → Type 0
Distinct [] = Unit {0}
Distinct (x ∷ xs) = (contains x xs ≡ false) × Distinct xs

pub contains-append :
    (a : ℕ) (xs ys : List ℕ)
    → contains a (xs ++ ys) ≡ (if contains a xs then true else contains a ys)
contains-append a [] ys = refl
contains-append a (x ∷ xs) ys = ground (arith, contains-append a xs ys)

pub contains-erase_ne :
    (a b : ℕ) (xs : List ℕ) → (a == b) ≡ false → contains a (erase b xs) ≡ contains a xs
contains-erase_ne a b [] h = refl
contains-erase_ne a b (x ∷ xs) h = ground (arith, contains-erase_ne a b xs h)

pub contains-erase_self : (a : ℕ) (xs : List ℕ) → Distinct xs → contains a (erase a xs) ≡ false
contains-erase_self a [] d = refl
contains-erase_self a (x ∷ xs) d = ground (arith, contains-erase_self a xs d.1)

pub contains_of_erase :
    (a b : ℕ) (xs : List ℕ) → contains a xs ≡ false → contains a (erase b xs) ≡ false
contains_of_erase a b [] h = refl
contains_of_erase a b (x ∷ xs) h = ground (arith, contains_of_erase a b xs)

pub Distinct-erase : (b : ℕ) (xs : List ℕ) → Distinct xs → Distinct (erase b xs)
Distinct-erase b [] d = tt
Distinct-erase b (x ∷ xs) d = ground (arith, Distinct-erase b xs d.1, contains_of_erase x b xs d.0)

pub Distinct-append_one :
    (a : ℕ) (xs : List ℕ) → contains a xs ≡ false → Distinct xs → Distinct (xs ++ a ∷ [])
Distinct-append_one a [] h d = (refl, tt)
Distinct-append_one a (x ∷ xs) h d =
    ground (arith, Distinct-append_one a xs, contains-append x xs (a ∷ []))

pub length-erase-le : (b : ℕ) (xs : List ℕ) → length (erase b xs) ≤ length xs
length-erase-le b [] = omega arith
length-erase-le b (x ∷ xs) = ground (arith, length-erase-le b xs)
