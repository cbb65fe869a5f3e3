-- ===== src/Transport/Rwx/Chunks.antt =====
-- adb/transport.cpp: however the bytes are cut, readx gives them whole and in order, and so does writex.
use adb_wide.Base.{
  ℕ, zero, suc, ◌-◌, ◌≤◌, ◌<◌, ◌≡◌, refl, ◌∙◌, ap, sym, subst, false, Option, none, some, List, [],
  ◌∷◌, ◌++◌, take, drop, length, arith, take-drop, length-append, length-take, take-append,
  drop-append,
}
use adb_wide.Transport.Rwx.{
  Arrival, piece, interrupted, disconnected, failing, got_more, readx, Answer, wrote_some,
  try_again, refused, writex,
}

-- The bytes that come before the end or an error.
abbrev pub bytes_of : List Arrival → List ℕ
bytes_of [] = []
bytes_of (piece b bytes ∷ w) = b ∷ (bytes ++ bytes_of w)
bytes_of (interrupted ∷ w) = bytes_of w
bytes_of (disconnected ∷ w) = []
bytes_of (failing ∷ w) = []

-- Where the first n of xs ++ ys end: behind xs, or inside it.
behind :
    (n : ℕ) (xs ys : List ℕ)
    → drop n xs ≡ []
    → (take n (xs ++ ys) ≡ xs ++ take (n - length xs) ys)
      × (drop n (xs ++ ys) ≡ drop (n - length xs) ys)
      × (length xs ≤ n)
behind n [] ys h = (
  ap (λ k. take k ys) (let e : n ≡ n - 0 = omega arith in e),
  ap (λ k. drop k ys) (let e : n ≡ n - 0 = omega arith in e),
  omega arith,
)
behind zero (x ∷ xs) ys h = cc
behind (suc n) (x ∷ xs) ys h =
    let less : n - length xs ≡ suc n - suc (length xs) = omega arith in
    let (taken, dropped, fits) = behind n xs ys h in
    (
      ap (λ l. x ∷ l) taken ∙ ap (λ k. x ∷ (xs ++ take k ys)) less,
      dropped ∙ ap (λ k. drop k ys) less,
      omega arith,
    )

inside :
    (n c : ℕ) (left xs ys : List ℕ)
    → drop n xs ≡ c ∷ left
    → (take n (xs ++ ys) ≡ take n xs) × (drop n (xs ++ ys) ≡ c ∷ (left ++ ys))
inside zero c left xs ys h = (refl, ap (λ l. l ++ ys) h)
inside (suc n) c left [] ys h = cc
inside (suc n) c left (x ∷ xs) ys h =
    let (taken, dropped) = inside n c left xs ys h in (ap (λ l. x ∷ l) taken, dropped)

-- What a readx of n bytes comes to where they are there: the bytes, and those that follow are left.
pub GivesBytes : ℕ → List ℕ → Option (List ℕ) × List Arrival → Type 0
GivesBytes n bytes (got, w) = (got ≡ some (take n bytes)) × (bytes_of w ≡ drop n bytes)

got_more-GivesBytes :
    (n b : ℕ) (bytes rest : List ℕ) (r : Option (List ℕ) × List Arrival)
    → drop n bytes ≡ []
    → GivesBytes (n - length bytes) rest r
    → GivesBytes (suc n) (b ∷ (bytes ++ rest)) (got_more (b ∷ bytes) r)
unfolding got_more GivesBytes
got_more-GivesBytes n b bytes rest (none, w) e h = cc
got_more-GivesBytes n b bytes rest (some more, w) e h =
    let (taken, dropped, fits) = behind n bytes rest e in
    (ground (arith, h.0, taken), h.1 ∙ sym dropped)

pub readx-GivesBytes :
    (n : ℕ) (w : List Arrival) → n ≤ length (bytes_of w) → GivesBytes n (bytes_of w) (readx n w)
unfolding readx GivesBytes
readx-GivesBytes zero w h = (refl, refl)
readx-GivesBytes (suc n) [] h = absurd (omega arith)
readx-GivesBytes (suc n) (interrupted ∷ w) h = readx-GivesBytes (suc n) w h
readx-GivesBytes (suc n) (disconnected ∷ w) h = absurd (omega arith)
readx-GivesBytes (suc n) (failing ∷ w) h = absurd (omega arith)
readx-GivesBytes (suc n) (piece b bytes ∷ w) h =
    go (drop n bytes) refl
      (λ e. readx-GivesBytes (n - length bytes) w (rest_there (behind n bytes [] e).2))
  where
    rest_there : length bytes ≤ n → n - length bytes ≤ length (bytes_of w)
    rest_there k = omega (arith, length-append {0} bytes (bytes_of w))

    go :
        (d : List ℕ)
        → drop n bytes ≡ d
        → (drop n bytes ≡ []
            → GivesBytes (n - length bytes) (bytes_of w) (readx (n - length bytes) w))
        → GivesBytes (suc n) (b ∷ (bytes ++ bytes_of w)) (elim d [
          | [] ↦ got_more (b ∷ bytes) (readx (n - length bytes) w)
          | c ∷ left ↦ (some (b ∷ take n bytes), piece c left ∷ w)
        ])
    go [] e ih = got_more-GivesBytes n b bytes (bytes_of w) (readx (n - length bytes) w) e (ih e)
    go (c ∷ left) e ih =
        let (taken, dropped) = inside n c left bytes (bytes_of w) e in
        (ap (λ l. some (b ∷ l)) (sym taken), sym dropped)

-- What writex gives to the descriptor, where it does not fail.
pub writex_lem :
    (bytes : List ℕ) (ws : List Answer) → (writex bytes ws).0 ≡ false → (writex bytes ws).1 ≡ bytes
unfolding writex
writex_lem [] ws h = refl
writex_lem (b ∷ bytes) [] h = refl
writex_lem (b ∷ bytes) (try_again ∷ ws) h = writex_lem (b ∷ bytes) ws h
writex_lem (b ∷ bytes) (refused ∷ ws) h = cc
writex_lem (b ∷ bytes) (wrote_some n ∷ ws) h =
    ap (λ l. b ∷ take n bytes ++ l) (writex_lem (drop n bytes) ws h)
    ∙ ap (λ l. b ∷ l) (take-drop n bytes)

pub readx-append :
    (xs rest : List ℕ) (w : List Arrival)
    → bytes_of w ≡ xs ++ rest
    → ((readx (length xs) w).0 ≡ some xs) × (bytes_of (readx (length xs) w).1 ≡ rest)
unfolding GivesBytes
readx-append xs rest w h =
    let fits : length xs ≤ length (bytes_of w) =
      omega (arith, ap length h, length-append {0} xs rest) in
    let (taken, dropped) = readx-GivesBytes (length xs) w fits in
    (
      taken ∙ ap (λ l. some (take (length xs) l)) h ∙ ap some (take-append xs rest),
      dropped ∙ ap (drop (length xs)) h ∙ drop-append xs rest,
    )

-- A reading that ends before its bytes are there fails, and one that does not fail has them all.
abbrev HasLength : ℕ → Option (List ℕ) → Type 0
HasLength n none = Unit {0}
HasLength n (some xs) = length xs ≡ n

got_more-HasLength :
    (n : ℕ) (bytes : List ℕ) (r : Option (List ℕ) × List Arrival)
    → length bytes ≤ n
    → HasLength (n - length bytes) r.0
    → HasLength n (got_more bytes r).0
unfolding got_more
got_more-HasLength n bytes (none, w) h k = tt
got_more-HasLength n bytes (some more, w) h k = omega (arith, length-append {0} bytes more)

length-take_inside : (n c : ℕ) (left xs : List ℕ) → drop n xs ≡ c ∷ left → length (take n xs) ≡ n
length-take_inside zero c left xs h = refl
length-take_inside (suc n) c left [] h = cc
length-take_inside (suc n) c left (x ∷ xs) h = omega (arith, length-take_inside n c left xs h)

readx-HasLength : (n : ℕ) (w : List Arrival) → HasLength n (readx n w).0
unfolding readx
readx-HasLength zero w = refl
readx-HasLength (suc n) [] = tt
readx-HasLength (suc n) (interrupted ∷ w) = readx-HasLength (suc n) w
readx-HasLength (suc n) (disconnected ∷ w) = tt
readx-HasLength (suc n) (failing ∷ w) = tt
readx-HasLength (suc n) (piece b bytes ∷ w) =
    go (drop n bytes) refl (readx-HasLength (n - length bytes) w)
  where
    go :
        (d : List ℕ)
        → drop n bytes ≡ d
        → HasLength (n - length bytes) (readx (n - length bytes) w).0
        → HasLength
            (suc n)
            (elim d as (λ _. Option (List ℕ) × List Arrival) [
              | [] ↦ got_more (b ∷ bytes) (readx (n - length bytes) w)
              | c ∷ left ↦ (some (b ∷ take n bytes), piece c left ∷ w)
            ]).0
    go [] e ih =
        let (taken, dropped, fits) = behind n bytes [] e in
        got_more-HasLength (suc n) (b ∷ bytes) (readx (n - length bytes) w) (omega arith) (
          subst (λ k. HasLength k (readx (n - length bytes) w).0)
            (let less : n - length bytes ≡ suc n - suc (length bytes) = omega arith in less) ih)
    go (c ∷ left) e ih = omega (arith, length-take_inside n c left bytes e)

pub length-readx :
    (n : ℕ) (w : List Arrival) (xs : List ℕ) → (readx n w).0 ≡ some xs → length xs ≡ n
length-readx n w xs h = subst (HasLength n) h (readx-HasLength n w)

-- readx gives only bytes that came.
abbrev Came : List ℕ → Option (List ℕ) → Type 0
Came bytes none = Unit {0}
Came bytes (some xs) = length xs ≤ length bytes

got_more-Came :
    (bytes came : List ℕ) (r : Option (List ℕ) × List Arrival)
    → Came came r.0
    → Came (bytes ++ came) (got_more bytes r).0
unfolding got_more
got_more-Came bytes came (none, w) h = tt
got_more-Came bytes came (some more, w) h =
    omega (arith, length-append {0} bytes more, length-append {0} bytes came)

readx-Came : (n : ℕ) (w : List Arrival) → Came (bytes_of w) (readx n w).0
unfolding readx
readx-Came zero w = omega arith
readx-Came (suc n) [] = tt
readx-Came (suc n) (interrupted ∷ w) = readx-Came (suc n) w
readx-Came (suc n) (disconnected ∷ w) = tt
readx-Came (suc n) (failing ∷ w) = tt
readx-Came (suc n) (piece b bytes ∷ w) = go (drop n bytes) (readx-Came (n - length bytes) w)
  where
    go :
        (d : List ℕ)
        → Came (bytes_of w) (readx (n - length bytes) w).0
        → Came
            (b ∷ (bytes ++ bytes_of w))
            (elim d as (λ _. Option (List ℕ) × List Arrival) [
              | [] ↦ got_more (b ∷ bytes) (readx (n - length bytes) w)
              | c ∷ left ↦ (some (b ∷ take n bytes), piece c left ∷ w)
            ]).0
    go [] ih = got_more-Came (b ∷ bytes) (bytes_of w) (readx (n - length bytes) w) ih
    go (c ∷ left) ih = omega (arith, length-take n bytes, length-append {0} bytes (bytes_of w))

pub readx-short : (n : ℕ) (w : List Arrival) → length (bytes_of w) < n → (readx n w).0 ≡ none
readx-short n w h = go (readx n w).0 (readx-Came n w) (readx-HasLength n w)
  where
    go : (r : Option (List ℕ)) → Came (bytes_of w) r → HasLength n r → r ≡ none
    go none k l = refl
    go (some xs) k l = absurd (omega (arith, h, k, l))
