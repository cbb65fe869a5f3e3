-- ===== src/Sockets/Smart/Unhex.antt =====
-- adb/sockets.cpp: unhex reads the first bytes alone, and reads what hex4 of Jdwp prints.
use adb_wide.Base.{
  ℕ, zero, suc, ◌+◌, ◌≤◌, ◌<◌, ◌≡◌, refl, ◌∙◌, ap, Option, none, some, List, [], ◌∷◌, ◌++◌, length,
  ◌/◌, ◌*◌, ◌%◌, arith,
}
use adb_wide.Base.Words.{u32_mod}
use adb_wide.Jdwp.Text.{hex_digit, hex4}
use adb_wide.Sockets.Smart.{digit, unhex_from, unhex}

pub unhex_from-append :
    (n len : ℕ) (xs ys : List ℕ)
    → len ≤ length xs
    → unhex_from n len (xs ++ ys) ≡ unhex_from n len xs
unfolding unhex_from
unhex_from-append n zero xs ys h = refl
unhex_from-append n (suc len) [] ys h = absurd (omega arith)
unhex_from-append n (suc len) (c ∷ xs) ys h =
    go (digit c) (λ d. unhex_from-append ((n * 16) % u32_mod + d) len xs ys (omega arith))
  where
    go :
        (d : Option ℕ)
        → ((k : ℕ)
            → unhex_from ((n * 16) % u32_mod + k) len (xs ++ ys)
              ≡ unhex_from ((n * 16) % u32_mod + k) len xs)
        → (elim d as (λ _. ℕ) [
          | none ↦ 4294967295
          | some k ↦ unhex_from ((n * 16) % u32_mod + k) len (xs ++ ys)
        ])
          ≡ (elim d as (λ _. ℕ) [
            | none ↦ 4294967295
            | some k ↦ unhex_from ((n * 16) % u32_mod + k) len xs
          ])
    go none ih = refl
    go (some k) ih = ih k

hex_digit-digit : (d : ℕ) → d < 16 → digit (hex_digit d) ≡ some d
unfolding digit
hex_digit-digit d h = ground arith

unhex_from-hex_digit :
    (n len d : ℕ) (s : List ℕ)
    → d < 16
    → unhex_from n (suc len) (hex_digit d ∷ s) ≡ unhex_from ((n * 16) % u32_mod + d) len s
unfolding unhex_from
unhex_from-hex_digit n len d s h =
    ap
      (λ o. elim o as (λ _. ℕ) [
        | none ↦ 4294967295
        | some k ↦ unhex_from ((n * 16) % u32_mod + k) len s
      ])
      (hex_digit-digit d h)

pub unhex-hex4 : (n : ℕ) (rest : List ℕ) → n < 65536 → unhex (hex4 n ++ rest) 4 ≡ n
unhex-hex4 n rest h =
    let a = n / 4096 % 16 in
    let b = n / 256 % 16 in
    let c = n / 16 % 16 in
    let d = n % 16 in
    let n1 = (0 * 16) % u32_mod + a in
    let n2 = (n1 * 16) % u32_mod + b in
    let n3 = (n2 * 16) % u32_mod + c in
    unhex_from-hex_digit 0 3 a (hex_digit b ∷ (hex_digit c ∷ (hex_digit d ∷ rest))) (omega arith)
    ∙ unhex_from-hex_digit n1 2 b (hex_digit c ∷ (hex_digit d ∷ rest)) (omega arith)
    ∙ unhex_from-hex_digit n2 1 c (hex_digit d ∷ rest) (omega arith)
    ∙ unhex_from-hex_digit n3 0 d rest (omega arith)
    ∙ unhex_nothing ((n3 * 16) % u32_mod + d) rest
    ∙ omega arith
  where
    unhex_nothing : (k : ℕ) (s : List ℕ) → unhex_from k 0 s ≡ k
    unhex_nothing k s = unfold unhex_from in refl
