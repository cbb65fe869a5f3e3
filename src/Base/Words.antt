-- ===== src/Base/Words.antt =====
-- Words of 32 bits as they stand in the memory of a little-endian machine.
use Prim.Native.Nat.{
  ℕ, zero, suc, ◌≤◌, digits, differ, bit_xor, bit_xor-bitwise, ◌+◌, ◌*◌, ◌/◌, ◌%◌, ◌<◌,
}
use mathlib.Core.Path.{◌≡◌, refl, ap, ◌∙◌}
use mathlib.Core.List.{List, [], ◌∷◌}
use native.Mathlib.Omega.{arith}

abbrev pub u32_mod : ℕ
u32_mod = 4294967296

-- A word of 32 bits as it stands in memory.
abbrev pub le32 : ℕ → List ℕ
le32 n = (n % 256) ∷ (n / 256 % 256) ∷ (n / 65536 % 256) ∷ (n / 16777216 % 256) ∷ []

-- The word at the front of the bytes.
abbrev pub word : List ℕ → ℕ
word (a ∷ b ∷ c ∷ d ∷ rest) = a + b * 256 + c * 65536 + d * 16777216
word _ = 0

pub word-le32 : (n : ℕ) → n < u32_mod → word (le32 n) ≡ n
word-le32 n h = omega arith

-- The number whose k binary digits are all 1.
ones : ℕ → ℕ
ones zero = 0
ones (suc k) = ones k * 2 + 1

differ_one : (x : ℕ) → x < 2 → differ x 1 + x ≡ 1
differ_one zero h = refl
differ_one (suc zero) h = refl
differ_one (suc (suc x)) h = absurd (omega arith)

flip_digits : (k n a : ℕ) → a ≤ n → a ≤ ones k → digits (λ b. b) differ n a (ones k) + a ≡ ones k
unfolding ones
flip_digits zero zero zero h u = refl
flip_digits zero zero (suc a) h u = absurd (omega arith)
flip_digits zero (suc n) zero h u = refl
flip_digits zero (suc n) (suc a) h u = absurd (omega arith)
flip_digits (suc k) zero zero h u = omega arith
flip_digits (suc k) zero (suc a) h u = absurd (omega arith)
flip_digits (suc k) (suc n) zero h u = omega arith
flip_digits (suc k) (suc n) (suc a) h u =
    let half : (ones k * 2 + 1) / 2 ≡ ones k = omega arith in
    let odd : (ones k * 2 + 1) % 2 ≡ 1 = omega arith in
    omega (
      arith,
      ap (λ b. digits (λ b. b) differ n (suc a / 2) b) half,
      ap (λ b. differ (suc a % 2) b) odd,
      differ_one (suc a % 2) (omega arith),
      flip_digits k n (suc a / 2) (omega arith) (omega arith),
    )

-- The bits of a word, flipped.
pub flip_lem : (a : ℕ) → a < u32_mod → bit_xor a 4294967295 + a ≡ 4294967295
unfolding ones
flip_lem a h =
    ap (λ b. b + a) (bit_xor-bitwise a 4294967295) ∙ flip_digits 32 a a (omega arith) (omega arith)
