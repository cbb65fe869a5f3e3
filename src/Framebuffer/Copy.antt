-- ===== src/Framebuffer/Copy.antt =====
-- adb/framebuffer_service.c: the description of the pixels, and the copying of them.
use mathlib.Core.List.{append_assoc, append-nil}
use native.Mathlib.Decide.{dec_lt}
use adb_wide.Base.{
  ℕ, zero, suc, ◌+◌, ◌-◌, ◌*◌, ◌≤◌, ◌<◌, ◌≡◌, refl, ◌∙◌, ap, sym, subst, take-add, drop-add, Bool,
  true, false, Option, some, List, [], ◌∷◌, ◌++◌, arith, length, take, drop, length-drop, ltb,
  lt→ltb,
}
use adb_wide.Framebuffer.Ends.{step_bounds}
use adb_wide.Framebuffer.{
  Fbinfo, describe, header, Stream, read_pipe, word_mod, buf_size, block_size, write_client,
  copy_block, copy_from,
}

-- The bits of the colours and of alpha lie inside a pixel, and the size counts whole pixels.
pub record IsLayout (i : Fbinfo) (w h : ℕ) : Type 0 where
  pub red : i.red_offset + i.red_length ≤ i.bpp
  pub green : i.green_offset + i.green_length ≤ i.bpp
  pub blue : i.blue_offset + i.blue_length ≤ i.bpp
  pub alpha : i.alpha_offset + i.alpha_length ≤ i.bpp
  pub bits : i.red_length + i.green_length + i.blue_length + i.alpha_length ≤ i.bpp
  pub area : 8 * i.size ≡ w * h * i.bpp

-- Where the screen at four bytes for a pixel stays below 2 ^ 31 bytes, up to which the product of
-- ints is defined, every format that the service knows has its colours and alpha inside the pixel,
-- and the size is the number of bytes of its pixels.
pub describe-IsLayout :
    (w h f : ℕ) (i : Fbinfo) → w * h * 4 < 2147483648 → describe w h f ≡ some i → IsLayout i w h
unfolding describe
describe-IsLayout w h f i small e = ground arith

-- The header has thirteen words.
pub length-header : (i : Fbinfo) → length (header i) ≡ 52
unfolding header
length-header i = refl

-- The bytes of the writes, in their order.
abbrev pub bytes_of : List (List ℕ) → List ℕ
bytes_of [] = []
bytes_of (b ∷ bs) = bytes_of bs ++ b

-- The pixels of `n` bytes went from screencap to the client.
abbrev pub Copied : ℕ → Stream → Option Bool × Stream → Type 0
Copied n s out =
    (out.0 ≡ some true)
    × (bytes_of out.1.sent ≡ bytes_of s.sent ++ take n s.pipe)
    × (out.1.pipe ≡ drop n s.pipe)

module _ (accepts : List (List ℕ) → List ℕ → Bool)
    (all : (sent : List (List ℕ)) (bytes : List ℕ) → accepts sent bytes ≡ true) where
  read_pipe-enough :
      (n : ℕ) (s : Stream)
      → n ≤ length s.pipe
      → read_pipe n s ≡ (some (take n s.pipe), record s { pipe = drop n s.pipe })
  unfolding read_pipe
  read_pipe-enough n s h = ground arith

  -- The stream after a block of `k` bytes.
  abbrev block_copied : ℕ → Stream → Stream
  block_copied k s = record s { pipe = drop k s.pipe; sent = take k s.pipe ∷ s.sent }

  copy_block-ok :
      (k : ℕ) (s : Stream)
      → k ≤ length s.pipe
      → let (block, s1) = read_pipe k s in copy_block accepts block s1 ≡ (true, block_copied k s)
  unfolding copy_block write_client
  copy_block-ok k s h =
      ap (λ (r : Option (List ℕ) × Stream). copy_block accepts r.0 r.1) (read_pipe-enough k s h)
      ∙ rw (all s.sent (take k s.pipe))

  copy_from-step :
      (fuel i size : ℕ) (s : Stream)
      → i < size
      → size + buf_size ≤ word_mod
      → size - i ≤ length s.pipe
      → let k = block_size i size in
        copy_from accepts (suc fuel) i size s
        ≡ copy_from accepts fuel (i + k) size (block_copied k s)
  unfolding copy_from
  copy_from-step fuel i size s a c d =
      let k = block_size i size in
      let (fits, _, same) = step_bounds i size a c in
      let block = copy_block-ok k s (omega arith) in
      rw (copy_from, lt→ltb i size a, ap (λ r. r.0) block, ap (λ r. r.1) block, same)

  copy_from-end : (fuel i : ℕ) (s : Stream) → copy_from accepts (suc fuel) i i s ≡ (some true, s)
  unfolding copy_from
  copy_from-end fuel i s = let e : ltb i i ≡ false = ground arith in rw (e, copy_from)

  Copied-step :
      (k n : ℕ) (s : Stream) (out : Option Bool × Stream)
      → Copied n (block_copied k s) out
      → Copied (k + n) s out
  Copied-step k n s out (done, bytes, pipe) = (
    done,
    bytes
        ∙ append_assoc (bytes_of s.sent) (take k s.pipe) (take n (drop k s.pipe))
        ∙ ap (λ x. bytes_of s.sent ++ x) (sym (take-add k n s.pipe)),
    pipe ∙ sym (drop-add k n s.pipe),
  )

  -- Where the client takes every write and screencap gives all the bytes, the loop from byte `i` on ends
  -- with all of them copied, provided that the size is at least 640 below 2 ^ 32.
  pub copy_from-Copied :
      (fuel i size : ℕ) (s : Stream)
      → i ≤ size
      → size - i < fuel
      → size + buf_size ≤ word_mod
      → size - i ≤ length s.pipe
      → Copied (size - i) s (copy_from accepts fuel i size s)
  copy_from-Copied zero i size s a b c d = absurd (omega arith)
  copy_from-Copied (suc fuel) i size s a b c d = elim (dec_lt i size) [
    | yes more ↦
        let k = block_size i size in
        let (fits, some_bytes, _) = step_bounds i size more c in
        let total : k + (size - (i + k)) ≡ size - i = omega arith in
        let rest : size - (i + k) ≤ length (drop k s.pipe) = omega (arith, length-drop k s.pipe) in
        rw (copy_from-step fuel i size s more c d) (
          subst (λ n. Copied n s (copy_from accepts fuel (i + k) size (block_copied k s))) total
            (Copied-step k (size - (i + k)) s
              (copy_from accepts fuel (i + k) size (block_copied k s))
              (copy_from-Copied fuel (i + k) size (block_copied k s) (omega arith) (omega arith) c
                rest)))
    | no end ↦
        let same : size ≡ i = omega arith in
        let nothing : i - i ≡ 0 = omega arith in
        rw (same, copy_from-end fuel i s, nothing) (refl, sym (append-nil (bytes_of s.sent)), refl)
  ]
