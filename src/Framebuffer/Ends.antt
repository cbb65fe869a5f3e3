-- ===== src/Framebuffer/Ends.antt =====
-- adb/framebuffer_service.c: the loop ends, and the service closes its descriptors.
use native.Mathlib.Decide.{dec_lt}
use adb_wide.Base.{
  ◌-◌, ◌<◌, ◌≤◌, ◌≢◌, ℕ, zero, suc, ◌+◌, ◌%◌, ◌≡◌, refl, Bool, Option, none, some, List, ◌∷◌, arith,
}
use adb_wide.Framebuffer.{
  buf_size, Fbinfo, header, Stream, read_pipe, block_size, word_mod, write_client, copy_block,
  copy_from, send_screen, read_format, framebuffer_service,
}

closed-read_pipe : (n : ℕ) (s : Stream) → (read_pipe n s).1.closed ≡ s.closed
unfolding read_pipe
closed-read_pipe n s = ground arith

-- A block is not empty and does not pass the end, and the position does not wrap.
pub step_bounds :
    (i size : ℕ)
    → i < size
    → size + buf_size ≤ word_mod
    → (block_size i size ≤ size - i)
      × (0 < block_size i size)
      × ((i + block_size i size) % word_mod ≡ i + block_size i size)
step_bounds i size a c = ground arith

module _ (accepts : List (List ℕ) → List ℕ → Bool) where
  closed-write_client :
      (bytes : List ℕ) (s : Stream) → (write_client accepts bytes s).1.closed ≡ s.closed
  unfolding write_client
  closed-write_client bytes s = ground arith

  closed-copy_block :
      (block : Option (List ℕ)) (s : Stream) → (copy_block accepts block s).1.closed ≡ s.closed
  unfolding copy_block
  closed-copy_block none s = refl
  closed-copy_block (some bytes) s = closed-write_client bytes s

  closed-copy_from :
      (fuel i size : ℕ) (s : Stream) → (copy_from accepts fuel i size s).1.closed ≡ s.closed
  unfolding copy_from
  closed-copy_from zero i size s = refl
  closed-copy_from (suc fuel) i size s =
      let k = block_size i size in
      let (block, s1) = read_pipe k s in
      let s2 = (copy_block accepts block s1).1 in
      ground (
        arith,
        closed-read_pipe k s,
        closed-copy_block block s1,
        closed-copy_from fuel ((i + k) % word_mod) size s2,
      )

  -- With more fuel than bytes left, the loop over the pixels returns, whatever screencap gives and the
  -- client takes, provided that the size is at least 640 below 2 ^ 32.
  pub copy_from_returns :
      (fuel i size : ℕ) (s : Stream)
      → size - i < fuel
      → size + buf_size ≤ word_mod
      → (copy_from accepts fuel i size s).0 ≢ none
  unfolding copy_from
  copy_from_returns zero i size s h c = absurd (omega arith)
  copy_from_returns (suc fuel) i size s h c = elim (dec_lt i size) [
    | yes more ↦
        let k = block_size i size in
        let (fits, some_bytes, same) = step_bounds i size more c in
        let (block, s1) = read_pipe k s in
        let s2 = (copy_block accepts block s1).1 in
        ground (arith, copy_from_returns fuel ((i + k) % word_mod) size s2 (omega (arith, same)) c)
    | no end ↦ ground arith
  ]

  closed-send_screen :
      (fuel : ℕ) (info : Option Fbinfo) (s : Stream)
      → (send_screen accepts fuel info s).1.closed ≡ s.closed
  unfolding send_screen
  closed-send_screen fuel none s = refl
  closed-send_screen fuel (some info) s =
      let s1 = (write_client accepts (header info) s).1 in
      ground (arith, closed-write_client (header info) s, closed-copy_from fuel 0 info.size s1)

  closed-read_format : (s : Stream) → (read_format accepts s).1.closed ≡ s.closed
  unfolding read_format
  closed-read_format s =
      let s1 = (read_pipe 4 s).1 in
      let s2 = (read_pipe 4 s1).1 in
      ground (arith, closed-read_pipe 4 s, closed-read_pipe 4 s1, closed-read_pipe 4 s2)

  -- What framebuffer_service has to close.
  abbrev pub all_ends : ℕ → Option (ℕ × ℕ) → List ℕ → List ℕ
  all_ends fd none closed = fd ∷ closed
  all_ends fd (some ends) closed = fd ∷ ends.1 ∷ ends.0 ∷ closed

  -- On every path framebuffer_service closes its descriptor to the client and both ends of the pipe,
  -- where pipe() gave them, each once and nothing else.
  pub framebuffer_service_closes :
      (fuel fd : ℕ) (ends : Option (ℕ × ℕ)) (forked : Bool) (s : Stream)
      → (framebuffer_service accepts fuel fd ends forked s).1.closed ≡ all_ends fd ends s.closed
  unfolding framebuffer_service
  framebuffer_service_closes fuel fd none forked s = refl
  framebuffer_service_closes fuel fd (some ends) forked s =
      let (info, s1) = read_format accepts s in
      ground (arith, closed-read_format s, closed-send_screen fuel info s1)
