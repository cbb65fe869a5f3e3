-- ===== src/Framebuffer.antt =====
-- adb/framebuffer_service.c: the screen of the device, as a header and the pixels of screencap.
pub mod Copy
pub mod Ends
mod Tests
use adb_wide.Base.{
  ℕ, zero, suc, ◌+◌, ◌-◌, ◌*◌, ◌%◌, Bool, true, false, Option, none, some, List, [], ◌∷◌, ◌++◌,
  length, take, drop, ltb, ◌==◌, if◌then◌else◌,
}
use adb_wide.Sync.Wire.{le32, word}

-- `struct fbinfo`, in the order of its members. The values are words of 32 bits.
pub record Fbinfo : Type 0 where
  pub version : ℕ
  pub bpp : ℕ
  pub size : ℕ
  pub width : ℕ
  pub height : ℕ
  pub red_offset : ℕ
  pub red_length : ℕ
  pub blue_offset : ℕ
  pub blue_length : ℕ
  pub green_offset : ℕ
  pub green_length : ℕ
  pub alpha_offset : ℕ
  pub alpha_length : ℕ

abbrev pub word_mod : ℕ
word_mod = 4294967296

-- The common part of the cases: `bytes` for a pixel. The product is one of ints, which C leaves undefined
-- from 2 ^ 31 on; it is then taken to wrap around.
abbrev pub sized : ℕ → ℕ → ℕ → Fbinfo → Fbinfo
sized bytes w h i = record i {
  bpp = 8 * bytes;
  size = w * h * bytes % word_mod;
  width = w;
  height = h;
}

-- RGBA_8888
abbrev pub rgba : Fbinfo
rgba = record {
  version = 1;
  bpp = 0;
  size = 0;
  width = 0;
  height = 0;
  red_offset = 0;
  red_length = 8;
  blue_offset = 16;
  blue_length = 8;
  green_offset = 8;
  green_length = 8;
  alpha_offset = 24;
  alpha_length = 8;
}

-- RGB_565
abbrev pub rgb565 : Fbinfo
rgb565 = record rgba {
  red_offset = 11;
  red_length = 5;
  blue_offset = 0;
  blue_length = 5;
  green_offset = 5;
  green_length = 6;
  alpha_offset = 0;
  alpha_length = 0;
}

-- The switch on the format; `none` is its default.
unfoldable pub describe : ℕ → ℕ → ℕ → Option Fbinfo
describe w h f =
    if f == 1
    then some (sized 4 w h rgba)
    else if f == 2
    then some (sized 4 w h (record rgba { alpha_length = 0 }))
    else if f == 3
    then some (sized 3 w h (record rgba { alpha_length = 0 }))
    else if f == 4
    then some (sized 2 w h rgb565)
    else if f == 5
    then some (sized 4 w h (record rgba { red_offset = 16; blue_offset = 0 }))
    else none

-- The packed struct as it is written.
unfoldable pub header : Fbinfo → List ℕ
header i =
    le32 i.version
    ++ (le32 i.bpp
        ++ (le32 i.size
            ++ (le32 i.width
                ++ (le32 i.height
                    ++ (le32 i.red_offset
                        ++ (le32 i.red_length
                            ++ (le32 i.blue_offset
                                ++ (le32 i.blue_length
                                    ++ (le32 i.green_offset
                                        ++ (le32 i.green_length
                                            ++ (le32 i.alpha_offset
                                                ++ le32 i.alpha_length)))))))))))

-- The bytes that screencap has still to write, the writes that the client took, and the descriptors
-- closed, the latest first.
pub record Stream : Type 0 where
  pub pipe : List ℕ
  pub sent : List (List ℕ)
  pub closed : List ℕ

-- readx from the pipe: `none` where it ends before.
unfoldable pub read_pipe : ℕ → Stream → Option (List ℕ) × Stream
read_pipe n s =
    if ltb (length s.pipe) n
    then (none, record s { pipe = [] })
    else (some (take n s.pipe), record s { pipe = drop n s.pipe })

-- sizeof(buf)
abbrev pub buf_size : ℕ
buf_size = 640

-- bsize = sizeof(buf); if (i + bsize > size) bsize = size - i;
abbrev pub block_size : ℕ → ℕ → ℕ
block_size i size = if ltb size ((i + buf_size) % word_mod) then size - i else buf_size

-- `accepts` says whether writex of these bytes after the earlier writes reaches the client.
module _ (accepts : List (List ℕ) → List ℕ → Bool) where
  unfoldable pub write_client : List ℕ → Stream → Bool × Stream
  write_client bytes s =
      if accepts s.sent bytes then (true, record s { sent = bytes ∷ s.sent }) else (false, s)

  unfoldable pub copy_block : Option (List ℕ) → Stream → Bool × Stream
  unfolding write_client
  copy_block none s = (false, s)
  copy_block (some bytes) s = write_client bytes s

  -- The loop over the pixels; `none` means that the fuel ran out, else whether all was copied.
  unfoldable pub copy_from : ℕ → ℕ → ℕ → Stream → Option Bool × Stream
  unfolding copy_block read_pipe
  copy_from zero i size s = (none, s)
  copy_from (suc fuel) i size s =
      let bsize = block_size i size in
      let (block, s1) = read_pipe bsize s in
      let (done, s2) = copy_block block s1 in
      elim (ltb i size) [
        | false ↦ (some true, s)
        | true ↦ elim done [
          | true ↦ copy_from fuel ((i + bsize) % word_mod) size s2
          | false ↦ (some false, s2)
        ]
      ]

  -- From the format on.
  unfoldable pub send_screen : ℕ → Option Fbinfo → Stream → Option Bool × Stream
  unfolding copy_from header
  send_screen fuel none s = (some false, s)
  send_screen fuel (some info) s =
      let (told, s1) = write_client (header info) s in
      if told then copy_from fuel 0 info.size s1 else (some false, s1)

  -- The three reads of the header of screencap.
  unfoldable pub read_format : Stream → Option Fbinfo × Stream
  unfolding read_pipe describe
  read_format s =
      let (w, s1) = read_pipe 4 s in
      let (h, s2) = read_pipe 4 s1 in
      let (f, s3) = read_pipe 4 s2 in
      elim w [
        | none ↦ (none, s1)
        | some w' ↦ elim h [
          | none ↦ (none, s2)
          | some h' ↦ elim f [
            | none ↦ (none, s3)
            | some f' ↦ (describe (word w') (word h') (word f'), s3)
          ]
        ]
      ]

  abbrev pub close_fd : ℕ → Stream → Stream
  close_fd fd s = record s { closed = fd ∷ s.closed }

  -- framebuffer_service of the descriptor `fd`. `ends` are the two descriptors of pipe(), if it
  -- succeeds; `forked` says whether fork() does. Every path closes what it holds.
  unfoldable pub framebuffer_service : ℕ → ℕ → Option (ℕ × ℕ) → Bool → Stream → Option Bool × Stream
  unfolding send_screen read_format
  framebuffer_service fuel fd none forked s = (some false, close_fd fd s)
  framebuffer_service fuel fd (some ends) forked s =
      let (info, s1) = read_format s in
      let (result, s2) = send_screen fuel info s1 in
      if forked
      then (result, close_fd fd (close_fd ends.1 (close_fd ends.0 s2)))
      else (some false, close_fd fd (close_fd ends.1 (close_fd ends.0 s)))
