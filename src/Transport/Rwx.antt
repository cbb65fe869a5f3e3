-- ===== src/Transport/Rwx.antt =====
-- adb/transport.cpp: readx and writex, over calls that take a part of the bytes or are interrupted.
pub mod Chunks
use adb_wide.Base.{
  ℕ, zero, suc, ◌-◌, Bool, true, false, Option, none, some, List, [], ◌∷◌, ◌++◌, take, drop, length,
}

-- What comes on a descriptor, in order: bytes, 1 at least, of which adb_read takes what it is asked
-- for and leaves the others; EINTR; 0, the end; another error.
pub data Arrival : Type 0 where
  piece : ℕ → List ℕ → Arrival
  interrupted disconnected failing : Arrival

unfoldable pub got_more : List ℕ → Option (List ℕ) × List Arrival → Option (List ℕ) × List Arrival
got_more bytes (none, w) = (none, w)
got_more bytes (some more, w) = (some (bytes ++ more), w)

-- readx of a number of bytes: the bytes, or `none` for -1, and what is still to come. After the last
-- arrival comes the end.
unfoldable pub readx : ℕ → List Arrival → Option (List ℕ) × List Arrival
unfolding got_more
readx zero w = (some [], w)
readx (suc n) [] = (none, [])
readx (suc n) (interrupted ∷ w) = readx (suc n) w
readx (suc n) (disconnected ∷ w) = (none, w)
readx (suc n) (failing ∷ w) = (none, w)
readx (suc n) (piece b bytes ∷ w) = elim (drop n bytes) [
  | [] ↦ got_more (b ∷ bytes) (readx (n - length bytes) w)
  | c ∷ left ↦ (some (b ∷ take n bytes), piece c left ∷ w)
]

-- What adb_write gives: a number of bytes above 0, `wrote_some n` for n + 1, of at most those that it
-- is asked for; EINTR or EAGAIN; 0 or another error.
pub data Answer : Type 0 where
  wrote_some : ℕ → Answer
  try_again refused : Answer

-- writex: true for -1, the bytes that were written, and the answers still to come. After the last
-- answer adb_write takes all.
unfoldable pub writex : List ℕ → List Answer → Bool × List ℕ × List Answer
writex [] ws = (false, [], ws)
writex (b ∷ bytes) [] = (false, b ∷ bytes, [])
writex (b ∷ bytes) (try_again ∷ ws) = writex (b ∷ bytes) ws
writex (b ∷ bytes) (refused ∷ ws) = (true, [], ws)
writex (b ∷ bytes) (wrote_some n ∷ ws) =
    let (err, out, rest) = writex (drop n bytes) ws in (err, b ∷ take n bytes ++ out, rest)
