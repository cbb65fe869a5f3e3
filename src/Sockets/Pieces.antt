-- ===== src/Sockets/Pieces.antt =====
-- adb/sockets.cpp: the writing of packets to a descriptor, in pieces.
use adb_wide.Base.{ℕ, List, [], ◌∷◌, ◌++◌, take, drop}

-- What adb_write gives, one after another: a number of bytes above 0, of at most those that it is
-- asked for; EAGAIN; or 0 or another error. adb_write itself goes on after EINTR. After the last, EAGAIN.
pub data Wrote : Type 0 where
  wrote_more : ℕ → Wrote
  would_block broken : Wrote

-- How the writing of a packet ends, with the bytes that are left of it.
pub data Piece : Type 0 where
  all_written : Piece
  blocked broken_off : List ℕ → Piece

-- while (p->len > 0) adb_write(...): the end, the bytes written, and the results still to come.
-- `wrote_more n` stands for n + 1 bytes.
unfoldable pub write_packet : List ℕ → List Wrote → Piece × List ℕ × List Wrote
write_packet [] ws = (all_written, [], ws)
write_packet (b ∷ bytes) [] = (blocked (b ∷ bytes), [], [])
write_packet (b ∷ bytes) (would_block ∷ ws) = (blocked (b ∷ bytes), [], ws)
write_packet (b ∷ bytes) (broken ∷ ws) = (broken_off (b ∷ bytes), [], ws)
write_packet (b ∷ bytes) (wrote_more n ∷ ws) =
    let (end, out, rest) = write_packet (drop n bytes) ws in (end, b ∷ take n bytes ++ out, rest)

-- How the writing of a queue of packets ends, with the packets that are left.
pub data Drain : Type 0 where
  drained : Drain
  stuck : List (List ℕ) → Drain
  failed : List (List ℕ) → Drain

-- while((p = s->pkt_first) != 0), with the bytes written.
unfoldable pub write_packets : List (List ℕ) → List Wrote → Drain × List ℕ
unfolding write_packet
write_packets [] ws = (drained, [])
write_packets (p ∷ ps) ws =
    let (end, out, rest) = write_packet p ws in
    let (end', out') = write_packets ps rest in
    elim end [
      | all_written ↦ (end', out ++ out')
      | blocked left ↦ (stuck (left ∷ ps), out)
      | broken_off left ↦ (failed (left ∷ ps), out)
    ]
