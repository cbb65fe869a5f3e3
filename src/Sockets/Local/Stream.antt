-- ===== src/Sockets/Local/Stream.antt =====
-- adb/sockets.cpp: what the writing of packets does to the stream of bytes.
use mathlib.Core.List.{append_assoc, append-nil, flatten}
use adb_wide.Base.{ℕ, ◌≡◌, refl, ◌∙◌, ap, sym, false, List, [], ◌∷◌, ◌++◌, take, drop, take-drop}
use adb_wide.Sockets.Pieces.{
  Wrote, wrote_more, would_block, broken, Piece, all_written, blocked, broken_off, write_packet,
  Drain, drained, stuck, failed, write_packets,
}
use adb_wide.Sockets.Close.{is_empty}

-- The bytes that are left at the end of the writing of a packet, and of a queue.
abbrev pub left_of : Piece → List ℕ
left_of all_written = []
left_of (blocked left) = left
left_of (broken_off left) = left

unfoldable pub left_of_queue : Drain → List ℕ
unfolding flatten
left_of_queue drained = []
left_of_queue (stuck left) = flatten left
left_of_queue (failed left) = flatten left

pub write_packet_lem :
    (p : List ℕ) (ws : List Wrote) → (write_packet p ws).1 ++ left_of (write_packet p ws).0 ≡ p
unfolding write_packet
write_packet_lem [] ws = refl
write_packet_lem (b ∷ p) [] = refl
write_packet_lem (b ∷ p) (would_block ∷ ws) = refl
write_packet_lem (b ∷ p) (broken ∷ ws) = refl
write_packet_lem (b ∷ p) (wrote_more n ∷ ws) =
    let r = write_packet (drop n p) ws in
    append_assoc (b ∷ take n p) r.1 (left_of r.0)
    ∙ ap (λ l. b ∷ take n p ++ l) (write_packet_lem (drop n p) ws)
    ∙ ap (λ l. b ∷ l) (take-drop n p)

-- The bytes that adb_write takes from a queue, followed by those of what is left of it, are the bytes
-- of the queue in its order.
pub write_packets_lem :
    (ps : List (List ℕ)) (ws : List Wrote)
    → (write_packets ps ws).1 ++ left_of_queue (write_packets ps ws).0 ≡ flatten ps
unfolding write_packets left_of_queue flatten
write_packets_lem [] ws = refl
write_packets_lem (p ∷ ps) ws =
    let (end, out, rest) = write_packet p ws in
    go end out (write_packets ps rest) (write_packet_lem p ws) (write_packets_lem ps rest)
  where
    go :
        (end : Piece) (out : List ℕ) (more : Drain × List ℕ)
        → out ++ left_of end ≡ p
        → more.1 ++ left_of_queue more.0 ≡ flatten ps
        → let r = elim end as (λ _. Drain × List ℕ) [
          | all_written ↦ (more.0, out ++ more.1)
          | blocked left ↦ (stuck (left ∷ ps), out)
          | broken_off left ↦ (failed (left ∷ ps), out)
        ] in
          r.1 ++ left_of_queue r.0 ≡ p ++ flatten ps
    go all_written out more e k =
        append_assoc out more.1 (left_of_queue more.0)
        ∙ ap (λ l. out ++ l) k
        ∙ ap (λ l. l ++ flatten ps) (sym (append-nil out) ∙ e)
    go (blocked left) out more e k =
        sym (append_assoc out left (flatten ps)) ∙ ap (λ l. l ++ flatten ps) e
    go (broken_off left) out more e k =
        sym (append_assoc out left (flatten ps)) ∙ ap (λ l. l ++ flatten ps) e

-- No write fails but with EAGAIN.
abbrev pub NoBroken : List Wrote → Type 0
NoBroken [] = Unit {0}
NoBroken (wrote_more n ∷ ws) = NoBroken ws
NoBroken (would_block ∷ ws) = NoBroken ws
NoBroken (broken ∷ ws) = ⊥

abbrev pub NotBrokenOff : Piece → Type 0
NotBrokenOff all_written = Unit {0}
NotBrokenOff (blocked left) = Unit {0}
NotBrokenOff (broken_off left) = ⊥

pub write_packet-NotBrokenOff :
    (p : List ℕ) (ws : List Wrote)
    → NoBroken ws
    → NotBrokenOff (write_packet p ws).0 × NoBroken (write_packet p ws).2
unfolding write_packet
write_packet-NotBrokenOff [] ws h = (tt, h)
write_packet-NotBrokenOff (b ∷ p) [] h = (tt, tt)
write_packet-NotBrokenOff (b ∷ p) (would_block ∷ ws) h = (tt, h)
write_packet-NotBrokenOff (b ∷ p) (broken ∷ ws) h = absurd h
write_packet-NotBrokenOff (b ∷ p) (wrote_more n ∷ ws) h = write_packet-NotBrokenOff (drop n p) ws h

-- The queue is drained, or was not empty and still is not.
abbrev pub DrainsOrWaits : List (List ℕ) → Drain → Type 0
DrainsOrWaits ps drained = Unit {0}
DrainsOrWaits ps (stuck left) = (is_empty ps ≡ false) × (is_empty left ≡ false)
DrainsOrWaits ps (failed left) = ⊥

pub write_packets-DrainsOrWaits :
    (ps : List (List ℕ)) (ws : List Wrote) → NoBroken ws → DrainsOrWaits ps (write_packets ps ws).0
unfolding write_packets
write_packets-DrainsOrWaits [] ws h = tt
write_packets-DrainsOrWaits (p ∷ ps) ws h =
    let (end, out, rest) = write_packet p ws in
    let (whole, fine) = write_packet-NotBrokenOff p ws h in
    go end out (write_packets ps rest) whole (write_packets-DrainsOrWaits ps rest fine)
  where
    weaken : (d : Drain) → DrainsOrWaits ps d → DrainsOrWaits (p ∷ ps) d
    weaken drained k = tt
    weaken (stuck left) k = (refl, k.1)
    weaken (failed left) k = k

    go :
        (end : Piece) (out : List ℕ) (more : Drain × List ℕ)
        → NotBrokenOff end
        → DrainsOrWaits ps more.0
        → DrainsOrWaits
            (p ∷ ps)
            (elim end as (λ _. Drain × List ℕ) [
              | all_written ↦ (more.0, out ++ more.1)
              | blocked left ↦ (stuck (left ∷ ps), out)
              | broken_off left ↦ (failed (left ∷ ps), out)
            ]).0
    go all_written out more w k = weaken more.0 k
    go (blocked left) out more w k = (refl, refl)
    go (broken_off left) out more w k = absurd w
