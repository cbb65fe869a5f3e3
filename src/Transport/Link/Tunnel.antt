-- ===== src/Transport/Link/Tunnel.antt =====
-- adb/transport.cpp: what goes into one transport's input thread comes out of the other's output thread.
use adb_wide.Base.{
  ℕ, zero, suc, ◌+◌, ◌%◌, ◌<◌, ◌≡◌, refl, ◌∙◌, ap, sym, Bool, true, false, ◌||◌, Option, none, some,
  List, [], ◌∷◌, ◌++◌, length, arith, ◌==◌, ◌⊎◌, ==-refl,
}
use adb_wide.Base.Words.{u32_mod}
use adb_wide.Transport.Packet.{Packet, message_size, seal}
use adb_wide.Transport.Rwx.{Arrival, Answer}
use adb_wide.Transport.Rwx.Chunks.{bytes_of, readx-short}
use adb_wide.Transport.Link.{
  a_sync, remote_read, remote_write, sync_packet, pump, output_thread, forward, write_all,
}
use adb_wide.Transport.Link.RoundTrip.{
  packet_bytes, remote_read-ReadsPacket, ArePackets, sealed, stream_of_packets, remote_write_lem,
}

write_all_lem :
    (ps : List Packet) (ws : List Answer)
    → ArePackets ps
    → (write_all (sealed ps) ws).0 ≡ false
    → (write_all (sealed ps) ws).1 ≡ stream_of_packets ps
unfolding write_all stream_of_packets
write_all_lem [] ws v h = refl
write_all_lem (p ∷ ps) ws v h =
    let rest = (remote_write (seal p) ws).2 in
    let (first, others) = or_false (remote_write (seal p) ws).0 (write_all (sealed ps) rest).0 h in
    ap (λ l. l ++ (write_all (sealed ps) rest).1) (remote_write_lem p ws v.0 first)
    ∙ ap (λ l. packet_bytes p ++ l) (write_all_lem ps rest v.1 others)
  where
    or_false : (a b : Bool) → (a || b) ≡ false → (a ≡ false) × (b ≡ false)
    or_false true b h = cc
    or_false false b h = (refl, h)

remote_read-short : (w : List Arrival) → bytes_of w ≡ [] → (remote_read w).0 ≡ none
unfolding remote_read
remote_read-short w h = rw (readx-short message_size w (omega (arith, ap length h)))

pump_lem :
    (fuel : ℕ) (ps : List Packet) (w : List Arrival)
    → ArePackets ps
    → bytes_of w ≡ stream_of_packets ps
    → length ps < fuel
    → pump fuel w ≡ some (sealed ps ++ sync_packet 0 0 ∷ [])
unfolding pump stream_of_packets
pump_lem zero ps w v h f = absurd (omega arith)
pump_lem (suc fuel) [] w v h f = ended (remote_read-short w h)
  where
    ended :
        (remote_read w).0 ≡ none
        → (elim (remote_read w).0 as (λ _. Option (List Packet)) [
          | none ↦ some (sync_packet 0 0 ∷ [])
          | some p ↦ elim (pump fuel (remote_read w).1) [ none ↦ none | some qs ↦ some (p ∷ qs) ]
        ])
          ≡ some (sync_packet 0 0 ∷ [])
    ended e = rw e
pump_lem (suc fuel) (p ∷ ps) w v h f =
    let (got, left) = remote_read-ReadsPacket p (stream_of_packets ps) w v.0 h in
    rw got (rw (pump_lem fuel ps (remote_read w).1 v.1 left (omega arith)))

-- Packets that input_thread reads before the SYNC with its token: none of them a SYNC with that token
-- or with 0 for its first argument.
abbrev pub AreStale : ℕ → List Packet → Type 0
AreStale token [] = Unit {0}
AreStale token (p ∷ ps) =
    (((p.msg.command == a_sync) ≡ false)
      ⊎ (((p.msg.arg0 == 0) ≡ false) × ((p.msg.arg1 == token) ≡ false)))
    × AreStale token ps

abbrev pub NoSync : List Packet → Type 0
NoSync [] = Unit {0}
NoSync (p ∷ ps) = ((p.msg.command == a_sync) ≡ false) × NoSync ps

forward-stale :
    (token : ℕ) (idle ps : List Packet)
    → AreStale token idle
    → forward token false (idle ++ sync_packet 1 token ∷ ps) ≡ forward token true ps
unfolding forward
forward-stale token [] ps h = rw (==-refl token)
forward-stale token (p ∷ idle) ps h = ground (arith, h.0, forward-stale token idle ps h.1)

forward-sealed :
    (token : ℕ) (ps late : List Packet)
    → NoSync ps
    → forward token true (sealed ps ++ sync_packet 0 0 ∷ late) ≡ sealed ps
unfolding forward seal
forward-sealed token [] late h = refl
forward-sealed token (p ∷ ps) late h = ground (arith, h.0, forward-sealed token ps late h.1)

-- One side sends packets that are none of them a SYNC, between the SYNC of its transport's token and
-- SYNC(0, 0). Where no write to the remote fails, and the bytes come to the other side in whatever
-- pieces and with whatever interruptions before the end: its output_thread announces its own new token,
-- gives on exactly those packets, in order, each with the magic and checksum of send_packet, and ends
-- with SYNC(0, 0). Packets before the SYNC of the token or after SYNC(0, 0) do not come through.
pub output_thread-forward :
    (idle ps late : List Packet) (token token' fuel : ℕ) (ws : List Answer) (w : List Arrival)
    → AreStale token idle
    → ArePackets ps
    → NoSync ps
    → length ps < fuel
    → (write_all
        (forward token false (idle ++ sync_packet 1 token ∷ (sealed ps ++ sync_packet 0 0 ∷ late)))
        ws).0
      ≡ false
    → bytes_of w
      ≡ (write_all
          (forward token false
            (idle ++ sync_packet 1 token ∷ (sealed ps ++ sync_packet 0 0 ∷ late)))
          ws).1
    → let token'' = (token' + 1) % u32_mod in
      output_thread fuel token' w
      ≡ (token'', some (sync_packet 1 token'' ∷ (sealed ps ++ sync_packet 0 0 ∷ [])))
unfolding output_thread
output_thread-forward idle ps late token token' fuel ws w stale v nosync enough good came =
    let through =
      forward-stale token idle (sealed ps ++ sync_packet 0 0 ∷ late) stale
      ∙ forward-sealed token ps late nosync in
    rw (
      pump_lem fuel ps w v
        (came
          ∙ ap (λ l. (write_all l ws).1) through
          ∙ write_all_lem ps ws v (sym (ap (λ l. (write_all l ws).0) through) ∙ good))
        enough)
