-- ===== src/Transport/Link/RoundTrip.antt =====
-- adb/transport_local.cpp, adb/transport.cpp: a packet that is sent arrives on the other side.
use mathlib.Core.List.{append_assoc}
use adb_wide.Base.{
  refl, ℕ, ◌+◌, ◌%◌, ◌≤◌, ◌<◌, ◌≡◌, ◌∙◌, ap, sym, subst, false, Option, none, some, List, [], ◌∷◌,
  ◌++◌, take, length, arith, take-all,
}
use adb_wide.Base.Words.{u32_mod, word-le32, flip_lem}
use adb_wide.Transport.Packet.{
  max_payload, Message, Packet, message_size, message_bytes, message_of, checksum, seal,
  check_header, check_data, received_sum,
}
use adb_wide.Transport.Rwx.{Arrival, readx, Answer}
use adb_wide.Transport.Rwx.Chunks.{bytes_of, readx-append, writex_lem}
use adb_wide.Transport.Link.{read_data, read_checked, remote_read, remote_write}

-- A packet that get_apacket and its user make: its words are words of 32 bits, and its data_length is
-- the number of its bytes.
pub record IsPacket (p : Packet) : Type 0 where
  pub command : p.msg.command < u32_mod
  pub arg0 : p.msg.arg0 < u32_mod
  pub arg1 : p.msg.arg1 < u32_mod
  pub data_length : p.msg.data_length ≡ length p.data_bytes
  pub fits : p.msg.data_length ≤ max_payload

-- The words of a message are words of 32 bits.
record IsMessage (m : Message) : Type 0 where
  command : m.command < u32_mod
  arg0 : m.arg0 < u32_mod
  arg1 : m.arg1 < u32_mod
  data_length : m.data_length < u32_mod
  data_check : m.data_check < u32_mod
  magic : m.magic < u32_mod

message_of-message_bytes : (m : Message) → IsMessage m → message_of (message_bytes m) ≡ m
unfolding message_of
message_of-message_bytes m v = ground (
  arith,
  word-le32 m.command v.command,
  word-le32 m.arg0 v.arg0,
  word-le32 m.arg1 v.arg1,
  word-le32 m.data_length v.data_length,
  word-le32 m.data_check v.data_check,
  word-le32 m.magic v.magic,
)

checksum-lt : (sum : ℕ) (xs : List ℕ) → sum < u32_mod → checksum sum xs < u32_mod
unfolding checksum
checksum-lt sum [] h = h
checksum-lt sum (x ∷ xs) h = checksum-lt ((sum + x) % u32_mod) xs (omega arith)

seal-IsMessage : (p : Packet) → IsPacket p → IsMessage (seal p).msg
unfolding seal
seal-IsMessage p v = record {
  command = v.command;
  arg0 = v.arg0;
  arg1 = v.arg1;
  data_length = omega (arith, v.fits);
  data_check = checksum-lt 0 (take p.msg.data_length p.data_bytes) (omega arith);
  magic = omega (arith, flip_lem p.msg.command v.command);
}

check_header-seal : (p : Packet) → IsPacket p → check_header (seal p).msg ≡ false
unfolding check_header seal
check_header-seal p v = ground (arith, v.fits)

-- The receiver's loop adds up what the sender's does.
received_sum-checksum : (sum : ℕ) (xs : List ℕ) → received_sum sum xs ≡ checksum sum xs
unfolding received_sum checksum
received_sum-checksum sum [] = refl
received_sum-checksum sum (x ∷ xs) = received_sum-checksum ((sum + x) % u32_mod) xs

check_data-seal : (p : Packet) → check_data (seal p) ≡ false
unfolding check_data seal
check_data-seal p = ground (arith, received_sum-checksum 0 (take p.msg.data_length p.data_bytes))

-- The bytes of a packet that was sealed.
abbrev pub packet_bytes : Packet → List ℕ
packet_bytes p = message_bytes (seal p).msg ++ p.data_bytes

-- A reading that gave the packet as send_packet completed it, and left the rest of the bytes.
abbrev pub ReadsPacket : Packet → List ℕ → Option Packet × List Arrival → Type 0
ReadsPacket p rest (got, w) = (got ≡ some (seal p)) × (bytes_of w ≡ rest)

read_data-ReadsPacket :
    (p : Packet) (rest : List ℕ) (w : List Arrival)
    → IsPacket p
    → bytes_of w ≡ p.data_bytes ++ rest
    → ReadsPacket p rest (read_data (seal p).msg w)
unfolding read_data seal
read_data-ReadsPacket p rest w v h =
    let (given, left) = readx-append p.data_bytes rest w h in
    let e = ap (λ n. readx n w) v.data_length in
    ground (arith, ap (λ r. r.0) e ∙ given, ap (λ r. bytes_of r.1) e ∙ left, check_data-seal p)

read_checked-ReadsPacket :
    (p : Packet) (rest : List ℕ) (w : List Arrival)
    → IsPacket p
    → bytes_of w ≡ p.data_bytes ++ rest
    → ReadsPacket p rest (read_checked (seal p).msg w)
unfolding read_checked
read_checked-ReadsPacket p rest w v h =
    rw (check_header-seal p v) (read_data-ReadsPacket p rest w v h)

pub remote_read-ReadsPacket :
    (p : Packet) (rest : List ℕ) (w : List Arrival)
    → IsPacket p
    → bytes_of w ≡ packet_bytes p ++ rest
    → ReadsPacket p rest (remote_read w)
unfolding remote_read
remote_read-ReadsPacket p rest w v h =
    let m = (seal p).msg in
    let (given, left) =
      readx-append (message_bytes m) (p.data_bytes ++ rest) w
        (h ∙ append_assoc (message_bytes m) p.data_bytes rest) in
    let w' = (readx message_size w).1 in
    subst
      (λ got.
        ReadsPacket p rest
          (elim got [ none ↦ (none, w') | some bytes ↦ read_checked (message_of bytes) w' ]))
      (sym given)
      (subst (λ k. ReadsPacket p rest (read_checked k w'))
        (sym (message_of-message_bytes m (seal-IsMessage p v)))
        (read_checked-ReadsPacket p rest w' v left))

-- Every packet of the list is one that a user of send_packet can make.
abbrev pub ArePackets : List Packet → Type 0
ArePackets [] = Unit {0}
ArePackets (p ∷ ps) = IsPacket p × ArePackets ps

-- The packets as send_packet completes them, and the bytes that remote_write gives for them.
abbrev pub sealed : List Packet → List Packet
sealed [] = []
sealed (p ∷ ps) = seal p ∷ sealed ps

unfoldable pub stream_of_packets : List Packet → List ℕ
stream_of_packets [] = []
stream_of_packets (p ∷ ps) = packet_bytes p ++ stream_of_packets ps

pub remote_write_lem :
    (p : Packet) (ws : List Answer)
    → IsPacket p
    → (remote_write (seal p) ws).0 ≡ false
    → (remote_write (seal p) ws).1 ≡ packet_bytes p
unfolding remote_write seal
remote_write_lem p ws v h =
    writex_lem (message_bytes (seal p).msg ++ take p.msg.data_length p.data_bytes) ws h
    ∙ ap (λ l. message_bytes (seal p).msg ++ l)
        (take-all p.msg.data_length p.data_bytes (omega (arith, v.data_length)))
