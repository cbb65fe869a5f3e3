-- ===== src/Transport/Link.antt =====
-- adb/transport_local.cpp: remote_read and remote_write; adb/transport.cpp: the threads of a transport.
pub mod RoundTrip
pub mod Tunnel
pub mod Checked
use adb_wide.Base.{
  ℕ, zero, suc, ◌+◌, ◌%◌, Bool, true, false, ◌||◌, Option, none, some, List, [], ◌∷◌, ◌++◌, take,
  ◌==◌, if◌then◌else◌,
}
use adb_wide.Base.Words.{u32_mod}
use adb_wide.Transport.Packet.{
  Message, Packet, message_size, message_bytes, message_of, check_header, check_data, magic_of,
  bare,
}
use adb_wide.Transport.Rwx.{Arrival, readx, Answer, writex}

-- After the header.
unfoldable pub read_data : Message → List Arrival → Option Packet × List Arrival
unfolding readx check_data
read_data m w =
    let (bytes, w') = readx m.data_length w in
    elim bytes [
      | none ↦ (none, w')
      | some bytes ↦
          (let p : Packet = record { msg = m; data_bytes = bytes } in
            if check_data p then (none, w') else (some p, w'))
    ]

unfoldable pub read_checked : Message → List Arrival → Option Packet × List Arrival
unfolding check_header read_data
read_checked m w = if check_header m then (none, w) else read_data m w

-- remote_read of a transport over TCP: the packet, or `none` for -1.
unfoldable pub remote_read : List Arrival → Option Packet × List Arrival
unfolding readx message_of read_checked
remote_read w =
    let (bytes, w') = readx message_size w in
    elim bytes [ none ↦ (none, w') | some bytes ↦ read_checked (message_of bytes) w' ]

-- remote_write: true for -1, with the bytes that were written.
unfoldable pub remote_write : Packet → List Answer → Bool × List ℕ × List Answer
unfolding writex
remote_write p ws = writex (message_bytes p.msg ++ take p.msg.data_length p.data_bytes) ws

abbrev pub a_sync : ℕ
a_sync = 0x434e5953

abbrev pub sync_packet : ℕ → ℕ → Packet
sync_packet arg0 arg1 =
    let p = bare a_sync arg0 arg1 in record p { msg = record p.msg { magic = magic_of a_sync } }

-- The loop of output_thread, for as many rounds as the fuel: the packets that are given to the other
-- end of the socket pair, whose writes succeed. `none` means that the fuel ran out.
unfoldable pub pump : ℕ → List Arrival → Option (List Packet)
unfolding remote_read
pump zero w = none
pump (suc fuel) w =
    let (packet, w') = remote_read w in
    elim packet [
      | none ↦ some (sync_packet 0 0 ∷ [])
      | some p ↦ elim (pump fuel w') [ none ↦ none | some ps ↦ some (p ∷ ps) ]
    ]

-- output_thread, with the new sync_token of the transport.
unfoldable pub output_thread : ℕ → ℕ → List Arrival → ℕ × Option (List Packet)
unfolding pump
output_thread fuel sync_token w =
    let token = (sync_token + 1) % u32_mod in
    (token, elim (pump fuel w) [ none ↦ none | some ps ↦ some (sync_packet 1 token ∷ ps) ])

-- The loop of input_thread over the packets that come from the socket pair, after which it fails:
-- the packets for which write_to_remote is called, in order. Its result is not looked at.
unfoldable pub forward : ℕ → Bool → List Packet → List Packet
forward token active [] = []
forward token active (p ∷ ps) =
    let online = forward token true ps in
    let same = forward token active ps in
    if p.msg.command == a_sync
    then (if p.msg.arg0 == 0 then [] else if p.msg.arg1 == token then online else same)
    else if active
    then p ∷ same
    else same

-- write_to_remote for each, with whether a call failed, and the bytes written.
unfoldable pub write_all : List Packet → List Answer → Bool × List ℕ
unfolding remote_write
write_all [] ws = (false, [])
write_all (p ∷ ps) ws =
    let (err, out, rest) = remote_write p ws in
    let (err', out') = write_all ps rest in (err || err', out ++ out')
