-- ===== src/Transport/Tests.antt =====
-- adb/transport.cpp: a packet of two bytes, and instances of the theorems.
use adb_wide.Base.{ℕ, ◌≡◌, refl, false, some, List, [], ◌∷◌, ◌++◌, arith}
use adb_wide.Transport.Packet.{Packet, bare, checksum, seal}
use adb_wide.Transport.Rwx.{Arrival, piece, interrupted, Answer, wrote_some, try_again, writex}
use adb_wide.Transport.Rwx.Chunks.{bytes_of}
use adb_wide.Transport.Link.{
  remote_read, remote_write, sync_packet, output_thread, forward, write_all,
}
use adb_wide.Transport.Link.RoundTrip.{IsPacket, sealed, packet_bytes}
use adb_wide.Transport.Link.Tunnel.{output_thread-forward}
use adb_wide.Transport.Link.Checked.{IsChecked, remote_read-IsChecked}
use adb_wide.Base.{none, true, ◌↔◌}
use adb_wide.Transport.Choice.{
  cs_offline, cs_noperm, any_type, usb, Choosable, Query, chosen, acquire_one_transport, goes_by,
}
use adb_wide.Transport.Choice.Match.{IsNameOf, goes_by-IsNameOf}
use adb_wide.Transport.Choice.Only.{FirstOnly, acquire_one_transport-FirstOnly}

-- WRTE(1, 2, "hi")
abbrev small : Packet
small =
    let p = bare 0x45545257 1 2 in
    record p { msg = record p.msg { data_length = 2 }; data_bytes = b'h' ∷ b'i' ∷ [] }

small-IsPacket : IsPacket small
small-IsPacket = record {
  command = omega arith;
  arg0 = omega arith;
  arg1 = omega arith;
  data_length = refl;
  fits = omega arith;
}

-- Byte by byte, each call after an interruption.
abbrev trickle : List ℕ → List Arrival
trickle [] = []
trickle (b ∷ bytes) = interrupted ∷ (piece b [] ∷ trickle bytes)

abbrev answers : List Answer
answers = wrote_some 9 ∷ (try_again ∷ (wrote_some 0 ∷ []))

abbrev passed : List Packet
passed = [] ++ sync_packet 1 5 ∷ (sealed (small ∷ []) ++ sync_packet 0 0 ∷ [])

all_taken : (write_all (forward 5 false passed) answers).0 ≡ false
unfolding write_all forward remote_write writex seal checksum
all_taken = refl

came : bytes_of (trickle (packet_bytes small)) ≡ (write_all (forward 5 false passed) answers).1
unfolding write_all forward remote_write writex seal checksum
came = refl

output_thread-forward_example :
    output_thread 2 8 (trickle (packet_bytes small))
    ≡ (9, some (sync_packet 1 9 ∷ (sealed (small ∷ []) ++ sync_packet 0 0 ∷ [])))
output_thread-forward_example =
    output_thread-forward [] (small ∷ []) [] 5 8 2 answers (trickle (packet_bytes small)) tt
      (small-IsPacket, tt) (refl, tt) (omega arith) all_taken came

remote_read-IsChecked_example : IsChecked (remote_read (trickle (packet_bytes small))).0
remote_read-IsChecked_example = remote_read-IsChecked (trickle (packet_bytes small))

-- A transport over USB, for the model "a b".
abbrev pub phone : Choosable
phone = record {
  address = 21;
  connection_state = 2;
  type_of = usb;
  serial = some (b'4' ∷ b'2' ∷ []);
  product = none;
  model = some (b'a' ∷ b' ' ∷ b'b' ∷ []);
  device = none;
  devpath = none;
}

-- Another that the client has no permission for.
abbrev barred : Choosable
barred = record phone { address = 22; connection_state = cs_noperm; serial = none }

abbrev starting : Choosable
starting = record phone { connection_state = cs_offline }

-- A client that waits for a device named "model:a_b".
abbrev waiting_client : Query
waiting_client = record {
  state = some 2;
  ttype = any_type;
  wanted_serial = some (b'm' ∷ b'o' ∷ b'd' ∷ b'e' ∷ b'l' ∷ b':' ∷ b'a' ∷ b'_' ∷ b'b' ∷ []);
}

-- It is offline the first time, and there with the other the second.
acquire_one_transport-FirstOnly_example :
    (acquire_one_transport waiting_client ((starting ∷ []) ∷ ((barred ∷ phone ∷ []) ∷ []))
      ≡ some (chosen phone))
    ↔ FirstOnly waiting_client ((starting ∷ []) ∷ ((barred ∷ phone ∷ []) ∷ [])) phone
acquire_one_transport-FirstOnly_example =
    acquire_one_transport-FirstOnly waiting_client ((starting ∷ []) ∷ ((barred ∷ phone ∷ []) ∷ []))
      phone

goes_by-IsNameOf_example :
    (goes_by (b'4' ∷ b'2' ∷ []) phone ≡ true) ↔ IsNameOf (b'4' ∷ b'2' ∷ []) phone
goes_by-IsNameOf_example = goes_by-IsNameOf b'4' (b'2' ∷ []) phone

chosen_at_last :
    acquire_one_transport waiting_client ((starting ∷ []) ∷ ((barred ∷ phone ∷ []) ∷ []))
    ≡ some (chosen phone)
unfolding acquire_one_transport
chosen_at_last = refl
