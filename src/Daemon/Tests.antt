-- ===== src/Daemon/Tests.antt =====
-- adb/adb.cpp: a socket of the transport 100 and a user's key, and instances of the theorems.
use adb_wide.Base.Lists.{same_text}
use adb_wide.Base.{ℕ, if◌then◌else◌}
use adb_wide.Daemon.Banner.{product_name}
use adb_wide.Base.{◌≡◌, refl, true, false, none, some, List, [], ◌∷◌, take, update}
use adb_wide.Fdevent.State.{◌>>=◌}
use adb_wide.Fdevent.Table.{Memory}
use adb_wide.Transport.Packet.{Packet, bare}
use adb_wide.Sockets.State.{remote_peer, Sockets, find_local_socket}
use adb_wide.Sockets.Remote.{a_wrte, packet_of}
use adb_wide.Sockets.Local.Flow.{IsPolled}
use adb_wide.Sockets.Tests.{one_end, two_sockets, one_byte, one_byte-NoBroken}
use adb_wide.Daemon.State.{offline, Transport, Adb, a_cnxn}
use adb_wide.Daemon.Auth.{a_auth, auth_signature, Surroundings, framework_ok}
use adb_wide.Daemon.Packets.{Services, handle_wrte}
use adb_wide.Daemon.Packets.Online.{Event, packet_from, framework_says, run}
use adb_wide.Daemon.Packets.Online.Runs.{RunAuthorized, run-Authorized}
use adb_wide.Daemon.Packets.Acks.{drive, Acknowledged, handle_wrte-Acked}

-- The socket 9 with the id 1 has the remote socket 7 of the transport 100 for its peer.
abbrev connected : Sockets
connected = record two_sockets {
  sock = update two_sockets.sock 9 (record (one_end 1 3 5 11) { peer = some (remote_peer 7 100) });
}

connected-IsPolled : IsPolled 9 connected
unfolding IsPolled
connected-IsPolled = refl

found : find_local_socket 1 7 connected.sock connected.list ≡ some 9
unfolding find_local_socket
found = refl

-- A device of the name "n" and no other property.
abbrev named_n : List ℕ → List ℕ
named_n key = if same_text key product_name then b'n' ∷ [] else []

abbrev wrte : Packet
wrte = packet_of a_wrte 7 1 (b'a' ∷ (b'b' ∷ (b'c' ∷ [])))

handle_wrte-Acked_example :
    Acknowledged 9 7 100
      (take 3 wrte.data_bytes)
      connected
      (handle_wrte one_byte wrte 100 connected >>= drive (one_byte ∷ (one_byte ∷ [])) 9)
handle_wrte-Acked_example =
    handle_wrte-Acked one_byte (one_byte ∷ (one_byte ∷ [])) 9 wrte 100 connected one_byte-NoBroken
      (one_byte-NoBroken, (one_byte-NoBroken, tt)) refl refl found refl refl connected-IsPolled

abbrev plain_memory : Memory
plain_memory = record { ptr_ints = 1; garbage = λ i. none; available = true }

-- Surroundings in which the one key file line is a key that accepts each signature.
abbrev with_one_key : Surroundings
with_one_key = record {
  key_of_line = λ l. some l;
  rsa_verify = λ key sig token. true;
  key_lines = (b'k' ∷ []) ∷ [];
  fresh_token = some (1 ∷ []);
  banner = [];
  framework_takes = true;
  memory = plain_memory;
}

abbrev no_services : Services
no_services = record {
  service_to_fd = λ name. none;
  is_root = false;
  room = record { address = 20; fde_address = 21; memory = plain_memory };
  writes = [];
}

abbrev fresh_transport : Transport
fresh_transport = record {
  connection_state = offline;
  online = false;
  failed_auth_attempts = 0;
  token = [];
  auth_fde = 30;
}

abbrev started : Adb
started = record {
  sockets = two_sockets;
  transport = λ t. fresh_transport;
  auth = record { framework_fd = none; usb_transport = none; needs_retry = false; prompts = [] };
}

-- CNXN, then a signature that is too short.
abbrev morning : List (Surroundings × Event)
morning =
    (with_one_key, packet_from 100 no_services (bare a_cnxn 0 0))
    ∷ ((with_one_key, packet_from 100 no_services (packet_of a_auth auth_signature 0 (3 ∷ [])))
        ∷ ((with_one_key, framework_says framework_ok) ∷ []))

run-Authorized_example : RunAuthorized morning started 100 (run morning started)
run-Authorized_example = run-Authorized morning started 100
