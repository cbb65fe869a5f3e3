-- ===== src/Sockets/Remote.antt =====
-- adb/sockets.cpp: the remote sockets, which send packets to a transport.
use adb_wide.Base.{ℕ, ◌-◌, List, [], ◌∷◌, ◌++◌, length, ltb, if◌then◌else◌}
use adb_wide.Fdevent.State.{Outcome, ok, abort}
use adb_wide.Transport.Packet.{max_payload, Packet, seal, bare}
use adb_wide.Sockets.State.{Sockets}

abbrev pub a_open : ℕ
a_open = 0x4e45504f

abbrev pub a_okay : ℕ
a_okay = 0x59414b4f

abbrev pub a_clse : ℕ
a_clse = 0x45534c43

abbrev pub a_wrte : ℕ
a_wrte = 0x45545257

-- send_packet, whose write to the socket pair succeeds.
unfoldable pub send_packet : Packet → ℕ → Sockets → Sockets
unfolding seal
send_packet p t s = record s { outgoing = (t, seal p) ∷ s.outgoing }

-- A packet of get_apacket with its command, arguments and bytes.
abbrev pub packet_of : ℕ → ℕ → ℕ → List ℕ → Packet
packet_of command arg0 arg1 bytes =
    let p = bare command arg0 arg1 in
    record p { msg = record p.msg { data_length = length bytes }; data_bytes = bytes }

-- The calls of a remote socket with an id and a transport; `peer` is the id of its peer.
unfoldable pub remote_socket_enqueue : ℕ → ℕ → ℕ → List ℕ → Sockets → Sockets
unfolding send_packet
remote_socket_enqueue peer id t bytes s = send_packet (packet_of a_wrte peer id bytes) t s

unfoldable pub remote_socket_ready : ℕ → ℕ → ℕ → Sockets → Sockets
unfolding send_packet
remote_socket_ready peer id t s = send_packet (bare a_okay peer id) t s

unfoldable pub remote_socket_shutdown : ℕ → ℕ → ℕ → Sockets → Sockets
unfolding send_packet
remote_socket_shutdown peer id t s = send_packet (bare a_clse peer id) t s

-- The destination with its null byte.
unfoldable pub connect_to_remote : ℕ → List ℕ → Sockets → Outcome Sockets
unfolding send_packet
connect_to_remote p destination s =
    let f = s.sock p in
    let name = destination ++ 0 ∷ [] in
    if ltb (max_payload - 1) (length name)
    then abort
    else ok (send_packet (packet_of a_open f.id 0 name) f.transport s)
