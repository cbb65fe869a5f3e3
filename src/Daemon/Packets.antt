-- ===== src/Daemon/Packets.antt =====
-- adb/adb.cpp: parse_banner and handle_packet, as the daemon runs them.
pub mod Online
pub mod Acks
use adb_wide.Base.Lists.{same_text}
use adb_wide.Base.{
  ℕ, ◌+◌, ◌-◌, ◌%◌, Bool, true, false, not, ◌&&◌, Option, none, some, List, [], ◌∷◌, ◌++◌, take,
  ◌==◌, if◌then◌else◌, update,
}
use adb_wide.Base.Words.{u32_mod}
use adb_wide.Fdevent.State.{Outcome, ok, abort, ◌>>=◌}
use adb_wide.Transport.Packet.{Packet, bare}
use adb_wide.Transport.Link.{a_sync}
use adb_wide.Sockets.State.{
  Peer, local_peer, remote_peer, other_peer, ready_peer, Sock, Sockets, put_sock, peer_id,
  peer_transport, find_local_socket,
}
use adb_wide.Sockets.Pieces.{Wrote}
use adb_wide.Sockets.Remote.{a_open, a_okay, a_clse, a_wrte, send_packet}
use adb_wide.Sockets.Create.{Room, create_local_service_socket}
use adb_wide.Sockets.Close.{local_socket_close_locked}
use adb_wide.Sockets.Local.{local_socket_enqueue, local_socket_ready}
use adb_wide.Daemon.State.{
  ConnectionState, offline, bootloader, device, host, recovery, sideload, unauthorized, Transport,
  Adb, put_transport, in_sockets, send, handle_online, handle_offline, a_cnxn, send_connect,
}
use adb_wide.Daemon.Auth.{
  a_auth, auth_token, auth_signature, auth_rsapublickey, Surroundings, c_string, adb_auth_verify,
  send_auth_request, adb_auth_verified, adb_auth_confirm_key,
}

abbrev pub is_offline : ConnectionState → Bool
is_offline offline = true
is_offline _ = false

unfoldable pub up_to_colon : List ℕ → List ℕ
up_to_colon [] = []
up_to_colon (c ∷ cs) = if c == b':' then [] else c ∷ up_to_colon cs

-- "bootloader", "device", "recovery" and "sideload"
abbrev pub bootloader_text : List ℕ
bootloader_text = b'b' ∷ b'o' ∷ b'o' ∷ b't' ∷ b'l' ∷ b'o' ∷ b'a' ∷ b'd' ∷ b'e' ∷ b'r' ∷ []

abbrev pub device_text : List ℕ
device_text = b'd' ∷ b'e' ∷ b'v' ∷ b'i' ∷ b'c' ∷ b'e' ∷ []

abbrev pub recovery_text : List ℕ
recovery_text = b'r' ∷ b'e' ∷ b'c' ∷ b'o' ∷ b'v' ∷ b'e' ∷ b'r' ∷ b'y' ∷ []

abbrev pub sideload_text : List ℕ
sideload_text = b's' ∷ b'i' ∷ b'd' ∷ b'e' ∷ b'l' ∷ b'o' ∷ b'a' ∷ b'd' ∷ []

-- The part of parse_banner that sets connection_state.
unfoldable pub parse_banner : List ℕ → ConnectionState
unfolding c_string up_to_colon same_text
parse_banner banner =
    let type = up_to_colon (c_string banner) in
    if same_text type bootloader_text
    then bootloader
    else if same_text type device_text
    then device
    else if same_text type recovery_text
    then recovery
    else if same_text type sideload_text
    then sideload
    else host

unfoldable pub handle_sync : Packet → ℕ → Adb → Outcome Adb
unfolding handle_offline send_packet
handle_sync p t s =
    if p.msg.arg0 == 0
    then (handle_offline t
          (put_transport t (record (s.transport t) { connection_state = offline }) s)
        >>= λ s'. ok (send p t s'))
    else ok (send p t s)

-- After the old connection is closed.
unfoldable pub connect : Bool → Surroundings → Packet → ℕ → Adb → Adb
unfolding parse_banner handle_online send_connect send_auth_request
connect auth_enabled env p t s =
    let state = parse_banner p.data_bytes in
    let s1 = put_transport t (record (s.transport t) { connection_state = state }) s in
    if auth_enabled
    then send_auth_request env t s1
    else send_connect env.banner t (handle_online t s1)

unfoldable pub handle_cnxn : Bool → Surroundings → Packet → ℕ → Adb → Outcome Adb
unfolding connect handle_offline
handle_cnxn auth_enabled env p t s =
    if is_offline (s.transport t).connection_state
    then ok (connect auth_enabled env p t s)
    else (handle_offline t
          (put_transport t (record (s.transport t) { connection_state = offline }) s)
        >>= λ s'. ok (connect auth_enabled env p t s'))

-- The answer to a signature.
unfoldable pub check_signature : Surroundings → List ℕ → ℕ → Adb → Adb
unfolding adb_auth_verify adb_auth_verified send_auth_request
check_signature env sig t s =
    let s1 = adb_auth_verified env t s in
    let attempts = ((s.transport t).failed_auth_attempts + 1) % u32_mod in
    if adb_auth_verify env (s.transport t).token sig
    then put_transport t (record (s1.transport t) { failed_auth_attempts = 0 }) s1
    else send_auth_request env t
        (put_transport t (record (s.transport t) { failed_auth_attempts = attempts }) s)

-- The daemon has no key to answer a token with, and no public key to send.
unfoldable pub handle_auth : Surroundings → Packet → ℕ → Adb → Outcome Adb
unfolding check_signature adb_auth_confirm_key
handle_auth env p t s =
    if p.msg.arg0 == auth_token
    then ok (put_transport t (record (s.transport t) { connection_state = unauthorized }) s)
    else if p.msg.arg0 == auth_signature
    then ok (check_signature env p.data_bytes t s)
    else if p.msg.arg0 == auth_rsapublickey
    then adb_auth_confirm_key env p.data_bytes t s
    else ok s

-- The socket is given a remote socket for its peer. create_remote_socket ends the process for the id 0.
unfoldable pub create_remote_peer : ℕ → ℕ → ℕ → Sockets → Outcome Sockets
create_remote_peer p id t s =
    if id == 0
    then abort
    else ok (put_sock p (record (s.sock p) { peer = some (remote_peer id t) }) s)

unfoldable pub handle_open :
    (List ℕ → Option ℕ) → Bool → Room → Packet → ℕ → Sockets → Outcome Sockets
unfolding c_string create_local_service_socket create_remote_peer local_socket_ready send_packet
handle_open service_to_fd is_root room p t s =
    let name = c_string (take (p.msg.data_length - 1) p.data_bytes) in
    let q = room.address in
    if p.msg.arg0 == 0
    then ok s
    else if p.msg.arg1 == 0
    then (create_local_service_socket room is_root (service_to_fd name) name s >>= λ (made, s1).
        if made
        then (create_remote_peer q p.msg.arg0 t s1 >>= λ s2.
            ok (local_socket_ready q (send_packet (bare a_okay (s2.sock q).id p.msg.arg0) t s2)))
        else ok (send_packet (bare a_clse 0 p.msg.arg0) t s1))
    else ok s

-- s->peer->id == arg0, where there is a peer.
unfoldable pub okay_peer : ℕ → Option Peer → Packet → ℕ → Sockets → Outcome Sockets
unfolding create_remote_peer local_socket_ready
okay_peer q none p t s = create_remote_peer q p.msg.arg0 t s >>= λ s'. ok (local_socket_ready q s')
okay_peer q (some peer) p t s =
    if peer_id s.sock peer == p.msg.arg0 then ok (local_socket_ready q s) else ok s

unfoldable pub handle_okay : Packet → ℕ → Sockets → Outcome Sockets
unfolding find_local_socket okay_peer
handle_okay p t s =
    if p.msg.arg0 == 0
    then ok s
    else if p.msg.arg1 == 0
    then ok s
    else elim (find_local_socket p.msg.arg1 0 s.sock s.list) [
      | none ↦ ok s
      | some q ↦ okay_peer q (s.sock q).peer p t s
    ]

-- Is the peer on another transport?
abbrev pub peer_elsewhere : (ℕ → Sock) → Option Peer → ℕ → Bool
peer_elsewhere sock none t = false
peer_elsewhere sock (some peer) t = not (peer_transport sock peer == t)

unfoldable pub handle_clse : Packet → ℕ → Sockets → Outcome Sockets
unfolding find_local_socket local_socket_close_locked
handle_clse p t s =
    if p.msg.arg1 == 0 then ok s else elim (find_local_socket p.msg.arg1 p.msg.arg0 s.sock s.list) [
      | none ↦ ok s
      | some q ↦
          (if (p.msg.arg0 == 0) && peer_elsewhere s.sock (s.sock q).peer t
            then ok s
            else local_socket_close_locked q s)
    ]

-- The enqueue, and the OKAY where it says that the socket is ready for more.
unfoldable pub write_to : List Wrote → ℕ → Packet → ℕ → Sockets → Outcome Sockets
unfolding local_socket_enqueue send_packet
write_to ws q p t s =
    local_socket_enqueue ws q (take p.msg.data_length p.data_bytes) s >>= λ (waits, s').
    ok (if waits then s' else send_packet (bare a_okay (s'.sock q).id p.msg.arg0) t s')

unfoldable pub handle_wrte : List Wrote → Packet → ℕ → Sockets → Outcome Sockets
unfolding find_local_socket write_to
handle_wrte ws p t s =
    if p.msg.arg0 == 0
    then ok s
    else if p.msg.arg1 == 0
    then ok s
    else elim (find_local_socket p.msg.arg1 p.msg.arg0 s.sock s.list) [
      | none ↦ ok s
      | some q ↦ write_to ws q p t s
    ]

-- What the packets of sockets meet: service_to_fd, the user, the room for a new socket, and the answers
-- to the writes.
pub record Services : Type 0 where
  pub service_to_fd : List ℕ → Option ℕ
  pub is_root : Bool
  pub room : Room
  pub writes : List Wrote

unfoldable pub handle_for_sockets : Services → Packet → ℕ → Sockets → Outcome Sockets
unfolding handle_open handle_okay handle_clse handle_wrte
handle_for_sockets v p t s =
    if p.msg.command == a_open
    then handle_open v.service_to_fd v.is_root v.room p t s
    else if p.msg.command == a_okay
    then handle_okay p t s
    else if p.msg.command == a_clse
    then handle_clse p t s
    else if p.msg.command == a_wrte
    then handle_wrte v.writes p t s
    else ok s

-- The packets for sockets wait for the transport to be online.
unfoldable pub handle_packet : Bool → Surroundings → Services → Packet → ℕ → Adb → Outcome Adb
unfolding handle_sync handle_cnxn handle_auth handle_for_sockets
handle_packet auth_enabled env v p t s =
    if p.msg.command == a_sync
    then handle_sync p t s
    else if p.msg.command == a_cnxn
    then handle_cnxn auth_enabled env p t s
    else if p.msg.command == a_auth
    then handle_auth env p t s
    else if (s.transport t).online
    then in_sockets (handle_for_sockets v p t) s
    else ok s
