-- ===== src/Sockets/State.antt =====
-- adb/adb.h and adb/sockets.cpp: local sockets over the event loop of adb/fdevent.c, and their list.
pub mod Install
use adb_wide.Base.{
  ℕ, ◌+◌, ◌%◌, Bool, false, ◌||◌, Option, none, some, List, [], ◌∷◌, ◌++◌, erase, ◌==◌,
  if◌then◌else◌, update, contains,
}
use adb_wide.Fdevent.State.{Loop}
use adb_wide.Transport.Packet.{Packet}

-- The peer of a socket: a local socket at an address; a remote socket, which is its id and transport,
-- since its own peer is the socket that has it for a peer; or a socket of another kind, of which only the
-- id and the transport are known here.
pub data Peer : Type 0 where
  local_peer : ℕ → Peer
  remote_peer : ℕ → ℕ → Peer
  other_peer : ℕ → ℕ → Peer

-- The calls made of peers of another kind.
pub data Ask : Type 0 where
  shutdown_peer forget_me close_peer ready_peer : Ask
  enqueue_peer : List ℕ → Ask

-- `asocket` of a local socket. A packet of its queue is the bytes that are left of it; its fdevent is
-- at the address `fde`.
pub record Sock : Type 0 where
  pub id : ℕ
  pub fd : ℕ
  pub fde : ℕ
  pub peer : Option Peer
  pub transport : ℕ
  pub closing : Bool
  pub exit_on_close : Bool
  pub pkts : List (List ℕ)

-- The local sockets, by address; the rings local_socket_list and local_socket_closing_list, as lists of
-- addresses; the bytes written to descriptors and the calls of peers, and the
-- packets given to send_packet with their transports, the latest first.
pub record Sockets : Type 0 where
  pub loop : Loop
  pub sock : ℕ → Sock
  pub list : List ℕ
  pub closing_list : List ℕ
  pub next_id : ℕ
  pub written : List (ℕ × List ℕ)
  pub asked : List (ℕ × Ask)
  pub outgoing : List (ℕ × Packet)

abbrev pub put_sock : ℕ → Sock → Sockets → Sockets
put_sock p f s = record s { sock = update s.sock p f }

abbrev pub put_loop : Loop → Sockets → Sockets
put_loop l s = record s { loop = l }

-- The id of a peer, and its transport.
abbrev pub peer_id : (ℕ → Sock) → Peer → ℕ
peer_id sock (local_peer q) = (sock q).id
peer_id sock (remote_peer id transport) = id
peer_id sock (other_peer id transport) = id

abbrev pub peer_transport : (ℕ → Sock) → Peer → ℕ
peer_transport sock (local_peer q) = (sock q).transport
peer_transport sock (remote_peer id transport) = transport
peer_transport sock (other_peer id transport) = transport

abbrev pub has_peer_id : (ℕ → Sock) → Option Peer → ℕ → Bool
has_peer_id sock none id = false
has_peer_id sock (some p) id = peer_id sock p == id

-- The first socket of the list with the id decides.
unfoldable pub find_local_socket : ℕ → ℕ → (ℕ → Sock) → List ℕ → Option ℕ
find_local_socket local_id remote_id sock [] = none
find_local_socket local_id remote_id sock (p ∷ ps) =
    if (sock p).id == local_id
    then (if remote_id == 0 || has_peer_id sock (sock p).peer remote_id then some p else none)
    else find_local_socket local_id remote_id sock ps

-- Ids are words of 32 bits.
abbrev pub id_mod : ℕ
id_mod = 4294967296

unfoldable pub install_local_socket : ℕ → Sockets → Sockets
install_local_socket p s =
    let next = (s.next_id + 1) % id_mod in
    record (put_sock p (record (s.sock p) { id = s.next_id }) s) {
      next_id = if next == 0 then 1 else next;
      list = s.list ++ p ∷ [];
    }

-- A socket that is in neither ring is left alone.
unfoldable pub remove_socket : ℕ → Sockets → Sockets
remove_socket p s =
    if contains p s.list || contains p s.closing_list
    then record (put_sock p (record (s.sock p) { id = 0 }) s) {
      list = erase p s.list;
      closing_list = erase p s.closing_list;
    }
    else s
