-- ===== src/Daemon/State.antt =====
-- adb/adb.h, adb/adb.cpp: the transports of adbd beside its sockets.
use adb_wide.Base.{
  ℕ, Bool, true, false, Option, none, some, List, [], ◌∷◌, ◌==◌, if◌then◌else◌, update,
}
use adb_wide.Fdevent.State.{Outcome, ok, ◌>>=◌}
use adb_wide.Transport.Packet.{max_payload, Packet}
use adb_wide.Sockets.State.{local_peer, remote_peer, other_peer, Sockets}
use adb_wide.Sockets.Remote.{send_packet, packet_of}
use adb_wide.Sockets.Close.{close_alone, drop_peer}

-- The connection states of adb.h that a transport of adbd takes.
pub data ConnectionState : Type 0 where
  offline bootloader device host recovery sideload unauthorized : ConnectionState

-- The part of `atransport` that packets change; its `auth_fde` is at an address.
pub record Transport : Type 0 where
  pub connection_state : ConnectionState
  pub online : Bool
  pub failed_auth_attempts : ℕ
  pub token : List ℕ
  pub auth_fde : ℕ

-- The static variables of adb_auth_client.c; -1 and a null pointer are `none`. `prompts` are the
-- messages to the framework, the latest first.
pub record Auth : Type 0 where
  pub framework_fd : Option ℕ
  pub usb_transport : Option ℕ
  pub needs_retry : Bool
  pub prompts : List (List ℕ)

-- The daemon: the transports by address.
pub record Adb : Type 0 where
  pub sockets : Sockets
  pub transport : ℕ → Transport
  pub auth : Auth

abbrev pub put_transport : ℕ → Transport → Adb → Adb
put_transport t x s = record s { transport = update s.transport t x }

abbrev pub put_sockets : Sockets → Adb → Adb
put_sockets k s = record s { sockets = k }

-- The call of the sockets, with the transports left alone.
abbrev pub in_sockets : (Sockets → Outcome Sockets) → Adb → Outcome Adb
in_sockets f s = f s.sockets >>= λ k. ok (put_sockets k s)

abbrev pub send : Packet → ℕ → Adb → Adb
send p t s = put_sockets (send_packet p t s.sockets) s

unfoldable pub handle_online : ℕ → Adb → Adb
handle_online t s = put_transport t (record (s.transport t) { online = true }) s

-- remote_socket_disconnect of the remote socket that is the peer of the socket, if it is of the
-- transport.
unfoldable pub remote_socket_disconnect : ℕ → ℕ → Sockets → Outcome Sockets
unfolding close_alone
remote_socket_disconnect t p s = elim (s.sock p).peer [
  | none ↦ ok s
  | some q ↦ elim q [
    | local_peer k ↦ ok s
    | other_peer id u ↦ ok s
    | remote_peer id u ↦ (if u == t then close_alone p (drop_peer p s) else ok s)
  ]
]

unfoldable pub disconnect_each : ℕ → List ℕ → Sockets → Outcome Sockets
unfolding remote_socket_disconnect
disconnect_each t [] s = ok s
disconnect_each t (p ∷ ps) s = remote_socket_disconnect t p s >>= disconnect_each t ps

-- usb_disconnected, which the transport calls if it is the one that waits for the framework.
unfoldable pub usb_disconnected : ℕ → Auth → Auth
usb_disconnected t a = elim a.usb_transport [
  | none ↦ a
  | some u ↦ (if u == t then record a { usb_transport = none; needs_retry = false } else a)
]

-- run_transport_disconnects: the remote sockets of the transport are the peers of sockets on the list.
unfoldable pub run_transport_disconnects : ℕ → Adb → Outcome Adb
unfolding disconnect_each usb_disconnected
run_transport_disconnects t s = disconnect_each t s.sockets.list s.sockets >>= λ k.
    ok (record s { sockets = k; auth = usb_disconnected t s.auth })

unfoldable pub handle_offline : ℕ → Adb → Outcome Adb
unfolding run_transport_disconnects
handle_offline t s =
    run_transport_disconnects t (put_transport t (record (s.transport t) { online = false }) s)

abbrev pub a_cnxn : ℕ
a_cnxn = 0x4e584e43

abbrev pub a_version : ℕ
a_version = 0x01000000

-- The packet of send_connect with the data that fill_connect_data writes.
unfoldable pub send_connect : List ℕ → ℕ → Adb → Adb
unfolding send_packet
send_connect banner t s = send (packet_of a_cnxn a_version max_payload banner) t s
