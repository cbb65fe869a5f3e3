-- ===== src/Sockets/Create.antt =====
-- adb/sockets.cpp: the creation of local sockets.
use adb_wide.Base.{
  ℕ, Bool, true, false, not, ◌&&◌, ◌||◌, Option, none, some, List, [], ◌∷◌, ◌==◌, if◌then◌else◌,
}
use adb_wide.Base.Int.{pos}
use adb_wide.Fdevent.State.{client, Outcome, ok, ◌>>=◌}
use adb_wide.Fdevent.Table.{Memory}
use adb_wide.Fdevent.Api.{fdevent_install}
use adb_wide.Sockets.State.{Sock, Sockets, put_sock, put_loop, install_local_socket}

-- Where calloc puts a socket, and its fdevent in it; what the table of the event loop meets.
pub record Room : Type 0 where
  pub address : ℕ
  pub fde_address : ℕ
  pub memory : Memory

-- A socket of calloc with its descriptor.
abbrev pub blank_socket : ℕ → ℕ → Sock
blank_socket fd fde = record {
  id = 0;
  fd = fd;
  fde = fde;
  peer = none;
  transport = 0;
  closing = false;
  exit_on_close = false;
  pkts = [];
}

-- Among the callbacks of clients local_socket_event_func has the number 0.
unfoldable pub create_local_socket : Room → ℕ → Sockets → Outcome Sockets
unfolding install_local_socket fdevent_install
create_local_socket room fd s =
    let p = room.address in
    let s' = install_local_socket p (put_sock p (blank_socket fd room.fde_address) s) in
    fdevent_install room.memory room.fde_address (pos fd) (client 0) p s'.loop >>= λ loop.
    ok (put_loop loop s')

unfoldable pub starts_with : List ℕ → List ℕ → Bool
starts_with [] name = true
starts_with (x ∷ xs) [] = false
starts_with (x ∷ xs) (y ∷ ys) = x == y && starts_with xs ys

-- "root:", "usb:" and "tcpip:"
abbrev pub root_prefix : List ℕ
root_prefix = b'r' ∷ b'o' ∷ b'o' ∷ b't' ∷ b':' ∷ []

abbrev pub usb_prefix : List ℕ
usb_prefix = b'u' ∷ b's' ∷ b'b' ∷ b':' ∷ []

abbrev pub tcpip_prefix : List ℕ
tcpip_prefix = b't' ∷ b'c' ∷ b'p' ∷ b'i' ∷ b'p' ∷ b':' ∷ []

-- The services after which adbd starts again.
abbrev pub restarts : Bool → List ℕ → Bool
restarts is_root name =
    (starts_with root_prefix name && not is_root)
    || starts_with usb_prefix name
    || starts_with tcpip_prefix name

-- create_local_service_socket of a name other than those of Jdwp, with what service_to_fd gives: whether
-- there is a socket.
unfoldable pub create_local_service_socket :
    Room → Bool → Option ℕ → List ℕ → Sockets → Outcome (Bool × Sockets)
unfolding create_local_socket starts_with
create_local_service_socket room is_root none name s = ok (false, s)
create_local_service_socket room is_root (some fd) name s = create_local_socket room fd s >>= λ s'.
    let p = room.address in
    ok (
      true,
      if restarts is_root name
          then put_sock p (record (s'.sock p) { exit_on_close = true }) s'
          else s',
    )
