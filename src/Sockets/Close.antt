-- ===== src/Sockets/Close.antt =====
-- adb/sockets.cpp: local_socket_destroy, local_socket_close_locked and close_all_sockets.
pub mod All
use adb_wide.Base.{
  ℕ, zero, suc, Bool, true, false, ◌||◌, Option, none, some, List, [], ◌∷◌, ◌++◌, ◌==◌,
  if◌then◌else◌,
}
use adb_wide.Fdevent.Events.{fde_read}
use adb_wide.Fdevent.State.{Outcome, ok, abort, ◌>>=◌}
use adb_wide.Fdevent.Api.{fdevent_remove, fdevent_del}
use adb_wide.Sockets.Remote.{remote_socket_shutdown}
use adb_wide.Sockets.State.{
  Peer, local_peer, remote_peer, other_peer, Ask, shutdown_peer, forget_me, close_peer, Sock,
  Sockets, put_sock, put_loop, peer_transport, remove_socket,
}

-- exit(1) at the end of it ends the process, as FATAL does.
unfoldable pub local_socket_destroy : ℕ → Sockets → Outcome Sockets
unfolding remove_socket
local_socket_destroy p s = fdevent_remove (s.sock p).fde s.loop >>= λ loop.
    let s' = remove_socket p (put_sock p (record (s.sock p) { pkts = [] }) (put_loop loop s)) in
    if (s.sock p).exit_on_close then abort else ok s'

abbrev pub is_empty : List (List ℕ) → Bool
is_empty [] = true
is_empty (p ∷ ps) = false

-- The part of local_socket_close_locked after the peer is dealt with.
unfoldable pub close_alone : ℕ → Sockets → Outcome Sockets
unfolding local_socket_destroy
close_alone p s =
    let f = s.sock p in
    let loop = fdevent_del f.fde fde_read s.loop in
    let s' = remove_socket p (put_loop loop (put_sock p (record f { closing = true }) s)) in
    if f.closing || is_empty f.pkts
    then local_socket_destroy p s
    else ok (record s' { closing_list = s'.closing_list ++ p ∷ [] })

abbrev pub drop_peer : ℕ → Sockets → Sockets
drop_peer p s = put_sock p (record (s.sock p) { peer = none }) s

-- The shutdown of another peer is called where it has one. A remote socket is gone when it is closed.
-- A local peer has no peer any more when it is closed, so its own closing does not come back.
unfoldable pub close_peer_first : ℕ → Option Peer → Sockets → Outcome Sockets
unfolding close_alone remote_socket_shutdown
close_peer_first p none s = ok s
close_peer_first p (some (local_peer q)) s =
    close_alone q (drop_peer q s) >>= λ s'. ok (drop_peer p s')
close_peer_first p (some (remote_peer id transport)) s =
    ok (drop_peer p (remote_socket_shutdown (s.sock p).id id transport s))
close_peer_first p (some (other_peer id transport)) s = ok (
    drop_peer p
      (record s { asked = (p, close_peer) ∷ (p, forget_me) ∷ (p, shutdown_peer) ∷ s.asked }))

unfoldable pub local_socket_close_locked : ℕ → Sockets → Outcome Sockets
unfolding close_peer_first close_alone
local_socket_close_locked p s = close_peer_first p (s.sock p).peer s >>= λ s'. close_alone p s'

abbrev pub on_transport : (ℕ → Sock) → ℕ → ℕ → Bool
on_transport sock t p =
    (sock p).transport == t
    || (elim (sock p).peer [ none ↦ false | some q ↦ peer_transport sock q == t ])

-- The first socket of the list on the transport.
unfoldable pub find_on_transport : (ℕ → Sock) → ℕ → List ℕ → Option ℕ
find_on_transport sock t [] = none
find_on_transport sock t (p ∷ ps) =
    if on_transport sock t p then some p else find_on_transport sock t ps

-- The loop with its restarts; `none` means that the fuel ran out.
unfoldable pub close_all_sockets : ℕ → ℕ → Sockets → Option (Outcome Sockets)
unfolding find_on_transport local_socket_close_locked
close_all_sockets zero t s = none
close_all_sockets (suc fuel) t s = elim (find_on_transport s.sock t s.list) [
  | none ↦ some (ok s)
  | some p ↦ elim (local_socket_close_locked p s) [
    | abort ↦ some abort
    | ok s' ↦ close_all_sockets fuel t s'
  ]
]
