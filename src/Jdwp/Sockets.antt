-- ===== src/Jdwp/Sockets.antt =====
-- adb/jdwp_service.c: the sockets of the "jdwp" and "track-jdwp" services.
use adb_wide.Base.{
  ℕ, Bool, true, false, Option, none, some, List, [], ◌∷◌, ◌++◌, erase, if◌then◌else◌, update,
}
use adb_wide.Transport.Packet.{max_payload}
use adb_wide.Jdwp.Text.{jdwp_process_list, jdwp_process_list_msg}
use adb_wide.Jdwp.State.{Jdwp, pids}

-- What a service socket asks of other sockets: the packet is given to its peer, the peer is closed, the
-- socket is taken off the list of local sockets, the peer forgets the socket.
pub data Ask : Type 0 where
  enqueue_peer : List ℕ → Ask
  close_peer forget_peer remove_self : Ask

-- jdwp_socket_ready: `pass` says that the list was sent before. What it asks, and the new `pass`.
unfoldable pub jdwp_socket_ready : Bool → Jdwp → List Ask × Bool
jdwp_socket_ready false s = (enqueue_peer (jdwp_process_list max_payload (pids s)) ∷ [], true)
jdwp_socket_ready true s = (close_peer ∷ [], true)

unfoldable pub jdwp_socket_close : Bool → List Ask
jdwp_socket_close has_peer =
    if has_peer then remove_self ∷ forget_peer ∷ close_peer ∷ [] else remove_self ∷ []

-- jdwp_socket_enqueue and jdwp_tracker_enqueue.
unfoldable pub refuse_enqueue : List Ask
refuse_enqueue = close_peer ∷ []

-- create_jdwp_tracker_service_socket: `address` is what calloc returns.
unfoldable pub create_tracker : Option ℕ → Jdwp → Option ℕ × Jdwp
create_tracker none s = (none, s)
create_tracker (some t) s = (
  some t,
  record s { trackers = s.trackers ++ t ∷ []; need_update = update s.need_update t true },
)

unfoldable pub jdwp_tracker_ready : ℕ → Jdwp → Jdwp
jdwp_tracker_ready t s =
    if s.need_update t
    then record s {
      need_update = update s.need_update t false;
      sent = (t, jdwp_process_list_msg max_payload (pids s)) ∷ s.sent;
    }
    else s

unfoldable pub jdwp_tracker_close : Bool → ℕ → Jdwp → List Ask × Jdwp
jdwp_tracker_close has_peer t s = (
  if has_peer then forget_peer ∷ close_peer ∷ remove_self ∷ [] else remove_self ∷ [],
  record s { trackers = erase t s.trackers },
)
