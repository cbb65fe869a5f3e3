-- ===== src/Sockets/Local.antt =====
-- adb/sockets.cpp: local_socket_enqueue, local_socket_ready and local_socket_event_func.
pub mod Stream
pub mod Flow
pub mod Ready
use adb_wide.Base.{
  ℕ, zero, suc, Bool, true, false, Option, none, some, List, [], ◌∷◌, ◌++◌, if◌then◌else◌,
}
use adb_wide.Fdevent.Events.{Events, fde_read, fde_write}
use adb_wide.Fdevent.State.{Outcome, ok, abort, ◌>>=◌}
use adb_wide.Fdevent.Api.{fdevent_add, fdevent_del}
use adb_wide.Sockets.Remote.{remote_socket_ready}
use adb_wide.Sockets.State.{
  Peer, local_peer, remote_peer, other_peer, ready_peer, Sock, Sockets, put_sock, put_loop,
}
use adb_wide.Sockets.Pieces.{
  Wrote, Piece, all_written, blocked, broken_off, write_packet, Drain, drained, stuck, failed,
  write_packets,
}
use adb_wide.Sockets.Close.{is_empty, local_socket_close_locked}

-- The record of bytes written to the socket's descriptor.
abbrev pub put_written : ℕ → List ℕ → Sockets → Sockets
put_written p bytes s = record s { written = ((s.sock p).fd, bytes) ∷ s.written }

-- From the label `enqueue` on.
abbrev pub add_packet : ℕ → List ℕ → Sockets → Sockets
add_packet p left s =
    let f = s.sock p in
    put_loop (fdevent_add f.fde fde_write s.loop)
      (put_sock p (record f { pkts = f.pkts ++ left ∷ [] }) s)

-- The end of the writing of the packet: the result is true for 1, "not ready".
unfoldable pub after_write : ℕ → Piece → Sockets → Outcome (Bool × Sockets)
unfolding local_socket_close_locked
after_write p all_written s = ok (false, s)
after_write p (blocked left) s = ok (true, add_packet p left s)
after_write p (broken_off left) s = local_socket_close_locked p s >>= λ s'. ok (true, s')

unfoldable pub local_socket_enqueue : List Wrote → ℕ → List ℕ → Sockets → Outcome (Bool × Sockets)
unfolding write_packet after_write
local_socket_enqueue ws p packet s =
    let (end, out, rest) = write_packet packet ws in
    if is_empty (s.sock p).pkts
    then after_write p end (put_written p out s)
    else ok (true, add_packet p packet s)

unfoldable pub local_socket_ready : ℕ → Sockets → Sockets
local_socket_ready p s = put_loop (fdevent_add (s.sock p).fde fde_read s.loop) s

-- s->peer->ready(s->peer); a null peer is dereferenced.
unfoldable pub ready_the_peer : ℕ → Option Peer → Sockets → Outcome Sockets
unfolding local_socket_ready remote_socket_ready
ready_the_peer p none s = abort
ready_the_peer p (some (local_peer q)) s = ok (local_socket_ready q s)
ready_the_peer p (some (remote_peer id transport)) s =
    ok (remote_socket_ready (s.sock p).id id transport s)
ready_the_peer p (some (other_peer id transport)) s =
    ok (record s { asked = (p, ready_peer) ∷ s.asked })

-- After the loop over the packets: true if the function returns.
unfoldable pub after_drain : ℕ → Drain → Sockets → Outcome (Bool × Sockets)
unfolding local_socket_close_locked ready_the_peer
after_drain p (stuck left) s = ok (true, put_sock p (record (s.sock p) { pkts = left }) s)
after_drain p (failed left) s =
    local_socket_close_locked p (put_sock p (record (s.sock p) { pkts = left }) s) >>= λ s'.
    ok (true, s')
after_drain p drained s =
    let f = s.sock p in
    let s1 = put_sock p (record f { pkts = [] }) s in
    if f.closing
    then (local_socket_close_locked p s1 >>= λ s'. ok (true, s'))
    else (ready_the_peer p f.peer (put_loop (fdevent_del f.fde fde_write s1.loop) s1) >>= λ s'.
        ok (false, s'))

-- The part of local_socket_event_func under FDE_WRITE.
unfoldable pub write_ready : List Wrote → ℕ → Sockets → Outcome (Bool × Sockets)
unfolding write_packets after_drain
write_ready ws p s =
    let (end, out) = write_packets (s.sock p).pkts ws in after_drain p end (put_written p out s)
