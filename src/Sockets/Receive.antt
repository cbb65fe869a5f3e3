-- ===== src/Sockets/Receive.antt =====
-- adb/sockets.cpp: local_socket_event_func, the part under FDE_READ.
pub mod Relay
use adb_wide.Base.{
  ℕ, zero, suc, ◌-◌, Bool, true, false, ◌||◌, Option, none, some, List, [], ◌∷◌, ◌++◌, take, length,
  if◌then◌else◌,
}
use adb_wide.Fdevent.Events.{fde_read}
use adb_wide.Fdevent.State.{Outcome, ok, abort, ◌>>=◌}
use adb_wide.Fdevent.Api.{fdevent_del}
use adb_wide.Transport.Packet.{max_payload}
use adb_wide.Sockets.Remote.{remote_socket_enqueue}
use adb_wide.Sockets.State.{
  Peer, local_peer, remote_peer, other_peer, enqueue_peer, Sockets, put_loop,
}
use adb_wide.Sockets.Pieces.{Wrote}
use adb_wide.Sockets.Close.{local_socket_close_locked}
use adb_wide.Sockets.Local.{local_socket_enqueue}

-- What adb_read gives, one after another: bytes, 1 at least, of at most those that it is asked for;
-- EAGAIN; or 0 or another error. After the last, EAGAIN.
pub data Got : Type 0 where
  got : ℕ → List ℕ → Got
  nothing_yet the_end : Got

-- while(avail > 0) adb_read(...): the bytes read, and is_eof.
unfoldable pub read_payload : ℕ → List Got → List ℕ × Bool
read_payload zero gs = ([], false)
read_payload (suc avail) [] = ([], false)
read_payload (suc avail) (nothing_yet ∷ gs) = ([], false)
read_payload (suc avail) (the_end ∷ gs) = ([], true)
read_payload (suc avail) (got b bytes ∷ gs) =
    let piece = take avail bytes in
    let (more, is_eof) = read_payload (avail - length piece) gs in (b ∷ piece ++ more, is_eof)

-- The result of an enqueue.
pub data Accepted : Type 0 where
  gone taken full : Accepted

-- s->close(s) at the end.
unfoldable pub close_if_ended : Bool → ℕ → Sockets → Outcome Sockets
unfolding local_socket_close_locked
close_if_ended ended p s = if ended then local_socket_close_locked p s else ok s

-- What follows the enqueue, with its result: below 0, 0, and above.
unfoldable pub after_enqueue : Accepted → Bool → ℕ → Sockets → Outcome Sockets
unfolding close_if_ended
after_enqueue gone is_eof p s = ok s
after_enqueue taken is_eof p s =
    close_if_ended ((s.loop.fde (s.sock p).fde).force_eof || is_eof) p s
after_enqueue full is_eof p s =
    close_if_ended is_eof p (put_loop (fdevent_del (s.sock p).fde fde_read s.loop) s)

-- The result 0 or 1 of local_socket_enqueue.
abbrev pub as_answer : Bool × Sockets → Outcome (Accepted × Sockets)
as_answer (not_ready, s) = ok (if not_ready then full else taken, s)

-- s->peer->enqueue(s->peer, p). A peer of another kind answers what an argument says.
unfoldable pub enqueue_at :
    List Wrote → Accepted → ℕ → Peer → List ℕ → Sockets → Outcome (Accepted × Sockets)
unfolding local_socket_enqueue remote_socket_enqueue
enqueue_at ws answer p (local_peer q) bytes s = local_socket_enqueue ws q bytes s >>= as_answer
enqueue_at ws answer p (remote_peer id transport) bytes s =
    ok (full, remote_socket_enqueue (s.sock p).id id transport bytes s)
enqueue_at ws answer p (other_peer id transport) bytes s =
    ok (answer, record s { asked = (p, enqueue_peer bytes) ∷ s.asked })

unfoldable pub pass_on :
    List Wrote → Accepted → ℕ → Option Peer → List ℕ → Bool → Sockets → Outcome Sockets
unfolding close_if_ended after_enqueue enqueue_at
pass_on ws answer p none bytes is_eof s = close_if_ended is_eof p s
pass_on ws answer p (some q) [] is_eof s = close_if_ended is_eof p s
pass_on ws answer p (some q) (b ∷ bytes) is_eof s =
    enqueue_at ws answer p q (b ∷ bytes) s >>= λ r. after_enqueue r.0 is_eof p r.1

-- Where no packet was passed on, the result of adb_read is 0 only with is_eof, so that force_eof does
-- not count.
unfoldable pub read_ready : List Got → List Wrote → Accepted → ℕ → Sockets → Outcome Sockets
unfolding read_payload pass_on
read_ready gs ws answer p s =
    let (bytes, is_eof) = read_payload max_payload gs in
    pass_on ws answer p (s.sock p).peer bytes is_eof s
