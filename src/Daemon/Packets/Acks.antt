-- ===== src/Daemon/Packets/Acks.antt =====
-- adb/adb.cpp, adb/sockets.cpp: a WRTE packet and the OKAY that answers it.
use adb_wide.Base.{
  ℕ, ◌≡◌, refl, ◌∙◌, ap, sym, subst, Bool, true, false, some, List, [], ◌∷◌, ◌++◌, take, ◌==◌,
  if◌then◌else◌, if_cases, arith,
}
use adb_wide.Fdevent.State.{Outcome, ok, abort, ◌>>=◌}
use adb_wide.Transport.Packet.{Packet, seal, bare}
use adb_wide.Sockets.State.{remote_peer, Sock, Sockets, find_local_socket}
use adb_wide.Sockets.Pieces.{Wrote}
use adb_wide.Sockets.Remote.{a_okay, send_packet}
use adb_wide.Sockets.Close.{is_empty}
use adb_wide.Sockets.Local.{local_socket_enqueue, write_ready}
use adb_wide.Sockets.Local.Stream.{NoBroken}
use adb_wide.Sockets.Local.Flow.{
  stream, stream_of, IsPolled, OnlyQueue, Enqueued, local_socket_enqueue-Enqueued,
}
use adb_wide.Sockets.Local.Ready.{Told, Flowed, HasPeer, write_ready-Flowed}
use adb_wide.Daemon.Packets.{write_to, handle_wrte}

-- The events that the socket has while something waits in its queue: each time that its descriptor is
-- ready for writing, with the answers to the writes of that time.
unfoldable pub drive : List (List Wrote) → ℕ → Sockets → Outcome Sockets
unfolding write_ready
drive [] q s = ok s
drive (ws ∷ wss) q s =
    let idle = drive wss q s in
    if is_empty (s.sock q).pkts then idle else (write_ready ws q s >>= λ r. drive wss q r.1)

abbrev pub NoneBroken : List (List Wrote) → Type 0
NoneBroken [] = Unit {0}
NoneBroken (ws ∷ wss) = NoBroken ws × NoneBroken wss

-- Since the state s the socket has got the bytes, and they are acknowledged to its remote peer, once, if
-- none of them waits any more.
pub record Acked (q id t : ℕ) (bytes : List ℕ) (s s' : Sockets) : Type 0 where
  pub got : stream q s' ≡ stream q s ++ bytes
  pub okay : s'.outgoing ≡ (
      if is_empty (s'.sock q).pkts
      then (t, seal (bare a_okay (s.sock q).id id)) ∷ s.outgoing
      else s.outgoing)
  pub polled : IsPolled q s'
  pub only : OnlyQueue q s s'

abbrev pub Acknowledged : ℕ → ℕ → ℕ → List ℕ → Sockets → Outcome Sockets → Type 0
Acknowledged q id t bytes s abort = ⊥
Acknowledged q id t bytes s (ok s') = Acked q id t bytes s s'

Enqueued-Acked :
    (q id t : ℕ) (bytes : List ℕ) (s : Sockets) (out : Outcome (Bool × Sockets))
    → Enqueued q bytes s out
    → Acknowledged q id t bytes s (
        out >>= λ (waits, s').
        ok (if waits then s' else send_packet (bare a_okay (s'.sock q).id id) t s'))
unfolding Enqueued send_packet IsPolled
Enqueued-Acked q id t bytes s abort h = h
Enqueued-Acked q id t bytes s (ok (true, s')) h = record {
  got = h.0;
  okay = ground (arith, h.1, h.4);
  polled = h.2;
  only = h.3;
}
Enqueued-Acked q id t bytes s (ok (false, s')) h =
    let s'' = send_packet (bare a_okay (s'.sock q).id id) t s' in
    let same : (s'.sock q).id ≡ (s.sock q).id = ap (λ f. f.id) h.3 in
    record {
      got = stream_of q s'' (s'.sock q) refl ∙ sym (stream_of q s' (s'.sock q) refl) ∙ h.0;
      okay = ground (arith, h.1, h.4, same);
      polled = h.2;
      only = h.3;
    }

-- What of the socket does not change while it is written to.
OnlyQueue-trans :
    (q : ℕ) (s s1 s' : Sockets) → OnlyQueue q s s1 → OnlyQueue q s1 s' → OnlyQueue q s s'
OnlyQueue-trans q s s1 s' h k = k ∙ ap (λ (f : Sock). record f { pkts = (s'.sock q).pkts }) h

Flowed-Acked :
    (q id t : ℕ) (bytes : List ℕ) (s s1 : Sockets) (out : Outcome (Bool × Sockets))
    → (s.sock q).peer ≡ some (remote_peer id t)
    → Acked q id t bytes s s1
    → is_empty (s1.sock q).pkts ≡ false
    → Flowed q s1 out
    → Acknowledged q id t bytes s (out >>= λ r. ok r.1)
unfolding Flowed Told
Flowed-Acked q id t bytes s s1 abort has a wait h = h
Flowed-Acked q id t bytes s s1 (ok (true, s')) has a wait (flow, waits, polled, only, told) =
    record {
      got = flow ∙ a.got;
      okay = ground (arith, a.okay, told.1);
      polled = polled;
      only = OnlyQueue-trans q s s1 s' a.only only;
    }
Flowed-Acked q id t bytes s s1 (ok (false, s')) has a wait (flow, waits, polled, only, told) =
    let same_id : (s1.sock q).id ≡ (s.sock q).id = ap (λ f. f.id) a.only in
    let same_peer : (s1.sock q).peer ≡ some (remote_peer id t) = ap (λ f. f.peer) a.only ∙ has in
    let okay : s'.outgoing ≡ (t, seal (bare a_okay (s1.sock q).id id)) ∷ s1.outgoing =
      subst (Told q s1 s' false) same_peer told in
    record {
      got = flow ∙ a.got;
      okay = ground (arith, a.okay, okay, same_id);
      polled = polled;
      only = OnlyQueue-trans q s s1 s' a.only only;
    }

drive-Acked :
    (wss : List (List Wrote)) (q id t : ℕ) (bytes : List ℕ) (s s1 : Sockets)
    → NoneBroken wss
    → (s.sock q).closing ≡ false
    → (s.sock q).peer ≡ some (remote_peer id t)
    → Acked q id t bytes s s1
    → Acknowledged q id t bytes s (drive wss q s1)
unfolding drive
drive-Acked [] q id t bytes s s1 fine running has a = a
drive-Acked (ws ∷ wss) q id t bytes s s1 fine running has a =
    if_cases (Acknowledged q id t bytes s) (is_empty (s1.sock q).pkts) _ _
      (λ _. drive-Acked wss q id t bytes s s1 fine.1 running has a)
      (λ wait.
        go (write_ready ws q s1)
          (Flowed-Acked q id t bytes s s1 (write_ready ws q s1) has a wait (
            write_ready-Flowed ws q s1 fine.0 (ap (λ f. f.closing) a.only ∙ running)
              (subst HasPeer (sym (ap (λ f. f.peer) a.only ∙ has)) tt) a.polled))
          (λ s' a'. drive-Acked wss q id t bytes s s' fine.1 running has a'))
  where
    go :
        (out : Outcome (Bool × Sockets))
        → Acknowledged q id t bytes s (out >>= λ r. ok r.1)
        → ((s' : Sockets) → Acked q id t bytes s s' → Acknowledged q id t bytes s (drive wss q s'))
        → Acknowledged q id t bytes s (out >>= λ r. drive wss q r.1)
    go abort h k = h
    go (ok (waits, s')) h k = k s' h

write_to-Acked :
    (ws : List Wrote) (q : ℕ) (p : Packet) (t : ℕ) (s : Sockets)
    → NoBroken ws
    → IsPolled q s
    → Acknowledged q p.msg.arg0 t (take p.msg.data_length p.data_bytes) s (write_to ws q p t s)
unfolding write_to
write_to-Acked ws q p t s fine polled =
    let bytes = take p.msg.data_length p.data_bytes in
    Enqueued-Acked q p.msg.arg0 t bytes s (local_socket_enqueue ws q bytes s)
      (local_socket_enqueue-Enqueued ws q bytes s fine polled)

-- A WRTE packet for a socket that is not closing, is polled as its queue asks for, and has the sender
-- for its remote peer, followed by any number of times that its descriptor is ready, with no write that
-- fails but with EAGAIN: the daemon goes on; what was written to the descriptor, followed by the queue,
-- is what it was with the bytes of the packet at the end; and exactly one OKAY goes to the sender's transport
-- if nothing waits in the queue at the end, and no packet does if something waits. This is so whatever waits
-- in the queue before, the data of an earlier WRTE without its OKAY too.
pub handle_wrte-Acked :
    (ws : List Wrote) (wss : List (List Wrote)) (q : ℕ) (p : Packet) (t : ℕ) (s : Sockets)
    → NoBroken ws
    → NoneBroken wss
    → (p.msg.arg0 == 0) ≡ false
    → (p.msg.arg1 == 0) ≡ false
    → find_local_socket p.msg.arg1 p.msg.arg0 s.sock s.list ≡ some q
    → (s.sock q).closing ≡ false
    → (s.sock q).peer ≡ some (remote_peer p.msg.arg0 t)
    → IsPolled q s
    → Acknowledged q p.msg.arg0 t
        (take p.msg.data_length p.data_bytes)
        s
        (handle_wrte ws p t s >>= drive wss q)
unfolding handle_wrte
handle_wrte-Acked ws wss q p t s fine fines from to found running has polled =
    rw from (rw to (rw found (go (write_to ws q p t s) (write_to-Acked ws q p t s fine polled))))
  where
    bytes : List ℕ
    bytes = take p.msg.data_length p.data_bytes

    go :
        (out : Outcome Sockets)
        → Acknowledged q p.msg.arg0 t bytes s out
        → Acknowledged q p.msg.arg0 t bytes s (out >>= drive wss q)
    go abort h = h
    go (ok s') a = drive-Acked wss q p.msg.arg0 t bytes s s' fines running has a
