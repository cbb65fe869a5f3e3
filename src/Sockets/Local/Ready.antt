-- ===== src/Sockets/Local/Ready.antt =====
-- adb/sockets.cpp: local_socket_event_func keeps the stream when the socket is ready for writing.
use mathlib.Core.List.{append_assoc, flatten}
use adb_wide.Base.{
  ℕ, ◌≡◌, refl, ◌∙◌, ap, sym, Bool, true, false, not, Option, none, some, List, [], ◌∷◌, ◌++◌,
  arith, update_self, subst, if_cases,
}
use adb_wide.Fdevent.Events.{fde_read, fde_write, bits_or}
use adb_wide.Fdevent.State.{Loop, Outcome, ok, abort, ◌>>=◌}
use adb_wide.Fdevent.Api.{fdevent_add, fdevent_del}
use adb_wide.Fdevent.Watch.{wanted-fdevent_set}
use adb_wide.Transport.Packet.{seal, bare}
use adb_wide.Sockets.Remote.{a_okay, remote_socket_ready}
use adb_wide.Sockets.State.{
  Peer, local_peer, remote_peer, other_peer, ready_peer, Sockets, put_sock, put_loop,
}
use adb_wide.Sockets.Pieces.{Wrote, Drain, drained, stuck, failed, write_packets}
use adb_wide.Sockets.Close.{is_empty}
use adb_wide.Sockets.Local.{
  put_written, local_socket_ready, ready_the_peer, after_drain, write_ready,
}
use adb_wide.Sockets.Local.Stream.{
  left_of_queue, write_packets_lem, NoBroken, DrainsOrWaits, write_packets-DrainsOrWaits,
}
use adb_wide.Sockets.Local.Flow.{
  sent, sent-more, stream, stream_of, IsPolled, IsPolled-socket, OnlyQueue, OnlyQueue-pkts,
  write-fdevent_del, write-fdevent_add_read,
}

-- The peer is told that it may go on when nothing waits any more, and is not called otherwise.
unfoldable pub Told : ℕ → Sockets → Sockets → Bool → Option Peer → Type 0
Told p s s' true peer = (s'.asked ≡ s.asked) × (s'.outgoing ≡ s.outgoing) × (s'.loop ≡ s.loop)
Told p s s' false none = ⊥
Told p s s' false (some (local_peer q)) = (s'.loop.fde (s.sock q).fde).wanted.read ≡ true
Told p s s' false (some (remote_peer id transport)) =
    s'.outgoing ≡ (transport, seal (bare a_okay (s.sock p).id id)) ∷ s.outgoing
Told p s s' false (some (other_peer id transport)) = s'.asked ≡ (p, ready_peer) ∷ s.asked

-- The stream is what it was, the result says whether something waits, the socket is polled
-- accordingly, only its queue has changed, and so is its peer told.
unfoldable pub Flowed : ℕ → Sockets → Outcome (Bool × Sockets) → Type 0
Flowed p s abort = ⊥
Flowed p s (ok (waits, s')) =
    (stream p s' ≡ stream p s)
    × (waits ≡ not (is_empty (s'.sock p).pkts))
    × IsPolled p s'
    × OnlyQueue p s s'
    × Told p s s' waits (s.sock p).peer

abbrev pub HasPeer : Option Peer → Type 0
HasPeer none = ⊥
HasPeer (some q) = Unit {0}

-- The socket with another queue, after a writing.
stream-step :
    (p : ℕ) (s s' : Sockets) (left : List (List ℕ)) (out : List ℕ)
    → s'.sock p ≡ record (s.sock p) { pkts = left }
    → s'.written ≡ ((s.sock p).fd, out) ∷ s.written
    → out ++ flatten left ≡ flatten (s.sock p).pkts
    → stream p s' ≡ stream p s
stream-step p s s' left out e w h =
    let f = s.sock p in
    let before = sent f.fd s.written in
    stream_of p s' (record f { pkts = left }) e
    ∙ ap (λ ws. sent f.fd ws ++ flatten left) w
    ∙ ap (λ l. l ++ flatten left) (sent-more f.fd out s.written)
    ∙ append_assoc before out (flatten left)
    ∙ ap (λ l. before ++ l) h
    ∙ sym (stream_of p s f refl)

read-fdevent_add : (p : ℕ) (l : Loop) → ((fdevent_add p fde_read l).fde p).wanted.read ≡ true
unfolding fdevent_add
read-fdevent_add p l =
    ap (λ e. e.read) (wanted-fdevent_set p (bits_or (l.fde p).wanted fde_read) l) ∙ ground arith

-- The state in which the peer is told, after a queue that was all written.
abbrev emptied : ℕ → List ℕ → Sockets → Sockets
emptied p out s =
    put_loop (fdevent_del (s.sock p).fde fde_write s.loop)
      (put_sock p (record (s.sock p) { pkts = [] }) (put_written p out s))

fde-emptied :
    (p q : ℕ) (out : List ℕ) (s : Sockets) → ((emptied p out s).sock q).fde ≡ (s.sock q).fde
fde-emptied p q out s = ground arith

-- A state that has the sockets and the bytes of the emptied one.
emptied-Flowed :
    (p : ℕ) (out : List ℕ) (s s' : Sockets)
    → s'.sock p ≡ record (s.sock p) { pkts = [] }
    → s'.written ≡ ((s.sock p).fd, out) ∷ s.written
    → (s'.loop.fde (s.sock p).fde).wanted.write ≡ false
    → out ++ [] ≡ flatten (s.sock p).pkts
    → Told p s s' false (s.sock p).peer
    → Flowed p s (ok (false, s'))
unfolding Flowed flatten
emptied-Flowed p out s s' e w polled h told = (
  stream-step p s s' [] out e w h,
  sym (ap (λ f. not (is_empty f.pkts)) e),
  IsPolled-socket p s' (record (s.sock p) { pkts = [] }) e polled,
  OnlyQueue-pkts p s s' [] e,
  told,
)

told-Flowed :
    (p : ℕ) (out : List ℕ) (s : Sockets) (peer : Option Peer)
    → HasPeer peer
    → (s.sock p).peer ≡ peer
    → out ++ [] ≡ flatten (s.sock p).pkts
    → Flowed p s (ready_the_peer p peer (emptied p out s) >>= λ s'. ok (false, s'))
unfolding Told ready_the_peer local_socket_ready remote_socket_ready
told-Flowed p out s none has e h = absurd has
told-Flowed p out s (some (local_peer q)) has e h =
    let f = s.sock p in
    let s1 = emptied p out s in
    emptied-Flowed p out s (local_socket_ready q s1) (update_self s.sock p (record f { pkts = [] }))
      refl (write-fdevent_add_read f.fde (s1.sock q).fde s1.loop ∙ write-fdevent_del f.fde s.loop) h
      (subst (Told p s (local_socket_ready q s1) false) (sym e) (
        ap (λ k. ((local_socket_ready q s1).loop.fde k).wanted.read) (sym (fde-emptied p q out s))
        ∙ read-fdevent_add (s1.sock q).fde s1.loop))
told-Flowed p out s (some (remote_peer id transport)) has e h =
    let f = s.sock p in
    let s1 = emptied p out s in
    let s2 = remote_socket_ready f.id id transport s1 in
    let same_id : (s1.sock p).id ≡ f.id =
      ap (λ g. g.id) (update_self s.sock p (record f { pkts = [] })) in
    subst (λ k. Flowed p s (ok (false, remote_socket_ready k id transport s1))) (sym same_id)
      (emptied-Flowed p out s s2 (update_self s.sock p (record f { pkts = [] })) refl
        (write-fdevent_del f.fde s.loop) h (subst (Told p s s2 false) (sym e) refl))
told-Flowed p out s (some (other_peer id transport)) has e h =
    let f = s.sock p in
    let s1 = emptied p out s in
    let s2 = record s1 { asked = (p, ready_peer) ∷ s1.asked } in
    emptied-Flowed p out s s2 (update_self s.sock p (record f { pkts = [] })) refl
      (write-fdevent_del f.fde s.loop) h (subst (Told p s s2 false) (sym e) refl)

after_drain-Flowed :
    (p : ℕ) (end : Drain) (out : List ℕ) (s : Sockets)
    → (s.sock p).closing ≡ false
    → HasPeer (s.sock p).peer
    → IsPolled p s
    → DrainsOrWaits (s.sock p).pkts end
    → out ++ left_of_queue end ≡ flatten (s.sock p).pkts
    → Flowed p s (after_drain p end (put_written p out s))
unfolding after_drain Flowed Told IsPolled left_of_queue
after_drain-Flowed p drained out s running has polled w h =
    if_cases (Flowed p s) (s.sock p).closing _ _ (λ c. cc)
      (λ _. told-Flowed p out s (s.sock p).peer has refl h)
after_drain-Flowed p (stuck left) out s running has polled w h =
    let f = s.sock p in
    let e = update_self s.sock p (record f { pkts = left }) in
    let s' = put_sock p (record f { pkts = left }) (put_written p out s) in
    (
      stream-step p s s' left out e refl h,
      sym (ap (λ g. not (is_empty g.pkts)) e ∙ ap not w.1),
      IsPolled-socket p s' (record f { pkts = left }) e (polled ∙ ap not (w.0 ∙ sym w.1)),
      OnlyQueue-pkts p s s' left e,
      (refl, refl, refl),
    )
after_drain-Flowed p (failed left) out s running has polled w h = absurd w

-- Where no write fails but with EAGAIN, and the socket is not closing, has a peer and waits to be
-- ready for writing just when its queue is not empty: the FDE_WRITE part of local_socket_event_func
-- returns; what was written to the descriptor, followed by the queue, is the same bytes in the same
-- order; it goes on to FDE_READ just when the queue is empty; the socket still waits for writing just
-- when it is not; nothing else of it has changed; and the peer is told to be ready then, a remote peer
-- by an OKAY packet; if something waits, no peer is called, no packet is sent, and every fdevent is as it
-- was.
pub write_ready-Flowed :
    (ws : List Wrote) (p : ℕ) (s : Sockets)
    → NoBroken ws
    → (s.sock p).closing ≡ false
    → HasPeer (s.sock p).peer
    → IsPolled p s
    → Flowed p s (write_ready ws p s)
unfolding write_ready
write_ready-Flowed ws p s fine running has polled =
    let (end, out) = write_packets (s.sock p).pkts ws in
    after_drain-Flowed p end out s running has polled
      (write_packets-DrainsOrWaits (s.sock p).pkts ws fine) (write_packets_lem (s.sock p).pkts ws)
