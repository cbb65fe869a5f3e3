-- ===== src/Sockets/Local/Flow.antt =====
-- adb/sockets.cpp: local_socket_enqueue and the FDE_WRITE event keep the stream of a socket.
use mathlib.Core.List.{append_assoc, append-nil, flatten}
use adb_wide.Base.{
  ℕ, ◌≡◌, refl, ◌∙◌, ap, sym, subst, Bool, true, false, not, List, [], ◌∷◌, ◌++◌, ◌==◌,
  if◌then◌else◌, arith, update_self, if_cases,
}
use adb_wide.Fdevent.Events.{fde_read, fde_write, bits_or, bits_and, bits_not}
use adb_wide.Fdevent.State.{Loop, Outcome, ok, abort}
use adb_wide.Fdevent.Api.{fdevent_add, fdevent_del}
use adb_wide.Fdevent.Watch.{wanted-fdevent_set, fde-fdevent_set_ne}
use adb_wide.Sockets.State.{Sock, Sockets}
use adb_wide.Sockets.Pieces.{Wrote, Piece, all_written, blocked, broken_off, write_packet}
use adb_wide.Sockets.Close.{is_empty}
use adb_wide.Sockets.Local.{put_written, add_packet, after_write, local_socket_enqueue}
use adb_wide.Sockets.Local.Stream.{
  left_of, write_packet_lem, NoBroken, NotBrokenOff, write_packet-NotBrokenOff,
}

-- The bytes written to a descriptor, in the order of the writing.
pub sent : ℕ → List (ℕ × List ℕ) → List ℕ
sent fd [] = []
sent fd ((fd', bytes) ∷ ws) = if fd' == fd then sent fd ws ++ bytes else sent fd ws

-- The bytes written to the descriptor of the socket, and those that wait in its queue.
pub stream : ℕ → Sockets → List ℕ
unfolding sent flatten
stream p s = sent (s.sock p).fd s.written ++ flatten (s.sock p).pkts

-- The socket waits to be ready for writing just when its queue is not empty.
unfoldable pub IsPolled : ℕ → Sockets → Type 0
IsPolled p s = (s.loop.fde (s.sock p).fde).wanted.write ≡ not (is_empty (s.sock p).pkts)

flatten-append_one : (ps : List (List ℕ)) (p : List ℕ) → flatten (ps ++ p ∷ []) ≡ flatten ps ++ p
unfolding flatten
flatten-append_one [] p = append-nil p
flatten-append_one (q ∷ ps) p =
    ap (λ l. q ++ l) (flatten-append_one ps p) ∙ sym (append_assoc q (flatten ps) p)

is_empty-append_one : (ps : List (List ℕ)) (p : List ℕ) → is_empty (ps ++ p ∷ []) ≡ false
is_empty-append_one [] p = refl
is_empty-append_one (q ∷ ps) p = refl

is_empty-nil : (ps : List (List ℕ)) → is_empty ps ≡ true → ps ≡ []
is_empty-nil [] h = refl
is_empty-nil (p ∷ ps) h = cc

write-fdevent_add : (p : ℕ) (l : Loop) → ((fdevent_add p fde_write l).fde p).wanted.write ≡ true
unfolding fdevent_add
write-fdevent_add p l =
    ap (λ e. e.write) (wanted-fdevent_set p (bits_or (l.fde p).wanted fde_write) l) ∙ ground arith

pub write-fdevent_del :
    (p : ℕ) (l : Loop) → ((fdevent_del p fde_write l).fde p).wanted.write ≡ false
unfolding fdevent_del
write-fdevent_del p l =
    ap (λ e. e.write) (wanted-fdevent_set p (bits_and (l.fde p).wanted (bits_not fde_write)) l)
    ∙ ground arith

pub write-fdevent_add_read :
    (p k : ℕ) (l : Loop) → ((fdevent_add k fde_read l).fde p).wanted.write ≡ (l.fde p).wanted.write
unfolding fdevent_add
write-fdevent_add_read p k l = ground (
  arith,
  wanted-fdevent_set k (bits_or (l.fde k).wanted fde_read) l,
  fde-fdevent_set_ne k p (bits_or (l.fde k).wanted fde_read) l,
)

-- With the socket as it is in the state s.
pub stream_of :
    (p : ℕ) (s : Sockets) (f : Sock)
    → s.sock p ≡ f
    → stream p s ≡ sent f.fd s.written ++ flatten f.pkts
unfolding stream
stream_of p s f e = ap (λ g. sent g.fd s.written ++ flatten g.pkts) e

pub IsPolled-socket :
    (p : ℕ) (s : Sockets) (f : Sock)
    → s.sock p ≡ f
    → (s.loop.fde f.fde).wanted.write ≡ not (is_empty f.pkts)
    → IsPolled p s
unfolding IsPolled
IsPolled-socket p s f e h =
    subst (λ g. (s.loop.fde g.fde).wanted.write ≡ not (is_empty g.pkts)) (sym e) h

pub sent-more :
    (fd : ℕ) (bytes : List ℕ) (ws : List (ℕ × List ℕ))
    → sent fd ((fd, bytes) ∷ ws) ≡ sent fd ws ++ bytes
unfolding sent
sent-more fd bytes ws = ground arith

stream-add_packet :
    (p : ℕ) (left : List ℕ) (s : Sockets) → stream p (add_packet p left s) ≡ stream p s ++ left
unfolding stream
stream-add_packet p left s =
    let f = s.sock p in
    stream_of p (add_packet p left s) (record f { pkts = f.pkts ++ left ∷ [] })
      (update_self s.sock p (record f { pkts = f.pkts ++ left ∷ [] }))
    ∙ ap (λ l. sent f.fd s.written ++ l) (flatten-append_one f.pkts left)
    ∙ sym (append_assoc (sent f.fd s.written) (flatten f.pkts) left)

IsPolled-add_packet : (p : ℕ) (left : List ℕ) (s : Sockets) → IsPolled p (add_packet p left s)
IsPolled-add_packet p left s =
    let f = s.sock p in
    IsPolled-socket p (add_packet p left s) (record f { pkts = f.pkts ++ left ∷ [] })
      (update_self s.sock p (record f { pkts = f.pkts ++ left ∷ [] }))
      (write-fdevent_add f.fde s.loop ∙ sym (ap not (is_empty-append_one f.pkts left)))

stream-put_written :
    (p : ℕ) (out : List ℕ) (s : Sockets)
    → is_empty (s.sock p).pkts ≡ true
    → stream p (put_written p out s) ≡ stream p s ++ out
unfolding stream flatten
stream-put_written p out s h =
    let f = s.sock p in
    let none_left : flatten f.pkts ≡ [] = ap flatten (is_empty-nil f.pkts h) in
    ap (λ l. l ++ flatten f.pkts) (sent-more f.fd out s.written)
    ∙ ap (λ l. sent f.fd s.written ++ out ++ l) none_left
    ∙ append-nil (sent f.fd s.written ++ out)
    ∙ ap (λ l. l ++ out) (sym (append-nil (sent f.fd s.written)))
    ∙ ap (λ l. sent f.fd s.written ++ l ++ out) (sym none_left)

pub IsPolled-put_written :
    (p : ℕ) (out : List ℕ) (s : Sockets) → IsPolled p s → IsPolled p (put_written p out s)
unfolding IsPolled
IsPolled-put_written p out s h = h

-- Of the socket only its queue may have changed.
abbrev pub OnlyQueue : ℕ → Sockets → Sockets → Type 0
OnlyQueue p s s' = s'.sock p ≡ record (s.sock p) { pkts = (s'.sock p).pkts }

pub OnlyQueue-pkts :
    (p : ℕ) (s s' : Sockets) (pkts : List (List ℕ))
    → s'.sock p ≡ record (s.sock p) { pkts = pkts }
    → OnlyQueue p s s'
OnlyQueue-pkts p s s' pkts e = e ∙ ap (λ (f : Sock). record (s.sock p) { pkts = f.pkts }) (sym e)

-- The packet has joined the stream, the result says whether something waits, the socket is polled
-- accordingly, nothing else of it has changed, and no packet was sent.
unfoldable pub Enqueued : ℕ → List ℕ → Sockets → Outcome (Bool × Sockets) → Type 0
Enqueued p packet s abort = ⊥
Enqueued p packet s (ok (waits, s')) =
    (stream p s' ≡ stream p s ++ packet)
    × (waits ≡ not (is_empty (s'.sock p).pkts))
    × IsPolled p s'
    × OnlyQueue p s s'
    × (s'.outgoing ≡ s.outgoing)

enqueued_added :
    (p : ℕ) (left : List ℕ) (s : Sockets)
    → true ≡ not (is_empty ((add_packet p left s).sock p).pkts)
enqueued_added p left s =
    let f = s.sock p in
    sym (
      ap (λ g. not (is_empty g.pkts))
        (update_self s.sock p (record f { pkts = f.pkts ++ left ∷ [] }))
      ∙ ap not (is_empty-append_one f.pkts left))

OnlyQueue-add_packet : (p : ℕ) (left : List ℕ) (s : Sockets) → OnlyQueue p s (add_packet p left s)
OnlyQueue-add_packet p left s =
    let f = s.sock p in
    OnlyQueue-pkts p s (add_packet p left s) (f.pkts ++ left ∷ [])
      (update_self s.sock p (record f { pkts = f.pkts ++ left ∷ [] }))

after_write-Enqueued :
    (p : ℕ) (end : Piece) (out packet : List ℕ) (s : Sockets)
    → is_empty (s.sock p).pkts ≡ true
    → IsPolled p s
    → NotBrokenOff end
    → out ++ left_of end ≡ packet
    → Enqueued p packet s (after_write p end (put_written p out s))
unfolding Enqueued after_write
after_write-Enqueued p all_written out packet s e polled w h = (
  stream-put_written p out s e ∙ ap (λ l. stream p s ++ l) (sym (append-nil out) ∙ h),
  sym (ap not e),
  IsPolled-put_written p out s polled,
  refl,
  refl,
)
after_write-Enqueued p (blocked left) out packet s e polled w h = (
  stream-add_packet p left (put_written p out s)
      ∙ ap (λ l. l ++ left) (stream-put_written p out s e)
      ∙ append_assoc (stream p s) out left
      ∙ ap (λ l. stream p s ++ l) h,
  enqueued_added p left (put_written p out s),
  IsPolled-add_packet p left (put_written p out s),
  OnlyQueue-add_packet p left (put_written p out s),
  refl,
)
after_write-Enqueued p (broken_off left) out packet s e polled w h = absurd w

-- Where no write fails but with EAGAIN, and the socket waits to be ready for writing just when its
-- queue is not empty: local_socket_enqueue returns; what was written to the descriptor, followed by
-- the queue, is what it was with the bytes of the packet at the end; the result is 1 just when the
-- queue is not empty; the socket still waits for writing just then; nothing else of it has changed;
-- and no packet was sent.
pub local_socket_enqueue-Enqueued :
    (ws : List Wrote) (p : ℕ) (packet : List ℕ) (s : Sockets)
    → NoBroken ws
    → IsPolled p s
    → Enqueued p packet s (local_socket_enqueue ws p packet s)
unfolding local_socket_enqueue Enqueued
local_socket_enqueue-Enqueued ws p packet s fine polled =
    let (end, out, rest) = write_packet packet ws in
    if_cases (Enqueued p packet s) (is_empty (s.sock p).pkts) _ _
      (λ e.
        after_write-Enqueued p end out packet s e polled
          (write_packet-NotBrokenOff packet ws fine).0 (write_packet_lem packet ws))
      (λ e. (
        stream-add_packet p packet s,
        enqueued_added p packet s,
        IsPolled-add_packet p packet s,
        OnlyQueue-add_packet p packet s,
        refl,
      ))
