-- ===== src/Sockets/Receive/Relay.antt =====
-- adb/sockets.cpp: what local_socket_event_func reads is what the peer gets.
use adb_wide.Base.{
  inl, inr, ◌⊎◌, subst, ℕ, zero, suc, ◌-◌, ◌≡◌, refl, ◌∙◌, ap, sym, Bool, true, false, ◌||◌, some,
  List, [], ◌∷◌, ◌++◌, take, length, if◌then◌else◌, if_cases, arith,
}
use mathlib.Core.List.{append-nil}
use adb_wide.Fdevent.Events.{fde_read, bits_and, bits_not}
use adb_wide.Fdevent.State.{Loop, Outcome, ok, abort, ◌>>=◌}
use adb_wide.Fdevent.Api.{fdevent_del}
use adb_wide.Fdevent.Watch.{wanted-fdevent_set, fde-fdevent_set_ne}
use adb_wide.Transport.Packet.{max_payload}
use adb_wide.Sockets.State.{local_peer, Sockets, put_loop}
use adb_wide.Sockets.Pieces.{Wrote, Piece, all_written, blocked, broken_off, write_packet}
use adb_wide.Sockets.Close.{is_empty, local_socket_close_locked}
use adb_wide.Sockets.Local.{put_written, after_write, local_socket_enqueue}
use adb_wide.Sockets.Local.Stream.{NoBroken}
use adb_wide.Sockets.Local.Flow.{
  stream, stream_of, IsPolled, Enqueued, local_socket_enqueue-Enqueued,
}
use adb_wide.Sockets.Receive.{
  Got, got, nothing_yet, the_end, read_payload, Accepted, as_answer, taken, full, close_if_ended,
  after_enqueue, enqueue_at, pass_on, read_ready,
}

-- The bytes that the descriptor gives before it has none, or ends.
abbrev pub arrived : List Got → List ℕ
arrived [] = []
arrived (got b bytes ∷ gs) = b ∷ bytes ++ arrived gs
arrived (nothing_yet ∷ gs) = []
arrived (the_end ∷ gs) = []

take-append_rest :
    (n : ℕ) (xs ys : List ℕ) → take n (xs ++ ys) ≡ take n xs ++ take (n - length (take n xs)) ys
take-append_rest zero xs ys = ap (λ k. take k ys) {x = 0} {y = 0 - 0} (omega arith)
take-append_rest (suc n) [] ys = ap (λ k. take k ys) {x = suc n} {y = suc n - 0} (omega arith)
take-append_rest (suc n) (x ∷ xs) ys =
    ap (λ l. x ∷ l)
      (take-append_rest n xs ys
        ∙ ap (λ k. take n xs ++ take k ys) {x = n - length (take n xs)}
            {y = suc n - suc (length (take n xs))} (omega arith))

read_payload_lem : (avail : ℕ) (gs : List Got) → (read_payload avail gs).0 ≡ take avail (arrived gs)
unfolding read_payload
read_payload_lem zero gs = refl
read_payload_lem (suc avail) [] = refl
read_payload_lem (suc avail) (nothing_yet ∷ gs) = refl
read_payload_lem (suc avail) (the_end ∷ gs) = refl
read_payload_lem (suc avail) (got b bytes ∷ gs) =
    ap (λ l. b ∷ l)
      (ap (λ l. take avail bytes ++ l) (read_payload_lem (avail - length (take avail bytes)) gs)
        ∙ sym (take-append_rest avail bytes (arrived gs)))

-- The descriptor does not end, nor fail with anything but EAGAIN.
abbrev pub NoEnd : List Got → Type 0
NoEnd [] = Unit {0}
NoEnd (got b bytes ∷ gs) = NoEnd gs
NoEnd (nothing_yet ∷ gs) = NoEnd gs
NoEnd (the_end ∷ gs) = ⊥

read_payload-NoEnd : (avail : ℕ) (gs : List Got) → NoEnd gs → (read_payload avail gs).1 ≡ false
unfolding read_payload
read_payload-NoEnd zero gs h = refl
read_payload-NoEnd (suc avail) [] h = refl
read_payload-NoEnd (suc avail) (nothing_yet ∷ gs) h = refl
read_payload-NoEnd (suc avail) (the_end ∷ gs) h = absurd h
read_payload-NoEnd (suc avail) (got b bytes ∷ gs) h =
    read_payload-NoEnd (avail - length (take avail bytes)) gs h

-- The peer's stream has the bytes at its end, the peer is polled as its queue asks for, and where the
-- queue is not empty after it got bytes the socket does not wait to be ready for reading.
pub Relayed : ℕ → ℕ → List ℕ → Outcome Sockets → Sockets → Type 0
Relayed p q bytes abort s = ⊥
Relayed p q bytes (ok s') s =
    (stream q s' ≡ stream q s ++ bytes)
    × IsPolled q s'
    × ((is_empty (s'.sock q).pkts ≡ true)
        ⊎ ((bytes ≡ []) ⊎ ((s'.loop.fde (s'.sock p).fde).wanted.read ≡ false)))

-- A packet that was taken at once changes neither the loop nor a socket.
abbrev Unmoved : Sockets → Outcome (Bool × Sockets) → Type 0
Unmoved s abort = Unit {0}
Unmoved s (ok (true, s')) = Unit {0}
Unmoved s (ok (false, s')) = (s'.loop ≡ s.loop) × (s'.sock ≡ s.sock)

after_write-Unmoved :
    (p : ℕ) (end : Piece) (out : List ℕ) (s : Sockets)
    → Unmoved s (after_write p end (put_written p out s))
unfolding after_write
after_write-Unmoved p all_written out s = (refl, refl)
after_write-Unmoved p (blocked left) out s = tt
after_write-Unmoved p (broken_off left) out s =
    go (local_socket_close_locked p (put_written p out s))
  where
    go : (r : Outcome Sockets) → Unmoved s (r >>= λ s'. ok (true, s'))
    go abort = tt
    go (ok s') = tt

enqueue-Unmoved :
    (ws : List Wrote) (p : ℕ) (packet : List ℕ) (s : Sockets)
    → Unmoved s (local_socket_enqueue ws p packet s)
unfolding local_socket_enqueue
enqueue-Unmoved ws p packet s =
    let (end, out, rest) = write_packet packet ws in
    if_cases (Unmoved s) (is_empty (s.sock p).pkts) _ _ (λ e. after_write-Unmoved p end out s)
      (λ e. tt)

events-fdevent_del :
    (p k : ℕ) (l : Loop)
    → (((fdevent_del k fde_read l).fde p).wanted.write ≡ (l.fde p).wanted.write)
      × (((fdevent_del k fde_read l).fde k).wanted.read ≡ false)
unfolding fdevent_del
events-fdevent_del p k l = ground (
  arith,
  wanted-fdevent_set k (bits_and (l.fde k).wanted (bits_not fde_read)) l,
  fde-fdevent_set_ne k p (bits_and (l.fde k).wanted (bits_not fde_read)) l,
)

full-Relayed :
    (p q : ℕ) (bytes : List ℕ) (s s' : Sockets)
    → Enqueued q bytes s (ok (true, s'))
    → Relayed p q bytes (after_enqueue full false p s') s
unfolding Relayed Enqueued after_enqueue close_if_ended IsPolled
full-Relayed p q bytes s s' h =
    let fde = (s'.sock p).fde in
    let s'' = put_loop (fdevent_del fde fde_read s'.loop) s' in
    let events = events-fdevent_del (s'.sock q).fde fde s'.loop in
    (
      stream_of q s'' (s'.sock q) refl ∙ sym (stream_of q s' (s'.sock q) refl) ∙ h.0,
      events.0 ∙ h.2,
      inr (inr events.1),
    )

taken-Relayed :
    (p q : ℕ) (bytes : List ℕ) (s s' : Sockets)
    → Enqueued q bytes s (ok (false, s'))
    → (s'.loop.fde (s'.sock p).fde).force_eof ≡ false
    → Relayed p q bytes (after_enqueue taken false p s') s
unfolding Enqueued Relayed after_enqueue close_if_ended
taken-Relayed p q bytes s s' h e =
    subst (λ c. Relayed p q bytes (if c || false then local_socket_close_locked p s' else ok s') s)
      (sym e) (h.0, h.2, inl (ground (arith, h.1)))

pass_on-Relayed :
    (ws : List Wrote) (answer : Accepted) (p q : ℕ) (bytes : List ℕ) (s : Sockets)
    → NoBroken ws
    → IsPolled q s
    → (s.loop.fde (s.sock p).fde).force_eof ≡ false
    → Relayed p q bytes (pass_on ws answer p (some (local_peer q)) bytes false s) s
unfolding pass_on Relayed close_if_ended enqueue_at Enqueued
pass_on-Relayed ws answer p q [] s fine polled e =
    (sym (append-nil (stream q s)), polled, inr (inl refl))
pass_on-Relayed ws answer p q (b ∷ bytes) s fine polled e =
    go (local_socket_enqueue ws q (b ∷ bytes) s)
      (local_socket_enqueue-Enqueued ws q (b ∷ bytes) s fine polled)
      (enqueue-Unmoved ws q (b ∷ bytes) s)
  where
    go :
        (r : Outcome (Bool × Sockets))
        → Enqueued q (b ∷ bytes) s r
        → Unmoved s r
        → Relayed p q (b ∷ bytes) (r >>= as_answer >>= λ a. after_enqueue a.0 false p a.1) s
    go abort h k = absurd h
    go (ok (true, s')) h k = full-Relayed p q (b ∷ bytes) s s' h
    go (ok (false, s')) h k = taken-Relayed p q (b ∷ bytes) s s' h (
        ap (λ l. (l.fde (s'.sock p).fde).force_eof) k.0
        ∙ ap (λ f. (s.loop.fde (f p).fde).force_eof) k.1
        ∙ e)

-- Where the descriptor has not ended, is not forced to, and its peer is a local socket whose writes
-- do not fail but with EAGAIN and which is polled as its queue asks for: the FDE_READ part of
-- local_socket_event_func returns; the first MAX_PAYLOAD bytes that the descriptor gave are at the
-- end of the peer's stream; the peer is still polled as its queue asks for; and if the peer got bytes
-- and its queue is not empty, the socket does not wait to be ready for reading.
pub read_ready-Relayed :
    (gs : List Got) (ws : List Wrote) (answer : Accepted) (p q : ℕ) (s : Sockets)
    → NoEnd gs
    → NoBroken ws
    → (s.sock p).peer ≡ some (local_peer q)
    → IsPolled q s
    → (s.loop.fde (s.sock p).fde).force_eof ≡ false
    → Relayed p q (take max_payload (arrived gs)) (read_ready gs ws answer p s) s
unfolding read_ready
read_ready-Relayed gs ws answer p q s lasts fine has polled e =
    let r = read_payload max_payload gs in
    subst (λ bytes. Relayed p q bytes (pass_on ws answer p (s.sock p).peer r.0 r.1 s) s)
      (read_payload_lem max_payload gs)
      (subst (λ peer. Relayed p q r.0 (pass_on ws answer p peer r.0 r.1 s) s) (sym has)
        (subst (λ c. Relayed p q r.0 (pass_on ws answer p (some (local_peer q)) r.0 c s) s)
          (sym (read_payload-NoEnd max_payload gs lasts))
          (pass_on-Relayed ws answer p q r.0 s fine polled e)))
