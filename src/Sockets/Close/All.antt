-- ===== src/Sockets/Close/All.antt =====
-- adb/sockets.cpp: close_all_sockets ends, with no socket of the transport left.
use adb_wide.Base.{
  ℕ, zero, suc, ◌<◌, ◌≡◌, refl, ◌∙◌, ap, sym, subst, Bool, true, false, ◌||◌, Option, none, some,
  List, [], ◌∷◌, length, contains, erase, arith, ◌==◌, if◌then◌else◌, if_cases, length-erase-le,
}
use adb_wide.Fdevent.Events.{fde_read}
use adb_wide.Fdevent.State.{Loop, Outcome, ok, abort, ◌>>=◌}
use adb_wide.Fdevent.Api.{fdevent_remove, fdevent_del}
use adb_wide.Fdevent.Invariant.{erase-absent}
use adb_wide.Sockets.Remote.{remote_socket_shutdown}
use adb_wide.Sockets.State.{
  Peer, local_peer, remote_peer, other_peer, shutdown_peer, forget_me, close_peer, Sock, Sockets,
  put_sock, put_loop, remove_socket,
}
use adb_wide.Sockets.Close.{
  local_socket_destroy, is_empty, close_alone, drop_peer, close_peer_first,
  local_socket_close_locked, on_transport, find_on_transport, close_all_sockets,
}

-- What holds of the state after a call, if it returns.
abbrev OnReturn : (Sockets → Type 0) → Outcome Sockets → Type 0
OnReturn P abort = Unit {0}
OnReturn P (ok s) = P s

OnReturn-bind :
    (P Q : Sockets → Type 0) (out : Outcome Sockets) (f : Sockets → Outcome Sockets)
    → OnReturn P out
    → ((s : Sockets) → P s → OnReturn Q (f s))
    → OnReturn Q (out >>= f)
OnReturn-bind P Q abort f h k = tt
OnReturn-bind P Q (ok s) f h k = k s h

remove_socket-list : (p : ℕ) (s : Sockets) → (remove_socket p s).list ≡ erase p s.list
unfolding remove_socket
remove_socket-list p s = ground (arith, erase-absent p s.list)

-- The rest of local_socket_destroy, after the fdevent.
destroy_rest-list :
    (p : ℕ) (exit_on_close : Bool) (s s' : Sockets)
    → s'.list ≡ s.list
    → OnReturn
        (λ s'. s'.list ≡ erase p s.list)
        (if exit_on_close then abort else ok (remove_socket p s'))
destroy_rest-list p true s s' h = tt
destroy_rest-list p false s s' h = remove_socket-list p s' ∙ ap (erase p) h

destroy-list :
    (p : ℕ) (s : Sockets) → OnReturn (λ s'. s'.list ≡ erase p s.list) (local_socket_destroy p s)
unfolding local_socket_destroy
destroy-list p s = go (fdevent_remove (s.sock p).fde s.loop)
  where
    go :
        (out : Outcome Loop)
        → OnReturn
            (λ s'. s'.list ≡ erase p s.list)
            (out >>= λ loop.
              let s' =
                remove_socket p (put_sock p (record (s.sock p) { pkts = [] }) (put_loop loop s)) in
              if (s.sock p).exit_on_close then abort else ok s')
    go abort = tt
    go (ok loop) =
        destroy_rest-list p (s.sock p).exit_on_close s
          (put_sock p (record (s.sock p) { pkts = [] }) (put_loop loop s)) refl

close_alone-list :
    (p : ℕ) (s : Sockets) → OnReturn (λ s'. s'.list ≡ erase p s.list) (close_alone p s)
unfolding close_alone
close_alone-list p s =
    let f = s.sock p in
    if_cases (OnReturn (λ s'. s'.list ≡ erase p s.list)) (f.closing || is_empty f.pkts) _ _
      (λ _. destroy-list p s)
      λ _.
        remove_socket-list p (
          put_loop (fdevent_del f.fde fde_read s.loop) (put_sock p (record f { closing = true }) s))

-- Each closing takes one socket off the list at least.
length-erase-lt : (p : ℕ) (l : List ℕ) → contains p l ≡ true → length (erase p l) < length l
length-erase-lt p [] h = cc
length-erase-lt p (x ∷ l) h = ground (arith, length-erase-lt p l)

length-erase-erase :
    (p q : ℕ) (l : List ℕ) → contains p l ≡ true → length (erase p (erase q l)) < length l
length-erase-erase p q [] h = cc
length-erase-erase p q (x ∷ l) h =
    if_cases (λ r. length (erase p r) < suc (length l)) (q == x) _ _
      (λ _. ground (arith, length-erase-le p l))
      (λ _.
        ground
          (arith, length-erase-erase p q l, length-erase-le p (erase q l), length-erase-le q l))

OnReturn-mono :
    (P Q : Sockets → Type 0) (out : Outcome Sockets)
    → ((s : Sockets) → P s → Q s)
    → OnReturn P out
    → OnReturn Q out
OnReturn-mono P Q abort k h = tt
OnReturn-mono P Q (ok s) k h = k s h

-- The list is shorter than that of s.
abbrev IsShorter : Sockets → Sockets → Type 0
IsShorter s s' = length s'.list < length s.list

close_alone-IsShorter :
    (p : ℕ) (s s1 : Sockets)
    → contains p s.list ≡ true
    → s1.list ≡ s.list
    → OnReturn (IsShorter s) (close_alone p s1)
close_alone-IsShorter p s s1 here same =
    OnReturn-mono _ _ (close_alone p s1)
      (λ s' e.
        subst (λ l. length l < length s.list) (sym (e ∙ ap (erase p) same))
          (length-erase-lt p s.list here))
      (close_alone-list p s1)

close_locked-IsShorter :
    (p : ℕ) (s : Sockets)
    → contains p s.list ≡ true
    → OnReturn (IsShorter s) (local_socket_close_locked p s)
unfolding local_socket_close_locked close_peer_first
close_locked-IsShorter p s here = go (s.sock p).peer
  where
    go :
        (peer : Option Peer)
        → OnReturn (IsShorter s) (close_peer_first p peer s >>= λ s'. close_alone p s')
    go none = close_alone-IsShorter p s s here refl
    go (some (other_peer id transport)) =
        close_alone-IsShorter p s
          (drop_peer p
            (record s { asked = (p, close_peer) ∷ (p, forget_me) ∷ (p, shutdown_peer) ∷ s.asked }))
          here refl
    go (some (remote_peer id transport)) =
        close_alone-IsShorter p s
          (drop_peer p (remote_socket_shutdown (s.sock p).id id transport s)) here refl
    go (some (local_peer q)) =
        OnReturn-bind (λ s'. s'.list ≡ erase q s.list) (IsShorter s) _ (λ s'. close_alone p s')
          (OnReturn-bind (λ s'. s'.list ≡ erase q s.list) (λ s'. s'.list ≡ erase q s.list)
            (close_alone q (drop_peer q s)) (λ s'. ok (drop_peer p s'))
            (close_alone-list q (drop_peer q s)) (λ s' e. e))
          (λ s' e.
            OnReturn-mono _ _ (close_alone p s')
              (λ s'' e'.
                subst (λ l. length l < length s.list) (sym (e' ∙ ap (erase p) e))
                  (length-erase-erase p q s.list here))
              (close_alone-list p s'))

find-contains :
    (sock : ℕ → Sock) (t : ℕ) (l : List ℕ) (p : ℕ)
    → find_on_transport sock t l ≡ some p
    → contains p l ≡ true
unfolding find_on_transport
find-contains sock t [] p h = cc
find-contains sock t (x ∷ l) p h = ground (arith, find-contains sock t l p)

find-none :
    (sock : ℕ → Sock) (t : ℕ) (l : List ℕ) (p : ℕ)
    → find_on_transport sock t l ≡ none
    → contains p l ≡ true
    → on_transport sock t p ≡ false
unfolding find_on_transport
find-none sock t [] p h c = cc
find-none sock t (x ∷ l) p h c = ground (arith, find-none sock t l p)

-- The process goes on with no socket of the transport on the list, or ends by exit_on_close.
pub Cleared : ℕ → Option (Outcome Sockets) → Type 0
Cleared t none = ⊥
Cleared t (some abort) = Unit {0}
Cleared t (some (ok s)) = (p : ℕ) → contains p s.list ≡ true → on_transport s.sock t p ≡ false

-- With more fuel than there are sockets on the list, the restarts of close_all_sockets come to an
-- end. Unless a socket ended the process (exit_on_close, or a fatal error of fdevent_remove), no
-- socket that is on the list then is of the transport, nor has a peer that is.
pub close_all_sockets_ends :
    (fuel t : ℕ) (s : Sockets) → length s.list < fuel → Cleared t (close_all_sockets fuel t s)
unfolding close_all_sockets Cleared
close_all_sockets_ends zero t s h = omega (arith, h)
close_all_sockets_ends (suc fuel) t s h =
    found (find_on_transport s.sock t s.list) refl
      λ s' k. close_all_sockets_ends fuel t s' (omega (arith, k, h))
  where
    Rest : Type 0
    Rest = (s' : Sockets) → IsShorter s s' → Cleared t (close_all_sockets fuel t s')

    closed :
        (out : Outcome Sockets)
        → OnReturn (IsShorter s) out
        → Rest
        → Cleared t (elim out [ abort ↦ some abort | ok s' ↦ close_all_sockets fuel t s' ])
    closed abort k rest = tt
    closed (ok s') k rest = rest s' k

    found :
        (r : Option ℕ)
        → find_on_transport s.sock t s.list ≡ r
        → Rest
        → Cleared t (elim r [
          | none ↦ some (ok s)
          | some p ↦ elim (local_socket_close_locked p s) [
            | abort ↦ some abort
            | ok s' ↦ close_all_sockets fuel t s'
          ]
        ])
    found none e rest = λ p c. find-none s.sock t s.list p e c
    found (some p) e rest =
        closed (local_socket_close_locked p s)
          (close_locked-IsShorter p s (find-contains s.sock t s.list p e)) rest
