-- ===== src/Sockets/State/Install.antt =====
-- adb/sockets.cpp: what find_local_socket finds after install_local_socket.
use adb_wide.Base.{
  ℕ, ◌≡◌, false, some, List, [], ◌∷◌, ◌++◌, contains, ◌==◌, if◌then◌else◌, if_cases, update, arith,
}
use adb_wide.Sockets.State.{Sock, Sockets, find_local_socket, install_local_socket}

-- No socket of the list has the id.
abbrev pub IsUnused : ℕ → (ℕ → Sock) → List ℕ → Type 0
IsUnused id sock [] = Unit {0}
IsUnused id sock (q ∷ l) = (((sock q).id == id) ≡ false) × IsUnused id sock l

find-new :
    (p : ℕ) (f : Sock) (sock : ℕ → Sock) (l : List ℕ)
    → contains p l ≡ false
    → IsUnused f.id sock l
    → find_local_socket f.id 0 (update sock p f) (l ++ p ∷ []) ≡ some p
unfolding find_local_socket
find-new p f sock [] h u = ground arith
find-new p f sock (q ∷ l) h u = ground (arith, u.0, find-new p f sock l (ground (arith, h)) u.1)

find-old :
    (p id : ℕ) (f : Sock) (sock : ℕ → Sock) (l : List ℕ)
    → contains p l ≡ false
    → (f.id == id) ≡ false
    → find_local_socket id 0 (update sock p f) (l ++ p ∷ []) ≡ find_local_socket id 0 sock l
unfolding find_local_socket
find-old p id f sock [] h u = ground arith
find-old p id f sock (q ∷ l) h u = ground (arith, find-old p id f sock l (ground (arith, h)) u)

-- For a socket that is not on the list, and a next id that no socket of the list has, after
-- install_local_socket the search for an id by itself finds the socket if it is that id, and gives what
-- it gave before for every other; the next id is not 0, also where the counter of 32 bits wraps.
pub install_local_socket-find :
    (p id : ℕ) (s : Sockets)
    → contains p s.list ≡ false
    → IsUnused s.next_id s.sock s.list
    → let s' = install_local_socket p s in
      (find_local_socket id 0 s'.sock s'.list
        ≡ (if s.next_id == id then some p else find_local_socket id 0 s.sock s.list))
      × ((s'.next_id == 0) ≡ false)
unfolding install_local_socket
install_local_socket-find p id s h u =
    let f = record (s.sock p) { id = s.next_id } in
    (
      if_cases (λ r. find_local_socket id 0 (update s.sock p f) (s.list ++ p ∷ []) ≡ r)
          (s.next_id == id) _ _ (λ e. ground (arith, e, find-new p f s.sock s.list h u))
          (λ e. find-old p id f s.sock s.list h e),
      ground arith,
    )
