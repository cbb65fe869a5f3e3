-- ===== src/Sockets/Smart/Feed.antt =====
-- adb/sockets.cpp: the request does not depend on how its bytes are cut into packets.
use mathlib.Core.List.{append_assoc, append-nil, flatten}
use adb_wide.Base.{
  ℕ, zero, suc, ◌+◌, ◌≤◌, ◌<◌, ◌≡◌, refl, ◌∙◌, ap, sym, false, none, some, List, [], ◌∷◌, ◌++◌,
  take, drop, length, length-append, length-drop, take-append, ltb, Bool-cases, inl, inr, ◌⊎◌,
  subst, arith,
}
use adb_wide.Transport.Packet.{max_payload}
use adb_wide.Jdwp.Text.{hex4}
use adb_wide.Sockets.Smart.Unhex.{unhex_from-append, unhex-hex4}
use adb_wide.Daemon.Auth.{c_string}
use adb_wide.Sockets.Smart.{
  unhex, Request, waiting, bad_request, service, read_name, read_request, add_to_request, feed,
}

take-append_le : (n : ℕ) (xs ys : List ℕ) → n ≤ length xs → take n (xs ++ ys) ≡ take n xs
take-append_le zero xs ys h = refl
take-append_le (suc n) [] ys h = absurd (omega arith)
take-append_le (suc n) (x ∷ xs) ys h = ap (λ l. x ∷ l) (take-append_le n xs ys (omega arith))

drop-append_le : (n : ℕ) (xs ys : List ℕ) → n ≤ length xs → drop n (xs ++ ys) ≡ drop n xs ++ ys
drop-append_le zero xs ys h = refl
drop-append_le (suc n) [] ys h = absurd (omega arith)
drop-append_le (suc n) (x ∷ xs) ys h = drop-append_le n xs ys (omega arith)

-- The name of a request that is there is among its bytes.
name-append :
    (len : ℕ) (xs ys : List ℕ)
    → len + 4 ≤ length xs
    → take len (drop 4 (xs ++ ys)) ≡ take len (drop 4 xs)
name-append len xs ys h =
    ap (take len) (drop-append_le 4 xs ys (omega arith))
    ∙ take-append_le len (drop 4 xs) ys (omega (arith, length-drop {0} 4 xs))

read_name-append :
    (len : ℕ) (xs ys : List ℕ)
    → (read_name len xs ≡ waiting xs) ⊎ (read_name len (xs ++ ys) ≡ read_name len xs)
unfolding read_name
read_name-append len xs ys = elim (Bool-cases (ltb (length xs) (len + 4))) [
  | inl part ↦ elim (Bool-cases (ltb len 1)) [
    | inl none_asked ↦ inr (rw none_asked)
    | inr some_asked ↦ elim (Bool-cases (ltb 1024 len)) [
      | inl many_asked ↦ inr (rw some_asked (rw many_asked))
      | inr fair ↦ inl (rw some_asked (rw fair (rw part)))
    ]
  ]
  | inr whole ↦ inr (whole_name len xs ys whole)
]
  where
    whole_name :
        (len : ℕ) (xs ys : List ℕ)
        → ltb (length xs) (len + 4) ≡ false
        → read_name len (xs ++ ys) ≡ read_name len xs
    whole_name len xs ys whole =
        let more : ltb (length (xs ++ ys)) (len + 4) ≡ false =
          ground (arith, length-append {0} xs ys) in
        rw (whole, more, name-append len xs ys (ground (arith, whole)))

-- A request that waits keeps its bytes; more bytes do not change one that has failed or is there.
read_request-append :
    (xs ys : List ℕ) → (read_request xs ≡ waiting xs) ⊎ (read_request (xs ++ ys) ≡ read_request xs)
unfolding read_request
read_request-append xs ys = elim (Bool-cases (ltb (length xs) 4)) [
  | inl few ↦ inl (rw few)
  | inr enough ↦
      (let more : ltb (length (xs ++ ys)) 4 ≡ false = ground (arith, length-append {0} xs ys) in
        let same = unhex_from-append 0 4 xs ys (ground (arith, enough)) in
        rw (enough, more, same) (read_name-append (unhex xs 4) xs ys))
]

-- A request that waits has kept exactly the bytes that have come.
read_request-waiting : (xs kept : List ℕ) → read_request xs ≡ waiting kept → kept ≡ xs
unfolding read_request read_name
read_request-waiting xs kept h = ground arith

-- What follows one packet, with the bytes that have come with it and those that come in all.
feed_on :
    (ps : List (List ℕ)) (bytes whole : List ℕ) (r : Request)
    → (r ≡ waiting bytes → feed (some bytes) ps ≡ read_request whole)
    → (r ≡ waiting bytes) ⊎ (read_request whole ≡ r)
    → ((kept : List ℕ) → r ≡ waiting kept → kept ≡ bytes)
    → (elim r as (λ _. Request) [
      | waiting kept ↦ feed (some kept) ps
      | bad_request ↦ bad_request
      | service name ↦ service name
    ])
      ≡ read_request whole
feed_on ps bytes whole (waiting kept) go ends same =
    let e = same kept refl in ap (λ b. feed (some b) ps) e ∙ go (ap waiting e)
feed_on ps bytes whole bad_request go (inl w) same = cc
feed_on ps bytes whole bad_request go (inr e) same = sym e
feed_on ps bytes whole (service name) go (inl w) same = cc
feed_on ps bytes whole (service name) go (inr e) same = sym e

add_with_room :
    (kept p : List ℕ)
    → ltb max_payload (length kept + length p) ≡ false
    → add_to_request (some kept) p ≡ read_request (kept ++ p)
unfolding add_to_request
add_with_room kept p room = rw room

feed_kept :
    (kept : List ℕ) (ps : List (List ℕ))
    → read_request kept ≡ waiting kept
    → length (kept ++ flatten ps) ≤ max_payload
    → feed (some kept) ps ≡ read_request (kept ++ flatten ps)
unfolding feed flatten
feed_kept kept [] waits fits = sym (ap read_request (append-nil kept) ∙ waits)
feed_kept kept (p ∷ ps) waits fits =
    let assoc = append_assoc kept p (flatten ps) in
    let room : ltb max_payload (length kept + length p) ≡ false =
      ground (arith, length-append {0} kept (p ++ flatten ps), length-append {0} p (flatten ps)) in
    subst
      (λ r.
        (elim r as (λ _. Request) [
          | waiting kept ↦ feed (some kept) ps
          | bad_request ↦ bad_request
          | service name ↦ service name
        ])
        ≡ read_request (kept ++ (p ++ flatten ps)))
      (sym (add_with_room kept p room))
      (feed_on ps (kept ++ p) (kept ++ (p ++ flatten ps)) (read_request (kept ++ p))
        (λ w. feed_kept (kept ++ p) ps w (omega (arith, ap length assoc)) ∙ ap read_request assoc)
        (settled assoc (read_request-append (kept ++ p) (flatten ps)))
        (λ k e. read_request-waiting (kept ++ p) k e))
  where
    settled :
        (kept ++ p) ++ flatten ps ≡ kept ++ (p ++ flatten ps)
        → (read_request (kept ++ p) ≡ waiting (kept ++ p))
          ⊎ (read_request ((kept ++ p) ++ flatten ps) ≡ read_request (kept ++ p))
        → (read_request (kept ++ p) ≡ waiting (kept ++ p))
          ⊎ (read_request (kept ++ (p ++ flatten ps)) ≡ read_request (kept ++ p))
    settled e (inl w) = inl w
    settled e (inr l) = inr (sym (ap read_request e) ∙ l)

-- However its bytes are cut into packets, the smart socket makes of a request of up to MAX_PAYLOAD bytes
-- what it makes of them in one packet: it waits for more with all of them kept, fails, or has the service.
pub feed-flatten :
    (ps : List (List ℕ))
    → length (flatten ps) ≤ max_payload
    → feed none ps ≡ read_request (flatten ps)
unfolding feed add_to_request flatten
feed-flatten [] fits = unfold read_request in refl
feed-flatten (p ∷ ps) fits =
    feed_on ps p (p ++ flatten ps) (read_request p) (λ w. feed_kept p ps w fits)
      (read_request-append p (flatten ps)) (λ k e. read_request-waiting p k e)

ge_test : (a b : ℕ) → b ≤ a → ltb a b ≡ false
ge_test a b h = ground arith

read_name-whole :
    (len : ℕ) (bytes : List ℕ)
    → ltb len 1 ≡ false
    → ltb 1024 len ≡ false
    → ltb (length bytes) (len + 4) ≡ false
    → read_name len bytes ≡ service (c_string (take len (drop 4 bytes)))
unfolding read_name
read_name-whole len bytes some_asked fair whole = rw some_asked (rw fair (rw whole))

read_request-enough :
    (bytes : List ℕ)
    → ltb (length bytes) 4 ≡ false
    → read_request bytes ≡ read_name (unhex bytes 4) bytes
unfolding read_request
read_request-enough bytes h = rw h

-- However its bytes are cut into packets, a name of 1 to 1024 bytes behind its length in four
-- hexadecimal digits is, up to its first null if it has one, the service that the smart socket has read, whatever follows in the same packets,
-- where all of them have up to MAX_PAYLOAD bytes.
pub feed-hex4 :
    (ps : List (List ℕ)) (name rest : List ℕ)
    → 0 < length name
    → length name ≤ 1024
    → length (flatten ps) ≤ max_payload
    → flatten ps ≡ hex4 (length name) ++ (name ++ rest)
    → feed none ps ≡ service (c_string name)
feed-hex4 ps name rest some_name short fits whole =
    let bytes = hex4 (length name) ++ (name ++ rest) in
    let len = unhex-hex4 (length name) (name ++ rest) (omega arith) in
    feed-flatten ps fits
    ∙ ap read_request whole
    ∙ read_request-enough bytes
        (ge_test (length bytes) 4 (omega (arith, length-append {0} name rest)))
    ∙ ap (λ n. read_name n bytes) len
    ∙ read_name-whole (length name) bytes (ge_test (length name) 1 (omega arith))
        (ge_test 1024 (length name) (omega arith))
        (ge_test (length bytes) (length name + 4) (omega (arith, length-append {0} name rest)))
    ∙ ap (λ t. service (c_string t)) (take-append name rest)
