-- ===== src/Sockets/Smart.antt =====
-- adb/sockets.cpp: how the smart socket reads a request for a service.
pub mod Unhex
pub mod Feed
pub mod Serial
pub mod Ends
use adb_wide.Base.{
  ℕ, zero, suc, ◌+◌, ◌-◌, ◌*◌, ◌%◌, Bool, true, false, ◌&&◌, Option, none, some, List, [], ◌∷◌,
  ◌++◌, take, drop, length, ltb, leb, ◌==◌, if◌then◌else◌,
}
use adb_wide.Base.Words.{u32_mod}
use adb_wide.Transport.Packet.{max_payload}
use adb_wide.Daemon.Auth.{c_string}

-- The value of a hexadecimal digit.
unfoldable pub digit : ℕ → Option ℕ
digit c =
    if leb b'0' c && leb c b'9'
    then some (c - b'0')
    else if leb b'a' c && leb c b'f'
    then some (c - b'a' + 10)
    else if leb b'A' c && leb c b'F'
    then some (c - b'A' + 10)
    else none

-- n << 4 | c in 32 bits, for the digits of the first len bytes. The bytes are there where it is called.
unfoldable pub unhex_from : ℕ → ℕ → List ℕ → ℕ
unfolding digit
unhex_from n zero s = n
unhex_from n (suc len) [] = n
unhex_from n (suc len) (c ∷ s) = elim (digit c) [
  | none ↦ 4294967295
  | some d ↦ unhex_from ((n * 16) % u32_mod + d) len s
]

abbrev pub unhex : List ℕ → ℕ → ℕ
unhex s len = unhex_from 0 len s

-- What the bytes that have come make of the request: it waits for more, fails, or is there, with the
-- bytes behind the length, up to the first null, as the service's name.
pub data Request : Type 0 where
  waiting : List ℕ → Request
  bad_request : Request
  service : List ℕ → Request

-- smart_socket_enqueue once the length is known.
unfoldable pub read_name : ℕ → List ℕ → Request
unfolding c_string
read_name len bytes =
    if ltb len 1
    then bad_request
    else if ltb 1024 len
    then bad_request
    else if ltb (length bytes) (len + 4)
    then waiting bytes
    else service (c_string (take len (drop 4 bytes)))

unfoldable pub read_request : List ℕ → Request
unfolding unhex_from read_name
read_request bytes = if ltb (length bytes) 4 then waiting bytes else read_name (unhex bytes 4) bytes

-- A packet is added to the one that is kept, if there is one.
unfoldable pub add_to_request : Option (List ℕ) → List ℕ → Request
unfolding read_request
add_to_request none bytes = read_request bytes
add_to_request (some kept) bytes =
    if ltb max_payload (length kept + length bytes)
    then bad_request
    else read_request (kept ++ bytes)

-- The packets of the peer, one after another, until the request fails or is there.
unfoldable pub feed : Option (List ℕ) → List (List ℕ) → Request
unfolding add_to_request
feed none [] = waiting []
feed (some kept) [] = waiting kept
feed kept (p ∷ ps) = elim (add_to_request kept p) [
  | waiting bytes ↦ feed (some bytes) ps
  | bad_request ↦ bad_request
  | service name ↦ service name
]
