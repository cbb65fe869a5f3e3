-- ===== src/Daemon/Auth.antt =====
-- adb/adb_auth_client.c, adb/adb.cpp: the tokens, the keys and the framework that confirms them.
use adb_wide.Base.{
  ℕ, Bool, true, false, ◌||◌, Option, none, some, List, [], ◌∷◌, ◌==◌, if◌then◌else◌, ltb, length,
}
use adb_wide.Base.Int.{pos}
use adb_wide.Fdevent.Events.{fde_read}
use adb_wide.Fdevent.State.{client, Outcome, ok, abort, ◌>>=◌}
use adb_wide.Fdevent.Table.{Memory}
use adb_wide.Fdevent.Api.{fdevent_install, fdevent_add, fdevent_remove}
use adb_wide.Transport.Packet.{max_payload}
use adb_wide.Sockets.State.{put_loop}
use adb_wide.Sockets.Remote.{send_packet, packet_of}
use adb_wide.Daemon.State.{Auth, Adb, put_transport, put_sockets, send, handle_online, send_connect}

abbrev pub a_auth : ℕ
a_auth = 0x48545541

abbrev pub auth_token : ℕ
auth_token = 1

abbrev pub auth_signature : ℕ
auth_signature = 2

abbrev pub auth_rsapublickey : ℕ
auth_rsapublickey = 3

-- RSANUMBYTES
abbrev pub rsa_num_bytes : ℕ
rsa_num_bytes = 256

-- What the daemon meets: a line of a key file is decoded to a key, if it is one of the right size and
-- length; the signature check of the library; the lines of the key files; the token that is drawn, if
-- /dev/urandom gives it; the banner; whether the socket of the framework takes a message; memory.
pub record Surroundings : Type 0 where
  pub key_of_line : List ℕ → Option (List ℕ)
  pub rsa_verify : List ℕ → List ℕ → List ℕ → Bool
  pub key_lines : List (List ℕ)
  pub fresh_token : Option (List ℕ)
  pub banner : List ℕ
  pub framework_takes : Bool
  pub memory : Memory

-- A line up to its first blank or tab.
unfoldable pub cut_line : List ℕ → List ℕ
cut_line [] = []
cut_line (c ∷ cs) = if c == b' ' || c == 9 then [] else c ∷ cut_line cs

-- read_keys, over the lines of the files one after another: a line that is no key is passed over.
unfoldable pub read_keys : (List ℕ → Option (List ℕ)) → List (List ℕ) → List (List ℕ)
unfolding cut_line
read_keys decode [] = []
read_keys decode (l ∷ ls) =
    let keys = read_keys decode ls in
    elim (decode (cut_line l)) [ none ↦ keys | some key ↦ key ∷ keys ]

-- list_for_each with RSA_verify.
unfoldable pub any_verifies : (List ℕ → Bool) → List (List ℕ) → Bool
any_verifies check [] = false
any_verifies check (key ∷ keys) = if check key then true else any_verifies check keys

unfoldable pub adb_auth_verify : Surroundings → List ℕ → List ℕ → Bool
unfolding read_keys any_verifies
adb_auth_verify env token sig =
    if length sig == rsa_num_bytes
    then any_verifies (λ key. env.rsa_verify key sig token)
        (read_keys env.key_of_line env.key_lines)
    else false

unfoldable pub send_auth_request : Surroundings → ℕ → Adb → Adb
unfolding send_packet
send_auth_request env t s = elim env.fresh_token [
  | none ↦ s
  | some token ↦
      send (packet_of a_auth auth_token 0 token) t
        (put_transport t (record (s.transport t) { token = token }) s)
]

unfoldable pub adb_auth_verified : Surroundings → ℕ → Adb → Adb
unfolding handle_online send_connect
adb_auth_verified env t s = send_connect env.banner t (handle_online t s)

-- The bytes of a text up to its null byte, and whether the last byte of the data is one.
unfoldable pub c_string : List ℕ → List ℕ
c_string [] = []
c_string (c ∷ cs) = if c == 0 then [] else c ∷ c_string cs

unfoldable pub ends_with_null : List ℕ → Bool
ends_with_null [] = false
ends_with_null (c ∷ []) = c == 0
ends_with_null (c ∷ d ∷ cs) = ends_with_null (d ∷ cs)

-- The part of adb_auth_confirm_key that asks the framework. adb_auth_event has the number 3 among the
-- callbacks.
unfoldable pub ask_framework : Surroundings → ℕ → List ℕ → ℕ → Adb → Outcome Adb
unfolding c_string fdevent_install fdevent_add
ask_framework env fd key t s =
    let msg = b'P' ∷ b'K' ∷ c_string key in
    let f = (s.transport t).auth_fde in
    if ltb (length msg) max_payload
    then (if env.framework_takes
        then (fdevent_install env.memory f (pos fd) (client 3) t s.sockets.loop >>= λ loop.
            ok (record s {
              sockets = put_loop (fdevent_add f fde_read loop) s.sockets;
              auth = record s.auth { prompts = msg ∷ s.auth.prompts };
            }))
        else ok s)
    else ok s

-- The transport is kept for the framework's answer if none is. An empty key reads the byte before it,
-- the last of the message's magic, which is not 0 for A_AUTH.
unfoldable pub adb_auth_confirm_key : Surroundings → List ℕ → ℕ → Adb → Outcome Adb
unfolding ends_with_null ask_framework
adb_auth_confirm_key env key t s =
    let a = elim s.auth.usb_transport as (λ _. Auth) [
      | none ↦ record s.auth { usb_transport = some t }
      | some u ↦ s.auth
    ] in
    let s1 = record s { auth = a } in
    elim s.auth.framework_fd [
      | none ↦ ok (record s { auth = record a { needs_retry = true } })
      | some fd ↦ (if ends_with_null key then ask_framework env fd key t s1 else ok s1)
    ]

-- What the framework's socket gives: an error, "OK", or anything else.
pub data FrameworkSays : Type 0 where
  framework_gone framework_ok framework_other : FrameworkSays

unfoldable pub adb_auth_event : Surroundings → FrameworkSays → Adb → Outcome Adb
unfolding fdevent_remove adb_auth_verified
adb_auth_event env framework_gone s =
    let gone = λ (x : Adb). record x { auth = record x.auth { framework_fd = none } } in
    elim s.auth.usb_transport [
      | none ↦ ok (gone s)
      | some u ↦ fdevent_remove (s.transport u).auth_fde s.sockets.loop >>= λ loop.
          ok (gone (put_sockets (put_loop loop s.sockets) s))
    ]
adb_auth_event env framework_ok s = elim s.auth.usb_transport [
  | none ↦ ok s
  | some u ↦ ok (adb_auth_verified env u s)
]
adb_auth_event env framework_other s = ok s

-- With the descriptor that accept gives, `none` for an error. A null transport is dereferenced.
unfoldable pub adb_auth_listener : Surroundings → Option ℕ → Adb → Outcome Adb
unfolding send_auth_request
adb_auth_listener env none s = ok s
adb_auth_listener env (some fd) s =
    let s1 = record s { auth = record s.auth { framework_fd = some fd } } in
    if s.auth.needs_retry
    then (elim s.auth.usb_transport [
      | none ↦ abort
      | some u ↦
          ok (send_auth_request env u (record s1 { auth = record s1.auth { needs_retry = false } }))
    ])
    else ok s1

-- With the control socket of adbd, if there is one, and whether listen works; the listener's fdevent is
-- at an address, and adb_auth_listener has the number 4 among the callbacks.
unfoldable pub adb_auth_init : Surroundings → ℕ → Option ℕ → Bool → Adb → Outcome Adb
unfolding fdevent_install fdevent_add
adb_auth_init env listener none listens s = ok s
adb_auth_init env listener (some fd) listens s =
    if listens
    then (fdevent_install env.memory listener (pos fd) (client 4) 0 s.sockets.loop >>= λ loop.
        ok (put_sockets (put_loop (fdevent_add listener fde_read loop) s.sockets) s))
    else ok s
