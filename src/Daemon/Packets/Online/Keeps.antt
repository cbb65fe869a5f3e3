-- ===== src/Daemon/Packets/Online/Keeps.antt =====
-- adb/adb.cpp, adb/adb_auth_client.c: the calls that bring no transport online.
use adb_wide.Base.{
  ℕ, ◌≡◌, refl, true, false, Option, none, some, List, ◌∷◌, ◌==◌, if◌then◌else◌, if_cases, ◌⊎◌, inl,
  inr, arith, ltb, length,
}
use adb_wide.Base.Int.{pos}
use adb_wide.Fdevent.State.{client, Loop, Outcome, ok, abort, ◌>>=◌}
use adb_wide.Fdevent.Api.{fdevent_install, fdevent_remove}
use adb_wide.Transport.Packet.{max_payload, Packet}
use adb_wide.Sockets.State.{Sockets, put_loop}
use adb_wide.Daemon.State.{
  offline, Transport, Auth, Adb, put_transport, put_sockets, in_sockets, send, disconnect_each,
  usb_disconnected, run_transport_disconnects, handle_offline,
}
use adb_wide.Daemon.Auth.{
  Surroundings, send_auth_request, c_string, ends_with_null, ask_framework, adb_auth_confirm_key,
  framework_gone, framework_other, adb_auth_event, adb_auth_listener,
}
use adb_wide.Daemon.Packets.{is_offline, handle_sync, connect, handle_cnxn}

-- After the call no transport is online that was not.
abbrev pub NotGained : Adb → Adb → Type 0
NotGained s s' =
    (t : ℕ) → ((s'.transport t).online ≡ false) ⊎ ((s'.transport t).online ≡ (s.transport t).online)

abbrev pub Keeps : Adb → Outcome Adb → Type 0
Keeps s abort = Unit {0}
Keeps s (ok s') = NotGained s s'

Keeps-bind :
    (s : Adb) (out : Outcome Adb) (f : Adb → Outcome Adb)
    → Keeps s out
    → ((s' : Adb) → Keeps s' (f s'))
    → Keeps s (out >>= f)
Keeps-bind s abort f h k = tt
Keeps-bind s (ok s') f h k = go (f s') (k s')
  where
    go : (out : Outcome Adb) → Keeps s' out → Keeps s out
    go abort l = tt
    go (ok s'') l = λ t. ground (arith, h t, l t)

pub in_sockets-Keeps : (f : Sockets → Outcome Sockets) (s : Adb) → Keeps s (in_sockets f s)
in_sockets-Keeps f s = go (f s.sockets)
  where
    go : (out : Outcome Sockets) → Keeps s (out >>= λ k. ok (put_sockets k s))
    go abort = tt
    go (ok k) = λ t. inr refl

pub put_transport-NotGained :
    (t : ℕ) (x : Transport) (s : Adb)
    → (x.online ≡ false) ⊎ (x.online ≡ (s.transport t).online)
    → NotGained s (put_transport t x s)
put_transport-NotGained t x s h = λ k. ground (arith, h)

handle_offline-Keeps : (t : ℕ) (s : Adb) → Keeps s (handle_offline t s)
unfolding handle_offline run_transport_disconnects
handle_offline-Keeps t s = go (disconnect_each t s.sockets.list s.sockets)
  where
    s1 : Adb
    s1 = put_transport t (record (s.transport t) { online = false }) s

    go :
        (out : Outcome Sockets)
        → Keeps s (out >>= λ k. ok (record s1 { sockets = k; auth = usb_disconnected t s1.auth }))
    go abort = tt
    go (ok k) = put_transport-NotGained t (record (s.transport t) { online = false }) s (inl refl)

send_auth_request-NotGained :
    (env : Surroundings) (t : ℕ) (s : Adb) → NotGained s (send_auth_request env t s)
unfolding send_auth_request
send_auth_request-NotGained env t s = λ k. ground arith

connect-NotGained :
    (env : Surroundings) (p : Packet) (t : ℕ) (s : Adb) → NotGained s (connect true env p t s)
unfolding connect send_auth_request
connect-NotGained env p t s = λ k. ground arith

take_offline-Keeps :
    (t : ℕ) (s : Adb)
    → Keeps s (
        handle_offline t
          (put_transport t (record (s.transport t) { connection_state = offline }) s))
take_offline-Keeps t s =
    let x = record (s.transport t) { connection_state = offline } in
    Keeps-bind s (ok (put_transport t x s)) (handle_offline t)
      (put_transport-NotGained t x s (inr refl)) (handle_offline-Keeps t)

pub handle_sync-Keeps : (p : Packet) (t : ℕ) (s : Adb) → Keeps s (handle_sync p t s)
unfolding handle_sync
handle_sync-Keeps p t s =
    if_cases (Keeps s) (p.msg.arg0 == 0) _ _
      (λ _. Keeps-bind s _ (λ s'. ok (send p t s')) (take_offline-Keeps t s) (λ s' k. inr refl))
      (λ _ k. inr refl)

pub handle_cnxn-Keeps :
    (env : Surroundings) (p : Packet) (t : ℕ) (s : Adb) → Keeps s (handle_cnxn true env p t s)
unfolding handle_cnxn
handle_cnxn-Keeps env p t s =
    if_cases (Keeps s) (is_offline (s.transport t).connection_state) _ _
      (λ _. connect-NotGained env p t s)
      (λ _.
        Keeps-bind s _ (λ s'. ok (connect true env p t s')) (take_offline-Keeps t s)
          (λ s'. connect-NotGained env p t s'))

loop-Keeps :
    (s : Adb) (out : Outcome Loop) (f : Loop → Adb)
    → ((l : Loop) → NotGained s (f l))
    → Keeps s (out >>= λ l. ok (f l))
loop-Keeps s abort f h = tt
loop-Keeps s (ok l) f h = h l

ask_framework-Keeps :
    (env : Surroundings) (fd : ℕ) (key : List ℕ) (t : ℕ) (s : Adb)
    → Keeps s (ask_framework env fd key t s)
unfolding ask_framework
ask_framework-Keeps env fd key t s =
    if_cases (Keeps s) (ltb (length (b'P' ∷ b'K' ∷ c_string key)) max_payload) _ _
      (λ _.
        if_cases (Keeps s) env.framework_takes _ _
          (λ _.
            loop-Keeps s
              (fdevent_install env.memory (s.transport t).auth_fde (pos fd) (client 3) t
                s.sockets.loop)
              _ (λ l k. inr refl))
          (λ _ k. inr refl))
      (λ _ k. inr refl)

pub adb_auth_confirm_key-Keeps :
    (env : Surroundings) (key : List ℕ) (t : ℕ) (s : Adb)
    → Keeps s (adb_auth_confirm_key env key t s)
unfolding adb_auth_confirm_key
adb_auth_confirm_key-Keeps env key t s = go s.auth.usb_transport s.auth.framework_fd
  where
    asked : Auth → Option ℕ → Outcome Adb
    asked a framework = elim framework as (λ _. Outcome Adb) [
      | none ↦ ok (record s { auth = record a { needs_retry = true } })
      | some fd ↦
          (if ends_with_null key
            then ask_framework env fd key t (record s { auth = a })
            else ok (record s { auth = a }))
    ]

    answered : (a : Auth) (framework : Option ℕ) → Keeps s (asked a framework)
    answered a none = λ k. inr refl
    answered a (some fd) =
        if_cases (Keeps s) (ends_with_null key) _ _
          (λ _. ask_framework-Keeps env fd key t (record s { auth = a })) (λ _ k. inr refl)

    go :
        (waiting framework : Option ℕ)
        → Keeps s (
            asked
              (elim waiting as (λ _. Auth) [
                | none ↦ record s.auth { usb_transport = some t }
                | some u ↦ s.auth
              ])
              framework)
    go none framework = answered (record s.auth { usb_transport = some t }) framework
    go (some u) framework = answered s.auth framework

pub framework_gone-Keeps :
    (env : Surroundings) (s : Adb) → Keeps s (adb_auth_event env framework_gone s)
unfolding adb_auth_event
framework_gone-Keeps env s = go s.auth.usb_transport
  where
    without : Adb → Adb
    without x = record x { auth = record x.auth { framework_fd = none } }

    go :
        (waiting : Option ℕ)
        → Keeps s (elim waiting as (λ _. Outcome Adb) [
          | none ↦ ok (without s)
          | some u ↦ fdevent_remove (s.transport u).auth_fde s.sockets.loop >>= λ loop.
              ok (without (put_sockets (put_loop loop s.sockets) s))
        ])
    go none = λ k. inr refl
    go (some u) =
        loop-Keeps s (fdevent_remove (s.transport u).auth_fde s.sockets.loop)
          (λ loop. without (put_sockets (put_loop loop s.sockets) s)) (λ l k. inr refl)

pub framework_other-Keeps :
    (env : Surroundings) (s : Adb) → Keeps s (adb_auth_event env framework_other s)
unfolding adb_auth_event
framework_other-Keeps env s = λ k. inr refl

pub adb_auth_listener-Keeps :
    (env : Surroundings) (fd : Option ℕ) (s : Adb) → Keeps s (adb_auth_listener env fd s)
unfolding adb_auth_listener
adb_auth_listener-Keeps env none s = λ k. inr refl
adb_auth_listener-Keeps env (some fd) s =
    if_cases (Keeps s) s.auth.needs_retry _ _ (λ _. go s.auth.usb_transport) (λ _ k. inr refl)
  where
    s1 : Adb
    s1 = record s { auth = record s.auth { framework_fd = some fd; needs_retry = false } }

    go :
        (waiting : Option ℕ)
        → Keeps s (elim waiting as (λ _. Outcome Adb) [
          | none ↦ abort
          | some u ↦ ok (send_auth_request env u s1)
        ])
    go none = tt
    go (some u) = send_auth_request-NotGained env u s1
