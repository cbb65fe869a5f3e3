-- ===== src/Daemon/Packets/Online/Runs.antt =====
-- adb/adb.cpp, adb/adb_auth_client.c: what brings a transport online where connections are authorised.
use adb_wide.Base.{
  ℕ, ◌≡◌, refl, ap, Bool, true, false, ◌||◌, ◌&&◌, Option, none, some, List, [], ◌∷◌, ◌==◌,
  if_cases, ◌⊎◌, inl, inr, arith, Bool-cases,
}
use adb_wide.Fdevent.State.{Outcome, ok, abort, ◌>>=◌}
use adb_wide.Transport.Packet.{Packet}
use adb_wide.Transport.Link.{a_sync}
use adb_wide.Daemon.State.{unauthorized, Adb, handle_online, a_cnxn, send_connect}
use adb_wide.Daemon.Auth.{
  a_auth, auth_token, auth_signature, auth_rsapublickey, Surroundings, adb_auth_verify,
  send_auth_request, adb_auth_verified, FrameworkSays, framework_gone, framework_ok,
  framework_other, adb_auth_event,
}
use adb_wide.Daemon.Packets.{
  check_signature, handle_auth, Services, handle_for_sockets, handle_packet,
}
use adb_wide.Daemon.Packets.Online.{
  Event, packet_from, framework_says, framework_comes, step, run, waits_for, authorizes,
  authorized_in,
}
use adb_wide.Daemon.Packets.Online.Keeps.{
  Keeps, put_transport-NotGained, in_sockets-Keeps, handle_sync-Keeps, handle_cnxn-Keeps,
  adb_auth_confirm_key-Keeps, framework_gone-Keeps, framework_other-Keeps, adb_auth_listener-Keeps,
}

-- What an event did: a transport that is online now was so before, or the event authorises it.
pub Authorized : Surroundings → Event → Adb → Outcome Adb → Type 0
Authorized env e s abort = Unit {0}
Authorized env e s (ok s') =
    (t : ℕ)
    → ((s'.transport t).online ≡ false)
      ⊎ (((s.transport t).online ≡ true) ⊎ (authorizes env e s t ≡ true))

Keeps-Authorized :
    (env : Surroundings) (e : Event) (s : Adb) (out : Outcome Adb)
    → Keeps s out
    → Authorized env e s out
unfolding Authorized
Keeps-Authorized env e s abort h = tt
Keeps-Authorized env e s (ok s') h = λ t. ground (arith, h t)

check_signature-online :
    (env : Surroundings) (sig : List ℕ) (t k : ℕ) (s : Adb)
    → (((check_signature env sig t s).transport k).online ≡ false)
      ⊎ (((s.transport k).online ≡ true)
          ⊎ ((t == k && adb_auth_verify env (s.transport k).token sig) ≡ true))
unfolding check_signature adb_auth_verified handle_online send_connect send_auth_request
check_signature-online env sig t k s = ground arith

check_signature-Authorized :
    (env : Surroundings) (v : Services) (p : Packet) (t : ℕ) (s : Adb)
    → (p.msg.command == a_auth) ≡ true
    → (p.msg.arg0 == auth_signature) ≡ true
    → Authorized env (packet_from t v p) s (ok (check_signature env p.data_bytes t s))
unfolding Authorized
check_signature-Authorized env v p t s auth signature =
    λ k. ground (arith, check_signature-online env p.data_bytes t k s)

handle_auth-Authorized :
    (env : Surroundings) (v : Services) (p : Packet) (t : ℕ) (s : Adb)
    → (p.msg.command == a_auth) ≡ true
    → Authorized env (packet_from t v p) s (handle_auth env p t s)
unfolding handle_auth
handle_auth-Authorized env v p t s auth =
    let e = packet_from t v p in
    if_cases (Authorized env e s) (p.msg.arg0 == auth_token) _ _
      (λ _. Keeps-Authorized env e s _ (
        put_transport-NotGained t (record (s.transport t) { connection_state = unauthorized }) s
          (inr refl)))
      (λ _.
        if_cases (Authorized env e s) (p.msg.arg0 == auth_signature) _ _
          (λ signature. check_signature-Authorized env v p t s auth signature)
          (λ _.
            if_cases (Authorized env e s) (p.msg.arg0 == auth_rsapublickey) _ _
              (λ _. Keeps-Authorized env e s _ (adb_auth_confirm_key-Keeps env p.data_bytes t s))
              (λ _. Keeps-Authorized env e s (ok s) (λ k. inr refl))))

handle_packet-Authorized :
    (env : Surroundings) (v : Services) (p : Packet) (t : ℕ) (s : Adb)
    → Authorized env (packet_from t v p) s (handle_packet true env v p t s)
unfolding handle_packet
handle_packet-Authorized env v p t s =
    let e = packet_from t v p in
    if_cases (Authorized env e s) (p.msg.command == a_sync) _ _
      (λ _. Keeps-Authorized env e s _ (handle_sync-Keeps p t s))
      (λ _.
        if_cases (Authorized env e s) (p.msg.command == a_cnxn) _ _
          (λ _. Keeps-Authorized env e s _ (handle_cnxn-Keeps env p t s))
          (λ _.
            if_cases (Authorized env e s) (p.msg.command == a_auth) _ _
              (λ auth. handle_auth-Authorized env v p t s auth)
              (λ _.
                if_cases (Authorized env e s) (s.transport t).online _ _
                  (λ _. Keeps-Authorized env e s _ (in_sockets-Keeps (handle_for_sockets v p t) s))
                  (λ _. Keeps-Authorized env e s (ok s) (λ k. inr refl)))))

framework_ok-Authorized :
    (env : Surroundings) (s : Adb)
    → Authorized env (framework_says framework_ok) s (adb_auth_event env framework_ok s)
unfolding adb_auth_event Authorized adb_auth_verified handle_online send_connect
framework_ok-Authorized env s = go s.auth.usb_transport refl
  where
    go :
        (waiting : Option ℕ)
        → s.auth.usb_transport ≡ waiting
        → Authorized env (framework_says framework_ok) s (elim waiting as (λ _. Outcome Adb) [
          | none ↦ ok s
          | some u ↦ ok (adb_auth_verified env u s)
        ])
    go none e = λ k. ground arith
    go (some u) e = λ k. ground (arith, ap (λ o. waits_for o k) e)

adb_auth_event-Authorized :
    (env : Surroundings) (w : FrameworkSays) (s : Adb)
    → Authorized env (framework_says w) s (adb_auth_event env w s)
adb_auth_event-Authorized env framework_gone s =
    Keeps-Authorized env (framework_says framework_gone) s _ (framework_gone-Keeps env s)
adb_auth_event-Authorized env framework_ok s = framework_ok-Authorized env s
adb_auth_event-Authorized env framework_other s =
    Keeps-Authorized env (framework_says framework_other) s _ (framework_other-Keeps env s)

step-Authorized : (env : Surroundings) (e : Event) (s : Adb) → Authorized env e s (step env e s)
unfolding step
step-Authorized env (packet_from t v p) s = handle_packet-Authorized env v p t s
step-Authorized env (framework_says w) s = adb_auth_event-Authorized env w s
step-Authorized env (framework_comes fd) s =
    Keeps-Authorized env (framework_comes fd) s _ (adb_auth_listener-Keeps env fd s)

-- After a run that did not end the process, a transport that is online was so before, or was authorised.
pub RunAuthorized : List (Surroundings × Event) → Adb → ℕ → Outcome Adb → Type 0
RunAuthorized es s t abort = Unit {0}
RunAuthorized es s t (ok s') =
    ((s'.transport t).online ≡ false)
    ⊎ (((s.transport t).online ≡ true) ⊎ (authorized_in es s t ≡ true))

-- Where connections are authorised, over any run of packets from any transports, answers of the
-- framework and connections of it: a transport that is online at the end was online at the start, or
-- there was an event of the run at which it sent a signature of its token of that time that one of the
-- user's keys verifies, or at which the framework consented while it was the transport that waited for it.
pub run-Authorized :
    (es : List (Surroundings × Event)) (s : Adb) (t : ℕ) → RunAuthorized es s t (run es s)
unfolding run RunAuthorized authorized_in Authorized
run-Authorized [] s t = elim (Bool-cases (s.transport t).online) [
  | inl yes_online ↦ inr (inl yes_online)
  | inr not_online ↦ inl not_online
]
run-Authorized ((env, e) ∷ es) s t =
    go (step env e s) (step-Authorized env e s) (λ s'. run-Authorized es s' t)
  where
    rest : Outcome Adb → Bool
    rest out = elim out [ abort ↦ false | ok s' ↦ authorized_in es s' t ]

    then_run :
        (s' : Adb) (out : Outcome Adb)
        → ((s'.transport t).online ≡ false)
          ⊎ (((s.transport t).online ≡ true) ⊎ (authorizes env e s t ≡ true))
        → RunAuthorized es s' t out
        → (elim out as (λ _. Type 0) [
          | abort ↦ Unit {0}
          | ok s'' ↦
              ((s''.transport t).online ≡ false)
              ⊎ (((s.transport t).online ≡ true)
                  ⊎ ((authorizes env e s t || authorized_in es s' t) ≡ true))
        ])
    then_run s' abort h k = tt
    then_run s' (ok s'') h k = ground (arith, h, k)

    go :
        (out : Outcome Adb)
        → Authorized env e s out
        → ((s' : Adb) → RunAuthorized es s' t (run es s'))
        → elim (out >>= run es) as (λ _. Type 0) [
          | abort ↦ Unit {0}
          | ok s'' ↦
              ((s''.transport t).online ≡ false)
              ⊎ (((s.transport t).online ≡ true) ⊎ ((authorizes env e s t || rest out) ≡ true))
        ]
    go abort h k = tt
    go (ok s') h k = then_run s' (run es s') (h t) (k s')
