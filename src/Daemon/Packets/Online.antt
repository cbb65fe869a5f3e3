-- ===== src/Daemon/Packets/Online.antt =====
-- adb/adb.cpp, adb/adb_auth_client.c: the events that the daemon meets, where connections are authorised.
pub mod Keeps
pub mod Runs
use adb_wide.Base.{
  ℕ, ◌≡◌, refl, ◌∙◌, ap, sym, Bool, true, false, ◌||◌, ◌&&◌, Option, none, some, List, [], ◌∷◌,
  ◌==◌, if◌then◌else◌, if_cases, ◌⊎◌, inl, inr, arith, update, Bool-cases, ltb, length,
}
use adb_wide.Base.Int.{pos}
use adb_wide.Fdevent.State.{client, Loop, Outcome, ok, abort, ◌>>=◌}
use adb_wide.Fdevent.Api.{fdevent_install, fdevent_add, fdevent_remove}
use adb_wide.Transport.Packet.{max_payload, Packet}
use adb_wide.Transport.Link.{a_sync}
use adb_wide.Sockets.State.{Sockets, put_loop}
use adb_wide.Sockets.Remote.{send_packet}
use adb_wide.Daemon.State.{
  ConnectionState, offline, unauthorized, Transport, Auth, Adb, put_transport, put_sockets,
  in_sockets, send, handle_online, disconnect_each, usb_disconnected, run_transport_disconnects,
  handle_offline, a_cnxn, send_connect,
}
use adb_wide.Daemon.Auth.{
  a_auth, auth_token, auth_signature, auth_rsapublickey, Surroundings, adb_auth_verify,
  send_auth_request, adb_auth_verified, c_string, ends_with_null, ask_framework,
  adb_auth_confirm_key, FrameworkSays, framework_gone, framework_ok, framework_other,
  adb_auth_event, adb_auth_listener,
}
use adb_wide.Daemon.Packets.{
  is_offline, parse_banner, handle_sync, connect, handle_cnxn, check_signature, handle_auth,
  Services, handle_for_sockets, handle_packet,
}

-- What comes to the daemon: a packet from a transport, an answer of the framework, a connection of it.
pub data Event : Type 0 where
  packet_from : ℕ → Services → Packet → Event
  framework_says : FrameworkSays → Event
  framework_comes : Option ℕ → Event

-- One event, in its surroundings, where connections are authorised.
unfoldable pub step : Surroundings → Event → Adb → Outcome Adb
unfolding handle_packet adb_auth_event adb_auth_listener
step env (packet_from t v p) s = handle_packet true env v p t s
step env (framework_says w) s = adb_auth_event env w s
step env (framework_comes fd) s = adb_auth_listener env fd s

unfoldable pub run : List (Surroundings × Event) → Adb → Outcome Adb
unfolding step
run [] s = ok s
run ((env, e) ∷ es) s = step env e s >>= run es

-- Does the event authorise the transport: is it a signature of the transport's token by one of the
-- user's keys, or the framework's consent while this is the transport that waits for it?
abbrev pub waits_for : Option ℕ → ℕ → Bool
waits_for none t = false
waits_for (some u) t = u == t

abbrev pub authorizes : Surroundings → Event → Adb → ℕ → Bool
authorizes env (packet_from u v p) s t =
    u == t
    && (p.msg.command == a_auth
        && (p.msg.arg0 == auth_signature && adb_auth_verify env (s.transport t).token p.data_bytes))
authorizes env (framework_says framework_ok) s t = waits_for s.auth.usb_transport t
authorizes env (framework_says framework_gone) s t = false
authorizes env (framework_says framework_other) s t = false
authorizes env (framework_comes fd) s t = false

-- Does one of the events authorise the transport, in the state that it meets?
unfoldable pub authorized_in : List (Surroundings × Event) → Adb → ℕ → Bool
unfolding step
authorized_in [] s t = false
authorized_in ((env, e) ∷ es) s t =
    authorizes env e s t || (elim (step env e s) [ abort ↦ false | ok s' ↦ authorized_in es s' t ])
