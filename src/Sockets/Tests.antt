-- ===== src/Sockets/Tests.antt =====
-- adb/sockets.cpp: two local sockets that are each other's peer, and instances of the theorems.
use adb_wide.Base.{
  ℕ, refl, true, false, none, some, List, [], ◌∷◌, arith, update, ◌≡◌, ◌==◌, if◌then◌else◌, take,
}
use adb_wide.Fdevent.Events.{fde_read}
use adb_wide.Fdevent.State.{Fde, Loop, client}
use adb_wide.Fdevent.Select.{fd_zero}
use adb_wide.Fdevent.Invariant.{fresh_fde}
use adb_wide.Fdevent.Invariant.Tests.{blank, empty_ring}
use adb_wide.Sockets.Receive.{Got, got, nothing_yet, full, read_ready}
use adb_wide.Sockets.Receive.Relay.{arrived, Relayed, read_ready-Relayed}
use adb_wide.Sockets.State.Install.{install_local_socket-find}
use adb_wide.Transport.Packet.{max_payload}
use adb_wide.Sockets.State.{find_local_socket, install_local_socket, local_peer, Sock, Sockets}
use adb_wide.Sockets.Pieces.{Wrote, wrote_more, would_block}
use adb_wide.Sockets.Close.{close_all_sockets}
use adb_wide.Sockets.Close.All.{Cleared, close_all_sockets_ends}
use adb_wide.Sockets.Local.{local_socket_enqueue, write_ready}
use adb_wide.Sockets.Local.Stream.{NoBroken}
use adb_wide.Sockets.Local.Flow.{IsPolled, Enqueued, local_socket_enqueue-Enqueued}
use adb_wide.Sockets.Local.Ready.{HasPeer, Flowed, write_ready-Flowed}
use adb_wide.Sockets.Smart.{service, feed, read_request}
use adb_wide.Base.{◌++◌}
use adb_wide.Daemon.Auth.{c_string}
use adb_wide.Sockets.Smart.Serial.{skip_host_serial}
use adb_wide.Sockets.Smart.Ends.{is_one_of, words, host_port, print, skip_host_serial-print}
use adb_wide.Sockets.Smart.Feed.{feed-flatten, feed-hex4}
use mathlib.Core.List.{flatten}

-- The fdevent of a socket that only reads.
abbrev pub reader : ℕ → Fde
reader fd = record (fresh_fde fd (client 1) 9) { wanted = fde_read; created = true }

-- Descriptors 3 and 4, with their fdevents at the addresses 5 and 6.
abbrev pub two_readers : Loop
two_readers = record {
  fde = update (update (λ p. blank) 5 (reader 3)) 6 (reader 4);
  links = empty_ring;
  fd_table = update (update (λ i. none) 3 (some 5)) 4 (some 6);
  fd_table_max = 256;
  select_n = 5;
  read_fds = update (update fd_zero 3 true) 4 true;
  write_fds = fd_zero;
  error_fds = fd_zero;
  closed = [];
}

abbrev pub one_end : ℕ → ℕ → ℕ → ℕ → Sock
one_end id fd fde peer = record {
  id = id;
  fd = fd;
  fde = fde;
  peer = some (local_peer peer);
  transport = 0;
  closing = false;
  exit_on_close = false;
  pkts = [];
}

abbrev pub two_sockets : Sockets
two_sockets = record {
  loop = two_readers;
  sock = update (λ p. one_end 1 3 5 11) 11 (one_end 2 4 6 9);
  list = 9 ∷ 11 ∷ [];
  closing_list = [];
  next_id = 3;
  written = [];
  asked = [];
  outgoing = [];
}

-- The same where the packet 7, 8 waits at the socket 9, which is polled for writing.
abbrev one_waits : Sockets
one_waits = record two_sockets {
  loop = record two_readers {
    fde =
        update two_readers.fde 5 (record (reader 3) { wanted = record fde_read { write = true } });
    write_fds = update fd_zero 3 true;
  };
  sock = update two_sockets.sock 9 (record (one_end 1 3 5 11) { pkts = (7 ∷ 8 ∷ []) ∷ [] });
}

abbrev pub one_byte : List Wrote
one_byte = wrote_more 0 ∷ would_block ∷ []

pub one_byte-NoBroken : NoBroken one_byte
one_byte-NoBroken = tt

two_sockets-IsPolled : IsPolled 9 two_sockets
unfolding IsPolled
two_sockets-IsPolled = refl

one_waits-IsPolled : IsPolled 9 one_waits
unfolding IsPolled
one_waits-IsPolled = refl

has_peer : HasPeer (some (local_peer 11))
has_peer = tt

close_all_sockets_ends_example : Cleared 0 (close_all_sockets 3 0 two_sockets)
close_all_sockets_ends_example = close_all_sockets_ends 3 0 two_sockets (omega arith)

local_socket_enqueue-Enqueued_example :
    Enqueued 9 (7 ∷ 8 ∷ []) two_sockets (local_socket_enqueue one_byte 9 (7 ∷ 8 ∷ []) two_sockets)
local_socket_enqueue-Enqueued_example =
    local_socket_enqueue-Enqueued one_byte 9 (7 ∷ 8 ∷ []) two_sockets one_byte-NoBroken
      two_sockets-IsPolled

write_ready-Flowed_example : Flowed 9 one_waits (write_ready one_byte 9 one_waits)
write_ready-Flowed_example =
    write_ready-Flowed one_byte 9 one_waits one_byte-NoBroken refl has_peer one_waits-IsPolled

-- The socket 11 is ready for reading: three bytes in two pieces, then nothing for now.
abbrev two_pieces : List Got
two_pieces = got 1 (2 ∷ []) ∷ got 3 [] ∷ nothing_yet ∷ []

read_ready-Relayed_example :
    Relayed 11 9
      (take max_payload (arrived two_pieces))
      (read_ready two_pieces one_byte full 11 two_sockets)
      two_sockets
read_ready-Relayed_example =
    read_ready-Relayed two_pieces one_byte full 11 9 two_sockets tt one_byte-NoBroken refl
      two_sockets-IsPolled refl

install_local_socket-find_example :
    let s' = install_local_socket 13 two_sockets in
    (find_local_socket 2 0 s'.sock s'.list
      ≡ (if 3 == 2 then some 13 else find_local_socket 2 0 two_sockets.sock two_sockets.list))
    × ((s'.next_id == 0) ≡ false)
install_local_socket-find_example =
    install_local_socket-find 13 2 two_sockets refl (refl, (refl, tt))

-- The request for the service jdwp in three packets, the first of which ends within its length, with a
-- byte behind it.
abbrev three_packets : List (List ℕ)
three_packets = (b'0' ∷ b'0' ∷ []) ∷ (b'0' ∷ b'4' ∷ b'j' ∷ []) ∷ (b'd' ∷ b'w' ∷ b'p' ∷ 1 ∷ []) ∷ []

feed-flatten_example : feed none three_packets ≡ read_request (flatten three_packets)
unfolding flatten
feed-flatten_example = feed-flatten three_packets (omega arith)

feed-hex4_example : feed none three_packets ≡ service (c_string (b'j' ∷ b'd' ∷ b'w' ∷ b'p' ∷ []))
unfolding flatten
feed-hex4_example =
    feed-hex4 three_packets (b'j' ∷ b'd' ∷ b'w' ∷ b'p' ∷ []) (1 ∷ []) (omega arith) (omega arith)
      (omega arith) refl

pc_free : is_one_of words (b'p' ∷ b'c' ∷ []) ≡ false
unfolding is_one_of
pc_free = refl

-- "pc:5555"
skip_host_serial-print_example :
    let serial = host_port (b'p' ∷ b'c' ∷ []) (b'5' ∷ b'5' ∷ b'5' ∷ b'5' ∷ []) in
    skip_host_serial (print serial ++ (b':' ∷ b'1' ∷ [])) ≡ some 7
skip_host_serial-print_example =
    skip_host_serial-print (host_port (b'p' ∷ b'c' ∷ []) (b'5' ∷ b'5' ∷ b'5' ∷ b'5' ∷ []))
      (b'1' ∷ []) (pc_free, refl, refl, λ e. cc)
