-- ===== src/Sync/Service.antt =====
-- adb/file_sync_service.c: file_sync_service.
pub mod Files
pub mod Ends
pub mod Refusals
mod Tests
use adb_wide.Base.{
  ℕ, zero, suc, Bool, true, false, Option, none, some, List, [], ◌∷◌, drop, ltb, ◌==◌,
  if◌then◌else◌,
}
use adb_wide.Sync.Wire.{word, id_stat, id_list, id_send, id_recv, id_quit}
use adb_wide.Sync.World.{Text, close_file, Platform, World, do_call, fail_message, readx}
use adb_wide.Sync.Recv.{do_stat, do_recv}
use adb_wide.Sync.Listing.{do_list}
use adb_wide.Sync.Push.{c_string, as_result, do_send}

-- The reasons that the client is told.
abbrev pub command_failure : Text
command_failure =
    b'c' ∷ b'o' ∷ b'm' ∷ b'm' ∷ b'a' ∷ b'n' ∷ b'd' ∷ b' ' ∷ b'r' ∷ b'e' ∷ b'a' ∷ b'd' ∷ b' ' ∷ b'f'
    ∷ b'a' ∷ b'i' ∷ b'l' ∷ b'u' ∷ b'r' ∷ b'e' ∷ []

abbrev pub invalid_namelen : Text
invalid_namelen =
    b'i' ∷ b'n' ∷ b'v' ∷ b'a' ∷ b'l' ∷ b'i' ∷ b'd' ∷ b' ' ∷ b'n' ∷ b'a' ∷ b'm' ∷ b'e' ∷ b'l' ∷ b'e'
    ∷ b'n' ∷ []

abbrev pub filename_failure : Text
filename_failure =
    b'f' ∷ b'i' ∷ b'l' ∷ b'e' ∷ b'n' ∷ b'a' ∷ b'm' ∷ b'e' ∷ b' ' ∷ b'r' ∷ b'e' ∷ b'a' ∷ b'd' ∷ b' '
    ∷ b'f' ∷ b'a' ∷ b'i' ∷ b'l' ∷ b'u' ∷ b'r' ∷ b'e' ∷ []

abbrev pub unknown_command : Text
unknown_command =
    b'u' ∷ b'n' ∷ b'k' ∷ b'n' ∷ b'o' ∷ b'w' ∷ b'n' ∷ b' ' ∷ b'c' ∷ b'o' ∷ b'm' ∷ b'm' ∷ b'a' ∷ b'n'
    ∷ b'd' ∷ []

-- The longest file name.
abbrev pub max_name : ℕ
max_name = 1024

-- `limit` is the fuel of the loops inside the commands.
module _ (sys : Platform) (limit : ℕ) where
  -- The message to the client before the end.
  abbrev pub refuse : Text → World → Option Bool × World
  refuse reason w = (some true, (fail_message sys reason w).1)

  -- The switch on the command: true if the service ends, `none` if a command was cut short.
  unfoldable pub serve_command : ℕ → Text → World → Option Bool × World
  unfolding do_stat do_list do_send do_recv
  serve_command id name w =
      if id == id_stat
      then as_result sys (do_stat sys name w)
      else if id == id_list
      then as_result sys (do_list sys name w)
      else if id == id_send
      then do_send sys limit name w
      else if id == id_recv
      then do_recv sys limit name w
      else if id == id_quit
      then (some true, w)
      else refuse unknown_command w

  -- The name is read, or the stream has ended before.
  unfoldable pub serve_name : ℕ → Option (List ℕ) → World → Option Bool × World
  unfolding serve_command
  serve_name id none w = refuse filename_failure w
  serve_name id (some bytes) w = serve_command id (c_string bytes) w

  -- After the head of a request.
  unfoldable pub serve_request : ℕ → ℕ → World → Option Bool × World
  unfolding serve_name
  serve_request id namelen w =
      let (name, w1) = readx namelen w in
      if ltb max_name namelen then refuse invalid_namelen w else serve_name id name w1

  unfoldable pub serve_head : Option (List ℕ) → World → Option Bool × World
  unfolding serve_request
  serve_head none w = refuse command_failure w
  serve_head (some head) w = serve_request (word head) (word (drop 4 head)) w

  -- The loop over the requests; `none` means that it was cut short.
  unfoldable pub serve : ℕ → World → Option World
  unfolding serve_head
  serve zero w = none
  serve (suc rounds) w =
      let (head, w1) = readx 8 w in
      let (ends, w2) = serve_head head w1 in
      elim ends [ none ↦ none | some stop ↦ elim stop [ true ↦ some w2 | false ↦ serve rounds w2 ] ]

  -- `buffer` says whether there is memory for the buffer.
  unfoldable pub file_sync_service : ℕ → Bool → ℕ → World → Option World
  unfolding serve
  file_sync_service rounds buffer fd w =
      let served = if buffer then serve rounds w else some w in
      elim served [ none ↦ none | some w' ↦ some (do_call sys (close_file fd) w').1 ]
