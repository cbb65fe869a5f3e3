-- ===== src/Sync/Service/Ends.antt =====
-- adb/file_sync_service.c: the service ends when the client's stream does.
use native.Mathlib.Decide.{dec_lt}
use adb_wide.Base.{
  ==-refl, ◌∙◌, ℕ, zero, suc, ◌-◌, ◌≤◌, ◌<◌, ◌≡◌, ◌≢◌, refl, Bool, true, false, Option, none, some,
  List, [], ◌∷◌, arith, drop, take, length, length-drop, ltb, ◌==◌, ◌%◌, ◌||◌, if◌then◌else◌,
  if_cases,
}
use adb_wide.Sync.Wire.{word, message, id_data, id_stat, id_list, id_send, id_recv, id_quit}
use adb_wide.Sync.World.{
  Text, close_file, success, Call, lstat, read_file, open_file, read_only, Platform, World, do_call,
  send_bytes, readx,
}
use adb_wide.Sync.Send.{unlink_if, try_open}
use adb_wide.Sync.Ends.{fits, fits-IsKept, handle_send_file_returns}
use adb_wide.Sync.Recv.{
  Pull, again, pulled, quit, is_eintr, pull_chunk, pull_round, pull, recv_from, do_recv,
}
use adb_wide.Sync.Recv.Step.{after_pull, pull_step}
use adb_wide.Sync.Push.{
  c_string, last_comma, is_reg, is_lnk, is_success, owner_for, send_file, as_result,
  handle_send_link, send_with_mode, do_send,
}
use adb_wide.Sync.Service.{
  max_name, serve_command, serve_name, serve_request, serve_head, serve, file_sync_service,
}
use adb_wide.Sync.Kept.{kept-unlink_if}
use adb_wide.Sync.Kept.Commands.{kept-serve_head}

-- The reads of a descriptor since a call of open gave it.
unfoldable pub reads_of : Platform → ℕ → List Call → ℕ
reads_of sys fd [] = 0
reads_of sys fd (read_file k ∷ h) =
    let before = reads_of sys fd h in if k == fd then suc before else before
reads_of sys fd (open_file path flags mode ∷ h) =
    let r = sys.reply h (open_file path flags mode) in
    let before = reads_of sys fd h in if r.failed then before else if r.fd == fd then 0 else before
reads_of sys fd (_ ∷ h) = reads_of sys fd h

-- Every file ends: after so many reads of it since it was opened, each read of it succeeds and gives
-- nothing.
abbrev pub IsFinite : Platform → ℕ → Type 0
IsFinite sys n =
    (h : List Call) (fd : ℕ)
    → n ≤ reads_of sys fd h
    → ((sys.reply h (read_file fd)).failed ≡ false) × ((sys.reply h (read_file fd)).bytes ≡ [])

reads_of-send_bytes :
    (sys : Platform) (fd : ℕ) (bytes : List ℕ) (w : World)
    → reads_of sys fd (send_bytes sys bytes w).1.trace ≡ reads_of sys fd w.trace
unfolding send_bytes reads_of
reads_of-send_bytes sys fd [] w = refl
reads_of-send_bytes sys fd (b ∷ bytes) w = refl

module _ (sys : Platform) (last : ℕ) (finite : IsFinite sys last) where
  -- A round that goes on is one of the first, and has read.
  abbrev Advances : ℕ → ℕ → Pull × World → Type 0
  Advances fd k (again, w) = (k < last) × (k < reads_of sys fd w.trace)
  Advances fd k (pulled, w) = Unit {0}
  Advances fd k (quit result, w) = Unit {0}

  pull_chunk-Advances :
      (fd k : ℕ) (bytes : List ℕ) (w : World)
      → (last ≤ k → bytes ≡ [])
      → reads_of sys fd w.trace ≡ suc k
      → Advances fd k (pull_chunk sys fd bytes w)
  unfolding pull_chunk
  pull_chunk-Advances fd k [] w end e = tt
  pull_chunk-Advances fd k (b ∷ bytes) w end e =
      let told = message id_data (length (b ∷ bytes)) in
      let w1 = (send_bytes sys told w).1 in
      let w2 = (send_bytes sys (b ∷ bytes) w1).1 in
      let early : k < last = elim (dec_lt k last) [
        | yes less ↦ less
        | no more ↦ absurd (cc (end (omega arith)))
      ] in
      let read : reads_of sys fd w2.trace ≡ suc k =
        reads_of-send_bytes sys fd (b ∷ bytes) w1 ∙ reads_of-send_bytes sys fd told w ∙ e in
      if_cases (Advances fd k) (send_bytes sys told w).0 _ _ (λ _. tt)
        λ _.
          if_cases (Advances fd k) (send_bytes sys (b ∷ bytes) w1).0 _ _ (λ _. tt)
            λ _. (early, omega (arith, read))

  pull_round-Advances :
      (fd : ℕ) (w : World) → Advances fd (reads_of sys fd w.trace) (pull_round sys fd w)
  unfolding pull_round
  pull_round-Advances fd w =
      let k = reads_of sys fd w.trace in
      let (r, w1) = do_call sys (read_file fd) w in
      let read : reads_of sys fd w1.trace ≡ suc k = counted fd w in
      if_cases (Advances fd k) r.failed _ _
        (λ bad.
          if_cases (Advances fd k) (is_eintr w1.errno) _ _
            (λ _. (early fd w (unfold do_call in bad), omega (arith, read))) λ _. tt)
        λ _.
          pull_chunk-Advances fd k r.bytes w1 (λ h. unfold do_call in (finite w.trace fd h).1) read
    where
      counted :
          (fd : ℕ) (w : World)
          → reads_of sys fd (do_call sys (read_file fd) w).1.trace ≡ suc (reads_of sys fd w.trace)
      counted fd w = unfold do_call in unfold reads_of in rw (==-refl fd) refl

      early :
          (fd : ℕ) (w : World)
          → (sys.reply w.trace (read_file fd)).failed ≡ true
          → reads_of sys fd w.trace < last
      early fd w bad = elim (dec_lt (reads_of sys fd w.trace) last) [
        | yes less ↦ less
        | no more ↦ absurd (cc ((finite w.trace fd (omega arith)).0, bad))
      ]

  after_pull_returns :
      (fuel fd k : ℕ) (out : Pull × World)
      → Advances fd k out
      → ((w : World) → k < last → k < reads_of sys fd w.trace → (pull sys fuel fd w).0 ≢ none)
      → (after_pull sys fuel fd out).0 ≢ none
  unfolding after_pull
  after_pull_returns fuel fd k (again, w) a more = more w a.0 a.1
  after_pull_returns fuel fd k (pulled, w) a more = λ e. cc
  after_pull_returns fuel fd k (quit result, w) a more = λ e. cc

  pull_returns :
      (fuel fd : ℕ) (w : World)
      → last - reads_of sys fd w.trace < fuel
      → (pull sys fuel fd w).0 ≢ none
  pull_returns zero fd w h = absurd (omega arith)
  pull_returns (suc fuel) fd w h = rw (pull_step sys fuel fd w) (
      after_pull_returns fuel fd (reads_of sys fd w.trace) (pull_round sys fd w)
        (pull_round-Advances fd w) λ w' early more. pull_returns fuel fd w' (omega arith))

  -- Where every file ends after `last` reads, do_recv with more fuel than that returns.
  pub do_recv_returns :
      (fuel : ℕ) (path : Text) (w : World) → last < fuel → (do_recv sys fuel path w).0 ≢ none
  unfolding do_recv
  do_recv_returns fuel path w h = let (fd, w') = try_open sys path read_only 0 w in go fd w'
    where
      go : (fd : Option ℕ) (w' : World) → (recv_from sys fuel fd w').0 ≢ none
      go none w' = unfold recv_from in λ e. cc
      go (some fd) w' = unfold recv_from in pull_returns fuel fd w' (omega arith)

module _ (sys : Platform) where
  send_with_mode_returns :
      (fuel : ℕ) (path : Text) (mode : ℕ) (w : World)
      → length w.input < fuel
      → (send_with_mode sys fuel path mode w).0 ≢ none
  unfolding send_with_mode do_call
  send_with_mode_returns fuel path mode w h =
      let (r, w1) = do_call sys (lstat path) w in
      let do_unlink = r.failed || (is_reg r.stat.mode || is_lnk r.stat.mode) in
      let w2 = unlink_if sys do_unlink path w1 in
      let n = length w.input in
      let fewer : fits n w2 ≡ true =
        kept-unlink_if sys (fits n) (fits-IsKept sys n) do_unlink path w1 (ground arith) in
      if_cases (λ (out : Option Bool × World). out.0 ≢ none) (is_lnk mode)
        (as_result sys (handle_send_link sys path w2))
        (send_file sys fuel path (mode % 512) do_unlink w2) (λ _ e. cc)
        λ _.
          handle_send_file_returns sys fuel path (owner_for sys path (mode % 512)) do_unlink w2
            (ground arith)

  do_send_returns :
      (fuel : ℕ) (path : Text) (w : World)
      → length w.input < fuel
      → (do_send sys fuel path w).0 ≢ none
  unfolding do_send
  do_send_returns fuel path w h = go (last_comma path)
    where
      plain :
          (name : Text) (w' : World)
          → length w'.input < fuel
          → (send_file sys fuel name 0o644 true w').0 ≢ none
      plain name w' h' =
          handle_send_file_returns sys fuel name (owner_for sys name 0o644) true w' h'

      go :
          (cut : Option (Text × Text))
          → (elim cut as (λ _. Option Bool × World) [
            | none ↦ send_file sys fuel path 0o644 true w
            | some (name, digits) ↦
                (let (n, errno) = sys.strtoul digits in
                  if is_success errno
                  then send_with_mode sys fuel name (n % 4294967296) (record w { errno = success })
                  else send_file sys fuel name 0o644 true (record w { errno = errno }))
          ]).0
            ≢ none
      go none = plain path w h
      go (some (name, digits)) =
          let (n, errno) = sys.strtoul digits in
          let w1 = record w { errno = success } in
          let w2 = record w { errno = errno } in
          if_cases (λ (out : Option Bool × World). out.0 ≢ none) (is_success errno)
            (send_with_mode sys fuel name (n % 4294967296) w1)
            (send_file sys fuel name 0o644 true w2)
            (λ _. send_with_mode_returns fuel name (n % 4294967296) w1 h) λ _. plain name w2 h

module _ (sys : Platform) (limit last : ℕ) (finite : IsFinite sys last)
    (enough : last < limit) where
  serve_command_returns :
      (id : ℕ) (name : Text) (w : World)
      → length w.input < limit
      → (serve_command sys limit id name w).0 ≢ none
  unfolding serve_command
  serve_command_returns id name w h =
      let P = λ (out : Option Bool × World). out.0 ≢ none in
      if_cases P (id == id_stat) _ _ (λ _ e. cc)
        λ _.
          if_cases P (id == id_list) _ _ (λ _ e. cc)
            λ _.
              if_cases P (id == id_send) _ _ (λ _. do_send_returns sys limit name w h)
                λ _.
                  if_cases P (id == id_recv) _ _
                    (λ _. do_recv_returns sys last finite limit name w enough)
                    λ _. if_cases P (id == id_quit) _ _ (λ _ e. cc) λ _ e. cc

  serve_name_returns :
      (id : ℕ) (name : Option (List ℕ)) (w : World)
      → length w.input < limit
      → (serve_name sys limit id name w).0 ≢ none
  unfolding serve_name
  serve_name_returns id none w h = λ e. cc
  serve_name_returns id (some bytes) w h = serve_command_returns id (c_string bytes) w h

  serve_request_returns :
      (id namelen : ℕ) (w : World)
      → length w.input < limit
      → (serve_request sys limit id namelen w).0 ≢ none
  unfolding serve_request
  serve_request_returns id namelen w h =
      let (name, w1) = readx namelen w in
      let n = length w.input in
      let fewer : fits n w1 ≡ true = (fits-IsKept sys n).reading namelen w (ground arith) in
      if_cases (λ (out : Option Bool × World). out.0 ≢ none) (ltb max_name namelen) _ _ (λ _ e. cc)
        λ _. serve_name_returns id name w1 (ground arith)

  served_ends :
      (out : Option Bool × World) (rest : World → Option World)
      → out.0 ≢ none
      → rest out.1 ≢ none
      → elim out.0 as (λ _. Option World) [
        | none ↦ none
        | some stop ↦ elim stop [ true ↦ some out.1 | false ↦ rest out.1 ]
      ]
        ≢ none
  served_ends (none, w) rest h more = λ e. h refl
  served_ends (some true, w) rest h more = λ e. cc
  served_ends (some false, w) rest h more = more

  served : ℕ → Option (List ℕ) × World → Option World
  served rounds (head, w1) =
      let (ends, w2) = serve_head sys limit head w1 in
      elim ends [
        | none ↦ none
        | some stop ↦ elim stop [ true ↦ some w2 | false ↦ serve sys limit rounds w2 ]
      ]

  serve_ends :
      (rounds : ℕ) (w : World)
      → length w.input < limit
      → length w.input < rounds
      → serve sys limit rounds w ≢ none
  unfolding serve serve_head readx served
  serve_ends zero w h k = absurd (omega arith)
  serve_ends (suc rounds) w h k =
      if_cases (λ out. served rounds out ≢ none) (ltb (length w.input) 8)
        (none, record w { input = [] }) (some (take 8 w.input), record w { input = drop 8 w.input })
        (λ _ e. cc)
        λ long.
          let w1 = record w { input = drop 8 w.input } in
          let head = take 8 w.input in
          let n = length (drop 8 w.input) in
          let read : n ≡ length w.input - 8 = length-drop 8 w.input in
          let out = serve_head sys limit (some head) w1 in
          let fewer : fits n out.1 ≡ true =
            kept-serve_head sys (fits n) (fits-IsKept sys n) limit (some head) w1 (ground arith) in
          let less : 8 ≤ length w.input = ground arith in
          let under : length out.1.input ≤ n = ground arith in
          served_ends out (serve sys limit rounds)
            (serve_request_returns (word head) (word (drop 4 head)) w1 (omega arith))
            (serve_ends rounds out.1 (omega arith) (omega arith))

  -- Where every file ends after `last` reads of it, file_sync_service ends, given more rounds and a higher limit
  -- for the loops of its commands than the client has bytes to send, and a limit above `last`.
  pub file_sync_service_ends :
      (rounds : ℕ) (buffer : Bool) (fd : ℕ) (w : World)
      → length w.input < limit
      → length w.input < rounds
      → file_sync_service sys limit rounds buffer fd w ≢ none
  unfolding file_sync_service
  file_sync_service_ends rounds false fd w h k = λ e. cc
  file_sync_service_ends rounds true fd w h k =
      go (serve sys limit rounds w) (serve_ends rounds w h k)
    where
      go :
          (out : Option World)
          → out ≢ none
          → elim out as (λ _. Option World) [
            | none ↦ none
            | some w' ↦ some (do_call sys (close_file fd) w').1
          ]
            ≢ none
      go none h' = h'
      go (some w') h' = λ e. cc
