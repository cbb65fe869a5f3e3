-- ===== src/Sync/Service/Refusals.antt =====
-- adb/file_sync_service.c: the requests that the service refuses.
use adb_wide.Base.{
  ℕ, suc, ◌≡◌, refl, ap, sym, subst, Bool-cases, inl, inr, Bool, true, false, ◌||◌, Option, none,
  some, List, [], ◌∷◌, arith, drop, take, length, ltb, ◌==◌, if◌then◌else◌,
}
use adb_wide.Sync.Wire.{word, message, id_fail, id_stat, id_list, id_send, id_recv, id_quit}
use adb_wide.Sync.World.{
  Text, Call, send, close_file, Platform, World, do_call, send_bytes, fail_message, readx,
}
use adb_wide.Sync.Push.{c_string}
use adb_wide.Sync.Service.{
  command_failure, unknown_command, invalid_namelen, filename_failure, max_name, refuse,
  serve_command, serve_name, serve_request, serve_head, serve, file_sync_service,
}

abbrev pub is_command : ℕ → Bool
is_command id =
    id == id_stat || (id == id_list || (id == id_send || (id == id_recv || id == id_quit)))

-- Why a service refuses what the client sends first: no whole head, a name that is too long or cut
-- short, a command that does not exist.
abbrev pub refusal : List ℕ → Option Text
refusal input =
    let namelen = word (drop 4 (take 8 input)) in
    if ltb (length input) 8
    then some command_failure
    else if ltb max_name namelen
    then some invalid_namelen
    else if ltb (length (drop 8 input)) namelen
    then some filename_failure
    else if is_command (word (take 8 input))
    then none
    else some unknown_command

module _ (sys : Platform) (succeeds : (h : List Call) (c : Call) → (sys.reply h c).failed ≡ false)
    (limit rounds fd : ℕ) where
  -- The client was told the reason, and the service has closed its descriptor.
  abbrev pub Refused : Text → World → Option World → Type 0
  Refused reason w none = ⊥
  Refused reason w (some w') =
      w'.trace ≡ close_file fd ∷ send reason ∷ send (message id_fail (length reason)) ∷ w.trace

  refuse_lem :
      (b : ℕ) (reason : Text) (w : World)
      → refuse sys limit (b ∷ reason) w ≡ (
        some true,
        record w {
          trace = send (b ∷ reason) ∷ send (message id_fail (length (b ∷ reason))) ∷ w.trace;
        },
      )
  unfolding fail_message send_bytes do_call
  refuse_lem b reason w = simp succeeds

  -- The end of the service, by what the request has come to.
  finish : Option Bool × World → Option World
  finish (ends, w2) =
      let served : Option World = elim ends [
        | none ↦ none
        | some stop ↦ elim stop [ true ↦ some w2 | false ↦ serve sys limit rounds w2 ]
      ] in
      elim served [ none ↦ none | some w' ↦ some (do_call sys (close_file fd) w').1 ]

  finish-refuse :
      (b : ℕ) (reason : Text) (w w0 : World)
      → w.trace ≡ w0.trace
      → Refused (b ∷ reason) w0 (finish (refuse sys limit (b ∷ reason) w))
  unfolding finish do_call
  finish-refuse b reason w w0 e =
      let told = message id_fail (length (b ∷ reason)) in
      subst (λ out. Refused (b ∷ reason) w0 (finish out)) (sym (refuse_lem b reason w))
        (ap (λ t. close_file fd ∷ send (b ∷ reason) ∷ send told ∷ t) e)

  -- A refusal, where there is one.
  abbrev AsRefused : Option Text → World → Option World → Type 0
  AsRefused none w out = Unit {0}
  AsRefused (some reason) w out = Refused reason w out

  serve_unknown :
      (id : ℕ) (name : Text) (w : World)
      → is_command id ≡ false
      → serve_command sys limit id name w ≡ refuse sys limit unknown_command w
  unfolding serve_command
  serve_unknown id name w h = ground arith

  command_refused :
      (id : ℕ) (name : Text) (w w0 : World)
      → w.trace ≡ w0.trace
      → AsRefused
          (if is_command id then none else some unknown_command)
          w0
          (finish (serve_command sys limit id name w))
  command_refused id name w w0 e = elim (Bool-cases (is_command id)) [
    | inl known ↦ rw known tt
    | inr unknown ↦ rw unknown (
        subst (λ out. Refused unknown_command w0 (finish out))
          (sym (serve_unknown id name w unknown)) (finish-refuse b'u' _ w w0 e))
  ]

  -- What is refused after the head.
  abbrev request_refusal : ℕ → ℕ → List ℕ → Option Text
  request_refusal id namelen rest =
      if ltb max_name namelen
      then some invalid_namelen
      else if ltb (length rest) namelen
      then some filename_failure
      else if is_command id
      then none
      else some unknown_command

  request_refused :
      (id namelen : ℕ) (w w0 : World)
      → w.trace ≡ w0.trace
      → AsRefused
          (request_refusal id namelen w.input)
          w0
          (finish (serve_request sys limit id namelen w))
  unfolding serve_request serve_name readx
  request_refused id namelen w w0 e = elim (Bool-cases (ltb max_name namelen)) [
    | inl long ↦ rw long (finish-refuse b'i' _ w w0 e)
    | inr fine ↦ elim (Bool-cases (ltb (length w.input) namelen)) [
      | inl cut ↦ rw (fine, cut) (finish-refuse b'f' _ (record w { input = [] }) w0 e)
      | inr whole ↦
          rw (fine, whole)
            (command_refused id (c_string (take namelen w.input))
              (record w { input = drop namelen w.input }) w0 e)
    ]
  ]

  -- The service, by what the first read gives.
  begun : Option (List ℕ) × World → Option World
  begun (head, w1) = finish (serve_head sys limit head w1)

  service_begun :
      (w : World) → file_sync_service sys limit (suc rounds) true fd w ≡ begun (readx 8 w)
  unfolding file_sync_service serve finish begun
  service_begun w = refl

  begun_refused : (w : World) → AsRefused (refusal w.input) w (begun (readx 8 w))
  unfolding begun readx serve_head
  begun_refused w =
      let w1 = record w { input = drop 8 w.input } in
      elim (Bool-cases (ltb (length w.input) 8)) [
        | inl short ↦ rw short (finish-refuse b'c' _ (record w { input = [] }) w refl)
        | inr long ↦
            rw long
              (request_refused (word (take 8 w.input)) (word (drop 4 (take 8 w.input))) w1 w refl)
      ]

  -- A service whose client first sends no whole head, a name that is too long or cut short, or a
  -- command that does not exist tells the client why in one FAIL message, makes no other call but
  -- to close its descriptor, and ends, provided that the messages reach the client.
  pub file_sync_service-Refused :
      (reason : Text) (w : World)
      → refusal w.input ≡ some reason
      → Refused reason w (file_sync_service sys limit (suc rounds) true fd w)
  file_sync_service-Refused reason w e =
      rw (service_begun w) (subst (λ r. AsRefused r w (begun (readx 8 w))) e (begun_refused w))
