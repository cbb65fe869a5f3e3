-- ===== src/Sync/Ends.antt =====
-- adb/file_sync_service.c: the receiving of a file ends when the client's stream does.
use adb_wide.Base.{
  leb, true, ℕ, zero, suc, ◌≤◌, ◌<◌, ◌≡◌, ◌≢◌, refl, Bool, Option, none, some, List, [], arith,
  ◌==◌, ltb, drop, length, length-drop, ◌-◌, take, if_cases,
}
use adb_wide.Sync.Wire.{word, id_data, id_done, sync_data_max}
use adb_wide.Sync.World.{Text, Owner, Platform, World, do_call, readx}
use adb_wide.Sync.Kept.{IsKept, kept-write_chunk, kept-open_target}
use adb_wide.Sync.Send.{
  Progress, returned, going, LoopEnd, finished, failed, gave_up, no_fuel, Round, stop, next,
  write_chunk, receive_chunk, receive_head, receive_message, receive, conclude, receive_from,
  open_target, handle_send_file,
}

-- No more than `n` bytes are left of the client's.
abbrev pub fits : ℕ → World → Bool
fits n w = leb (length w.input) n

pub fits-IsKept : (sys : Platform) (n : ℕ) → IsKept sys (fits n)
unfolding do_call readx
fits-IsKept sys n = record {
  calls = λ c w h. h;
  sets = λ e w h. h;
  reading = λ k w h. ground (arith, length-drop k w.input);
}

module _ (sys : Platform) where
  fits_self : (w : World) → fits (length w.input) w ≡ true
  fits_self w = ground arith

  length-readx : (n : ℕ) (w : World) → length (readx n w).1.input ≤ length w.input
  unfolding readx
  length-readx n w = ground (arith, length-drop n w.input)

  -- A round that goes on has read no more than there was.
  abbrev GoesOn : ℕ → Round × World → Type 0
  GoesOn n (stop end, w) = end ≢ no_fuel
  GoesOn n (next fd, w) = length w.input ≤ n

  receive_chunk-GoesOn :
      (path : Text) (b : Bool) (fd : Option ℕ) (chunk : Option (List ℕ)) (w : World)
      → GoesOn (length w.input) (receive_chunk sys path b fd chunk w)
  unfolding receive_chunk
  receive_chunk-GoesOn path b fd none w = λ e. cc
  receive_chunk-GoesOn path b fd (some buffer) w =
      let n = length w.input in
      go (write_chunk sys path b fd buffer w)
        (kept-write_chunk sys (fits n) (fits-IsKept sys n) path b fd buffer w (fits_self w))
    where
      go :
          (out : Progress × World)
          → fits (length w.input) out.1 ≡ true
          → GoesOn
              (length w.input)
              (elim out.0 [ returned ↦ stop gave_up | going fd' ↦ next fd' ], out.1)
      go (returned, w') e = λ h. cc
      go (going fd', w') e = ground arith

  GoesOn-mono : (n m : ℕ) (out : Round × World) → n ≤ m → GoesOn n out → GoesOn m out
  GoesOn-mono n m (stop end, w) h g = g
  GoesOn-mono n m (next fd, w) h g = omega arith

  receive_head-GoesOn :
      (path : Text) (b : Bool) (fd : Option ℕ) (id len : ℕ) (w : World)
      → GoesOn (length w.input) (receive_head sys path b fd id len w)
  unfolding receive_head
  receive_head-GoesOn path b fd id len w =
      let P = GoesOn (length w.input) in
      let (chunk, w') = readx len w in
      if_cases P (id == id_data) _ _
        (λ _.
          if_cases P (ltb sync_data_max len) _ _ (λ _ e. cc)
            λ _.
              GoesOn-mono _ _ (receive_chunk sys path b fd chunk w') (length-readx len w)
                (receive_chunk-GoesOn path b fd chunk w'))
        λ _. if_cases P (id == id_done) _ _ (λ _ e. cc) λ _ e. cc

  -- A whole round reads eight bytes at least, if it goes on.
  abbrev GoesOnBelow : ℕ → Round × World → Type 0
  GoesOnBelow n (stop end, w) = end ≢ no_fuel
  GoesOnBelow n (next fd, w) = length w.input < n

  below-GoesOnBelow : (n m : ℕ) (out : Round × World) → n < m → GoesOn n out → GoesOnBelow m out
  below-GoesOnBelow n m (stop end, w) h g = g
  below-GoesOnBelow n m (next fd, w) h g = omega arith

  round-GoesOnBelow :
      (path : Text) (b : Bool) (fd : Option ℕ) (w : World) (n : ℕ)
      → length w.input ≤ n
      → let (head, w1) = readx 8 w in GoesOnBelow n (receive_message sys path b fd head w1)
  unfolding receive_message readx
  round-GoesOnBelow path b fd w n h =
      if_cases
        (λ (out : Option (List ℕ) × World).
          GoesOnBelow n (receive_message sys path b fd out.0 out.1))
        (ltb (length w.input) 8) (none, record w { input = [] })
        (some (take 8 w.input), record w { input = drop 8 w.input }) (λ _ e. cc)
        λ long.
          let w1 = record w { input = drop 8 w.input } in
          let out =
            receive_head sys path b fd (word (take 8 w.input)) (word (drop 4 (take 8 w.input)))
              w1 in
          let read : length (drop 8 w.input) ≡ length w.input - 8 = length-drop 8 w.input in
          let enough : 8 ≤ length w.input = ground arith in
          below-GoesOnBelow (length w1.input) n out (omega arith) (
            receive_head-GoesOn path b fd (word (take 8 w.input)) (word (drop 4 (take 8 w.input)))
              w1)

  loop_step :
      (n : ℕ) (round : Round) (w : World) (rest : Option ℕ → LoopEnd × World)
      → GoesOnBelow n (round, w)
      → ((fd : Option ℕ) → length w.input < n → (rest fd).0 ≢ no_fuel)
      → let out : LoopEnd × World = elim round [ stop end ↦ (end, w) | next fd ↦ rest fd ] in
        out.0 ≢ no_fuel
  loop_step n (stop end) w rest g later = g
  loop_step n (next fd) w rest g later = later fd g

  receive_ends :
      (path : Text) (b : Bool) (fuel : ℕ) (fd : Option ℕ) (w : World)
      → length w.input < fuel
      → (receive sys path b fuel fd w).0 ≢ no_fuel
  unfolding receive
  receive_ends path b zero fd w h = absurd (omega arith)
  receive_ends path b (suc fuel) fd w h =
      let (head, w1) = readx 8 w in
      let (round, w2) = receive_message sys path b fd head w1 in
      loop_step fuel round w2 (λ fd'. receive sys path b fuel fd' w2)
        (round-GoesOnBelow path b fd w fuel (omega arith))
        λ fd' less. receive_ends path b fuel fd' w2 less

  conclude_returns :
      (path : Text) (b : Bool) (end : LoopEnd) (w : World)
      → end ≢ no_fuel
      → (conclude sys path b end w).0 ≢ none
  unfolding conclude
  conclude_returns path b (finished none time) w h e = cc
  conclude_returns path b (finished (some fd) time) w h e = cc
  conclude_returns path b (failed fd) w h e = cc
  conclude_returns path b gave_up w h e = cc
  conclude_returns path b no_fuel w h e = h refl

  receive_from_returns :
      (fuel : ℕ) (path : Text) (b : Bool) (step : Progress) (w : World)
      → length w.input < fuel
      → (receive_from sys fuel path b step w).0 ≢ none
  unfolding receive_from
  receive_from_returns fuel path b returned w h = λ e. cc
  receive_from_returns fuel path b (going fd) w h =
      let (end, w') = receive sys path b fuel fd w in
      conclude_returns path b end w' (receive_ends path b fuel fd w h)

  -- With more fuel than the client has bytes to send, handle_send_file returns.
  pub handle_send_file_returns :
      (fuel : ℕ) (path : Text) (owner : Owner) (do_unlink : Bool) (w : World)
      → length w.input < fuel
      → (handle_send_file sys fuel path owner do_unlink w).0 ≢ none
  unfolding handle_send_file
  handle_send_file_returns fuel path owner do_unlink w h =
      let (step, w') = open_target sys path owner w in
      let n = length w.input in
      let fewer : fits n w' ≡ true =
        kept-open_target sys (fits n) (fits-IsKept sys n) path owner w (fits_self w) in
      receive_from_returns fuel path do_unlink step w' (ground arith)
