-- ===== src/Sync/Mkdirs.antt =====
-- adb/file_sync_service.c: is_on_system and mkdirs.
use adb_wide.Base.{ℕ, Bool, true, false, [], ◌∷◌, ◌++◌, ◌==◌, if◌then◌else◌}
use adb_wide.Sync.World.{
  Text, Errno, enoent, eexist, mkdir, chown, restorecon, Owner, Platform, World, do_call,
}

-- strncmp(prefix, name, strlen(prefix)) == 0
unfoldable pub starts_with : Text → Text → Bool
starts_with [] name = true
starts_with (c ∷ cs) [] = false
starts_with (c ∷ cs) (d ∷ ds) = if c == d then starts_with cs ds else false

-- "/system/"
abbrev pub system_dir : Text
system_dir = b'/' ∷ b's' ∷ b'y' ∷ b's' ∷ b't' ∷ b'e' ∷ b'm' ∷ b'/' ∷ []

unfoldable pub is_on_system : Text → Bool
unfolding starts_with
is_on_system name = starts_with system_dir name

-- uid_t and gid_t of 32 bits, at -1.
abbrev pub no_id : ℕ
no_id = 4294967295

-- The owner and mode that mkdirs starts from.
abbrev pub first_owner : Owner
first_owner = record { uid = no_id; gid = no_id; mode = 0o775 }

abbrev pub is_eexist : Errno → Bool
is_eexist eexist = true
is_eexist _ = false

abbrev pub is_enoent : Errno → Bool
is_enoent enoent = true
is_enoent _ = false

module _ (sys : Platform) where
  -- One directory: true if mkdirs returns at it with an error.
  unfoldable pub make_dir : Text → Owner → World → Bool × World
  unfolding do_call
  make_dir name owner w =
      let (r, w1) = do_call sys (mkdir name owner.mode) w in
      let (r2, w2) = do_call sys (chown name owner.uid owner.gid) w1 in
      let (r3, w3) = do_call sys (restorecon name) w2 in
      if r.failed
      then (if is_eexist w1.errno then (false, w1) else (true, w1))
      else if r2.failed
      then (true, w2)
      else (false, w3)

  abbrev pub configured : Text → Owner → Owner
  configured name owner = if is_on_system name then sys.fs_config name true owner else owner

  -- The loop, after the bytes `name` and before the bytes `rest`.
  unfoldable pub mkdirs_from : Text → Text → Owner → World → Bool × World
  unfolding make_dir
  mkdirs_from name [] owner w = (false, w)
  mkdirs_from name (c ∷ rest) owner w =
      let owner' = configured name owner in
      let (failed, w') = make_dir name owner' w in
      elim (c == b'/') [
        | true ↦ elim failed [
          | true ↦ (true, w')
          | false ↦ mkdirs_from (name ++ c ∷ []) rest owner' w'
        ]
        | false ↦ mkdirs_from (name ++ c ∷ []) rest owner w
      ]

  -- True if it returns an error.
  unfoldable pub mkdirs : Text → World → Bool × World
  unfolding mkdirs_from
  mkdirs [] w = (true, w)
  mkdirs (c ∷ rest) w = if c == b'/' then mkdirs_from (c ∷ []) rest first_owner w else (true, w)
