-- ===== src/Sync/Push/Mode.antt =====
-- adb/file_sync_service.c, do_send: the permission bits of a sent file.
use Prim.Native.Nat.{bit_or}
use adb_wide.Base.{
  ℕ, zero, suc, ◌+◌, ◌*◌, ◌/◌, ◌%◌, ◌<◌, ◌≡◌, refl, Bool, true, false, if◌then◌else◌, arith, ◌==◌,
}
use adb_wide.Sync.Push.{spread_mode}

-- The bits of the user for the group as well, and those of both for the others.
abbrev pub spread : ℕ → ℕ
spread mode =
    let user = mode / 64 % 8 in
    let group = bit_or (mode / 8 % 8) user in user * 64 + group * 8 + bit_or (mode % 8) group

-- The modes from 0 up for which the code does so: true if these are the first `n`.
agree : ℕ → Bool
agree zero = true
agree (suc n) = if spread_mode n == spread n then agree n else false

agree_below : (n mode : ℕ) → agree n ≡ true → mode < n → spread_mode mode ≡ spread mode
unfolding agree
agree_below zero mode h less = absurd (omega arith)
agree_below (suc n) mode h less = ground (arith, agree_below n mode)

all_modes : agree 512 ≡ true
unfolding agree spread_mode
all_modes = refl

-- A sent file's nine permission bits become: the user's bits as they were, the group's with the
-- user's added, and the others' with both added.
pub spread_mode-spread : (mode : ℕ) → mode < 512 → spread_mode mode ≡ spread mode
spread_mode-spread mode h = agree_below 512 mode all_modes h
