-- ===== src/Framebuffer/Tests.antt =====
-- adb/framebuffer_service.c: a small screen, and instances of the theorems.
use adb_wide.Base.{◌≡◌, ◌≢◌, some, none, false, refl, true, [], ◌∷◌, arith}
use adb_wide.Framebuffer.{Stream, rgba, sized, describe, copy_from, framebuffer_service}
use adb_wide.Framebuffer.Ends.{copy_from_returns, framebuffer_service_closes}
use adb_wide.Framebuffer.Copy.{IsLayout, describe-IsLayout, Copied, copy_from-Copied}

abbrev screen : Stream
screen = record { pipe = 1 ∷ 2 ∷ 3 ∷ 4 ∷ 5 ∷ []; sent = []; closed = [] }

describe-IsLayout_example : IsLayout (sized 4 2 3 rgba) 2 3
unfolding describe
describe-IsLayout_example = describe-IsLayout 2 3 1 (sized 4 2 3 rgba) (omega arith) refl

copy_from-Copied_example : Copied 4 screen (copy_from (λ sent bytes. true) 5 0 4 screen)
copy_from-Copied_example =
    copy_from-Copied (λ sent bytes. true) (λ sent bytes. refl) 5 0 4 screen (omega arith)
      (omega arith) (omega arith) (omega arith)

-- A client that takes nothing.
copy_from_returns_example : (copy_from (λ sent bytes. false) 5 0 4 screen).0 ≢ none
copy_from_returns_example =
    copy_from_returns (λ sent bytes. false) 5 0 4 screen (omega arith) (omega arith)

framebuffer_service_closes_example :
    (framebuffer_service (λ sent bytes. true) 9 3 (some (4, 5)) true screen).1.closed
    ≡ 3 ∷ 5 ∷ 4 ∷ []
framebuffer_service_closes_example =
    framebuffer_service_closes (λ sent bytes. true) 9 3 (some (4, 5)) true screen
