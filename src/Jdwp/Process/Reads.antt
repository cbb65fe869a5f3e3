-- ===== src/Jdwp/Process/Reads.antt =====
-- adb/jdwp_service.c, jdwp_process_event: the pid comes in however many pieces.
use mathlib.Core.List.{append_assoc}
use adb_wide.Base.{
  ℕ, ◌-◌, ◌≤◌, ◌<◌, ◌≡◌, refl, ◌∙◌, ap, sym, true, List, [], ◌∷◌, ◌++◌, length, take, drop,
  length-append, length-take, take-all, take-drop, arith, ltb, leb, if_cases,
}
use adb_wide.Jdwp.Process.{Received, bytes, interrupted, broken, Reading, complete, read_pid}

-- The bytes that come, where there is no error and no end among them.
abbrev pub content : List Received → List ℕ
content [] = []
content (bytes bs ∷ rs) = bs ++ content rs
content (_ ∷ rs) = content rs

abbrev pub AllGood : List Received → Type 0
AllGood [] = Unit {0}
AllGood (bytes bs ∷ rs) = (0 < length bs) × AllGood rs
AllGood (interrupted ∷ rs) = AllGood rs
AllGood (broken ∷ rs) = ⊥

-- The reading is complete with the first four bytes, and the rest is still to be received.
abbrev pub ReadsPid : List ℕ → Reading × List ℕ × List Received → Type 0
ReadsPid text out = (out.0 ≡ complete) × (out.1 ++ content out.2 ≡ text) × (length out.1 ≡ 4)

-- Bytes of the pid received before: nothing more is received.
full :
    (buff : List ℕ) (rs : List Received)
    → length buff ≤ 4
    → leb 4 (length buff) ≡ true
    → ReadsPid (buff ++ content rs) (complete, buff, rs)
full buff rs h e = (refl, refl, ground arith)

-- However the bytes come, in pieces and with EINTR between them, where four of them come without an
-- error the reading of the pid is complete with the first four, those of before in front, and
-- leaves the others to be received.
pub read_pid-ReadsPid :
    (buff : List ℕ) (rs : List Received)
    → AllGood rs
    → length buff ≤ 4
    → 4 ≤ length (buff ++ content rs)
    → ReadsPid (buff ++ content rs) (read_pid buff rs)
unfolding read_pid
read_pid-ReadsPid buff [] good h k =
    if_cases (ReadsPid (buff ++ [])) (leb 4 (length buff)) _ _ (full buff [] h)
      λ less. absurd (ground (arith, length-append buff []))
read_pid-ReadsPid buff (interrupted ∷ rs) good h k =
    if_cases (ReadsPid (buff ++ content rs)) (leb 4 (length buff)) _ _
      (full buff (interrupted ∷ rs) h) λ _. read_pid-ReadsPid buff rs good h k
read_pid-ReadsPid buff (broken ∷ rs) good h k = absurd good
read_pid-ReadsPid buff (bytes [] ∷ rs) good h k = absurd (omega arith)
read_pid-ReadsPid buff (bytes (b ∷ bs) ∷ rs) good h k =
    let piece = b ∷ bs in
    let size = 4 - length buff in
    let text = buff ++ (piece ++ content rs) in
    if_cases (ReadsPid text) (leb 4 (length buff)) _ _ (full buff (bytes piece ∷ rs) h) λ less.
      if_cases (ReadsPid text) (ltb size (length piece)) _ _
        (λ longer. (
          refl,
          append_assoc buff (take size piece) (drop size piece ++ content rs)
              ∙ ap (λ t. buff ++ t)
                  (sym (append_assoc (take size piece) (drop size piece) (content rs))
                    ∙ ap (λ t. t ++ content rs) (take-drop size piece)),
          ground (arith, length-append buff (take size piece), length-take size piece),
        ))
        λ fits.
          let all : take size piece ≡ piece = take-all size piece (ground arith) in
          let same : (buff ++ piece) ++ content rs ≡ text = append_assoc buff piece (content rs) in
          rw (all, sym same)
            (read_pid-ReadsPid (buff ++ piece) rs good.1 (ground (arith, length-append buff piece))
              (rw same k))
