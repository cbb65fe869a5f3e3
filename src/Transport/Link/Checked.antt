-- ===== src/Transport/Link/Checked.antt =====
-- adb/transport_local.cpp: what remote_read lets through.
use adb_wide.Base.Words.{u32_mod}
use adb_wide.Base.{
  ◌+◌, ◌%◌, ◌<◌, [], ◌∷◌, ◌∙◌, ℕ, ◌≤◌, ◌≡◌, refl, ap, false, Option, none, some, List, length,
  arith, take-all, if◌then◌else◌, if_cases,
}
use adb_wide.Transport.Packet.{
  max_payload, Message, Packet, message_size, message_of, magic_of, received_sum, check_header,
  check_data,
}
use adb_wide.Transport.Rwx.{Arrival, readx}
use adb_wide.Transport.Rwx.Chunks.{length-readx}
use adb_wide.Transport.Link.{read_data, read_checked, remote_read}

-- The bytes, added up.
abbrev pub total : List ℕ → ℕ
total [] = 0
total (x ∷ xs) = x + total xs

received_sum-total :
    (sum : ℕ) (xs : List ℕ) → sum < u32_mod → received_sum sum xs ≡ (sum + total xs) % u32_mod
unfolding received_sum
received_sum-total sum [] h = omega arith
received_sum-total sum (x ∷ xs) h =
    received_sum-total ((sum + x) % u32_mod) xs (omega arith) ∙ omega arith

-- A packet that came through, if one did, has a length that is true of its bytes and that they have
-- room for, the sum of its bytes in 32 bits as its data_check, and the magic of its command.
pub IsChecked : Option Packet → Type 0
IsChecked none = Unit {0}
IsChecked (some p) =
    (length p.data_bytes ≡ p.msg.data_length)
    × (p.msg.data_length ≤ max_payload)
    × (total p.data_bytes % u32_mod ≡ p.msg.data_check)
    × (p.msg.magic ≡ magic_of p.msg.command)

whole_data :
    (m : Message) (bytes : List ℕ)
    → length bytes ≡ m.data_length
    → check_data (record { msg = m; data_bytes = bytes }) ≡ false
    → total bytes % u32_mod ≡ m.data_check
unfolding check_data
whole_data m bytes e h = ground (
  arith,
  ap (received_sum 0) (take-all m.data_length bytes (omega (arith, e))),
  received_sum-total 0 bytes (omega arith),
)

read_data-IsChecked :
    (m : Message) (w : List Arrival)
    → m.data_length ≤ max_payload
    → m.magic ≡ magic_of m.command
    → IsChecked (read_data m w).0
unfolding read_data IsChecked
read_data-IsChecked m w fits magic = go (readx m.data_length w).0 refl
  where
    go :
        (got : Option (List ℕ))
        → (readx m.data_length w).0 ≡ got
        → IsChecked
            (elim got as (λ _. Option Packet × List Arrival) [
              | none ↦ (none, (readx m.data_length w).1)
              | some bytes ↦
                  (let p : Packet = record { msg = m; data_bytes = bytes } in
                    if check_data p
                    then (none, (readx m.data_length w).1)
                    else (some p, (readx m.data_length w).1))
            ]).0
    go none e = tt
    go (some bytes) e =
        let p : Packet = record { msg = m; data_bytes = bytes } in
        let size = length-readx m.data_length w bytes e in
        if_cases (λ (r : Option Packet × List Arrival). IsChecked r.0) (check_data p) _ _ (λ _. tt)
          (λ c. (size, fits, whole_data m bytes size c, magic))

read_checked-IsChecked : (m : Message) (w : List Arrival) → IsChecked (read_checked m w).0
unfolding read_checked check_header IsChecked
read_checked-IsChecked m w =
    if_cases (λ r. IsChecked r.0) (check_header m) (none, w) (read_data m w) (λ _. tt)
      (λ c. read_data-IsChecked m w (ground (arith, c)) (ground (arith, c)))

-- Whatever comes, a packet that remote_read gives has as many bytes as its data_length says, no more
-- than a packet has room for, the sum of those bytes modulo 2 ^ 32 as its data_check, and the magic of its command.
pub remote_read-IsChecked : (w : List Arrival) → IsChecked (remote_read w).0
unfolding remote_read IsChecked
remote_read-IsChecked w = go (readx message_size w).0
  where
    go :
        (got : Option (List ℕ))
        → IsChecked
            (elim got as (λ _. Option Packet × List Arrival) [
              | none ↦ (none, (readx message_size w).1)
              | some bytes ↦ read_checked (message_of bytes) (readx message_size w).1
            ]).0
    go none = tt
    go (some bytes) = read_checked-IsChecked (message_of bytes) (readx message_size w).1
