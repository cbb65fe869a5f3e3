-- ===== src/Transport/Packet.antt =====
-- adb/adb.h, adb/transport.cpp: packets, their checks, and their bytes in memory.
use Prim.Native.Nat.{bit_xor}
use adb_wide.Base.{
  ℕ, ◌+◌, ◌%◌, Bool, true, false, List, [], ◌∷◌, ◌++◌, take, drop, ltb, ◌==◌, if◌then◌else◌,
}
use adb_wide.Base.Words.{u32_mod, le32, word}

abbrev pub max_payload : ℕ
max_payload = 4096

-- `struct amessage`, of words of 32 bits.
pub record Message : Type 0 where
  pub command : ℕ
  pub arg0 : ℕ
  pub arg1 : ℕ
  pub data_length : ℕ
  pub data_check : ℕ
  pub magic : ℕ

-- `struct apacket` without its place in a queue: the message, and the bytes of `data` that are in use.
pub record Packet : Type 0 where
  pub msg : Message
  pub data_bytes : List ℕ

-- sizeof(amessage)
abbrev pub message_size : ℕ
message_size = 24

abbrev pub message_bytes : Message → List ℕ
message_bytes m =
    le32 m.command
    ++ (le32 m.arg0 ++ (le32 m.arg1 ++ (le32 m.data_length ++ (le32 m.data_check ++ le32 m.magic))))

unfoldable pub message_of : List ℕ → Message
message_of bytes = record {
  command = word bytes;
  arg0 = word (drop 4 bytes);
  arg1 = word (drop 8 bytes);
  data_length = word (drop 12 bytes);
  data_check = word (drop 16 bytes);
  magic = word (drop 20 bytes);
}

-- A packet of get_apacket with a command and arguments, whose other words are 0.
abbrev pub bare : ℕ → ℕ → ℕ → Packet
bare command arg0 arg1 = record {
  msg = record {
    command = command;
    arg0 = arg0;
    arg1 = arg1;
    data_length = 0;
    data_check = 0;
    magic = 0;
  };
  data_bytes = [];
}

abbrev pub magic_of : ℕ → ℕ
magic_of command = bit_xor command 4294967295

-- while(count-- > 0) sum += *x++;
unfoldable pub checksum : ℕ → List ℕ → ℕ
checksum sum [] = sum
checksum sum (x ∷ xs) = checksum ((sum + x) % u32_mod) xs

-- What send_packet writes to the message.
unfoldable pub seal : Packet → Packet
unfolding checksum
seal p = record p {
  msg = record p.msg {
    magic = magic_of p.msg.command;
    data_check = checksum 0 (take p.msg.data_length p.data_bytes);
  };
}

-- True for -1.
unfoldable pub check_header : Message → Bool
check_header m = if m.magic == magic_of m.command then ltb max_payload m.data_length else true

-- The loop of check_data, which is another than that of send_packet.
unfoldable pub received_sum : ℕ → List ℕ → ℕ
received_sum sum [] = sum
received_sum sum (x ∷ xs) = received_sum ((sum + x) % u32_mod) xs

unfoldable pub check_data : Packet → Bool
unfolding received_sum
check_data p =
    if received_sum 0 (take p.msg.data_length p.data_bytes) == p.msg.data_check then false else true
