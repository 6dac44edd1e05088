-- ===== src/RakNet.antt =====
-- What the program uses of RakNet (Include/): its calls are the fields of a record, and the
-- behaviour that the program relies on is the record `RakNetLaws`. A `BitStream` is the list of
-- its bits, with the read position at the head.
pub mod MessageIds
use rrpg.Common.{
  ℕ, ◌+◌, ◌<◌, ◌≤◌, ℤ, fits_int32, Bool, true, List, [], ◌∷◌, ◌++◌, Option, some, ◌≡◌, Chars,
  length, All,
}

abbrev pub Bits : Type 0
Bits = List Bool

-- A `RakNet::Packet`: the sender's GUID and address, and the bytes.
pub record Packet : Type 0 where
  pub guid : ℕ
  pub system_address : ℕ
  pub bytes : List ℕ

pub record RakNet : Type 0 where
  -- `BitStream::Write` of an unsigned char, an int and a bool: the bits that it appends.
  pub byte_bits : ℕ → Bits
  pub int_bits : ℤ → Bits
  pub bool_bits : Bool → Bits
  -- `BitStream::Read`; `none` where it returns false and leaves the variable alone.
  pub read_byte : Bits → Option (ℕ × Bits)
  pub read_int : Bits → Option (ℤ × Bits)
  pub read_bool : Bits → Option (Bool × Bits)
  -- `BitStream::IgnoreBits`
  pub ignore_bits : ℕ → Bits → Bits
  -- `StringCompressor::EncodeString(s, max, &bs)` and `DecodeString(buffer, max, &bs)`, which
  -- leaves a C string in the buffer.
  pub encode_string : Chars → ℕ → Bits
  pub decode_string : ℕ → Bits → Chars × Bits
  -- The bytes that `Send(&bs, ...)` transmits, and the stream over a packet's data.
  pub to_bytes : Bits → List ℕ
  pub from_bytes : List ℕ → Bits
  -- `RakNetGUID::ToUint32`, `GetSystemAddressFromIndex`, `IsPortInUse`
  pub to_uint32 : ℕ → ℕ
  pub address_from_index : ℕ → ℕ
  pub is_port_in_use : ℕ → Bool
  -- `Startup` on a port returns `RAKNET_STARTED`; `Connect` returns `CONNECTION_ATTEMPT_STARTED`.
  pub startup_succeeds : ℕ → Bool
  pub connect_succeeds : Chars → ℕ → Bool
  -- `SystemAddress::ToString(true)` and `GetLocalIP(0)`
  pub address_text : ℕ → Chars
  pub local_ip : Chars

-- A C string's characters.
abbrev pub IsCString : Chars → Type 0
IsCString = All (λ c. (0 < c) × (c < 256))

pub record RakNetLaws (net : RakNet) : Type 0 where
  pub read_byte_lem :
      (b : ℕ) (rest : Bits) → b < 256 → net.read_byte (net.byte_bits b ++ rest) ≡ some (b, rest)
  pub read_byte-lt :
      (bits : Bits) (b : ℕ) (rest : Bits) → net.read_byte bits ≡ some (b, rest) → b < 256
  pub read_int_lem :
      (z : ℤ) (rest : Bits)
      → fits_int32 z ≡ true
      → net.read_int (net.int_bits z ++ rest) ≡ some (z, rest)
  pub read_bool_lem :
      (b : Bool) (rest : Bits) → net.read_bool (net.bool_bits b ++ rest) ≡ some (b, rest)
  -- A byte takes eight bits.
  pub ignore_byte :
      (b : ℕ) (rest : Bits) → b < 256 → net.ignore_bits 8 (net.byte_bits b ++ rest) ≡ rest
  pub ignore_two_bytes :
      (b c : ℕ) (rest : Bits)
      → b < 256
      → c < 256
      → net.ignore_bits 16 (net.byte_bits b ++ (net.byte_bits c ++ rest)) ≡ rest
  -- A text that fits both limits with its terminator comes back.
  pub decode-encode :
      (text : Chars) (limit size : ℕ) (rest : Bits)
      → IsCString text
      → length text < limit
      → length text < size
      → net.decode_string size (net.encode_string text limit ++ rest) ≡ (text, rest)
  -- The buffer holds a terminated string.
  pub length-decode :
      (size : ℕ) (bits : Bits) → 0 < size → length (net.decode_string size bits).0 < size
  pub decode-IsCString : (size : ℕ) (bits : Bits) → IsCString (net.decode_string size bits).0
  -- A stream is padded to whole bytes.
  pub padding : (bits : Bits) → (pad : Bits) × (net.from_bytes (net.to_bytes bits) ≡ bits ++ pad)
  pub first_byte :
      (b : ℕ) (rest : Bits)
      → b < 256
      → (tail : List ℕ) × (net.to_bytes (net.byte_bits b ++ rest) ≡ b ∷ tail)

pub data Target : Type 0 where
  -- `UNASSIGNED_SYSTEM_ADDRESS` with the broadcast flag
  everyone : Target
  to : ℕ → Target

-- What the program does to the network and the console. All sends are of high priority, reliable
-- and ordered, on channel 0.
pub data Effect : Type 0 where
  send : List ℕ → Target → Effect
  print : Chars → Effect
  close_connection : ℕ → Effect
  -- `Startup` with a number of connections and a port
  startup : ℕ → ℕ → Effect
  set_maximum_incoming_connections : ℕ → Effect
  set_occasional_ping : Effect
  connect : Chars → ℕ → Effect
