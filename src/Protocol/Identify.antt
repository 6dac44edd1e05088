-- ===== src/Protocol/Identify.antt =====
-- `GetPacketIdentifier`, which RRPG/RRPG.cpp and RRPG Server/server.cpp both define. A handler's
-- packet is never null. `RakAssert` is checked, as in a debug build, and `RakNet::Time` has eight
-- bytes.
use rrpg.Common.{
  ℕ, ltb, ◌==◌, if◌then◌else◌, List, [], ◌∷◌, none, some, length, get_elem?, Result, ok, fault,
  assertion, out_of_bounds,
}
use rrpg.RakNet.{Packet}
use rrpg.RakNet.MessageIds.{id_timestamp}

byte_at : List ℕ → ℕ → Result ℕ
byte_at bytes i = elim (get_elem? bytes i) [ none ↦ fault out_of_bounds | some b ↦ ok b ]

identify : List ℕ → Result ℕ
unfolding byte_at
identify [] = fault out_of_bounds
identify (b ∷ bytes) =
    if b == id_timestamp
    then (if ltb 9 (length (b ∷ bytes)) then byte_at (b ∷ bytes) 9 else fault assertion)
    else ok b

unfoldable pub get_packet_identifier : Packet → Result ℕ
unfolding identify
get_packet_identifier p = identify p.bytes
