-- ===== src/Session/Wire.antt =====
-- A packet from a bit stream: its identifier, and the stream behind it. Both sides read packets
-- alike, so the lemmas serve both.
use mathlib.Core.List.{append_assoc}
use rrpg.Common.{
  ℕ, ◌<◌, ◌≤◌, false, List, ◌∷◌, ◌++◌, ◌≡◌, ap, ◌∙◌, ◌≢◌, ok, ◌>>=◌, pure, length, arith, Chars,
}
use rrpg.RakNet.{RakNet, RakNetLaws, Bits, Packet, IsCString}
use rrpg.Protocol.{get_packet_identifier}
use rrpg.Server
use rrpg.Client

-- A byte that is no time stamp's identifier names the packet.
pub identify_first :
    (p : Packet) (b : ℕ) (tail : List ℕ)
    → p.bytes ≡ b ∷ tail
    → b ≢ 27
    → get_packet_identifier p ≡ ok b
unfolding get_packet_identifier
identify_first p b tail e h = rw (e, get_packet_identifier) (ground arith)

module _ (net : RakNet) (laws : RakNetLaws net) where
  pub identify_lem :
      (p : Packet) (b : ℕ) (rest : Bits)
      → p.bytes ≡ net.to_bytes (net.byte_bits b ++ rest)
      → b < 256
      → b ≢ 27
      → get_packet_identifier p ≡ ok b
  identify_lem p b rest e h other =
      let (tail, first) = laws.first_byte b rest h in identify_first p b tail (e ∙ first) other

  -- The stream behind the identifier, up to the padding.
  pub payload_lem :
      (p : Packet) (b : ℕ) (rest : Bits)
      → p.bytes ≡ net.to_bytes (net.byte_bits b ++ rest)
      → b < 256
      → (pad : Bits) × (net.ignore_bits 8 (net.from_bytes p.bytes) ≡ rest ++ pad)
  payload_lem p b rest e h =
      let (pad, whole) = laws.padding (net.byte_bits b ++ rest) in
      (
        pad,
        ap (λ bytes. net.ignore_bits 8 (net.from_bytes bytes)) e
            ∙ ap (net.ignore_bits 8) (whole ∙ append_assoc (net.byte_bits b) rest pad)
            ∙ laws.ignore_byte b (rest ++ pad) h,
      )

  -- A text behind the identifier comes back.
  pub text_lem :
      (p : Packet) (b limit size : ℕ) (text : Chars) (rest : Bits)
      → p.bytes ≡ net.to_bytes (net.byte_bits b ++ (net.encode_string text limit ++ rest))
      → b < 256
      → IsCString text
      → length text < limit
      → length text < size
      → (net.decode_string size (net.ignore_bits 8 (net.from_bytes p.bytes))).0 ≡ text
  text_lem p b limit size text rest sent h terminated fits short =
      let (pad, stream) = payload_lem p b (net.encode_string text limit ++ rest) sent h in
      ap (λ bits. (net.decode_string size bits).0)
        (stream ∙ append_assoc (net.encode_string text limit) rest pad)
      ∙ ap (λ r. r.0) (laws.decode-encode text limit size (rest ++ pad) terminated fits short)

  pub second_payload_lem :
      (p : Packet) (b c : ℕ) (rest : Bits)
      → p.bytes ≡ net.to_bytes (net.byte_bits b ++ (net.byte_bits c ++ rest))
      → b < 256
      → c < 256
      → (pad : Bits) × (net.ignore_bits 8 (net.from_bytes p.bytes)
          ≡ net.byte_bits c ++ (rest ++ pad))
        × (net.ignore_bits 16 (net.from_bytes p.bytes) ≡ rest ++ pad)
  second_payload_lem p b c rest e h k =
      let (pad, whole) = laws.padding (net.byte_bits b ++ (net.byte_bits c ++ rest)) in
      let stream : net.from_bytes p.bytes ≡ net.byte_bits b ++ (net.byte_bits c ++ (rest ++ pad)) =
        ap net.from_bytes e
        ∙ whole
        ∙ append_assoc (net.byte_bits b) (net.byte_bits c ++ rest) pad
        ∙ ap (◌++◌ (net.byte_bits b)) (append_assoc (net.byte_bits c) rest pad) in
      (
        pad,
        ap (net.ignore_bits 8) stream ∙ laws.ignore_byte b (net.byte_bits c ++ (rest ++ pad)) h,
        ap (net.ignore_bits 16) stream ∙ laws.ignore_two_bytes b c (rest ++ pad) h k,
      )

client-low_level :
    (net : RakNet) (p : Packet) (b : ℕ) (c : Client.Client)
    → 134 ≤ b
    → Client.Dispatch.low_level net b p c ≡ ok (false, c)
unfolding Client.Dispatch.low_level pure
client-low_level net p b c h = ground arith

server-low_level :
    (net : RakNet) (p : Packet) (b : ℕ) (s : Server.Server)
    → 134 ≤ b
    → Server.Dispatch.low_level net b p s ≡ ok (false, s)
unfolding Server.Dispatch.low_level pure
server-low_level net p b s h = ground arith

-- An identifier of the program's own reaches the second `switch`, on either side.
pub client-dispatch :
    (net : RakNet) (p : Packet) (b : ℕ) (c : Client.Client)
    → get_packet_identifier p ≡ ok b
    → 134 ≤ b
    → Client.Dispatch.handle_packet net p c ≡ Client.Dispatch.server_packet net b p c
unfolding Client.Dispatch.handle_packet Client.Dispatch.is_low_level_packet_handled ◌>>=◌
    Client.Dispatch.lift
client-dispatch net p b c e h =
    rw (e, ◌>>=◌) (rw (client-low_level net p b c h, ◌>>=◌) (rw (e, ◌>>=◌)))

pub server-dispatch :
    (net : RakNet) (p : Packet) (b : ℕ) (s : Server.Server)
    → get_packet_identifier p ≡ ok b
    → 134 ≤ b
    → Server.Dispatch.handle_packet net p s ≡ Server.Dispatch.client_packet net b p s
unfolding Server.Dispatch.handle_packet Server.Dispatch.is_low_level_packet_handled ◌>>=◌
    Server.Turn.lift
server-dispatch net p b s e h =
    rw (e, ◌>>=◌) (rw (server-low_level net p b s h, ◌>>=◌) (rw (e, ◌>>=◌)))
