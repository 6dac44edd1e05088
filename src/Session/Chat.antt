-- ===== src/Session/Chat.antt =====
-- Texts between the two: a chat line and a broadcast travel as bare C strings, whose first
-- character stands where other packets have their identifier.
use rrpg.Common.{
  ℕ, zero, suc, ◌<◌, ◌≤◌, false, [], ◌∷◌, ◌++◌, some, ◌≡◌, refl, ap, ◌∙◌, ok, ◌>>=◌, pure, arith,
  Chars, codes, c_string,
}
use rrpg.RakNet.{RakNet, Packet, IsCString, print}
use rrpg.Protocol.{get_packet_identifier, s_game_started}
use rrpg.Server.Broadcast.{text_bytes}
use rrpg.Client
use rrpg.Client.Packets.{on_game_start}
use rrpg.Session.Wire.{identify_first, client-dispatch}

c_string-text : (text : Chars) → IsCString text → c_string (text_bytes text) ≡ some text
c_string-text [] t = refl
c_string-text (zero ∷ text) t = absurd (omega arith)
c_string-text (suc c ∷ text) t = rw (c_string-text text t.1)

module _ (net : RakNet) where
  text_unhandled :
      (p : Packet) (c : ℕ) (s : Client.Client)
      → 28 ≤ c
      → c < 134
      → Client.Dispatch.low_level net c p s ≡ ok (false, s)
  unfolding Client.Dispatch.low_level pure
  text_unhandled p c s h k = ground arith

  text_default :
      (p : Packet) (c : ℕ) (text : Chars) (s : Client.Client)
      → c < 134
      → c_string p.bytes ≡ some text
      → Client.Dispatch.server_packet net c p s
        ≡ ok (tt, record s { out = print (text ++ codes "\n") ∷ s.out })
  unfolding Client.Dispatch.server_packet Client.emit
  text_default p c text s h e = ground arith

  -- A text that the server sends, whose first character is between 28 and 133, is printed by the
  -- client as it was sent, and nothing else changes.
  pub text-shown :
      (p : Packet) (c : ℕ) (text : Chars) (s : Client.Client)
      → p.bytes ≡ text_bytes (c ∷ text)
      → IsCString (c ∷ text)
      → 28 ≤ c
      → c < 134
      → Client.Dispatch.handle_packet net p s
        ≡ ok (tt, record s { out = print ((c ∷ text) ++ codes "\n") ∷ s.out })
  unfolding Client.Dispatch.handle_packet Client.Dispatch.is_low_level_packet_handled ◌>>=◌
      Client.Dispatch.lift
  text-shown p c text s sent t h k =
      let named : get_packet_identifier p ≡ ok c =
        identify_first p c (text_bytes text) sent (omega arith) in
      rw (named, ◌>>=◌)
        (rw (text_unhandled p c s h k, ◌>>=◌)
          (rw (named, ◌>>=◌)
            (text_default p c (c ∷ text) s k (ap c_string sent ∙ c_string-text (c ∷ text) t))))

  -- A text that begins with byte 134 is taken for the start of the game, whatever follows.
  pub text-starts_game :
      (p : Packet) (text : Chars) (s : Client.Client)
      → p.bytes ≡ text_bytes (s_game_started ∷ text)
      → Client.Dispatch.handle_packet net p s ≡ on_game_start s
  text-starts_game p text s sent =
      client-dispatch net p s_game_started s
        (identify_first p s_game_started (text_bytes text) sent (omega arith)) (omega arith)
      ∙ to_start p s
    where
      to_start :
          (p : Packet) (s : Client.Client)
          → Client.Dispatch.server_packet net s_game_started p s ≡ on_game_start s
      to_start p s = unfold Client.Dispatch.server_packet in refl
