-- ===== src/Server/Handlers/Chat.antt =====
-- RRPG Server/server.cpp: `OnClientChatReceived` and its buffer.
use rrpg.Common.{
  ◌+◌, ◌<◌, ◌≤◌, ◌∷◌, ◌++◌, some, ◌≡◌, ok, fault, out_of_bounds, ◌>>=◌, length, arith, Chars, codes,
  le→leb,
}
use rrpg.RakNet.{RakNet, Packet, print, send, everyone}
use rrpg.Protocol.{Player}
use rrpg.StdMap
use rrpg.Server.{Server, emit, get_player}
use rrpg.Server.Broadcast.{text_bytes}
use rrpg.Server.Handlers.{sender, payload, on_client_chat_received}

-- The line of the chat: the sender's name and its text.
abbrev pub chat_text : Chars → Chars → Chars
chat_text name text = name ++ (codes ": " ++ text)

module _ (net : RakNet) (p : Packet) (s : Server) {player : Player}
    (known : StdMap.lookup (sender net p) s.players ≡ some player) where
  -- A text of at most 2045 characters, from a client of the map, is printed on the server and sent
  -- to everyone, behind the sender's name, and nothing else changes.
  pub chat_fits :
      length (net.decode_string 2048 (payload net p)).0 ≤ 2045
      → on_client_chat_received net p s
        ≡ ok (
          tt,
          record s {
            out =
                send
                  (text_bytes (chat_text player.name (net.decode_string 2048 (payload net p)).0))
                  everyone
                ∷ print
                    (chat_text player.name (net.decode_string 2048 (payload net p)).0 ++ codes "\n")
                ∷ s.out;
          },
        )
  unfolding on_client_chat_received ◌>>=◌ emit get_player
  chat_fits h =
      rw (known, ◌>>=◌, get_player)
        (rw (
          le→leb (length player.name + 2 + (length (net.decode_string 2048 (payload net p)).0 + 1))
              (2048 + length player.name) (omega arith),
          ◌>>=◌,
        ))

  -- If the text of a client of the map has more than 2045 characters, `OnClientChatReceived`
  -- writes past the end of its buffer.
  pub chat_overruns :
      2045 < length (net.decode_string 2048 (payload net p)).0
      → on_client_chat_received net p s ≡ fault out_of_bounds
  unfolding on_client_chat_received ◌>>=◌ emit get_player
  chat_overruns h = rw (known, ◌>>=◌, get_player) (ground arith)
