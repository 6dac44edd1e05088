-- ===== src/Session/Talk.antt =====
-- A line of the chat, from the client that it is typed on, over the server, to another client.
use mathlib.Core.List.{append-nil}
use mathlib.Core.Path.{subst}
use rrpg.Common.{
  ℕ, ◌+◌, ◌<◌, ◌≤◌, ◌==◌, false, List, [], ◌∷◌, ◌++◌, some, ◌≡◌, refl, sym, ap, ◌∙◌, ok, fault,
  out_of_bounds, length, ◌>>=◌, All-append, Chars, codes, to_lower, arith,
}
use rrpg.RakNet.{RakNet, RakNetLaws, Packet, IsCString, Effect, send, print, everyone}
use rrpg.Protocol.{Player, c_chat, gs_character_select}
use rrpg.StdMap
use rrpg.Server
use rrpg.Server.Broadcast.{text_bytes}
use rrpg.Server.Handlers.{sender, payload, on_client_chat_received}
use rrpg.Server.Handlers.Chat.{chat_text, chat_fits, chat_overruns}
use rrpg.Client
use rrpg.Client.Input.{send_chat}
use rrpg.Session.Wire.{identify_lem, text_lem, server-dispatch}
use rrpg.Client.Packets.{on_game_start}
use rrpg.Session.Chat.{text-shown, text-starts_game}

module _ (net : RakNet) (laws : RakNetLaws net) where
  pub chat_sent :
      (x : ℕ) (xs : Chars) (c : Client.Client)
      → (to_lower x == 46) ≡ false
      → send_chat net (x ∷ xs) c
        ≡ ok (
          tt,
          record c {
            out =
                Client.to_server net (
                  net.to_bytes
                    (net.byte_bits c_chat ++ net.encode_string (x ∷ xs) (length (x ∷ xs) + 1)))
                ∷ c.out;
          },
        )
  unfolding send_chat Client.emit
  chat_sent x xs c plain = rw plain refl

  chat_decoded :
      (p : Packet) (text : Chars)
      → p.bytes ≡ net.to_bytes (net.byte_bits c_chat ++ net.encode_string text (length text + 1))
      → IsCString text
      → length text < 2048
      → (net.decode_string 2048 (payload net p)).0 ≡ text
  chat_decoded p text sent terminated short =
      text_lem net laws p c_chat (length text + 1) 2048 text []
        (sent
          ∙ ap (λ bits. net.to_bytes (net.byte_bits c_chat ++ bits))
              (sym (append-nil (net.encode_string text (length text + 1)))))
        (omega arith) terminated (omega arith) (omega arith)

  chat_handled :
      (p : Packet) (s : Server.Server) (text : Chars)
      → p.bytes ≡ net.to_bytes (net.byte_bits c_chat ++ net.encode_string text (length text + 1))
      → Server.Dispatch.handle_packet net p s ≡ on_client_chat_received net p s
  chat_handled p s text sent =
      server-dispatch net p c_chat s
        (identify_lem net laws p c_chat _ sent (omega arith) (omega arith)) (omega arith)
      ∙ to_chat p s
    where
      to_chat :
          (p : Packet) (s : Server.Server)
          → Server.Dispatch.client_packet net c_chat p s ≡ on_client_chat_received net p s
      to_chat p s = unfold Server.Dispatch.client_packet in refl

  -- The server's answer to a chat packet: the line goes to everyone under the sender's name.
  chat_relayed :
      (p : Packet) (s : Server.Server) (player : Player) (text : Chars)
      → p.bytes ≡ net.to_bytes (net.byte_bits c_chat ++ net.encode_string text (length text + 1))
      → IsCString text
      → length text ≤ 2045
      → StdMap.lookup (sender net p) s.players ≡ some player
      → Server.Dispatch.handle_packet net p s
        ≡ ok (
          tt,
          record s {
            out =
                send (text_bytes (chat_text player.name text)) everyone
                ∷ print (chat_text player.name text ++ codes "\n")
                ∷ s.out;
          },
        )
  chat_relayed p s player text sent terminated short known =
      let decoded = chat_decoded p text sent terminated (omega (arith, short)) in
      chat_handled p s text sent
      ∙ chat_fits net p s known (rw decoded short)
      ∙ ap
          (λ t. ok (
            tt,
            record s {
              out =
                  send (text_bytes (chat_text player.name t)) everyone
                  ∷ print (chat_text player.name t ++ codes "\n")
                  ∷ s.out;
            },
          ))
          decoded

  -- A line that a client sends to the chat reaches the others as it was typed, under the sender's
  -- name: the server sends one packet to everyone, which a client prints as the name, a colon and
  -- the line. The line does not begin with a period and has at most 2045 characters; the sender is
  -- a client of the map, whose name begins with a character between 28 and 133.
  pub chat-delivered :
      (x : ℕ) (xs : Chars) (c c' : Client.Client) (rest : List Effect) (p : Packet)
      (s : Server.Server) (player : Player) (n : ℕ) (ns : Chars) (guid address : ℕ)
      (d : Client.Client)
      → (to_lower x == 46) ≡ false
      → send_chat net (x ∷ xs) c ≡ ok (tt, c')
      → c'.out ≡ Client.to_server net p.bytes ∷ rest
      → IsCString (x ∷ xs)
      → length (x ∷ xs) ≤ 2045
      → StdMap.lookup (sender net p) s.players ≡ some player
      → player.name ≡ n ∷ ns
      → IsCString (n ∷ ns)
      → 28 ≤ n
      → n < 134
      → (s' : Server.Server) × (bytes : List ℕ) × (before : List Effect)
        × (Server.Dispatch.handle_packet net p s ≡ ok (tt, s'))
        × (s'.out ≡ send bytes everyone ∷ before)
        × (Client.Dispatch.handle_packet net
              (record { guid = guid; system_address = address; bytes = bytes })
              d
            ≡ ok (tt, record d { out = print (chat_text (n ∷ ns) (x ∷ xs) ++ codes "\n") ∷ d.out }))
  chat-delivered x xs c c' rest p s player n ns guid address d plain ran message terminated short
        known named name_terminated above below =
      let sent : p.bytes
          ≡ net.to_bytes
              (net.byte_bits c_chat ++ net.encode_string (x ∷ xs) (length (x ∷ xs) + 1)) =
        ground (arith, chat_sent x xs c plain) in
      let relayed = chat_relayed p s player (x ∷ xs) sent terminated short known in
      (
        _,
        text_bytes (chat_text (n ∷ ns) (x ∷ xs)),
        _,
        relayed,
        ap
            (λ name.
              send (text_bytes (chat_text name (x ∷ xs))) everyone
              ∷ print (chat_text player.name (x ∷ xs) ++ codes "\n")
              ∷ s.out)
            named,
        text-shown net
            (record {
              guid = guid;
              system_address = address;
              bytes = text_bytes (chat_text (n ∷ ns) (x ∷ xs));
            })
            n (ns ++ (codes ": " ++ (x ∷ xs))) d refl
            (All-append (λ k. (0 < k) × (k < 256)) (n ∷ ns) (codes ": " ++ (x ∷ xs)) name_terminated
              ((omega arith, omega arith), ((omega arith, omega arith), terminated)))
            above below,
      )

  -- A line of 2046 or 2047 characters that a client sends to the chat brings the server down: the
  -- packet makes the server write past the end of its buffer, which has no room for the colon, the
  -- space and the terminator. The line does not begin with a period, and the sender is a client of
  -- the map.
  pub long_line-overruns :
      (x : ℕ) (xs : Chars) (c c' : Client.Client) (rest : List Effect) (p : Packet)
      (s : Server.Server) (player : Player)
      → (to_lower x == 46) ≡ false
      → send_chat net (x ∷ xs) c ≡ ok (tt, c')
      → c'.out ≡ Client.to_server net p.bytes ∷ rest
      → IsCString (x ∷ xs)
      → 2045 < length (x ∷ xs)
      → length (x ∷ xs) < 2048
      → StdMap.lookup (sender net p) s.players ≡ some player
      → Server.Dispatch.handle_packet net p s ≡ fault out_of_bounds
  long_line-overruns x xs c c' rest p s player plain ran message terminated long short known =
      let sent : p.bytes
          ≡ net.to_bytes
              (net.byte_bits c_chat ++ net.encode_string (x ∷ xs) (length (x ∷ xs) + 1)) =
        ground (arith, chat_sent x xs c plain) in
      let decoded = chat_decoded p (x ∷ xs) sent terminated short in
      chat_handled p s (x ∷ xs) sent
      ∙ chat_overruns net p s known (subst (λ t. 2045 < length t) (sym decoded) long)

  -- A line that a client sends to the chat makes the other clients believe that the game begins, if
  -- the sender's name begins with byte 134: the server sends its line to everyone as it is, and a
  -- client takes the first byte for `S_GAME_STARTED`. It goes to the selection of characters, shows
  -- no line, and changes nothing else. The line does not begin with a period and has at most 2045
  -- characters; the sender is a client of the map.
  pub chat-starts_game :
      (x : ℕ) (xs : Chars) (c c' : Client.Client) (rest : List Effect) (p : Packet)
      (s : Server.Server) (player : Player) (ns : Chars) (guid address : ℕ) (d : Client.Client)
      → (to_lower x == 46) ≡ false
      → send_chat net (x ∷ xs) c ≡ ok (tt, c')
      → c'.out ≡ Client.to_server net p.bytes ∷ rest
      → IsCString (x ∷ xs)
      → length (x ∷ xs) ≤ 2045
      → StdMap.lookup (sender net p) s.players ≡ some player
      → player.name ≡ 134 ∷ ns
      → (s' : Server.Server) × (bytes : List ℕ) × (before : List Effect)
        × (Server.Dispatch.handle_packet net p s ≡ ok (tt, s'))
        × (s'.out ≡ send bytes everyone ∷ before)
        × (Client.Dispatch.handle_packet net
              (record { guid = guid; system_address = address; bytes = bytes })
              d
            ≡ ok (
              tt,
              record d {
                network_state = Client.ns_game_started;
                game_state = gs_character_select;
                out = print (codes "WE HAVE BEEGUNN!!!\n") ∷ d.out;
              },
            ))
  unfolding on_game_start Client.emit ◌>>=◌
  chat-starts_game x xs c c' rest p s player ns guid address d plain ran message terminated short
        known named =
      let sent : p.bytes
          ≡ net.to_bytes
              (net.byte_bits c_chat ++ net.encode_string (x ∷ xs) (length (x ∷ xs) + 1)) =
        ground (arith, chat_sent x xs c plain) in
      let bytes : List ℕ = text_bytes (chat_text (134 ∷ ns) (x ∷ xs)) in
      (
        _,
        bytes,
        _,
        chat_relayed p s player (x ∷ xs) sent terminated short known,
        ap
            (λ name.
              send (text_bytes (chat_text name (x ∷ xs))) everyone
              ∷ print (chat_text player.name (x ∷ xs) ++ codes "\n")
              ∷ s.out)
            named,
        text-starts_game net (record { guid = guid; system_address = address; bytes = bytes })
            (ns ++ (codes ": " ++ (x ∷ xs))) d refl,
      )
