-- ===== src/Session/Action.antt =====
-- A typed action on the client and `OnPlayerActionTaken` on the server.
use mathlib.Core.List.{append_assoc}
use rrpg.Common.{
  ℕ, ◌+◌, ◌<◌, true, false, List, ◌∷◌, ◌++◌, some, ◌≡◌, refl, ap, ◌∙◌, ok, ◌>>=◌, length, Chars, ℤ,
  split_words, arith,
}
use rrpg.RakNet.{RakNet, RakNetLaws, Bits, Packet, IsCString, Effect}
use rrpg.Protocol.{Player, c_action_taken, gs_main}
use rrpg.StdMap
use rrpg.Server
use rrpg.Server.Handlers.{sender, payload, get_player_with_name}
use rrpg.Server.Turn.{next_turn}
use rrpg.Server.Actions.{on_player_action_taken}
use rrpg.Server.Actions.Outcome.{IsEffect, IsHit, IsModerate}
use rrpg.Server.Actions.Taken.{action_taken_lem}
use rrpg.Client
use rrpg.Client.Input.{
  action_of_word, target_of_word, action_bits, action_of_words, game_message, handle_game_input,
}
use rrpg.Session.Wire.{identify_lem, payload_lem, server-dispatch}

action_of_word-lt : (word : Chars) (action : ℕ) → action_of_word word ≡ some action → action < 4
unfolding action_of_word
action_of_word-lt word action h = ground arith

module _ (net : RakNet) (laws : RakNetLaws net) where
  pub typed_action :
      (line word target name : Chars) (more : List Chars) (action : ℕ) (c : Client.Client)
      → c.game_state ≡ gs_main
      → split_words line ≡ word ∷ (target ∷ more)
      → action_of_word word ≡ some action
      → target_of_word c target ≡ some name
      → handle_game_input net line c
        ≡ ok (
          true,
          record c {
            my_turn = false;
            out = Client.to_server net (net.to_bytes (action_bits net action name)) ∷ c.out;
          },
        )
  unfolding handle_game_input game_message action_of_words ◌>>=◌ Client.emit target_of_word
  typed_action line word target name more action c main words chosen aimed =
      rw (main, words, game_message) (rw (chosen, aimed, action_of_words))

  pub action_read :
      (p : Packet) (action : ℕ) (name : Chars)
      → p.bytes ≡ net.to_bytes (action_bits net action name)
      → action < 256
      → IsCString name
      → length name < 256
      → (rest : Bits) × (net.read_byte (payload net p) ≡ some (action, rest))
        × ((net.decode_string 256 rest).0 ≡ name)
  action_read p action name sent h terminated short =
      let text : Bits = net.encode_string name (length name + 1) in
      let (pad, stream) =
        payload_lem net laws p c_action_taken (net.byte_bits action ++ text) sent (omega arith) in
      (
        text ++ pad,
        ap net.read_byte (stream ∙ append_assoc (net.byte_bits action) text pad)
            ∙ laws.read_byte_lem action (text ++ pad) h,
        ap (λ r. r.0)
            (laws.decode-encode name (length name + 1) 256 pad terminated (omega arith) short),
      )

  -- A packet with an action is one for `OnPlayerActionTaken`.
  pub action_handled :
      (p : Packet) (action : ℕ) (name : Chars) (s : Server.Server)
      → p.bytes ≡ net.to_bytes (action_bits net action name)
      → Server.Dispatch.handle_packet net p s ≡ on_player_action_taken net p s
  action_handled p action name s sent =
      server-dispatch net p c_action_taken s
        (identify_lem net laws p c_action_taken _ sent (omega arith) (omega arith)) (omega arith)
      ∙ to_action p s
    where
      to_action :
          (p : Packet) (s : Server.Server)
          → Server.Dispatch.client_packet net c_action_taken p s ≡ on_player_action_taken net p s
      to_action p s = unfold Server.Dispatch.client_packet in refl

  -- What a player types in the main game is what the server does. The line is an action and a
  -- target that the client accepts, and the server knows the sender and has a player of the name
  -- sent, with a health that no action takes out of the range of an int. Then the client's packet
  -- makes the server change that player's health by a permitted amount for that very action (10 or
  -- 5 to 15 up, 12 or 6 to 18 down) and nobody else's, before it goes on to the next turn.
  pub typed_action-performed :
      (line word target name : Chars) (more : List Chars) (action : ℕ) (c c' : Client.Client)
      (rest : List Effect) (p : Packet) (s : Server.Server) (origin aim : Player) (id : ℕ)
      → c.game_state ≡ gs_main
      → split_words line ≡ word ∷ (target ∷ more)
      → action_of_word word ≡ some action
      → target_of_word c target ≡ some name
      → handle_game_input net line c ≡ ok (true, c')
      → c'.out ≡ Client.to_server net p.bytes ∷ rest
      → IsCString name
      → length name < 256
      → StdMap.lookup (sender net p) s.players ≡ some origin
      → get_player_with_name name s.players ≡ some id
      → StdMap.lookup id s.players ≡ some aim
      → IsModerate aim.health
      → (t : Server.Server) × (diff : ℤ) × (Server.Dispatch.handle_packet net p s ≡ next_turn net t)
        × IsEffect action diff
        × IsHit id diff s t
  typed_action-performed line word target name more action c c' rest p s origin aim id main words
        chosen aimed ran message terminated short known named found moderate =
      let small : action < 4 = action_of_word-lt word action chosen in
      let sent : p.bytes ≡ net.to_bytes (action_bits net action name) =
        ground (arith, typed_action line word target name more action c main words chosen aimed) in
      let (bits, read, decoded) = action_read p action name sent (omega arith) terminated short in
      let (t, diff, done, effect, hit) =
        action_taken_lem net p s origin aim id action name bits read decoded known named found
          moderate small in
      (t, diff, action_handled p action name s sent ∙ done, effect, hit)
