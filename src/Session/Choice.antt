-- ===== src/Session/Choice.antt =====
-- A class that is typed on the client and `OnPlayerJobChosen` on the server.
use rrpg.Common.{
  ℕ, ◌<◌, true, false, List, ◌∷◌, ◌++◌, some, ◌≡◌, refl, ap, ◌∙◌, ok, ◌>>=◌, Chars, ==_refl, arith,
}
use rrpg.RakNet.{RakNet, RakNetLaws, Packet, Bits, Effect, send, to}
use rrpg.Protocol.{Player, c_job_chosen, s_take_turn, gs_character_select}
use rrpg.StdMap
use rrpg.StdMap.Order.{lookup-adjust}
use rrpg.Server
use rrpg.Server.Handlers.{sender, payload}
use rrpg.Server.Actions.{on_player_job_chosen}
use rrpg.Server.Actions.Choice.{chosen, choice_passes}
use rrpg.Client
use rrpg.Client.Input.{class_of_input, game_message, handle_game_input}
use rrpg.Session.Wire.{identify_lem, payload_lem, server-dispatch}

class_of_input-lt : (line : Chars) (job : ℕ) → class_of_input line ≡ some job → job < 3
unfolding class_of_input
class_of_input-lt line job h = ground arith

module _ (net : RakNet) (laws : RakNetLaws net) where
  pub typed_class :
      (line : Chars) (job : ℕ) (c : Client.Client)
      → c.game_state ≡ gs_character_select
      → class_of_input line ≡ some job
      → handle_game_input net line c
        ≡ ok (
          true,
          record c {
            my_turn = false;
            out =
                Client.to_server net
                  (net.to_bytes (net.byte_bits c_job_chosen ++ net.byte_bits job))
                ∷ c.out;
          },
        )
  unfolding handle_game_input game_message ◌>>=◌ Client.emit
  typed_class line job c selecting typed = ground (arith, selecting, typed)

  pub class_read :
      (p : Packet) (job : ℕ)
      → p.bytes ≡ net.to_bytes (net.byte_bits c_job_chosen ++ net.byte_bits job)
      → job < 256
      → (rest : Bits) × (net.read_byte (payload net p) ≡ some (job, rest))
  class_read p job sent h =
      let (pad, stream) =
        payload_lem net laws p c_job_chosen (net.byte_bits job) sent (omega arith) in
      (pad, ap net.read_byte stream ∙ laws.read_byte_lem job pad h)

  -- A packet with a class is one for `OnPlayerJobChosen`.
  pub class_handled :
      (p : Packet) (job : ℕ) (s : Server.Server)
      → p.bytes ≡ net.to_bytes (net.byte_bits c_job_chosen ++ net.byte_bits job)
      → Server.Dispatch.handle_packet net p s ≡ on_player_job_chosen net p s
  class_handled p job s sent =
      server-dispatch net p c_job_chosen s
        (identify_lem net laws p c_job_chosen (net.byte_bits job) sent (omega arith) (omega arith))
        (omega arith)
      ∙ to_choice p s
    where
      to_choice :
          (p : Packet) (s : Server.Server)
          → Server.Dispatch.client_packet net c_job_chosen p s ≡ on_player_job_chosen net p s
      to_choice p s = unfold Server.Dispatch.client_packet in refl

  chosen-lookup :
      (p : Packet) (player : Player) (job : ℕ) (s : Server.Server)
      → StdMap.lookup (sender net p) s.players ≡ some player
      → StdMap.lookup (sender net p) (chosen net p player job s).players
        ≡ some (record player { ready = true; job = job })
  chosen-lookup p player job s known = ground (
    arith,
    known,
    lookup-adjust (sender net p) (sender net p) (λ old. record old { ready = true; job = job })
        s.players,
    ==_refl (sender net p),
  )

  -- A class that a player types in the selection of characters is the class that the server gives
  -- that player, who is ready then; the client is not in turn any more, and the turn to choose
  -- passes to the next player of the map, who is asked to. The server knows the sender, and there
  -- is a player, with an address, behind the one whose turn it was.
  pub typed_class-chosen :
      (line : Chars) (job : ℕ) (c c' : Client.Client) (rest : List Effect) (p : Packet)
      (s : Server.Server) (player : Player) (x : ℕ × Player) (id address : ℕ) (next : Player)
      (more : List (ℕ × Player))
      → c.game_state ≡ gs_character_select
      → class_of_input line ≡ some job
      → handle_game_input net line c ≡ ok (true, c')
      → c'.out ≡ Client.to_server net p.bytes ∷ rest
      → StdMap.lookup (sender net p) s.players ≡ some player
      → StdMap.find s.current_player_turn (chosen net p player job s).players
        ≡ x ∷ ((id, next) ∷ more)
      → StdMap.lookup id s.player_addresses ≡ some address
      → (s' : Server.Server) × (before : List Effect) × (Server.Dispatch.handle_packet net p s
          ≡ ok (tt, s'))
        × (StdMap.lookup (sender net p) s'.players
            ≡ some (record player { ready = true; job = job }))
        × (s'.current_player_turn ≡ id)
        × (s'.out ≡ send (net.to_bytes (net.byte_bits s_take_turn)) (to address) ∷ before)
        × (c'.my_turn ≡ false)
  typed_class-chosen line job c c' rest p s player x id address next more selecting typed ran
        message known stands there =
      let small : job < 3 = class_of_input-lt line job typed in
      let told = typed_class line job c selecting typed in
      let sent : p.bytes ≡ net.to_bytes (net.byte_bits c_job_chosen ++ net.byte_bits job) =
        ground (arith, told) in
      let turned : c'.my_turn ≡ false = ground (arith, told) in
      let (bits, read) = class_read p job sent (omega arith) in
      (
        _,
        _,
        class_handled p job s sent
            ∙ choice_passes net p s player job bits known read x id address next more stands there,
        chosen-lookup p player job s known,
        refl,
        refl,
        turned,
      )
