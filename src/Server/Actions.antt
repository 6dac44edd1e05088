-- ===== src/Server/Actions.antt =====
-- RRPG Server/server.cpp: the choice of a character and the actions of the main game.
pub mod Outcome
pub mod Taken
pub mod Choice
use rrpg.Common.{
  ℕ, ◌==◌, if◌then◌else◌, true, List, [], ◌∷◌, ◌++◌, Option, none, some, M, pure, modify, get,
  raise, invalid_iterator, assertion, uninitialized, ◌>>=◌, ◌>>◌, Chars, codes, snprintf, pos, neg,
  show_int,
}
use rrpg.RakNet.{RakNet, Bits, Packet}
use rrpg.Protocol.{
  Player, get_string_from_class, wizard, warrior, assassin, heal, heal_rng, attack, atk_rng,
}
use rrpg.StdMap
use rrpg.Server.{Server, get_player, get_random_integer}
use rrpg.Server.Broadcast.{broadcast_message, send_turn, modify_health}
use rrpg.Server.Turn.{next_turn}
use rrpg.Server.Game.{start_main_game}
use rrpg.Server.Handlers.{payload, sender, get_player_with_name}

-- `bs.Read(x)`: the new value of `x`, and the rest of the stream.
abbrev pub read_byte_into : RakNet → Bits → Option ℕ × Bits
read_byte_into net bits = elim (net.read_byte bits) [
  | none ↦ (none, bits)
  | some (b, rest) ↦ (some b, rest)
]

abbrev pub or_old : Option ℕ → ℕ → ℕ
or_old none old = old
or_old (some b) old = b

abbrev pub chosen_class : ℕ → Chars
chosen_class job =
    if job == wizard
    then codes "Wizard"
    else if job == warrior
    then codes "Warrior"
    else if job == assassin
    then codes "Assassin"
    else codes "Jobless"

-- `%s The %s VERB %s The %s for %i`
unfoldable pub action_line : Player → Chars → Player → ℕ → Chars
action_line origin verb target amount = snprintf 256 (
    origin.name
    ++ (codes " The "
        ++ (get_string_from_class origin.job
            ++ (verb
                ++ (target.name
                    ++ (codes " The "
                        ++ (get_string_from_class target.job
                            ++ (codes " for " ++ show_int (pos amount)))))))))

-- `++` on an iterator, which `end()` does not allow.
abbrev pub successor : List (ℕ × Player) → M Server (List (ℕ × Player))
successor [] = raise invalid_iterator
successor (_ ∷ rest) = pure rest

abbrev pub or_assert : Option ℕ → M Server ℕ
or_assert none = raise assertion
or_assert (some id) = pure id

module _ (net : RakNet) where
  -- The end of `OnPlayerJobChosen`, at the iterator behind the player whose turn it was.
  unfoldable pub pass_choice : List (ℕ × Player) → M Server (Unit {0})
  pass_choice [] = start_main_game net
  pass_choice ((id, player) ∷ rest) = do
    modify (λ s. record s { current_player_turn = id })
    send_turn net id

  unfoldable pub on_player_job_chosen : Packet → M Server (Unit {0})
  on_player_job_chosen p = do
    player ← get_player (sender net p)
    let job = or_old (read_byte_into net (payload net p)).0 player.job
    modify (λ s. record s {
      players =
          StdMap.adjust (sender net p) (λ old. record old { ready = true; job = job }) s.players;
    })
    broadcast_message (
        snprintf 1024
          (player.name ++ (codes " has chosen to be a " ++ (chosen_class job ++ codes "\n"))))
    s ← get
    rest ← successor (StdMap.find s.current_player_turn s.players)
    pass_choice rest

  -- The `switch` on the action, which has no default.
  unfoldable pub perform : Option ℕ → Player → ℕ → Player → M Server (Unit {0})
  perform none origin target_id target = raise uninitialized
  perform (some action) origin target_id target =
      if action == heal
      then (do
        broadcast_message (action_line origin (codes " healed ") target 10)
        modify_health net target_id (pos 10))
      else if action == heal_rng
      then (do
        amount ← get_random_integer 5 15
        broadcast_message (action_line origin (codes " randomly healed ") target amount)
        modify_health net target_id (pos amount))
      else if action == attack
      then (do
        broadcast_message (action_line origin (codes " attacked ") target 12)
        modify_health net target_id (neg (pos 12)))
      else if action == atk_rng
      then (do
        amount ← get_random_integer 6 18
        broadcast_message (action_line origin (codes " randomly attacked ") target amount)
        modify_health net target_id (neg (pos amount)))
      else pure tt

  unfoldable pub on_player_action_taken : Packet → M Server (Unit {0})
  on_player_action_taken p = do
    let (action, rest) = read_byte_into net (payload net p)
    let (tname, _) = net.decode_string 256 rest
    s ← get
    origin ← get_player (sender net p)
    target_id ← or_assert (get_player_with_name tname s.players)
    target ← get_player target_id
    perform action origin target_id target
    next_turn net
