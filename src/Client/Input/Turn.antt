-- ===== src/Client/Input/Turn.antt =====
-- RRPG/RRPG.cpp: what a player can do in the game out of turn.
use mathlib.Core.Path.{subst}
use rrpg.Common.{
  false, List, [], ◌∷◌, ◌≡◌, refl, sym, ◌⊎◌, inl, inr, M, ◌>>=◌, ◌>>◌, pure, All, Chars, codes,
  chars_eq, to_lower, map, Bool-cases, Ends, Ends-bind, Keeps, keeps_rules, Keeps-bind,
}
use rrpg.RakNet.{RakNet, Effect, print}
use rrpg.Protocol.{Player, c_player_stats_request}
use rrpg.Client.{Client, ns_game_started, emit, to_server}
use rrpg.Client.Input.{
  print_stats, print_local_player_stats, request_player_stats_from_server, game_round, round_in,
  handle_input,
}

-- What goes to the console, or asks the server for the statistics.
abbrev pub IsHarmless : RakNet → Effect → Type 0
IsHarmless net e =
    ((text : Chars) × (e ≡ print text))
    ⊎ (e ≡ to_server net (net.to_bytes (net.byte_bits c_player_stats_request)))

-- The game is on, it is not the player's turn, and all that the client did was harmless.
abbrev pub IsWaiting : RakNet → Client → Type 0
IsWaiting net c =
    (c.network_state ≡ ns_game_started) × (c.my_turn ≡ false) × All (IsHarmless net) c.out

-- One line after the other.
unfoldable pub type_lines : RakNet → List Chars → M Client (Unit {0})
type_lines net [] = pure tt
type_lines net (line ∷ lines) = handle_input net line >> type_lines net lines

module _ (net : RakNet) where
  print-waits : (text : Chars) → Keeps (IsWaiting net) (emit (print text))
  unfolding emit
  print-waits text = record { at = λ s h. (h.0, h.1, (inl (text, refl), h.2)) }

  request-waits : Keeps (IsWaiting net) (request_player_stats_from_server net)
  unfolding emit request_player_stats_from_server
  request-waits = record { at = λ s h. (h.0, h.1, (inr refl, h.2)) }

  print_stats-waits : (players : List Player) → Keeps (IsWaiting net) (print_stats players)
  unfolding print_stats
  print_stats-waits [] = search keeps_rules
  print_stats-waits (player ∷ players) =
      Keeps-bind _ _ (print-waits _) λ _. print_stats-waits players

  local_stats-waits : Keeps (IsWaiting net) print_local_player_stats
  unfolding print_local_player_stats
  local_stats-waits = search (keeps_rules, print-waits, print_stats-waits)

  game_round-waits :
      (input lower : Chars) (s : Client)
      → IsWaiting net s
      → Ends (game_round net input lower s) (λ _. IsWaiting net)
  unfolding game_round ◌>>=◌
  game_round-waits input lower s h = elim (Bool-cases (chars_eq lower (codes ".stats"))) [
    | inl stats ↦ rw stats (request-waits.at s h)
    | inr other ↦ elim (Bool-cases (chars_eq lower (codes ".localstats"))) [
      | inl here ↦ rw (other, here) (local_stats-waits.at s h)
      | inr chat ↦ rw (other, chat, h.1) (h.0, refl, h.2)
    ]
  ]

  handle_input-waits : (line : Chars) → Keeps (IsWaiting net) (handle_input net line)
  unfolding handle_input ◌>>=◌ round_in
  handle_input-waits line = record {
    at = λ s h. elim (Bool-cases (chars_eq (map to_lower line) (codes ".whoami"))) [
      | inl who ↦ rw who ((print-waits _).at s h)
      | inr other ↦ rw other (
          subst (λ n. Ends (round_in net n line (map to_lower line) s) (λ _. IsWaiting net))
            (sym h.0) (game_round-waits line (map to_lower line) s h))
    ];
  }

  -- In the game and out of turn, a player may type any lines: nothing is sent to the server but
  -- requests for the statistics, and the turn stays away. No action, no choice of a class and no
  -- chat leaves the client before the server says that it is the player's turn.
  pub type_lines-IsWaiting :
      (lines : List Chars) (s : Client)
      → IsWaiting net s
      → Ends (type_lines net lines s) (λ _. IsWaiting net)
  unfolding type_lines ◌>>=◌
  type_lines-IsWaiting [] s h = h
  type_lines-IsWaiting (line ∷ lines) s h =
      Ends-bind (handle_input net line s) (λ _. type_lines net lines)
        ((handle_input-waits line).at s h) λ _. record { at = type_lines-IsWaiting lines }
