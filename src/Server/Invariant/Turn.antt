-- ===== src/Server/Invariant/Turn.antt =====
-- RRPG Server/server.cpp: `NextTurn` in a state that satisfies the invariant.
use rrpg.Common.{
  ℕ, none, some, ◌≡◌, sym, ap, ◌∙◌, inl, inr, ok, ◌==◌, arith, Option-cases, Bool-cases, ==_iff,
}
use rrpg.RakNet.{RakNet}
use rrpg.Protocol.{Player}
use rrpg.StdMap.Order.{has_key, has_key-lookup, lookup-has_key}
use rrpg.Server.{Server, ns_game_started}
use rrpg.Server.Turn.{alive_count, next_turn}
use rrpg.Server.Turn.Order.{first_alive, circle, first_alive-circle-none}
use rrpg.Server.Turn.Found.{first_alive-circle_alive, lookup-Has}
use rrpg.Server.Turn.Outcome.{passed, won, next_turn-passed, next_turn-won}
use rrpg.Server.Invariant.{Inv}

-- In a state that satisfies the invariant, once the game has started and while anybody of the map is
-- alive, `NextTurn` goes through without a fault and without an endless loop.
pub next_turn-ends :
    (net : RakNet) (s : Server) (e : ℕ × Player)
    → Inv s
    → s.network_state ≡ ns_game_started
    → first_alive s.players ≡ some e
    → (s' : Server) × (next_turn net s ≡ ok (tt, s'))
next_turn-ends net s e v started alive =
    let (current, in_turn) = lookup-has_key s.current_player_turn s.players (v.in_turn started) in
    elim (Option-cases (first_alive (circle s.current_player_turn s.players))) [
      | inl none_left ↦ absurd (
          some≢none e
            (sym alive ∙ first_alive-circle-none s.current_player_turn s.players none_left))
      | inr ((id, next), is_next) ↦
          let found =
            lookup-Has id next s.players v.sorted
              (first_alive-circle_alive s.current_player_turn s.players (id, next) is_next).0 in
          let listed = has_key-lookup id s.players next found in
          let (address, known) =
            lookup-has_key id s.player_addresses (sym (ap (has_key id) v.same_keys) ∙ listed) in
          elim (Bool-cases (alive_count s.players == 1)) [
            | inl single ↦ (
              won net id next s,
              next_turn-won net s current next id in_turn v.sorted is_next
                  ((==_iff (alive_count s.players) 1).0 single),
            )
            | inr several ↦ (
              passed net id next address s,
              next_turn-passed net s current next id in_turn v.sorted is_next address
                  (λ single. ground (arith, several, single)) known,
            )
          ]
    ]
  where
    some≢none : (e : ℕ × Player) → some e ≡ none → ⊥
    some≢none e h = cc
