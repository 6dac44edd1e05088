-- ===== src/Server/Battle/Refines.antt =====
-- RRPG Server/server.cpp: the hit of an action and `NextTurn` behind it, as a move of the battle.
use mathlib.Core.Option
use mathlib.Core.Path.{subst, fun_ext}
use rrpg.Common.{
  none, ◌⊎◌, ℕ, ◌≤◌, ◌==◌, set, false, List, some, none, ◌≡◌, ◌≢◌, refl, ap, arith, inl, inr,
  Bool-cases, Option-cases, ==_iff, ◌∙◌, sym, ok, ℤ, Option,
}
use rrpg.RakNet.{RakNet}
use rrpg.Protocol.{Player, gs_game_over}
use rrpg.StdMap
use rrpg.StdMap.{keys}
use rrpg.StdMap.Order.{
  IsSorted, has_key, lookup-has_key, has_key-lookup, lookup-adjust, adjust-IsSorted, keys-adjust,
}
use rrpg.Server.{Server, ns_game_started}
use rrpg.Server.Broadcast.{add_health}
use rrpg.Server.Broadcast.Outcome.{said, said_same}
use rrpg.Server.Turn.{alive_count, next_turn}
use rrpg.Server.Turn.Order.{first_alive, circle, first_alive-circle-none}
use rrpg.Server.Turn.Found.{first_alive-circle_alive, lookup-Has}
use rrpg.Server.Turn.Outcome.{
  Asks, passed, won, turn_message, win_message, next_turn-passed, next_turn-won,
}
use rrpg.Server.Actions.Outcome.{IsEffect, IsHit}
use rrpg.Server.Invariant.{Inv}
use rrpg.Server.Battle.{Fighter, fighter, view, struck, Stands, Move, passes, wins}
use rrpg.Server.Battle.Alive.{two_alive, none_alive, alive_count-adjust}
use rrpg.Server.Battle.Next.{turn_moves, other_alive}

abbrev fighters_of : List (ℕ × Player) → ℕ → Option Fighter
fighters_of players id = Option.map fighter (StdMap.lookup id players)

fighter-add_health :
    (diff : ℤ) (player : Player) → fighter (add_health diff player) ≡ struck diff (fighter player)
fighter-add_health diff player = ground arith

-- The hit, in the view.
fighters_hit :
    (id : ℕ) (diff : ℤ) (player : Player) (players : List (ℕ × Player))
    → StdMap.lookup id players ≡ some player
    → fighters_of (StdMap.adjust id (add_health diff) players)
      ≡ set id (some (struck diff (fighter player))) (fighters_of players)
fighters_hit id diff player players found = fun_ext λ k.
    ap (Option.map fighter) (lookup-adjust k id (add_health diff) players)
    ∙ (elim (Bool-cases (id == k)) [
      | inl hit ↦ rw hit (
          ap (λ o. Option.map fighter (Option.map (add_health diff) o)) found
          ∙ ap some (fighter-add_health diff player))
      | inr miss ↦ rw miss refl
    ])

-- Who stands is a player who is alive.
pub Stands-lookup :
    (s : Server) (id : ℕ)
    → Stands (view s) id
    → (player : Player) × (StdMap.lookup id s.players ≡ some player) × (player.dead ≡ false)
Stands-lookup s id (f, there, up) = elim (Option-cases (StdMap.lookup id s.players)) [
  | inl missing ↦ absurd (none≢some f (sym (ap (Option.map fighter) missing) ∙ there))
  | inr (player, known) ↦ (
    player,
    known,
    ap (λ g. g.fallen)
          (some_injective (fighter player) f (sym (ap (Option.map fighter) known) ∙ there))
        ∙ up,
  )
]
  where
    none≢some : (f : Fighter) → none ≡ some f → ⊥
    none≢some f h = cc

    some_injective : (f g : Fighter) → some f ≡ some g → f ≡ g
    some_injective f g h = ground arith

module _ (s : Server) (id action : ℕ) (diff : ℤ) (target : Player)
    (found : StdMap.lookup id s.players ≡ some target) (inv : Inv s)
    (started : s.network_state ≡ ns_game_started) (two : 2 ≤ alive_count s.players)
    (effect : IsEffect action diff) (t : Server) (hit : IsHit id diff s t) where
  hit-IsSorted : IsSorted t.players
  hit-IsSorted =
      subst IsSorted (sym hit.0) (adjust-IsSorted id (add_health diff) s.players inv.sorted)

  hit_keys : keys t.players ≡ keys s.players
  hit_keys = ap keys hit.0 ∙ keys-adjust id (add_health diff) s.players

  hit_view :
      fighters_of t.players ≡ set id (some (struck diff (fighter target))) (fighters_of s.players)
  hit_view = ap fighters_of hit.0 ∙ fighters_hit id diff target s.players found

  hit_alive : 1 ≤ alive_count t.players
  hit_alive =
      subst (λ m. 1 ≤ alive_count m) (sym hit.0)
        (omega (arith, two, alive_count-adjust id (add_health diff) s.players))

  in_turn : (current : Player) × (StdMap.lookup t.current_player_turn t.players ≡ some current)
  in_turn = lookup-has_key t.current_player_turn t.players (
      ap (has_key t.current_player_turn) hit_keys
      ∙ ap (λ k. has_key k (keys s.players)) hit.2
      ∙ inv.in_turn started)

  next_one :
      (k : ℕ) × (next : Player) × (first_alive (circle t.current_player_turn t.players)
        ≡ some (k, next))
  next_one = elim (Option-cases (first_alive (circle t.current_player_turn t.players))) [
    | inl nobody ↦ absurd (
        omega (
          arith,
          hit_alive,
          none_alive t.players (first_alive-circle-none t.current_player_turn t.players nobody),
        ))
    | inr ((k, next), somebody) ↦ (k, next, somebody)
  ]

  module _ (net : RakNet) (k : ℕ) (next : Player)
      (is_next : first_alive (circle t.current_player_turn t.players) ≡ some (k, next)) where
    chosen : (StdMap.lookup k t.players ≡ some next) × (next.dead ≡ false)
    chosen =
        let (there, alive) =
          first_alive-circle_alive t.current_player_turn t.players (k, next) is_next in
        (lookup-Has k next t.players hit-IsSorted there, alive)

    next-Stands : Stands (view t) k
    next-Stands = (fighter next, ap (Option.map fighter) chosen.0, chosen.1)

    -- The turn passes.
    Move-passes :
        alive_count t.players ≢ 1
        → (s' : Server) × (next_turn net t ≡ ok (tt, s'))
          × Move action id (view s) (view s')
          × (Asks net s' ⊎ (s'.game_state ≡ gs_game_over))
          × (s'.players ≡ t.players)
    Move-passes several =
        let (current, current_found) = in_turn in
        let (address, there) = lookup-has_key k t.player_addresses (
          ap (λ m. has_key k (keys m)) hit.1
          ∙ sym (ap (has_key k) (hit_keys ∙ inv.same_keys))
          ∙ has_key-lookup k t.players next chosen.0) in
        let (j, q, other, up, away) =
          other_alive k t.players hit-IsSorted (omega (arith, hit_alive, several)) in
        let quiet = said_same (turn_message next) (record t { current_player_turn = k }) in
        let same_players = ap (λ u. u.players) quiet in
        (
          passed net k next address t,
          next_turn-passed net t current next k current_found hit-IsSorted is_next address several
              there,
          passes diff (fighter target) effect (ap (Option.map fighter) found)
              (ap fighters_of same_players ∙ hit_view)
              (ap (λ u. u.game_state == gs_game_over) quiet ∙ ap (λ n. n == gs_game_over) hit.3)
              (λ same.
                turn_moves t.current_player_turn k current next t.players hit-IsSorted current_found
                  is_next several (sym (ap (λ u. u.current_player_turn) quiet) ∙ same ∙ sym hit.2))
              (subst (λ u. Stands (view u) u.current_player_turn) (sym quiet) next-Stands) j
              (λ same. away (same ∙ ap (λ u. u.current_player_turn) quiet))
              (subst (λ u. Stands (view u) j) (sym quiet)
                (fighter q, ap (Option.map fighter) other, up)),
          inl (
            address,
            (said (turn_message next) (record t { current_player_turn = k })).out,
            subst (λ u. StdMap.lookup u.current_player_turn u.player_addresses ≡ some address)
                (sym quiet) there,
            refl,
          ),
          same_players,
        )

    -- Who else stands would count.
    only_one : alive_count t.players ≡ 1 → (j : ℕ) → Stands (view t) j → j ≡ k
    only_one single j stands = elim (Bool-cases (j == k)) [
      | inl same ↦ (==_iff j k).0 same
      | inr other ↦
          let (player, known, alive) = Stands-lookup t j stands in
          let two_of_them =
            two_alive j k player next t.players (λ e. ground (arith, other, e)) known alive chosen.0
              chosen.1 in
          absurd (omega (arith, two_of_them, single))
    ]

    -- The last one who stands wins.
    Move-wins :
        alive_count t.players ≡ 1
        → (s' : Server) × (next_turn net t ≡ ok (tt, s'))
          × Move action id (view s) (view s')
          × (Asks net s' ⊎ (s'.game_state ≡ gs_game_over))
          × (s'.players ≡ t.players)
    Move-wins single =
        let (current, current_found) = in_turn in
        let quiet =
          said_same (win_message next)
            (record t { current_player_turn = k; game_state = gs_game_over }) in
        (
          won net k next t,
          next_turn-won net t current next k current_found hit-IsSorted is_next single,
          wins diff (fighter target) effect (ap (Option.map fighter) found)
              (ap fighters_of (ap (λ u. u.players) quiet) ∙ hit_view)
              (ap (λ u. u.game_state == gs_game_over) quiet)
              (subst (λ u. Stands (view u) u.current_player_turn) (sym quiet) next-Stands)
              (subst (λ u. (j : ℕ) → Stands (view u) j → j ≡ u.current_player_turn) (sym quiet)
                (only_one single)),
          inr (ap (λ u. u.game_state) quiet),
          ap (λ u. u.players) quiet,
        )

  -- `NextTurn` behind a hit makes a move of it.
  pub hit-Move :
      (net : RakNet)
      → (s' : Server) × (next_turn net t ≡ ok (tt, s'))
        × Move action id (view s) (view s')
        × (Asks net s' ⊎ (s'.game_state ≡ gs_game_over))
        × (s'.players ≡ t.players)
  hit-Move net =
      let (k, next, is_next) = next_one in
      elim (Bool-cases (alive_count t.players == 1)) [
        | inl single ↦ Move-wins net k next is_next ((==_iff (alive_count t.players) 1).0 single)
        | inr several ↦ Move-passes net k next is_next (λ single. ground (arith, several, single))
      ]
