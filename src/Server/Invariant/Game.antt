-- ===== src/Server/Invariant/Game.antt =====
-- `ModifyHealth`, `NextTurn`, `GameOver` and `StartGame` keep the invariant.
use rrpg.Common.{
  ℕ, ◌==◌, true, false, List, [], ◌∷◌, some, ◌≡◌, ap, ◌∙◌, ◌⊎◌, inl, inr, M, ok, fault, hang,
  invalid_iterator, Fault, ◌>>=◌, modify, Ends, Keeps, Keeps-if, Bool-cases, Option-cases, ==_refl,
  ℤ, ◌+ℤ◌, fits_int32,
}
use rrpg.RakNet.{RakNet}
use rrpg.Protocol.{Player}
use rrpg.StdMap
use rrpg.StdMap.{keys}
use rrpg.StdMap.Order.{
  IsSorted, has_key, adjust-IsSorted, for_each-IsSorted, keys-adjust, keys-for_each, All-adjust,
  All-for_each, has_key-lookup,
}
use rrpg.Server.{Server, ns_game_started, emit}
use rrpg.Server.Broadcast.{send_turn, add_health, modify_health}
use rrpg.Server.Broadcast.Outcome.{
  modify_health_fits, modify_health_overflows, modify_health_missing,
}
use rrpg.Server.Turn.{choose_next, found_or_hang, alive_count, lift, next_turn, game_over}
use rrpg.Server.Turn.Order.{first_alive, circle, choose_next-circle, choose_next_missing}
use rrpg.Server.Turn.Found.{first_alive-circle_alive, lookup-Has}
use rrpg.Server.Game.{start_game, start_main_game, first_key}
use rrpg.Server.Invariant.{IsWellFormed, IsConsistent, Inv}
use rrpg.Server.Invariant.Parts.{
  add_health-IsWellFormed, part_rules, broadcast-Keeps, send_turn-Keeps,
}

-- The player whose turn comes is one of the map.
choose_next-found :
    (current : ℕ) (players : List (ℕ × Player))
    → IsSorted players
    → ((e : Fault) × (choose_next current players ≡ fault e))
      ⊎ ((id : ℕ) × (player : Player) × (choose_next current players ≡ ok (id, player))
          × (StdMap.lookup id players ≡ some player))
choose_next-found current players sorted = elim (Option-cases (StdMap.lookup current players)) [
  | inl missing ↦ inl (invalid_iterator, choose_next_missing current players missing)
  | inr (player, found) ↦ elim (Option-cases (first_alive (circle current players))) [
    | inl dead ↦ inl (hang, choose_next-circle current players player found ∙ ap found_or_hang dead)
    | inr ((id, next), is_next) ↦ inr (
      id,
      next,
      choose_next-circle current players player found ∙ ap found_or_hang is_next,
      lookup-Has id next players sorted
          (first_alive-circle_alive current players (id, next) is_next).0,
    )
  ]
]

first_key-Ends :
    (players : List (ℕ × Player)) (f : ℕ → M Server (Unit {0})) (s : Server)
    (Q : Unit {0} → Server → Type 0)
    → ((id : ℕ) → has_key id (keys players) ≡ true → Ends (f id s) Q)
    → Ends ((first_key players >>= f) s) Q
unfolding ◌>>=◌
first_key-Ends [] f s Q h = tt
first_key-Ends ((id, player) ∷ rest) f s Q h = h id (rw (==_refl id))

module _ (net : RakNet) where
  harmed-IsConsistent :
      (s : Server) (id : ℕ) (diff : ℤ) (player : Player)
      → StdMap.lookup id s.players ≡ some player
      → fits_int32 (player.health +ℤ diff) ≡ true
      → Inv s
      → Inv (record s { players = StdMap.adjust id (add_health diff) s.players })
  harmed-IsConsistent s id diff player found fits v = record {
    sorted = adjust-IsSorted id (add_health diff) s.players v.sorted;
    addresses_sorted = v.addresses_sorted;
    same_keys = keys-adjust id (add_health diff) s.players ∙ v.same_keys;
    well_formed =
        All-adjust (λ entry. IsWellFormed entry.1) id (add_health diff) s.players player found
          (add_health-IsWellFormed diff player fits) v.well_formed;
    counted = v.counted;
    in_turn = λ started. rw (keys-adjust id (add_health diff) s.players) (v.in_turn started);
  }

  pub modify_health-Keeps : (id : ℕ) (diff : ℤ) → Keeps Inv (modify_health net id diff)
  modify_health-Keeps id diff = record {
    at = λ s v. elim (Option-cases (StdMap.lookup id s.players)) [
      | inl missing ↦ rw (modify_health_missing net id diff s missing) tt
      | inr (player, found) ↦ elim (Bool-cases (fits_int32 (player.health +ℤ diff))) [
        | inl fits ↦
            rw (modify_health_fits net id player diff s found fits)
              (harmed-IsConsistent s id diff player found fits v)
        | inr over ↦ rw (modify_health_overflows net id player diff s found over) tt
      ]
    ];
  }

  pub game_over-Keeps : (id : ℕ) → Keeps Inv (game_over net id)
  unfolding game_over
  game_over-Keeps id = search (part_rules, broadcast-Keeps)

  pub next_turn-Keeps : Keeps Inv (next_turn net)
  unfolding next_turn ◌>>=◌ lift
  next_turn-Keeps = record {
    at = λ s v. elim (choose_next-found s.current_player_turn s.players v.sorted) [
      | inl (e, failed) ↦ rw (failed, ◌>>=◌) tt
      | inr (id, player, chosen, found) ↦
          rw (chosen, ◌>>=◌)
            ((Keeps-if (alive_count s.players == 1) _ _ (game_over-Keeps id)
                (search (part_rules, broadcast-Keeps, send_turn-Keeps))).at
              (record s { current_player_turn = id })
              (record {
                sorted = v.sorted;
                addresses_sorted = v.addresses_sorted;
                same_keys = v.same_keys;
                well_formed = v.well_formed;
                counted = v.counted;
                in_turn = λ started. has_key-lookup id s.players player found;
              }))
    ];
  }

  pub start_main_game-Keeps : Keeps Inv (start_main_game net)
  unfolding start_main_game
  start_main_game-Keeps = search (part_rules, next_turn-Keeps)

  abbrev unready : Player → Player
  unready player = record player { ready = false }

  unready-IsWellFormed : (player : Player) → IsWellFormed player → IsWellFormed (unready player)
  unready-IsWellFormed player w = record {
    fits = w.fits;
    mortal = w.mortal;
    short = w.short;
    terminated = w.terminated;
    class_byte = w.class_byte;
  }

  -- The state of `StartGame` before its last message, for a key of the map.
  started-IsConsistent :
      (s : Server) (id : ℕ)
      → has_key id (keys (StdMap.for_each unready s.players)) ≡ true
      → Inv s
      → IsConsistent ns_game_started
          (StdMap.for_each unready s.players)
          s.player_addresses
          s.total_connections
          id
  started-IsConsistent s id there v = record {
    sorted = for_each-IsSorted unready s.players v.sorted;
    addresses_sorted = v.addresses_sorted;
    same_keys = keys-for_each unready s.players ∙ v.same_keys;
    well_formed =
        All-for_each (λ entry. IsWellFormed entry.1) unready s.players
          (λ j player w. unready-IsWellFormed player w) v.well_formed;
    counted = v.counted;
    in_turn = λ _. there;
  }

  pub start_game-Keeps : Keeps Inv (start_game net)
  unfolding start_game ◌>>=◌ emit
  start_game-Keeps = record {
    at = λ s v.
        first_key-Ends (StdMap.for_each unready s.players)
          (λ id. modify (λ t. record t { current_player_turn = id }) >>= λ _. send_turn net id) _
          (λ _. Inv)
          (λ id there. (send_turn-Keeps net id).at _ (started-IsConsistent s id there v));
  }
