-- ===== src/Server/Actions/Outcome.antt =====
-- RRPG Server/server.cpp: what the actions of `OnPlayerActionTaken` do to the target.
use rrpg.Common.{
  ◌∷◌, ℕ, zero, suc, ◌+◌, ◌%◌, ◌≤◌, ◌<◌, true, some, ◌≡◌, refl, ap, ◌∙◌, ◌⊎◌, inl, inr, ok, ◌>>=◌,
  ◌>>◌, Chars, M, ◌-◌, snprintf, ℤ, pos, neg, ◌+ℤ◌, pos_part, neg_part, fits_int32, arith,
}
use rrpg.RakNet.{RakNet, send, print, everyone}
use rrpg.Protocol.{Player, heal, heal_rng, attack, atk_rng}
use rrpg.StdMap
use rrpg.Server.{Server, get_random_integer}
use rrpg.Server.Broadcast.{broadcast_message, add_health, health_packet, health_line, modify_health}
use rrpg.Server.Broadcast.Outcome.{said, broadcast-snprintf, modify_health_fits}
use rrpg.Server.Actions.{action_line, perform}

-- By how much the health of the target of an action may change.
abbrev pub IsEffect : ℕ → ℤ → Type 0
IsEffect action diff =
    ((action ≡ heal) × (diff ≡ pos 10))
    ⊎ (((action ≡ heal_rng) × (n : ℕ) × (5 ≤ n) × (n ≤ 15) × (diff ≡ pos n))
        ⊎ (((action ≡ attack) × (diff ≡ neg (pos 12)))
            ⊎ ((action ≡ atk_rng) × (n : ℕ) × (6 ≤ n) × (n ≤ 18) × (diff ≡ neg (pos n)))))

-- Only the health of one player has changed, beside what was sent and drawn.
abbrev pub IsHit : ℕ → ℤ → Server → Server → Type 0
IsHit id diff s t =
    (t.players ≡ StdMap.adjust id (add_health diff) s.players)
    × (t.player_addresses ≡ s.player_addresses)
    × (t.current_player_turn ≡ s.current_player_turn)
    × (t.game_state ≡ s.game_state)

-- No action takes such a health out of the range of an int.
abbrev pub IsModerate : ℤ → Type 0
IsModerate z = (pos_part z + 18 < 2147483648) × (neg_part z + 18 < 2147483648)

moderate_up : (z : ℤ) (n : ℕ) → IsModerate z → n ≤ 18 → fits_int32 (z +ℤ pos n) ≡ true
unfolding ◌+ℤ◌
moderate_up z n h k = ground arith

moderate_down : (z : ℤ) (n : ℕ) → IsModerate z → n ≤ 18 → fits_int32 (z +ℤ neg (pos n)) ≡ true
unfolding ◌+ℤ◌
moderate_down z n h k = ground arith

said_rest :
    (text : Chars) (s : Server)
    → ((said text s).players ≡ s.players)
      × ((said text s).player_addresses ≡ s.player_addresses)
      × ((said text s).current_player_turn ≡ s.current_player_turn)
      × ((said text s).game_state ≡ s.game_state)
said_rest text s = (ground arith, ground arith, ground arith, ground arith)

module _ (net : RakNet) where
  hit_lem :
      (text : Chars) (id : ℕ) (player : Player) (diff : ℤ) (s : Server)
      → StdMap.lookup id s.players ≡ some player
      → fits_int32 (player.health +ℤ diff) ≡ true
      → (t : Server) × ((broadcast_message (snprintf 256 text) >> modify_health net id diff) s
          ≡ ok (tt, t))
        × IsHit id diff s t
  unfolding ◌>>=◌
  hit_lem text id player diff s found fits =
      let (same_players, same_addresses, same_turn, same_game) = said_rest (snprintf 256 text) s in
      let u : Server = said (snprintf 256 text) s in
      let hit =
        modify_health_fits net id player diff u (ap (StdMap.lookup id) same_players ∙ found) fits in
      (
        record u {
          players = StdMap.adjust id (add_health diff) u.players;
          out =
              send (health_packet net (add_health diff player)) everyone
              ∷ print (health_line (add_health diff player))
              ∷ u.out;
        },
        rw (broadcast-snprintf text s, ◌>>=◌) hit,
        (
          ap (StdMap.adjust id (add_health diff)) same_players,
          same_addresses,
          same_turn,
          same_game,
        ),
      )

  -- A random amount is drawn before the hit.
  drawn-IsHit :
      (low high : ℕ) (f : ℕ → M Server (Unit {0})) (id : ℕ) (diff : ℕ → ℤ) (s : Server)
      → low ≤ high
      → ((n : ℕ) (random : ℕ → ℕ)
          → low ≤ n
          → n ≤ high
          → (t : Server) × (f n (record s { random = random }) ≡ ok (tt, t))
            × IsHit id (diff n) s t)
      → (n : ℕ) × (t : Server) × (low ≤ n)
        × (n ≤ high)
        × ((get_random_integer low high >>= f) s ≡ ok (tt, t))
        × IsHit id (diff n) s t
  unfolding ◌>>=◌ get_random_integer
  drawn-IsHit low high f id diff s h k =
      let n : ℕ = low + s.random 0 % (high - low + 1) in
      let drawn : s.random 0 % (high - low + 1) < high - low + 1 = omega arith in
      let (t, ran, hit) = k n (λ i. s.random (i + 1)) (omega arith) (omega arith) in
      (n, t, omega arith, omega arith, ran, hit)

  module _ (origin target player : Player) (id : ℕ) (s : Server)
      (found : StdMap.lookup id s.players ≡ some player) (moderate : IsModerate player.health) where
    -- The end of an action: the target's health changes by a permitted amount.
    abbrev pub Performed : ℕ → Type 0
    Performed action =
        (t : Server) × (diff : ℤ) × (perform net (some action) origin id target s ≡ ok (tt, t))
        × IsEffect action diff
        × IsHit id diff s t

    perform-heal : Performed heal
    unfolding perform action_line
    perform-heal =
        let (t, ran, hit) =
          hit_lem _ id player (pos 10) s found
            (moderate_up player.health 10 moderate (omega arith)) in
        (t, pos 10, ran, inl (refl, refl), hit)

    perform-attack : Performed attack
    unfolding perform action_line
    perform-attack =
        let (t, ran, hit) =
          hit_lem _ id player (neg (pos 12)) s found
            (moderate_down player.health 12 moderate (omega arith)) in
        (t, neg (pos 12), ran, inr (inr (inl (refl, refl))), hit)

    perform-heal_rng : Performed heal_rng
    unfolding perform action_line
    perform-heal_rng =
        let (n, t, low, high, ran, hit) =
          drawn-IsHit 5 15 _ id (λ n. pos n) s (omega arith)
            λ n random low high.
              hit_lem _ id player (pos n) (record s { random = random }) found
                (moderate_up player.health n moderate (omega arith)) in
        (t, pos n, ran, inr (inl (refl, n, low, high, refl)), hit)

    perform-atk_rng : Performed atk_rng
    unfolding perform action_line
    perform-atk_rng =
        let (n, t, low, high, ran, hit) =
          drawn-IsHit 6 18 _ id (λ n. neg (pos n)) s (omega arith)
            λ n random low high.
              hit_lem _ id player (neg (pos n)) (record s { random = random }) found
                (moderate_down player.health n moderate (omega arith)) in
        (t, neg (pos n), ran, inr (inr (inr (refl, n, low, high, refl))), hit)

    pub perform_lem : (action : ℕ) → action < 4 → Performed action
    perform_lem zero h = perform-heal
    perform_lem (suc zero) h = perform-heal_rng
    perform_lem (suc (suc zero)) h = perform-attack
    perform_lem (suc (suc (suc zero))) h = perform-atk_rng
    perform_lem (suc (suc (suc (suc n)))) h = absurd (omega arith)
