-- ===== src/Server/Turn/Order.antt =====
-- RRPG Server/server.cpp: the loop of `NextTurn` against a search along the circle of players.
use rrpg.Common.{
  ℕ, zero, suc, ◌+◌, ◌<◌, ◌≤◌, ◌==◌, if◌then◌else◌, true, false, List, [], ◌∷◌, ◌++◌, Option, none,
  some, ◌≡◌, refl, ap, ◌∙◌, inl, inr, fault, invalid_iterator, arith, length, Option-cases,
  Bool-cases,
}
use rrpg.Protocol.{Player}
use rrpg.StdMap
use rrpg.Server.Turn.{next_alive, turn_fuel, choose_next, found_or_hang}

-- The first player of a list who is alive.
unfoldable pub first_alive : List (ℕ × Player) → Option (ℕ × Player)
first_alive [] = none
first_alive ((id, player) ∷ players) = elim player.dead [
  | true ↦ first_alive players
  | false ↦ some (id, player)
]

abbrev pub or_else : Option (ℕ × Player) → Option (ℕ × Player) → Option (ℕ × Player)
or_else none o = o
or_else (some e) o = some e

pub first_alive-append :
    (xs ys : List (ℕ × Player)) → first_alive (xs ++ ys) ≡ or_else (first_alive xs) (first_alive ys)
unfolding first_alive
first_alive-append [] ys = refl
first_alive-append ((id, player) ∷ xs) ys = ground (arith, first_alive-append xs ys)

next_alive-here :
    (fuel : ℕ) (players it : List (ℕ × Player)) (e : ℕ × Player)
    → first_alive it ≡ some e
    → length it < fuel
    → next_alive fuel players it ≡ some e
unfolding next_alive first_alive
next_alive-here zero players it e found h = absurd (omega arith)
next_alive-here (suc fuel) players [] e found h = ground arith
next_alive-here (suc fuel) players ((id, player) ∷ it) e found h =
    ground (arith, next_alive-here fuel players it e)

next_alive-wrap :
    (fuel : ℕ) (players it : List (ℕ × Player)) (e : ℕ × Player)
    → first_alive it ≡ none
    → first_alive players ≡ some e
    → length it + length players + 1 < fuel
    → next_alive fuel players it ≡ some e
unfolding next_alive first_alive
next_alive-wrap zero players it e dead found h = absurd (omega arith)
next_alive-wrap (suc fuel) players [] e dead found h =
    next_alive-here fuel players players e found (omega arith)
next_alive-wrap (suc fuel) players ((id, player) ∷ it) e dead found h =
    ground (arith, next_alive-wrap fuel players it e)

-- If nobody of the map is alive, the loop of `NextTurn` never ends: whatever the number of rounds,
-- it is still looking, from any iterator behind which nobody is alive either.
pub next_alive_hangs :
    (fuel : ℕ) (players it : List (ℕ × Player))
    → first_alive players ≡ none
    → first_alive it ≡ none
    → next_alive fuel players it ≡ none
unfolding next_alive first_alive
next_alive_hangs zero players it dead none_left = refl
next_alive_hangs (suc fuel) players [] dead none_left =
    next_alive_hangs fuel players players dead dead
next_alive_hangs (suc fuel) players ((id, player) ∷ it) dead none_left =
    ground (arith, next_alive_hangs fuel players it)

-- The loop finds the first player alive behind the iterator, and then from the beginning.
next_alive_lem :
    (fuel : ℕ) (players it : List (ℕ × Player))
    → length it + length players + 1 < fuel
    → next_alive fuel players it ≡ first_alive (it ++ players)
next_alive_lem fuel players it h =
    rw (first_alive-append it players) (elim (Option-cases (first_alive it)) [
      | inl behind ↦ elim (Option-cases (first_alive players)) [
        | inl dead ↦ rw (behind, dead) (next_alive_hangs fuel players it dead behind)
        | inr (e, found) ↦ rw (behind, found) (next_alive-wrap fuel players it e behind found h)
      ]
      | inr (e, found) ↦ rw found (next_alive-here fuel players it e found (omega arith))
    ])

-- The players behind a key in the order of the map, and those up to it.
abbrev pub behind : ℕ → List (ℕ × Player) → List (ℕ × Player)
behind id [] = []
behind id ((j, player) ∷ players) = if j == id then players else behind id players

abbrev pub up_to : ℕ → List (ℕ × Player) → List (ℕ × Player)
up_to id [] = []
up_to id ((j, player) ∷ players) =
    if j == id then (j, player) ∷ [] else (j, player) ∷ up_to id players

-- All players, along the circle that starts behind a key and ends with it.
abbrev pub circle : ℕ → List (ℕ × Player) → List (ℕ × Player)
circle id players = behind id players ++ up_to id players

first_alive-up_to :
    (id : ℕ) (players : List (ℕ × Player))
    → first_alive players
      ≡ or_else (first_alive (up_to id players)) (first_alive (behind id players))
unfolding first_alive
first_alive-up_to id [] = refl
first_alive-up_to id ((j, player) ∷ players) = ground (arith, first_alive-up_to id players)

first_alive-circle :
    (id : ℕ) (players : List (ℕ × Player))
    → first_alive (behind id players ++ players) ≡ first_alive (circle id players)
first_alive-circle id players = ground (
  arith,
  first_alive-append (behind id players) players,
  first_alive-append (behind id players) (up_to id players),
  first_alive-up_to id players,
)

pub first_alive-circle-none :
    (id : ℕ) (players : List (ℕ × Player))
    → first_alive (circle id players) ≡ none
    → first_alive players ≡ none
first_alive-circle-none id players h =
    ground (
      arith,
      first_alive-append (behind id players) (up_to id players),
      first_alive-up_to id players,
    )

pub find-behind :
    (id : ℕ) (players : List (ℕ × Player)) (player : Player)
    → StdMap.lookup id players ≡ some player
    → (j : ℕ) × (p : Player) × (StdMap.find id players ≡ (j, p) ∷ behind id players)
unfolding StdMap.find StdMap.lookup
find-behind id [] player found = ground arith
find-behind id ((j, p) ∷ players) player found = elim (Bool-cases (j == id)) [
  | inl hit ↦ (j, p, rw hit)
  | inr miss ↦ rw miss (find-behind id players player (ground arith))
]

find_missing :
    (id : ℕ) (players : List (ℕ × Player))
    → StdMap.lookup id players ≡ none
    → StdMap.find id players ≡ []
unfolding StdMap.find StdMap.lookup
find_missing id [] h = refl
find_missing id ((j, p) ∷ players) h = ground (arith, find_missing id players)

-- An iterator that is already at the end cannot move on.
pub choose_next_missing :
    (id : ℕ) (players : List (ℕ × Player))
    → StdMap.lookup id players ≡ none
    → choose_next id players ≡ fault invalid_iterator
unfolding choose_next
choose_next_missing id players h = rw (find_missing id players h, choose_next)

length-behind : (id : ℕ) (players : List (ℕ × Player)) → length (behind id players) ≤ length players
length-behind id [] = omega arith
length-behind id ((j, player) ∷ players) = ground (arith, length-behind id players)

-- If the player whose turn it is has an entry, the search of `NextTurn` finds the first player
-- alive along the circle of all players that starts behind that player and ends with that player;
-- with nobody alive there is none, and the loop does not end. The fuel suffices: a result other
-- than the endless loop is returned whenever somebody is alive.
pub choose_next-circle :
    (id : ℕ) (players : List (ℕ × Player)) (player : Player)
    → StdMap.lookup id players ≡ some player
    → choose_next id players ≡ found_or_hang (first_alive (circle id players))
unfolding choose_next
choose_next-circle id players player found =
    let (j, p, stands) = find-behind id players player found in
    let reached : next_alive (turn_fuel players) players (behind id players)
        ≡ first_alive (circle id players) =
      next_alive_lem (turn_fuel players) players (behind id players)
        (omega (arith, length-behind id players))
      ∙ first_alive-circle id players in
    rw (stands, choose_next) (ap found_or_hang reached)
