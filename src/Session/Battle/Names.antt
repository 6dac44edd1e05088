-- ===== src/Session/Battle/Names.antt =====
-- RRPG Server/server.cpp: the names and keys of the players, and how far from the ends of an int
-- their health is, along the main game.
use mathlib.Core.Path.{subst}
use rrpg.Common.{
  sym, Bool-cases, chars_eq, ==_refl, ℕ, ◌+◌, ◌≤◌, ◌<◌, ◌==◌, List, [], ◌∷◌, some, ◌≡◌, refl, ℤ,
  ◌+ℤ◌, pos_part, neg_part, pos, neg, All, Chars, arith, inl, inr,
}
use rrpg.Protocol.{Player}
use rrpg.StdMap
use rrpg.StdMap.{keys}
use rrpg.Server.Broadcast.{add_health}
use rrpg.Server.Handlers.{get_player_with_name}
use rrpg.Server.Actions.Outcome.{IsEffect, IsModerate}

-- A hit leaves the players findable by their names.
pub get_player_with_name-hit :
    (name : Chars) (id : ℕ) (diff : ℤ) (players : List (ℕ × Player))
    → get_player_with_name name (StdMap.adjust id (add_health diff) players)
      ≡ get_player_with_name name players
unfolding get_player_with_name StdMap.adjust
get_player_with_name-hit name id diff [] = refl
get_player_with_name-hit name id diff ((j, player) ∷ players) =
    ground (arith, get_player_with_name-hit name id diff players)

-- Who is found by a name is in the map.
pub get_player_with_name-found :
    (name : Chars) (id : ℕ) (players : List (ℕ × Player))
    → get_player_with_name name players ≡ some id
    → (player : Player) × (StdMap.lookup id players ≡ some player)
unfolding get_player_with_name StdMap.lookup
get_player_with_name-found name id [] named = ground arith
get_player_with_name-found name id ((j, player) ∷ players) named =
    elim (Bool-cases (chars_eq player.name name)) [
      | inl hit ↦ let same : j ≡ id = ground arith in (player, ground (arith, same, ==_refl id))
      | inr miss ↦
          let (q, found) = get_player_with_name-found name id players (ground arith) in
          elim (Bool-cases (j == id)) [
            | inl here ↦ (player, rw here refl)
            | inr away ↦ (q, rw away found)
          ]
    ]

-- So many points are left on either side.
abbrev pub HasRoom : ℕ → ℤ → Type 0
HasRoom room z = (pos_part z + room < 2147483648) × (neg_part z + room < 2147483648)

pub HasRoom-IsModerate : (room : ℕ) (z : ℤ) → HasRoom (18 + room) z → IsModerate z
HasRoom-IsModerate room z h = (omega (arith, h.0), omega (arith, h.1))

pub HasRoom-weaken : (room : ℕ) (z : ℤ) → HasRoom (18 + room) z → HasRoom room z
HasRoom-weaken room z h = (omega (arith, h.0), omega (arith, h.1))

up_HasRoom : (room n : ℕ) (z : ℤ) → n ≤ 18 → HasRoom (18 + room) z → HasRoom room (z +ℤ pos n)
unfolding ◌+ℤ◌
up_HasRoom room n z h r = (ground (arith, r.0, r.1), ground (arith, r.0, r.1))

down_HasRoom :
    (room n : ℕ) (z : ℤ) → n ≤ 18 → HasRoom (18 + room) z → HasRoom room (z +ℤ neg (pos n))
unfolding ◌+ℤ◌
down_HasRoom room n z h r = (ground (arith, r.0, r.1), ground (arith, r.0, r.1))

effect-HasRoom :
    (action room : ℕ) (diff z : ℤ)
    → IsEffect action diff
    → HasRoom (18 + room) z
    → HasRoom room (z +ℤ diff)
effect-HasRoom action room diff z (inl (a, d)) r =
    subst (λ d. HasRoom room (z +ℤ d)) (sym d) (up_HasRoom room 10 z (omega arith) r)
effect-HasRoom action room diff z (inr (inl (a, n, low, high, d))) r =
    subst (λ d. HasRoom room (z +ℤ d)) (sym d) (up_HasRoom room n z (omega (arith, high)) r)
effect-HasRoom action room diff z (inr (inr (inl (a, d)))) r =
    subst (λ d. HasRoom room (z +ℤ d)) (sym d) (down_HasRoom room 12 z (omega arith) r)
effect-HasRoom action room diff z (inr (inr (inr (a, n, low, high, d)))) r =
    subst (λ d. HasRoom room (z +ℤ d)) (sym d) (down_HasRoom room n z (omega (arith, high)) r)

health-add_health :
    (diff : ℤ) (player : Player) → (add_health diff player).health ≡ player.health +ℤ diff
health-add_health diff player = ground arith

-- Nobody of the map is nearer than that to the ends of an int.
abbrev pub AllHaveRoom : ℕ → List (ℕ × Player) → Type 0
AllHaveRoom room = All (λ e. HasRoom room e.1.health)

AllHaveRoom-weaken :
    (room : ℕ) (players : List (ℕ × Player))
    → AllHaveRoom (18 + room) players
    → AllHaveRoom room players
AllHaveRoom-weaken room [] h = tt
AllHaveRoom-weaken room ((j, player) ∷ players) h =
    (HasRoom-weaken room player.health h.0, AllHaveRoom-weaken room players h.1)

pub AllHaveRoom-hit :
    (action room id : ℕ) (diff : ℤ) (players : List (ℕ × Player))
    → IsEffect action diff
    → AllHaveRoom (18 + room) players
    → AllHaveRoom room (StdMap.adjust id (add_health diff) players)
unfolding StdMap.adjust
AllHaveRoom-hit action room id diff [] effect h = tt
AllHaveRoom-hit action room id diff ((j, player) ∷ players) effect h = elim (Bool-cases (j == id)) [
  | inl hit ↦ rw hit (
    subst (HasRoom room) (sym (health-add_health diff player))
        (effect-HasRoom action room diff player.health effect h.0),
    AllHaveRoom-weaken room players h.1,
  )
  | inr miss ↦ rw miss (
    HasRoom-weaken room player.health h.0,
    AllHaveRoom-hit action room id diff players effect h.1,
  )
]
