-- ===== src/Server/Turn/Found.antt =====
-- RRPG Server/server.cpp: where the search of `NextTurn` finds a player.
use rrpg.Common.{
  ℕ, ◌<◌, ◌==◌, false, List, [], ◌∷◌, ◌++◌, some, ◌≡◌, ◌⊎◌, inl, inr, arith, Bool-cases,
}
use rrpg.Protocol.{Player}
use rrpg.StdMap
use rrpg.StdMap.Order.{Above, IsSorted}
use rrpg.Server.Turn.Order.{first_alive, behind, up_to, circle}

-- An entry is somewhere in the list.
abbrev pub Has : ℕ × Player → List (ℕ × Player) → Type 0
Has e [] = ⊥
Has e (x ∷ xs) = (x ≡ e) ⊎ Has e xs

pub Has-append :
    (e : ℕ × Player) (xs ys : List (ℕ × Player)) → Has e (xs ++ ys) → Has e xs ⊎ Has e ys
Has-append e [] ys h = inr h
Has-append e (x ∷ xs) ys (inl p) = inl (inl p)
Has-append e (x ∷ xs) ys (inr h) = elim (Has-append e xs ys h) [
  | inl left ↦ inl (inr left)
  | inr right ↦ inr right
]

Has-behind :
    (e : ℕ × Player) (id : ℕ) (players : List (ℕ × Player))
    → Has e (behind id players)
    → Has e players
Has-behind e id [] h = h
Has-behind e id ((j, p) ∷ players) h = elim (Bool-cases (j == id)) [
  | inl hit ↦ inr (rw (hit, behind) at h)
  | inr miss ↦ inr (Has-behind e id players (rw (miss, behind) at h))
]

Has-cons :
    (e x : ℕ × Player) (xs ys : List (ℕ × Player))
    → (Has e xs → Has e ys)
    → Has e (x ∷ xs)
    → Has e (x ∷ ys)
Has-cons e x xs ys f (inl p) = inl p
Has-cons e x xs ys f (inr h) = inr (f h)

Has-up_to :
    (e : ℕ × Player) (id : ℕ) (players : List (ℕ × Player))
    → Has e (up_to id players)
    → Has e players
Has-up_to e id [] h = h
Has-up_to e id ((j, p) ∷ players) h = elim (Bool-cases (j == id)) [
  | inl hit ↦ Has-cons e (j, p) [] players (λ none_left. absurd none_left) (rw (hit, up_to) at h)
  | inr miss ↦
      Has-cons e (j, p) (up_to id players) players (Has-up_to e id players) (rw (miss, up_to) at h)
]

pub Has-first_alive :
    (e : ℕ × Player) (xs : List (ℕ × Player))
    → first_alive xs ≡ some e
    → Has e xs × (e.1.dead ≡ false)
unfolding first_alive
Has-first_alive e [] h = ground arith
Has-first_alive e ((j, p) ∷ xs) h = elim (Bool-cases p.dead) [
  | inl dead ↦ let (there, alive) = Has-first_alive e xs (ground arith) in (inr there, alive)
  | inr alive ↦ (inl (ground arith), ground arith)
]

-- The player found is one of the map, and alive.
pub first_alive-circle_alive :
    (id : ℕ) (players : List (ℕ × Player)) (e : ℕ × Player)
    → first_alive (circle id players) ≡ some e
    → Has e players × (e.1.dead ≡ false)
first_alive-circle_alive id players e h =
    let (there, alive) = Has-first_alive e (circle id players) h in
    (
      elim (Has-append e (behind id players) (up_to id players) there) [
        | inl left ↦ Has-behind e id players left
        | inr right ↦ Has-up_to e id players right
      ],
      alive,
    )

lookup-Has-Above :
    (b id : ℕ) (p : Player) (players : List (ℕ × Player))
    → Above b players
    → Has (id, p) players
    → (b < id) × (StdMap.lookup id players ≡ some p)
unfolding StdMap.lookup
lookup-Has-Above b id p [] a h = absurd h
lookup-Has-Above b id p ((j, q) ∷ players) a (inl e) = ground arith
lookup-Has-Above b id p ((j, q) ∷ players) a (inr h) =
    ground (arith, lookup-Has-Above j id p players a.1 h)

pub lookup-Has :
    (id : ℕ) (p : Player) (players : List (ℕ × Player))
    → IsSorted players
    → Has (id, p) players
    → StdMap.lookup id players ≡ some p
unfolding StdMap.lookup
lookup-Has id p [] a h = absurd h
lookup-Has id p ((j, q) ∷ players) a (inl e) = ground arith
lookup-Has id p ((j, q) ∷ players) a (inr h) = ground (arith, lookup-Has-Above j id p players a h)
