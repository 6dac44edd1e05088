-- ===== src/Server/Battle/Alive.antt =====
-- RRPG Server/server.cpp: the number of players alive, as `NextTurn` counts them, and who they are.
use rrpg.Common.{
  ℕ, ◌+◌, ◌≤◌, ◌==◌, false, List, [], ◌∷◌, some, none, ◌≡◌, ◌≢◌, refl, ap, arith, inl, inr,
  Bool-cases, ◌++◌,
}
use rrpg.Protocol.{Player}
use rrpg.StdMap
use rrpg.Server.Turn.{alive_count}
use rrpg.Server.Turn.Order.{first_alive}

-- Somebody alive counts.
pub one_alive :
    (id : ℕ) (player : Player) (players : List (ℕ × Player))
    → StdMap.lookup id players ≡ some player
    → player.dead ≡ false
    → 1 ≤ alive_count players
unfolding StdMap.lookup
one_alive id player [] found alive = ground arith
one_alive id player ((j, other) ∷ players) found alive = elim (Bool-cases (j == id)) [
  | inl hit ↦ let same : other ≡ player = ground arith in ground (arith, ap (λ q. q.dead) same)
  | inr miss ↦ ground (arith, one_alive id player players (ground arith) alive)
]

-- Two of them count twice.
pub two_alive :
    (id k : ℕ) (p q : Player) (players : List (ℕ × Player))
    → id ≢ k
    → StdMap.lookup id players ≡ some p
    → p.dead ≡ false
    → StdMap.lookup k players ≡ some q
    → q.dead ≡ false
    → 2 ≤ alive_count players
unfolding StdMap.lookup
two_alive id k p q [] other found alive found' alive' = ground arith
two_alive id k p q ((j, r) ∷ players) other found alive found' alive' =
    elim (Bool-cases (j == id)) [
      | inl hit ↦
          let same : r ≡ p = ground arith in
          let away : (j == k) ≡ false = ground arith in
          let behind = one_alive k q players (ground arith) alive' in
          ground (arith, ap (λ x. x.dead) same)
      | inr miss ↦ elim (Bool-cases (j == k)) [
        | inl hit' ↦
            let same : r ≡ q = ground arith in
            let behind = one_alive id p players (ground arith) alive in
            ground (arith, ap (λ x. x.dead) same)
        | inr miss' ↦
            let rest =
              two_alive id k p q players other (ground arith) alive (ground arith) alive' in
            ground arith
      ]
    ]

-- With nobody alive in front, none counts.
pub none_alive :
    (players : List (ℕ × Player)) → first_alive players ≡ none → alive_count players ≡ 0
unfolding first_alive
none_alive [] h = refl
none_alive ((j, player) ∷ players) h = ground (arith, none_alive players)

pub alive_count-append :
    (xs ys : List (ℕ × Player)) → alive_count (xs ++ ys) ≡ alive_count xs + alive_count ys
alive_count-append [] ys = omega arith
alive_count-append ((j, player) ∷ xs) ys = ground (arith, alive_count-append xs ys)

-- A change of one player leaves all but one of those who are alive.
pub alive_count-adjust :
    (id : ℕ) (f : Player → Player) (players : List (ℕ × Player))
    → alive_count players ≤ alive_count (StdMap.adjust id f players) + 1
unfolding StdMap.adjust
alive_count-adjust id f [] = omega arith
alive_count-adjust id f ((j, player) ∷ players) = ground (arith, alive_count-adjust id f players)

pub some-first_alive :
    (players : List (ℕ × Player))
    → 1 ≤ alive_count players
    → (e : ℕ × Player) × (first_alive players ≡ some e)
unfolding first_alive
some-first_alive [] h = absurd (omega arith)
some-first_alive ((j, player) ∷ players) h = elim (Bool-cases player.dead) [
  | inl dead ↦
      let (e, found) = some-first_alive players (ground arith) in (e, ground (arith, dead, found))
  | inr alive ↦ ((j, player), ground (arith, alive))
]
