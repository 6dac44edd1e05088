-- ===== src/Server/Battle/Next.antt =====
-- RRPG Server/server.cpp: to whom `NextTurn` passes the turn.
use mathlib.Core.List.{append_assoc}
use mathlib.Core.Path.{subst}
use rrpg.Common.{
  ℕ, suc, ◌<◌, ◌≤◌, ◌==◌, true, false, List, [], ◌∷◌, some, none, ◌≡◌, ◌≢◌, ap, arith, inl, inr,
  Bool-cases, Option-cases, ◌++◌, ◌∙◌, sym,
}
use rrpg.Protocol.{Player}
use rrpg.StdMap
use rrpg.StdMap.Order.{Above, IsSorted, find_splits, adjust-IsSorted, lookup-adjust}
use rrpg.StdMap.Middle.{Above-append}
use rrpg.Server.Turn.{alive_count}
use rrpg.Server.Turn.Order.{first_alive, first_alive-append, behind, up_to, circle}
use rrpg.Server.Turn.Found.{Has, Has-append, Has-first_alive, lookup-Has}
use rrpg.Server.Battle.Alive.{none_alive, some-first_alive, alive_count-adjust, alive_count-append}

Above-Has :
    (b : ℕ) (e : ℕ × Player) (players : List (ℕ × Player))
    → Above b players
    → Has e players
    → b < e.0
Above-Has b e [] a h = absurd h
Above-Has b e ((j, player) ∷ players) a (inl same) = ground (arith, ap (λ x. x.0) same)
Above-Has b e ((j, player) ∷ players) a (inr h) =
    let later = Above-Has j e players a.1 h in omega (arith, a.0)

module _ (cur : ℕ) (p : Player) (after : List (ℕ × Player)) where
  Has-in :
      (b : ℕ) (e : ℕ × Player) (before : List (ℕ × Player))
      → Above b (before ++ ((cur, p) ∷ after))
      → Has e before
      → e.0 < cur
  Has-in b e [] a h = absurd h
  Has-in b e ((j, player) ∷ before) a (inl same) =
      let below = Above-append j cur p before after a.1 in ground (arith, ap (λ x. x.0) same)
  Has-in b e ((j, player) ∷ before) a (inr h) = Has-in j e before a.1 h

  Has-before :
      (e : ℕ × Player) (before : List (ℕ × Player))
      → IsSorted (before ++ ((cur, p) ∷ after))
      → Has e before
      → e.0 < cur
  Has-before e [] a h = absurd h
  Has-before e ((j, player) ∷ before) a (inl same) =
      let below = Above-append j cur p before after a in ground (arith, ap (λ x. x.0) same)
  Has-before e ((j, player) ∷ before) a (inr h) = Has-in j e before a h

  Has-after :
      (e : ℕ × Player) (before : List (ℕ × Player))
      → IsSorted (before ++ ((cur, p) ∷ after))
      → Has e after
      → cur < e.0
  Has-after e [] a h = Above-Has cur e after a h
  Has-after e ((j, player) ∷ []) a h = Above-Has cur e after a.1 h
  Has-after e ((j, player) ∷ ((i, q) ∷ before)) a h = Has-after e ((i, q) ∷ before) a.1 h

  circle_in :
      (b : ℕ) (before : List (ℕ × Player))
      → Above b (before ++ ((cur, p) ∷ after))
      → (behind cur (before ++ ((cur, p) ∷ after)) ≡ after)
        × (up_to cur (before ++ ((cur, p) ∷ after)) ≡ before ++ ((cur, p) ∷ []))
  circle_in b [] a = (ground arith, ground arith)
  circle_in b ((j, player) ∷ before) a =
      let (left, right) = circle_in j before a.1 in
      let below = Above-append j cur p before after a.1 in (ground arith, ground arith)

  circle_splits :
      (before : List (ℕ × Player))
      → IsSorted (before ++ ((cur, p) ∷ after))
      → circle cur (before ++ ((cur, p) ∷ after)) ≡ after ++ (before ++ ((cur, p) ∷ []))
  circle_splits [] a = ground arith
  circle_splits ((j, player) ∷ before) a =
      let (left, right) = circle_in j before a in
      let below = Above-append j cur p before after a in ground arith

-- Behind everybody else, only the last one is left to be found.
last_alive :
    (xs : List (ℕ × Player)) (cur : ℕ) (p : Player) (e : ℕ × Player)
    → first_alive (xs ++ ((cur, p) ∷ [])) ≡ some e
    → first_alive xs ≡ none
    → (alive_count xs ≡ 0) × (p.dead ≡ false)
unfolding first_alive
last_alive xs cur p e next nobody =
    (none_alive xs nobody, ground (arith, first_alive-append xs ((cur, p) ∷ []), nobody))

-- With more or fewer than one alive, the turn leaves the player who had it.
pub turn_moves :
    (cur id : ℕ) (p q : Player) (players : List (ℕ × Player))
    → IsSorted players
    → StdMap.lookup cur players ≡ some p
    → first_alive (circle cur players) ≡ some (id, q)
    → alive_count players ≢ 1
    → id ≢ cur
turn_moves cur id p q players sorted found next several same =
    let (before, after, whole, stands) = find_splits cur players p found in
    let ordered = subst IsSorted whole sorted in
    let others = after ++ before in
    let around : circle cur players ≡ others ++ ((cur, p) ∷ []) =
      ap (circle cur) whole
      ∙ circle_splits cur p after before ordered
      ∙ sym (append_assoc after before ((cur, p) ∷ [])) in
    let chosen : first_alive (others ++ ((cur, p) ∷ [])) ≡ some (id, q) =
      ap first_alive (sym around) ∙ next in
    elim (Option-cases (first_alive others)) [
      | inl nobody ↦
          let (none_left, alive) = last_alive others cur p (id, q) chosen nobody in
          several (
            ap alive_count whole
            ∙ omega (
              arith,
              alive_count-append before ((cur, p) ∷ after),
              alive_count-append after before,
              none_left,
              one_counts cur p after alive,
            ))
      | inr (e, somebody) ↦
          let first : e ≡ (id, q) =
            ground (arith, first_alive-append others ((cur, p) ∷ []), somebody, chosen) in
          let key : e.0 ≡ cur = ap (λ x. x.0) first ∙ same in
          elim (Has-append e after before (Has-first_alive e others somebody).0) [
            | inl later ↦
                let h = Has-after cur p after e before ordered later in omega (arith, h, key)
            | inr earlier ↦
                let h = Has-before cur p after e before ordered earlier in omega (arith, h, key)
          ]
    ]
  where
    one_counts :
        (cur : ℕ) (p : Player) (after : List (ℕ × Player))
        → p.dead ≡ false
        → alive_count ((cur, p) ∷ after) ≡ suc (alive_count after)
    one_counts cur p after alive = ground (arith, alive)

abbrev kill : Player → Player
kill player = record player { dead = true }

killed_dead :
    (j k : ℕ) (q : Player) (players : List (ℕ × Player))
    → StdMap.lookup j (StdMap.adjust k kill players) ≡ some q
    → (k == j) ≡ true
    → q.dead ≡ true
killed_dead j k q players known hit = elim (Option-cases (StdMap.lookup k players)) [
  | inl missing ↦ ground (arith, known, lookup-adjust j k kill players, hit, missing)
  | inr (player, there) ↦
      let same : kill player ≡ q =
        ground (arith, known, lookup-adjust j k kill players, hit, there) in
      sym (ap (λ x. x.dead) same)
]

-- Where more than one count, another one is alive.
pub other_alive :
    (k : ℕ) (players : List (ℕ × Player))
    → IsSorted players
    → 2 ≤ alive_count players
    → (j : ℕ) × (q : Player) × (StdMap.lookup j players ≡ some q) × (q.dead ≡ false) × (j ≢ k)
other_alive k players sorted two =
    let killed = StdMap.adjust k kill players in
    let (e, first) =
      some-first_alive killed (omega (arith, two, alive_count-adjust k kill players)) in
    let (there, alive) = Has-first_alive e killed first in
    let known = lookup-Has e.0 e.1 killed (adjust-IsSorted k kill players sorted) there in
    elim (Bool-cases (k == e.0)) [
      | inl hit ↦ absurd (true≢false (sym (killed_dead e.0 k e.1 players known hit) ∙ alive))
      | inr miss ↦ (
        e.0,
        e.1,
        ground (arith, known, lookup-adjust e.0 k kill players, miss),
        alive,
        λ same. ground (arith, miss, same),
      )
    ]
  where
    true≢false : true ≡ false → ⊥
    true≢false h = cc
