-- ===== src/Session/Join/Players.antt =====
-- RRPG Server/server.cpp: the players of the map once several clients have joined.
use rrpg.Common.{
  ℕ, suc, ◌+◌, ◌==◌, if◌then◌else◌, true, false, List, [], ◌∷◌, some, none, ◌≡◌, refl, ap, ◌∙◌,
  arith, All, Chars, length, inl, inr, Bool-cases, ==_refl, ==_iff,
}
use rrpg.Protocol.{Player, new_player}
use rrpg.StdMap
use rrpg.StdMap.Order.{
  IsSorted, kept_or_new, has_key, emplace-IsSorted, lookup-emplace, All-emplace,
}
use rrpg.Session.Lobby.{IsDistinct}
use rrpg.Session.Join.{joined_players}

-- What holds of every key of a list.
pub All-has_key : (P : ℕ → Type 0) (ks : List ℕ) → ((k : ℕ) → has_key k ks ≡ true → P k) → All P ks
All-has_key P [] h = tt
All-has_key P (k ∷ ks) h =
    (h k (ground (arith, ==_refl k)), All-has_key P ks (λ j there. h j (ground (arith, there))))

length-emplace :
    (k : ℕ) (player : Player) (players : List (ℕ × Player))
    → StdMap.lookup k players ≡ none
    → length (StdMap.emplace k player players) ≡ suc (length players)
unfolding StdMap.emplace StdMap.lookup
length-emplace k player [] fresh = refl
length-emplace k player ((j, other) ∷ players) fresh =
    ground (arith, length-emplace k player players)

module _ (names : ℕ → Chars) where
  pub joined-IsSorted :
      (ks : List ℕ) (players : List (ℕ × Player))
      → IsSorted players
      → IsSorted (joined_players names ks players)
  joined-IsSorted [] players sorted = sorted
  joined-IsSorted (k ∷ ks) players sorted =
      joined-IsSorted ks (StdMap.emplace k (new_player (names k)) players)
        (emplace-IsSorted k (new_player (names k)) players sorted)

  lookup-joined_kept :
      (j : ℕ) (player : Player) (ks : List ℕ) (players : List (ℕ × Player))
      → IsSorted players
      → StdMap.lookup j players ≡ some player
      → StdMap.lookup j (joined_players names ks players) ≡ some player
  lookup-joined_kept j player [] players sorted found = found
  lookup-joined_kept j player (k ∷ ks) players sorted found =
      lookup-joined_kept j player ks (StdMap.emplace k (new_player (names k)) players)
        (emplace-IsSorted k (new_player (names k)) players sorted)
        (elim (Bool-cases (k == j)) [
          | inl hit ↦
              ground (arith, lookup-emplace j k (new_player (names k)) players sorted, ==_iff k j)
          | inr miss ↦ ground (arith, lookup-emplace j k (new_player (names k)) players sorted)
        ])

  -- The keys that have joined, and no others, have new players, under their own names.
  pub lookup-joined :
      (j : ℕ) (ks : List ℕ) (players : List (ℕ × Player))
      → IsSorted players
      → StdMap.lookup j players ≡ none
      → StdMap.lookup j (joined_players names ks players)
        ≡ (if has_key j ks then some (new_player (names j)) else none)
  lookup-joined j [] players sorted fresh = fresh
  lookup-joined j (k ∷ ks) players sorted fresh =
      let now = StdMap.emplace k (new_player (names k)) players in
      let found = lookup-emplace j k (new_player (names k)) players sorted in
      let after = emplace-IsSorted k (new_player (names k)) players sorted in
      elim (Bool-cases (k == j)) [
        | inl hit ↦
            let same : k ≡ j = (==_iff k j).0 hit in
            let new : StdMap.lookup j now ≡ some (new_player (names j)) =
              found
              ∙ rw hit (
                  ap some (
                    ap (λ i. kept_or_new (StdMap.lookup i players) (new_player (names i))) same
                    ∙ ap (λ o. kept_or_new o (new_player (names j))) fresh)) in
            rw hit (lookup-joined_kept j (new_player (names j)) ks now after new)
        | inr miss ↦ rw miss (lookup-joined j ks now after (ground (arith, found)))
      ]

  pub All-joined :
      (P : ℕ × Player → Type 0) (ks : List ℕ) (players : List (ℕ × Player))
      → All (λ k. P (k, new_player (names k))) ks
      → All P players
      → All P (joined_players names ks players)
  All-joined P [] players new old = old
  All-joined P (k ∷ ks) players new old =
      All-joined P ks (StdMap.emplace k (new_player (names k)) players) new.1
        (All-emplace P k (new_player (names k)) players new.0 old)

  All-fresh :
      (k : ℕ) (ks : List ℕ) (players : List (ℕ × Player))
      → IsSorted players
      → has_key k ks ≡ false
      → All (λ j. StdMap.lookup j players ≡ none) ks
      → All (λ j. StdMap.lookup j (StdMap.emplace k (new_player (names k)) players) ≡ none) ks
  All-fresh k [] players sorted other fresh = tt
  All-fresh k (j ∷ js) players sorted other fresh = (
    ground (arith, lookup-emplace j k (new_player (names k)) players sorted, fresh.0),
    All-fresh k js players sorted (ground arith) fresh.1,
  )

  pub length-joined :
      (ks : List ℕ) (players : List (ℕ × Player))
      → IsSorted players
      → IsDistinct ks
      → All (λ k. StdMap.lookup k players ≡ none) ks
      → length (joined_players names ks players) ≡ length ks + length players
  length-joined [] players sorted distinct fresh = omega arith
  length-joined (k ∷ ks) players sorted distinct fresh =
      let h =
        length-joined ks (StdMap.emplace k (new_player (names k)) players)
          (emplace-IsSorted k (new_player (names k)) players sorted) distinct.1
          (All-fresh k ks players sorted distinct.0 fresh.1) in
      omega (arith, h, length-emplace k (new_player (names k)) players fresh.0)
