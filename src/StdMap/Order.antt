-- ===== src/StdMap/Order.antt =====
-- `std::map`: the order of the keys, and the laws of the operations.
use mathlib.Core.Option
use mathlib.Core.Path.{subst₂}
use rrpg.Common.{
  ℕ, ◌<◌, ◌≤◌, ltb, ◌==◌, if◌then◌else◌, Bool, true, false, ◌||◌, List, [], ◌∷◌, ◌++◌, Option, none,
  some, ◌≡◌, refl, sym, inl, inr, ap, arith, All, ==_iff, Bool-cases,
}
use rrpg.StdMap.{find, lookup, emplace, adjust, for_each, keys}

-- All keys are above the bound, in strictly ascending order.
abbrev pub Above : {V : Type 0} → ℕ → List (ℕ × V) → Type 0
Above k [] = Unit
Above k ((j, v) ∷ m) = (k < j) × Above j m

abbrev pub IsSorted : {V : Type 0} → List (ℕ × V) → Type 0
IsSorted [] = Unit
IsSorted ((j, v) ∷ m) = Above j m

-- Whether the key has an entry.
abbrev pub has_key : ℕ → List ℕ → Bool
has_key k [] = false
has_key k (j ∷ js) = j == k || has_key k js

-- The keys after an `emplace`.
abbrev pub insert_key : ℕ → List ℕ → List ℕ
insert_key k [] = k ∷ []
insert_key k (j ∷ js) =
    if ltb k j then k ∷ j ∷ js else if j == k then j ∷ js else j ∷ insert_key k js

module _ {V : Type 0} where
  pub Above-weaken : (b c : ℕ) (m : List (ℕ × V)) → b ≤ c → Above c m → Above b m
  Above-weaken b c [] h a = tt
  Above-weaken b c ((j, v) ∷ m) h a = (omega arith, a.1)

  emplace-Above : (b k : ℕ) (v : V) (m : List (ℕ × V)) → b < k → Above b m → Above b (emplace k v m)
  unfolding emplace
  emplace-Above b k v [] h a = (h, tt)
  emplace-Above b k v ((j, w) ∷ m) h a = ground (arith, emplace-Above j k v m)

  pub emplace-IsSorted : (k : ℕ) (v : V) (m : List (ℕ × V)) → IsSorted m → IsSorted (emplace k v m)
  unfolding emplace
  emplace-IsSorted k v [] a = tt
  emplace-IsSorted k v ((j, w) ∷ m) a = ground (arith, emplace-Above j k v m)

  pub keys-emplace :
      (k : ℕ) (v : V) (m : List (ℕ × V)) → keys (emplace k v m) ≡ insert_key k (keys m)
  unfolding emplace
  keys-emplace k v [] = refl
  keys-emplace k v ((j, w) ∷ m) = ground (arith, keys-emplace k v m)

  pub keys-adjust : (k : ℕ) (f : V → V) (m : List (ℕ × V)) → keys (adjust k f m) ≡ keys m
  unfolding adjust
  keys-adjust k f [] = refl
  keys-adjust k f ((j, w) ∷ m) = ground (arith, keys-adjust k f m)

  pub keys-for_each : (f : V → V) (m : List (ℕ × V)) → keys (for_each f m) ≡ keys m
  unfolding for_each
  keys-for_each f [] = refl
  keys-for_each f ((j, w) ∷ m) = ap (◌∷◌ j) (keys-for_each f m)

  pub lookup-Above : (b k : ℕ) (m : List (ℕ × V)) → Above b m → k ≤ b → lookup k m ≡ none
  unfolding lookup
  lookup-Above b k [] a h = refl
  lookup-Above b k ((j, v) ∷ m) a h = ground (arith, lookup-Above j k m)

  -- A key that is there keeps its value; a new one takes the given value.
  abbrev pub kept_or_new : Option V → V → V
  kept_or_new none v = v
  kept_or_new (some w) v = w

  lookup-emplace_in :
      (b j k : ℕ) (v : V) (m : List (ℕ × V))
      → Above b m
      → lookup j (emplace k v m)
        ≡ (if k == j then some (kept_or_new (lookup k m) v) else lookup j m)
  unfolding lookup emplace
  lookup-emplace_in b j k v [] a = ground arith
  lookup-emplace_in b j k v ((i, w) ∷ m) a =
      ground (arith, lookup-emplace_in i j k v m a.1, lookup-Above i k m a.1)

  pub lookup-emplace :
      (j k : ℕ) (v : V) (m : List (ℕ × V))
      → IsSorted m
      → lookup j (emplace k v m)
        ≡ (if k == j then some (kept_or_new (lookup k m) v) else lookup j m)
  unfolding lookup emplace
  lookup-emplace j k v [] a = ground arith
  lookup-emplace j k v ((i, w) ∷ m) a =
      ground (arith, lookup-emplace_in i j k v m a, lookup-Above i k m a)

  pub lookup-adjust :
      (j k : ℕ) (f : V → V) (m : List (ℕ × V))
      → lookup j (adjust k f m) ≡ (if k == j then Option.map f (lookup k m) else lookup j m)
  unfolding lookup adjust
  lookup-adjust j k f [] = ground arith
  lookup-adjust j k f ((i, w) ∷ m) = ground (arith, lookup-adjust j k f m)

  pub lookup-for_each :
      (j : ℕ) (f : V → V) (m : List (ℕ × V)) → lookup j (for_each f m) ≡ Option.map f (lookup j m)
  unfolding lookup for_each
  lookup-for_each j f [] = refl
  lookup-for_each j f ((i, w) ∷ m) = ground (arith, lookup-for_each j f m)

  pub lookup-has_key :
      (k : ℕ) (m : List (ℕ × V)) → has_key k (keys m) ≡ true → (v : V) × (lookup k m ≡ some v)
  unfolding lookup
  lookup-has_key k [] h = ground arith
  lookup-has_key k ((j, v) ∷ m) h = elim (Bool-cases (j == k)) [
    | inl hit ↦ (v, rw hit)
    | inr miss ↦ let (w, e) = lookup-has_key k m (ground arith) in (w, rw miss e)
  ]

  pub has_key-lookup :
      (k : ℕ) (m : List (ℕ × V)) (v : V) → lookup k m ≡ some v → has_key k (keys m) ≡ true
  unfolding lookup
  has_key-lookup k [] v h = ground arith
  has_key-lookup k ((j, w) ∷ m) v h = ground (arith, has_key-lookup k m v)

  -- `find` splits the map at the key.
  pub find_splits :
      (k : ℕ) (m : List (ℕ × V)) (v : V)
      → lookup k m ≡ some v
      → (before after : List (ℕ × V)) × (m ≡ before ++ ((k, v) ∷ after))
        × (find k m ≡ (k, v) ∷ after)
  unfolding lookup find
  find_splits k [] v h = ground arith
  find_splits k ((j, w) ∷ m) v h = elim (Bool-cases (j == k)) [
    | inl hit ↦ ([], m, ground arith, ground arith)
    | inr miss ↦
        let (before, after, whole, found) = find_splits k m v (ground arith) in
        ((j, w) ∷ before, after, ap (◌∷◌ (j, w)) whole, rw miss found)
  ]

  pub All-emplace :
      (P : ℕ × V → Type 0) (k : ℕ) (v : V) (m : List (ℕ × V))
      → P (k, v)
      → All P m
      → All P (emplace k v m)
  unfolding emplace
  All-emplace P k v [] h a = (h, tt)
  All-emplace P k v ((j, w) ∷ m) h a = ground (arith, All-emplace P k v m h a.1)

  pub All-for_each :
      (P : ℕ × V → Type 0) (f : V → V) (m : List (ℕ × V))
      → ((k : ℕ) (v : V) → P (k, v) → P (k, f v))
      → All P m
      → All P (for_each f m)
  unfolding for_each
  All-for_each P f [] h a = tt
  All-for_each P f ((j, w) ∷ m) h a = (h j w a.0, All-for_each P f m h a.1)

  pub All-adjust :
      (P : ℕ × V → Type 0) (k : ℕ) (f : V → V) (m : List (ℕ × V)) (v : V)
      → lookup k m ≡ some v
      → (P (k, v) → P (k, f v))
      → All P m
      → All P (adjust k f m)
  unfolding adjust lookup
  All-adjust P k f [] v e h a = tt
  All-adjust P k f ((j, w) ∷ m) v e h a = elim (Bool-cases (j == k)) [
    | inl hit ↦
        let ej : j ≡ k = (==_iff j k).0 hit in
        let ew : w ≡ v = ground arith in
        rw hit (
          subst₂ (λ x y. P (x, f y)) (sym ej) (sym ew) (h (subst₂ (λ x y. P (x, y)) ej ew a.0)),
          a.1,
        )
    | inr miss ↦ rw miss (a.0, All-adjust P k f m v (ground arith) h a.1)
  ]

  adjust-Above : (b k : ℕ) (f : V → V) (m : List (ℕ × V)) → Above b m → Above b (adjust k f m)
  unfolding adjust
  adjust-Above b k f [] a = tt
  adjust-Above b k f ((j, w) ∷ m) a = ground (arith, adjust-Above j k f m)

  pub adjust-IsSorted :
      (k : ℕ) (f : V → V) (m : List (ℕ × V)) → IsSorted m → IsSorted (adjust k f m)
  unfolding adjust
  adjust-IsSorted k f [] a = tt
  adjust-IsSorted k f ((j, w) ∷ m) a = ground (arith, adjust-Above j k f m)

  for_each-Above : (b : ℕ) (f : V → V) (m : List (ℕ × V)) → Above b m → Above b (for_each f m)
  unfolding for_each
  for_each-Above b f [] a = tt
  for_each-Above b f ((j, w) ∷ m) a = (a.0, for_each-Above j f m a.1)

  pub for_each-IsSorted : (f : V → V) (m : List (ℕ × V)) → IsSorted m → IsSorted (for_each f m)
  unfolding for_each
  for_each-IsSorted f [] a = tt
  for_each-IsSorted f ((j, w) ∷ m) a = for_each-Above j f m a

  pub All-adjust-All :
      (P : ℕ × V → Type 0) (k : ℕ) (f : V → V) (m : List (ℕ × V))
      → ((j : ℕ) (v : V) → P (j, v) → P (j, f v))
      → All P m
      → All P (adjust k f m)
  unfolding adjust
  All-adjust-All P k f [] h a = tt
  All-adjust-All P k f ((j, w) ∷ m) h a = ground (arith, h j w a.0, All-adjust-All P k f m h a.1)

  -- What stands behind an entry is in the map.
  pub has_key-find :
      (k : ℕ) (m : List (ℕ × V)) (x : ℕ × V) (j : ℕ) (v : V) (rest : List (ℕ × V))
      → find k m ≡ x ∷ ((j, v) ∷ rest)
      → has_key j (keys m) ≡ true
  unfolding find
  has_key-find k [] x j v rest e = ground arith
  has_key-find k ((i, w) ∷ m) x j v rest e = elim (Bool-cases (i == k)) [
    | inl hit ↦ let tails : m ≡ (j, v) ∷ rest = ground arith in ground arith
    | inr miss ↦ ground (arith, has_key-find k m x j v rest)
  ]

  pub All-lookup :
      (P : ℕ × V → Type 0) (k : ℕ) (m : List (ℕ × V)) (v : V)
      → lookup k m ≡ some v
      → All P m
      → P (k, v)
  unfolding lookup
  All-lookup P k [] v h a = ground arith
  All-lookup P k ((j, w) ∷ m) v h a = elim (Bool-cases (j == k)) [
    | inl hit ↦ subst₂ (λ x y. P (x, y)) ((==_iff j k).0 hit) (ground arith) a.0
    | inr miss ↦ All-lookup P k m v (ground arith) a.1
  ]

pub has_key-insert_key :
    (j k : ℕ) (js : List ℕ) → has_key j (insert_key k js) ≡ (k == j || has_key j js)
has_key-insert_key j k [] = refl
has_key-insert_key j k (i ∷ js) = ground (arith, has_key-insert_key j k js)
