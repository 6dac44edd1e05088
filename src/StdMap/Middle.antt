-- ===== src/StdMap/Middle.antt =====
-- `std::map`: what stands before and behind an entry.
use rrpg.Common.{ℕ, ◌<◌, List, [], ◌∷◌, ◌++◌, some, ◌≡◌, arith, ==_refl}
use rrpg.StdMap.{find, lookup, adjust}
use rrpg.StdMap.Order.{Above, IsSorted}

module _ {V : Type 0} where
  pub Above-append :
      (b k : ℕ) (v : V) (before after : List (ℕ × V)) → Above b (before ++ ((k, v) ∷ after)) → b < k
  Above-append b k v [] after a = a.0
  Above-append b k v ((j, w) ∷ before) after a =
      let h = Above-append j k v before after a.1 in omega (arith, a.0)

  find_in :
      (b k : ℕ) (v : V) (before after : List (ℕ × V))
      → Above b (before ++ ((k, v) ∷ after))
      → find k (before ++ ((k, v) ∷ after)) ≡ (k, v) ∷ after
  unfolding find
  find_in b k v [] after a = ground (arith, ==_refl k)
  find_in b k v ((j, w) ∷ before) after a =
      ground (arith, find_in j k v before after a.1, Above-append j k v before after a.1)

  -- `find` at the key of an entry whose place is known.
  pub find_middle :
      (k : ℕ) (v : V) (before after : List (ℕ × V))
      → IsSorted (before ++ ((k, v) ∷ after))
      → find k (before ++ ((k, v) ∷ after)) ≡ (k, v) ∷ after
  unfolding find
  find_middle k v [] after a = ground (arith, ==_refl k)
  find_middle k v ((j, w) ∷ before) after a =
      ground (arith, find_in j k v before after a, Above-append j k v before after a)

  adjust_in :
      (b k : ℕ) (f : V → V) (v : V) (before after : List (ℕ × V))
      → Above b (before ++ ((k, v) ∷ after))
      → adjust k f (before ++ ((k, v) ∷ after)) ≡ before ++ ((k, f v) ∷ after)
  unfolding adjust
  adjust_in b k f v [] after a = ground (arith, ==_refl k)
  adjust_in b k f v ((j, w) ∷ before) after a =
      ground (arith, adjust_in j k f v before after a.1, Above-append j k v before after a.1)

  pub adjust_middle :
      (k : ℕ) (f : V → V) (v : V) (before after : List (ℕ × V))
      → IsSorted (before ++ ((k, v) ∷ after))
      → adjust k f (before ++ ((k, v) ∷ after)) ≡ before ++ ((k, f v) ∷ after)
  unfolding adjust
  adjust_middle k f v [] after a = ground (arith, ==_refl k)
  adjust_middle k f v ((j, w) ∷ before) after a =
      ground (arith, adjust_in j k f v before after a, Above-append j k v before after a)

  lookup_in :
      (b k : ℕ) (v : V) (before after : List (ℕ × V))
      → Above b (before ++ ((k, v) ∷ after))
      → lookup k (before ++ ((k, v) ∷ after)) ≡ some v
  unfolding lookup
  lookup_in b k v [] after a = ground (arith, ==_refl k)
  lookup_in b k v ((j, w) ∷ before) after a =
      ground (arith, lookup_in j k v before after a.1, Above-append j k v before after a.1)

  pub lookup_middle :
      (k : ℕ) (v : V) (before after : List (ℕ × V))
      → IsSorted (before ++ ((k, v) ∷ after))
      → lookup k (before ++ ((k, v) ∷ after)) ≡ some v
  unfolding lookup
  lookup_middle k v [] after a = ground (arith, ==_refl k)
  lookup_middle k v ((j, w) ∷ before) after a =
      ground (arith, lookup_in j k v before after a, Above-append j k v before after a)
