-- ===== src/Common/Exec.antt =====
-- Code that mutates an object and may go wrong: a state monad whose failures are the ways in which
-- the program stops or leaves the language's defined behaviour.
use mathlib.Core.Bool.{Bool, true, false}
use rrpg.Common.Tests.{if◌then◌else◌}

-- `assertion`: an `assert` fails. `exception`: one that nothing catches. `hang`: a loop does not
-- end. The others are undefined behaviour:
-- a move past `end()`, a signed overflow, a read of a variable that nothing has set, and an access
-- outside a block of memory.
pub data Fault : Type 0 where
  assertion invalid_iterator int_overflow uninitialized out_of_bounds exception hang : Fault

pub data Result {ℓ} (A : Type ℓ) : Type ℓ where
  ok : A → Result A
  fault : Fault → Result A

abbrev pub M : Type 0 → Type 0 → Type 0
M S A = S → Result (A × S)

unfoldable pub pure : {S A : Type 0} → A → M S A
pure a s = ok (a, s)

unfoldable pub raise : {S A : Type 0} → Fault → M S A
raise e s = fault e

unfoldable pub get : {S : Type 0} → M S S
get s = ok (s, s)

unfoldable pub modify : {S : Type 0} → (S → S) → M S (Unit {0})
modify f s = ok (tt, f s)

unfoldable pub guard : {S : Type 0} → Bool → Fault → M S (Unit {0})
guard true e s = ok (tt, s)
guard false e s = fault e

-- Opening this opens the five above.
module _ {S A B : Type 0} where
  infixl 5 ◌>>=◌ ◌>>◌
  unfoldable pub ◌>>=◌ : M S A → (A → M S B) → M S B
  unfolding pure raise get modify guard
  ◌>>=◌ m f s = elim (m s) [ fault e ↦ fault e | ok (a, s') ↦ f a s' ]

  abbrev pub ◌>>◌ : M S A → M S B → M S B
  m >> k = m >>= λ _. k

-- If the action ends without a fault, `Q` holds of its result and of what it leaves.
abbrev pub Ends : {S A : Type 0} → Result (A × S) → (A → S → Type 0) → Type 0
Ends (ok (a, s)) Q = Q a s
Ends (fault e) Q = Unit

-- The action keeps `P`, as far as it ends without a fault.
pub record Keeps {S A : Type 0} (P : S → Type 0) (m : M S A) : Type 0 where
  pub at : (s : S) → P s → Ends (m s) (λ _. P)

module _ {S A : Type 0} {P : S → Type 0} where
  pub Keeps-pure : (a : A) → Keeps P (pure a)
  unfolding pure
  Keeps-pure a = record { at = λ s h. h }

  pub Keeps-raise : (e : Fault) → Keeps P (raise {A = A} e)
  unfolding raise
  Keeps-raise e = record { at = λ s h. tt }

  pub Keeps-if : (b : Bool) (m n : M S A) → Keeps P m → Keeps P n → Keeps P (if b then m else n)
  Keeps-if true m n km kn = km
  Keeps-if false m n km kn = kn

module _ {S : Type 0} {P : S → Type 0} where
  pub Keeps-guard : (b : Bool) (e : Fault) → Keeps P (guard b e)
  unfolding guard
  Keeps-guard true e = record { at = λ s h. h }
  Keeps-guard false e = record { at = λ s h. tt }

  pub Keeps-modify : (f : S → S) → ((s : S) → P s → P (f s)) → Keeps P (modify f)
  unfolding modify
  Keeps-modify f h = record { at = h }

  pub Keeps-get : Keeps P get
  unfolding get
  Keeps-get = record { at = λ s h. h }

module _ {S A B : Type 0} {P : S → Type 0} where
  pub Ends-bind :
      (r : Result (A × S)) (f : A → M S B)
      → Ends r (λ _. P)
      → ((a : A) → Keeps P (f a))
      → Ends (elim r [ fault e ↦ fault e | ok (a, s') ↦ f a s' ]) (λ _. P)
  Ends-bind (ok (a, s)) f h k = (k a).at s h
  Ends-bind (fault e) f h k = tt

  pub Keeps-bind :
      (m : M S A) (f : A → M S B) → Keeps P m → ((a : A) → Keeps P (f a)) → Keeps P (m >>= f)
  unfolding ◌>>=◌
  Keeps-bind m f km kf = record { at = λ s h. Ends-bind (m s) f (km.at s h) kf }

pub ruleset keeps_rules = (Keeps-pure, Keeps-raise, Keeps-if, Keeps-guard, Keeps-get, Keeps-bind)
