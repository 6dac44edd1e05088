-- ===== src/Tests/Bits.antt =====
-- Numbers as bits, lowest first, for the concrete network of the tests.
use native.Mathlib.Nat.{pow-suc}
use rrpg.Common.{
  ℕ, zero, suc, ◌+◌, ◌*◌, ◌/◌, ◌%◌, ◌^◌, ◌<◌, ◌≤◌, ◌==◌, Bool, true, false, [], ◌∷◌, ◌++◌, Option,
  none, some, ◌≡◌, refl, sym, ap, ◌∙◌, inl, inr, length, arith, Option-cases,
}
use rrpg.RakNet.{Bits}

abbrev pub bit_value : Bool → ℕ
bit_value true = 1
bit_value false = 0

abbrev pub is_odd : ℕ → Bool
is_odd n = n % 2 == 1

unfoldable pub bits_of : ℕ → ℕ → Bits
bits_of zero n = []
bits_of (suc k) n = is_odd n ∷ bits_of k (n / 2)

unfoldable pub value : Bits → ℕ
value [] = 0
value (b ∷ bits) = bit_value b + 2 * value bits

unfoldable pub split : ℕ → Bits → Option (Bits × Bits)
split zero bits = some ([], bits)
split (suc k) [] = none
split (suc k) (b ∷ bits) = elim (split k bits) [
  | none ↦ none
  | some (taken, rest) ↦ some (b ∷ taken, rest)
]

unfoldable pub read_bits : ℕ → Bits → Option (ℕ × Bits)
read_bits k bits = elim (split k bits) [
  | none ↦ none
  | some (taken, rest) ↦ some (value taken, rest)
]

pub value-bits_of : (k n : ℕ) → n < 2 ^ k → value (bits_of k n) ≡ n
unfolding value bits_of
value-bits_of zero n h = omega arith
value-bits_of (suc k) n h =
    let half : n / 2 < 2 ^ k = omega (arith, pow-suc 2 k) in
    ground (arith, value-bits_of k (n / 2) half)

pub split-append : (taken rest : Bits) → split (length taken) (taken ++ rest) ≡ some (taken, rest)
unfolding split
split-append [] rest = refl
split-append (b ∷ taken) rest = rw (split-append taken rest)

pub length-bits_of : (k n : ℕ) → length (bits_of k n) ≡ k
unfolding bits_of
length-bits_of zero n = refl
length-bits_of (suc k) n = ap suc (length-bits_of k (n / 2))

pub read_bits_lem :
    (k n : ℕ) (rest : Bits) → n < 2 ^ k → read_bits k (bits_of k n ++ rest) ≡ some (n, rest)
unfolding read_bits
read_bits_lem k n rest h =
    let cut : split k (bits_of k n ++ rest) ≡ some (bits_of k n, rest) =
      ap (λ j. split j (bits_of k n ++ rest)) (sym (length-bits_of k n))
      ∙ split-append (bits_of k n) rest in
    rw (cut, read_bits) (rw (value-bits_of k n h))

pub value-lt : (bits : Bits) → value bits < 2 ^ length bits
unfolding value
value-lt [] = omega arith
value-lt (true ∷ bits) = omega (arith, value-lt bits, pow-suc 2 (length bits))
value-lt (false ∷ bits) = omega (arith, value-lt bits, pow-suc 2 (length bits))

pub split-some :
    (k : ℕ) (bits taken rest : Bits)
    → split k bits ≡ some (taken, rest)
    → (bits ≡ taken ++ rest) × (length taken ≡ k)
unfolding split
split-some zero bits taken rest h = (ground arith, ground arith)
split-some (suc k) [] taken rest h = ground arith
split-some (suc k) (b ∷ bits) taken rest h = elim (Option-cases (split k bits)) [
  | inl failed ↦ ground arith
  | inr ((t, r), cut) ↦
      let (whole, long) = split-some k bits t r cut in
      let tail : taken ≡ b ∷ t = ground arith in
      let same : rest ≡ r = ground arith in
      (rw (tail, same) (ap (◌∷◌ b) whole), rw tail (ap suc long))
]

pub read_bits-lt :
    (k : ℕ) (bits : Bits) (n : ℕ) (rest : Bits) → read_bits k bits ≡ some (n, rest) → n < 2 ^ k
unfolding read_bits
read_bits-lt k bits n rest h = elim (Option-cases (split k bits)) [
  | inl failed ↦ ground arith
  | inr ((taken, r), cut) ↦
      let (whole, long) = split-some k bits taken r cut in
      let same : n ≡ value taken = ground arith in rw (same, ← long) (value-lt taken)
]

pub split-none : (k : ℕ) (bits : Bits) → split k bits ≡ none → length bits < k
unfolding split
split-none zero bits h = ground arith
split-none (suc k) [] h = omega arith
split-none (suc k) (b ∷ bits) h = elim (Option-cases (split k bits)) [
  | inl failed ↦ omega (arith, split-none k bits failed)
  | inr ((t, r), cut) ↦ ground arith
]

is_odd-value : (b : Bool) (n : ℕ) → is_odd (bit_value b + 2 * n) ≡ b
is_odd-value true n = ground arith
is_odd-value false n = ground arith

half-value : (b : Bool) (n : ℕ) → (bit_value b + 2 * n) / 2 ≡ n
half-value true n = omega arith
half-value false n = omega arith

-- The bits come back, followed by zeros.
pub bits_of-value :
    (k : ℕ) (bits : Bits) → length bits ≤ k → (pad : Bits) × (bits_of k (value bits) ≡ bits ++ pad)
unfolding bits_of value
bits_of-value zero [] h = ([], refl)
bits_of-value zero (b ∷ bits) h = absurd (omega arith)
bits_of-value (suc k) [] h = (bits_of (suc k) 0, refl)
bits_of-value (suc k) (b ∷ bits) h =
    let (pad, back) = bits_of-value k bits (omega arith) in
    (pad, rw (is_odd-value b (value bits), half-value b (value bits)) (ap (◌∷◌ b) back))

pub bits_of-value_exact : (bits : Bits) → bits_of (length bits) (value bits) ≡ bits
unfolding bits_of value
bits_of-value_exact [] = refl
bits_of-value_exact (b ∷ bits) =
    rw (is_odd-value b (value bits), half-value b (value bits))
      (ap (◌∷◌ b) (bits_of-value_exact bits))
