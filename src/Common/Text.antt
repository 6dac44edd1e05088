-- ===== src/Common/Text.antt =====
-- Characters as numbers below 256, C strings, and the parts of `printf`, `tolower` and
-- `istringstream` that the program uses.
use Prim.Native.Nat.{ℕ, zero, suc, ◌+◌, ◌-◌, ◌/◌, ◌%◌}
use Prim.Native.Char.{code}
use Prim.Native.String.{String}
use mathlib.Core.Path.{◌≡◌, refl}
use mathlib.Core.Logic.{◌↔◌, inl, inr}
use mathlib.Core.Bool.{Bool, true, false, ◌&&◌, ◌||◌}
use mathlib.Core.List.{List, [], ◌∷◌, ◌++◌}
use mathlib.Core.Option.{Option, none, some}
use native.Mathlib.Omega.{arith}
use rrpg.Common.Tests.{ltb, leb, ◌==◌, if◌then◌else◌, Bool-cases}
use rrpg.Common.Lists.{take, All, All-append}
use rrpg.Common.Int.{ℤ, pos, negsuc}

-- A C string without its terminator, or a `std::string`.
abbrev pub Chars : Type 0
Chars = List ℕ

abbrev pub codes : String → Chars
codes String.[] = []
codes (String.◌∷◌ c s) = code c ∷ codes s

-- `==` of two strings.
abbrev pub chars_eq : Chars → Chars → Bool
chars_eq [] [] = true
chars_eq [] (_ ∷ _) = false
chars_eq (_ ∷ _) [] = false
chars_eq (x ∷ xs) (y ∷ ys) = x == y && chars_eq xs ys

pub chars_eq_sound : (xs ys : Chars) → chars_eq xs ys ≡ true → xs ≡ ys
chars_eq_sound [] [] h = refl
chars_eq_sound [] (y ∷ ys) h = ground arith
chars_eq_sound (x ∷ xs) [] h = ground arith
chars_eq_sound (x ∷ xs) (y ∷ ys) h = ground (arith, chars_eq_sound xs ys)

pub chars_eq_refl : (xs : Chars) → chars_eq xs xs ≡ true
chars_eq_refl [] = refl
chars_eq_refl (x ∷ xs) = ground (arith, chars_eq_refl xs)

pub chars_eq_comm : (xs ys : Chars) → chars_eq xs ys ≡ chars_eq ys xs
chars_eq_comm [] [] = refl
chars_eq_comm [] (y ∷ ys) = refl
chars_eq_comm (x ∷ xs) [] = refl
chars_eq_comm (x ∷ xs) (y ∷ ys) = ground (arith, chars_eq_comm xs ys)

pub chars_eq_iff : (xs ys : Chars) → (chars_eq xs ys ≡ true) ↔ (xs ≡ ys)
chars_eq_iff xs ys = (chars_eq_sound xs ys, λ e. rw e (chars_eq_refl ys))

-- `snprintf(buffer, n, ...)` keeps the first n - 1 characters.
abbrev pub snprintf : ℕ → Chars → Chars
snprintf n text = take (n - 1) text

digits_fuel : ℕ → ℕ → Chars → Chars
digits_fuel zero n acc = acc
digits_fuel (suc f) n acc =
    let rest = digits_fuel f (n / 10) ((48 + n % 10) ∷ acc) in
    if ltb n 10 then (48 + n) ∷ acc else rest

-- `%i`
unfoldable pub show_int : ℤ → Chars
unfolding digits_fuel
show_int (pos n) = digits_fuel (suc n) n []
show_int (negsuc n) = 45 ∷ digits_fuel (suc (suc n)) (suc n) []

-- `::tolower` in the "C" locale.
abbrev pub to_lower : ℕ → ℕ
to_lower c = if leb 65 c && leb c 90 then c + 32 else c

abbrev pub is_space : ℕ → Bool
is_space c = c == 32 || (leb 9 c && leb c 13)

-- The characters up to the first terminator; `none` if the block of memory holds none.
abbrev pub c_string : List ℕ → Option Chars
c_string [] = none
c_string (zero ∷ bytes) = some []
c_string (suc c ∷ bytes) = elim (c_string bytes) [ none ↦ none | some rest ↦ some (suc c ∷ rest) ]

push_word : Chars → List Chars → List Chars
push_word [] words = words
push_word (c ∷ cs) words = (c ∷ cs) ∷ words

words_from : Chars → Chars → List Chars
words_from word [] = push_word word []
words_from word (c ∷ cs) =
    let next = words_from [] cs in
    let same = words_from (word ++ c ∷ []) cs in if is_space c then push_word word next else same

-- `std::vector<std::string>{ std::istream_iterator<std::string>(iss), {} }`
unfoldable pub split_words : Chars → List Chars
unfolding words_from push_word
split_words = words_from []

show_int_tests :
    (show_int (pos 0) ≡ codes "0")
    × (show_int (pos 2147) ≡ codes "2147")
    × (show_int (negsuc 11) ≡ codes "-12")
unfolding show_int
show_int_tests = (refl, refl, refl)

split_words_test : split_words (codes "  .heal  bob ") ≡ codes ".heal" ∷ codes "bob" ∷ []
unfolding split_words
split_words_test = refl

push_word-All :
    (P : ℕ → Type 0) (word : Chars) (words : List Chars)
    → All P word
    → All (All P) words
    → All (All P) (push_word word words)
unfolding push_word
push_word-All P [] words h k = k
push_word-All P (c ∷ cs) words h k = (h, k)

words_from-All :
    (P : ℕ → Type 0) (word text : Chars)
    → All P word
    → All P text
    → All (All P) (words_from word text)
unfolding words_from
words_from-All P word [] h k = push_word-All P word [] h tt
words_from-All P word (c ∷ cs) h k = elim (Bool-cases (is_space c)) [
  | inl space ↦ rw space (push_word-All P word (words_from [] cs) h (words_from-All P [] cs tt k.1))
  | inr letter ↦
      rw letter (words_from-All P (word ++ c ∷ []) cs (All-append P word (c ∷ []) h (k.0, tt)) k.1)
]

-- The words have no other characters than the text.
pub split_words-All : (P : ℕ → Type 0) (text : Chars) → All P text → All (All P) (split_words text)
unfolding split_words
split_words-All P text h = words_from-All P [] text tt h

pub to_lower_idem : (c : ℕ) → to_lower (to_lower c) ≡ to_lower c
to_lower_idem c = ground arith
