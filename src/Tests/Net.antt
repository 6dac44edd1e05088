-- ===== src/Tests/Net.antt =====
-- A concrete network: bytes and ints by their bits, texts a character at a time. It meets the laws
-- that the library assumes of RakNet.
use mathlib.Core.List.{append_assoc, append-nil}
use mathlib.Core.Path.{ap₂}
use rrpg.Common.{
  ℕ, zero, suc, ◌-◌, ◌/◌, ◌^◌, ◌<◌, ◌≤◌, ◌==◌, ltb, if◌then◌else◌, Bool, true, false, List, [], ◌∷◌,
  ◌++◌, Option, none, some, ◌≡◌, refl, sym, ap, ◌∙◌, inl, inr, length, length-append, drop, take,
  take_all, arith, Option-cases, ℤ, pos, negsuc, fits_int32, Chars, codes,
}
use rrpg.RakNet.{Bits, RakNet, RakNetLaws, IsCString}
use rrpg.Tests.Bits.{
  is_odd, bits_of, value, split, split-append, value-bits_of, read_bits, read_bits_lem,
  read_bits-lt, split-some, split-none, bits_of-value, bits_of-value_exact, length-bits_of,
}

unfoldable pub to_word : ℤ → ℕ
to_word (pos n) = n
to_word (negsuc n) = 4294967295 - n

unfoldable pub of_word : ℕ → ℤ
of_word u = if ltb u 2147483648 then pos u else negsuc (4294967295 - u)

of_word-to_word : (z : ℤ) → fits_int32 z ≡ true → of_word (to_word z) ≡ z
unfolding to_word of_word
of_word-to_word (pos n) h = ground arith
of_word-to_word (negsuc n) h = ground arith

to_word-lt : (z : ℤ) → fits_int32 z ≡ true → to_word z < 2 ^ 32
unfolding to_word
to_word-lt (pos n) h = ground arith
to_word-lt (negsuc n) h = omega arith

unfoldable pub read_int : Bits → Option (ℤ × Bits)
read_int bits = elim (read_bits 32 bits) [ none ↦ none | some (u, rest) ↦ some (of_word u, rest) ]

read_int-int :
    (z : ℤ) (rest : Bits)
    → fits_int32 z ≡ true
    → read_int (bits_of 32 (to_word z) ++ rest) ≡ some (z, rest)
unfolding read_int
read_int-int z rest h =
    rw (read_bits_lem 32 (to_word z) rest (to_word-lt z h), read_int) (rw (of_word-to_word z h))

unfoldable pub read_bool : Bits → Option (Bool × Bits)
read_bool [] = none
read_bool (b ∷ rest) = some (b, rest)

-- A set bit announces a character, a clear one the end.
unfoldable pub encode : Chars → Bits
encode [] = false ∷ []
encode (c ∷ cs) = true ∷ bits_of 8 c ++ encode cs

abbrev cons_text : ℕ → Chars × Bits → Chars × Bits
cons_text c (cs, rest) = (c ∷ cs, rest)

unfoldable pub decode : ℕ → Bits → Chars × Bits
decode left [] = ([], [])
decode zero (false ∷ rest) = ([], rest)
decode zero (true ∷ rest) = ([], true ∷ rest)
decode (suc left) (false ∷ rest) = ([], rest)
decode (suc left) (true ∷ rest) = elim (read_bits 8 rest) [
  | none ↦ ([], [])
  | some (c, rest') ↦
      (let more = decode left rest' in
        elim (c == 0) [ true ↦ ([], rest') | false ↦ cons_text c more ])
]

decode-encode :
    (left : ℕ) (text : Chars) (rest : Bits)
    → IsCString text
    → length text ≤ left
    → decode left (encode text ++ rest) ≡ (text, rest)
unfolding decode encode
decode-encode zero [] rest t h = refl
decode-encode (suc left) [] rest t h = refl
decode-encode zero (c ∷ cs) rest t h = absurd (omega arith)
decode-encode (suc left) (c ∷ cs) rest t h = ground (
  arith,
  append_assoc (bits_of 8 c) (encode cs) rest,
  read_bits_lem 8 c (encode cs ++ rest) (omega arith),
  decode-encode left cs rest t.1 (omega arith),
)

length-decode : (left : ℕ) (bits : Bits) → length (decode left bits).0 ≤ left
unfolding decode
length-decode zero [] = omega arith
length-decode (suc left) [] = omega arith
length-decode zero (false ∷ rest) = omega arith
length-decode zero (true ∷ rest) = omega arith
length-decode (suc left) (false ∷ rest) = omega arith
length-decode (suc left) (true ∷ rest) = elim (Option-cases (read_bits 8 rest)) [
  | inl failed ↦ rw (failed, decode) (omega arith)
  | inr ((c, rest'), read) ↦ ground (arith, length-decode left rest')
]

decode-IsCString : (left : ℕ) (bits : Bits) → IsCString (decode left bits).0
unfolding decode
decode-IsCString zero [] = tt
decode-IsCString (suc left) [] = tt
decode-IsCString zero (false ∷ rest) = tt
decode-IsCString zero (true ∷ rest) = tt
decode-IsCString (suc left) (false ∷ rest) = tt
decode-IsCString (suc left) (true ∷ rest) = elim (Option-cases (read_bits 8 rest)) [
  | inl failed ↦ rw (failed, decode) tt
  | inr ((c, rest'), read) ↦
      ground (arith, decode-IsCString left rest', read_bits-lt 8 rest c rest' read)
]

unfoldable pub to_bytes_fuel : ℕ → Bits → List ℕ
to_bytes_fuel zero bits = []
to_bytes_fuel (suc fuel) [] = []
to_bytes_fuel (suc fuel) (b ∷ bits) = elim (split 8 (b ∷ bits)) [
  | none ↦ value (b ∷ bits) ∷ []
  | some (taken, rest) ↦ value taken ∷ to_bytes_fuel fuel rest
]

unfoldable pub from_bytes : List ℕ → Bits
from_bytes [] = []
from_bytes (b ∷ bytes) = bits_of 8 b ++ from_bytes bytes

padding :
    (fuel : ℕ) (bits : Bits)
    → length bits ≤ fuel
    → (pad : Bits) × (from_bytes (to_bytes_fuel fuel bits) ≡ bits ++ pad)
unfolding from_bytes to_bytes_fuel
padding zero [] h = ([], refl)
padding zero (b ∷ bits) h = absurd (omega arith)
padding (suc fuel) [] h = ([], refl)
padding (suc fuel) (b ∷ bits) h = elim (Option-cases (split 8 (b ∷ bits))) [
  | inl short ↦
      let (pad, back) = bits_of-value 8 (b ∷ bits) (omega (arith, split-none 8 (b ∷ bits) short)) in
      (pad, rw (short, to_bytes_fuel) (simp append-nil back))
  | inr ((taken, rest), cut) ↦
      let (whole, long) = split-some 8 (b ∷ bits) taken rest cut in
      let (pad, back) =
        padding fuel rest (omega (arith, ap length whole, length-append taken rest)) in
      let byte : bits_of 8 (value taken) ≡ taken =
        ap (λ k. bits_of k (value taken)) (sym long) ∙ bits_of-value_exact taken in
      (
        pad,
        rw (cut, to_bytes_fuel)
            (ap₂ ◌++◌ byte back
              ∙ sym (append_assoc taken rest pad)
              ∙ ap (λ w. w ++ pad) (sym whole)),
      )
]

byte_taken :
    (fuel : ℕ) (b : Bool) (taken rest : Bits)
    → length (b ∷ taken) ≡ 8
    → to_bytes_fuel (suc fuel) ((b ∷ taken) ++ rest) ≡ value (b ∷ taken) ∷ to_bytes_fuel fuel rest
unfolding to_bytes_fuel
byte_taken fuel b taken rest long =
    let cut : split 8 ((b ∷ taken) ++ rest) ≡ some (b ∷ taken, rest) =
      ap (λ k. split k ((b ∷ taken) ++ rest)) (sym long) ∙ split-append (b ∷ taken) rest in
    rw (cut, to_bytes_fuel)

bits_of_cons : (b : ℕ) → bits_of 8 b ≡ is_odd b ∷ bits_of 7 (b / 2)
unfolding bits_of
bits_of_cons b = refl

first_byte :
    (b : ℕ) (rest : Bits)
    → b < 256
    → (tail : List ℕ) × (to_bytes_fuel (length (bits_of 8 b ++ rest)) (bits_of 8 b ++ rest)
        ≡ b ∷ tail)
first_byte b rest h =
    let others : Bits = bits_of 7 (b / 2) in
    (
      to_bytes_fuel (length (others ++ rest)) rest,
      ap (λ bits. to_bytes_fuel (length (bits ++ rest)) (bits ++ rest)) (bits_of_cons b)
          ∙ byte_taken (length (others ++ rest)) (is_odd b) others rest
              (ap suc (length-bits_of 7 (b / 2)))
          ∙ ap (λ v. v ∷ to_bytes_fuel (length (others ++ rest)) rest)
              (ap value (sym (bits_of_cons b)) ∙ value-bits_of 8 b h),
    )

abbrev pub to_bytes : Bits → List ℕ
to_bytes bits = to_bytes_fuel (length bits) bits

drop-append : (xs ys : Bits) → drop (length xs) (xs ++ ys) ≡ ys
drop-append [] ys = refl
drop-append (x ∷ xs) ys = drop-append xs ys

drop_bits : (k n : ℕ) (rest : Bits) → drop k (bits_of k n ++ rest) ≡ rest
drop_bits k n rest =
    ap (λ j. drop j (bits_of k n ++ rest)) (sym (length-bits_of k n))
    ∙ drop-append (bits_of k n) rest

drop_two_bytes : (b c : ℕ) (rest : Bits) → drop 16 (bits_of 8 b ++ (bits_of 8 c ++ rest)) ≡ rest
drop_two_bytes b c rest =
    let both : Bits = bits_of 8 b ++ bits_of 8 c in
    let long : length both ≡ 16 =
      omega (
        arith,
        length-append (bits_of 8 b) (bits_of 8 c),
        length-bits_of 8 b,
        length-bits_of 8 c,
      ) in
    ap (drop 16) (sym (append_assoc (bits_of 8 b) (bits_of 8 c) rest))
    ∙ ap (λ j. drop j (both ++ rest)) (sym long)
    ∙ drop-append both rest

-- The network of the tests: GUIDs, addresses and ports are themselves, and nothing fails.
unfoldable pub test_net : RakNet
test_net = record {
  byte_bits = bits_of 8;
  int_bits = λ z. bits_of 32 (to_word z);
  bool_bits = λ b. b ∷ [];
  read_byte = read_bits 8;
  read_int = read_int;
  read_bool = read_bool;
  ignore_bits = drop;
  encode_string = λ text limit. encode (take (limit - 1) text);
  decode_string = λ size bits. decode (size - 1) bits;
  to_bytes = to_bytes;
  from_bytes = from_bytes;
  to_uint32 = λ g. g;
  address_from_index = λ i. i;
  is_port_in_use = λ port. ltb port 6000;
  startup_succeeds = λ port. true;
  connect_succeeds = λ address port. true;
  address_text = λ a. codes "client";
  local_ip = codes "127.0.0.1";
}

pub test_laws : RakNetLaws test_net
unfolding test_net
test_laws = record {
  read_byte_lem = λ b rest h. read_bits_lem 8 b rest h;
  read_byte-lt = λ bits b rest h. read_bits-lt 8 bits b rest h;
  read_int_lem = read_int-int;
  read_bool_lem = λ b rest. unfold read_bool in refl;
  ignore_byte = λ b rest h. drop_bits 8 b rest;
  ignore_two_bytes = λ b c rest h k. drop_two_bytes b c rest;
  decode-encode = λ text limit size rest t h k.
      rw (take_all (limit - 1) text (omega arith))
        (decode-encode (size - 1) text rest t (omega arith));
  length-decode = λ size bits h. omega (arith, length-decode (size - 1) bits);
  decode-IsCString = λ size bits. decode-IsCString (size - 1) bits;
  padding = λ bits. padding (length bits) bits (omega arith);
  first_byte = first_byte;
}
