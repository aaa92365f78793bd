-- ===== src/Strconv.antt =====
-- The functions of Go's `strconv` and `encoding/hex` packages that the program calls, in base 10.
pub mod Itoa
use learning_garden_server.Prelude.{
  ℕ, suc, ◌+◌, ◌-◌, ◌*◌, ◌^◌, ◌/◌, ◌%◌, ◌≡◌, refl, ◌&&◌, Option, none, some, List, [], ◌∷◌, ltb,
  leb, if◌then◌else◌, nat_eq, ◌==◌, Text, codes,
}
use learning_garden_server.Prelude.Int.{ℤ, pos, negsuc}

-- The value of a run of digits; `none` is the syntax error.
unfoldable pub digits : ℕ → Text → Option ℕ
digits n [] = some n
digits n (c ∷ s) =
    let rest = digits (n * 10 + (c - b'0')) s in if leb b'0' c && leb c b'9' then rest else none

abbrev pub at_most : ℕ → Option ℕ → Option ℕ
at_most limit none = none
at_most limit (some n) = if leb n limit then some n else none

-- `strconv.ParseUint(s, 10, bits)`: neither an empty text nor a value past the bits.
unfoldable pub parse_uint : ℕ → Text → Option ℕ
unfolding digits
parse_uint bits [] = none
parse_uint bits (c ∷ s) = at_most (2 ^ bits - 1) (digits 0 (c ∷ s))

abbrev negated : Option ℕ → Option ℤ
negated none = none
negated (some n) = some (if n == 0 then pos 0 else negsuc (n - 1))

abbrev positive : Option ℕ → Option ℤ
positive none = none
positive (some n) = some (pos n)

-- `strconv.ParseInt(s, 10, 64)`, which `strconv.Atoi` agrees with where an int has 64 bits.
unfoldable pub parse_int : Text → Option ℤ
unfolding parse_uint
parse_int [] = none
parse_int (c ∷ s) =
    if c == b'-'
    then negated (at_most (2 ^ 63) (parse_uint 64 s))
    else positive (at_most (2 ^ 63 - 1) (parse_uint 64 (if c == b'+' then s else c ∷ s)))

-- The digits of a number before those in `tail`; the fuel bounds how many.
unfoldable pub itoa_on : (fuel n : ℕ) → (tail : Text) → Text
itoa_on ℕ.zero n tail = tail
itoa_on (suc fuel) n tail =
    let rest = itoa_on fuel (n / 10) ((b'0' + n % 10) ∷ tail) in
    if ltb n 10 then (b'0' + n) ∷ tail else rest

-- `strconv.Itoa` of a number that is not negative
unfoldable pub itoa : ℕ → Text
unfolding itoa_on
itoa n = itoa_on (suc n) n []

-- A digit of `hex.EncodeToString`.
unfoldable pub hex_digit : ℕ → ℕ
hex_digit n = if ltb n 10 then b'0' + n else b'a' + (n - 10)

-- `hex.EncodeToString` of bytes
unfoldable pub hex_encode : List ℕ → Text
unfolding hex_digit
hex_encode [] = []
hex_encode (b ∷ bs) = hex_digit (b / 16) ∷ hex_digit (b % 16) ∷ hex_encode bs

parse_int_tests :
    (parse_int (codes "-42") ≡ some (negsuc 41))
    × (parse_int (codes "+7") ≡ some (pos 7))
    × (parse_int (codes "9223372036854775808") ≡ none)
    × (parse_int (codes "12a") ≡ none)
    × (parse_uint 8 (codes "256") ≡ none)
unfolding parse_int parse_uint
parse_int_tests = (refl, refl, refl, refl, refl)

hex_encode_test : hex_encode (0 ∷ 175 ∷ []) ≡ codes "00af"
unfolding hex_encode
hex_encode_test = refl
