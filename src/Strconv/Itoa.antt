-- ===== src/Strconv/Itoa.antt =====
-- `strconv.Itoa` and `strconv.Atoi`, with which services/api/internal/httpapi writes a status as a
-- label and reads a limit.
use learning_garden_server.Prelude.{
  ℕ, suc, ◌+◌, ◌-◌, ◌*◌, ◌^◌, ◌/◌, ◌%◌, ◌<◌, ◌≡◌, refl, some, [], ◌∷◌, arith, Text, ltb, ap, sym,
  ◌∙◌, Bool-cases, inl, inr,
}
use learning_garden_server.Prelude.Int.{pos}
use learning_garden_server.Strconv.{digits, itoa_on, itoa, parse_uint, parse_int}

digits_one :
    (n d : ℕ) (tail : Text) → d < 10 → digits n ((b'0' + d) ∷ tail) ≡ digits (n * 10 + d) tail
unfolding digits
digits_one n d tail h = let back : (b'0' + d) - b'0' ≡ d = omega arith in rw back (ground arith)

zero_times : (n : ℕ) → 0 * 10 + n ≡ n
zero_times n = omega arith

-- With fuel past the number, its digits are read as the number.
digits-itoa_on :
    (fuel n : ℕ) (tail : Text) → n < fuel → digits 0 (itoa_on fuel n tail) ≡ digits n tail
unfolding itoa_on
digits-itoa_on ℕ.zero n tail h = absurd (omega arith)
digits-itoa_on (suc fuel) n tail h = elim (Bool-cases (ltb n 10)) [
  | inl last ↦ rw last (digits_one 0 n tail (ground arith) ∙ ap (λ k. digits k tail) (zero_times n))
  | inr more ↦ rw more (
      digits-itoa_on fuel (n / 10) ((b'0' + n % 10) ∷ tail) (ground arith)
      ∙ digits_one (n / 10) (n % 10) tail (omega arith)
      ∙ ap (λ k. digits k tail) (omega arith))
]

-- The first character is a digit.
abbrev StartsWithDigit : Text → Type 0
StartsWithDigit s = (d : ℕ) × (rest : Text) × (d < 10) × (s ≡ (b'0' + d) ∷ rest)

itoa_on-StartsWithDigit :
    (fuel n : ℕ) (tail : Text) → n < fuel → StartsWithDigit (itoa_on fuel n tail)
unfolding itoa_on
itoa_on-StartsWithDigit ℕ.zero n tail h = absurd (omega arith)
itoa_on-StartsWithDigit (suc fuel) n tail h = elim (Bool-cases (ltb n 10)) [
  | inl last ↦ rw last (n, tail, ground arith, refl)
  | inr more ↦
      rw more (itoa_on-StartsWithDigit fuel (n / 10) ((b'0' + n % 10) ∷ tail) (ground arith))
]

digits-itoa : (n : ℕ) → digits 0 (itoa n) ≡ some n
unfolding itoa digits
digits-itoa n = digits-itoa_on (suc n) n [] (omega arith)

itoa-StartsWithDigit : (n : ℕ) → StartsWithDigit (itoa n)
unfolding itoa
itoa-StartsWithDigit n = itoa_on-StartsWithDigit (suc n) n [] (omega arith)

-- `Atoi` reads back what `Itoa` writes, for numbers that an int of 64 bits holds.
pub parse_int-itoa : (n : ℕ) → n < 2 ^ 63 → parse_int (itoa n) ≡ some (pos n)
unfolding parse_int parse_uint
parse_int-itoa n h =
    let (d, rest, small, e) = itoa-StartsWithDigit n in
    let read : digits 0 ((b'0' + d) ∷ rest) ≡ some n = ap (digits 0) (sym e) ∙ digits-itoa n in
    rw e (ground (arith, read))
