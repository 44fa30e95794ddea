-- ===== src/Text/Number.antt =====
-- `atoi` and the decimal print of an `int`. The value of the digits is taken as it is: C++ leaves a
-- value outside the `int` range undefined, and the program's ports and codes are far inside.
use yatb.Prelude.{
  ℕ, zero, suc, ◌+◌, ◌-◌, ◌*◌, ◌/◌, ◌%◌, Bool, true, false, ◌&&◌, ◌||◌, [], ◌∷◌, ltb, leb, ◌==◌,
  if◌then◌else◌, ◌≤◌, ◌<◌, ◌≡◌, refl, ◌∙◌, ap, arith, ltb→lt, All, Bool-cases, inl, inr, ℤ, pos,
  neg,
}
use yatb.Text.Basic.{Bytes, is_empty}

unfoldable pub is_digit : ℕ → Bool
is_digit c = leb b'0' c && leb c b'9'

unfoldable pub is_space : ℕ → Bool
is_space c = c == 32 || leb 9 c && leb c 13

-- The value of the leading digits behind `n`.
unfoldable pub digits_value : ℕ → Bytes → ℕ
unfolding is_digit
digits_value n [] = n
digits_value n (c ∷ s) =
    let rest = digits_value (n * 10 + (c - b'0')) s in if is_digit c then rest else n

unfoldable pub skip_space : Bytes → Bytes
unfolding is_space
skip_space [] = []
skip_space (c ∷ s) = if is_space c then skip_space s else c ∷ s

unfoldable pub signed_value : Bytes → ℤ
unfolding digits_value
signed_value [] = pos 0
signed_value (c ∷ s) =
    if c == b'-'
    then neg (digits_value 0 s)
    else if c == b'+'
    then pos (digits_value 0 s)
    else pos (digits_value 0 (c ∷ s))

-- `atoi(s.c_str())`.
unfoldable pub atoi : Bytes → ℤ
unfolding skip_space signed_value
atoi s = signed_value (skip_space s)

-- A text that begins with a digit.
abbrev pub BeginsWithDigit : Bytes → Type 0
BeginsWithDigit [] = ⊥
BeginsWithDigit (c ∷ s) = (b'0' ≤ c) × (c ≤ b'9')

atoi_digits : (s : Bytes) → BeginsWithDigit s → atoi s ≡ pos (digits_value 0 s)
unfolding atoi
atoi_digits [] h = elim h [ ]
atoi_digits (c ∷ s) h = ground arith

-- The decimal print of a number, on fuel: a number is above its count of digits.
print_loop : ℕ → ℕ → Bytes → Bytes
print_loop zero n out = out
print_loop (suc fuel) n out =
    let more = print_loop fuel (n / 10) ((b'0' + n % 10) ∷ out) in
    if ltb n 10 then (b'0' + n) ∷ out else more

unfoldable pub print : ℕ → Bytes
unfolding print_loop
print n = print_loop (suc n) n []

print_loop_begins : (fuel n : ℕ) (out : Bytes) → n < fuel → BeginsWithDigit (print_loop fuel n out)
unfolding print_loop
print_loop_begins zero n out h = elim h [ ]
print_loop_begins (suc fuel) n out h = elim (Bool-cases (ltb n 10)) [
  | inl e ↦ rw e (omega (arith, ltb→lt n 10 e))
  | inr e ↦ rw e (print_loop_begins fuel (n / 10) ((b'0' + n % 10) ∷ out) (ground arith))
]

last_digit :
    (n : ℕ) (out : Bytes) → digits_value (n / 10) ((b'0' + n % 10) ∷ out) ≡ digits_value n out
unfolding digits_value
last_digit n out =
    let whole : n / 10 * 10 + (b'0' + n % 10 - b'0') ≡ n = omega arith in
    let digit : is_digit (b'0' + n % 10) ≡ true = unfold is_digit in ground arith in
    rw (digit, whole) refl

-- Every byte is a digit.
abbrev pub AreDigits : Bytes → Type 0
AreDigits = All (λ c. (b'0' ≤ c) × (c ≤ b'9'))

print_loop-AreDigits :
    (fuel n : ℕ) (out : Bytes) → AreDigits out → AreDigits (print_loop fuel n out)
unfolding print_loop
print_loop-AreDigits zero n out h = h
print_loop-AreDigits (suc fuel) n out h = elim (Bool-cases (ltb n 10)) [
  | inl e ↦ rw e ((omega arith, omega (arith, ltb→lt n 10 e)), h)
  | inr e ↦ rw e (print_loop-AreDigits fuel (n / 10) ((b'0' + n % 10) ∷ out) ((omega arith), h))
]

-- A print is made of digits, and of one at least.
pub print-AreDigits : (n : ℕ) → AreDigits (print n) × (is_empty (print n) ≡ false)
unfolding print
print-AreDigits n = (
  print_loop-AreDigits (suc n) n [] tt,
  not_empty (print_loop (suc n) n []) (print_loop_begins (suc n) n [] (omega arith)),
)
  where
    not_empty : (s : Bytes) → BeginsWithDigit s → is_empty s ≡ false
    not_empty [] h = elim h [ ]
    not_empty (c ∷ s) h = refl

digits_value-print_loop :
    (fuel n : ℕ) (out : Bytes)
    → n < fuel
    → digits_value 0 (print_loop fuel n out) ≡ digits_value n out
unfolding print_loop
digits_value-print_loop zero n out h = elim h [ ]
digits_value-print_loop (suc fuel) n out h = elim (Bool-cases (ltb n 10)) [
  | inl e ↦ rw e (unfold digits_value in ground arith)
  | inr e ↦ rw e (
      digits_value-print_loop fuel (n / 10) ((b'0' + n % 10) ∷ out) (ground arith)
      ∙ last_digit n out)
]

-- A number is read back from its decimal print.
pub atoi-print : (n : ℕ) → atoi (print n) ≡ pos n
unfolding print digits_value
atoi-print n =
    atoi_digits (print_loop (suc n) n []) (print_loop_begins (suc n) n [] (omega arith))
    ∙ ap pos (digits_value-print_loop (suc n) n [] (omega arith))
