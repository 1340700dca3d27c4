-- ===== src/Base/Decimal.antt =====
-- Decimal numbers as the standard library prints and parses them: `Display` of an unsigned integer,
-- and `str::parse` without the range check, which the callers add.
use axelar_relayer_core.Base.{
  ℕ, zero, suc, ◌+◌, ◌-◌, ◌*◌, ◌/◌, ◌%◌, ◌≤◌, ◌<◌, ◌≡◌, refl, ◌∙◌, ap, Bool, ◌&&◌, Option, none,
  some, [], ◌∷◌, ◌++◌, Text, All, All-append, if◌then◌else◌, ltb, leb, arith, Bool-cases, inl, inr,
}

-- The digits of `n`, on fuel.
unfoldable pub decimal_fuel : ℕ → ℕ → Text
decimal_fuel zero n = []
decimal_fuel (suc f) n =
    let rest = decimal_fuel f (n / 10) in
    if ltb n 10 then (48 + n) ∷ [] else rest ++ (48 + n % 10) ∷ []

-- `n.to_string()`.
unfoldable pub decimal : ℕ → Text
decimal n = decimal_fuel (suc n) n

abbrev pub IsDigit : ℕ → Type 0
IsDigit c = (48 ≤ c) × (c ≤ 57)

abbrev pub is_digit : ℕ → Bool
is_digit c = leb 48 c && leb c 57

-- The value of a run of digits behind an accumulated one.
unfoldable pub parse_from : ℕ → Text → Option ℕ
parse_from acc [] = some acc
parse_from acc (c ∷ cs) =
    let rest = parse_from (acc * 10 + (c - 48)) cs in if is_digit c then rest else none

-- At least one digit.
unfoldable pub parse_digits : Text → Option ℕ
parse_digits [] = none
parse_digits (c ∷ cs) = parse_from 0 (c ∷ cs)

parse_from-concat :
    (acc : ℕ) (xs : Text) (v c : ℕ)
    → parse_from acc xs ≡ some v
    → IsDigit c
    → parse_from acc (xs ++ c ∷ []) ≡ some (v * 10 + (c - 48))
unfolding parse_from
parse_from-concat acc [] v c h d = ground arith
parse_from-concat acc (x ∷ xs) v c h d = elim (Bool-cases (is_digit x)) [
  | inl e ↦ ground (arith, e, parse_from-concat (acc * 10 + (x - 48)) xs v c)
  | inr e ↦ ground (arith, e)
]

decimal_fuel-parse : (f n : ℕ) → n < f → parse_from 0 (decimal_fuel f n) ≡ some n
unfolding decimal_fuel
decimal_fuel-parse zero n h = elim h [ ]
decimal_fuel-parse (suc f) n h = elim (Bool-cases (ltb n 10)) [
  | inl e ↦ rw e (unfold parse_from in ground arith)
  | inr e ↦ rw e (
      parse_from-concat 0 (decimal_fuel f (n / 10)) (n / 10) (48 + n % 10)
        (decimal_fuel-parse f (n / 10) (ground (arith, e))) (omega arith)
      ∙ ap some (omega arith))
]

-- The text is not empty and its digits are digits; only zero starts with the digit 0.
abbrev pub IsNumeral : ℕ → Text → Type 0
IsNumeral n [] = ⊥
IsNumeral n (c ∷ cs) = IsDigit c × All IsDigit cs × (c ≡ 48 → (n ≡ 0) × (cs ≡ []))

IsNumeral-concat :
    (m n d : ℕ) (xs : Text) → 0 < m → d < 10 → IsNumeral m xs → IsNumeral n (xs ++ (48 + d) ∷ [])
IsNumeral-concat m n d [] p h k = absurd k
IsNumeral-concat m n d (x ∷ xs) p h k = (
  k.0,
  All-append IsDigit xs ((48 + d) ∷ []) k.1 (omega arith),
  λ e. absurd (omega (arith, k.2 e)),
)

decimal_fuel-IsNumeral : (f n : ℕ) → n < f → IsNumeral n (decimal_fuel f n)
unfolding decimal_fuel
decimal_fuel-IsNumeral zero n h = elim h [ ]
decimal_fuel-IsNumeral (suc f) n h = elim (Bool-cases (ltb n 10)) [
  | inl e ↦ rw e (ground arith)
  | inr e ↦ rw e (
      IsNumeral-concat (n / 10) n (n % 10) (decimal_fuel f (n / 10)) (ground (arith, e))
        (omega arith) (decimal_fuel-IsNumeral f (n / 10) (ground (arith, e))))
]

pub decimal-IsNumeral : (n : ℕ) → IsNumeral n (decimal n)
unfolding decimal
decimal-IsNumeral n = decimal_fuel-IsNumeral (suc n) n (omega arith)

nonempty_digits : (t : Text) (n : ℕ) → IsNumeral n t → parse_digits t ≡ parse_from 0 t
unfolding parse_digits
nonempty_digits [] n h = absurd h
nonempty_digits (c ∷ cs) n h = refl

-- What is printed is parsed back.
pub parse_digits-decimal : (n : ℕ) → parse_digits (decimal n) ≡ some n
parse_digits-decimal n =
    nonempty_digits (decimal n) n (decimal-IsNumeral n)
    ∙ (unfold decimal in decimal_fuel-parse (suc n) n (omega arith))
