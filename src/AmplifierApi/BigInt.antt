-- ===== src/AmplifierApi/BigInt.antt =====
-- crates/amplifier-api/src/big_int.rs: `BigInt`, an `i128`, as decimal text, and its encoding by
-- borsh, whose encoding of a string is a parameter.
use axelar_relayer_core.Base.{
  ℕ, suc, ◌-◌, ◌<◌, ◌^◌, ◌≡◌, refl, Bool, true, false, ◌&&◌, Option, none, some, List, [], ◌∷◌,
  ◌++◌, Text, All, Result, ok, err, if◌then◌else◌, leb, ltb→lt, ◌==◌, arith,
}
use axelar_relayer_core.Base.Decimal.{
  decimal, parse_digits, is_digit, IsDigit, IsNumeral, decimal-IsNumeral, parse_digits-decimal,
}
use axelar_relayer_core.Base.Int.{ℤ, pos, negsuc, fits_signed}

-- `BigInt`.
pub record BigInt : Type 0 where
  pub inner : ℤ

-- `i128::to_string`.
unfoldable pub to_string : ℤ → Text
to_string (pos n) = decimal n
to_string (negsuc n) = b'-' ∷ decimal (suc n)

-- `str::parse::<i128>`: an optional sign, digits, and a value in range.
abbrev in_range : ℤ → Option ℤ
in_range a = if fits_signed 127 a then some a else none

abbrev signed : Option ℕ → Option ℤ
signed none = none
signed (some n) = in_range (pos n)

abbrev minus : ℕ → ℤ
minus n = if n == 0 then pos 0 else negsuc (n - 1)

abbrev negated : Option ℕ → Option ℤ
negated none = none
negated (some n) = in_range (minus n)

unfoldable pub parse_i128 : Text → Option ℤ
parse_i128 [] = none
parse_i128 (c ∷ cs) =
    if c == b'-'
    then negated (parse_digits cs)
    else if c == b'+'
    then signed (parse_digits cs)
    else signed (parse_digits (c ∷ cs))

parse_numeral :
    (n m : ℕ) (t : Text)
    → IsNumeral m t
    → parse_digits t ≡ some n
    → n < 2 ^ 127
    → parse_i128 t ≡ some (pos n)
unfolding parse_i128
parse_numeral n m [] k e h = absurd k
parse_numeral n m (c ∷ cs) k e h = ground (arith, e)

-- Every `i128` is parsed back from its text.
pub parse_i128-to_string : (a : ℤ) → fits_signed 127 a ≡ true → parse_i128 (to_string a) ≡ some a
unfolding to_string
parse_i128-to_string (pos n) h =
    parse_numeral n n (decimal n) (decimal-IsNumeral n) (parse_digits-decimal n)
      (ltb→lt n (2 ^ 127) h)
parse_i128-to_string (negsuc n) h =
    unfold parse_i128 in rw (parse_digits-decimal (suc n)) (ground arith)

-- The pattern `^(0|[1-9]\d*)$` of the API's schema.
abbrev all_digits : Text → Bool
all_digits [] = true
all_digits (c ∷ cs) = is_digit c && all_digits cs

unfoldable pub matches_pattern : Text → Bool
matches_pattern [] = false
matches_pattern (c ∷ []) = is_digit c
matches_pattern (c ∷ d ∷ cs) = leb b'1' c && leb c b'9' && all_digits (d ∷ cs)

abbrev pub is_negative : ℤ → Bool
is_negative (pos n) = false
is_negative (negsuc n) = true

digits-All : (cs : Text) → All IsDigit cs → all_digits cs ≡ true
digits-All [] h = refl
digits-All (c ∷ cs) h = ground (arith, digits-All cs h.1)

numeral_matches : (n : ℕ) (t : Text) → IsNumeral n t → matches_pattern t ≡ true
unfolding matches_pattern
numeral_matches n [] k = absurd k
numeral_matches n (c ∷ []) k = ground arith
numeral_matches n (c ∷ d ∷ cs) k = ground (arith, digits-All (d ∷ cs) k.1, k.2)

minus_unmatched : (t : Text) → matches_pattern (b'-' ∷ t) ≡ false
unfolding matches_pattern
minus_unmatched [] = refl
minus_unmatched (d ∷ cs) = ground arith

-- The text of an amount matches the pattern of the schema exactly when the amount is not negative.
pub matches_pattern-to_string :
    (a : ℤ) → matches_pattern (to_string a) ≡ (if is_negative a then false else true)
unfolding to_string
matches_pattern-to_string (pos n) = numeral_matches n (decimal n) (decimal-IsNumeral n)
matches_pattern-to_string (negsuc n) = minus_unmatched (decimal (suc n))

module _ {X : Type 0} (write_string : Text → List ℕ)
    (read_string : List ℕ → Result X (Text × List ℕ)) (invalid_data : X) where
  -- `big_int::serialize` and `big_int::deserialize`; the reader keeps the bytes that follow.
  unfoldable pub serialize : BigInt → List ℕ
  serialize value = write_string (to_string value.inner)

  unfoldable pub deserialize : List ℕ → Result X (BigInt × List ℕ)
  deserialize reader = elim (read_string reader) [
    | err e ↦ err e
    | ok (value, rest) ↦ elim (parse_i128 value) [
      | none ↦ err invalid_data
      | some number ↦ ok (record { inner = number }, rest)
    ]
  ]

  -- Where strings are read back from their encoding, every `i128` is read back from its encoding,
  -- and the bytes that follow are left.
  pub deserialize-serialize :
      (strings : (t : Text) (rest : List ℕ) → read_string (write_string t ++ rest) ≡ ok (t, rest))
      (v : BigInt) (rest : List ℕ)
      → fits_signed 127 v.inner ≡ true
      → deserialize (serialize v ++ rest) ≡ ok (v, rest)
  unfolding deserialize serialize
  deserialize-serialize strings v rest h =
      ground (arith, strings (to_string v.inner) rest, parse_i128-to_string v.inner h)
