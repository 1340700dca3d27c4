-- ===== src/AmplifierApi/TxEvent/Parse.antt =====
-- Event identifiers are parsed back to what they were built from.
use axelar_relayer_core.Base.{
  ℕ, ◌<◌, ◌^◌, ◌≡◌, ap, ◌≢◌, refl, none, some, [], ◌∷◌, ◌++◌, Text, All, ok, err, arith,
}
use axelar_relayer_core.Base.Decimal.{
  decimal, parse_digits, IsDigit, IsNumeral, decimal-IsNumeral, parse_digits-decimal,
}
use axelar_relayer_core.AmplifierApi.TxEvent.{
  separator_not_found, dash, new, rsplit_once, strip_plus, parse_usize, hash_and_index,
}

rsplit_once-none : (c : ℕ) (xs : Text) → All (λ x. x ≢ c) xs → rsplit_once c xs ≡ none
unfolding rsplit_once
rsplit_once-none c [] h = refl
rsplit_once-none c (x ∷ xs) h = ground (arith, rsplit_once-none c xs h.1)

rsplit_once_at :
    (c : ℕ) (xs ys : Text) → All (λ y. y ≢ c) ys → rsplit_once c (xs ++ c ∷ ys) ≡ some (xs, ys)
unfolding rsplit_once
rsplit_once_at c [] ys h = ground (arith, rsplit_once-none c ys h)
rsplit_once_at c (x ∷ xs) ys h = ground (arith, rsplit_once_at c xs ys h)

digits-no_dash : (xs : Text) → All IsDigit xs → All (λ x. x ≢ dash) xs
digits-no_dash [] h = tt
digits-no_dash (x ∷ xs) h = (omega arith, digits-no_dash xs h.1)

numeral-no_dash : (n : ℕ) (xs : Text) → IsNumeral n xs → All (λ x. x ≢ dash) xs
numeral-no_dash n [] h = tt
numeral-no_dash n (x ∷ xs) h = (omega arith, digits-no_dash xs h.1)

numeral-strip_plus : (n : ℕ) (xs : Text) → IsNumeral n xs → strip_plus xs ≡ xs
numeral-strip_plus n [] h = refl
numeral-strip_plus n (x ∷ xs) h = ground arith

parse_usize_of :
    (t : Text) (n : ℕ)
    → strip_plus t ≡ t
    → parse_digits t ≡ some n
    → n < 2 ^ 64
    → parse_usize t ≡ some n
unfolding parse_usize
parse_usize_of t n e d h = ground (arith, ap parse_digits e, d)

pub parse_usize-decimal : (n : ℕ) → n < 2 ^ 64 → parse_usize (decimal n) ≡ some n
parse_usize-decimal n h =
    parse_usize_of (decimal n) n (numeral-strip_plus n (decimal n) (decimal-IsNumeral n))
      (parse_digits-decimal n) h

-- The identifier built from a transaction hash and a log index is parsed back to both of them,
-- whatever the hash is, dashes included.
pub hash_and_index-new :
    (tx_hash : Text) (log_index : ℕ)
    → log_index < 2 ^ 64
    → hash_and_index (new tx_hash log_index) ≡ ok (tx_hash, log_index)
unfolding hash_and_index new
hash_and_index-new tx_hash n h = ground (
  arith,
  rsplit_once_at dash tx_hash (decimal n) (numeral-no_dash n (decimal n) (decimal-IsNumeral n)),
  parse_usize-decimal n h,
)

-- So no two pairs of a hash and a log index have the same identifier.
pub new_injective :
    (h h' : Text) (n n' : ℕ) → n < 2 ^ 64 → n' < 2 ^ 64 → new h n ≡ new h' n' → (h ≡ h') × (n ≡ n')
new_injective h h' n n' b b' e =
    ground (arith, hash_and_index-new h n b, hash_and_index-new h' n' b', e)

-- A text without a dash is refused for its missing separator.
pub hash_and_index_undashed :
    (t : Text)
    → All (λ x. x ≢ dash) t
    → hash_and_index (record { text = t }) ≡ err separator_not_found
unfolding hash_and_index
hash_and_index_undashed t h = ground (arith, rsplit_once-none dash t h)
