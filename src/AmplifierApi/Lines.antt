-- ===== src/AmplifierApi/Lines.antt =====
-- `str::lines` and `writeln!`, as the `Display` of crates/amplifier-api/src/types.rs uses them.
use axelar_relayer_core.Base.{
  ℕ, ◌≡◌, ◌≢◌, refl, ap, ◌∙◌, Bool-cases, inl, inr, List, [], ◌∷◌, ◌++◌, map, All, Text, ◌==◌,
  if◌then◌else◌, arith,
}

abbrev pub newline : ℕ
newline = 10

abbrev pub carriage_return : ℕ
carriage_return = 13

-- `writeln!`.
abbrev pub writeln : Text → Text
writeln t = t ++ newline ∷ []

-- `for line in lines { writeln!(f, "{line}")?; }`.
abbrev pub writelns : List Text → Text
writelns [] = []
writelns (l ∷ ls) = writeln l ++ writelns ls

abbrev pub push : ℕ → List Text → List Text
push c [] = (c ∷ []) ∷ []
push c (l ∷ ls) = (c ∷ l) ∷ ls

-- `split_inclusive('\n')`.
unfoldable pub split_inclusive : Text → List Text
split_inclusive [] = []
split_inclusive (c ∷ cs) =
    let rest = split_inclusive cs in if c == newline then (c ∷ []) ∷ rest else push c rest

-- A line without its ending, which is a newline with a carriage return before it or none.
unfoldable pub chomp : Text → Text
chomp [] = []
chomp (c ∷ []) = if c == newline then [] else c ∷ []
chomp (c ∷ d ∷ []) =
    if d == newline then (if c == carriage_return then [] else c ∷ []) else c ∷ d ∷ []
chomp (c ∷ d ∷ e ∷ es) = c ∷ chomp (d ∷ e ∷ es)

-- `str::lines`.
unfoldable pub lines : Text → List Text
unfolding split_inclusive chomp
lines t = map chomp (split_inclusive t)

-- The last character is a newline.
abbrev pub EndsLine : Text → Type 0
EndsLine [] = ⊥
EndsLine (c ∷ []) = c ≡ newline
EndsLine (c ∷ d ∷ ds) = EndsLine (d ∷ ds)

abbrev pub NoReturn : Text → Type 0
NoReturn t = All (λ c. c ≢ carriage_return) t

pub writeln-EndsLine : (t u : Text) → EndsLine u → EndsLine (t ++ u)
writeln-EndsLine [] u h = h
writeln-EndsLine (c ∷ []) (d ∷ u) h = h
writeln-EndsLine (c ∷ []) [] h = absurd h
writeln-EndsLine (c ∷ d ∷ t) u h = writeln-EndsLine (d ∷ t) u h

chomp-concat : (c d : ℕ) (p : Text) → c ≢ carriage_return → chomp (c ∷ d ∷ p) ≡ c ∷ chomp (d ∷ p)
unfolding chomp
chomp-concat c d [] h = ground arith
chomp-concat c d (e ∷ es) h = refl

-- The pieces of a text that is not empty are there, and the first one is not empty.
abbrev IsSplit : List Text → Type 0
IsSplit [] = ⊥
IsSplit ([] ∷ ps) = ⊥
IsSplit ((c ∷ p) ∷ ps) = Unit

push-IsSplit : (c : ℕ) (ps : List Text) → IsSplit (push c ps)
push-IsSplit c [] = tt
push-IsSplit c (p ∷ ps) = tt

split_inclusive-IsSplit : (c : ℕ) (cs : Text) → IsSplit (split_inclusive (c ∷ cs))
unfolding split_inclusive
split_inclusive-IsSplit c cs = elim (Bool-cases (c == newline)) [
  | inl e ↦ rw (e, split_inclusive) tt
  | inr e ↦ rw (e, split_inclusive) (push-IsSplit c (split_inclusive cs))
]

push-writelns :
    (c : ℕ) (ps : List Text)
    → c ≢ carriage_return
    → IsSplit ps
    → writelns (map chomp (push c ps)) ≡ c ∷ writelns (map chomp ps)
push-writelns c [] h i = elim i [ ]
push-writelns c ([] ∷ ps) h i = elim i [ ]
push-writelns c ((d ∷ p) ∷ ps) h i =
    ap (λ l. writeln l ++ writelns (map chomp ps)) (chomp-concat c d p h)

-- Printing the lines of a text again gives that text, if it ends with a newline and holds no carriage
-- return.
pub writelns-lines : (t : Text) → EndsLine t → NoReturn t → writelns (lines t) ≡ t
unfolding lines
writelns-lines [] e h = elim e [ ]
writelns-lines (c ∷ []) e h = ground (arith, e)
writelns-lines (c ∷ d ∷ ds) e (h, hs) =
    let rest = writelns-lines (d ∷ ds) e hs in
    elim (Bool-cases (c == newline)) [
      | inl n ↦ rw (n, split_inclusive) (ground (arith, n, rest))
      | inr n ↦
          rw (n, split_inclusive)
            (push-writelns c (split_inclusive (d ∷ ds)) h (split_inclusive-IsSplit d ds)
              ∙ ap (λ t. c ∷ t) rest)
    ]
