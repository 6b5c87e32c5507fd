-- ===== src/Web/Reader.antt =====
-- A reader of JSON documents of objects, words without escapes, numbers without exponents and truth
-- values, with no space between them.
use mathlib.Core.Option
use pi5_system_surrogate.Prelude.{
  ℕ, zero, suc, Bool, true, false, ◌&&◌, ◌||◌, ◌==◌, leb, Option, none, some, [], ◌∷◌, length,
}
use pi5_system_surrogate.Prelude.Text.{Text, codes}
use pi5_system_surrogate.Web.Shown.{
  Json, boolean, number, word, object, Members, no_members, member,
}

-- The text behind the prefix.
abbrev pub strip : Text → Text → Option Text
strip [] t = some t
strip (p ∷ ps) [] = none
strip (p ∷ ps) (b ∷ bs) = let rest = strip ps bs in elim (b == p) [ true ↦ rest | false ↦ none ]

-- The text up to the next quotation mark, and what is behind it.
abbrev pub quoted : Text → Option (Text × Text)
quoted [] = none
quoted (b ∷ bs) =
    let rest = quoted bs in
    elim (b == b'"') [ true ↦ some ([], bs) | false ↦ Option.map (λ (t, r). (b ∷ t, r)) rest ]

-- A digit, a minus sign or a point.
abbrev pub is_numeral : ℕ → Bool
is_numeral b = (leb 48 b && leb b 57) || b == 45 || b == 46

-- The numeral at the front, and the rest.
abbrev pub numeral : Text → Text × Text
numeral [] = ([], [])
numeral (b ∷ bs) =
    let (t, r) = numeral bs in elim (is_numeral b) [ true ↦ (b ∷ t, r) | false ↦ ([], b ∷ bs) ]

-- A value at the front, by its first byte, and the rest; a number is not empty.
abbrev pub scalar : ℕ → Text → Option (Json × Text)
scalar b bs = elim (b == b'"') [
  | true ↦ Option.map (λ (t, r). (word t, r)) (quoted bs)
  | false ↦ elim (b == 116) [
    | true ↦ Option.map (λ r. (boolean true, r)) (strip (codes "rue") bs)
    | false ↦ elim (b == 102) [
      | true ↦ Option.map (λ r. (boolean false, r)) (strip (codes "alse") bs)
      | false ↦ elim (is_numeral b) [
        | true ↦ let (t, r) = numeral bs in some (number (b ∷ t), r)
        | false ↦ none
      ]
    ]
  ]
]

unfoldable mutual
  pub parse : ℕ → Text → Option (Json × Text)
  parse zero t = none
  parse (suc n) [] = none
  parse (suc n) (b ∷ bs) = elim (b == b'{') [
    | true ↦ Option.map (λ (ms, r). (object ms, r)) (parse_members n bs)
    | false ↦ scalar b bs
  ]

  -- The members and the brace behind them.
  pub parse_members : ℕ → Text → Option (Members × Text)
  parse_members zero t = none
  parse_members (suc n) [] = none
  parse_members (suc n) (b ∷ bs) = elim (b == b'}') [
    | true ↦ some (no_members, bs)
    | false ↦ elim (b == b'"') [ true ↦ parse_member n bs | false ↦ none ]
  ]

  pub parse_more : ℕ → Text → Option (Members × Text)
  parse_more zero t = none
  parse_more (suc n) [] = none
  parse_more (suc n) (b ∷ bs) = elim (b == b'}') [
    | true ↦ some (no_members, bs)
    | false ↦ elim (b == b',') [
      | true ↦ Option.bind (strip (b'"' ∷ []) bs) (parse_member n)
      | false ↦ none
    ]
  ]

  -- A member behind its first quotation mark, and those after it.
  pub parse_member : ℕ → Text → Option (Members × Text)
  parse_member zero t = none
  parse_member (suc n) t = Option.bind (quoted t) (λ (name, r1).
      Option.bind (strip (b':' ∷ []) r1) (λ r2.
        Option.bind (parse n r2)
          (λ (v, r3). Option.map (λ (ms, r). (member name v ms, r)) (parse_more n r3))))

-- The document, if it is all of the text.
abbrev pub whole : Option (Json × Text) → Option Json
whole (some (j, [])) = some j
whole _ = none

unfoldable pub read_document : Text → Option Json
unfolding parse
read_document t = whole (parse (length t) t)
