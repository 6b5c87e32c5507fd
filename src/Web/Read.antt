-- ===== src/Web/Read.antt =====
-- The reader of JSON on the documents of the pages.
use mathlib.Core.Option
use pi5_system_surrogate.Prelude.{
  ℕ, zero, suc, ◌≤◌, ◌≡◌, refl, ap, Bool, true, false, not, ◌&&◌, ◌==◌, some, [], ◌∷◌, ◌++◌, length,
  length-append, arith,
}
use pi5_system_surrogate.Prelude.Text.{Text}
use pi5_system_surrogate.Web.Page.{truth}
use pi5_system_surrogate.Web.Shown.{
  Json, boolean, number, word, object, Members, no_members, member, render, render_members,
  render_more,
}
use pi5_system_surrogate.Web.Reader.{
  quoted, is_numeral, numeral, scalar, parse, parse_members, parse_more, parse_member, whole,
  read_document,
}

abbrev pub no_quote : Text → Bool
no_quote [] = true
no_quote (b ∷ bs) = not (b == b'"') && no_quote bs

abbrev pub all_numeral : Text → Bool
all_numeral [] = true
all_numeral (b ∷ bs) = is_numeral b && all_numeral bs

-- A number is a numeral that is not empty.
abbrev pub IsNumber : Text → Type 0
IsNumber [] = ⊥
IsNumber (b ∷ bs) = all_numeral (b ∷ bs) ≡ true

-- Names and words hold no quotation mark, and numbers are numerals.
unfoldable mutual
  pub IsPlain : Json → Type 0
  IsPlain (boolean b) = Unit
  IsPlain (number t) = IsNumber t
  IsPlain (word t) = no_quote t ≡ true
  IsPlain (object ms) = ArePlain ms

  pub ArePlain : Members → Type 0
  ArePlain no_members = Unit
  ArePlain (member name v ms) = (no_quote name ≡ true) × IsPlain v × ArePlain ms

-- The text does not go on with a numeral.
abbrev Stops : Text → Type 0
Stops [] = Unit
Stops (b ∷ bs) = is_numeral b ≡ false

pub and_true : (a b : Bool) → (a && b) ≡ true → (a ≡ true) × (b ≡ true)
and_true true b h = (refl, h)
and_true false b h = ground arith

quoted-end : (t r : Text) → no_quote t ≡ true → quoted (t ++ b'"' ∷ r) ≡ some (t, r)
quoted-end [] r h = refl
quoted-end (b ∷ bs) r h =
    let (other, more) = and_true (not (b == b'"')) (no_quote bs) h in
    rw (quoted, not_true (b == b'"') other, quoted-end bs r more) refl
  where
    not_true : (a : Bool) → not a ≡ true → a ≡ false
    not_true a h = ground arith

numeral-end : (t r : Text) → all_numeral t ≡ true → Stops r → numeral (t ++ r) ≡ (t, r)
numeral-end [] [] h s = refl
numeral-end [] (b ∷ bs) h s = rw (numeral, s) refl
numeral-end (b ∷ bs) r h s =
    let (first, more) = and_true (is_numeral b) (all_numeral bs) h in
    rw (numeral, first, numeral-end bs r more s) refl

-- A numeral begins no other value.
record Begins (b : ℕ) : Type 0 where
  brace : (b == b'{') ≡ false
  quote : (b == b'"') ≡ false
  t : (b == 116) ≡ false
  f : (b == 102) ≡ false

numeral-Begins : (b : ℕ) → is_numeral b ≡ true → Begins b
numeral-Begins b h = record {
  brace = ground arith;
  quote = ground arith;
  t = ground arith;
  f = ground arith;
}

more-Stops : (ms : Members) (r : Text) → Stops (render_more ms (b'}' ∷ r))
unfolding render_more
more-Stops no_members r = refl
more-Stops (member name v ms) r = refl

mutual
  unfolding render render_members render_more

  length-render : (j : Json) (r : Text) → length r ≤ length (render j r)
  length-render (boolean b) r = omega (arith, length-append (truth b) r)
  length-render (number t) r = omega (arith, length-append t r)
  length-render (word t) r = omega (arith, length-append t (b'"' ∷ r))
  length-render (object ms) r = omega (arith, length-render_members ms (b'}' ∷ r))

  length-render_members : (ms : Members) (r : Text) → length r ≤ length (render_members ms r)
  length-render_members no_members r = omega arith
  length-render_members (member name v ms) r = omega (
    arith,
    length-append name (b'"' ∷ b':' ∷ render v (render_more ms r)),
    length-render v (render_more ms r),
    length-render_more ms r,
  )

  length-render_more : (ms : Members) (r : Text) → length r ≤ length (render_more ms r)
  length-render_more no_members r = omega arith
  length-render_more (member name v ms) r = omega (
    arith,
    length-append name (b'"' ∷ b':' ∷ render v (render_more ms r)),
    length-render v (render_more ms r),
    length-render_more ms r,
  )

number-parse :
    (b : ℕ) (bs r : Text) (n : ℕ)
    → all_numeral (b ∷ bs) ≡ true
    → Stops r
    → parse (suc n) (b ∷ bs ++ r) ≡ some (number (b ∷ bs), r)
unfolding parse
number-parse b bs r n h s =
    let (first, more) = and_true (is_numeral b) (all_numeral bs) h in
    let begins = numeral-Begins b first in
    rw
      (
        parse,
        begins.brace,
        scalar,
        begins.quote,
        begins.t,
        begins.f,
        first,
        numeral-end bs r more s,
      )
      refl

mutual
  unfolding render render_members render_more parse parse_members parse_more parse_member IsPlain
      ArePlain Option.bind

  -- With fuel for its length, the text of a document reads back as the document.
  pub parse-render :
      (j : Json) (r : Text) (n : ℕ)
      → IsPlain j
      → Stops r
      → length (render j r) ≤ n
      → parse n (render j r) ≡ some (j, r)
  parse-render (boolean true) r zero p s h = absurd (omega arith)
  parse-render (boolean true) r (suc n) p s h = refl
  parse-render (boolean false) r zero p s h = absurd (omega arith)
  parse-render (boolean false) r (suc n) p s h = refl
  parse-render (number []) r n p s h = absurd p
  parse-render (number (b ∷ bs)) r zero p s h = absurd (omega arith)
  parse-render (number (b ∷ bs)) r (suc n) p s h = number-parse b bs r n p s
  parse-render (word t) r zero p s h = absurd (omega arith)
  parse-render (word t) r (suc n) p s h = rw (quoted-end t r p) refl
  parse-render (object ms) r zero p s h = absurd (omega arith)
  parse-render (object ms) r (suc n) p s h =
      ap (Option.map (λ (ms, r). (object ms, r))) (members-render ms r n p (omega arith))

  members-render :
      (ms : Members) (r : Text) (n : ℕ)
      → ArePlain ms
      → length (render_members ms (b'}' ∷ r)) ≤ n
      → parse_members n (render_members ms (b'}' ∷ r)) ≡ some (ms, r)
  members-render no_members r zero p h = absurd (omega arith)
  members-render no_members r (suc n) p h = refl
  members-render (member name v ms) r zero p h = absurd (omega arith)
  members-render (member name v ms) r (suc n) p h =
      member-render name v ms r n p.0 p.1 p.2 (omega arith)

  more-render :
      (ms : Members) (r : Text) (n : ℕ)
      → ArePlain ms
      → length (render_more ms (b'}' ∷ r)) ≤ n
      → parse_more n (render_more ms (b'}' ∷ r)) ≡ some (ms, r)
  more-render no_members r zero p h = absurd (omega arith)
  more-render no_members r (suc n) p h = refl
  more-render (member name v ms) r zero p h = absurd (omega arith)
  more-render (member name v ms) r (suc n) p h =
      member-render name v ms r n p.0 p.1 p.2 (omega arith)

  member-render :
      (name : Text) (v : Json) (ms : Members) (r : Text) (n : ℕ)
      → no_quote name ≡ true
      → IsPlain v
      → ArePlain ms
      → length (name ++ b'"' ∷ b':' ∷ render v (render_more ms (b'}' ∷ r))) ≤ n
      → parse_member n (name ++ b'"' ∷ b':' ∷ render v (render_more ms (b'}' ∷ r)))
        ≡ some (member name v ms, r)
  member-render name v ms r zero q p ps h =
      absurd
        (omega (arith, length-append name (b'"' ∷ b':' ∷ render v (render_more ms (b'}' ∷ r)))))
  member-render name v ms r (suc n) q p ps h =
      let behind = render_more ms (b'}' ∷ r) in
      let room = length-append name (b'"' ∷ b':' ∷ render v behind) in
      rw
        (
          quoted-end name (b':' ∷ render v behind) q,
          parse-render v behind n p (more-Stops ms r) (omega (arith, room)),
          more-render ms r n ps (omega (arith, room, length-render v behind)),
        )
        refl

-- The text of a plain document is read as the document.
pub read-render : (j : Json) → IsPlain j → read_document (render j []) ≡ some j
unfolding read_document
read-render j p = ap whole (parse-render j [] (length (render j [])) p tt (omega arith))
