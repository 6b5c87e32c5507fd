-- ===== src/Web/Fields.antt =====
-- The form parser against a reference: the fields between the '&'s, each a name, '=' and a value.
use pi5_system_surrogate.Prelude.{
  suc, ◌≡◌, refl, sym, ap, subst, ◌∙◌, ◌⊎◌, inl, inr, true, false, Bool-cases, if◌then◌else◌, none,
  some, List, [], ◌∷◌, ◌++◌, length, length-append, arith,
}
use mathlib.Core.List.{append-nil, append_assoc}
use pi5_system_surrogate.Prelude.Text.{Text}
use pi5_system_surrogate.DaemonState.{DaemonState, set_enabled, set_e_stop, set_mode, set_alliance}
use pi5_system_surrogate.Web.{
  enabled_key, estop_key, mode_key, alliance_key, is_true, mode_from_form, from_chars, bounded,
  if_given, handle_set_control, ampersand, equals_sign, same_text, find, extract_at, extract,
}
use pi5_system_surrogate.Web.Extract.{
  same_text_eq, NoAmpersand, Tail, at_end, more_fields, find-front, up_to-value,
}
use pi5_system_surrogate.Web.Find.{find-field, shift, EndsField, taken}

abbrev pub Field : Type 0
Field = Text × Text

abbrev pub field : Field → Text
field (name, value) = name ++ equals_sign ∷ value

-- The body of a form.
abbrev pub join : List Field → Text
join [] = []
join (f ∷ []) = field f
join (f ∷ g ∷ fs) = field f ++ ampersand ∷ join (g ∷ fs)

-- The value of the first field of a name, nothing if there is none.
abbrev pub value_of : Text → List Field → Text
value_of key [] = []
value_of key ((name, value) ∷ fs) = if same_text name key then value else value_of key fs

-- Neither the names nor the values hold a '&', and the key with its '=' shows in a field of another
-- name nowhere.
abbrev pub IsPlain : Text → List Field → Type 0
IsPlain key [] = Unit
IsPlain key ((name, value) ∷ fs) =
    NoAmpersand name
    × NoAmpersand value
    × ((same_text name key ≡ true) ⊎ (find (key ++ equals_sign ∷ []) (field (name, value)) ≡ none))
    × IsPlain key fs

-- The first place of the needle in a body, with the value behind it.
data Placed (needle body v : Text) : Type 0 where
  absent : find needle body ≡ none → v ≡ [] → Placed needle body v
  placed :
      (pre tail : Text)
      → body ≡ pre ++ (needle ++ (v ++ tail))
      → find needle body ≡ some (length pre)
      → EndsField pre
      → NoAmpersand v
      → Tail tail
      → Placed needle body v

EndsField-behind : (f pre : Text) → EndsField pre → EndsField (f ++ ampersand ∷ pre)
EndsField-behind f pre (inl e) = inr (f, ap (λ p. f ++ ampersand ∷ p) e)
EndsField-behind f pre (inr (p, e)) = inr (
  f ++ ampersand ∷ p,
  ap (λ p. f ++ ampersand ∷ p) e ∙ sym (append_assoc f (ampersand ∷ p) (ampersand ∷ [])),
)

-- Behind a field without the needle.
Placed-behind :
    (needle f body v : Text)
    → NoAmpersand needle
    → find needle f ≡ none
    → Placed needle body v
    → Placed needle (f ++ ampersand ∷ body) v
Placed-behind needle f body v clear h (absent e none_there) =
    absent (find-field needle f body clear h ∙ ap (shift (suc (length f))) e) none_there
Placed-behind needle f body v clear h (placed pre tail e at ends plain t) =
    placed (f ++ ampersand ∷ pre) tail
      (ap (λ b. f ++ ampersand ∷ b) e
        ∙ sym (append_assoc f (ampersand ∷ pre) (needle ++ (v ++ tail))))
      (find-field needle f body clear h
        ∙ ap (shift (suc (length f))) at
        ∙ ap some (omega (arith, length-append f (ampersand ∷ pre))))
      (EndsField-behind f pre ends) plain t

NoAmpersand-needle : (key : Text) → NoAmpersand key → NoAmpersand (key ++ equals_sign ∷ [])
NoAmpersand-needle [] clear = (refl, tt)
NoAmpersand-needle (k ∷ ks) clear = (clear.0, NoAmpersand-needle ks clear.1)

nothing_found : (key : Text) → find (key ++ equals_sign ∷ []) [] ≡ none
unfolding find
nothing_found [] = refl
nothing_found (k ∷ ks) = refl

-- What follows the first field.
abbrev behind_first : List Field → Text
behind_first [] = []
behind_first (g ∷ fs) = ampersand ∷ join (g ∷ fs)

join-first : (f : Field) (fs : List Field) → join (f ∷ fs) ≡ field f ++ behind_first fs
join-first f [] = sym (append-nil (field f))
join-first f (g ∷ fs) = refl

Tail-behind : (fs : List Field) → Tail (behind_first fs)
Tail-behind [] = at_end
Tail-behind (g ∷ fs) = more_fields (join (g ∷ fs))

Placed-first :
    (key v tail : Text)
    → NoAmpersand v
    → Tail tail
    → Placed (key ++ equals_sign ∷ []) (field (key, v) ++ tail) v
Placed-first key v tail clear t =
    let e : field (key, v) ++ tail ≡ (key ++ equals_sign ∷ []) ++ (v ++ tail) =
      append_assoc key (equals_sign ∷ v) tail
      ∙ sym (append_assoc key (equals_sign ∷ []) (v ++ tail)) in
    placed [] tail e
      (ap (find (key ++ equals_sign ∷ [])) e ∙ find-front (key ++ equals_sign ∷ []) (v ++ tail))
      (inl refl) clear t

-- The needle in a form, and the value that the reference gives.
Placed-join :
    (key : Text) (fs : List Field)
    → NoAmpersand key
    → IsPlain key fs
    → Placed (key ++ equals_sign ∷ []) (join fs) (value_of key fs)
Placed-join key [] clear plain = absent (nothing_found key) refl
Placed-join key ((name, value) ∷ fs) clear (_, vclear, either, rest) =
    elim (Bool-cases (same_text name key)) [
      | inl same ↦ rw same (
          subst (λ b. Placed (key ++ equals_sign ∷ []) b value)
            (ap (λ n. field (n, value) ++ behind_first fs) (sym (same_text_eq name key same))
              ∙ sym (join-first (name, value) fs))
            (Placed-first key value (behind_first fs) vclear (Tail-behind fs)))
      | inr other ↦ rw other (skip fs rest (Placed-join key fs clear rest) (lacks other either))
    ]
  where
    lacks :
        same_text name key ≡ false
        → (same_text name key ≡ true)
          ⊎ (find (key ++ equals_sign ∷ []) (field (name, value)) ≡ none)
        → find (key ++ equals_sign ∷ []) (field (name, value)) ≡ none
    lacks other (inl same) = cc
    lacks other (inr h) = h

    skip :
        (gs : List Field)
        → IsPlain key gs
        → Placed (key ++ equals_sign ∷ []) (join gs) (value_of key gs)
        → find (key ++ equals_sign ∷ []) (field (name, value)) ≡ none
        → Placed (key ++ equals_sign ∷ []) (join ((name, value) ∷ gs)) (value_of key gs)
    skip [] q k h = absent h refl
    skip (g ∷ gs) q k h =
        Placed-behind (key ++ equals_sign ∷ []) (field (name, value)) (join (g ∷ gs))
          (value_of key (g ∷ gs)) (NoAmpersand-needle key clear) h k

pub extract-value_of :
    (key : Text) (fs : List Field)
    → NoAmpersand key
    → IsPlain key fs
    → extract key (join fs) ≡ value_of key fs
unfolding extract
extract-value_of key fs clear plain =
    found (join fs) (value_of key fs) (Placed-join key fs clear plain)
  where
    found : (body v : Text) → Placed (key ++ equals_sign ∷ []) body v → extract key body ≡ v
    found body v (absent e nothing) =
        ap (extract_at (length (key ++ equals_sign ∷ [])) body) e ∙ sym nothing
    found body v (placed pre tail e at ends vclear t) =
        ap (extract_at (length (key ++ equals_sign ∷ [])) body) at
        ∙ ap (λ b. extract_at (length (key ++ equals_sign ∷ [])) b (some (length pre))) e
        ∙ taken (key ++ equals_sign ∷ []) pre (v ++ tail) ends
        ∙ up_to-value v tail vclear t

-- What the form asks for, by its fields.
abbrev pub asked : List Field → DaemonState → DaemonState
asked fs s =
    let s1 = if_given (value_of enabled_key fs) (λ v. set_enabled (is_true v)) s in
    let s2 = if_given (value_of estop_key fs) (λ v. set_e_stop (is_true v)) s1 in
    let s3 = if_given (value_of mode_key fs) (λ v. set_mode (mode_from_form (from_chars v))) s2 in
    if_given (value_of alliance_key fs) (λ v. set_alliance (bounded (from_chars v))) s3

-- A control form is read field by field: each of the four settings is written from the value of the
-- first field of its name, and left alone where there is none or the value is empty. No name and no
-- value holds a '&', and none of the four keys followed by '=' occurs in a field of another name.
pub handle_set_control-asked :
    (fs : List Field) (s : DaemonState)
    → IsPlain enabled_key fs
    → IsPlain estop_key fs
    → IsPlain mode_key fs
    → IsPlain alliance_key fs
    → handle_set_control (join fs) s ≡ asked fs s
unfolding handle_set_control
handle_set_control-asked fs s p1 p2 p3 p4 =
    rw
      (
        extract-value_of enabled_key fs (ground arith) p1,
        extract-value_of estop_key fs (ground arith) p2,
        extract-value_of mode_key fs (ground arith) p3,
        extract-value_of alliance_key fs (ground arith) p4,
      )
      refl
