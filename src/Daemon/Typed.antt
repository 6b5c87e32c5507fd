-- ===== src/Daemon/Typed.antt =====
-- The topics of the daemon, with their types: those it publishes, those it subscribes to, and those
-- of the two client programs.
use pi5_system_surrogate.Prelude.{
  ◌≡◌, refl, ap, ap₂, subst, Bool, true, false, not, ◌&&◌, ◌||◌, Bool-cases, inl, inr, List, [],
  ◌∷◌, ◌++◌, Memᴰ, arith,
}
use pi5_system_surrogate.Prelude.Text.{Text}
use pi5_system_surrogate.Web.{same_text}
use pi5_system_surrogate.Web.Extract.{same_text_eq}
use pi5_system_surrogate.Threads.{
  TopicType, Value, boolean, double, doubles, text, Event, locked, server_started, server_stopped,
  advertised, subscribed, published, sent, launched, joined,
}

abbrev pub Typed : Type 0
Typed = Text × TopicType

abbrev pub type_of : Value → TopicType
type_of (boolean b) = TopicType.boolean
type_of (double n) = TopicType.double
type_of (doubles ns) = TopicType.double_array
type_of (text t) = TopicType.string

-- The topics that the log offers to readers, and those that it reads.
abbrev pub offered : Event → List Typed
offered (advertised n t) = (n, t) ∷ []
offered _ = []

abbrev pub wanted : Event → List Typed
wanted (subscribed n t) = (n, t) ∷ []
wanted _ = []

-- No topic of the list has the name.
abbrev pub Fresh : Text → List Typed → Type 0
Fresh n ts = (t : TopicType) → Memᴰ (n, t) ts → ⊥

-- From the topics offered so far: none is offered twice, and a value is put only on a topic that is
-- offered, and as a value of its type.
abbrev pub WellTyped : List Typed → List Event → Type 0
WellTyped seen [] = Unit
WellTyped seen (advertised n t ∷ es) = Fresh n seen × WellTyped ((n, t) ∷ seen) es
WellTyped seen (published n v ∷ es) = Memᴰ (n, type_of v) seen × WellTyped seen es
WellTyped seen (_ ∷ es) = WellTyped seen es

-- The same, as tests.
abbrev same_type : TopicType → TopicType → Bool
same_type TopicType.boolean TopicType.boolean = true
same_type TopicType.integer TopicType.integer = true
same_type TopicType.double TopicType.double = true
same_type TopicType.double_array TopicType.double_array = true
same_type TopicType.string TopicType.string = true
same_type (TopicType.raw a) (TopicType.raw b) = same_text a b
same_type _ _ = false

unfoldable pub has : Typed → List Typed → Bool
has (n, t) [] = false
has (n, t) ((m, u) ∷ ts) = (same_text n m && same_type t u) || has (n, t) ts

unfoldable pub named : Text → List Typed → Bool
named n [] = false
named n ((m, u) ∷ ts) = same_text n m || named n ts

unfoldable pub well_typed : List Typed → List Event → Bool
unfolding has named
well_typed seen [] = true
well_typed seen (advertised n t ∷ es) = not (named n seen) && well_typed ((n, t) ∷ seen) es
well_typed seen (published n v ∷ es) = has (n, type_of v) seen && well_typed seen es
well_typed seen (subscribed n t ∷ es) = well_typed seen es
well_typed seen (locked b ∷ es) = well_typed seen es
well_typed seen (server_started l ∷ es) = well_typed seen es
well_typed seen (server_stopped ∷ es) = well_typed seen es
well_typed seen (sent d ∷ es) = well_typed seen es
well_typed seen (launched c ∷ es) = well_typed seen es
well_typed seen (joined c ∷ es) = well_typed seen es

same_text_refl : (a : Text) → same_text a a ≡ true
same_text_refl [] = refl
same_text_refl (x ∷ a) = ground (arith, same_text_refl a)

same_type_eq : (t u : TopicType) → same_type t u ≡ true → t ≡ u
same_type_eq TopicType.boolean u h = ground arith
same_type_eq TopicType.integer u h = ground arith
same_type_eq TopicType.double u h = ground arith
same_type_eq TopicType.double_array u h = ground arith
same_type_eq TopicType.string u h = ground arith
same_type_eq (TopicType.raw a) (TopicType.raw b) h = ap TopicType.raw (same_text_eq a b h)
same_type_eq (TopicType.raw a) TopicType.boolean h = cc
same_type_eq (TopicType.raw a) TopicType.integer h = cc
same_type_eq (TopicType.raw a) TopicType.double h = cc
same_type_eq (TopicType.raw a) TopicType.double_array h = cc
same_type_eq (TopicType.raw a) TopicType.string h = cc

pub has-Memᴰ : (n : Text) (t : TopicType) (ts : List Typed) → has (n, t) ts ≡ true → Memᴰ (n, t) ts
unfolding has
has-Memᴰ n t [] h = cc
has-Memᴰ n t ((m, u) ∷ ts) h = elim (Bool-cases (same_text n m && same_type t u)) [
  | inl same ↦ Memᴰ.head (
      ap₂ (λ (a : Text) (b : TopicType). (a, b)) (same_text_eq n m (ground arith))
        (same_type_eq t u (ground arith)))
  | inr other ↦ Memᴰ.tail (has-Memᴰ n t ts (ground arith))
]

pub named-Fresh : (n : Text) (ts : List Typed) → named n ts ≡ false → Fresh n ts
unfolding named
named-Fresh n [] h t m = elim m [ ]
named-Fresh n ((k, u) ∷ ts) h t (Memᴰ.head e) =
    let same = subst (λ x. same_text n x ≡ true) (ap (λ (p : Typed). p.0) e) (same_text_refl n) in
    absurd (ground arith)
named-Fresh n ((k, u) ∷ ts) h t (Memᴰ.tail m) = named-Fresh n ts (ground arith) t m

pub both_true : (a b : Bool) → (a && b) ≡ true → (a ≡ true) × (b ≡ true)
both_true a b h = (ground arith, ground arith)

pub false_of_not : (a : Bool) → not a ≡ true → a ≡ false
false_of_not a h = ground arith

-- The tests are right.
pub well_typed-WellTyped :
    (seen : List Typed) (es : List Event) → well_typed seen es ≡ true → WellTyped seen es
unfolding well_typed
well_typed-WellTyped seen [] h = tt
well_typed-WellTyped seen (advertised n t ∷ es) h =
    let (new, rest) = both_true (not (named n seen)) (well_typed ((n, t) ∷ seen) es) h in
    (
      named-Fresh n seen (false_of_not (named n seen) new),
      well_typed-WellTyped ((n, t) ∷ seen) es rest,
    )
well_typed-WellTyped seen (published n v ∷ es) h =
    let (old, rest) = both_true (has (n, type_of v) seen) (well_typed seen es) h in
    (has-Memᴰ n (type_of v) seen old, well_typed-WellTyped seen es rest)
well_typed-WellTyped seen (subscribed n t ∷ es) h = well_typed-WellTyped seen es h
well_typed-WellTyped seen (locked b ∷ es) h = well_typed-WellTyped seen es h
well_typed-WellTyped seen (server_started l ∷ es) h = well_typed-WellTyped seen es h
well_typed-WellTyped seen (server_stopped ∷ es) h = well_typed-WellTyped seen es h
well_typed-WellTyped seen (sent d ∷ es) h = well_typed-WellTyped seen es h
well_typed-WellTyped seen (launched c ∷ es) h = well_typed-WellTyped seen es h
well_typed-WellTyped seen (joined c ∷ es) h = well_typed-WellTyped seen es h

-- Nothing is offered or put on a topic.
abbrev pub Silent : List Event → Type 0
Silent [] = Unit
Silent (advertised n t ∷ es) = ⊥
Silent (published n v ∷ es) = ⊥
Silent (_ ∷ es) = Silent es

Silent-WellTyped : (seen : List Typed) (es : List Event) → Silent es → WellTyped seen es
Silent-WellTyped seen [] h = tt
Silent-WellTyped seen (advertised n t ∷ es) h = absurd h
Silent-WellTyped seen (published n v ∷ es) h = absurd h
Silent-WellTyped seen (subscribed n t ∷ es) h = Silent-WellTyped seen es h
Silent-WellTyped seen (locked b ∷ es) h = Silent-WellTyped seen es h
Silent-WellTyped seen (server_started l ∷ es) h = Silent-WellTyped seen es h
Silent-WellTyped seen (server_stopped ∷ es) h = Silent-WellTyped seen es h
Silent-WellTyped seen (sent d ∷ es) h = Silent-WellTyped seen es h
Silent-WellTyped seen (launched c ∷ es) h = Silent-WellTyped seen es h
Silent-WellTyped seen (joined c ∷ es) h = Silent-WellTyped seen es h

pub WellTyped-append :
    (seen : List Typed) (xs ys : List Event)
    → WellTyped seen xs
    → Silent ys
    → WellTyped seen (xs ++ ys)
WellTyped-append seen [] ys h k = Silent-WellTyped seen ys k
WellTyped-append seen (advertised n t ∷ xs) ys (h, hs) k =
    (h, WellTyped-append ((n, t) ∷ seen) xs ys hs k)
WellTyped-append seen (published n v ∷ xs) ys (h, hs) k = (h, WellTyped-append seen xs ys hs k)
WellTyped-append seen (subscribed n t ∷ xs) ys h k = WellTyped-append seen xs ys h k
WellTyped-append seen (locked b ∷ xs) ys h k = WellTyped-append seen xs ys h k
WellTyped-append seen (server_started l ∷ xs) ys h k = WellTyped-append seen xs ys h k
WellTyped-append seen (server_stopped ∷ xs) ys h k = WellTyped-append seen xs ys h k
WellTyped-append seen (sent d ∷ xs) ys h k = WellTyped-append seen xs ys h k
WellTyped-append seen (launched c ∷ xs) ys h k = WellTyped-append seen xs ys h k
WellTyped-append seen (joined c ∷ xs) ys h k = WellTyped-append seen xs ys h k
