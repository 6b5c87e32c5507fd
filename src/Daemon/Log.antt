-- ===== src/Daemon/Log.antt =====
-- What the log of the daemon says of one thing, event by event.
use mathlib.Core.List.{append-nil, append_assoc}
use pi5_system_surrogate.Prelude.{
  ℕ, zero, suc, ◌≡◌, refl, sym, ap, ◌∙◌, false, List, [], ◌∷◌, ◌++◌, replicate,
}
use pi5_system_surrogate.Runtime.{Datagram}
use pi5_system_surrogate.Threads.{
  Component, publisher, smartio, rsl, gamepad, diagnostics, match_loop, web, Process, Event, sent,
  launched, joined,
}

-- A process that has done nothing.
abbrev pub new_process : Process
new_process = record { joinable = λ _. false; server = false; log = [] }

-- What the log says of one thing, event by event.
unfoldable pub collect : {A : Type 0} → (Event → List A) → List Event → List A
collect f [] = []
collect f (e ∷ es) = f e ++ collect f es

-- What it says of threads, and of systemd.
abbrev pub thread_event : Event → List Event
thread_event (launched c) = launched c ∷ []
thread_event (joined c) = joined c ∷ []
thread_event _ = []

abbrev pub message : Event → List (List Datagram)
message (sent d) = d ∷ []
message _ = []

pub collect-append :
    {A : Type 0} (f : Event → List A) (xs ys : List Event)
    → collect f (xs ++ ys) ≡ collect f xs ++ collect f ys
unfolding collect
collect-append f [] ys = refl
collect-append f (x ∷ xs) ys =
    ap (λ l. f x ++ l) (collect-append f xs ys)
    ∙ sym (append_assoc (f x) (collect f xs) (collect f ys))

-- The components in the order in which they start, and the other way round.
abbrev pub components : List Component
components = publisher ∷ smartio ∷ rsl ∷ gamepad ∷ diagnostics ∷ match_loop ∷ web ∷ []

abbrev pub components_back : List Component
components_back = web ∷ match_loop ∷ diagnostics ∷ gamepad ∷ rsl ∷ smartio ∷ publisher ∷ []

-- One event after the other.
abbrev pub push : List Event → List Event → List Event
push xs [] = xs
push xs (y ∷ ys) = push (xs ++ y ∷ []) ys

pub push_append : (xs ys : List Event) → push xs ys ≡ xs ++ ys
push_append xs [] = sym (append-nil xs)
push_append xs (y ∷ ys) = push_append (xs ++ y ∷ []) ys ∙ append_assoc xs (y ∷ []) ys

-- An event that says nothing of it, any number of times.
pub collect-replicate :
    {A : Type 0} (f : Event → List A) (n : ℕ) (e : Event)
    → f e ≡ []
    → collect f (replicate n e) ≡ []
unfolding collect
collect-replicate f zero e h = refl
collect-replicate f (suc n) e h = rw h (collect-replicate f n e h)

pub messages-fed :
    (n : ℕ) (d : List Datagram) → collect message (replicate n (sent d)) ≡ replicate n d
unfolding collect
messages-fed zero d = refl
messages-fed (suc n) d = ap (λ l. d ∷ l) (messages-fed n d)
