-- ===== src/Web.antt =====
-- web_ui.hpp and web_ui.cpp: the two forms that the web interface takes, and the status that it
-- answers of the tracker's health; Page has the rest. Text is a list of bytes.
pub mod Extract
pub mod Find
pub mod Fields
pub mod Forms
pub mod Page
pub mod Shown
pub mod Served
pub mod Health
pub mod Punctual
pub mod Reader
pub mod Buttons
pub mod Read
pub mod Readable
pub mod Decimal
pub mod Kept
use pi5_system_surrogate.Prelude.{
  ℕ, zero, suc, ◌+◌, ◌-◌, ◌*◌, ◌^◌, Bool, true, false, not, ◌&&◌, ◌||◌, if◌then◌else◌, ltb, leb,
  ◌==◌, List, [], ◌∷◌, ◌++◌, Option, none, some, length, get_or, drop,
}
use pi5_system_surrogate.Prelude.Text.{Text, codes}
use pi5_system_surrogate.Prelude.Int.{ℤ, pos, negsuc, ltb_ℤ, leb_ℤ, eqb_ℤ}
use pi5_system_surrogate.ControlData.{RobotMode, unknown, auto, teleop, test}
use pi5_system_surrogate.DaemonState.{DaemonState, set_enabled, set_e_stop, set_mode, set_alliance}
use pi5_system_surrogate.Match.{MatchController, start_match, stop_match, skip_to_teleop}
use pi5_system_surrogate.Cadence.{CadenceTracker, p99_us}

abbrev pub ampersand : ℕ
ampersand = b'&'

abbrev pub equals_sign : ℕ
equals_sign = b'='

-- `==` on texts.
abbrev pub same_text : Text → Text → Bool
same_text [] [] = true
same_text (a ∷ as_) (b ∷ bs) = a == b && same_text as_ bs
same_text _ _ = false

abbrev pub starts_with : Text → Text → Bool
starts_with [] body = true
starts_with (n ∷ ns) [] = false
starts_with (n ∷ ns) (b ∷ bs) = n == b && starts_with ns bs

-- `body.find(needle)`: the first place where the needle occurs.
unfoldable pub find : Text → Text → Option ℕ
find needle [] = if starts_with needle [] then some 0 else none
find needle (b ∷ bs) =
    let rest = find needle bs in
    if starts_with needle (b ∷ bs)
    then some 0
    else elim rest [ none ↦ none | some n ↦ some (suc n) ]

-- The text up to the next '&', or all of it.
abbrev pub up_to_ampersand : Text → Text
up_to_ampersand [] = []
up_to_ampersand (b ∷ bs) = let rest = up_to_ampersand bs in if b == ampersand then [] else b ∷ rest

abbrev pub action_key : Text
action_key = codes "action="

abbrev pub start_verb : Text
start_verb = codes "start"

abbrev pub stop_verb : Text
stop_verb = codes "stop"

abbrev pub skip_verb : Text
skip_verb = codes "skip-to-teleop"

-- The calls on the verb.
unfoldable pub act : ℤ → Text → MatchController → MatchController
act now action c =
    if same_text action start_verb
    then start_match now c
    else if same_text action stop_verb
    then stop_match c
    else if same_text action skip_verb
    then skip_to_teleop now c
    else c

unfoldable pub handle_match : ℤ → Text → MatchController → MatchController
handle_match now body c = elim (find action_key body) [
  | none ↦ c
  | some place ↦ act now (up_to_ampersand (drop (place + 7) body)) c
]

-- The `extract` of `handle_set_control`, from the place of the key: at the front of the text or
-- behind an '&'.
abbrev pub extract_at : ℕ → Text → Option ℕ → Text
extract_at size body none = []
extract_at size body (some place) =
    if not (place == 0) && not (get_or body (place - 1) 0 == ampersand)
    then []
    else up_to_ampersand (drop (place + size) body)

unfoldable pub extract : Text → Text → Text
extract key body =
    let needle = key ++ equals_sign ∷ [] in extract_at (length needle) body (find needle body)

-- `std::from_chars` for an `int` that was set to 0: the digits at the front, after a minus sign, and
-- 0 where there are none or the number does not fit.
abbrev pub digits_value : ℕ → Text → ℕ
digits_value n [] = n
digits_value n (b ∷ bs) =
    let more = digits_value (n * 10 + (b - 48)) bs in if leb 48 b && leb b 57 then more else n

abbrev pub negated : ℕ → ℤ
negated zero = pos 0
negated (suc n) = if leb (suc n) (2 ^ 31) then negsuc n else pos 0

unfoldable pub from_chars : Text → ℤ
from_chars [] = pos 0
from_chars (b ∷ bs) =
    if b == b'-'
    then negated (digits_value 0 bs)
    else if ltb (digits_value 0 (b ∷ bs)) (2 ^ 31)
    then pos (digits_value 0 (b ∷ bs))
    else pos 0

-- `v == "true" || v == "1"`
abbrev pub is_true : Text → Bool
is_true v = same_text v (codes "true") || same_text v (codes "1")

-- The cast to RobotMode of an integer that is a mode's value, and of 0 for any other.
unfoldable pub mode_from_form : ℤ → RobotMode
mode_from_form m =
    if eqb_ℤ m (pos 1)
    then auto
    else if eqb_ℤ m (pos 2)
    then teleop
    else if eqb_ℤ m (pos 3)
    then test
    else unknown

-- The two bounds of the alliance.
unfoldable pub bounded : ℤ → ℤ
bounded a = if ltb_ℤ a (pos 0) then pos 0 else if ltb_ℤ (pos 3) a then pos 3 else a

abbrev pub enabled_key : Text
enabled_key = codes "enabled"

abbrev pub estop_key : Text
estop_key = codes "estop"

abbrev pub mode_key : Text
mode_key = codes "mode"

abbrev pub alliance_key : Text
alliance_key = codes "alliance"

-- `if (!v.empty()) write(v);`
abbrev pub if_given : Text → (Text → DaemonState → DaemonState) → DaemonState → DaemonState
if_given [] write s = s
if_given (b ∷ bs) write s = write (b ∷ bs) s

-- The four writes, each a step of its own, with no other writer between them.
unfoldable pub handle_set_control : Text → DaemonState → DaemonState
handle_set_control body s =
    let s1 = if_given (extract enabled_key body) (λ v. set_enabled (is_true v)) s in
    let s2 = if_given (extract estop_key body) (λ v. set_e_stop (is_true v)) s1 in
    let s3 = if_given (extract mode_key body) (λ v. set_mode (mode_from_form (from_chars v))) s2 in
    if_given (extract alliance_key body) (λ v. set_alliance (bounded (from_chars v))) s3

-- The HTTP status of `handle_healthz`: the 99th percentile against 25 milliseconds.
unfoldable pub healthz_status : CadenceTracker → ℕ
healthz_status t = if ltb_ℤ (p99_us t).0 (pos 25000) then 200 else 503
