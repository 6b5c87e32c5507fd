-- ===== src/Runtime.antt =====
-- linux_runtime.hpp and linux_runtime.cpp: the lock of the memory and the messages to systemd. The variable NOTIFY_SOCKET, and
-- whether the socket is made, are inputs; what is sent is the output.
pub mod Address
use pi5_system_surrogate.Prelude.{
  ℕ, zero, suc, ◌-◌, Bool, if◌then◌else◌, ◌==◌, Option, none, some, List, [], ◌∷◌, ◌++◌, length,
  take, replicate,
}
use pi5_system_surrogate.Prelude.Int.{ℤ, pos, eqb_ℤ}
use pi5_system_surrogate.Prelude.Text.{Text, codes}

-- The size of `sun_path` on Linux.
abbrev pub sun_path_size : ℕ
sun_path_size = 108

-- `strncpy` of a C string into a field of `n` bytes, with zeros behind it.
unfoldable pub strncpy : ℕ → Text → Text
strncpy zero source = []
strncpy (suc n) [] = 0 ∷ strncpy n []
strncpy (suc n) (c ∷ cs) = c ∷ strncpy n cs

-- `sun_path`, whole: the call of `sendto` gives the size of the whole structure.
unfoldable pub address : Text → Text
unfolding strncpy
address [] = replicate sun_path_size 0
address (c ∷ cs) =
    if c == b'@'
    then 0 ∷ (strncpy (sun_path_size - 2) cs ++ 0 ∷ [])
    else strncpy (sun_path_size - 1) (c ∷ cs) ++ 0 ∷ []

-- What `sendto` is given.
pub record Datagram : Type 0 where
  pub sun_path : Text
  pub payload : Text

-- `getenv`, and whether `socket` succeeds, are the first two arguments.
unfoldable pub notify_raw : Option Text → Bool → Text → List Datagram
unfolding address
notify_raw none opened payload = []
notify_raw (some []) opened payload = []
notify_raw (some (c ∷ cs)) opened payload =
    if opened then record { sun_path = address (c ∷ cs); payload = payload } ∷ [] else []

-- Whether `mlockall`, whose result is the argument, locks the memory.
unfoldable pub lock_all_memory : ℤ → Bool
lock_all_memory result = eqb_ℤ result (pos 0)

pub data NotifyKind : Type 0 where
  ready watchdog stopping : NotifyKind

unfoldable pub notify : Option Text → Bool → NotifyKind → List Datagram
unfolding notify_raw
notify socket opened ready = notify_raw socket opened (codes "READY=1")
notify socket opened watchdog = notify_raw socket opened (codes "WATCHDOG=1")
notify socket opened stopping = notify_raw socket opened (codes "STOPPING=1")
