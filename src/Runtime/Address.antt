-- ===== src/Runtime/Address.antt =====
-- The address that a message to systemd goes to.
use pi5_system_surrogate.Prelude.{
  ℕ, zero, suc, ◌+◌, ◌≤◌, ◌≡◌, ◌≢◌, refl, sym, ap, ◌∙◌, true, false, ◌==◌, if◌then◌else◌, some,
  List, [], ◌∷◌, ◌++◌, length, length-append, take, drop, arith,
}
use pi5_system_surrogate.Prelude.Text.{Text, codes}
use pi5_system_surrogate.Runtime.{
  sun_path_size, strncpy, address, Datagram, NotifyKind, ready, watchdog, stopping, notify,
  notify_raw,
}

-- No byte is zero.
abbrev pub NoNul : Text → Type 0
NoNul [] = Unit
NoNul (b ∷ bs) = ((b == 0) ≡ false) × NoNul bs

-- The C string at the front.
abbrev pub up_to_nul : Text → Text
up_to_nul [] = []
up_to_nul (b ∷ bs) = let rest = up_to_nul bs in if b == 0 then [] else b ∷ rest

up_to_nul-strncpy :
    (n : ℕ) (source : Text) → NoNul source → up_to_nul (strncpy n source ++ 0 ∷ []) ≡ take n source
unfolding strncpy
up_to_nul-strncpy zero source h = refl
up_to_nul-strncpy (suc n) [] h = refl
up_to_nul-strncpy (suc n) (c ∷ cs) h = rw (h.0) (ap (λ x. c ∷ x) (up_to_nul-strncpy n cs h.1))

length-strncpy : (n : ℕ) (source : Text) → length (strncpy n source) ≡ n
unfolding strncpy
length-strncpy zero source = refl
length-strncpy (suc n) [] = ap suc (length-strncpy n [])
length-strncpy (suc n) (c ∷ cs) = ap suc (length-strncpy n cs)

-- The message of a kind.
abbrev pub payload_of : NotifyKind → Text
payload_of ready = codes "READY=1"
payload_of watchdog = codes "WATCHDOG=1"
payload_of stopping = codes "STOPPING=1"

sends-one :
    (kind : NotifyKind) (c : ℕ) (cs : Text)
    → notify (some (c ∷ cs)) true kind
      ≡ record { sun_path = address (c ∷ cs); payload = payload_of kind } ∷ []
unfolding notify notify_raw
sends-one ready c cs = refl
sends-one watchdog c cs = refl
sends-one stopping c cs = refl

address-path :
    (c : ℕ) (cs : Text) → (c == b'@') ≡ false → address (c ∷ cs) ≡ strncpy 107 (c ∷ cs) ++ 0 ∷ []
unfolding address
address-path c cs other = rw other refl

address-abstract : (name : Text) → address (b'@' ∷ name) ≡ 0 ∷ (strncpy 106 name ++ 0 ∷ [])
unfolding address
address-abstract name = refl

length-padded : (n : ℕ) (source : Text) → length (strncpy n source ++ 0 ∷ []) ≡ n + 1
length-padded n source =
    omega (arith, length-append (strncpy n source) (0 ∷ []), length-strncpy n source)

-- The one message that goes to the socket of a service.
pub record Reaches (kind : NotifyKind) (sent : List Datagram) : Type 0 where
  pub datagram : Datagram
  pub only : sent ≡ datagram ∷ []
  pub size : length datagram.sun_path ≡ sun_path_size
  pub payload : datagram.payload ≡ payload_of kind

notify-Reaches :
    (kind : NotifyKind) (c : ℕ) (cs : Text)
    → length (address (c ∷ cs)) ≡ sun_path_size
    → Reaches kind (notify (some (c ∷ cs)) true kind)
notify-Reaches kind c cs size = record {
  datagram = record { sun_path = address (c ∷ cs); payload = payload_of kind };
  only = sends-one kind c cs;
  size = size;
  payload = refl;
}

-- For a socket's path without a zero byte that does not begin with '@', if the socket is made, one
-- message of the kind is sent, to an address of the size of sun_path whose text is the path, cut to
-- 107 bytes.
pub notify-path :
    (kind : NotifyKind) (c : ℕ) (cs : Text)
    → (c == b'@') ≡ false
    → NoNul (c ∷ cs)
    → (r : Reaches kind (notify (some (c ∷ cs)) true kind)) × (up_to_nul r.datagram.sun_path
        ≡ take 107 (c ∷ cs))
unfolding notify-Reaches address
notify-path kind c cs other no_nul =
    let e = address-path c cs other in
    (
      notify-Reaches kind c cs (ap length e ∙ length-padded 107 (c ∷ cs)),
      ap up_to_nul e ∙ up_to_nul-strncpy 107 (c ∷ cs) no_nul,
    )

-- For an abstract socket's name of at most 106 bytes, if the socket is made, one message of the
-- kind is sent, to an address of the size of sun_path whose name, the bytes behind the first, is
-- never the name that was asked for.
pub notify-abstract :
    (kind : NotifyKind) (name : Text)
    → length name ≤ 106
    → (r : Reaches kind (notify (some (b'@' ∷ name)) true kind)) × (drop 1 r.datagram.sun_path
        ≢ name)
unfolding notify-Reaches address
notify-abstract kind name small =
    let e = address-abstract name in
    let long = length-padded 106 name in
    (
      notify-Reaches kind b'@' name (ap length e ∙ omega (arith, long)),
      λ q. omega (arith, long, ap length (sym (ap (drop 1) e) ∙ q)),
    )
