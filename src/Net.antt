-- ===== src/Net.antt =====
-- Go's package `net`, as far as the program calls it: `ParseIP`, `IP.String`, `IP.To4`,
-- `ParseCIDR` and `IPNet.Contains`. An address is the list of its 16 bytes, as `ParseIP` gives it.
pub mod Parse
pub mod Format
pub mod Cidr
pub mod RoundTrip
use recon_sr.Base.{
  ℕ, ◌+◌, ◌-◌, ◌*◌, Bool, true, false, ◌&&◌, ◌||◌, List, [], ◌∷◌, ◌++◌, Option, none, some, Text,
  length, leb, ltb, ◌==◌, if◌then◌else◌, drop,
}

abbrev pub Ip : Type 0
Ip = List ℕ

-- The first bytes of an IPv4 address in its 16-byte form.
abbrev pub mapped_prefix : Ip
mapped_prefix = 0 ∷ 0 ∷ 0 ∷ 0 ∷ 0 ∷ 0 ∷ 0 ∷ 0 ∷ 0 ∷ 0 ∷ 255 ∷ 255 ∷ []

unfoldable pub eq_bytes : List ℕ → List ℕ → Bool
eq_bytes [] [] = true
eq_bytes [] (b ∷ t) = false
eq_bytes (a ∷ s) [] = false
eq_bytes (a ∷ s) (b ∷ t) = a == b && eq_bytes s t

-- `strip p ip` is what follows `p` in `ip`.
unfoldable pub strip : List ℕ → List ℕ → Option (List ℕ)
strip [] s = some s
strip (b ∷ p) [] = none
strip (b ∷ p) (a ∷ s) = if a == b then strip p s else none

-- `IP.To4`; `none` is nil.
unfoldable pub to4 : Ip → Option Ip
unfolding strip
to4 ip =
    if length ip == 4 then some ip else if length ip == 16 then strip mapped_prefix ip else none
