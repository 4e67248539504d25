-- ===== src/Net/Format.antt =====
-- `IP.String`: dotted for an IPv4 address, and otherwise the form of RFC 5952.
use recon_sr.Base.{
  ℕ, zero, suc, ◌+◌, ◌-◌, ◌*◌, ◌/◌, ◌%◌, ◌≡◌, refl, not, ◌&&◌, List, [], ◌∷◌, ◌++◌, none, some,
  Text, codes, leb, ltb, ◌==◌, if◌then◌else◌,
}
use recon_sr.Strings.Split.{join}
use recon_sr.Net.{Ip, to4, mapped_prefix}

-- A byte in decimal.
unfoldable pub format_byte : ℕ → Text
format_byte v =
    if ltb v 10
    then (v + b'0') ∷ []
    else if ltb v 100
    then (v / 10 + b'0') ∷ (v % 10 + b'0') ∷ []
    else (v / 100 + b'0') ∷ (v / 10 % 10 + b'0') ∷ (v % 10 + b'0') ∷ []

unfoldable pub format_ipv4 : List ℕ → Text
unfolding format_byte join
format_ipv4 (a ∷ b ∷ c ∷ d ∷ []) =
    join b'.' (format_byte a ∷ format_byte b ∷ format_byte c ∷ format_byte d ∷ [])
format_ipv4 other = []

abbrev pub hex_digit : ℕ → ℕ
hex_digit d = if ltb d 10 then d + b'0' else d - 10 + b'a'

-- `appendHex`: no leading zeros.
unfoldable pub format_group : ℕ → Text
format_group x =
    let a = hex_digit (x / 4096) in
    let b = hex_digit (x / 256 % 16) in
    let c = hex_digit (x / 16 % 16) in
    let d = hex_digit (x % 16) in
    if leb 4096 x
    then a ∷ b ∷ c ∷ d ∷ []
    else if leb 256 x
    then b ∷ c ∷ d ∷ []
    else if leb 16 x
    then c ∷ d ∷ []
    else d ∷ []

unfoldable pub groups : Ip → List ℕ
groups (a ∷ b ∷ s) = (a * 256 + b) ∷ groups s
groups (a ∷ []) = []
groups [] = []

-- The length of the run of zero groups at the front.
unfoldable pub zero_run : List ℕ → ℕ
zero_run [] = 0
zero_run (g ∷ gs) = let rest = zero_run gs in if g == 0 then suc rest else 0

-- The start and the end of the longest run of two zero groups or more, the first of its length.
unfoldable pub longest_run : ℕ → List ℕ → ℕ × ℕ → ℕ × ℕ
unfolding zero_run
longest_run i [] best = best
longest_run i (g ∷ gs) best =
    let l = zero_run (g ∷ gs) in
    longest_run (suc i) gs (if leb 2 l && ltb (best.1 - best.0) l then (i, i + l) else best)

-- The groups from index `i` on; `skip` counts the groups left of the run that `::` stands for.
unfoldable pub format_groups : ℕ × ℕ → ℕ → ℕ → List ℕ → Text
unfolding format_group
format_groups best i skip [] = []
format_groups best i (suc skip) (g ∷ gs) = format_groups best (suc i) skip gs
format_groups best i zero (g ∷ gs) =
    let hidden = format_groups best (suc i) (best.1 - best.0 - 1) gs in
    let shown = format_groups best (suc i) 0 gs in
    if ltb best.0 best.1 && i == best.0
    then b':' ∷ b':' ∷ hidden
    else if ltb 0 i && not (ltb best.0 best.1 && i == best.1)
    then b':' ∷ (format_group g ++ shown)
    else format_group g ++ shown

-- `IP.String`
unfoldable pub format_ip : Ip → Text
unfolding format_ipv4 groups longest_run format_groups to4
format_ip ip = elim (to4 ip) [
  | some four ↦ format_ipv4 four
  | none ↦ format_groups (longest_run 0 (groups ip) (0, 0)) 0 0 (groups ip)
]

format_ip_test :
    (format_ip (mapped_prefix ++ 10 ∷ 0 ∷ 0 ∷ 255 ∷ []) ≡ codes "10.0.0.255")
    × (format_ip (0 ∷ 1 ∷ 0 ∷ 0 ∷ 0 ∷ 0 ∷ 0 ∷ 4 ∷ 0 ∷ 0 ∷ 0 ∷ 0 ∷ 0 ∷ 0 ∷ 0 ∷ 171 ∷ [])
        ≡ codes "1:0:0:4::ab")
unfolding format_ip
format_ip_test = (refl, refl)
