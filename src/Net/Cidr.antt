-- ===== src/Net/Cidr.antt =====
-- `net.ParseCIDR` and `IPNet.Contains`.
use Prim.Native.Nat.{bit_and}
use recon_sr.Base.{
  ℕ, zero, suc, ◌+◌, ◌-◌, ◌*◌, ◌/◌, ◌^◌, ◌≡◌, refl, Bool, true, false, List, [], ◌∷◌, Option, none,
  some, Text, codes, length, leb, ltb, ◌==◌, ◌&&◌, if◌then◌else◌, take, drop, ◌>>=◌,
}
use recon_sr.Strings.{is_digit, is_empty, index_byte}
use recon_sr.Net.{Ip, to4}
use recon_sr.Net.Parse.{parse_addr, parse_ip}

pub record IpNet : Type 0 where
  pub ip : Ip
  pub mask : List ℕ

-- `dtoi` on the whole text: digits only, below 0xFFFFFF.
unfoldable pub dtoi_from : ℕ → Text → Option ℕ
dtoi_from n [] = some n
dtoi_from n (c ∷ s) =
    let n' = n * 10 + (c - b'0') in
    let rest = dtoi_from n' s in
    if is_digit c then (if leb 0xFFFFFF n' then none else rest) else none

unfoldable pub dtoi : Text → Option ℕ
unfolding dtoi_from
dtoi s = if is_empty s then none else dtoi_from 0 s

-- `CIDRMask`, byte by byte: `bytes` bytes of which `ones` bits are set.
unfoldable pub cidr_mask : ℕ → ℕ → List ℕ
cidr_mask zero ones = []
cidr_mask (suc bytes) ones =
    let full = 255 ∷ cidr_mask bytes (ones - 8) in
    let last = (255 - 255 / 2 ^ ones) ∷ cidr_mask bytes 0 in if leb 8 ones then full else last

unfoldable pub mask_bytes : List ℕ → List ℕ → List ℕ
mask_bytes [] ms = []
mask_bytes (b ∷ bs) [] = []
mask_bytes (b ∷ bs) (m ∷ ms) = bit_and b m ∷ mask_bytes bs ms

unfoldable pub parse_cidr : Text → Option IpNet
unfolding parse_addr dtoi cidr_mask mask_bytes index_byte
parse_cidr s = index_byte s b'/' >>= λ i. parse_addr (take i s) >>= λ addr.
    dtoi (drop (suc i) s) >>= λ n.
    if ltb (8 * length addr) n
    then none
    else let mask = cidr_mask (length addr) n in
      some (record { ip = mask_bytes addr mask; mask = mask })

unfoldable pub eq_masked : List ℕ → List ℕ → List ℕ → Bool
eq_masked [] [] ms = true
eq_masked (a ∷ s) (b ∷ t) (m ∷ ms) = bit_and a m == bit_and b m && eq_masked s t ms
eq_masked s t ms = false

abbrev pub short {ℓ} : {A : Type ℓ} → A → Option A → A
short a none = a
short a (some b) = b

-- `networkNumberAndMask`: an IPv4 network may be stored with a mask of 16 bytes.
unfoldable pub network_number : IpNet → Option (List ℕ × List ℕ)
unfolding to4
network_number net = elim (to4 net.ip) [
  | some ip ↦
      if length net.mask == 4
      then some (ip, net.mask)
      else if length net.mask == 16
      then some (ip, drop 12 net.mask)
      else none
  | none ↦ if length net.ip == 16 && length net.mask == 16 then some (net.ip, net.mask) else none
]

-- `IPNet.Contains`
unfoldable pub net_contains : IpNet → Ip → Bool
unfolding network_number to4 eq_masked
net_contains net ip = elim (network_number net) [
  | none ↦ false
  | some (nn, m) ↦
      let x = short ip (to4 ip) in if length x == length nn then eq_masked x nn m else false
]

abbrev in_cidr : Text → Text → Option Bool
in_cidr cidr ip = parse_cidr cidr >>= λ net. parse_ip ip >>= λ addr. some (net_contains net addr)

contains_test :
    (in_cidr (codes "10.1.0.0/15") (codes "10.0.255.1") ≡ some true)
    × (in_cidr (codes "10.1.0.0/16") (codes "10.0.255.1") ≡ some false)
    × (in_cidr (codes "10.1.0.0/33") (codes "10.0.255.1") ≡ none)
    × (in_cidr (codes "::/0") (codes "10.0.255.1") ≡ some false)
    × (in_cidr (codes "2001:db8::/32") (codes "2001:db8:1::1") ≡ some true)
unfolding parse_cidr parse_ip net_contains
contains_test = (refl, refl, refl, refl, refl)
