-- ===== src/Net/Parse.antt =====
-- `netip.ParseAddr`, as `net.ParseIP` calls it: an address with a zone is refused.
use recon_sr.Base.{
  ℕ, zero, suc, ◌+◌, ◌-◌, ◌*◌, ◌/◌, ◌%◌, ◌≡◌, refl, Bool, true, false, not, ◌&&◌, ◌||◌, List, [],
  ◌∷◌, ◌++◌, Option, none, some, Text, codes, length, leb, ltb, ◌==◌, if◌then◌else◌, is_some, take,
  drop, ◌>>=◌,
}
use recon_sr.Strings.{is_digit, is_empty, index_byte}
use recon_sr.Net.{Ip, mapped_prefix}

-- The loop of `parseIPv4Fields`: the value and the number of digits of the octet being read, and
-- the octets before it.
unfoldable pub ipv4_fields : ℕ → ℕ → List ℕ → Text → Option (List ℕ)
ipv4_fields val digits done [] = if length done == 3 then some (done ++ val ∷ []) else none
ipv4_fields val digits done (c ∷ s) =
    let val' = val * 10 + (c - b'0') in
    let longer = ipv4_fields val' (digits + 1) done s in
    let closed = ipv4_fields 0 0 (done ++ val ∷ []) s in
    if is_digit c
    then (if digits == 1 && val == 0 then none else if ltb 255 val' then none else longer)
    else if c == b'.'
    then (if digits == 0 || is_empty s then none else if length done == 3 then none else closed)
    else none

abbrev pub hex_value : ℕ → Option ℕ
hex_value c =
    if is_digit c
    then some (c - b'0')
    else if leb b'a' c && leb c b'f'
    then some (c - b'a' + 10)
    else if leb b'A' c && leb c b'F'
    then some (c - b'A' + 10)
    else none

-- One group of hexadecimal digits: how many were read, their value, and the rest of the text.
unfoldable pub hex_group : ℕ → ℕ → Text → Option (ℕ × ℕ × Text)
hex_group off acc [] = some (off, acc, [])
hex_group off acc (c ∷ s) = elim (hex_value c) [
  | none ↦ some (off, acc, c ∷ s)
  | some d ↦ if ltb 3 off then none else hex_group (suc off) (acc * 16 + d) s
]

-- What the loop of `parseIPv6` leaves: the bytes read and the place of the `::`.
abbrev pub Groups : Type 0
Groups = List ℕ × Option ℕ

-- What follows a group: the end, or a colon and possibly a second one.
unfoldable pub after_group : List ℕ → Option ℕ → Text → Option (List ℕ × Option ℕ × Text)
after_group done ellipsis [] = some (done, ellipsis, [])
after_group done ellipsis (c ∷ []) = none
after_group done ellipsis (c ∷ d ∷ s) =
    if c == b':'
    then (if d == b':'
        then (if is_some ellipsis then none else some (done, some (length done), s))
        else some (done, ellipsis, d ∷ s))
    else none

-- The embedded IPv4 address that may end an IPv6 address.
unfoldable pub embedded : List ℕ → Option ℕ → Text → Option Groups
unfolding ipv4_fields
embedded done ellipsis s =
    if not (is_some ellipsis) && not (length done == 12)
    then none
    else if ltb 16 (length done + 4)
    then none
    else ipv4_fields 0 0 [] s >>= λ fields. some (done ++ fields, ellipsis)

abbrev pub starts_dot : Text → Bool
starts_dot [] = false
starts_dot (c ∷ s) = c == b'.'

-- The loop of `parseIPv6`, which makes eight rounds at most.
unfoldable pub ipv6_groups : ℕ → List ℕ → Option ℕ → Text → Option Groups
unfolding hex_group after_group embedded
ipv6_groups zero done ellipsis s = if is_empty s then some (done, ellipsis) else none
ipv6_groups (suc rounds) done ellipsis s = hex_group 0 0 s >>= λ (off, acc, rest).
    if off == 0
    then none
    else if starts_dot rest
    then embedded done ellipsis s
    else after_group (done ++ acc / 256 ∷ acc % 256 ∷ []) ellipsis rest
      >>= λ (done', ellipsis', rest'). elim rest' [
        | [] ↦ some (done', ellipsis')
        | d ∷ s' ↦ ipv6_groups rounds done' ellipsis' (d ∷ s')
      ]

unfoldable pub zeros : ℕ → List ℕ
zeros zero = []
zeros (suc n) = 0 ∷ zeros n

-- The zeros that a `::` stands for.
unfoldable pub expand : Groups → Option (List ℕ)
unfolding zeros
expand (done, none) = if length done == 16 then some done else none
expand (done, some at) =
    if ltb (length done) 16
    then some (take at done ++ (zeros (16 - length done) ++ drop at done))
    else none

unfoldable pub parse_ipv6 : Text → Option (List ℕ)
unfolding ipv6_groups expand
parse_ipv6 (c ∷ d ∷ s) =
    if c == b':' && d == b':'
    then (if is_empty s then some (zeros 16) else ipv6_groups 8 [] (some 0) s >>= expand)
    else ipv6_groups 8 [] none (c ∷ d ∷ s) >>= expand
parse_ipv6 (c ∷ []) = none
parse_ipv6 [] = none

-- `ParseAddr` looks for the first of `.`, `:` and `%`.
abbrev pub AddrForm : Type 0
AddrForm = Option Bool

-- `some true` for a dotted address, `some false` for one with colons.
unfoldable pub addr_form : Text → AddrForm
addr_form [] = none
addr_form (c ∷ s) =
    let rest = addr_form s in
    if c == b'.'
    then some true
    else if c == b':'
    then some false
    else if c == b'%'
    then none
    else rest

unfoldable pub parse_addr : Text → Option (List ℕ)
unfolding addr_form ipv4_fields parse_ipv6 index_byte
parse_addr s = elim (addr_form s) [
  | none ↦ none
  | some true ↦ ipv4_fields 0 0 [] s
  | some false ↦ if is_some (index_byte s b'%') then none else parse_ipv6 s
]

-- `net.ParseIP`; `none` is nil.
unfoldable pub parse_ip : Text → Option Ip
unfolding parse_addr
parse_ip s =
    parse_addr s >>= λ bytes. some (if length bytes == 4 then mapped_prefix ++ bytes else bytes)

parse_ip_test :
    (parse_ip (codes "10.0.0.255") ≡ some (mapped_prefix ++ 10 ∷ 0 ∷ 0 ∷ 255 ∷ []))
    × (parse_ip (codes "10.0.0.256") ≡ none)
    × (parse_ip (codes "10.0.00.1") ≡ none)
    × (parse_ip (codes "2001:db8::fF1") ≡ some (32 ∷ 1 ∷ 13 ∷ 184 ∷ (zeros 10 ++ 15 ∷ 241 ∷ [])))
    × (parse_ip (codes "::1.2.3.4") ≡ some (zeros 12 ++ 1 ∷ 2 ∷ 3 ∷ 4 ∷ []))
    × (parse_ip (codes "1:2:3:4:5:6:7") ≡ none)
    × (parse_ip (codes "::1%eth0") ≡ none)
    × (parse_ip (codes "1:2:3:4:5:6:7::")
        ≡ some (0 ∷ 1 ∷ 0 ∷ 2 ∷ 0 ∷ 3 ∷ 0 ∷ 4 ∷ 0 ∷ 5 ∷ 0 ∷ 6 ∷ 0 ∷ 7 ∷ 0 ∷ 0 ∷ []))
unfolding parse_ip
parse_ip_test = (refl, refl, refl, refl, refl, refl, refl, refl)
