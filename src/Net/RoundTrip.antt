-- ===== src/Net/RoundTrip.antt =====
-- An IPv4 address is parsed back from its dotted form.
use recon_sr.Base.{
  ℕ, true, false, append-nil, ◌<◌, ◌≡◌, refl, List, [], ◌∷◌, ◌++◌, some, Text, arith, length,
}
use recon_sr.Strings.{is_empty}
use recon_sr.Strings.Split.{join}
use recon_sr.Net.{mapped_prefix, to4}
use recon_sr.Net.Parse.{parse_ip, parse_addr, ipv4_fields, addr_form}
use recon_sr.Net.Format.{format_byte, format_ipv4, format_ip}

-- One octet is read up to the dot that follows it.
octet_dot :
    (v : ℕ) (done : List ℕ) (s : Text)
    → v < 256
    → length done < 3
    → is_empty s ≡ false
    → ipv4_fields 0 0 done (format_byte v ++ b'.' ∷ s) ≡ ipv4_fields 0 0 (done ++ v ∷ []) s
unfolding ipv4_fields format_byte
octet_dot v done s h k e = ground arith

octet_end :
    (v : ℕ) (done : List ℕ)
    → v < 256
    → length done ≡ 3
    → ipv4_fields 0 0 done (format_byte v) ≡ some (done ++ v ∷ [])
unfolding ipv4_fields format_byte
octet_end v done h k = ground arith

format_byte_nonempty : (v : ℕ) (s : Text) → is_empty (format_byte v ++ s) ≡ false
unfolding format_byte
format_byte_nonempty v s = ground arith

format_byte_alone : (v : ℕ) → is_empty (format_byte v) ≡ false
unfolding format_byte
format_byte_alone v = ground arith

-- Only digits stand before the first dot.
addr_form-format_byte :
    (v : ℕ) (s : Text) → v < 256 → addr_form (format_byte v ++ b'.' ∷ s) ≡ some true
unfolding addr_form format_byte
addr_form-format_byte v s h = ground arith

parse_ip-dotted :
    (s : Text) (a b c d : ℕ)
    → addr_form s ≡ some true
    → ipv4_fields 0 0 [] s ≡ some (a ∷ b ∷ c ∷ d ∷ [])
    → parse_ip s ≡ some (mapped_prefix ++ a ∷ b ∷ c ∷ d ∷ [])
unfolding parse_ip parse_addr
parse_ip-dotted s a b c d h k = ground arith

module _ (a b c d : ℕ) (ha : a < 256) (hb : b < 256) (hc : c < 256) (hd : d < 256) where
  ipv4_fields-format :
      ipv4_fields 0 0 [] (format_ipv4 (a ∷ b ∷ c ∷ d ∷ [])) ≡ some (a ∷ b ∷ c ∷ d ∷ [])
  unfolding format_ipv4 join
  ipv4_fields-format =
      rw
        (
          append-nil,
          octet_dot a [] _ ha (omega arith) (format_byte_nonempty b _),
          octet_dot b (a ∷ []) _ hb (omega arith) (format_byte_nonempty c _),
          octet_dot c (a ∷ b ∷ []) _ hc (omega arith) (format_byte_alone d),
        )
        (octet_end d (a ∷ b ∷ c ∷ []) hd refl)

  addr_form-format : addr_form (format_ipv4 (a ∷ b ∷ c ∷ d ∷ [])) ≡ some true
  unfolding format_ipv4 join
  addr_form-format = addr_form-format_byte a _ ha

  pub parse_ip-format_ipv4 :
      parse_ip (format_ipv4 (a ∷ b ∷ c ∷ d ∷ [])) ≡ some (mapped_prefix ++ a ∷ b ∷ c ∷ d ∷ [])
  parse_ip-format_ipv4 = parse_ip-dotted _ a b c d addr_form-format ipv4_fields-format

  pub format_ip-mapped :
      format_ip (mapped_prefix ++ a ∷ b ∷ c ∷ d ∷ []) ≡ format_ipv4 (a ∷ b ∷ c ∷ d ∷ [])
  unfolding format_ip to4
  format_ip-mapped = refl
