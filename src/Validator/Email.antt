-- ===== src/Validator/Email.antt =====
-- `validateEmail` of internal/validator/validator.go. The source walks the runes of the local part;
-- every rune that it tests for is ASCII, so a walk over the bytes takes the same branches.
use recon_sr.Base.{
  ℕ, suc, ◌-◌, Bool, true, false, ◌&&◌, ◌||◌, not, List, [], ◌∷◌, ◌++◌, Option, none, some, Text,
  codes, length, leb, ltb, ◌==◌, if◌then◌else◌, ◌>>=◌, is_some, take, drop, any,
}
use recon_sr.Libs.{Libs}
use recon_sr.Strings.{is_digit, has_prefix, has_suffix, last_index_byte, to_lower}
use recon_sr.Strings.Ends.{last_is}
use recon_sr.Strings.Trim.{trim_space}
use recon_sr.Net.Parse.{parse_ip}
use recon_sr.Validator.Types.{Result, is_lower}
use recon_sr.Validator.Domain.{validate_domain}

-- `standardChars`
unfoldable pub is_standard : ℕ → Bool
is_standard c =
    is_lower c || leb b'A' c && leb c b'Z' || is_digit c || any (λ d. c == d) (codes "-_+'")

-- `extraAtextChars`
unfoldable pub is_extra_atext : ℕ → Bool
is_extra_atext c = any (λ d. c == d) (codes "!#$%&*/=?^{|}~")

-- The variables of the loop that cuts the local part into words.
pub record LocalScan : Type 0 where
  pub words : List Text
  pub current_word : Text
  pub in_quotes : Bool
  pub escaped : Bool

abbrev pub write : LocalScan → ℕ → LocalScan
write st c = record st { current_word = st.current_word ++ c ∷ [] }

-- One round; `none` is the early return for an escape outside quotes.
unfoldable pub scan_step : LocalScan → ℕ → Option LocalScan
scan_step st c =
    if st.escaped
    then some (record (write st c) { escaped = false })
    else if c == b'\\'
    then (if not st.in_quotes then none else some (record (write st c) { escaped = true }))
    else if c == b'"'
    then some (record (write st c) { in_quotes = not st.in_quotes })
    else if c == b'.' && not st.in_quotes
    then some (record st { words = st.words ++ st.current_word ∷ []; current_word = [] })
    else some (write st c)

unfoldable pub scan_local : LocalScan → Text → Option LocalScan
scan_local st [] = some st
scan_local st (c ∷ s) = scan_step st c >>= λ st'. scan_local st' s

unfoldable pub local_words : Text → Option (List Text)
local_words local_part =
    scan_local (record { words = []; current_word = []; in_quotes = false; escaped = false })
      local_part
    >>= λ st. if st.in_quotes || st.escaped then none else some (st.words ++ st.current_word ∷ [])

-- The inside of a quoted word: no unescaped quote.
unfoldable pub inner_ok : Bool → Text → Bool
inner_ok escaped [] = true
inner_ok escaped (c ∷ s) =
    let plain = inner_ok false s in
    let escape = inner_ok true s in
    if escaped then plain else if c == b'\\' then escape else if c == b'"' then false else plain

-- An unquoted word: whether it is well formed, and whether it has an extra character.
unfoldable pub atom_extra : Text → Option Bool
atom_extra [] = some false
atom_extra (c ∷ s) =
    let rest = atom_extra s in
    let extra = rest >>= λ _. some true in
    if c == b'"'
    then none
    else if is_standard c
    then rest
    else if is_extra_atext c
    then extra
    else none

-- The body of the loop over the words; `some true` sets the type `email-extra`.
unfoldable pub word_extra : Text → Option Bool
word_extra [] = none
word_extra (c ∷ s) =
    if c == b'"'
    then (if ltb (length s) 1 || not (last_is b'"' s)
        then none
        else if inner_ok false (take (length s - 1) s)
        then some true
        else none)
    else atom_extra (c ∷ s)

unfoldable pub words_extra : List Text → Option Bool
words_extra [] = some false
words_extra (w ∷ ws) = word_extra w >>= λ a. words_extra ws >>= λ b. some (a || b)

module _ (lib : Libs) where
  -- The domain part: whether it is an address literal, its value and its anchor.
  unfoldable pub email_domain : Text → Option (Bool × Text × Text)
  email_domain domain_part =
      let literal = take (length domain_part - 2) (drop 1 domain_part) in
      let ip_str =
        if has_prefix (to_lower lib literal) (codes "ipv6:") then drop 5 literal else literal in
      if has_prefix domain_part (codes "[") && has_suffix domain_part (codes "]")
      then (if is_some (parse_ip ip_str) then some (true, domain_part, []) else none)
      else validate_domain lib domain_part >>= λ r. some (false, r.value, r.anchor)

  -- What `validateEmail` does once the `@` is found at `at`.
  unfoldable pub email_at : Text → ℕ → Option Result
  email_at val at =
      let local_part = take at val in
      if at == 0 || at == length val - 1
      then none
      else if ltb 64 (length local_part)
      then none
      else email_domain (drop (suc at) val) >>= λ (literal, domain_value, org_domain).
          local_words local_part >>= λ words. words_extra words >>= λ extra. some (record {
            type = if literal || extra then codes "email-extra" else codes "email";
            value = local_part ++ b'@' ∷ domain_value;
            anchor = org_domain;
          })

  unfoldable pub validate_email : Text → Option Result
  validate_email value =
      let val = trim_space value in
      if ltb 254 (length val) then none else last_index_byte val b'@' >>= λ at. email_at val at
