-- ===== src/Validator/Hosts.antt =====
-- The names that `validateDomain` accepts are host names.
use recon_sr.Base.{ℕ, ◌≤◌, ◌≡◌, refl, true, List, [], ◌∷◌, Text, arith, All, ◌⊎◌, length, all}
use recon_sr.Libs.{Libs}
use recon_sr.Strings.{is_digit}
use recon_sr.Strings.Split.{split}
use recon_sr.Validator.Types.{is_label_char}
use recon_sr.Validator.Domain.{host_ok, label_ok, last_part}
use recon_sr.Validator.Labels.{NotFirst, NotLast, split-NotFirst, split-NotLast}

abbrev pub IsDigit : ℕ → Type 0
IsDigit c = (b'0' ≤ c) × (c ≤ b'9')

abbrev pub IsLabelChar : ℕ → Type 0
IsLabelChar c = (b'a' ≤ c) × (c ≤ b'z') ⊎ IsDigit c ⊎ (c ≡ b'-')

-- 1 to 63 lower-case letters, digits and hyphens, with no hyphen at either end.
pub record IsLabel (p : Text) : Type 0 where
  pub not_empty : 1 ≤ length p
  pub short : length p ≤ 63
  pub chars : All IsLabelChar p
  pub first : NotFirst b'-' p
  pub last : NotLast b'-' p

pub record IsHostName (s : Text) : Type 0 where
  pub at_least : 3 ≤ length s
  pub at_most : length s ≤ 253
  pub several : 2 ≤ length (split b'.' s)
  pub labels : All IsLabel (split b'.' s)
  pub not_numeric : ¬ All IsDigit (last_part (split b'.' s))

is_label_char-IsLabelChar : (c : ℕ) → is_label_char c ≡ true → IsLabelChar c
is_label_char-IsLabelChar c h = ground arith

All-IsLabelChar : (p : Text) → all is_label_char p ≡ true → All IsLabelChar p
All-IsLabelChar [] h = tt
All-IsLabelChar (c ∷ p) h =
    (is_label_char-IsLabelChar c (ground arith), All-IsLabelChar p (ground arith))

all-is_digit : (p : Text) → All IsDigit p → all is_digit p ≡ true
all-is_digit [] h = refl
all-is_digit (c ∷ p) (h, hs) = ground (arith, all-is_digit p hs)

label_ok-IsLabel : (p : Text) → label_ok p ≡ true → NotFirst b'-' p → NotLast b'-' p → IsLabel p
unfolding label_ok
label_ok-IsLabel p h f l = record {
  not_empty = ground arith;
  short = ground arith;
  chars = All-IsLabelChar p (ground arith);
  first = f;
  last = l;
}

All-IsLabel :
    (ps : List Text)
    → all label_ok ps ≡ true
    → All (NotFirst b'-') ps
    → All (NotLast b'-') ps
    → All IsLabel ps
All-IsLabel [] h f l = tt
All-IsLabel (p ∷ ps) h (f, fs) (l, ls) =
    (label_ok-IsLabel p (ground arith) f l, All-IsLabel ps (ground arith) fs ls)

pub host_ok-IsHostName : (lib : Libs) (s : Text) → host_ok lib s ≡ true → IsHostName s
unfolding host_ok
host_ok-IsHostName lib s h = record {
  at_least = ground arith;
  at_most = ground arith;
  several = ground arith;
  labels =
      All-IsLabel (split b'.' s) (ground arith)
        (split-NotFirst b'.' b'-' (omega arith) s (ground arith) (ground arith))
        (split-NotLast b'.' b'-' (omega arith) s (ground arith) (ground arith));
  not_numeric = λ d. ground (arith, all-is_digit _ d);
}
