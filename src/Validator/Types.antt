-- ===== src/Validator/Types.antt =====
-- internal/validator/validator.go: the result of a validation, and the tests on tags and labels.
use recon_sr.Base.{ℕ, Bool, ◌&&◌, ◌||◌, not, Text, all, leb, ◌==◌}
use recon_sr.Strings.{is_empty, is_digit}

-- The struct `Result`. A failed validation is `none`: the one error that the functions below
-- return is `ErrInvalidSyntax`.
pub record Result : Type 0 where
  pub type : Text
  pub value : Text
  pub anchor : Text

abbrev pub is_lower : ℕ → Bool
is_lower c = leb b'a' c && leb c b'z'

abbrev pub is_tag_char : ℕ → Bool
is_tag_char c = is_lower c || is_digit c || c == b'-' || c == b'_' || c == b'.'

-- `ValidateTag`; false is `ErrInvalidTag`.
unfoldable pub validate_tag : Text → Bool
validate_tag tag = not (is_empty tag) && all is_tag_char tag

abbrev pub is_label_char : ℕ → Bool
is_label_char c = is_lower c || is_digit c || c == b'-'
