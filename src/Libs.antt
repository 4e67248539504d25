-- ===== src/Libs.antt =====
-- What the program calls and does not implement: `golang.org/x/net/idna` and
-- `golang.org/x/net/publicsuffix` (internal/validator), and the Unicode case tables that
-- `strings.ToLower` and `strings.ToUpper` consult for a text that is not ASCII.
use recon_sr.Base.{Text, Option, Bool}

pub record Libs : Type 0 where
  -- `idna.ToASCII`; `none` is its error.
  pub to_ascii : Text → Option Text
  -- `publicsuffix.PublicSuffix`: the suffix, and whether the ICANN section manages it.
  pub public_suffix : Text → Text × Bool
  -- `publicsuffix.EffectiveTLDPlusOne`; `none` is its error.
  pub etld_plus_one : Text → Option Text
  pub lower_runes : Text → Text
  pub upper_runes : Text → Text
