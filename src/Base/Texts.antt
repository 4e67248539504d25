-- ===== src/Base/Texts.antt =====
-- A Go string: its bytes. A literal is the list of its code points, which are its bytes since the
-- program's literals are ASCII.
use Prim.Native.Nat.{ℕ}
use Prim.Native.Char.{code}
use Prim.Native.String.{String}
use mathlib.Core.Path.{◌≡◌, refl}
use mathlib.Core.Logic.{◌≢◌, ◌↔◌, ◌⊎◌}
use mathlib.Core.Bool.{Bool, true, false, ◌&&◌}
use mathlib.Core.List.{List, [], ◌∷◌, Memᴰ}
use mathlib.Core.List.Memᴰ
use native.Mathlib.Omega.{arith}
use recon_sr.Base.Tests.{◌==◌, if◌then◌else◌}
use recon_sr.Base.Lists.{Memᴰ-cons}

abbrev pub Text : Type 0
Text = List ℕ

abbrev pub codes : String → Text
codes String.[] = []
codes (String.◌∷◌ c s) = code c ∷ codes s

-- `a == b` on strings.
unfoldable pub eq_text : Text → Text → Bool
eq_text [] [] = true
eq_text [] (b ∷ t) = false
eq_text (a ∷ s) [] = false
eq_text (a ∷ s) (b ∷ t) = a == b && eq_text s t

pub eq_text_iff : (a b : Text) → (eq_text a b ≡ true) ↔ (a ≡ b)
unfolding eq_text
eq_text_iff [] [] = (λ _. refl, λ _. refl)
eq_text_iff [] (b ∷ t) = (λ h. cc, λ h. cc)
eq_text_iff (a ∷ s) [] = (λ h. cc, λ h. cc)
eq_text_iff (a ∷ s) (b ∷ t) = ground (arith, eq_text_iff s t)

pub eq_text_refl : (a : Text) → eq_text a a ≡ true
eq_text_refl a = (eq_text_iff a a).1 refl

pub ne_of_eq_text : (a b : Text) → eq_text a b ≡ false → a ≢ b
ne_of_eq_text a b h e = ground (arith, eq_text_iff a b)

pub Text-cases : (a b : Text) → (a ≡ b) ⊎ (a ≢ b)
Text-cases a b = ground (arith, eq_text_iff a b)

-- `slices.Contains` on strings, which the source writes out as a loop.
unfoldable pub mem_text : Text → List Text → Bool
mem_text t [] = false
mem_text t (s ∷ ss) = if eq_text s t then true else mem_text t ss

pub mem_text_iff : (t : Text) (ss : List Text) → (mem_text t ss ≡ true) ↔ Memᴰ t ss
unfolding mem_text
mem_text_iff t [] = (λ e. cc, λ m. absurd (Memᴰ.not-nil m))
mem_text_iff t (s ∷ ss) = ground (arith, mem_text_iff t ss, eq_text_iff s t, Memᴰ-cons t s ss)

pub mem_text-false_iff : (t : Text) (ss : List Text) → (mem_text t ss ≡ false) ↔ (¬ Memᴰ t ss)
mem_text-false_iff t ss = ground (arith, mem_text_iff t ss)
