-- ===== src/Prelude/Equality.antt =====
-- Python's `==` on numbers, texts and lists of code points, as one interface.
use Prim.Native.Nat.{ℕ}
use Prim.Native.Char.{code}
use Prim.Native.String.{String}
use mathlib.Core.Path.{◌≡◌, refl}
use mathlib.Core.Logic.{◌↔◌}
use mathlib.Core.Bool.{Bool, true, false, ◌&&◌}
use mathlib.Core.List.{List, [], ◌∷◌}
use native.Mathlib.Omega.{arith}
use ws_collab.Prelude.Tests.{nat_beq}

-- `x == y`, and that it tells equal values from others.
pub record Eq {ℓ} (K : Type ℓ) : Type ℓ where
  pub same : K → K → Bool
  pub same_iff : (x y : K) → (same x y ≡ true) ↔ (x ≡ y)

infix 50 ◌==◌
module _ {ℓ} {K : Type ℓ} ⦃e : Eq K⦄ where
  abbrev pub ◌==◌ : K → K → Bool
  ◌==◌ = e.same

pub nat_beq_iff : (a b : ℕ) → (nat_beq a b ≡ true) ↔ (a ≡ b)
nat_beq_iff a b = ground arith

instance abbrev pub nat_eq : Eq ℕ
nat_eq = record { same = nat_beq; same_iff = nat_beq_iff }

-- A text as its code points, where the program walks or joins it.
abbrev pub Text : Type 0
Text = List ℕ

abbrev pub codes : String → Text
codes String.[] = []
codes (String.◌∷◌ c s) = code c ∷ codes s

abbrev pub text_beq : Text → Text → Bool
text_beq [] [] = true
text_beq (a ∷ x) (b ∷ y) = nat_beq a b && text_beq x y
text_beq _ _ = false

text_beq_sound : (x y : Text) → text_beq x y ≡ true → x ≡ y
text_beq_sound [] [] h = refl
text_beq_sound [] (b ∷ y) h = cc
text_beq_sound (a ∷ x) [] h = cc
text_beq_sound (a ∷ x) (b ∷ y) h = ground (arith, text_beq_sound x y)

text_beq_refl : (x : Text) → text_beq x x ≡ true
text_beq_refl [] = refl
text_beq_refl (a ∷ x) = ground (arith, text_beq_refl x)

pub text_beq_iff : (x y : Text) → (text_beq x y ≡ true) ↔ (x ≡ y)
text_beq_iff x y = (text_beq_sound x y, λ e. rw e (text_beq_refl y))

instance abbrev pub text_eq : Eq Text
text_eq = record { same = text_beq; same_iff = text_beq_iff }
