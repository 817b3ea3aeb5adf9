-- ===== src/Common/Strings.antt =====
-- Rust's `String` and `&str` as the list of their UTF-8 bytes: `len` counts bytes, and the order
-- is the lexicographic order of the bytes.
use Prim.Native.Char.{code}
use Prim.Native.String.{String}
use Prim.Native.Nat.{ℕ}
use mathlib.Core.Path.{◌≡◌, refl}
use mathlib.Core.Logic.{◌↔◌}
use mathlib.Core.Bool.{Bool, true, false, ◌&&◌}
use mathlib.Core.List.{List, [], ◌∷◌}
use mathlib.Core.Option.{Option, none, some}
use native.Mathlib.Omega.{arith}
use wire_app.Common.Tests.{ltb, ◌==◌, if◌then◌else◌}

abbrev pub Text : Type 0
Text = List ℕ

-- The bytes of an ASCII literal.
abbrev pub text : String → Text
text String.[] = []
text (String.◌∷◌ c s) = code c ∷ text s

unfoldable pub text_eq : Text → Text → Bool
text_eq [] [] = true
text_eq [] (y ∷ ys) = false
text_eq (x ∷ xs) [] = false
text_eq (x ∷ xs) (y ∷ ys) = x == y && text_eq xs ys

unfoldable pub text_lt : Text → Text → Bool
text_lt [] [] = false
text_lt [] (y ∷ ys) = true
text_lt (x ∷ xs) [] = false
text_lt (x ∷ xs) (y ∷ ys) = let rest = text_lt xs ys in if x == y then rest else ltb x y

pub text_eq_iff : (a b : Text) → (text_eq a b ≡ true) ↔ (a ≡ b)
unfolding text_eq
text_eq_iff [] [] = (λ _. refl, λ _. refl)
text_eq_iff [] (y ∷ ys) = (λ h. cc, λ h. cc)
text_eq_iff (x ∷ xs) [] = (λ h. cc, λ h. cc)
text_eq_iff (x ∷ xs) (y ∷ ys) =
    (λ h. ground (arith, text_eq_iff xs ys), λ h. ground (arith, text_eq_iff xs ys))

pub text_eq_refl : (a : Text) → text_eq a a ≡ true
text_eq_refl a = (text_eq_iff a a).1 refl

-- `strip_prefix`.
unfoldable pub strip_prefix : Text → Text → Option Text
strip_prefix [] s = some s
strip_prefix (p ∷ ps) [] = none
strip_prefix (p ∷ ps) (c ∷ s) = let rest = strip_prefix ps s in if p == c then rest else none

pub text_lt_asym : (a b : Text) → text_lt a b ≡ true → text_lt b a ≡ false
unfolding text_lt
text_lt_asym [] [] h = refl
text_lt_asym [] (y ∷ ys) h = refl
text_lt_asym (x ∷ xs) [] h = absurd (let f : false ≡ true = h in cc)
text_lt_asym (x ∷ xs) (y ∷ ys) h = ground (arith, text_lt_asym xs ys)

pub text_lt_trans : (a b c : Text) → text_lt a b ≡ true → text_lt b c ≡ true → text_lt a c ≡ true
unfolding text_lt
text_lt_trans a b [] h g = absurd (ground (arith, text_lt_asym [] b))
text_lt_trans [] b (z ∷ zs) h g = refl
text_lt_trans (x ∷ xs) [] (z ∷ zs) h g = absurd (let f : false ≡ true = h in cc)
text_lt_trans (x ∷ xs) (y ∷ ys) (z ∷ zs) h g = ground (arith, text_lt_trans xs ys zs)

text_lt_nil : (a : Text) → text_lt a [] ≡ false
unfolding text_lt
text_lt_nil [] = refl
text_lt_nil (x ∷ xs) = refl

-- Not being less is transitive.
pub text_lt_trans_false :
    (a b c : Text) → text_lt a b ≡ false → text_lt b c ≡ false → text_lt a c ≡ false
unfolding text_lt
text_lt_trans_false a b [] h g = text_lt_nil a
text_lt_trans_false [] [] (z ∷ zs) h g = g
text_lt_trans_false (x ∷ xs) [] (z ∷ zs) h g = absurd (let f : true ≡ false = g in cc)
text_lt_trans_false [] (y ∷ ys) (z ∷ zs) h g = absurd (let f : true ≡ false = h in cc)
text_lt_trans_false (x ∷ xs) (y ∷ ys) (z ∷ zs) h g = ground (arith, text_lt_trans_false xs ys zs)

pub text_lt_total : (a b : Text) → text_lt a b ≡ false → text_lt b a ≡ false → a ≡ b
unfolding text_lt
text_lt_total [] [] h g = refl
text_lt_total [] (y ∷ ys) h g = absurd (let f : true ≡ false = h in cc)
text_lt_total (x ∷ xs) [] h g = absurd (let f : true ≡ false = g in cc)
text_lt_total (x ∷ xs) (y ∷ ys) h g = ground (arith, text_lt_total xs ys)
