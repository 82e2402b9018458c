-- ===== src/Prelude/Text.antt =====
-- Go strings: lists of bytes, with equality, the byte-wise order of `<`, and prefixes.
use Prim.Native.Nat.{ℕ}
use Prim.Native.Char.{code}
use Prim.Native.String.{String}
use mathlib.Core.Path.{◌≡◌, refl}
use mathlib.Core.Logic.{◌↔◌}
use mathlib.Core.Bool.{Bool, true, false, ◌&&◌}
use mathlib.Core.List.{List, [], ◌∷◌}
use native.Mathlib.Omega.{arith}
use sloff.Prelude.Tests.{if◌then◌else◌, ltb, nat_eq}
use sloff.Prelude.Keys.{Eq}

abbrev pub Str : Type 0
Str = List ℕ

-- The bytes of an ASCII literal.
abbrev pub bytes : String → Str
bytes String.[] = []
bytes (String.◌∷◌ c s) = code c ∷ bytes s

abbrev pub str_eq : Str → Str → Bool
str_eq [] [] = true
str_eq (a ∷ s) (b ∷ t) = nat_eq a b && str_eq s t
str_eq _ _ = false

pub str_eq_iff : (s t : Str) → (str_eq s t ≡ true) ↔ (s ≡ t)
str_eq_iff [] [] = (λ _. refl, λ _. refl)
str_eq_iff [] (b ∷ t) = (λ h. cc, λ h. cc)
str_eq_iff (a ∷ s) [] = (λ h. cc, λ h. cc)
str_eq_iff (a ∷ s) (b ∷ t) = ground (arith, str_eq_iff s t)

instance abbrev pub Str_Eq : Eq Str
Str_Eq = record { same_as = str_eq; same_iff = str_eq_iff }

-- `s < t` on strings.
unfoldable pub str_ltb : Str → Str → Bool
str_ltb [] [] = false
str_ltb [] (b ∷ t) = true
str_ltb (a ∷ s) [] = false
str_ltb (a ∷ s) (b ∷ t) =
    let rest = str_ltb s t in if ltb a b then true else if ltb b a then false else rest

pub str_ltb_irrefl : (s : Str) → str_ltb s s ≡ false
unfolding str_ltb
str_ltb_irrefl [] = refl
str_ltb_irrefl (a ∷ s) = ground (arith, str_ltb_irrefl s)

pub str_ltb_trans : (s t u : Str) → str_ltb s t ≡ true → str_ltb t u ≡ true → str_ltb s u ≡ true
unfolding str_ltb
str_ltb_trans [] [] u h k = cc
str_ltb_trans [] (b ∷ t) [] h k = cc
str_ltb_trans [] (b ∷ t) (c ∷ u) h k = refl
str_ltb_trans (a ∷ s) [] u h k = cc
str_ltb_trans (a ∷ s) (b ∷ t) [] h k = cc
str_ltb_trans (a ∷ s) (b ∷ t) (c ∷ u) h k = ground (arith, str_ltb_trans s t u)

-- Two strings, neither below the other, are one string.
pub str_ltb_connex : (s t : Str) → str_ltb s t ≡ false → str_ltb t s ≡ false → s ≡ t
unfolding str_ltb
str_ltb_connex [] [] h k = refl
str_ltb_connex [] (b ∷ t) h k = cc
str_ltb_connex (a ∷ s) [] h k = cc
str_ltb_connex (a ∷ s) (b ∷ t) h k = ground (arith, str_ltb_connex s t)

-- `strings.HasPrefix(s, p)`
unfoldable pub has_prefix : Str → Str → Bool
has_prefix s [] = true
has_prefix [] (b ∷ p) = false
has_prefix (a ∷ s) (b ∷ p) = nat_eq a b && has_prefix s p

pub str_ltb_asym : (s t : Str) → str_ltb s t ≡ true → str_ltb t s ≡ false
unfolding str_ltb
str_ltb_asym [] [] h = cc
str_ltb_asym [] (b ∷ t) h = refl
str_ltb_asym (a ∷ s) [] h = cc
str_ltb_asym (a ∷ s) (b ∷ t) h = ground (arith, str_ltb_asym s t)

-- `t >= s` and `u >= t` give `u >= s`.
pub str_geb_trans : (s t u : Str) → str_ltb t s ≡ false → str_ltb u t ≡ false → str_ltb u s ≡ false
unfolding str_ltb
str_geb_trans [] t [] h k = refl
str_geb_trans [] t (c ∷ u) h k = refl
str_geb_trans (a ∷ s) [] u h k = cc
str_geb_trans (a ∷ s) (b ∷ t) [] h k = cc
str_geb_trans (a ∷ s) (b ∷ t) (c ∷ u) h k = ground (arith, str_geb_trans s t u)
