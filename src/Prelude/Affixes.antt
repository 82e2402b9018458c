-- ===== src/Prelude/Affixes.antt =====
-- Suffixes of a string and its first separator, as `strings` of Go's library gives them.
use Prim.Native.Nat.{ℕ}
use mathlib.Core.Path.{◌≡◌, refl, sym, ap, ◌∙◌}
use mathlib.Core.Logic.{inl, inr, ◌≢◌}
use mathlib.Core.Option.{Option, none, some}
use mathlib.Core.List.{[], ◌∷◌, ◌++◌}
use native.Mathlib.Omega.{arith}
use sloff.Prelude.Tests.{if◌then◌else◌, nat_eq, Option-cases}
use sloff.Prelude.Lists.{length, length-append, In}
use sloff.Prelude.Keys.{==-cases, ==_refl, ==_ne, nat_Eq}
use sloff.Prelude.Text.{Str, str_eq, Str_Eq}

-- What stands before the suffix, if the string ends in it: `strings.HasSuffix` and `TrimSuffix`.
unfoldable pub strip_suffix : Str → Str → Option Str
strip_suffix [] suffix = if str_eq [] suffix then some [] else none
strip_suffix (c ∷ s) suffix =
    let rest : Option Str = elim (strip_suffix s suffix) [ none ↦ none | some a ↦ some (c ∷ a) ] in
    if str_eq (c ∷ s) suffix then some [] else rest

-- The parts before and after the first byte c: `strings.Cut`, and `Index` with the slices around it.
unfoldable pub cut : ℕ → Str → Option (Str × Str)
cut c [] = none
cut c (a ∷ s) =
    let rest : Option (Str × Str) = elim (cut c s) [
      | none ↦ none
      | some (before, after) ↦ some (a ∷ before, after)
    ] in
    if nat_eq a c then some ([], s) else rest

pub strip_suffix-append : (s suffix : Str) → strip_suffix (s ++ suffix) suffix ≡ some s
unfolding strip_suffix
strip_suffix-append [] [] = refl
strip_suffix-append [] (c ∷ suffix) = rw (==_refl (c ∷ suffix)) refl
strip_suffix-append (a ∷ s) suffix = rw (==_ne longer) (rw (strip_suffix-append s suffix) refl)
  where
    longer : a ∷ (s ++ suffix) ≢ suffix
    longer e = omega (arith, ap length e, length-append s suffix)

pub append_of-strip_suffix : (s suffix a : Str) → strip_suffix s suffix ≡ some a → s ≡ a ++ suffix
unfolding strip_suffix
append_of-strip_suffix [] suffix a h = elim (==-cases [] suffix) [
  | inl (same, t) ↦ let e : some [] ≡ some a = rw t at h in let eq : [] ≡ a = cc in rw (← eq) same
  | inr (other, f) ↦ let bad : none ≡ some a = rw f at h in cc
]
append_of-strip_suffix (c ∷ s) suffix a h = elim (==-cases (c ∷ s) suffix) [
  | inl (same, t) ↦ let e : some [] ≡ some a = rw t at h in let eq : [] ≡ a = cc in rw (← eq) same
  | inr (other, f) ↦ elim (Option-cases (strip_suffix s suffix)) [
    | inl e ↦ let bad : none ≡ some a = rw (f, e) at h in cc
    | inr (b, e) ↦
        let same : some (c ∷ b) ≡ some a = rw (f, e) at h in
        let eq : c ∷ b ≡ a = cc in
        ap (◌∷◌ c) (append_of-strip_suffix s suffix b e) ∙ ap (λ l. l ++ suffix) eq
  ]
]

pub cut-append :
    (c : ℕ) (before after : Str)
    → ¬ In c before
    → cut c (before ++ c ∷ after) ≡ some (before, after)
unfolding cut
cut-append c [] after n = rw (==_refl c) refl
cut-append c (a ∷ before) after n =
    rw (==_ne (λ e. n (inl (sym e)))) (rw (cut-append c before after (λ m. n (inr m))) refl)

pub append_of-cut :
    (c : ℕ) (s before after : Str) → cut c s ≡ some (before, after) → s ≡ before ++ c ∷ after
unfolding cut
append_of-cut c [] before after h = cc
append_of-cut c (a ∷ s) before after h = elim (==-cases a c) [
  | inl (same, t) ↦
      let e : ◌≡◌ {A = Option (Str × Str)} (some ([], s)) (some (before, after)) = rw t at h in
      let first : [] ≡ before = cc in
      let second : s ≡ after = cc in rw (← first, ← second, same) refl
  | inr (other, f) ↦ elim (Option-cases (cut c s)) [
    | inl e ↦
        let bad : ◌≡◌ {A = Option (Str × Str)} none (some (before, after)) = rw (f, e) at h in cc
    | inr ((b, d), e) ↦
        let same : ◌≡◌ {A = Option (Str × Str)} (some (a ∷ b, d)) (some (before, after)) =
          rw (f, e) at h in
        let first : a ∷ b ≡ before = cc in
        let second : d ≡ after = cc in rw (← first, ← second) (ap (◌∷◌ a) (append_of-cut c s b d e))
  ]
]

-- The byte is not in the part before it.
pub not-In-cut : (c : ℕ) (s before after : Str) → cut c s ≡ some (before, after) → ¬ In c before
unfolding cut
not-In-cut c [] before after h = cc
not-In-cut c (a ∷ s) before after h = elim (==-cases a c) [
  | inl (same, t) ↦
      let e : ◌≡◌ {A = Option (Str × Str)} (some ([], s)) (some (before, after)) = rw t at h in
      let first : [] ≡ before = cc in rw (← first) (λ m. m)
  | inr (other, f) ↦ elim (Option-cases (cut c s)) [
    | inl e ↦
        let bad : ◌≡◌ {A = Option (Str × Str)} none (some (before, after)) = rw (f, e) at h in cc
    | inr ((b, d), e) ↦
        let same : ◌≡◌ {A = Option (Str × Str)} (some (a ∷ b, d)) (some (before, after)) =
          rw (f, e) at h in
        let first : a ∷ b ≡ before = cc in
        rw (← first)
          (λ m. elim m [ inl here ↦ other (sym here) | inr later ↦ not-In-cut c s b d e later ])
  ]
]
