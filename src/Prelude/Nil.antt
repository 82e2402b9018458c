-- ===== src/Prelude/Nil.antt =====
-- When lists and maps are empty.
use mathlib.Core.Path.{◌≡◌, refl, sym, ap, ◌∙◌}
use mathlib.Core.Logic.{◌≢◌, ◌↔◌, inl, inr}
use mathlib.Core.Bool.{Bool}
use mathlib.Core.List.{List, [], ◌∷◌, ◌++◌, map}
use native.Mathlib.Omega.{arith}
use sloff.Prelude.Keys.{Eq, ==-cases}
use sloff.Prelude.Lists.{length}
use sloff.Prelude.Sort.{sort, length-sort}
use sloff.Prelude.Maps.{Map, insert}

cons-ne : {A : Type 0} {x : A} {l : List A} → x ∷ l ≢ []
cons-ne h = cc

pub insert-ne : {K V : Type 0} ⦃eq : Eq K⦄ → (j : K) (v : V) (m : Map K V) → insert j v m ≢ []
unfolding insert
insert-ne ⦃eq⦄ j v [] e = cons-ne e
insert-ne ⦃eq⦄ j v ((i, w) ∷ m) e = elim (==-cases j i) [
  | inl (_, t) ↦ cons-ne (rw t at e)
  | inr (_, f) ↦ cons-ne (rw f at e)
]

pub map-nil : {A B : Type 0} (f : A → B) (xs : List A) → (map f xs ≡ []) ↔ (xs ≡ [])
map-nil f [] = (λ h. refl, λ h. refl)
map-nil f (x ∷ xs) = (λ h. cc, λ h. cc)

pub append-nil_iff : {A : Type 0} (xs ys : List A) → (xs ++ ys ≡ []) ↔ ((xs ≡ []) × (ys ≡ []))
append-nil_iff [] ys = (λ h. (refl, h), λ h. h.1)
append-nil_iff (x ∷ xs) ys = (λ h. cc, λ h. cc)

pub sort-nil : {A : Type 0} (less : A → A → Bool) (xs : List A) → (sort less xs ≡ []) ↔ (xs ≡ [])
unfolding sort
sort-nil {A = A} less xs = (λ h. empty xs (ap length (sym h) ∙ length-sort less xs), λ h. rw h refl)
  where
    empty : (l : List A) → 0 ≡ length l → l ≡ []
    empty [] e = refl
    empty (x ∷ l) e = absurd (omega (arith, e))
