-- ===== src/Prelude/Keys.antt =====
-- Types with a Boolean equality, and Go's sets and maps over them: a set is the list of its
-- elements, a map is an association list.
use Prim.Native.Nat.{ℕ, suc}
use mathlib.Core.Path.{◌≡◌, refl, ap}
use mathlib.Core.Logic.{◌≢◌, ◌↔◌, ◌⊎◌, inl, inr}
use mathlib.Core.Bool.{Bool, true, false, ◌||◌}
use mathlib.Core.List.{List, [], ◌∷◌}
use sloff.Prelude.Tests.{if◌then◌else◌, nat_eq as nat_eqb, nat_eq_iff, Bool-cases}
use sloff.Prelude.Lists.{length, In, NoDup}

-- Go's `==` on the keys of a map.
pub record Eq {ℓ} (K : Type ℓ) : Type ℓ where
  pub same_as : K → K → Bool
  pub same_iff : (j k : K) → (same_as j k ≡ true) ↔ (j ≡ k)

infix 50 ◌==◌
abbrev pub ◌==◌ {ℓ} : {K : Type ℓ} ⦃keys : Eq K⦄ → K → K → Bool
◌==◌ ⦃keys⦄ = keys.same_as

instance abbrev pub nat_Eq : Eq ℕ
nat_Eq = record { same_as = nat_eqb; same_iff = nat_eq_iff }

module _ {A : Type 0} ⦃e : Eq A⦄ where
  pub ==_refl : (a : A) → (a == a) ≡ true
  ==_refl a = (e.same_iff a a).1 refl

  pub ==_ne : {a b : A} → a ≢ b → (a == b) ≡ false
  ==_ne {a} {b} h = elim (Bool-cases (a == b)) [
    | inl same ↦ absurd (h ((e.same_iff a b).0 same))
    | inr other ↦ other
  ]

  pub ne_of_== : {a b : A} → (a == b) ≡ false → a ≢ b
  ne_of_== {a} {b} h same = let t = (e.same_iff a b).1 same in cc

  pub ==-cases : (a b : A) → (a ≡ b) × ((a == b) ≡ true) ⊎ (a ≢ b) × ((a == b) ≡ false)
  ==-cases a b = elim (Bool-cases (a == b)) [
    | inl t ↦ inl ((e.same_iff a b).0 t, t)
    | inr f ↦ inr (ne_of_== f, f)
  ]

  -- `_, ok := set[a]`
  unfoldable pub contains : List A → A → Bool
  contains [] a = false
  contains (x ∷ xs) a = a == x || contains xs a

  -- `delete(set, a)`
  unfoldable pub erase : List A → A → List A
  erase [] a = []
  erase (x ∷ xs) a = let rest = erase xs a in if a == x then xs else x ∷ rest

  pub contains-In : (xs : List A) (a : A) → contains xs a ≡ true → In a xs
  unfolding contains
  contains-In [] a h = cc
  contains-In (x ∷ xs) a h = elim (==-cases a x) [
    | inl (same, t) ↦ inl same
    | inr (other, f) ↦ inr (contains-In xs a (rw f at h))
  ]

  pub In-contains : (xs : List A) (a : A) → In a xs → contains xs a ≡ true
  unfolding contains
  In-contains [] a m = absurd m
  In-contains (x ∷ xs) a m = elim (==-cases a x) [
    | inl (same, t) ↦ rw t
    | inr (other, f) ↦
        rw f (elim m [ inl same ↦ absurd (other same) | inr later ↦ In-contains xs a later ])
  ]

  pub not-In : (xs : List A) (a : A) → contains xs a ≡ false → ¬ In a xs
  not-In xs a h m = let t = In-contains xs a m in cc

  pub contains_of_not : (xs : List A) (a : A) → ¬ In a xs → contains xs a ≡ false
  contains_of_not xs a n = elim (Bool-cases (contains xs a)) [
    | inl t ↦ absurd (n (contains-In xs a t))
    | inr f ↦ f
  ]

  pub In-dec : (a : A) (xs : List A) → In a xs ⊎ ¬ In a xs
  In-dec a xs = elim (Bool-cases (contains xs a)) [
    | inl t ↦ inl (contains-In xs a t)
    | inr f ↦ inr (not-In xs a f)
  ]

  pub length-erase : (xs : List A) (a : A) → In a xs → length xs ≡ suc (length (erase xs a))
  unfolding erase
  length-erase [] a m = absurd m
  length-erase (x ∷ xs) a m = elim (==-cases a x) [
    | inl (same, t) ↦ rw t
    | inr (other, f) ↦
        rw f
          (elim m [ inl same ↦ absurd (other same) | inr later ↦ ap suc (length-erase xs a later) ])
  ]

  pub In-erase : (xs : List A) (a b : A) → In b (erase xs a) → In b xs
  unfolding erase
  In-erase [] a b m = absurd m
  In-erase (x ∷ xs) a b m = elim (==-cases a x) [
    | inl (same, t) ↦ inr (rw t at m)
    | inr (other, f) ↦ elim (rw f at m) [
      | inl here ↦ inl here
      | inr later ↦ inr (In-erase xs a b later)
    ]
  ]

  pub In-erase_cases : (xs : List A) (a b : A) → In b xs → (b ≡ a) ⊎ In b (erase xs a)
  unfolding erase
  In-erase_cases [] a b m = absurd m
  In-erase_cases (x ∷ xs) a b m = elim (==-cases a x) [
    | inl (same, t) ↦ elim m [ inl here ↦ inl (cc) | inr later ↦ inr (rw t later) ]
    | inr (other, f) ↦ elim m [
      | inl here ↦ inr (rw f (inl here))
      | inr later ↦ elim (In-erase_cases xs a b later) [
        | inl found ↦ inl found
        | inr left ↦ inr (rw f (inr left))
      ]
    ]
  ]

  pub not-In-erase : (xs : List A) (a : A) → NoDup xs → ¬ In a (erase xs a)
  unfolding erase
  not-In-erase [] a d m = m
  not-In-erase (x ∷ xs) a d m = elim (==-cases a x) [
    | inl (same, t) ↦ d.0 (rw (← same) (rw t at m))
    | inr (other, f) ↦ elim (rw f at m) [
      | inl here ↦ other here
      | inr later ↦ not-In-erase xs a d.1 later
    ]
  ]

  pub NoDup-erase : (xs : List A) (a : A) → NoDup xs → NoDup (erase xs a)
  unfolding erase
  NoDup-erase [] a d = tt
  NoDup-erase (x ∷ xs) a d = elim (==-cases a x) [
    | inl (same, t) ↦ rw t d.1
    | inr (other, f) ↦ rw f (λ m. d.0 (In-erase xs a x m), NoDup-erase xs a d.1)
  ]
