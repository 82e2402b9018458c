-- ===== src/Prelude/Lists.antt =====
-- Lists measured by native numbers, and predicates on lists by recursion.
use Prim.Native.Nat.{ℕ, zero, suc, ◌+◌, ◌<◌}
use mathlib.Core.Path.{◌≡◌, refl, ap}
use mathlib.Core.Logic.{◌⊎◌, inl, inr}
use mathlib.Core.Bool.{Bool, true, false, ◌&&◌, ◌||◌}
use mathlib.Core.Option.{Option, none, some}
use mathlib.Core.List.{List, [], ◌∷◌, ◌++◌, map}
use native.Mathlib.Omega.{arith}
use sloff.Prelude.Tests.{if◌then◌else◌, Bool-cases}

module _ {ℓ} {A : Type ℓ} where
  abbrev pub length : List A → ℕ
  length [] = 0
  length (x ∷ xs) = suc (length xs)

  abbrev pub get_elem? : List A → ℕ → Option A
  get_elem? [] i = none
  get_elem? (x ∷ xs) zero = some x
  get_elem? (x ∷ xs) (suc i) = get_elem? xs i

  abbrev pub All {κ} : (A → Type κ) → List A → Type κ
  All P [] = Unit
  All P (x ∷ xs) = P x × All P xs

  unfoldable pub any : (A → Bool) → List A → Bool
  any p [] = false
  any p (x ∷ xs) = p x || any p xs

  unfoldable pub all : (A → Bool) → List A → Bool
  all p [] = true
  all p (x ∷ xs) = p x && all p xs

  -- The elements that pass the test, in order.
  unfoldable pub keep : (A → Bool) → List A → List A
  keep p [] = []
  keep p (x ∷ xs) = let rest = keep p xs in if p x then x ∷ rest else rest

  pub length-append : (xs ys : List A) → length (xs ++ ys) ≡ length xs + length ys
  length-append [] ys = omega arith
  length-append (x ∷ xs) ys = omega (arith, length-append xs ys)

module _ {A : Type 0} where
  -- Membership, by recursion: the tactics split it.
  abbrev pub In : A → List A → Type 0
  In x [] = ⊥
  In x (y ∷ ys) = (x ≡ y) ⊎ In x ys

  abbrev pub NoDup : List A → Type 0
  NoDup [] = Unit
  NoDup (x ∷ xs) = ¬ In x xs × NoDup xs

  pub In-append_left : (a : A) (xs ys : List A) → In a xs → In a (xs ++ ys)
  In-append_left a [] ys h = absurd h
  In-append_left a (x ∷ xs) ys (inl e) = inl e
  In-append_left a (x ∷ xs) ys (inr h) = inr (In-append_left a xs ys h)

  pub In-append_right : (a : A) (xs ys : List A) → In a ys → In a (xs ++ ys)
  In-append_right a [] ys h = h
  In-append_right a (x ∷ xs) ys h = inr (In-append_right a xs ys h)

  pub In-append_cases : (a : A) (xs ys : List A) → In a (xs ++ ys) → In a xs ⊎ In a ys
  In-append_cases a [] ys h = inr h
  In-append_cases a (x ∷ xs) ys (inl e) = inl (inl e)
  In-append_cases a (x ∷ xs) ys (inr h) = elim (In-append_cases a xs ys h) [
    | inl i ↦ inl (inr i)
    | inr i ↦ inr i
  ]

  pub All-In {κ} : (P : A → Type κ) (a : A) (xs : List A) → All P xs → In a xs → P a
  All-In P a [] h m = absurd m
  All-In P a (x ∷ xs) h (inl e) = rw e h.0
  All-In P a (x ∷ xs) h (inr m) = All-In P a xs h.1 m

  pub All-of_In {κ} : (P : A → Type κ) (xs : List A) → ((a : A) → In a xs → P a) → All P xs
  All-of_In P [] h = tt
  All-of_In P (x ∷ xs) h = (h x (inl refl), All-of_In P xs (λ a m. h a (inr m)))

  pub In-keep : (p : A → Bool) (a : A) (xs : List A) → In a (keep p xs) → In a xs × (p a ≡ true)
  unfolding keep
  In-keep p a [] m = absurd m
  In-keep p a (x ∷ xs) m = elim (Bool-cases (p x)) [
    | inl e ↦ elim (rw e at m) [
      | inl same ↦ (inl same, rw same e)
      | inr later ↦ let (i, t) = In-keep p a xs later in (inr i, t)
    ]
    | inr e ↦ let (i, t) = In-keep p a xs (rw e at m) in (inr i, t)
  ]

  pub In-keep_of : (p : A → Bool) (a : A) (xs : List A) → In a xs → p a ≡ true → In a (keep p xs)
  unfolding keep
  In-keep_of p a [] m t = absurd m
  In-keep_of p a (x ∷ xs) (inl same) t = let px : p x ≡ true = rw same at t in rw px (inl same)
  In-keep_of p a (x ∷ xs) (inr m) t = elim (Bool-cases (p x)) [
    | inl e ↦ rw e (inr (In-keep_of p a xs m t))
    | inr e ↦ rw e (In-keep_of p a xs m t)
  ]

  pub In-get_elem : (xs : List A) (i : ℕ) (a : A) → get_elem? xs i ≡ some a → In a xs
  In-get_elem [] i a h = cc
  In-get_elem (x ∷ xs) zero a h = inl (cc)
  In-get_elem (x ∷ xs) (suc i) a h = inr (In-get_elem xs i a h)

  pub get_elem-lt : (xs : List A) (i : ℕ) (a : A) → get_elem? xs i ≡ some a → i < length xs
  get_elem-lt [] i a h = cc
  get_elem-lt (x ∷ xs) zero a h = omega arith
  get_elem-lt (x ∷ xs) (suc i) a h = omega (arith, get_elem-lt xs i a h)

  pub get_elem_of_In : (a : A) (xs : List A) → In a xs → (i : ℕ) × (get_elem? xs i ≡ some a)
  get_elem_of_In a [] m = absurd m
  get_elem_of_In a (x ∷ xs) (inl e) = (0, rw e)
  get_elem_of_In a (x ∷ xs) (inr m) = let (i, g) = get_elem_of_In a xs m in (suc i, g)

  pub get_elem_some : (xs : List A) (i : ℕ) → i < length xs → (a : A) × (get_elem? xs i ≡ some a)
  get_elem_some [] i h = absurd (omega arith)
  get_elem_some (x ∷ xs) zero h = (x, refl)
  get_elem_some (x ∷ xs) (suc i) h = get_elem_some xs i (omega arith)

module _ {A B : Type 0} where
  pub length-map : (f : A → B) (xs : List A) → length (map f xs) ≡ length xs
  length-map f [] = refl
  length-map f (x ∷ xs) = ap suc (length-map f xs)

  pub In-map : (f : A → B) (a : A) (xs : List A) → In a xs → In (f a) (map f xs)
  In-map f a [] m = absurd m
  In-map f a (x ∷ xs) (inl e) = inl (ap f e)
  In-map f a (x ∷ xs) (inr m) = inr (In-map f a xs m)

  pub In-map_inv :
      (f : A → B) (b : B) (xs : List A) → In b (map f xs) → (a : A) × In a xs × (b ≡ f a)
  In-map_inv f b [] m = absurd m
  In-map_inv f b (x ∷ xs) (inl e) = (x, inl refl, e)
  In-map_inv f b (x ∷ xs) (inr m) = let (a, i, e) = In-map_inv f b xs m in (a, inr i, e)

  pub get_elem-inj :
      (f : A → B) (xs : List A)
      → NoDup (map f xs)
      → (i j : ℕ) (a b : A) → get_elem? xs i ≡ some a
      → get_elem? xs j ≡ some b
      → f a ≡ f b
      → i ≡ j
  get_elem-inj f [] d i j a b h k e = cc
  get_elem-inj f (x ∷ xs) d zero zero a b h k e = refl
  get_elem-inj f (x ∷ xs) d zero (suc j) a b h k e =
      let same : f x ≡ f b = cc in absurd (d.0 (rw same (In-map f b xs (In-get_elem xs j b k))))
  get_elem-inj f (x ∷ xs) d (suc i) zero a b h k e =
      let same : f x ≡ f a = cc in absurd (d.0 (rw same (In-map f a xs (In-get_elem xs i a h))))
  get_elem-inj f (x ∷ xs) d (suc i) (suc j) a b h k e = ap suc (get_elem-inj f xs d.1 i j a b h k e)

  pub NoDup-map_keep :
      (f : A → B) (p : A → Bool) (xs : List A) → NoDup (map f xs) → NoDup (map f (keep p xs))
  unfolding keep
  NoDup-map_keep f p [] d = tt
  NoDup-map_keep f p (x ∷ xs) d = elim (Bool-cases (p x)) [
    | inr g ↦ rw g (NoDup-map_keep f p xs d.1)
    | inl t ↦ rw t (
      λ m.
          let (a, i, e) = In-map_inv f (f x) (keep p xs) m in
          d.0 (rw e (In-map f a xs (In-keep p a xs i).0)),
      NoDup-map_keep f p xs d.1,
    )
  ]
