-- ===== src/Prelude/Sort.antt =====
-- A stable sort by a comparator, as `sort.SliceStable` and `sort.Strings` give.
use Prim.Native.Nat.{suc}
use mathlib.Core.Path.{◌≡◌, refl, sym, ap, ◌∙◌}
use mathlib.Core.Logic.{◌⊎◌, inl, inr}
use mathlib.Core.Bool.{Bool, true, false}
use mathlib.Core.List.{List, [], ◌∷◌, Perm}
use mathlib.Core.List.Perm
use sloff.Prelude.Tests.{if◌then◌else◌, Bool-cases}
use sloff.Prelude.Lists.{length, In, NoDup, All, All-In, All-of_In}

module _ {A : Type 0} (less : A → A → Bool) where
  -- `x` stands before the elements that are not below it, equal ones among them.
  unfoldable pub place : A → List A → List A
  place x [] = x ∷ []
  place x (y ∷ ys) = let rest = place x ys in if less y x then y ∷ rest else x ∷ y ∷ ys

  unfoldable pub sort : List A → List A
  unfolding place
  sort [] = []
  sort (x ∷ xs) = place x (sort xs)

  pub place-perm : (x : A) (ys : List A) → Perm (place x ys) (x ∷ ys)
  unfolding place
  place-perm x [] = Perm.refl (x ∷ [])
  place-perm x (y ∷ ys) = elim (Bool-cases (less y x)) [
    | inl t ↦ rw t (Perm.trans (Perm.cons y (place-perm x ys)) (Perm.swap x y ys))
    | inr f ↦ rw f (Perm.refl (x ∷ y ∷ ys))
  ]

  pub sort-perm : (xs : List A) → Perm (sort xs) xs
  unfolding sort
  sort-perm [] = Perm.refl []
  sort-perm (x ∷ xs) = Perm.trans (place-perm x (sort xs)) (Perm.cons x (sort-perm xs))

  length-place : (x : A) (ys : List A) → length (place x ys) ≡ suc (length ys)
  unfolding place
  length-place x [] = refl
  length-place x (y ∷ ys) = elim (Bool-cases (less y x)) [
    | inl t ↦ rw t (ap suc (length-place x ys))
    | inr f ↦ rw f
  ]

  pub length-sort : (xs : List A) → length (sort xs) ≡ length xs
  unfolding sort
  length-sort [] = refl
  length-sort (x ∷ xs) = length-place x (sort xs) ∙ ap suc (length-sort xs)

  In-place : (a x : A) (ys : List A) → In a (place x ys) → (a ≡ x) ⊎ In a ys
  unfolding place
  In-place a x [] m = m
  In-place a x (y ∷ ys) m = elim (Bool-cases (less y x)) [
    | inl t ↦ elim (rw t at m) [
      | inl e ↦ inr (inl e)
      | inr later ↦ elim (In-place a x ys later) [ inl e ↦ inl e | inr i ↦ inr (inr i) ]
    ]
    | inr f ↦ rw f at m
  ]

  In-place_of : (a x : A) (ys : List A) → (a ≡ x) ⊎ In a ys → In a (place x ys)
  unfolding place
  In-place_of a x [] m = m
  In-place_of a x (y ∷ ys) m = elim (Bool-cases (less y x)) [
    | inl t ↦ rw t (elim m [
      | inl e ↦ inr (In-place_of a x ys (inl e))
      | inr (inl e) ↦ inl e
      | inr (inr i) ↦ inr (In-place_of a x ys (inr i))
    ])
    | inr f ↦ rw f m
  ]

  pub In-sort : (a : A) (xs : List A) → In a (sort xs) → In a xs
  unfolding sort
  In-sort a [] m = m
  In-sort a (x ∷ xs) m = elim (In-place a x (sort xs) m) [
    | inl e ↦ inl e
    | inr i ↦ inr (In-sort a xs i)
  ]

  pub In-sort_of : (a : A) (xs : List A) → In a xs → In a (sort xs)
  unfolding sort
  In-sort_of a [] m = m
  In-sort_of a (x ∷ xs) (inl e) = In-place_of a x (sort xs) (inl e)
  In-sort_of a (x ∷ xs) (inr i) = In-place_of a x (sort xs) (inr (In-sort_of a xs i))

  NoDup-place : (x : A) (ys : List A) → ¬ In x ys → NoDup ys → NoDup (place x ys)
  unfolding place
  NoDup-place x [] n d = (λ m. m, tt)
  NoDup-place x (y ∷ ys) n d = elim (Bool-cases (less y x)) [
    | inl t ↦ rw t (
      λ m. elim (In-place y x ys m) [ inl e ↦ n (inl (sym e)) | inr i ↦ d.0 i ],
      NoDup-place x ys (λ m. n (inr m)) d.1,
    )
    | inr f ↦ rw f (n, d)
  ]

  pub NoDup-sort : (xs : List A) → NoDup xs → NoDup (sort xs)
  unfolding sort
  NoDup-sort [] d = tt
  NoDup-sort (x ∷ xs) d = NoDup-place x (sort xs) (λ m. d.0 (In-sort x xs m)) (NoDup-sort xs d.1)

  -- Nothing stands behind an element that it should stand before.
  abbrev pub IsSorted : List A → Type 0
  IsSorted [] = Unit
  IsSorted (x ∷ xs) = All (λ y. less y x ≡ false) xs × IsSorted xs

  -- A sorted list stays as it is.
  pub sort_sorted : (xs : List A) → IsSorted xs → sort xs ≡ xs
  unfolding sort place
  sort_sorted [] s = refl
  sort_sorted (x ∷ xs) (first, s) = ap (place x) (sort_sorted xs s) ∙ in_front xs first
    where
      in_front : (ys : List A) → All (λ y. less y x ≡ false) ys → place x ys ≡ x ∷ ys
      in_front [] h = refl
      in_front (y ∷ ys) h = rw (h.0) refl

  module _ (asym : (x y : A) → less x y ≡ true → less y x ≡ false)
      (trans : (x y z : A) → less y x ≡ false → less z y ≡ false → less z x ≡ false) where
    place-IsSorted : (x : A) (ys : List A) → IsSorted ys → IsSorted (place x ys)
    unfolding place
    place-IsSorted x [] s = (tt, tt)
    place-IsSorted x (y ∷ ys) s = elim (Bool-cases (less y x)) [
      | inl t ↦ rw t (
        All-of_In (λ z. less z y ≡ false) (place x ys)
            λ a m. elim (In-place a x ys m) [
              | inl e ↦ rw e (asym y x t)
              | inr i ↦ All-In (λ z. less z y ≡ false) a ys s.0 i
            ],
        place-IsSorted x ys s.1,
      )
      | inr f ↦ rw f (
        (
          f,
          All-of_In (λ z. less z x ≡ false) ys
              λ a m. trans x y a f (All-In (λ z. less z y ≡ false) a ys s.0 m),
        ),
        s,
      )
    ]

    pub sort-IsSorted : (xs : List A) → IsSorted (sort xs)
    unfolding sort
    sort-IsSorted [] = tt
    sort-IsSorted (x ∷ xs) = place-IsSorted x (sort xs) (sort-IsSorted xs)

  module _ (connex : (x y : A) → less x y ≡ false → less y x ≡ false → x ≡ y) where
    -- A sorted list without duplicates is told by its elements.
    pub sorted_unique :
        (xs ys : List A)
        → IsSorted xs
        → IsSorted ys
        → NoDup xs
        → NoDup ys
        → ((a : A) → In a xs → In a ys)
        → ((a : A) → In a ys → In a xs)
        → xs ≡ ys
    sorted_unique [] [] s t d e f g = refl
    sorted_unique [] (y ∷ ys) s t d e f g = absurd (g y (inl refl))
    sorted_unique (x ∷ xs) [] s t d e f g = absurd (f x (inl refl))
    sorted_unique (x ∷ xs) (y ∷ ys) s t d e f g =
        rw
          (
            heads,
            sorted_unique xs ys s.1 t.1 d.1 e.1 (λ a m. onward a m (f a (inr m)))
                (λ a m. back a m (g a (inr m))),
          )
          refl
      where
        heads : x ≡ y
        heads = elim (f x (inl refl)) [
          | inl same ↦ same
          | inr later ↦ elim (g y (inl refl)) [
            | inl same ↦ sym same
            | inr behind ↦
                connex x y (All-In (λ z. less z y ≡ false) x ys t.0 later)
                  (All-In (λ z. less z x ≡ false) y xs s.0 behind)
          ]
        ]

        onward : (a : A) → In a xs → In a (y ∷ ys) → In a ys
        onward a m (inl same) = absurd (d.0 (rw (heads ∙ sym same) m))
        onward a m (inr later) = later

        back : (a : A) → In a ys → In a (x ∷ xs) → In a xs
        back a m (inl same) = absurd (e.0 (rw (sym heads ∙ sym same) m))
        back a m (inr later) = later
