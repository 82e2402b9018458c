-- ===== src/Prelude/Count.antt =====
-- Counting: a list without duplicates is no longer than a list that holds its elements.
use Prim.Native.Nat.{◌≤◌}
use mathlib.Core.Path.{refl}
use mathlib.Core.Logic.{inl, inr}
use mathlib.Core.Logic.Or
use mathlib.Core.HLevel.{⊥_prop}
use mathlib.Core.List.{
  List, [], ◌∷◌, ◌++◌, Perm, Mem, Pairwise, Nodup, Nodup-cons, mem-cons_self, mem-cons_of_mem,
  not-mem-nil, eq-or-mem_of_mem-cons,
}
use mathlib.Core.List.Perm
use native.Mathlib.Omega.{arith}
use sloff.Prelude.Lists.{length, In, NoDup, In-append_cases}
use sloff.Prelude.Keys.{Eq, ==-cases, erase, In-erase_cases, length-erase}

module _ {A : Type 0} where
  abbrev pub Subset : List A → List A → Type 0
  Subset xs ys = (a : A) → In a xs → In a ys

  pub NoDup-append :
      (xs ys : List A) → NoDup xs → NoDup ys → ((a : A) → In a xs → ¬ In a ys) → NoDup (xs ++ ys)
  NoDup-append [] ys dx dy apart = dy
  NoDup-append (x ∷ xs) ys dx dy apart = (
    λ m. elim (In-append_cases x xs ys m) [ inl i ↦ dx.0 i | inr i ↦ apart x (inl refl) i ],
    NoDup-append xs ys dx.1 dy (λ a m. apart a (inr m)),
  )

  pub NoDup-snoc : (xs : List A) (y : A) → NoDup xs → ¬ In y xs → NoDup (xs ++ y ∷ [])
  NoDup-snoc xs y d n =
      NoDup-append xs (y ∷ []) d (λ m. m, tt)
        (λ a m i. elim i [ inl e ↦ n (rw (← e) m) | inr no_more ↦ no_more ])

module _ {A : Type 0} ⦃e : Eq A⦄ where
  Subset-erase :
      (x : A) (xs ys : List A) → NoDup (x ∷ xs) → Subset (x ∷ xs) ys → Subset xs (erase ys x)
  Subset-erase x xs ys d s a m = elim (In-erase_cases ys x a (s a (inr m))) [
    | inl same ↦ absurd (d.0 (rw (← same) m))
    | inr left ↦ left
  ]

  pub length-le_of_NoDup : (xs ys : List A) → NoDup xs → Subset xs ys → length xs ≤ length ys
  length-le_of_NoDup [] ys d s = omega arith
  length-le_of_NoDup (x ∷ xs) ys d s = omega (
    arith,
    length-erase ys x (s x (inl refl)),
    length-le_of_NoDup xs (erase ys x) d.1 (Subset-erase x xs ys d s),
  )

  erase-perm : (ys : List A) (x : A) → In x ys → Perm ys (x ∷ erase ys x)
  unfolding erase
  erase-perm [] x m = absurd m
  erase-perm (y ∷ ys) x m = elim (==-cases x y) [
    | inl (same, t) ↦ rw (t, same) (Perm.refl (y ∷ ys))
    | inr (other, f) ↦ rw f (elim m [
      | inl same ↦ absurd (other same)
      | inr later ↦ Perm.trans (Perm.cons y (erase-perm ys x later)) (Perm.swap x y (erase ys x))
    ])
  ]

  pub perm_of_NoDup :
      (xs ys : List A) → NoDup xs → Subset xs ys → length ys ≤ length xs → Perm xs ys
  perm_of_NoDup [] [] d s h = Perm.refl []
  perm_of_NoDup [] (y ∷ ys) d s h = absurd (omega arith)
  perm_of_NoDup (x ∷ xs) ys d s h =
      let here = s x (inl refl) in
      Perm.trans
        (Perm.cons x (
          perm_of_NoDup xs (erase ys x) d.1 (Subset-erase x xs ys d s)
            (omega (arith, length-erase ys x here))))
        (Perm.symm (erase-perm ys x here))

-- The library's Mem and Nodup, for what it proves of permutations.
module _ {A : Type 0} where
  Mem_of_In : (a : A) (xs : List A) → In a xs → Mem a xs
  Mem_of_In a [] m = absurd m
  Mem_of_In a (x ∷ xs) (inl e) = rw e mem-cons_self
  Mem_of_In a (x ∷ xs) (inr m) = mem-cons_of_mem x (Mem_of_In a xs m)

  not-Mem : (a : A) (xs : List A) → ¬ In a xs → ¬ Mem a xs
  not-Mem a [] n m = not-mem-nil m
  not-Mem a (x ∷ xs) n m =
      Or.elim ⊥_prop (eq-or-mem_of_mem-cons m) (λ e. n (inl e))
        (λ k. not-Mem a xs (λ i. n (inr i)) k)

  Nodup-of : (xs : List A) → NoDup xs → Nodup xs
  Nodup-of [] d = Pairwise.nil
  Nodup-of (x ∷ xs) d = Nodup-cons.1 (not-Mem x xs d.0, Nodup-of xs d.1)

  NoDup-of : (xs : List A) → Nodup xs → NoDup xs
  NoDup-of [] d = tt
  NoDup-of (x ∷ xs) d =
      let (n, rest) = Nodup-cons.0 d in ((λ m. n (Mem_of_In x xs m)), NoDup-of xs rest)

  pub NoDup-perm : (xs ys : List A) → Perm xs ys → NoDup xs → NoDup ys
  NoDup-perm xs ys p d = NoDup-of ys (Perm.nodup p (Nodup-of xs d))
