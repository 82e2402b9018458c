-- ===== src/Depgraph/Missing/Covered.antt =====
-- When FindMissingDependencies finds nothing.
use sloff.Prelude.{
  ==-cases, All, Bool-cases, In, List, Map, Option, Str, Str_Eq, [], append-nil_iff, contains,
  contains-In, inl, inr, insert, insert-ne, lookup, map-nil, nat_Eq, none, not-In, refl, some,
  sort-nil, subst, suc, sym, ℕ, ◌++◌, ◌↔◌, ◌∙◌, ◌∷◌, ◌≡◌, ◌⊎◌,
}
use sloff.Depgraph.Defs.{TaskRef_Eq, Task}
use sloff.Depgraph.Build.{ref_at}
use sloff.Depgraph.Missing.{
  producers, undeclared, by_producer, missing_of, all_missing, missing_less,
  find_missing_dependencies,
}

module _ (tasks : List Task) (producer : Map Str ℕ) where
  -- An input that another task writes comes from a declared dependency.
  abbrev pub Declared : ℕ → Task → Str → Type 0
  Declared i t p = (j : ℕ) → lookup p producer ≡ some j → (j ≡ i) ⊎ In (ref_at tasks j) t.depends_on

  undeclared_iff :
      (i : ℕ) (t : Task) (p : Str) → (undeclared tasks producer i t p ≡ none) ↔ Declared i t p
  unfolding undeclared
  undeclared_iff i t p = go (lookup p producer) refl
    where
      none-some : {A : Type 0} (a : A) → ◌≡◌ {A = Option A} none (some a) → ⊥
      none-some a e = cc

      of_some : (a b : ℕ) → some a ≡ some b → a ≡ b
      of_some a b x = cc

      go :
          (o : Option ℕ)
          → lookup p producer ≡ o
          → (undeclared tasks producer i t p ≡ none) ↔ Declared i t p
      go none e = (λ h j found. absurd (none-some j (sym e ∙ found)), λ h. rw (e, undeclared) refl)
      go (some j) e = elim (==-cases j i) [
        | inl (same, n) ↦ (
          λ h k found. inl (sym (of_some j k (sym e ∙ found)) ∙ same),
          λ h. rw (e, undeclared, n) refl,
        )
        | inr (other, n) ↦ elim (Bool-cases (contains t.depends_on (ref_at tasks j))) [
          | inl c ↦ (
            λ h k found. inr (
                subst (λ x. In (ref_at tasks x) t.depends_on) (of_some j k (sym e ∙ found))
                  (contains-In t.depends_on (ref_at tasks j) c)),
            λ h. rw (e, undeclared, n, c) refl,
          )
          | inr c ↦ (
            λ h. absurd (none-some j (sym (rw (e, undeclared, n, c) at h))),
            λ h. elim (h j e) [
              | inl same ↦ absurd (other same)
              | inr m ↦ absurd (not-In t.depends_on (ref_at tasks j) c m)
            ],
          )
        ]
      ]

  by_producer-nil :
      (i : ℕ) (t : Task) (ps : List Str) (m : Map ℕ (List Str))
      → (by_producer tasks producer i t ps m ≡ []) ↔ ((m ≡ []) × All (Declared i t) ps)
  unfolding by_producer
  by_producer-nil i t [] m = (λ h. (h, tt), λ h. h.0)
  by_producer-nil i t (p ∷ ps) m =
      go (λ m'. by_producer-nil i t ps m') (undeclared tasks producer i t p) refl
    where
      some_none : (j : ℕ) → some j ≡ none → ⊥
      some_none j e = cc

      Rest : Map ℕ (List Str) → Type 0
      Rest m' = (by_producer tasks producer i t ps m' ≡ []) ↔ ((m' ≡ []) × All (Declared i t) ps)

      go :
          ((m' : Map ℕ (List Str)) → Rest m')
          → (o : Option ℕ) → undeclared tasks producer i t p ≡ o
          → (by_producer tasks producer i t (p ∷ ps) m ≡ [])
            ↔ ((m ≡ []) × All (Declared i t) (p ∷ ps))
      go rest none e = (
        λ h.
            let (empty, later) = (rest m).0 (rw (e, by_producer) at h) in
            (empty, ((undeclared_iff i t p).0 e, later)),
        λ h. rw (e, by_producer) ((rest m).1 (h.0, h.1.1)),
      )
      go rest (some j) e =
          let files : List Str = elim (lookup j m) [ some fs ↦ fs | none ↦ [] ] in
          (
            λ h.
                let (empty, _) =
                  (rest (insert j (files ++ p ∷ []) m)).0 (rw (e, by_producer) at h) in
                absurd (insert-ne j (files ++ p ∷ []) m empty),
            λ h. absurd (some_none j (sym e ∙ (undeclared_iff i t p).1 h.1.0)),
          )

  -- All inputs of all tasks, the first of which has index i.
  abbrev pub AllDeclared : ℕ → List Task → Type 0
  AllDeclared i [] = Unit
  AllDeclared i (t ∷ ts) = All (Declared i t) t.inputs × AllDeclared (suc i) ts

  all_missing-nil :
      (i : ℕ) (ts : List Task) → (all_missing tasks producer i ts ≡ []) ↔ AllDeclared i ts
  unfolding all_missing missing_of
  all_missing-nil i [] = (λ h. tt, λ h. refl)
  all_missing-nil i (t ∷ ts) =
      let both =
        append-nil_iff (missing_of tasks producer i t) (all_missing tasks producer (suc i) ts) in
      let later = all_missing-nil (suc i) ts in
      let own = by_producer-nil i t t.inputs [] in
      (
        λ h. ((own.0 ((map-nil _ _).0 (both.0 h).0)).1, later.0 (both.0 h).1),
        λ h. both.1 ((map-nil _ _).1 (own.1 (refl, h.0)), later.1 h.1),
      )

-- FindMissingDependencies finds nothing exactly if each input of each task that some task writes, by
-- the last producer of it, is written by the task itself or by a task that it declares in DependsOn.
pub find_missing_dependencies-AllDeclared :
    (tasks : List Task)
    → (find_missing_dependencies tasks ≡ []) ↔ AllDeclared tasks (producers 0 tasks []) 0 tasks
unfolding find_missing_dependencies
find_missing_dependencies-AllDeclared tasks =
    let all_of = all_missing tasks (producers 0 tasks []) 0 tasks in
    let inner = all_missing-nil tasks (producers 0 tasks []) 0 tasks in
    (
      λ h. inner.0 ((sort-nil missing_less all_of).0 h),
      λ h. (sort-nil missing_less all_of).1 (inner.1 h),
    )
