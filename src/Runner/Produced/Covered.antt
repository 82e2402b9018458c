-- ===== src/Runner/Produced/Covered.antt =====
-- When validateProducedDependencies finds nothing.
use sloff.Prelude.{
  All, All-of_In, Bool, Bool-cases, In, List, Map, Str, Str_Eq, [], ap, append-nil_iff, contains,
  contains-In, false, if◌then◌else◌, inl, inr, insert-ne, lookup, map-nil, nat_Eq, not-In, refl,
  some, sort-nil, subst, sym, true, ◌++◌, ◌↔◌, ◌∙◌, ◌∷◌, ◌≡◌, ◌⊎◌,
}
use sloff.Depgraph.{TaskRef, TaskRef_Eq, ref_eq, ref_eq_iff, Task, ref}
use sloff.Depgraph.Missing.{MissingDependency}
use sloff.Runner.Defs.{TaskInfo}
use sloff.Runner.Inputs.{task_reads_path}
use sloff.Runner.Produced.{
  append_at, by_label, is_missing, group_missing, missing_for, produced_missing,
  validate_produced_dependencies,
}

abbrev pub HasInfo : Map TaskRef TaskInfo → Task → Type 0
HasInfo by_key t = (info : TaskInfo) × (lookup (ref t) by_key ≡ some info)

module _ (matches : Str → Str → Bool) where
  -- A produced path is the task's own, or comes from a declared dependency, or is not read.
  abbrev pub Fine : Task → TaskInfo → Str × TaskRef → Type 0
  Fine t info x = ((x.1 ≡ ref t) ⊎ In x.1 t.depends_on) ⊎ (task_reads_path matches info x.0 ≡ false)

  is_missing_iff :
      (t : Task) (info : TaskInfo) (x : Str × TaskRef)
      → (is_missing matches t info x ≡ false) ↔ Fine t info x
  unfolding is_missing
  is_missing_iff t info (p, r) = elim (Bool-cases (ref_eq r (ref t))) [
    | inl own ↦ (λ h. inl (inl ((ref_eq_iff r (ref t)).0 own)), λ h. rw own refl)
    | inr other ↦ elim (Bool-cases (contains t.depends_on r)) [
      | inl c ↦ (λ h. inl (inr (contains-In t.depends_on r c)), λ h. rw (other, c) refl)
      | inr c ↦ elim (Bool-cases (task_reads_path matches info p)) [
        | inr unread ↦ (λ h. inr unread, λ h. rw (other, c, unread) refl)
        | inl read ↦ (
          λ h. absurd (let bad : true ≡ false = rw (other, c, read) at h in cc),
          λ h. elim h [
            | inl (inl same) ↦ let eq = (ref_eq_iff r (ref t)).1 same in absurd (cc)
            | inl (inr m) ↦ absurd (not-In t.depends_on r c m)
            | inr unread ↦ absurd (cc)
          ],
        )
      ]
    ]
  ]

  group_missing-nil :
      (t : Task) (info : TaskInfo) (produced : Map Str TaskRef) (m : Map TaskRef (List Str))
      → (group_missing matches t info produced m ≡ []) ↔ ((m ≡ []) × All (Fine t info) produced)
  unfolding group_missing append_at
  group_missing-nil t info [] m = (λ h. (h, tt), λ h. h.0)
  group_missing-nil t info (x ∷ rest) m = elim (Bool-cases (is_missing matches t info x)) [
    | inr f ↦ (
      λ h.
          let (empty, later) = (group_missing-nil t info rest m).0 (rw f at h) in
          (empty, ((is_missing_iff t info x).0 f, later)),
      λ h. rw f ((group_missing-nil t info rest m).1 (h.0, h.1.1)),
    )
    | inl missing ↦ (
      λ h.
          let (empty, _) =
            (group_missing-nil t info rest (append_at x.1 x.0 m)).0 (rw missing at h) in
          absurd (insert-ne _ _ m empty),
      λ h. absurd (let fine = (is_missing_iff t info x).1 h.1.0 in cc),
    )
  ]

  missing_for-nil :
      (t : Task) (info : TaskInfo) (produced : Map Str TaskRef)
      → (missing_for matches produced t info ≡ []) ↔ All (Fine t info) produced
  unfolding missing_for
  missing_for-nil t info produced =
      let groups = group_missing matches t info produced [] in
      let inner = group_missing-nil t info produced [] in
      let sorted = sort-nil by_label groups in
      (
        λ h. (inner.0 (sorted.0 ((map-nil _ _).0 h))).1,
        λ h. (map-nil _ _).1 (sorted.1 (inner.1 (refl, h))),
      )

  module _ (by_key : Map TaskRef TaskInfo) (produced : Map Str TaskRef) where
    -- All produced paths are fine for a task whose input surface is known.
    abbrev pub Judged : Task → Type 0
    Judged t =
        (info : TaskInfo)
        → lookup (ref t) by_key ≡ some info
        → info.input_surface_authoritative ≡ true
        → All (Fine t info) produced

    own : Task → TaskInfo → List MissingDependency
    own t info =
        if info.input_surface_authoritative then missing_for matches produced t info else []

    own-nil :
        (t : Task) (info : TaskInfo)
        → lookup (ref t) by_key ≡ some info
        → (own t info ≡ []) ↔ Judged t
    unfolding own missing_for
    own-nil t info found =
        let inner = missing_for-nil t info produced in
        elim (Bool-cases info.input_surface_authoritative) [
          | inl known ↦ (
            λ h i e a. subst (λ x. All (Fine t x) produced) (same i e) (inner.0 (rw known at h)),
            λ h. rw known (inner.1 (h info found known)),
          )
          | inr partial ↦ (
            λ h i e a.
                absurd
                  (no_both (sym partial ∙ ap (λ x. x.input_surface_authoritative) (same i e) ∙ a)),
            λ h. rw partial refl,
          )
        ]
      where
        no_both : false ≡ true → ⊥
        no_both h = cc

        same : (i : TaskInfo) → lookup (ref t) by_key ≡ some i → info ≡ i
        same i e = let both : some info ≡ some i = sym found ∙ e in cc

    produced_missing-cons :
        (t : Task) (ts : List Task) (info : TaskInfo) (more : List MissingDependency)
        → lookup (ref t) by_key ≡ some info
        → produced_missing matches by_key produced ts ≡ some more
        → produced_missing matches by_key produced (t ∷ ts) ≡ some (own t info ++ more)
    unfolding produced_missing own
    produced_missing-cons t ts info more found rest = rw (found, rest, produced_missing) refl

    -- A result, and when it is empty.
    produced_missing-nil :
        (ts : List Task)
        → All (HasInfo by_key) ts
        → (ms : List MissingDependency) × (produced_missing matches by_key produced ts ≡ some ms)
          × ((ms ≡ []) ↔ All Judged ts)
    unfolding produced_missing
    produced_missing-nil [] h = ([], refl, (λ _. tt, λ _. refl))
    produced_missing-nil (t ∷ ts) ((info, found), later) =
        let (more, g, rest) = produced_missing-nil ts later in
        let both = append-nil_iff (own t info) more in
        let here = own-nil t info found in
        (
          own t info ++ more,
          produced_missing-cons t ts info more found g,
          (λ h. (here.0 (both.0 h).0, rest.0 (both.0 h).1), λ h. both.1 (here.1 h.0, rest.1 h.1)),
        )

  -- If each task has a taskInfo, then validateProducedDependencies has a result, which is empty exactly
  -- if for each task whose input surface is known, each produced path is one that the task produced
  -- itself, or comes from a task that it declares in DependsOn, or is none that the task reads.
  pub validate_produced_dependencies_iff :
      (by_key : Map TaskRef TaskInfo) (produced : Map Str TaskRef) (ordered : List Task)
      → All (HasInfo by_key) ordered
      → (ms : List MissingDependency) × (validate_produced_dependencies matches by_key produced
            ordered
          ≡ some ms)
        × ((ms ≡ []) ↔ All (Judged by_key produced) ordered)
  unfolding validate_produced_dependencies
  validate_produced_dependencies_iff by_key [] ordered h =
      ([], refl, (λ _. All-of_In (Judged by_key []) ordered (λ t m info e a. tt), λ _. refl))
  validate_produced_dependencies_iff by_key (x ∷ produced) ordered h =
      produced_missing-nil by_key (x ∷ produced) ordered h
