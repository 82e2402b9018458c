-- ===== src/Runner/Collect/Writers.antt =====
-- When detectOutputPatternConflicts finds nothing.
use sloff.Prelude.{
  ==-cases, All, Bool-cases, In, In-keep, In-keep_of, List, Map, NoDup, NoDup-insert, Option-cases,
  Str, Str_Eq, [], all, arith, contains, false, if◌then◌else◌, inl, inr, keep, keys_of, length,
  lookup, lookup-In, lookup-insert_ne, lookup-insert_self, lookup_of_In, map, map-nil, nat_Eq, none,
  refl, some, sort, str_ltb, subst, true, ℕ, ◌++◌, ◌+◌, ◌==◌, ◌↔◌, ◌∷◌, ◌≡◌, ◌≤◌,
}
use sloff.Depgraph.{TaskRef, TaskRef_Eq, label, Task, ref}
use sloff.Runner.Defs.{TaskInfo}
use sloff.Runner.Produced.{or_nil, append_at}
use sloff.Runner.Produced.Covered.{HasInfo}
use sloff.Runner.Collect.{
  resolved_pattern, add_patterns, pattern_producers, is_shared, detect_output_pattern_conflicts,
}

-- 1 for a task with a pattern that stands for the path.
writes : Str → List Str → Str → ℕ
writes dir [] k = 0
writes dir (p ∷ ps) k =
    let rest = writes dir ps k in if k == resolved_pattern dir p then 1 else rest

-- How many of the tasks have a pattern that stands for the path.
pub writer_count : Map TaskRef TaskInfo → List Task → Str → ℕ
unfolding writes
writer_count by_key [] k = 0
writer_count by_key (t ∷ ts) k = elim (lookup (ref t) by_key) [
  | none ↦ writer_count by_key ts k
  | some info ↦ writes t.spec_relpath info.output_patterns k + writer_count by_key ts k
]

abbrev labels_at : Str → Map Str (List Str) → ℕ
labels_at k m = length (or_nil (lookup k m))

length-snoc : (xs : List Str) (x : Str) → length (xs ++ x ∷ []) ≡ 1 + length xs
length-snoc [] x = refl
length-snoc (y ∷ xs) x = let rest = length-snoc xs x in omega arith

append_at-count :
    (j k name : Str) (m : Map Str (List Str))
    → labels_at k (append_at j name m) ≡ (if k == j then 1 else 0) + labels_at k m
unfolding append_at
append_at-count j k name m = elim (==-cases k j) [
  | inl (same, t) ↦ rw t (
      rw same (
        rw (lookup-insert_self j (or_nil (lookup j m) ++ name ∷ []) m)
          (length-snoc (or_nil (lookup j m)) name)))
  | inr (_, f) ↦ rw (f, lookup-insert_ne j k (or_nil (lookup j m) ++ name ∷ []) m f) (omega arith)
]

add_patterns-count :
    (dir name : Str) (seen ps : List Str) (m : Map Str (List Str)) (k : Str)
    → labels_at k (add_patterns dir name seen ps m)
      ≡ (if contains seen k then 0 else writes dir ps k) + labels_at k m
unfolding add_patterns writes contains
add_patterns-count dir name seen [] m k = elim (Bool-cases (contains seen k)) [
  | inl t ↦ rw t (omega arith)
  | inr f ↦ rw f (omega arith)
]
add_patterns-count dir name seen (p ∷ ps) m k =
    let key = resolved_pattern dir p in
    let skip = add_patterns-count dir name seen ps m k in
    let next = add_patterns-count dir name (key ∷ seen) ps (append_at key name m) k in
    let grown = append_at-count key k name m in
    elim (Bool-cases (contains seen key)) [
      | inl old ↦ elim (==-cases k key) [
        | inl (same, t) ↦
            let there : contains seen k ≡ true = rw same old in rw (old, there) (rw there at skip)
        | inr (_, f) ↦ rw (old, f) skip
      ]
      | inr new ↦ elim (==-cases k key) [
        | inl (same, t) ↦
            let absent : contains seen k ≡ false = rw same new in
            rw (new, absent, t) (omega (arith, (rw t at next), (rw t at grown)))
        | inr (_, f) ↦ rw (new, f) (omega (arith, (rw f at next), (rw f at grown)))
      ]
    ]

NoDup-add_patterns :
    (dir name : Str) (seen ps : List Str) (m : Map Str (List Str))
    → NoDup (keys_of m)
    → NoDup (keys_of (add_patterns dir name seen ps m))
unfolding add_patterns append_at
NoDup-add_patterns dir name seen [] m d = d
NoDup-add_patterns dir name seen (p ∷ ps) m d =
    let key = resolved_pattern dir p in
    elim (Bool-cases (contains seen key)) [
      | inl t ↦ rw t (NoDup-add_patterns dir name seen ps m d)
      | inr f ↦ rw f (
          NoDup-add_patterns dir name (key ∷ seen) ps (append_at key name m)
            (NoDup-insert key (or_nil (lookup key m) ++ name ∷ []) m d))
    ]

pattern_producers-count :
    (by_key : Map TaskRef TaskInfo) (ts : List Task) (m : Map Str (List Str))
    → All (HasInfo by_key) ts
    → NoDup (keys_of m)
    → (m' : Map Str (List Str)) × (pattern_producers by_key ts m ≡ some m')
      × NoDup (keys_of m')
      × ((k : Str) → labels_at k m' ≡ writer_count by_key ts k + labels_at k m)
unfolding pattern_producers writer_count
pattern_producers-count by_key [] m h d = (m, refl, d, λ k. omega arith)
pattern_producers-count by_key (t ∷ ts) m ((info, found), later) d =
    let name = label (ref t) in
    let added = add_patterns t.spec_relpath name [] info.output_patterns m in
    let (all, eq, distinct, count) =
      pattern_producers-count by_key ts added later
        (NoDup-add_patterns t.spec_relpath name [] info.output_patterns m d) in
    (
      all,
      rw (found, eq, pattern_producers) refl,
      distinct,
      λ k.
          let own = add_patterns-count t.spec_relpath name [] info.output_patterns m k in
          rw (found, writer_count) (omega (arith, count k, own)),
    )

empty_of_no : {A : Type 0} (xs : List A) → ((x : A) → ¬ In x xs) → xs ≡ []
empty_of_no [] h = refl
empty_of_no (x ∷ xs) h = absurd (h x (inl refl))

keep_shared-nil :
    (m : Map Str (List Str))
    → NoDup (keys_of m)
    → (keep is_shared m ≡ []) ↔ ((k : Str) → labels_at k m ≤ 1)
keep_shared-nil m d = (
  λ h k. elim (Option-cases (lookup k m)) [
    | inl absent ↦ rw absent (omega arith)
    | inr (ls, found) ↦ elim (Bool-cases (is_shared (k, ls))) [
      | inl many ↦
          let member = In-keep_of is_shared (k, ls) m (lookup-In k ls m found) many in
          absurd (subst (λ l. In (k, ls) l) h member)
      | inr few ↦ rw found (ground arith)
    ]
  ],
  λ few. empty_of_no (keep is_shared m) (λ x i.
      let (member, many) = In-keep is_shared x m i in
      let found : lookup x.0 m ≡ some x.1 = lookup_of_In x.0 x.1 m d member in
      let one : length x.1 ≤ 1 = rw found at (few x.0) in absurd (ground arith)),
)

-- If each task has a taskInfo, then detectOutputPatternConflicts has a result, and it reports nothing
-- exactly if no path is what patterns of two of the tasks stand for.
pub detect_output_pattern_conflicts_iff :
    (tasks : List Task) (by_key : Map TaskRef TaskInfo)
    → All (HasInfo by_key) tasks
    → (cs : List (Str × List Str)) × (detect_output_pattern_conflicts tasks by_key ≡ some cs)
      × ((cs ≡ []) ↔ ((k : Str) → writer_count by_key tasks k ≤ 1))
unfolding detect_output_pattern_conflicts lookup
detect_output_pattern_conflicts_iff tasks by_key h =
    let (m, eq, distinct, count) = pattern_producers-count by_key tasks [] h tt in
    let inner = keep_shared-nil m distinct in
    (
      map (λ (e : Str × List Str). (e.0, sort str_ltb e.1)) (keep is_shared m),
      rw (eq, detect_output_pattern_conflicts) refl,
      (
        λ e k. omega (arith, inner.0 ((map-nil _ _).0 e) k, count k),
        λ few. (map-nil _ _).1 (inner.1 (λ k. omega (arith, few k, count k))),
      ),
    )
