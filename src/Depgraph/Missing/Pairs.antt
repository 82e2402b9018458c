-- ===== src/Depgraph/Missing/Pairs.antt =====
-- FindMissingDependencies on pairs of tasks.
use sloff.Prelude.{
  ==_ne, All, All-In, All-of_In, In, In-append_left, In-append_right, In-dec, List, Map, NoDup,
  Option, Str, Str_Eq, [], ap, arith, get_elem?, inl, inr, insert, lookup, lookup-insert_ne,
  lookup-insert_self, nat_Eq, none, refl, some, subst, suc, sym, zero, ℕ, ◌++◌, ◌+◌, ◌↔◌, ◌∙◌, ◌∷◌,
  ◌≡◌, ◌⊎◌,
}
use sloff.Depgraph.Defs.{TaskRef_Eq, Task, ref}
use sloff.Depgraph.Build.{ref_at}
use sloff.Depgraph.Build.Writers.{all_outputs}
use sloff.Depgraph.Missing.{put_outputs, producers, find_missing_dependencies}
use sloff.Depgraph.Missing.Covered.{Declared, AllDeclared, find_missing_dependencies-AllDeclared}

some_inj : {A : Type 0} (a b : A) → some a ≡ some b → a ≡ b
some_inj a b e = cc

none-some : {A : Type 0} (a : A) → ◌≡◌ {A = Option A} none (some a) → ⊥
none-some a e = cc

NoDup-apart : (p : Str) (xs ys : List Str) → NoDup (xs ++ ys) → NoDup ys × (In p xs → ¬ In p ys)
NoDup-apart p [] ys d = (d, λ m. absurd m)
NoDup-apart p (x ∷ xs) ys (new, d) =
    let (rest, apart) = NoDup-apart p xs ys d in
    (
      rest,
      λ m i. elim m [
        | inl same ↦ new (rw (← same) (In-append_right p xs ys i))
        | inr later ↦ apart later i
      ],
    )

put_outputs_skip :
    (p : Str) (outs : List Str) (i : ℕ) (m : Map Str ℕ)
    → ¬ In p outs
    → lookup p (put_outputs outs i m) ≡ lookup p m
unfolding put_outputs
put_outputs_skip p [] i m n = refl
put_outputs_skip p (o ∷ outs) i m n =
    put_outputs_skip p outs i (insert o i m) (λ h. n (inr h))
    ∙ lookup-insert_ne o p i m (==_ne (λ e. n (inl e)))

put_outputs_self :
    (p : Str) (outs : List Str) (i : ℕ) (m : Map Str ℕ)
    → In p outs
    → lookup p (put_outputs outs i m) ≡ some i
unfolding put_outputs
put_outputs_self p [] i m h = absurd h
put_outputs_self p (o ∷ outs) i m h = elim (In-dec p outs) [
  | inl later ↦ put_outputs_self p outs i (insert o i m) later
  | inr n ↦ elim h [
    | inr later ↦ absurd (n later)
    | inl same ↦ put_outputs_skip p outs i (insert o i m) n ∙ rw same (lookup-insert_self o i m)
  ]
]

producers_skip :
    (p : Str) (i : ℕ) (ts : List Task) (m : Map Str ℕ)
    → ¬ In p (all_outputs ts)
    → lookup p (producers i ts m) ≡ lookup p m
unfolding producers
producers_skip p i [] m n = refl
producers_skip p i (t ∷ ts) m n =
    producers_skip p (suc i) ts (put_outputs t.outputs i m)
      (λ h. n (In-append_right p t.outputs (all_outputs ts) h))
    ∙ put_outputs_skip p t.outputs i m (λ h. n (In-append_left p t.outputs (all_outputs ts) h))

-- The one writer of a path is its producer.
producers_self :
    (p : Str) (i : ℕ) (ts : List Task) (m : Map Str ℕ) (k : ℕ) (u : Task)
    → NoDup (all_outputs ts)
    → get_elem? ts k ≡ some u
    → In p u.outputs
    → lookup p (producers i ts m) ≡ some (i + k)
unfolding producers
producers_self p i [] m k u d h w = absurd (none-some u h)
producers_self p i (t ∷ ts) m zero u d h w =
    let mine : In p t.outputs = subst (λ (x : Task). In p x.outputs) (sym (some_inj t u h)) w in
    producers_skip p (suc i) ts (put_outputs t.outputs i m)
      ((NoDup-apart p t.outputs (all_outputs ts) d).1 mine)
    ∙ put_outputs_self p t.outputs i m mine
    ∙ ap some (omega arith)
producers_self p i (t ∷ ts) m (suc k) u d h w =
    producers_self p (suc i) ts (put_outputs t.outputs i m) k u
      (NoDup-apart p t.outputs (all_outputs ts) d).0 h w
    ∙ ap some (omega arith)

-- A producer writes the path.
producers_named :
    (p : Str) (i : ℕ) (ts : List Task) (m : Map Str ℕ) (j : ℕ)
    → lookup p (producers i ts m) ≡ some j
    → ((k : ℕ) × (u : Task) × (get_elem? ts k ≡ some u) × In p u.outputs × (j ≡ i + k))
      ⊎ (lookup p m ≡ some j)
unfolding producers
producers_named p i [] m j h = inr h
producers_named p i (t ∷ ts) m j h =
    elim (producers_named p (suc i) ts (put_outputs t.outputs i m) j h) [
      | inl (k, u, at, w, e) ↦ inl (suc k, u, at, w, omega (arith, e))
      | inr old ↦ elim (In-dec p t.outputs) [
        | inl mine ↦
            let e = some_inj i j (sym (put_outputs_self p t.outputs i m mine) ∙ old) in
            inl (0, t, refl, mine, omega (arith, e))
        | inr n ↦ inr (sym (put_outputs_skip p t.outputs i m n) ∙ old)
      ]
    ]

ref_at_elem :
    (tasks : List Task) (j : ℕ) (u : Task) → get_elem? tasks j ≡ some u → ref_at tasks j ≡ ref u
unfolding ref_at
ref_at_elem tasks j u h = rw (h, ref_at) refl

-- The condition on the tasks from the index on, task by task.
AllDeclared-elem :
    (tasks : List Task) (producer : Map Str ℕ) (i : ℕ) (ts : List Task)
    → AllDeclared tasks producer i ts ↔ (
        (k : ℕ) (t : Task)
        → get_elem? ts k ≡ some t
        → All (Declared tasks producer (i + k) t) t.inputs)
AllDeclared-elem tasks producer i [] = (λ h k t e. absurd (none-some t e), λ h. tt)
AllDeclared-elem tasks producer i (t ∷ ts) =
    let later = AllDeclared-elem tasks producer (suc i) ts in
    (
      λ h. split h.0 (later.0 h.1),
      λ h. (
        subst (λ x. All (Declared tasks producer x t) t.inputs) (omega arith) (h 0 t refl),
        later.1 (λ k u e.
            subst (λ x. All (Declared tasks producer x u) u.inputs) (omega arith) (h (suc k) u e)),
      ),
    )
  where
    split :
        All (Declared tasks producer i t) t.inputs
        → ((k : ℕ) (u : Task)
            → get_elem? ts k ≡ some u
            → All (Declared tasks producer (suc i + k) u) u.inputs)
        → (k : ℕ) (u : Task) → get_elem? (t ∷ ts) k ≡ some u
        → All (Declared tasks producer (i + k) u) u.inputs
    split own rest zero u e =
        subst (λ (x : Task). All (Declared tasks producer (i + 0) x) x.inputs) (some_inj t u e)
          (subst (λ x. All (Declared tasks producer x t) t.inputs) (omega arith) own)
    split own rest (suc k) u e =
        subst (λ x. All (Declared tasks producer x u) u.inputs) (omega arith) (rest k u e)

-- Each task declares each other task that writes what it reads.
abbrev pub DeclaresWriters : List Task → Type 0
DeclaresWriters tasks =
    (i j : ℕ) (t u : Task) (p : Str)
    → get_elem? tasks i ≡ some t
    → get_elem? tasks j ≡ some u
    → In p t.inputs
    → In p u.outputs
    → (j ≡ i) ⊎ In (ref u) t.depends_on

-- If no path stands twice among the outputs, as after a Build that succeeds, then
-- FindMissingDependencies finds nothing exactly if, for each two tasks of which one writes a path that
-- the other reads, the reader declares the writer in DependsOn.
pub find_missing_dependencies_iff :
    (tasks : List Task)
    → NoDup (all_outputs tasks)
    → (find_missing_dependencies tasks ≡ []) ↔ DeclaresWriters tasks
unfolding lookup
find_missing_dependencies_iff tasks d =
    let producer = producers 0 tasks [] in
    let found = find_missing_dependencies-AllDeclared tasks in
    let each = AllDeclared-elem tasks producer 0 tasks in
    (
      λ h i j t u p at_i at_j reads writes.
          let all_of = each.0 (found.0 h) i t at_i in
          let wrote = producers_self p 0 tasks [] j u d at_j writes in
          elim (All-In (Declared tasks producer (0 + i) t) p t.inputs all_of reads (0 + j) wrote) [
            | inl same ↦ inl (omega (arith, same))
            | inr declared ↦ inr (
                subst (λ r. In r t.depends_on)
                  (ref_at_elem tasks (0 + j) u (ap (get_elem? tasks) (omega arith) ∙ at_j))
                  declared)
          ],
      λ h. found.1 (
          each.1 (λ i t at_i.
            All-of_In (Declared tasks producer (0 + i) t) t.inputs (λ p reads j made.
              elim (producers_named p 0 tasks [] j made) [
                | inr bad ↦ absurd (none-some j bad)
                | inl (k, u, at_k, writes, e) ↦ elim (h i k t u p at_i at_k reads writes) [
                  | inl same ↦ inl (omega (arith, e, same))
                  | inr declared ↦
                      let at_j = ap (get_elem? tasks) (omega (arith, e)) ∙ at_k in
                      inr
                        (subst (λ r. In r t.depends_on) (sym (ref_at_elem tasks j u at_j)) declared)
                ]
              ]))),
    )
