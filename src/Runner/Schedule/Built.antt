-- ===== src/Runner/Schedule/Built.antt =====
-- The runs of the tasks that Build has ordered: what they need holds of every such order.
use sloff.Prelude.{
  ==-cases, ==_ne, All, All-In, All-of_In, Bool-cases, In, In-append_cases, In-map, In-map_inv,
  List, Map, NoDup, NoDup-perm, Option-cases, Str_Eq, [], ap, arith, contains, contains-In,
  get_elem-inj, get_elem?, get_elem_some, inl, inr, insert, length, lookup, lookup-insert_ne,
  lookup-insert_self, map, nat_Eq, nat_eq, none, refl, some, subst, suc, sym, zero, ℕ, ◌++◌, ◌+◌,
  ◌<◌, ◌||◌, ◌∙◌, ◌∷◌, ◌≡◌, ◌≢◌, ◌≤◌, ◌⊎◌,
}
use mathlib.Core.List.Perm
use sloff.Depgraph.{TaskRef, TaskRef_Eq, Task, ref, ok}
use sloff.Depgraph.Build.{build}
use sloff.Depgraph.Build.Order.{IsOrdered, build-IsOrdered, build-perm}
use sloff.Runner.Schedule.{
  plan, index_refs, predecessors, predecessor_rows, task_predecessor_indices, task_concurrency,
  Sched, succeeded, Reach, initial,
}
use sloff.Runner.Schedule.Safety.{Started, Reach-Ready}
use sloff.Runner.Schedule.Progress.{Settled, Advance, Reach-Advance}

-- taskConcurrency allows a goroutine at least, and at most as many as there are tasks or processors,
-- each counted as one if it is zero.
pub task_concurrency-bounds :
    (cpus n : ℕ)
    → (1 ≤ task_concurrency cpus n)
      × (task_concurrency cpus n ≤ n ⊎ (n ≡ 0) × (task_concurrency cpus n ≡ 1))
      × (task_concurrency cpus n ≤ cpus ⊎ (cpus ≡ 0) × (task_concurrency cpus n ≡ 1))
unfolding task_concurrency
task_concurrency-bounds cpus n = (ground arith, ground arith, ground arith)

lookup-index_refs :
    (i : ℕ) (ts : List Task) (m : Map TaskRef ℕ) (dep : TaskRef) (p : ℕ)
    → lookup dep (index_refs i ts m) ≡ some p
    → (lookup dep m ≡ some p)
      ⊎ ((k : ℕ) × (u : Task) × (p ≡ i + k) × (get_elem? ts k ≡ some u) × (ref u ≡ dep))
unfolding index_refs
lookup-index_refs i [] m dep p h = inl h
lookup-index_refs i (t ∷ ts) m dep p h =
    elim (lookup-index_refs (suc i) ts (insert (ref t) i m) dep p h) [
      | inr (k, u, e, g, same) ↦ inr (suc k, u, omega (arith, e), g, same)
      | inl found ↦ elim (==-cases dep (ref t)) [
        | inl (same, _) ↦
            let here : some i ≡ some p =
              sym (lookup-insert_self (ref t) i m) ∙ (rw same at found) in
            let e : i ≡ p = cc in inr (0, t, omega (arith, e), refl, sym same)
        | inr (other, f) ↦ inl (sym (lookup-insert_ne (ref t) dep i m f) ∙ found)
      ]
    ]

index_refs-kept :
    (i : ℕ) (ts : List Task) (m : Map TaskRef ℕ) (dep : TaskRef)
    → ¬ In dep (map ref ts)
    → lookup dep (index_refs i ts m) ≡ lookup dep m
unfolding index_refs
index_refs-kept i [] m dep n = refl
index_refs-kept i (t ∷ ts) m dep n =
    index_refs-kept (suc i) ts (insert (ref t) i m) dep (λ k. n (inr k))
    ∙ lookup-insert_ne (ref t) dep i m (==_ne (λ e. n (inl e)))

index_refs-found :
    (i : ℕ) (ts : List Task) (m : Map TaskRef ℕ) (k : ℕ) (u : Task)
    → NoDup (map ref ts)
    → get_elem? ts k ≡ some u
    → lookup (ref u) (index_refs i ts m) ≡ some (i + k)
unfolding index_refs
index_refs-found i [] m k u d g = cc
index_refs-found i (t ∷ ts) m zero u d g =
    let same : ref t ≡ ref u = cc in
    rw (← same) (
      index_refs-kept (suc i) ts (insert (ref t) i m) (ref t) d.0
      ∙ lookup-insert_self (ref t) i m
      ∙ ap some (omega arith))
index_refs-found i (t ∷ ts) m (suc k) u d g =
    index_refs-found (suc i) ts (insert (ref t) i m) k u d.1 g ∙ ap some (omega arith)

predecessors-named :
    (m : Map TaskRef ℕ) (i : ℕ) (seen : List ℕ) (deps : List TaskRef) (d : ℕ)
    → In d (predecessors m i seen deps)
    → (dep : TaskRef) × In dep deps × (lookup dep m ≡ some d)
unfolding predecessors
predecessors-named m i seen [] d h = absurd h
predecessors-named m i seen (dep ∷ deps) d h = elim (Option-cases (lookup dep m)) [
  | inl e ↦
      let (x, k, f) = predecessors-named m i seen deps d (rw (e, predecessors) at h) in
      (x, inr k, f)
  | inr (p, e) ↦ elim (Bool-cases (nat_eq p i || contains seen p)) [
    | inl t ↦
        let (x, k, f) = predecessors-named m i seen deps d (rw (e, t, predecessors) at h) in
        (x, inr k, f)
    | inr f ↦ elim (rw (e, f, predecessors) at h) [
      | inl same ↦ (dep, inl refl, e ∙ ap some (sym same))
      | inr later ↦ let (x, k, g) = predecessors-named m i (p ∷ seen) deps d later in (x, inr k, g)
    ]
  ]
]

predecessors_complete :
    (m : Map TaskRef ℕ) (i : ℕ) (seen : List ℕ) (deps : List TaskRef) (dep : TaskRef) (d : ℕ)
    → In dep deps
    → lookup dep m ≡ some d
    → d ≢ i
    → In d seen ⊎ In d (predecessors m i seen deps)
unfolding predecessors
predecessors_complete m i seen [] dep d h e n = absurd h
predecessors_complete m i seen (x ∷ deps) dep d (inl same) e n =
    let here : lookup x m ≡ some d = rw same at e in
    elim (Bool-cases (contains seen d)) [
      | inl t ↦ inl (contains-In seen d t)
      | inr f ↦ inr (rw (here, f, ==_ne n, predecessors) (inl refl))
    ]
predecessors_complete m i seen (x ∷ deps) dep d (inr k) e n = elim (Option-cases (lookup x m)) [
  | inl none_here ↦ rw (none_here, predecessors) (predecessors_complete m i seen deps dep d k e n)
  | inr (p, found) ↦ elim (Bool-cases (nat_eq p i || contains seen p)) [
    | inl t ↦ rw (found, t, predecessors) (predecessors_complete m i seen deps dep d k e n)
    | inr f ↦
        rw (found, f, predecessors)
          (elim (predecessors_complete m i (p ∷ seen) deps dep d k e n) [
            | inl (inl same) ↦ inr (inl same)
            | inl (inr old) ↦ inl old
            | inr later ↦ inr (inr later)
          ])
  ]
]

predecessor_rows-at :
    (m : Map TaskRef ℕ) (b : ℕ) (ts : List Task) (i : ℕ) (t : Task)
    → get_elem? ts i ≡ some t
    → get_elem? (predecessor_rows m b ts) i ≡ some (predecessors m (b + i) [] t.depends_on)
unfolding predecessor_rows
predecessor_rows-at m b [] i t g = cc
predecessor_rows-at m b (x ∷ ts) zero t g =
    let same : x ≡ t = cc in
    rw same (ap (λ k. some (predecessors m k [] t.depends_on)) (omega arith))
predecessor_rows-at m b (x ∷ ts) (suc i) t g =
    predecessor_rows-at m (suc b) ts i t g
    ∙ ap (λ k. some (predecessors m k [] t.depends_on)) (omega arith)

-- What an ordered list declares stands before.
declared_before :
    (seen ts : List Task) (i : ℕ) (t : Task) (dep : TaskRef)
    → IsOrdered seen ts
    → get_elem? ts i ≡ some t
    → In dep t.depends_on
    → In dep (map ref seen)
      ⊎ ((j : ℕ) × (u : Task) × (j < i) × (get_elem? ts j ≡ some u) × (ref u ≡ dep))
declared_before seen [] i t dep o g m = cc
declared_before seen (x ∷ ts) zero t dep o g m =
    let same : t ≡ x = cc in
    inl (
      All-In (λ r. In r (map ref seen)) dep x.depends_on o.0
        (subst (λ (y : Task). In dep y.depends_on) same m))
declared_before seen (x ∷ ts) (suc i) t dep o g m =
    elim (declared_before (seen ++ x ∷ []) ts i t dep o.1 g m) [
      | inr (j, u, l, at_j, same) ↦ inr (suc j, u, omega arith, at_j, same)
      | inl early ↦
          let (u, k, e) = In-map_inv ref dep (seen ++ x ∷ []) early in
          elim (In-append_cases u seen (x ∷ []) k) [
            | inl old ↦ inl (rw e (In-map ref u seen old))
            | inr (inl new) ↦ inr (0, x, omega arith, refl, sym (ap ref new) ∙ sym e)
            | inr (inr no_more) ↦ absurd no_more
          ]
    ]

module _ (cpus : ℕ) (ordered : List Task) (d : NoDup (map ref ordered))
    (o : IsOrdered [] ordered) where
  preds-at :
      (i : ℕ) (t : Task)
      → get_elem? ordered i ≡ some t
      → (plan cpus ordered).preds i ≡ predecessors (index_refs 0 ordered []) i [] t.depends_on
  unfolding plan task_predecessor_indices
  preds-at i t g =
      rw (predecessor_rows-at (index_refs 0 ordered []) 0 ordered i t g, plan)
        (ap (λ k. predecessors (index_refs 0 ordered []) k [] t.depends_on) (omega arith))

  behind : (i : ℕ) → i < (plan cpus ordered).count → All (λ k. k < i) ((plan cpus ordered).preds i)
  unfolding plan lookup
  behind i l =
      let (t, g) = get_elem_some ordered i l in
      rw (preds-at i t g) (
        All-of_In (λ k. k < i) (predecessors (index_refs 0 ordered []) i [] t.depends_on)
          (λ k m.
            let (dep, declared, found) =
              predecessors-named (index_refs 0 ordered []) i [] t.depends_on k m in
            earlier t g dep declared k found))
    where
      earlier :
          (t : Task)
          → get_elem? ordered i ≡ some t
          → (dep : TaskRef) → In dep t.depends_on
          → (k : ℕ) → lookup dep (index_refs 0 ordered []) ≡ some k
          → k < i
      earlier t g dep declared k found = elim (declared_before [] ordered i t dep o g declared) [
        | inl never ↦ absurd never
        | inr (j, u, below, at_j, e) ↦ elim (lookup-index_refs 0 ordered [] dep k found) [
          | inl nowhere ↦ absurd (let bad : none ≡ some k = nowhere in cc)
          | inr (n, w, same, at_n, f) ↦
              omega (arith, same, below, get_elem-inj ref ordered d n j w u at_n at_j (f ∙ sym e))
        ]
      ]

  declared-In :
      (i : ℕ) (t u : Task) (k : ℕ)
      → get_elem? ordered i ≡ some t
      → get_elem? ordered k ≡ some u
      → In (ref u) t.depends_on
      → In k ((plan cpus ordered).preds i)
  declared-In i t u k g h m =
      rw (preds-at i t g)
        (elim (predecessors_complete (index_refs 0 ordered []) i [] t.depends_on (ref u) k m
          (index_refs-found 0 ordered [] k u d h ∙ ap some (omega arith)) other) [
            | inl never ↦ absurd never
            | inr found ↦ found
          ])
    where
      other : k ≢ i
      other e = elim (declared_before [] ordered i t (ref u) o g m) [
        | inl never ↦ never
        | inr (j, w, below, at_j, f) ↦
            omega (arith, e, below, get_elem-inj ref ordered d j k w u at_j h f)
      ]

NoDup-build :
    (tasks ordered : List Task)
    → NoDup (map ref tasks)
    → build tasks ≡ ok ordered
    → NoDup (map ref ordered)
NoDup-build tasks ordered d b =
    NoDup-perm (map ref tasks) (map ref ordered)
      (Perm.map ref (Perm.symm (build-perm tasks ordered b))) d

-- If the tasks have different references and Build succeeds, then in every state that a run of its
-- result can reach, all tasks are done or some step other than a cancellation is possible, whatever
-- the number of processors.
pub build-Advance :
    (cpus : ℕ) (tasks ordered : List Task) (s : Sched)
    → NoDup (map ref tasks)
    → build tasks ≡ ok ordered
    → Reach (plan cpus ordered) initial s
    → ((i : ℕ) → i < length ordered → Settled (s.status i)) ⊎ Advance (plan cpus ordered) s
unfolding plan
build-Advance cpus tasks ordered s d b r =
    Reach-Advance (plan cpus ordered) s
      (omega (arith, (task_concurrency-bounds cpus (length ordered)).0))
      (behind cpus ordered (NoDup-build tasks ordered d b) (build-IsOrdered tasks ordered b)) r

-- If the tasks have different references and Build succeeds, then in every state that a run of its
-- result can reach, a task that runs or has succeeded depends only on tasks that have succeeded.
pub build-Ready :
    (cpus : ℕ) (tasks ordered : List Task) (s : Sched)
    → NoDup (map ref tasks)
    → build tasks ≡ ok ordered
    → Reach (plan cpus ordered) initial s
    → (i k : ℕ) (t u : Task) → get_elem? ordered i ≡ some t
    → get_elem? ordered k ≡ some u
    → In (ref u) t.depends_on
    → Started (s.status i)
    → s.status k ≡ succeeded
build-Ready cpus tasks ordered s d b r i k t u g h m st =
    All-In (λ j. s.status j ≡ succeeded) k ((plan cpus ordered).preds i)
      (Reach-Ready (plan cpus ordered) s r i st)
      (declared-In cpus ordered (NoDup-build tasks ordered d b) (build-IsOrdered tasks ordered b) i
        t u k g h m)
