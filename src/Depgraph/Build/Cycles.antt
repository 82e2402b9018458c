-- ===== src/Depgraph/Build/Cycles.antt =====
-- When Build reports a cycle: exactly the graphs in which some tasks wait for one another.
use sloff.Prelude.{
  Bool, Bool-cases, In, In-dec, In-get_elem, In-keep_of, In-map, In-map_inv, List, Map, NoDup,
  Option-cases, Str, Str_Eq, Subset, [], ap, arith, contains, contains_of_not, false, get_elem-inj,
  get_elem-lt, get_elem?, inl, inr, length, length-le_of_NoDup, lookup, map, nat_Eq, nat_eq,
  nat_eq_iff, none, not, refl, some, subst, suc, sym, true, ℕ, ◌<◌, ◌∷◌, ◌≡◌, ◌≢◌, ◌⊎◌,
}
use mathlib.Core.List.{filter_map-cons-some, filter_map-cons-none}
use sloff.Depgraph.Defs.{
  TaskRef, TaskRef_Eq, Task, ref, duplicate_producers, unknown_dependency, self_dependency, cycle,
  Built, ok, err, ◌>>=◌, >>=-eq-err,
}
use sloff.Depgraph.Kahn.{Row, State}
use sloff.Depgraph.Kahn.Inv.{ids}
use sloff.Depgraph.Kahn.Step.{Inv}
use sloff.Depgraph.Kahn.Result.{waits, all_emitted}
use sloff.Depgraph.Build.{
  add_edge, add_edges, scan_outputs, index_keys, edge_rows, kahn, pick, ref_at, remaining_tasks,
  schedule, build,
}
use sloff.Depgraph.Build.Edges.{Rows, edge_rows-Rows}
use sloff.Depgraph.Build.Order.{no_outputs, length-pick}
use sloff.Depgraph.Build.Start.{
  In-indices, Dep, Rows-row, lookup-index_keys, ids_are, ids_once, kahn-Inv, length-indices,
}

-- The loops over the edges have errors of their own, and never report a cycle.
add_edges-ne-cycle :
    (keys : Map TaskRef ℕ) (t : Task) (deps : List TaskRef) (r : Row) (rs : List TaskRef)
    → add_edges keys t deps r ≢ err (cycle rs)
unfolding add_edges
add_edges-ne-cycle keys t [] r rs h = cc
add_edges-ne-cycle keys t (dep ∷ deps) r rs h = elim (Option-cases (lookup dep keys)) [
  | inl e ↦
      let bad : ◌≡◌ {A = Built Row} (err (unknown_dependency (ref t) dep)) (err (cycle rs)) =
        rw (e, add_edges) at h in
      cc
  | inr (j, e) ↦ elim (Bool-cases (nat_eq j r.id)) [
    | inl z ↦
        let bad : ◌≡◌ {A = Built Row} (err (self_dependency (ref t))) (err (cycle rs)) =
          rw (e, add_edges, z) at h in
        cc
    | inr f ↦ add_edges-ne-cycle keys t deps (add_edge j r) rs (rw (e, add_edges, f) at h)
  ]
]

edge_rows-ne-cycle :
    (keys : Map TaskRef ℕ) (i : ℕ) (ts : List Task) (rs : List TaskRef)
    → edge_rows keys i ts ≢ err (cycle rs)
unfolding edge_rows
edge_rows-ne-cycle keys i [] rs h = cc
edge_rows-ne-cycle keys i (t ∷ ts) rs h = elim (>>=-eq-err (add_edges keys t t.depends_on _) _ h) [
  | inl early ↦ add_edges-ne-cycle keys t t.depends_on _ rs early
  | inr (r, _, k) ↦ elim (>>=-eq-err (edge_rows keys (suc i) ts) (λ qs. ok (r ∷ qs)) k) [
    | inl later ↦ edge_rows-ne-cycle keys (suc i) ts rs later
    | inr (qs, _, bad) ↦ cc
  ]
]

pub record Stuck (tasks : List Task) (rs : List TaskRef) : Type 0 where
  pub rows : List Row
  pub made : Rows (index_keys 0 tasks []) 0 tasks rows
  pub left_over : rs ≡ remaining_tasks tasks (pick tasks (kahn tasks rows).out)
  pub short : length (pick tasks (kahn tasks rows).out) ≢ length tasks

pub build-Stuck :
    (tasks : List Task) (rs : List TaskRef) → build tasks ≡ err (cycle rs) → Stuck tasks rs
unfolding build schedule
build-Stuck [] rs h = cc
build-Stuck (t ∷ ts) rs h = go _ refl h
  where
    tasks : List Task
    tasks = t ∷ ts

    keys : Map TaskRef ℕ
    keys = index_keys 0 tasks []

    last :
        (rows : List Row)
        → Rows keys 0 tasks rows
        → schedule tasks rows ≡ err (cycle rs)
        → Stuck tasks rs
    last rows made k =
        elim (Bool-cases (nat_eq (length (pick tasks (kahn tasks rows).out)) (length tasks))) [
          | inl e ↦
              let bad : ok (pick tasks (kahn tasks rows).out) ≡ err (cycle rs) = rw e at k in cc
          | inr f ↦
              let same : ◌≡◌ {A = Built (List Task)}
                  (err (cycle (remaining_tasks tasks (pick tasks (kahn tasks rows).out))))
                  (err (cycle rs)) =
                rw f at k in
              record {
                rows = rows;
                made = made;
                left_over = cc;
                short = λ e. let z = (nat_eq_iff _ _).1 e in cc;
              }
        ]

    go :
        (c : Map Str (List ℕ))
        → (scan_outputs 0 tasks no_outputs).conflicts ≡ c
        → (elim c [
          | x ∷ xs ↦ err (duplicate_producers (x ∷ xs))
          | [] ↦ edge_rows keys 0 tasks >>= schedule tasks
        ])
          ≡ err (cycle rs)
        → Stuck tasks rs
    go (x ∷ xs) e k = absurd (cc)
    go [] e k = elim (>>=-eq-err (edge_rows keys 0 tasks) (schedule tasks) k) [
      | inl early ↦ absurd (edge_rows-ne-cycle keys 0 tasks rs early)
      | inr (rows, made, k') ↦ last rows (edge_rows-Rows keys 0 tasks rows made) k'
    ]

pub Subset-dec : (xs ys : List ℕ) → Subset xs ys ⊎ ((a : ℕ) × In a xs × ¬ In a ys)
Subset-dec [] ys = inl (λ a m. absurd m)
Subset-dec (x ∷ xs) ys = elim (In-dec x ys) [
  | inr missing ↦ inr (x, inl refl, missing)
  | inl there ↦ elim (Subset-dec xs ys) [
    | inr (a, m, n) ↦ inr (a, inr m, n)
    | inl s ↦ inl (λ a m. elim m [ inl e ↦ rw e there | inr later ↦ s a later ])
  ]
]

module _ (tasks : List Task) (rs : List TaskRef) (p : Stuck tasks rs) where
  open p use {rows, made, left_over, short}

  abbrev keys : Map TaskRef ℕ
  keys = index_keys 0 tasks []

  abbrev pub final : State
  final = kahn tasks rows

  pub final-Inv : Inv (Dep rows) (ids rows) final
  final-Inv = (kahn-Inv keys tasks rows made).0

  -- Not every task was emitted.
  pub not_all : ¬ Subset (ids rows) final.out
  not_all s =
      let v = final-Inv in
      short (
        omega (
          arith,
          length-pick tasks rows made final.out (λ i m. v.known i (inl m)),
          length-le_of_NoDup (ids rows) final.out (ids_once keys tasks rows made) s,
          length-le_of_NoDup final.out (ids rows) v.out_once (λ i m. v.known i (inl m)),
          ap length (ids_are keys tasks rows made),
          length-indices 0 (length tasks),
        ))

  -- What a row waits for is a declared dependency of its task, and the key of another task.
  pub Dep-task :
      (i d : ℕ)
      → Dep rows i d
      → (t u : Task) × (get_elem? tasks i ≡ some t)
        × (get_elem? tasks d ≡ some u)
        × In (ref u) t.depends_on
  unfolding lookup
  Dep-task i d (r, m, e, md) =
      let (k, t, z, g, f) = Rows-row keys 0 tasks rows r made m in
      let (dep, mdep, found) = f.sound d md in
      elim (lookup-index_keys 0 tasks [] dep d found) [
        | inl nowhere ↦ absurd (let bad : none ≡ some d = nowhere in cc)
        | inr (j, u, y, gj, same) ↦ (
          t,
          u,
          subst (λ n. get_elem? tasks n ≡ some t) (omega arith) g,
          subst (λ n. get_elem? tasks n ≡ some u) (omega arith) gj,
          rw same mdep,
        )
      ]

  at_ref : (i : ℕ) (t : Task) → get_elem? tasks i ≡ some t → ref_at tasks i ≡ ref t
  unfolding ref_at
  at_ref i t g = rw (g, ref_at)

  -- No rank of the tasks falls along every declared dependency.
  pub no_rank :
      (rank : TaskRef → ℕ)
      → ((t : Task) → In t tasks → (dep : TaskRef) → In dep t.depends_on → rank dep < rank (ref t))
      → ⊥
  no_rank rank falls = not_all λ i m.
      all_emitted less (Dep rows) (ids rows) (ids_once keys tasks rows made) final final-Inv
        (kahn-Inv keys tasks rows made).1 index_rank index_falls (suc (index_rank i)) i m
        (omega arith)
    where
      less : ℕ → ℕ → Bool
      less a b = false

      index_rank : ℕ → ℕ
      index_rank i = rank (ref_at tasks i)

      index_falls : (i d : ℕ) → Dep rows i d → (index_rank d < index_rank i) × In d (ids rows)
      index_falls i d dep =
          let (t, u, gi, gd, m) = Dep-task i d dep in
          (
            rw (at_ref i t gi) (rw (at_ref d u gd) (falls t (In-get_elem tasks i t gi) (ref u) m)),
            rw (ids_are keys tasks rows made) (
                In-indices 0 (length tasks) d (omega arith)
                  (omega (arith, get_elem-lt tasks d u gd))),
          )

  In-pick_inv :
      (u : Task) (is : List ℕ)
      → In u (pick tasks is)
      → (i : ℕ) × In i is × (get_elem? tasks i ≡ some u)
  unfolding pick
  In-pick_inv u [] m = absurd m
  In-pick_inv u (i ∷ is) m = elim (Option-cases (get_elem? tasks i)) [
    | inl e ↦
        let (j, mj, g) =
          In-pick_inv u is (rw (filter_map-cons-none (get_elem? tasks) i is e) at m) in
        (j, inr mj, g)
    | inr (t, e) ↦ elim (rw (filter_map-cons-some (get_elem? tasks) i is e) at m) [
      | inl same ↦ (i, inl refl, rw same e)
      | inr later ↦ let (j, mj, g) = In-pick_inv u is later in (j, inr mj, g)
    ]
  ]

  key_inj :
      NoDup (map ref tasks)
      → (i j : ℕ) (t u : Task) → get_elem? tasks i ≡ some t
      → get_elem? tasks j ≡ some u
      → ref t ≡ ref u
      → i ≡ j
  key_inj d = get_elem-inj ref tasks d

  -- The key of a task that is not emitted is in the error.
  pub is_left :
      NoDup (map ref tasks)
      → (j : ℕ) (v : Task) → get_elem? tasks j ≡ some v
      → ¬ In j final.out
      → In (ref v) rs
  unfolding remaining_tasks
  is_left distinct j v g missing =
      let emitted = map ref (pick tasks final.out) in
      let absent : contains emitted (ref v) ≡ false = contains_of_not emitted (ref v) (λ m.
        let (u, mu, same) = In-map_inv ref (ref v) (pick tasks final.out) m in
        let (i, mi, gi) = In-pick_inv u final.out mu in
        missing (subst (λ n. In n final.out) (sym (key_inj distinct j i v u g gi same)) mi)) in
      let test : not (contains emitted (ref v)) ≡ true = rw absent in
      rw left_over (
        In-keep_of (λ r. not (contains emitted r)) (ref v) (map ref tasks)
          (In-map ref v tasks (In-get_elem tasks j v g)) test)

  -- A task that is not emitted has a dependency that is not emitted, under distinct keys.
  pub left_waits :
      NoDup (map ref tasks)
      → (i : ℕ) (t : Task) → get_elem? tasks i ≡ some t
      → ¬ In i final.out
      → (dep : TaskRef) × In dep t.depends_on × In dep rs
  left_waits distinct i t g missing =
      let i_named : In i (ids rows) =
        rw (ids_are keys tasks rows made)
          (In-indices 0 (length tasks) i (omega arith) (omega (arith, get_elem-lt tasks i t g))) in
      let (d, dep, open_dep) =
        waits (λ a b. false) (Dep rows) (ids rows) (ids_once keys tasks rows made) final final-Inv
          (kahn-Inv keys tasks rows made).1 i i_named missing in
      let (t', u, gi, gd, m) = Dep-task i d dep in
      let same : t' ≡ t = cc in
      (
        ref u,
        subst (λ (x : Task). In (ref u) x.depends_on) same m,
        is_left distinct d u gd open_dep,
      )
