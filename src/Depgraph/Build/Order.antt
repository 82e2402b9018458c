-- ===== src/Depgraph/Build/Order.antt =====
-- The order that Build returns: all tasks, each behind those that it declares.
use sloff.Prelude.{
  All, All-of_In, Bool-cases, In, In-map_inv, List, Map, Option, Option-cases, Perm, Str, Str_Eq,
  [], ap, arith, get_elem?, inl, inr, length, lookup, map, nat_Eq, nat_eq, nat_eq_iff, none, refl,
  some, subst, suc, sym, ℕ, ◌++◌, ◌+◌, ◌∙◌, ◌∷◌, ◌≡◌, ◌⊎◌,
}
use mathlib.Core.List.{filter_map, filter_map-cons-some, filter_map-cons-none, filter_map-append}
use mathlib.Core.List.Perm
use sloff.Depgraph.Defs.{
  TaskRef, TaskRef_Eq, Task, ref, duplicate_producers, cycle, ok, err, ◌>>=◌, >>=-eq-ok,
}
use sloff.Depgraph.Kahn.{Row}
use sloff.Depgraph.Kahn.Inv.{ids}
use sloff.Depgraph.Kahn.Step.{Ordered}
use sloff.Depgraph.Kahn.Result.{out-perm}
use sloff.Depgraph.Heights.{indices}
use sloff.Depgraph.Build.{
  Outputs, scan_outputs, index_keys, edge_rows, kahn, pick, remaining_tasks, schedule, build,
}
use sloff.Depgraph.Build.Edges.{RowFor, Rows, edge_rows-Rows}
use sloff.Depgraph.Build.Start.{Dep, Rows-row, lookup-index_keys, ids_are, kahn-Inv, length-indices}

abbrev pub no_outputs : Outputs
no_outputs = record { producer = []; conflicts = [] }

pub record Parts (tasks out : List Task) : Type 0 where
  pub rows : List Row
  pub made : Rows (index_keys 0 tasks []) 0 tasks rows
  pub clean : (scan_outputs 0 tasks no_outputs).conflicts ≡ []
  pub scheduled : schedule tasks rows ≡ ok out

pub build-Parts :
    (tasks out : List Task) → build tasks ≡ ok out → (tasks ≡ []) × (out ≡ []) ⊎ Parts tasks out
unfolding build
build-Parts [] out h = inl (refl, cc)
build-Parts (t ∷ ts) out h = inr (go _ refl h)
  where
    keys : Map TaskRef ℕ
    keys = index_keys 0 (t ∷ ts) []

    go :
        (c : Map Str (List ℕ))
        → (scan_outputs 0 (t ∷ ts) no_outputs).conflicts ≡ c
        → (elim c [
          | x ∷ xs ↦ err (duplicate_producers (x ∷ xs))
          | [] ↦ edge_rows keys 0 (t ∷ ts) >>= schedule (t ∷ ts)
        ])
          ≡ ok out
        → Parts (t ∷ ts) out
    go (x ∷ xs) e k = absurd (cc)
    go [] e k =
        let (rows, made, last) = >>=-eq-ok (edge_rows keys 0 (t ∷ ts)) (schedule (t ∷ ts)) k in
        record {
          rows = rows;
          made = edge_rows-Rows keys 0 (t ∷ ts) rows made;
          clean = e;
          scheduled = last;
        }

pick-snoc :
    (tasks : List Task) (is : List ℕ) (i : ℕ) (t : Task)
    → get_elem? tasks i ≡ some t
    → pick tasks (is ++ i ∷ []) ≡ pick tasks is ++ t ∷ []
unfolding pick
pick-snoc tasks is i t e =
    filter_map-append (get_elem? tasks) is (i ∷ [])
    ∙ ap (λ l. filter_map (get_elem? tasks) is ++ l) (filter_map-cons-some (get_elem? tasks) i [] e)

-- All indices in order pick the whole list.
pick-indices :
    (f : ℕ → Option Task) (i : ℕ) (ts : List Task)
    → ((k : ℕ) → f (i + k) ≡ get_elem? ts k)
    → filter_map f (indices i (length ts)) ≡ ts
unfolding filter_map
pick-indices f i [] h = refl
pick-indices f i (t ∷ ts) h =
    let z : i + 0 ≡ i = omega arith in
    let head : f i ≡ some t = ap f (sym z) ∙ h 0 in
    filter_map-cons-some f i _ head
    ∙ ap (◌∷◌ t) (
        pick-indices f (suc i) ts
          (λ k. let y : suc i + k ≡ i + suc k = omega arith in ap f y ∙ h (suc k)))

-- `seen` holds every task that a task of the list declares, by the time that task comes.
abbrev pub IsOrdered : List Task → List Task → Type 0
IsOrdered seen [] = Unit
IsOrdered seen (t ∷ ts) =
    All (λ dep. In dep (map ref seen)) t.depends_on × IsOrdered (seen ++ t ∷ []) ts

module _ (tasks : List Task) (rows : List Row)
    (made : Rows (index_keys 0 tasks []) 0 tasks rows) where
  abbrev keys : Map TaskRef ℕ
  keys = index_keys 0 tasks []

  pub named-task :
      (i : ℕ)
      → In i (ids rows)
      → (t : Task) × (get_elem? tasks i ≡ some t)
        × ((r : Row) × In r rows × (r.id ≡ i) × RowFor keys i t r)
  named-task i m =
      let (r, mr, e) = In-map_inv (λ (x : Row). x.id) i rows m in
      let (k, t, z, g, f) = Rows-row keys 0 tasks rows r made mr in
      let same : k ≡ i = omega arith in
      (
        t,
        subst (λ n. get_elem? tasks n ≡ some t) same g,
        (r, mr, sym e, subst (λ n. RowFor keys n t r) (omega arith) f),
      )

  pub In-pick :
      (is : List ℕ) (d : ℕ) (t : Task)
      → In d is
      → get_elem? tasks d ≡ some t
      → In (ref t) (map ref (pick tasks is))
  unfolding pick
  In-pick [] d t m g = absurd m
  In-pick (i ∷ is) d t (inl same) g =
      let here : get_elem? tasks i ≡ some t = rw same at g in
      rw (filter_map-cons-some (get_elem? tasks) i is here) (inl refl)
  In-pick (i ∷ is) d t (inr m) g = elim (Option-cases (get_elem? tasks i)) [
    | inl e ↦ rw (filter_map-cons-none (get_elem? tasks) i is e) (In-pick is d t m g)
    | inr (u, e) ↦ rw (filter_map-cons-some (get_elem? tasks) i is e) (inr (In-pick is d t m g))
  ]

  Ordered-IsOrdered :
      (seen js : List ℕ)
      → ((j : ℕ) → In j js → In j (ids rows))
      → Ordered (Dep rows) seen js
      → IsOrdered (pick tasks seen) (pick tasks js)
  unfolding pick lookup
  Ordered-IsOrdered seen [] known o = tt
  Ordered-IsOrdered seen (j ∷ js) known o =
      let (t, g, (r, mr, e, f)) = named-task j (known j (inl refl)) in
      rw (filter_map-cons-some (get_elem? tasks) j js g) (
        All-of_In (λ dep. In dep (map ref (pick tasks seen))) t.depends_on
            (λ dep m.
              let (d, found, md, other) = f.complete dep m in
              elim (lookup-index_keys 0 tasks [] dep d found) [
                | inl nowhere ↦ absurd (let bad : none ≡ some d = nowhere in cc)
                | inr (k, u, z, gk, same) ↦
                    let at_d : get_elem? tasks d ≡ some u =
                      subst (λ n. get_elem? tasks n ≡ some u) (omega arith) gk in
                    subst (λ x. In x (map ref (pick tasks seen))) same
                      (In-pick seen d u (o.0 d (r, mr, e, md)) at_d)
              ]),
        rw (← pick-snoc tasks seen j t g)
            (Ordered-IsOrdered (seen ++ j ∷ []) js (λ i m. known i (inr m)) o.1),
      )

  schedule-out :
      (out : List Task)
      → schedule tasks rows ≡ ok out
      → (out ≡ pick tasks (kahn tasks rows).out) × (length out ≡ length tasks)
  unfolding schedule
  schedule-out out h =
      elim (Bool-cases (nat_eq (length (pick tasks (kahn tasks rows).out)) (length tasks))) [
        | inr f ↦ absurd (
            let bad : err (cycle (remaining_tasks tasks (pick tasks (kahn tasks rows).out)))
                ≡ ok out =
              rw f at h in
            cc)
        | inl t ↦
            let same : ok (pick tasks (kahn tasks rows).out) ≡ ok out = rw t at h in
            let eq : pick tasks (kahn tasks rows).out ≡ out = cc in
            (sym eq, rw (← eq) ((nat_eq_iff _ _).0 t))
      ]

  pub length-pick :
      (is : List ℕ) → ((i : ℕ) → In i is → In i (ids rows)) → length (pick tasks is) ≡ length is
  unfolding pick
  length-pick [] known = refl
  length-pick (i ∷ is) known =
      let (t, g, _) = named-task i (known i (inl refl)) in
      rw (filter_map-cons-some (get_elem? tasks) i is g)
        (ap suc (length-pick is (λ j m. known j (inr m))))

  pub schedule-IsOrdered : (out : List Task) → schedule tasks rows ≡ ok out → IsOrdered [] out
  unfolding pick
  schedule-IsOrdered out h =
      let (v, _) = kahn-Inv keys tasks rows made in
      rw (schedule-out out h).0
        (Ordered-IsOrdered [] (kahn tasks rows).out (λ i m. v.known i (inl m)) v.ordered)

  pub schedule-perm : (out : List Task) → schedule tasks rows ≡ ok out → Perm out tasks
  unfolding pick
  schedule-perm out h =
      let (v, _) = kahn-Inv keys tasks rows made in
      let (e, n) = schedule-out out h in
      let all_ids = ids_are keys tasks rows made in
      let picked : length out ≡ length (kahn tasks rows).out =
        ap length e ∙ length-pick (kahn tasks rows).out (λ i m. v.known i (inl m)) in
      let whole : filter_map (get_elem? tasks) (ids rows) ≡ tasks =
        ap (filter_map (get_elem? tasks)) all_ids
        ∙ pick-indices (get_elem? tasks) 0 tasks (λ k. ap (get_elem? tasks) (omega arith)) in
      let p =
        out-perm (Dep rows) (ids rows) (kahn tasks rows) v
          (omega (arith, ap length all_ids, length-indices 0 (length tasks))) in
      subst (λ l. Perm l tasks) (sym e)
        (subst (Perm (pick tasks (kahn tasks rows).out)) whole
          (Perm.filter_map (get_elem? tasks) p))

-- When Build succeeds, its result holds the given tasks, each as often as it was given.
pub build-perm : (tasks out : List Task) → build tasks ≡ ok out → Perm out tasks
build-perm tasks out h = elim (build-Parts tasks out h) [
  | inl (e, o) ↦ rw (e, o) (Perm.refl [])
  | inr p ↦ schedule-perm tasks p.rows p.made out p.scheduled
]

-- When Build succeeds, each task of its result stands behind all tasks that it declares in
-- DependsOn, so each declared reference names a task of the result.
pub build-IsOrdered : (tasks out : List Task) → build tasks ≡ ok out → IsOrdered [] out
build-IsOrdered tasks out h = elim (build-Parts tasks out h) [
  | inl (e, o) ↦ rw o tt
  | inr p ↦ schedule-IsOrdered tasks p.rows p.made out p.scheduled
]
