-- ===== src/Depgraph/Build/CycleError.antt =====
-- The error that Build returns for a cycle, and when it returns it.
use sloff.Prelude.{
  In, In-contains, In-keep, In-map_inv, List, NoDup, Str_Eq, [], arith, contains, get_elem?,
  get_elem_of_In, inl, inr, map, nat_Eq, not, some, subst, sym, true, ℕ, ◌<◌, ◌≡◌, ◌≢◌,
}
use sloff.Depgraph.Defs.{TaskRef, TaskRef_Eq, Task, ref, err, cycle}
use sloff.Depgraph.Kahn.Inv.{ids}
use sloff.Depgraph.Build.{pick, remaining_tasks, build}
use sloff.Depgraph.Build.Cycles.{
  Stuck, build-Stuck, no_rank, left_waits, is_left, final, not_all, Subset-dec,
}
use sloff.Depgraph.Build.Start.{Rows-row}
use sloff.Depgraph.Build.Order.{In-pick}
use sloff.Depgraph.Kahn.{Row}

-- If the tasks can be ranked so that every declared dependency has a lower rank than the task that
-- declares it, Build reports no cycle.
pub build-ne-cycle :
    (tasks : List Task) (rank : TaskRef → ℕ) (rs : List TaskRef)
    → ((t : Task) → In t tasks → (dep : TaskRef) → In dep t.depends_on → rank dep < rank (ref t))
    → build tasks ≢ err (cycle rs)
build-ne-cycle tasks rank rs falls h = no_rank tasks rs (build-Stuck tasks rs h) rank falls

pub record Tangle (tasks : List Task) (rs : List TaskRef) : Type 0 where
  pub some_task : rs ≢ []
  pub each_waits :
      (r : TaskRef)
      → In r rs
      → (t : Task) × (dep : TaskRef) × In t tasks × (ref t ≡ r) × In dep t.depends_on × In dep rs

-- When Build reports a cycle for tasks with distinct keys, the error names at least one task, and
-- each task that it names declares a dependency on a task that it names.
pub build-cycle-Tangle :
    (tasks : List Task) (rs : List TaskRef)
    → NoDup (map ref tasks)
    → build tasks ≡ err (cycle rs)
    → Tangle tasks rs
unfolding remaining_tasks
build-cycle-Tangle tasks rs distinct h = record {
  some_task = λ empty. elim (Subset-dec (ids p.rows) (final tasks rs p).out) [
    | inl s ↦ not_all tasks rs p s
    | inr (i, m, missing) ↦
        let (r, mr, e) = In-map_inv (λ (x : Row). x.id) i p.rows m in
        let (k, t, z, g, f) = Rows-row _ 0 tasks p.rows r p.made mr in
        let same : k ≡ i = omega arith in
        let left =
          is_left tasks rs p distinct i t (subst (λ n. get_elem? tasks n ≡ some t) same g)
            missing in
        subst (In (ref t)) empty left
  ];
  each_waits = λ r m.
      let (m', absent) = In-keep _ r (map ref tasks) (subst (In r) p.left_over m) in
      let (t, mt, same) = In-map_inv ref r tasks m' in
      let (i, g) = get_elem_of_In t tasks mt in
      let missing : ¬ In i (final tasks rs p).out = λ mi.
        In_of_not (map ref (pick tasks (final tasks rs p).out)) r absent
          (rw same (In-pick tasks p.rows p.made (final tasks rs p).out i t mi g)) in
      let (dep, md, left) = left_waits tasks rs p distinct i t g missing in
      (t, dep, mt, sym same, md, left);
}
  where
    p : Stuck tasks rs
    p = build-Stuck tasks rs h

    In_of_not : (xs : List TaskRef) (a : TaskRef) → not (contains xs a) ≡ true → ¬ In a xs
    In_of_not xs a e m = let t = In-contains xs a m in let bad : not true ≡ true = rw t at e in cc
