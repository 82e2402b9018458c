-- ===== src/Depgraph/Build.antt =====
-- Build in depgraph.go: the checks, the edges, and the order by Kahn's algorithm.
mod Edges
pub mod Writers
pub mod CycleError
mod Start
pub mod Order
mod Cycles
pub mod Tests
use sloff.Prelude.{
  Bool, List, Map, Str, Str_Eq, [], contains, get_elem?, if◌then◌else◌, insert, keep, length,
  lookup, ltb, map, nat_Eq, nat_eq, none, not, some, sort, str_eq, str_ltb, suc, ℕ, ◌++◌, ◌+◌, ◌∷◌,
}
use mathlib.Core.List.{filter_map}
use sloff.Depgraph.Defs.{
  TaskRef, TaskRef_Eq, ref_eq, Task, ref, BuildError, duplicate_producers, unknown_dependency,
  self_dependency, cycle, Built, ok, err, ◌>>=◌,
}
use sloff.Depgraph.Kahn.{Row, State, loop}
use sloff.Depgraph.Heights.{Marks, downstream_heights, height_of}

-- keyToIdx: a later task of the same key overwrites an earlier one.
pub index_keys : ℕ → List Task → Map TaskRef ℕ → Map TaskRef ℕ
index_keys i [] m = m
index_keys i (t ∷ ts) m = index_keys (suc i) ts (insert (ref t) i m)

-- outputProducer and conflicts.
pub record Outputs : Type 0 where
  pub producer : Map Str ℕ
  pub conflicts : Map Str (List ℕ)

-- The body of the loop over t.Outputs.
pub claim_output : ℕ → Outputs → Str → Outputs
claim_output i o out = elim (lookup out o.producer) [
  | none ↦ record o { producer = insert out i o.producer }
  | some existing ↦
      let recorded : List ℕ = elim (lookup out o.conflicts) [ none ↦ existing ∷ [] | some l ↦ l ] in
      record o { conflicts = insert out (recorded ++ i ∷ []) o.conflicts }
]

pub claim_outputs : ℕ → List Str → Outputs → Outputs
unfolding claim_output
claim_outputs i [] o = o
claim_outputs i (out ∷ outs) o = claim_outputs i outs (claim_output i o out)

pub scan_outputs : ℕ → List Task → Outputs → Outputs
unfolding claim_outputs
scan_outputs i [] o = o
scan_outputs i (t ∷ ts) o = scan_outputs (suc i) ts (claim_outputs i t.outputs o)

-- `edges[i][j] = struct{}{}; inDegree[i]++`, unless the edge is there.
pub add_edge : ℕ → Row → Row
add_edge j r =
    if contains r.deps j then r else record r { deps = j ∷ r.deps; degree = r.degree + 1 }

-- The loop over t.DependsOn.
pub add_edges : Map TaskRef ℕ → Task → List TaskRef → Row → Built Row
unfolding add_edge
add_edges keys t [] r = ok r
add_edges keys t (dep ∷ deps) r = elim (lookup dep keys) [
  | none ↦ err (unknown_dependency (ref t) dep)
  | some j ↦
      let rest = add_edges keys t deps (add_edge j r) in
      if nat_eq j r.id then err (self_dependency (ref t)) else rest
]

pub edge_rows : Map TaskRef ℕ → ℕ → List Task → Built (List Row)
unfolding add_edges
edge_rows keys i [] = ok []
edge_rows keys i (t ∷ ts) =
    add_edges keys t t.depends_on (record { id = i; deps = []; degree = 0 }) >>= λ r.
    edge_rows keys (suc i) ts >>= λ rs. ok (r ∷ rs)

-- consumers[j]
pub consumers : List Row → ℕ → List ℕ
consumers rows j = map (λ (r : Row). r.id) (keep (λ (r : Row). contains r.deps j) rows)

no_ref : TaskRef
no_ref = record { spec_relpath = []; name = [] }

-- `tasks[i].Ref()`; an index in range is never out of the list.
unfoldable pub ref_at : List Task → ℕ → TaskRef
unfolding no_ref
ref_at tasks i = elim (get_elem? tasks i) [ some t ↦ ref t | none ↦ no_ref ]

-- The comparator of sortByPriority.
pub before : List Task → Marks → ℕ → ℕ → Bool
unfolding ref_at
before tasks heights i j =
    if not (nat_eq (height_of heights i) (height_of heights j))
    then ltb (height_of heights j) (height_of heights i)
    else (let a = ref_at tasks i in
        let b = ref_at tasks j in
        if not (str_eq a.spec_relpath b.spec_relpath)
        then str_ltb a.spec_relpath b.spec_relpath
        else str_ltb a.name b.name)

-- `inDegree[i] == 0`
pub initially_ready : List Row → List ℕ
initially_ready rows = map (λ (r : Row). r.id) (keep (λ (r : Row). nat_eq r.degree 0) rows)

-- `tasks[i]` for each index emitted.
pub pick : List Task → List ℕ → List Task
unfolding filter_map
pick tasks is = filter_map (get_elem? tasks) is

pub remaining_tasks : List Task → List Task → List TaskRef
remaining_tasks all_tasks emitted =
    keep (λ r. not (contains (map ref emitted) r)) (map ref all_tasks)

-- The scheduling half of Build, over the edges.
pub kahn : List Task → List Row → State
unfolding before consumers initially_ready loop downstream_heights
kahn tasks rows =
    let less = before tasks (downstream_heights (length tasks) (consumers rows)) in
    loop less (length tasks)
      (record { rows = rows; ready = sort less (initially_ready rows); out = [] })

pub schedule : List Task → List Row → Built (List Task)
unfolding kahn pick remaining_tasks
schedule tasks rows =
    let out = pick tasks (kahn tasks rows).out in
    if nat_eq (length out) (length tasks) then ok out else err (cycle (remaining_tasks tasks out))

unfoldable pub build : List Task → Built (List Task)
unfolding index_keys scan_outputs edge_rows schedule
build [] = ok []
build (t ∷ ts) =
    let tasks = t ∷ ts in
    elim (scan_outputs 0 tasks (record { producer = []; conflicts = [] })).conflicts [
      | c ∷ cs ↦ err (duplicate_producers (c ∷ cs))
      | [] ↦ edge_rows (index_keys 0 tasks []) 0 tasks >>= schedule tasks
    ]
