-- ===== src/Depgraph/Missing.antt =====
-- FindMissingDependencies of depgraph.go: the inputs of a task that another task writes, without a
-- declared edge between the two.
pub mod Covered
pub mod Pairs
pub mod Tests
use sloff.Prelude.{
  Bool, List, Map, Option, Str, Str_Eq, [], contains, if◌then◌else◌, insert, lookup, map, nat_Eq,
  nat_eq, none, not, some, sort, str_ltb, suc, ℕ, ◌++◌, ◌||◌, ◌∷◌,
}
use sloff.Depgraph.Defs.{TaskRef, TaskRef_Eq, ref_eq, label, Task, ref}
use sloff.Depgraph.Build.{ref_at}

pub record MissingDependency : Type 0 where
  pub producer : TaskRef
  pub consumer : TaskRef
  pub files : List Str

-- `producer[out] = i`; a later producer overwrites an earlier one.
pub put_outputs : List Str → ℕ → Map Str ℕ → Map Str ℕ
put_outputs [] i m = m
put_outputs (out ∷ outs) i m = put_outputs outs i (insert out i m)

pub producers : ℕ → List Task → Map Str ℕ → Map Str ℕ
unfolding put_outputs
producers i [] m = m
producers i (t ∷ ts) m = producers (suc i) ts (put_outputs t.outputs i m)

module _ (tasks : List Task) (producer : Map Str ℕ) where
  -- The producer of an input that the task does not declare, if there is one.
  pub undeclared : ℕ → Task → Str → Option ℕ
  unfolding ref_at
  undeclared i t p = elim (lookup p producer) [
    | none ↦ none
    | some j ↦ if nat_eq j i || contains t.depends_on (ref_at tasks j) then none else some j
  ]

  -- byProducer
  pub by_producer : ℕ → Task → List Str → Map ℕ (List Str) → Map ℕ (List Str)
  unfolding undeclared
  by_producer i t [] m = m
  by_producer i t (p ∷ ps) m = by_producer i t ps (elim (undeclared i t p) [
    | none ↦ m
    | some j ↦
        let files : List Str = elim (lookup j m) [ some fs ↦ fs | none ↦ [] ] in
        insert j (files ++ p ∷ []) m
  ])

  pub missing_of : ℕ → Task → List MissingDependency
  unfolding by_producer ref_at
  missing_of i t =
      map
        (λ (jf : ℕ × List Str). record {
          producer = ref_at tasks jf.0;
          consumer = ref t;
          files = sort str_ltb jf.1;
        })
        (by_producer i t t.inputs [])

  pub all_missing : ℕ → List Task → List MissingDependency
  unfolding missing_of
  all_missing i [] = []
  all_missing i (t ∷ ts) = missing_of i t ++ all_missing (suc i) ts

pub missing_less : MissingDependency → MissingDependency → Bool
missing_less a b =
    if not (ref_eq a.consumer b.consumer)
    then str_ltb (label a.consumer) (label b.consumer)
    else str_ltb (label a.producer) (label b.producer)

unfoldable pub find_missing_dependencies : List Task → List MissingDependency
unfolding producers all_missing missing_less
find_missing_dependencies tasks =
    sort missing_less (all_missing tasks (producers 0 tasks []) 0 tasks)
