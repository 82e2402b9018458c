-- ===== src/Depgraph/Kahn.antt =====
-- Kahn's algorithm, the second half of Build in depgraph.go. A row is one index of the parallel
-- slices `edges` and `inDegree`; the comparator of `sortByPriority` is a parameter.
pub mod Inv
pub mod Step
pub mod Result
use sloff.Prelude.{
  Bool, List, Str_Eq, [], contains, erase, if◌then◌else◌, map, nat_Eq, nat_eq, sort, suc, zero, ℕ,
  ◌&&◌, ◌++◌, ◌-◌, ◌∷◌,
}

pub record Row : Type 0 where
  pub id : ℕ
  pub deps : List ℕ
  pub degree : ℕ

pub record State : Type 0 where
  pub rows : List Row
  pub ready : List ℕ
  pub out : List ℕ

-- `delete(edges[j], next); inDegree[j]--` where edges[j] has next.
pub release : ℕ → Row → Row
release next r =
    if contains r.deps next then record r { deps = erase r.deps next; degree = r.degree - 1 } else r

-- `unblocked`: the tasks whose last open dependency was next.
pub unblocked : ℕ → List Row → List ℕ
unblocked next [] = []
unblocked next (r ∷ rs) =
    let rest = unblocked next rs in
    if contains r.deps next && nat_eq (r.degree - 1) 0 then r.id ∷ rest else rest

module _ (less : ℕ → ℕ → Bool) where
  pub enqueue : List ℕ → List ℕ → List ℕ
  enqueue rest [] = rest
  enqueue rest (u ∷ us) = sort less (rest ++ u ∷ us)

  -- One round of the loop, with next taken off the front of ready.
  pub emit : ℕ → List ℕ → State → State
  unfolding unblocked enqueue release
  emit next rest s = record {
    rows = map (release next) s.rows;
    ready = enqueue rest (unblocked next s.rows);
    out = s.out ++ next ∷ [];
  }

  -- A round emits one task, so the number of tasks is fuel enough.
  unfoldable pub loop : ℕ → State → State
  unfolding emit
  loop zero s = s
  loop (suc fuel) s = elim s.ready [ [] ↦ s | next ∷ rest ↦ loop fuel (emit next rest s) ]
