-- ===== src/Depgraph/Heights.antt =====
-- downstreamHeights of depgraph.go: the length of the longest chain of dependents of each task, by
-- a depth-first walk that keeps what it resolved and takes a task on its own stack for 0.
use sloff.Prelude.{
  List, Map, Str_Eq, [], if◌then◌else◌, insert, lookup, ltb, nat_Eq, none, some, suc, zero, ℕ, ◌+◌,
  ◌∷◌,
}

-- `onStack` and `resolved`, the latter with the height; an index that is absent is `unvisited`.
pub data Visit : Type 0 where
  on_stack : Visit
  resolved : ℕ → Visit

abbrev pub Marks : Type 0
Marks = Map ℕ Visit

-- The loop over consumers[i], with `best` so far; the walk itself is passed in.
pub best_of : (ℕ → Marks → ℕ × Marks) → List ℕ → ℕ → Marks → ℕ × Marks
best_of walk [] best m = (best, m)
best_of walk (c ∷ cs) best m =
    let (h, m') = walk c m in best_of walk cs (if ltb best h then h else best) m'

-- The walk is as deep as there are tasks, so fuel for one more than those is never used up.
pub visit : ℕ → (ℕ → List ℕ) → ℕ → Marks → ℕ × Marks
unfolding best_of
visit zero consumers i m = (0, m)
visit (suc fuel) consumers i m = elim (lookup i m) [
  | some (resolved h) ↦ (h, m)
  | some on_stack ↦ (0, m)
  | none ↦
      let (best, m') = best_of (visit fuel consumers) (consumers i) 0 (insert i on_stack m) in
      (best + 1, insert i (resolved (best + 1)) m')
]

visit_all : ℕ → (ℕ → List ℕ) → List ℕ → Marks → Marks
unfolding visit
visit_all fuel consumers [] m = m
visit_all fuel consumers (i ∷ is) m = visit_all fuel consumers is (visit fuel consumers i m).1

-- `range n`, from i on.
abbrev pub indices : ℕ → ℕ → List ℕ
indices i zero = []
indices i (suc n) = i ∷ indices (suc i) n

unfoldable pub downstream_heights : ℕ → (ℕ → List ℕ) → Marks
unfolding visit_all
downstream_heights n consumers = visit_all (suc n) consumers (indices 0 n) []

-- `heights[i]`; the zero value where nothing was written.
abbrev pub height_of : Marks → ℕ → ℕ
height_of m i = elim (lookup i m) [ some (resolved h) ↦ h | some on_stack ↦ 0 | none ↦ 0 ]
