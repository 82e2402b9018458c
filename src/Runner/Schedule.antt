-- ===== src/Runner/Schedule.antt =====
-- runTasks and taskPredecessorIndices in runner.go. Each task has a goroutine, which waits for the
-- predecessors in order, gives up when one failed or the context is cancelled, and otherwise runs the
-- task. A relation of steps lets the goroutines interleave in every way; what runTask does is left to
-- its outcome.
pub mod Safety
pub mod Progress
pub mod Bound
pub mod Built
pub mod Finish
pub mod Tests
use sloff.Prelude.{
  All, Bool, List, Map, Str_Eq, [], contains, false, get_elem?, if◌then◌else◌, insert, length,
  lookup, ltb, nat_Eq, nat_eq, none, some, suc, true, zero, ℕ, ◌++◌, ◌+◌, ◌<◌, ◌||◌, ◌∷◌, ◌≡◌,
}
use sloff.Depgraph.{TaskRef, TaskRef_Eq, Task, ref}

-- byRef: a later task of the same key overwrites an earlier one.
unfoldable pub index_refs : ℕ → List Task → Map TaskRef ℕ → Map TaskRef ℕ
index_refs i [] m = m
index_refs i (t ∷ ts) m = index_refs (suc i) ts (insert (ref t) i m)

-- The loop over t.DependsOn, with the indices seen so far.
unfoldable pub predecessors : Map TaskRef ℕ → ℕ → List ℕ → List TaskRef → List ℕ
predecessors by_ref i seen [] = []
predecessors by_ref i seen (dep ∷ deps) = elim (lookup dep by_ref) [
  | none ↦ predecessors by_ref i seen deps
  | some p ↦
      let skipped = predecessors by_ref i seen deps in
      let kept = predecessors by_ref i (p ∷ seen) deps in
      if nat_eq p i || contains seen p then skipped else p ∷ kept
]

unfoldable pub predecessor_rows : Map TaskRef ℕ → ℕ → List Task → List (List ℕ)
unfolding predecessors
predecessor_rows by_ref i [] = []
predecessor_rows by_ref i (t ∷ ts) =
    predecessors by_ref i [] t.depends_on ∷ predecessor_rows by_ref (suc i) ts

unfoldable pub task_predecessor_indices : List Task → List (List ℕ)
unfolding index_refs predecessor_rows
task_predecessor_indices ordered = predecessor_rows (index_refs 0 ordered []) 0 ordered

-- taskConcurrency on a machine with `cpus` processors.
unfoldable pub task_concurrency : ℕ → ℕ → ℕ
task_concurrency cpus n =
    let cpu = if ltb cpus 1 then 1 else cpus in
    if nat_eq n 0 then 1 else if ltb n cpu then n else cpu

-- What a run is about: the predecessors of each task, the barriers, the number of tasks, and how many
-- goroutines may be in flight.
pub record Plan : Type 0 where
  pub preds : ℕ → List ℕ
  pub barrier : ℕ → Bool
  pub count : ℕ
  pub limit : ℕ

unfoldable pub plan : ℕ → List Task → Plan
unfolding task_predecessor_indices task_concurrency
plan cpus ordered = record {
  preds = λ i. elim (get_elem? (task_predecessor_indices ordered) i) [ some ps ↦ ps | none ↦ [] ];
  barrier = λ i. elim (get_elem? ordered i) [ some t ↦ t.barrier | none ↦ false ];
  count = length ordered;
  limit = task_concurrency cpus (length ordered);
}

-- A task whose goroutine is not launched, waits, or executes; and one that is done, with or without
-- its entry of `failed` set.
pub data Status : Type 0 where
  unlaunched waiting running succeeded broken : Status

pub record Sched : Type 0 where
  pub status : ℕ → Status
  pub launched : ℕ
  pub cancelled : Bool

abbrev pub set : (ℕ → Status) → ℕ → Status → ℕ → Status
set f i x j = if nat_eq j i then x else f j

abbrev pub in_flight : Status → Bool
in_flight waiting = true
in_flight running = true
in_flight _ = false

unfoldable pub active : (ℕ → Status) → ℕ → ℕ
active f zero = 0
active f (suc n) = if in_flight (f n) then active f n + 1 else active f n

abbrev pub Done : (ℕ → Status) → List ℕ → Type 0
Done f ds = All (λ d. f d ≡ succeeded) ds

-- What the goroutine of a task can do next.
pub data Move (p : Plan) (s : Sched) : ℕ → Status → Type 0 where
  start :
      (i : ℕ)
      → s.status i ≡ waiting
      → Done s.status (p.preds i)
      → s.cancelled ≡ false
      → p.barrier i ≡ false
      → Move p s i running
  pass :
      (i : ℕ)
      → s.status i ≡ waiting
      → Done s.status (p.preds i)
      → s.cancelled ≡ false
      → p.barrier i ≡ true
      → Move p s i succeeded
  give_up :
      (i : ℕ) (ps qs : List ℕ) (d : ℕ)
      → s.status i ≡ waiting
      → p.preds i ≡ ps ++ d ∷ qs
      → Done s.status ps
      → s.status d ≡ broken
      → Move p s i broken
  stop : (i : ℕ) → s.status i ≡ waiting → s.cancelled ≡ true → Move p s i broken
  succeed : (i : ℕ) → s.status i ≡ running → Move p s i succeeded
  fail : (i : ℕ) → s.status i ≡ running → Move p s i broken

-- g.Go launches in order and blocks at the limit; the context can be cancelled at any time, by a
-- failure or from outside.
pub data Step (p : Plan) : Sched → Sched → Type 0 where
  launch :
      (s : Sched)
      → s.launched < p.count
      → active s.status s.launched < p.limit
      → Step p s (record s { status = set s.status s.launched waiting; launched = suc s.launched })
  move :
      (s : Sched) (i : ℕ) (x : Status)
      → Move p s i x
      → Step p s (record s { status = set s.status i x })
  cancel : (s : Sched) → Step p s (record s { cancelled = true })

pub data Reach (p : Plan) (s : Sched) : Sched → Type 0 where
  here : Reach p s s
  next : {t u : Sched} → Reach p s t → Step p t u → Reach p s u

abbrev pub initial : Sched
initial = record { status = λ i. unlaunched; launched = 0; cancelled = false }
