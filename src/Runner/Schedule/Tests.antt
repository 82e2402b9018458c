-- ===== src/Runner/Schedule/Tests.antt =====
-- Two tasks on one processor, the second of which depends on the first.
use sloff.Prelude.{
  All, List, NoDup, Str_Eq, String, [], arith, bytes, containers, false, inl, length, map, nat_Eq,
  not-In, refl, suc, zero, ℕ, ◌*◌, ◌<◌, ◌∷◌, ◌≡◌, ◌≤◌, ◌⊎◌,
}
use sloff.Depgraph.{TaskRef, TaskRef_Eq, Task}
use sloff.Runner.Schedule.{
  Plan, plan, unlaunched, waiting, running, succeeded, Sched, set, active, start, succeed, launch,
  move, Reach, here, next, initial,
}
use sloff.Runner.Schedule.Progress.{Settled, Advance, Reach-Advance}
use sloff.Depgraph.{ref, ok}
use sloff.Depgraph.Build.{build}
use sloff.Runner.Schedule.Finish.{AllSettled, build-finish}
use sloff.Runner.Schedule.Built.{task_concurrency-bounds, build-Advance, build-Ready}
use sloff.Runner.Schedule.{task_concurrency}
use sloff.Runner.Schedule.Bound.{forward_steps}

abbrev to : String → TaskRef
to s = record { spec_relpath = bytes "."; name = bytes s }

abbrev task : String → List TaskRef → Task
task s deps = record {
  spec_relpath = bytes ".";
  name = bytes s;
  inputs = [];
  outputs = [];
  depends_on = deps;
  barrier = false;
}

abbrev two_tasks : List Task
two_tasks = task "a" [] ∷ task "b" (to "a" ∷ to "a" ∷ []) ∷ []

-- The same tasks, as they are before Build orders them.
abbrev given : List Task
given = task "b" (to "a" ∷ to "a" ∷ []) ∷ task "a" [] ∷ []

abbrev two : Plan
two = plan 1 two_tasks

two_plan : (two.preds 0 ≡ []) × (two.preds 1 ≡ 0 ∷ []) × (two.limit ≡ 1) × (two.count ≡ 2)
unfolding plan containers
two_plan = (refl, refl, refl, refl)

abbrev s1 : Sched
s1 = record { status = set (λ i. unlaunched) 0 waiting; launched = 1; cancelled = false }

abbrev s2 : Sched
s2 = record s1 { status = set s1.status 0 running }

abbrev s3 : Sched
s3 = record s2 { status = set s2.status 0 succeeded }

abbrev s4 : Sched
s4 = record { status = set s3.status 1 waiting; launched = 2; cancelled = false }

abbrev s5 : Sched
s5 = record s4 { status = set s4.status 1 running }

trace : Reach two initial s5
unfolding plan active containers
trace =
    next
      (next
        (next
          (next (next here (launch initial (omega arith) (omega arith)))
            (move s1 0 running (start 0 refl tt refl refl)))
          (move s2 0 succeeded (succeed 0 refl)))
        (launch s3 (omega arith) (omega arith)))
      (move s4 1 running (start 1 refl (refl, tt) refl refl))

room : 0 < two.limit
unfolding plan containers
room = omega arith

behind : (i : ℕ) → i < two.count → All (λ d. d < i) (two.preds i)
unfolding plan containers
behind zero h = tt
behind (suc zero) h = (omega arith, tt)
behind (suc (suc i)) h = absurd (omega arith)

Reach-Advance_example : ((i : ℕ) → i < two.count → Settled (s5.status i)) ⊎ Advance two s5
Reach-Advance_example = Reach-Advance two s5 room behind trace

task_concurrency-bounds_example :
    (1 ≤ task_concurrency 8 3)
    × (task_concurrency 8 3 ≤ 3 ⊎ (◌≡◌ {A = ℕ} 3 0) × (task_concurrency 8 3 ≡ 1))
    × (task_concurrency 8 3 ≤ 8 ⊎ (◌≡◌ {A = ℕ} 8 0) × (task_concurrency 8 3 ≡ 1))
task_concurrency-bounds_example = task_concurrency-bounds 8 3

built : build given ≡ ok two_tasks
unfolding build containers
built = refl

distinct : NoDup (map ref given)
unfolding containers
distinct = (not-In (to "a" ∷ []) (to "b") refl, (not-In [] (to "a") refl, tt))

build-Advance_example : ((i : ℕ) → i < 2 → Settled (s5.status i)) ⊎ Advance two s5
build-Advance_example = build-Advance 1 given two_tasks s5 distinct built trace

build-Ready_example : s5.status 0 ≡ succeeded
build-Ready_example =
    build-Ready 1 given two_tasks s5 distinct built trace 1 0 (task "b" (to "a" ∷ to "a" ∷ []))
      (task "a" []) refl refl (inl refl) tt

build-finish_example :
    (forward_steps trace ≤ 3 * length two_tasks) × ((e : Sched) × Reach two s5 e × AllSettled two e)
build-finish_example = build-finish 1 given two_tasks s5 distinct built trace
