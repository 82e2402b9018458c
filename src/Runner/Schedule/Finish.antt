-- ===== src/Runner/Schedule/Finish.antt =====
-- A run of what Build orders comes to its end.
use sloff.Prelude.{
  List, NoDup, Str_Eq, arith, inl, inr, length, map, nat_Eq, suc, zero, ℕ, ◌*◌, ◌+◌, ◌<◌, ◌≡◌, ◌≤◌,
  ◌⊎◌,
}
use sloff.Depgraph.{TaskRef_Eq, Task, ref, ok}
use sloff.Depgraph.Build.{build}
use sloff.Runner.Schedule.{Plan, plan, Sched, Step, launch, move, Reach, here, next, initial}
use sloff.Runner.Schedule.Progress.{Settled, Advance, launches, moves}
use sloff.Runner.Schedule.Bound.{forward_steps, forward_steps-bound}
use sloff.Runner.Schedule.Built.{build-Advance}

Reach-before : {p : Plan} {s t u : Sched} → Step p s t → Reach p t u → Reach p s u
Reach-before st here = next here st
Reach-before st (next r last) = next (Reach-before st r) last

abbrev pub AllSettled : Plan → Sched → Type 0
AllSettled p s = (i : ℕ) → i < p.count → Settled (s.status i)

module _ (p : Plan) (advance : (s : Sched) → Reach p initial s → AllSettled p s ⊎ Advance p s) where
  -- With enough steps left, the run can go on to its end.
  finish :
      (left : ℕ) (s : Sched) (r : Reach p initial s)
      → 3 * p.count ≤ forward_steps r + left
      → (e : Sched) × Reach p s e × AllSettled p e
  unfolding forward_steps
  finish zero s r enough = elim (advance s r) [
    | inl done ↦ (s, here, done)
    | inr (launches l a) ↦
        absurd (omega (arith, enough, forward_steps-bound p _ (next r (launch s l a))))
    | inr (moves i x m) ↦
        absurd (omega (arith, enough, forward_steps-bound p _ (next r (move s i x m))))
  ]
  finish (suc left) s r enough = elim (advance s r) [
    | inl done ↦ (s, here, done)
    | inr (launches l a) ↦
        let (e, q, done) = finish left _ (next r (launch s l a)) (omega arith) in
        (e, Reach-before (launch s l a) q, done)
    | inr (moves i x m) ↦
        let (e, q, done) = finish left _ (next r (move s i x m)) (omega arith) in
        (e, Reach-before (move s i x m) q, done)
  ]

-- If the tasks have different references and Build succeeds, then a run of its result takes at most
-- three steps for each task besides cancellations, and from every state that it can reach it can go on
-- to one in which all tasks are done, whatever the number of processors.
pub build-finish :
    (cpus : ℕ) (tasks ordered : List Task) (s : Sched)
    → NoDup (map ref tasks)
    → build tasks ≡ ok ordered
    → (r : Reach (plan cpus ordered) initial s)
    → (forward_steps r ≤ 3 * length ordered)
      × ((e : Sched) × Reach (plan cpus ordered) s e × AllSettled (plan cpus ordered) e)
unfolding plan
build-finish cpus tasks ordered s d b r = (
  forward_steps-bound (plan cpus ordered) s r,
  finish (plan cpus ordered) (λ t q. build-Advance cpus tasks ordered t d b q) (3 * length ordered)
      s r (omega arith),
)
