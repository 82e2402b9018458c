-- ===== src/Runner/Schedule/Bound.antt =====
-- A run takes at most three steps for each task, besides cancellations.
use sloff.Prelude.{
  ==-cases, ==_ne, ==_refl, Bool-cases, Str_Eq, ap, arith, inl, inr, ltb, nat_Eq, refl, suc, sym,
  zero, ℕ, ◌*◌, ◌+◌, ◌<◌, ◌∙◌, ◌≡◌, ◌≢◌, ◌≤◌, ◌⊎◌,
}
use sloff.Runner.Schedule.{
  Plan, Status, unlaunched, waiting, running, succeeded, broken, Sched, set, Move, start, pass,
  give_up, stop, succeed, fail, launch, move, cancel, Reach, here, next, initial,
}
use sloff.Runner.Schedule.Safety.{Launched, Move-from, Reach-Launched}
use sloff.Runner.Schedule.Progress.{Reach-within}

-- The steps that a task has ahead.
abbrev weight : Status → ℕ
weight unlaunched = 3
weight waiting = 2
weight running = 1
weight succeeded = 0
weight broken = 0

work : (ℕ → Status) → ℕ → ℕ
work f zero = 0
work f (suc n) = work f n + weight (f n)

work-initial : (n : ℕ) → work (λ i. unlaunched) n ≡ 3 * n
unfolding work
work-initial zero = refl
work-initial (suc n) = omega (arith, work-initial n)

work-cong : (f g : ℕ → Status) (n : ℕ) → ((i : ℕ) → i < n → f i ≡ g i) → work f n ≡ work g n
unfolding work
work-cong f g zero h = refl
work-cong f g (suc n) h =
    omega (arith, work-cong f g n (λ i l. h i (omega arith)), ap weight (h n (omega arith)))

set-at : (f : ℕ → Status) (i : ℕ) (x : Status) → set f i x i ≡ x
set-at f i x = rw (==_refl i) refl

set-off : (f : ℕ → Status) (i : ℕ) (x : Status) (j : ℕ) → j ≢ i → set f i x j ≡ f j
set-off f i x j n = rw (==_ne n) refl

work-set :
    (f : ℕ → Status) (i : ℕ) (x : Status) (n : ℕ)
    → i < n
    → work (set f i x) n + weight (f i) ≡ work f n + weight x
unfolding work
work-set f i x zero l = absurd (omega arith)
work-set f i x (suc n) l = elim (==-cases i n) [
  | inl (same, _) ↦
      let below =
        work-cong (set f i x) f n (λ j h. set-off f i x j (λ e. absurd (omega (arith, e, same)))) in
      let here_ : set f i x n ≡ x = rw (sym same) (set-at f i x) in
      omega (arith, below, ap weight here_, ap (λ k. weight (f k)) same)
  | inr (other, _) ↦
      let below = work-set f i x n (omega (arith, other)) in
      let kept = set-off f i x n (λ e. other (sym e)) in omega (arith, below, ap weight kept)
]

Move-weight :
    (p : Plan) (s : Sched) (i : ℕ) (x : Status) → Move p s i x → weight x < weight (s.status i)
Move-weight p s i x (start _ w _ _ _) = rw w (omega arith)
Move-weight p s i x (pass _ w _ _ _) = rw w (omega arith)
Move-weight p s i x (give_up _ _ _ _ w _ _ _) = rw w (omega arith)
Move-weight p s i x (stop _ w _) = rw w (omega arith)
Move-weight p s i x (succeed _ r) = rw r (omega arith)
Move-weight p s i x (fail _ r) = rw r (omega arith)

-- A task that moves is launched.
Move-launched :
    (p : Plan) (s : Sched) (i : ℕ) (x : Status) → Launched s → Move p s i x → i < s.launched
Move-launched p s i x v m = elim (Bool-cases (ltb i s.launched)) [
  | inl t ↦ ground arith
  | inr f ↦ absurd (not_fresh (v.above i (ground arith)) (Move-from p s i x m).0)
]
  where
    not_fresh : s.status i ≡ unlaunched → (s.status i ≡ waiting) ⊎ (s.status i ≡ running) → ⊥
    not_fresh un (inl w) =
        let e : weight unlaunched ≡ weight waiting = ap weight (sym un ∙ w) in omega (arith, e)
    not_fresh un (inr r) =
        let e : weight unlaunched ≡ weight running = ap weight (sym un ∙ r) in omega (arith, e)

-- The steps of a run that are not cancellations.
unfoldable pub forward_steps : {p : Plan} {s : Sched} → Reach p initial s → ℕ
forward_steps here = 0
forward_steps (next r (launch s l a)) = forward_steps r + 1
forward_steps (next r (move s i x m)) = forward_steps r + 1
forward_steps (next r (cancel s)) = forward_steps r

forward_steps-work :
    (p : Plan) {s : Sched} (r : Reach p initial s)
    → forward_steps r + work s.status p.count ≤ 3 * p.count
unfolding forward_steps
forward_steps-work p here = omega (arith, work-initial p.count)
forward_steps-work p (next r (launch s l a)) =
    let v = Reach-Launched p r in
    let fresh = ap weight (v.above s.launched (omega arith)) in
    omega (arith, work-set s.status s.launched waiting p.count l, fresh, forward_steps-work p r)
forward_steps-work p (next r (move s i x m)) =
    let known : i < p.count =
      omega (arith, Move-launched p s i x (Reach-Launched p r) m, Reach-within p r) in
    omega
      (arith, work-set s.status i x p.count known, Move-weight p s i x m, forward_steps-work p r)
forward_steps-work p (next r (cancel s)) = forward_steps-work p r

-- A run takes at most three steps for each task that are not cancellations, whatever the order of the
-- steps.
pub forward_steps-bound :
    (p : Plan) (s : Sched) (r : Reach p initial s) → forward_steps r ≤ 3 * p.count
forward_steps-bound p s r = omega (arith, forward_steps-work p r)
