-- ===== src/Runner/Schedule/Progress.antt =====
-- The goroutines neither deadlock nor run forever.
use sloff.Prelude.{
  ==-cases, All, All-In, All-of_In, Bool, Bool-cases, List, Str_Eq, [], ap, arith, false, inl, inr,
  ltb, nat_Eq, refl, suc, true, zero, ℕ, ◌++◌, ◌<◌, ◌∷◌, ◌≡◌, ◌≢◌, ◌≤◌, ◌⊎◌,
}
use sloff.Runner.Schedule.{
  Plan, Status, unlaunched, waiting, running, succeeded, broken, Sched, in_flight, active, Done,
  Move, start, pass, give_up, stop, succeed, launch, move, cancel, Reach, here, next, initial,
}
use sloff.Runner.Schedule.Safety.{Launched, Reach-Launched}

-- The goroutine of the task is done.
abbrev pub Settled : Status → Type 0
Settled s = (s ≡ succeeded) ⊎ (s ≡ broken)

-- The first index below n at which the test holds.
first :
    (f : ℕ → Bool) (n : ℕ)
    → ((i : ℕ) → i < n → f i ≡ false)
      ⊎ ((i : ℕ) × (i < n) × (f i ≡ true) × ((j : ℕ) → j < i → f j ≡ false))
first f zero = inl (λ i h. absurd (omega arith))
first f (suc n) = elim (first f n) [
  | inr (i, l, t, below) ↦ inr (i, omega arith, t, below)
  | inl none_below ↦ elim (Bool-cases (f n)) [
    | inl t ↦ inr (n, omega arith, t, none_below)
    | inr g ↦ inl (λ i h. elim (==-cases i n) [
      | inl (same, _) ↦ rw same g
      | inr (other, _) ↦ none_below i (omega (arith, other))
    ])
  ]
]

active-none :
    (f : ℕ → Status) (n : ℕ) → ((i : ℕ) → i < n → in_flight (f i) ≡ false) → active f n ≡ 0
unfolding active
active-none f zero h = refl
active-none f (suc n) h = rw (h n (omega arith)) (active-none f n (λ i l. h i (omega arith)))

Settled-of : (s : Status) → s ≢ unlaunched → in_flight s ≡ false → Settled s
Settled-of unlaunched n h = absurd (n refl)
Settled-of waiting n h = cc
Settled-of running n h = cc
Settled-of succeeded n h = inl refl
Settled-of broken n h = inr refl

-- Among settled predecessors all succeeded, or there is a first one that did not.
outcome :
    (f : ℕ → Status) (ds : List ℕ)
    → All (λ d. Settled (f d)) ds
    → Done f ds
      ⊎ ((ps : List ℕ) × (d : ℕ) × (qs : List ℕ) × (ds ≡ ps ++ d ∷ qs) × Done f ps × (f d ≡ broken))
outcome f [] h = inl tt
outcome f (d ∷ ds) (inr b, rest) = inr ([], d, ds, refl, tt, b)
outcome f (d ∷ ds) (inl s, rest) = elim (outcome f ds rest) [
  | inl all_done ↦ inl (s, all_done)
  | inr (ps, e, qs, same, good, b) ↦ inr (d ∷ ps, e, qs, ap (λ l. d ∷ l) same, (s, good), b)
]

-- A goroutine that waits for settled tasks can move.
waiting-Move :
    (p : Plan) (s : Sched) (i : ℕ)
    → s.status i ≡ waiting
    → All (λ d. Settled (s.status d)) (p.preds i)
    → (x : Status) × Move p s i x
waiting-Move p s i w h = elim (outcome s.status (p.preds i) h) [
  | inr (ps, d, qs, e, good, b) ↦ (broken, give_up i ps qs d w e good b)
  | inl good ↦ elim (Bool-cases s.cancelled) [
    | inl t ↦ (broken, stop i w t)
    | inr live ↦ elim (Bool-cases (p.barrier i)) [
      | inl t ↦ (succeeded, pass i w good live t)
      | inr f ↦ (running, start i w good live f)
    ]
  ]
]

flight-cases : (s : Status) → in_flight s ≡ true → (s ≡ waiting) ⊎ (s ≡ running)
flight-cases unlaunched h = cc
flight-cases waiting h = inl refl
flight-cases running h = inr refl
flight-cases succeeded h = cc
flight-cases broken h = cc

pub Reach-within : (p : Plan) {s : Sched} → Reach p initial s → s.launched ≤ p.count
Reach-within p here = omega arith
Reach-within p (next r (launch s l a)) = omega (arith, l)
Reach-within p (next r (move s i x m)) = Reach-within p r
Reach-within p (next r (cancel s)) = Reach-within p r

lt_or_ge : (a b : ℕ) → (a < b) ⊎ (b ≤ a)
lt_or_ge a b = elim (Bool-cases (ltb a b)) [
  | inl t ↦ inl (ground arith)
  | inr f ↦ inr (ground arith)
]

-- What brings a run forward: a launch, or a move of one goroutine.
pub data Advance (p : Plan) (s : Sched) : Type 0 where
  launches : s.launched < p.count → active s.status s.launched < p.limit → Advance p s
  moves : (i : ℕ) (x : Status) → Move p s i x → Advance p s

-- In every state that a run can reach, all tasks are done or some step other than a cancellation is
-- possible, if there is room for one goroutine and each task stands behind its predecessors: the
-- goroutines that wait never hold all slots against those they wait for.
pub Reach-Advance :
    (p : Plan) (s : Sched)
    → 0 < p.limit
    → ((i : ℕ) → i < p.count → All (λ d. d < i) (p.preds i))
    → Reach p initial s
    → ((i : ℕ) → i < p.count → Settled (s.status i)) ⊎ Advance p s
Reach-Advance p s room behind r = elim (first (λ i. in_flight (s.status i)) s.launched) [
  | inr (i, l, t, below) ↦ inr (forward i l t below)
  | inl idle ↦ elim (lt_or_ge s.launched p.count) [
    | inl more ↦ inr (launches more (rw (active-none s.status s.launched idle) room))
    | inr full ↦ inl (λ i h. settled i (omega arith) (idle i (omega arith)))
  ]
]
  where
    v : Launched s
    v = Reach-Launched p r

    settled : (i : ℕ) → i < s.launched → in_flight (s.status i) ≡ false → Settled (s.status i)
    settled i l h = Settled-of (s.status i) (v.below i l) h

    forward :
        (i : ℕ)
        → i < s.launched
        → in_flight (s.status i) ≡ true
        → ((j : ℕ) → j < i → in_flight (s.status j) ≡ false)
        → Advance p s
    forward i l t below = elim (flight-cases (s.status i) t) [
      | inr g ↦ moves i succeeded (succeed i g)
      | inl w ↦
          let known =
            All-of_In (λ d. Settled (s.status d)) (p.preds i)
              (λ d m.
                let lower =
                  All-In (λ e. e < i) d (p.preds i) (behind i (omega (arith, Reach-within p r)))
                    m in
                settled d (omega (arith, lower)) (below d lower)) in
          let (x, m) = waiting-Move p s i w known in moves i x m
    ]
