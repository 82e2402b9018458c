-- ===== src/Runner/Schedule/Safety.antt =====
-- No task runs before its predecessors have succeeded.
use sloff.Prelude.{
  ==-cases, List, Str_Eq, [], ap, arith, inl, inr, nat_Eq, refl, subst, sym, ℕ, ◌<◌, ◌∙◌, ◌∷◌, ◌≡◌,
  ◌≢◌, ◌≤◌, ◌⊎◌,
}
use sloff.Runner.Schedule.{
  Plan, Status, unlaunched, waiting, running, succeeded, Sched, set, Done, Move, start, pass,
  give_up, stop, succeed, fail, Step, launch, move, cancel, Reach, here, next, initial,
}

set-cases :
    (f : ℕ → Status) (i : ℕ) (x : Status) (j : ℕ)
    → (j ≡ i) × (set f i x j ≡ x) ⊎ (j ≢ i) × (set f i x j ≡ f j)
set-cases f i x j = elim (==-cases j i) [
  | inl (same, t) ↦ inl (same, rw t refl)
  | inr (other, g) ↦ inr (other, rw g refl)
]

-- Exactly the tasks below `launched` are launched.
pub record Launched (s : Sched) : Type 0 where
  pub above : (i : ℕ) → s.launched ≤ i → s.status i ≡ unlaunched
  pub below : (i : ℕ) → i < s.launched → s.status i ≢ unlaunched

pub Move-from :
    (p : Plan) (s : Sched) (i : ℕ) (x : Status)
    → Move p s i x
    → ((s.status i ≡ waiting) ⊎ (s.status i ≡ running)) × (x ≢ unlaunched) × (x ≢ waiting)
Move-from p s i x (start _ w _ _ _) = (inl w, λ e. cc, λ e. cc)
Move-from p s i x (pass _ w _ _ _) = (inl w, λ e. cc, λ e. cc)
Move-from p s i x (give_up _ _ _ _ w _ _ _) = (inl w, λ e. cc, λ e. cc)
Move-from p s i x (stop _ w _) = (inl w, λ e. cc, λ e. cc)
Move-from p s i x (succeed _ r) = (inr r, λ e. cc, λ e. cc)
Move-from p s i x (fail _ r) = (inr r, λ e. cc, λ e. cc)

Launched-Step : (p : Plan) {s u : Sched} → Step p s u → Launched s → Launched u
Launched-Step p (launch s l a) v = record {
  above = λ i h. elim (set-cases s.status s.launched waiting i) [
    | inl (same, _) ↦ absurd (omega (arith, same))
    | inr (_, e) ↦ e ∙ v.above i (omega arith)
  ];
  below = λ i h. elim (set-cases s.status s.launched waiting i) [
    | inl (_, e) ↦ λ un. let bad : waiting ≡ unlaunched = sym e ∙ un in cc
    | inr (other, e) ↦ λ un. v.below i (omega arith) (sym e ∙ un)
  ];
}
Launched-Step p (move s i x m) v = record {
  above = λ j h. elim (set-cases s.status i x j) [
    | inl (same, _) ↦ absurd (unmoved j same (v.above j h) (Move-from p s i x m).0)
    | inr (_, e) ↦ e ∙ v.above j h
  ];
  below = λ j h. elim (set-cases s.status i x j) [
    | inl (_, e) ↦ λ un. (Move-from p s i x m).1 (sym e ∙ un)
    | inr (_, e) ↦ λ un. v.below j h (sym e ∙ un)
  ];
}
  where
    unmoved :
        (j : ℕ)
        → j ≡ i
        → s.status j ≡ unlaunched
        → (s.status i ≡ waiting) ⊎ (s.status i ≡ running)
        → ⊥
    unmoved j same un (inl w) =
        let bad : unlaunched ≡ waiting = sym un ∙ ap s.status same ∙ w in apart bad
      where
        apart : unlaunched ≡ waiting → ⊥
        apart e = cc
    unmoved j same un (inr r) =
        let bad : unlaunched ≡ running = sym un ∙ ap s.status same ∙ r in apart bad
      where
        apart : unlaunched ≡ running → ⊥
        apart e = cc
Launched-Step p (cancel s) v = record { above = v.above; below = v.below }

-- A task that succeeded stays so.
succeeded-Step :
    (p : Plan) {s u : Sched}
    → Step p s u
    → Launched s
    → (d : ℕ) → s.status d ≡ succeeded
    → u.status d ≡ succeeded
succeeded-Step p (launch s l a) v d h = elim (set-cases s.status s.launched waiting d) [
  | inl (same, _) ↦
      let bad : unlaunched ≡ succeeded =
        sym (v.above s.launched (omega arith)) ∙ ap s.status (sym same) ∙ h in
      cc
  | inr (_, e) ↦ e ∙ h
]
succeeded-Step p (move s i x m) v d h = elim (set-cases s.status i x d) [
  | inl (same, _) ↦ elim (Move-from p s i x m).0 [
    | inl w ↦ let bad : waiting ≡ succeeded = sym w ∙ ap s.status (sym same) ∙ h in cc
    | inr r ↦ let bad : running ≡ succeeded = sym r ∙ ap s.status (sym same) ∙ h in cc
  ]
  | inr (_, e) ↦ e ∙ h
]
succeeded-Step p (cancel s) v d h = h

-- The task was started.
abbrev pub Started : Status → Type 0
Started running = Unit
Started succeeded = Unit
Started _ = ⊥

-- Each started task has predecessors that all succeeded.
abbrev pub Ready : Plan → Sched → Type 0
Ready p s = (i : ℕ) → Started (s.status i) → Done s.status (p.preds i)

Done-Step :
    (p : Plan) {s u : Sched}
    → Step p s u
    → Launched s
    → (ds : List ℕ) → Done s.status ds
    → Done u.status ds
Done-Step p st v [] h = tt
Done-Step p st v (d ∷ ds) h = (succeeded-Step p st v d h.0, Done-Step p st v ds h.1)

Move-Done :
    (p : Plan) (s : Sched) (i : ℕ) (x : Status)
    → Move p s i x
    → Ready p s
    → Started x
    → Done s.status (p.preds i)
Move-Done p s i x (start _ w d c b) r h = d
Move-Done p s i x (pass _ w d c b) r h = d
Move-Done p s i x (give_up _ ps qs d w e f b) r h = absurd h
Move-Done p s i x (stop _ w c) r h = absurd h
Move-Done p s i x (succeed _ g) r h = r i (subst Started (sym g) tt)
Move-Done p s i x (fail _ g) r h = absurd h

Ready-Step : (p : Plan) {s u : Sched} → Step p s u → Launched s → Ready p s → Ready p u
Ready-Step p (launch s l a) v r i h = elim (set-cases s.status s.launched waiting i) [
  | inl (_, e) ↦ absurd (subst Started e h)
  | inr (_, e) ↦ Done-Step p (launch s l a) v (p.preds i) (r i (subst Started e h))
]
Ready-Step p (move s i x m) v r j h = elim (set-cases s.status i x j) [
  | inl (same, e) ↦ Done-Step p (move s i x m) v (p.preds j) (
      subst (λ k. Done s.status (p.preds k)) (sym same) (Move-Done p s i x m r (subst Started e h)))
  | inr (_, e) ↦ Done-Step p (move s i x m) v (p.preds j) (r j (subst Started e h))
]
Ready-Step p (cancel s) v r i h = Done-Step p (cancel s) v (p.preds i) (r i h)

pub Reach-Launched : (p : Plan) {s : Sched} → Reach p initial s → Launched s
Reach-Launched p here = record { above = λ i h. refl; below = λ i h. absurd (omega arith) }
Reach-Launched p (next r st) = Launched-Step p st (Reach-Launched p r)

-- In every state that a run can reach, the predecessors of each task that runs or has succeeded have
-- all succeeded: nothing runs before what it depends on, or after a failure of what it depends on.
pub Reach-Ready :
    (p : Plan) (s : Sched)
    → Reach p initial s
    → (i : ℕ) → Started (s.status i)
    → Done s.status (p.preds i)
Reach-Ready p s here i h = absurd h
Reach-Ready p s (next r st) i h = Ready-Step p st (Reach-Launched p r) (Reach-Ready p _ r) i h
