-- ===== src/Depgraph/Kahn/Result.antt =====
-- What Kahn's loop returns: an order of the tasks, all of them if the graph has no cycle.
use sloff.Prelude.{
  Bool, In, In-append_cases, In-dec, In-map_inv, List, NoDup, NoDup-append, Perm, Str_Eq, [], ap,
  arith, inl, inr, length, length-append, length-le_of_NoDup, nat_Eq, perm_of_NoDup, refl, subst,
  suc, zero, ℕ, ◌++◌, ◌+◌, ◌<◌, ◌∷◌, ◌≡◌, ◌≤◌, ◌⊎◌,
}
use sloff.Depgraph.Kahn.{Row, State, emit, loop}
use sloff.Depgraph.Kahn.Inv.{ids}
use sloff.Depgraph.Kahn.Step.{Inv, emit-Inv}

List-cases : (xs : List ℕ) → (xs ≡ []) ⊎ ((y : ℕ) × (ys : List ℕ) × (xs ≡ y ∷ ys))
List-cases [] = inl refl
List-cases (x ∷ xs) = inr (x, xs, refl)

module _ (less : ℕ → ℕ → Bool) (Dep : ℕ → ℕ → Type 0) (names : List ℕ)
    (distinct : NoDup names) where
  -- What the loop has emitted and what is ready are different tasks.
  places : (s : State) → Inv Dep names s → length s.out + length s.ready ≤ length names
  places s v = omega (
    arith,
    length-append s.out s.ready,
    length-le_of_NoDup (s.out ++ s.ready) names
        (NoDup-append s.out s.ready v.out_once v.ready_once v.apart)
        (λ i m. v.known i (In-append_cases i s.out s.ready m)),
  )

  -- With fuel for the tasks that are left, the loop ends by its test and keeps the invariant.
  pub loop_ends :
      (fuel : ℕ) (s : State)
      → Inv Dep names s
      → length names ≤ length s.out + fuel
      → Inv Dep names (loop less fuel s) × ((loop less fuel s).ready ≡ [])
  unfolding loop emit
  loop_ends zero s v h = (
    v,
    elim (List-cases s.ready) [
      | inl e ↦ e
      | inr (x, xs, e) ↦ absurd (omega (arith, places s v, ap length e))
    ],
  )
  loop_ends (suc fuel) s v h = elim (List-cases s.ready) [
    | inl e ↦ rw (e, loop) (v, e)
    | inr (next, queue, e) ↦
        rw (e, loop)
          (loop_ends fuel (emit less next queue s)
            (emit-Inv less Dep names next queue s e v distinct)
            (omega (arith, length-append s.out (next ∷ []))))
  ]

  -- A row that is not emitted at the end waits for a row that is not emitted either.
  pub waits :
      (s : State)
      → Inv Dep names s
      → s.ready ≡ []
      → (i : ℕ) → In i names
      → ¬ In i s.out
      → (d : ℕ) × Dep i d × ¬ In d s.out
  waits s v done i m missing =
      let named_i : In i (ids s.rows) = rw v.named m in
      let (r, mr, e) = In-map_inv (λ (x : Row). x.id) i s.rows named_i in
      elim (List-cases r.deps) [
        | inl closed ↦ elim (v.rest r mr closed) [
          | inl out ↦ absurd (missing (rw e out))
          | inr ready ↦ absurd (subst (In r.id) done ready)
        ]
        | inr (d, ds, open_deps) ↦
            let m_d : In d r.deps = rw open_deps (inl refl) in
            (d, rw e ((v.row_ok r mr).real d m_d), (v.row_ok r mr).open_yet d m_d)
      ]

  -- If a rank falls along the dependencies, every task is emitted.
  pub all_emitted :
      (s : State)
      → Inv Dep names s
      → s.ready ≡ []
      → (rank : ℕ → ℕ) → ((i d : ℕ) → Dep i d → (rank d < rank i) × In d names)
      → (bound i : ℕ) → In i names
      → rank i < bound
      → In i s.out
  all_emitted s v done rank falls zero i m h = absurd (omega arith)
  all_emitted s v done rank falls (suc bound) i m h = elim (In-dec i s.out) [
    | inl there ↦ there
    | inr missing ↦
        let (d, dep, open_dep) = waits s v done i m missing in
        let (lower, m_d) = falls i d dep in
        absurd (open_dep (all_emitted s v done rank falls bound d m_d (omega arith)))
  ]

pub out-perm :
    (Dep : ℕ → ℕ → Type 0) (names : List ℕ) (s : State)
    → Inv Dep names s
    → length s.out ≡ length names
    → Perm s.out names
out-perm Dep names s v h =
    perm_of_NoDup s.out names v.out_once (λ i m. v.known i (inl m)) (omega arith)
