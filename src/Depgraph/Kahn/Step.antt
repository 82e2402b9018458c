-- ===== src/Depgraph/Kahn/Step.antt =====
-- The invariant of Kahn's loop over the whole state, kept by each round.
use sloff.Prelude.{
  Bool, In, In-append_cases, In-append_left, In-append_right, In-map, In-map_inv, In-sort,
  In-sort_of, List, NoDup, NoDup-append, NoDup-snoc, NoDup-sort, Str_Eq, [], ap, append-nil,
  append_assoc, arith, contains, contains-In, erase, false, inl, inr, length, length-erase, nat_Eq,
  refl, subst, suc, true, ℕ, ◌++◌, ◌-◌, ◌∙◌, ◌∷◌, ◌≡◌, ◌≤◌, ◌⊎◌,
}
use sloff.Depgraph.Kahn.{Row, State, release, unblocked, enqueue, emit}
use sloff.Depgraph.Kahn.Inv.{
  RowOk, ids, ids_inj, ids-release, release-cases, release-RowOk, unblocked-cases, In-unblocked,
  NoDup-unblocked,
}

-- Each task stands behind those that it depends on.
abbrev pub Ordered : (ℕ → ℕ → Type 0) → List ℕ → List ℕ → Type 0
Ordered Dep seen [] = Unit
Ordered Dep seen (j ∷ js) = ((d : ℕ) → Dep j d → In d seen) × Ordered Dep (seen ++ j ∷ []) js

Ordered-snoc :
    (Dep : ℕ → ℕ → Type 0) (seen xs : List ℕ) (j : ℕ)
    → Ordered Dep seen xs
    → ((d : ℕ) → Dep j d → In d (seen ++ xs))
    → Ordered Dep seen (xs ++ j ∷ [])
Ordered-snoc Dep seen [] j o h = (λ d dep. rw append-nil at (h d dep), tt)
Ordered-snoc Dep seen (x ∷ xs) j o h =
    (o.0, Ordered-snoc Dep (seen ++ x ∷ []) xs j o.1 (λ d dep. rw append_assoc (h d dep)))

pub record Inv (Dep : ℕ → ℕ → Type 0) (names : List ℕ) (s : State) : Type 0 where
  pub row_ok : (r : Row) → In r s.rows → RowOk Dep s.out r
  pub named : ids s.rows ≡ names
  pub out_once : NoDup s.out
  pub ready_once : NoDup s.ready
  pub apart : (i : ℕ) → In i s.out → ¬ In i s.ready
  pub known : (i : ℕ) → In i s.out ⊎ In i s.ready → In i names
  pub free : (r : Row) → In r s.rows → In r.id s.out ⊎ In r.id s.ready → r.deps ≡ []
  pub rest : (r : Row) → In r s.rows → r.deps ≡ [] → In r.id s.out ⊎ In r.id s.ready
  pub ordered : Ordered Dep [] s.out

In-enqueue :
    (less : ℕ → ℕ → Bool) (i : ℕ) (rest us : List ℕ)
    → In i (enqueue less rest us)
    → In i rest ⊎ In i us
unfolding enqueue
In-enqueue less i rest [] m = inl m
In-enqueue less i rest (u ∷ us) m =
    In-append_cases i rest (u ∷ us) (In-sort less i (rest ++ u ∷ us) m)

In-enqueue_of :
    (less : ℕ → ℕ → Bool) (i : ℕ) (rest us : List ℕ)
    → In i rest ⊎ In i us
    → In i (enqueue less rest us)
unfolding enqueue
In-enqueue_of less i rest [] (inl m) = m
In-enqueue_of less i rest [] (inr m) = absurd m
In-enqueue_of less i rest (u ∷ us) (inl m) =
    In-sort_of less i (rest ++ u ∷ us) (In-append_left i rest (u ∷ us) m)
In-enqueue_of less i rest (u ∷ us) (inr m) =
    In-sort_of less i (rest ++ u ∷ us) (In-append_right i rest (u ∷ us) m)

NoDup-enqueue :
    (less : ℕ → ℕ → Bool) (rest us : List ℕ)
    → NoDup rest
    → NoDup us
    → ((a : ℕ) → In a rest → ¬ In a us)
    → NoDup (enqueue less rest us)
unfolding enqueue
NoDup-enqueue less rest [] dr du apart = dr
NoDup-enqueue less rest (u ∷ us) dr du apart =
    NoDup-sort less (rest ++ u ∷ us) (NoDup-append rest (u ∷ us) dr du apart)

not-nil_of_contains : (xs : List ℕ) (a : ℕ) → xs ≡ [] → contains xs a ≡ true → ⊥
unfolding contains
not-nil_of_contains xs a e t = let nothing : false ≡ true = rw (e, contains) at t in cc

module _ (less : ℕ → ℕ → Bool) (Dep : ℕ → ℕ → Type 0) (names : List ℕ) (next : ℕ) (queue : List ℕ)
    (s : State) (at_front : s.ready ≡ next ∷ queue) (v : Inv Dep names s)
    (distinct : NoDup names) where
  open v use {row_ok, named, out_once, ready_once, apart, known, free, rest, ordered}

  abbrev us : List ℕ
  us = unblocked next s.rows

  was_ready : (i : ℕ) → In i (next ∷ queue) → In i s.ready
  was_ready i m = rw at_front m

  queue_once : NoDup (next ∷ queue)
  queue_once = rw at_front at ready_once

  ids_once : NoDup (ids s.rows)
  ids_once = rw named distinct

  -- An unblocked task was not emitted and not ready before.
  new_free : (i : ℕ) → In i us → In i s.out ⊎ In i s.ready → ⊥
  new_free i m old =
      let (r, mr, e, t, z) = unblocked-cases next i s.rows m in
      not-nil_of_contains r.deps next (free r mr (rw e old)) t

  next_new : ¬ In next s.out
  next_new m = apart next m (was_ready next (inl refl))

  emitted : (i : ℕ) → In i (s.out ++ next ∷ []) → In i s.out ⊎ In i s.ready
  emitted i m = elim (In-append_cases i s.out (next ∷ []) m) [
    | inl old ↦ inl old
    | inr last ↦ inr (was_ready i (elim last [ inl e ↦ inl e | inr no_more ↦ absurd no_more ]))
  ]

  length-one : (xs : List ℕ) (a : ℕ) → length xs ≤ 1 → In a xs → erase xs a ≡ []
  length-one xs a h m = go (erase xs a) (length-erase xs a m)
    where
      go : (ys : List ℕ) → length xs ≡ suc (length ys) → ys ≡ []
      go [] e = refl
      go (y ∷ ys) e = absurd (omega arith)

  free_step :
      (r : Row)
      → In r s.rows
      → In (release next r).id (s.out ++ next ∷ []) ⊎ In (release next r).id (enqueue less queue us)
      → (release next r).deps ≡ []
  free_step r mr m = elim (release-cases next r) [
    | inr (f, e) ↦ rw e (free_same f (rw e at m))
    | inl (t, e) ↦ rw e (free_less t (rw e at m))
  ]
    where
      old : In r.id s.out ⊎ In r.id s.ready → r.deps ≡ []
      old = free r mr

      was_unblocked : In r.id us → (contains r.deps next ≡ true) × (r.degree - 1 ≡ 0)
      was_unblocked m' =
          let (q, mq, e, t, z) = unblocked-cases next r.id s.rows m' in
          let same = ids_inj s.rows q r ids_once mq mr e in (rw same at t, rw same at z)

      free_same :
          contains r.deps next ≡ false
          → In r.id (s.out ++ next ∷ []) ⊎ In r.id (enqueue less queue us)
          → r.deps ≡ []
      free_same f (inl m') = old (emitted r.id m')
      free_same f (inr m') = elim (In-enqueue less r.id queue us m') [
        | inl waiting ↦ old (inr (was_ready r.id (inr waiting)))
        | inr opened ↦ let t = (was_unblocked opened).0 in cc
      ]

      free_less :
          contains r.deps next ≡ true
          → In r.id (s.out ++ next ∷ []) ⊎ In r.id (enqueue less queue us)
          → erase r.deps next ≡ []
      free_less t (inl m') = absurd (not-nil_of_contains r.deps next (old (emitted r.id m')) t)
      free_less t (inr m') = elim (In-enqueue less r.id queue us m') [
        | inl waiting ↦
            let closed = old (inr (was_ready r.id (inr waiting))) in
            absurd (not-nil_of_contains r.deps next closed t)
        | inr opened ↦
            length-one r.deps next (omega (arith, (was_unblocked opened).1, (row_ok r mr).count))
              (contains-In r.deps next t)
      ]

  rest_step :
      (r : Row)
      → In r s.rows
      → (release next r).deps ≡ []
      → In (release next r).id (s.out ++ next ∷ []) ⊎ In (release next r).id (enqueue less queue us)
  rest_step r mr e = elim (release-cases next r) [
    | inr (f, same) ↦ rw same (was_free (rest r mr (rw same at e)))
    | inl (t, less_deps) ↦
        rw less_deps (inr (In-enqueue_of less r.id queue us (inr (now_free t (rw less_deps at e)))))
  ]
    where
      was_free :
          In r.id s.out ⊎ In r.id s.ready
          → In r.id (s.out ++ next ∷ []) ⊎ In r.id (enqueue less queue us)
      was_free (inl m) = inl (In-append_left r.id s.out (next ∷ []) m)
      was_free (inr m) = elim (rw at_front at m) [
        | inl first ↦ inl (In-append_right r.id s.out (next ∷ []) (inl first))
        | inr later ↦ inr (In-enqueue_of less r.id queue us (inl later))
      ]

      now_free : contains r.deps next ≡ true → erase r.deps next ≡ [] → In r.id us
      now_free t empty = In-unblocked next r s.rows mr t (
          omega (
            arith,
            (row_ok r mr).count,
            ap length empty,
            length-erase r.deps next (contains-In r.deps next t),
          ))

  -- All that the emitted task depends on was emitted before.
  next_deps : (d : ℕ) → Dep next d → In d s.out
  next_deps d dep =
      let named_next : In next (ids s.rows) =
        rw named (known next (inr (was_ready next (inl refl)))) in
      let (r, mr, e) = In-map_inv (λ (x : Row). x.id) next s.rows named_next in
      let closed = free r mr (rw (← e) (inr (was_ready next (inl refl)))) in
      elim ((row_ok r mr).covered d (rw (← e) dep)) [
        | inl open_dep ↦ absurd (subst (In d) closed open_dep)
        | inr done ↦ done
      ]

  pub emit-Inv : Inv Dep names (emit less next queue s)
  unfolding emit
  emit-Inv = record {
    row_ok = λ r' m'.
        let (r, m, e) = In-map_inv (release next) r' s.rows m' in
        rw e (release-RowOk next s.out r (row_ok r m));
    named = ids-release next s.rows ∙ named;
    out_once = NoDup-snoc s.out next out_once next_new;
    ready_once =
        NoDup-enqueue less queue us queue_once.1 (NoDup-unblocked next s.rows ids_once)
          (λ a m opened. new_free a opened (inr (was_ready a (inr m))));
    apart = λ i m later. elim (In-enqueue less i queue us later) [
      | inl waiting ↦ elim (In-append_cases i s.out (next ∷ []) m) [
        | inl old ↦ apart i old (was_ready i (inr waiting))
        | inr last ↦ elim last [
          | inl e ↦ queue_once.0 (subst (λ x. In x queue) e waiting)
          | inr no_more ↦ no_more
        ]
      ]
      | inr opened ↦ new_free i opened (emitted i m)
    ];
    known = λ i m. elim m [
      | inl done ↦ known i (emitted i done)
      | inr later ↦ elim (In-enqueue less i queue us later) [
        | inl waiting ↦ known i (inr (was_ready i (inr waiting)))
        | inr opened ↦
            let (r, mr, e, _, _) = unblocked-cases next i s.rows opened in
            rw (← named) (rw (← e) (In-map (λ (x : Row). x.id) r s.rows mr))
      ]
    ];
    free = λ r' m' place.
        let (r, m, e) = In-map_inv (release next) r' s.rows m' in
        rw e (free_step r m (rw e at place));
    rest = λ r' m' empty.
        let (r, m, e) = In-map_inv (release next) r' s.rows m' in
        rw e (rest_step r m (rw e at empty));
    ordered = Ordered-snoc Dep [] s.out next ordered next_deps;
  }
