-- ===== src/Depgraph/Build/Edges.antt =====
-- What the loops over DependsOn in Build make of the declared dependencies.
use sloff.Prelude.{
  Bool-cases, In, List, Map, NoDup, Option-cases, Str_Eq, [], ap, arith, contains, contains-In, inl,
  inr, length, lookup, nat_Eq, nat_eq, nat_eq_iff, not-In, refl, some, subst, suc, sym, ℕ, ◌↔◌, ◌∙◌,
  ◌∷◌, ◌≡◌, ◌≢◌, ◌⊎◌,
}
use sloff.Depgraph.Defs.{
  TaskRef, TaskRef_Eq, Task, ref, unknown_dependency, self_dependency, ok, err, ◌>>=◌, >>=-eq-ok,
}
use sloff.Depgraph.Kahn.{Row}
use sloff.Depgraph.Kahn.Inv.{ids}
use sloff.Depgraph.Build.{add_edge, add_edges, edge_rows}
use sloff.Depgraph.Heights.{indices}

pub record RowInv (r : Row) : Type 0 where
  pub count : r.degree ≡ length r.deps
  pub distinct : NoDup r.deps

add_edge-RowInv : (j : ℕ) (r : Row) → RowInv r → RowInv (add_edge j r)
unfolding add_edge
add_edge-RowInv j r h = elim (Bool-cases (contains r.deps j)) [
  | inl t ↦ rw t h
  | inr f ↦
      rw f (record { count = omega (arith, h.count); distinct = (not-In r.deps j f, h.distinct) })
]

add_edge-In : (j d : ℕ) (r : Row) → In d (add_edge j r).deps ↔ ((d ≡ j) ⊎ In d r.deps)
unfolding add_edge
add_edge-In j d r = elim (Bool-cases (contains r.deps j)) [
  | inl t ↦ rw t (λ m. inr m, λ m. elim m [ inl e ↦ rw e (contains-In r.deps j t) | inr i ↦ i ])
  | inr f ↦ rw f (λ m. m, λ m. m)
]

add_edge-id : (j : ℕ) (r : Row) → (add_edge j r).id ≡ r.id
unfolding add_edge
add_edge-id j r = elim (Bool-cases (contains r.deps j)) [ inl t ↦ rw t | inr f ↦ rw f ]

module _ (keys : Map TaskRef ℕ) (t : Task) where
  -- What one resolved entry contributes.
  pub record Edges (deps : List TaskRef) (r s : Row) : Type 0 where
    pub same_id : s.id ≡ r.id
    pub inv : RowInv s
    pub sound :
        (d : ℕ)
        → In d s.deps
        → In d r.deps ⊎ ((dep : TaskRef) × In dep deps × (lookup dep keys ≡ some d))
    pub complete :
        (dep : TaskRef)
        → In dep deps
        → (d : ℕ) × (lookup dep keys ≡ some d) × In d s.deps × (d ≢ r.id)
    pub grows : (d : ℕ) → In d r.deps → In d s.deps

  add_edges-step :
      (dep : TaskRef) (deps : List TaskRef) (r s : Row)
      → add_edges keys t (dep ∷ deps) r ≡ ok s
      → (j : ℕ) × (lookup dep keys ≡ some j)
        × (j ≢ r.id)
        × (add_edges keys t deps (add_edge j r) ≡ ok s)
  unfolding add_edges
  add_edges-step dep deps r s h = elim (Option-cases (lookup dep keys)) [
    | inl e ↦
        absurd
          (let bad : err (unknown_dependency (ref t) dep) ≡ ok s = rw (e, add_edges) at h in cc)
    | inr (j, e) ↦ elim (Bool-cases (nat_eq j r.id)) [
      | inl z ↦
          absurd (let bad : err (self_dependency (ref t)) ≡ ok s = rw (e, add_edges, z) at h in cc)
      | inr f ↦ (j, e, λ same. let z = (nat_eq_iff j r.id).1 same in cc, rw (e, add_edges, f) at h)
    ]
  ]

  pub add_edges-Edges :
      (deps : List TaskRef) (r s : Row) → RowInv r → add_edges keys t deps r ≡ ok s → Edges deps r s
  unfolding add_edges
  add_edges-Edges [] r s h e =
      let same : r ≡ s = cc in
      record {
        same_id = rw same;
        inv = rw same at h;
        sound = λ d m. inl (rw same m);
        complete = λ dep m. absurd m;
        grows = λ d m. rw same at m;
      }
  add_edges-Edges (dep ∷ deps) r s h e =
      let (j, found, other, rest) = add_edges-step dep deps r s e in
      let more = add_edges-Edges deps (add_edge j r) s (add_edge-RowInv j r h) rest in
      let kept = more.grows in
      record {
        same_id = more.same_id ∙ add_edge-id j r;
        inv = more.inv;
        sound = λ d m. elim (more.sound d m) [
          | inl early ↦ elim ((add_edge-In j d r).0 early) [
            | inl same ↦ inr (dep, inl refl, rw same found)
            | inr old ↦ inl old
          ]
          | inr (x, mx, ex) ↦ inr (x, inr mx, ex)
        ];
        complete = λ x m. elim m [
          | inl same ↦ (j, rw same found, kept j ((add_edge-In j j r).1 (inl refl)), other)
          | inr later ↦
              let (d, ed, md, nd) = more.complete x later in
              (d, ed, md, λ same. nd (same ∙ sym (add_edge-id j r)))
        ];
        grows = λ d m. kept d ((add_edge-In j d r).1 (inr m));
      }

pub record RowFor (keys : Map TaskRef ℕ) (i : ℕ) (t : Task) (r : Row) : Type 0 where
  pub id_is : r.id ≡ i
  pub inv : RowInv r
  pub sound :
      (d : ℕ) → In d r.deps → (dep : TaskRef) × In dep t.depends_on × (lookup dep keys ≡ some d)
  pub complete :
      (dep : TaskRef)
      → In dep t.depends_on
      → (d : ℕ) × (lookup dep keys ≡ some d) × In d r.deps × (d ≢ i)

-- A row for each task, in order.
abbrev pub Rows : Map TaskRef ℕ → ℕ → List Task → List Row → Type 0
Rows keys i [] [] = Unit
Rows keys i [] (r ∷ rs) = ⊥
Rows keys i (t ∷ ts) [] = ⊥
Rows keys i (t ∷ ts) (r ∷ rs) = RowFor keys i t r × Rows keys (suc i) ts rs

pub edge_rows-Rows :
    (keys : Map TaskRef ℕ) (i : ℕ) (ts : List Task) (rs : List Row)
    → edge_rows keys i ts ≡ ok rs
    → Rows keys i ts rs
unfolding edge_rows
edge_rows-Rows keys i [] [] h = tt
edge_rows-Rows keys i [] (r ∷ rs) h = cc
edge_rows-Rows keys i (t ∷ ts) rs h =
    let start : Row = record { id = i; deps = []; degree = 0 } in
    let (r, er, rest) =
      >>=-eq-ok (add_edges keys t t.depends_on start)
        (λ r. edge_rows keys (suc i) ts >>= λ q. ok (r ∷ q)) h in
    let (qs, eq, last) = >>=-eq-ok (edge_rows keys (suc i) ts) (λ q. ok (r ∷ q)) rest in
    let same : r ∷ qs ≡ rs = cc in
    let edges =
      add_edges-Edges keys t t.depends_on start r (record { count = refl; distinct = tt }) er in
    subst (Rows keys i (t ∷ ts)) same (
      record {
        id_is = edges.same_id;
        inv = edges.inv;
        sound =
            λ d m. elim (edges.sound d m) [ inl none_yet ↦ absurd none_yet | inr found ↦ found ];
        complete = λ dep m. edges.complete dep m;
      },
      edge_rows-Rows keys (suc i) ts qs eq,
    )

pub ids-Rows :
    (keys : Map TaskRef ℕ) (i : ℕ) (ts : List Task) (rs : List Row)
    → Rows keys i ts rs
    → ids rs ≡ indices i (length ts)
ids-Rows keys i [] [] h = refl
ids-Rows keys i [] (r ∷ rs) h = absurd h
ids-Rows keys i (t ∷ ts) [] h = absurd h
ids-Rows keys i (t ∷ ts) (r ∷ rs) (h, hs) = rw h.id_is (ap (◌∷◌ i) (ids-Rows keys (suc i) ts rs hs))
