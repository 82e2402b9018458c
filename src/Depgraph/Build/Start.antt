-- ===== src/Depgraph/Build/Start.antt =====
-- The state in which Kahn's loop begins meets its invariant.
use sloff.Prelude.{
  ==-cases, Bool, Bool-cases, In, In-keep, In-keep_of, In-map, In-map_inv, In-sort, In-sort_of,
  List, Map, NoDup, NoDup-sort, Str_Eq, [], ap, arith, get_elem?, inl, inr, insert, keep, length,
  lookup, lookup-insert_ne, lookup-insert_self, map, nat_Eq, nat_eq, nat_eq_iff, refl, some, sort,
  subst, suc, sym, zero, ℕ, ◌+◌, ◌<◌, ◌∙◌, ◌∷◌, ◌≡◌, ◌≤◌, ◌⊎◌,
}
use sloff.Depgraph.Defs.{TaskRef, TaskRef_Eq, Task, ref}
use sloff.Depgraph.Kahn.{Row}
use sloff.Depgraph.Kahn.Inv.{ids, ids_inj}
use sloff.Depgraph.Kahn.Step.{Inv}
use sloff.Depgraph.Build.{initially_ready, kahn, before, consumers, index_keys}
use sloff.Depgraph.Build.Edges.{RowInv, RowFor, Rows, ids-Rows}
use sloff.Depgraph.Heights.{indices, downstream_heights}
use sloff.Depgraph.Kahn.Result.{loop_ends}

-- Task i depends on task d.
abbrev pub Dep : List Row → ℕ → ℕ → Type 0
Dep rows i d = (r : Row) × In r rows × (r.id ≡ i) × In d r.deps

indices-ge : (i n j : ℕ) → In j (indices i n) → i ≤ j
indices-ge i zero j m = absurd m
indices-ge i (suc n) j (inl e) = omega arith
indices-ge i (suc n) j (inr m) = omega (arith, indices-ge (suc i) n j m)

pub In-indices : (i n j : ℕ) → i ≤ j → j < i + n → In j (indices i n)
In-indices i zero j h k = absurd (omega arith)
In-indices i (suc n) j h k = elim (==-cases i j) [
  | inl (same, _) ↦ inl (sym same)
  | inr (other, _) ↦ inr (In-indices (suc i) n j (omega arith) (omega arith))
]

pub NoDup-indices : (i n : ℕ) → NoDup (indices i n)
NoDup-indices i zero = tt
NoDup-indices i (suc n) =
    (λ m. absurd (omega (arith, indices-ge (suc i) n i m)), NoDup-indices (suc i) n)

pub length-indices : (i n : ℕ) → length (indices i n) ≡ n
length-indices i zero = refl
length-indices i (suc n) = ap suc (length-indices (suc i) n)

NoDup-map_keep :
    (p : Row → Bool) (rows : List Row)
    → NoDup (ids rows)
    → NoDup (map (λ (r : Row). r.id) (keep p rows))
unfolding keep
NoDup-map_keep p [] d = tt
NoDup-map_keep p (r ∷ rs) d = elim (Bool-cases (p r)) [
  | inr f ↦ rw f (NoDup-map_keep p rs d.1)
  | inl t ↦ rw t (
    λ m.
        let (q, mq, e) = In-map_inv (λ (x : Row). x.id) r.id (keep p rs) m in
        d.0 (rw e (In-map (λ (x : Row). x.id) q rs (In-keep p q rs mq).0)),
    NoDup-map_keep p rs d.1,
  )
]

module _ (keys : Map TaskRef ℕ) where
  -- Each row belongs to the task at its index.
  pub Rows-row :
      (i : ℕ) (ts : List Task) (rs : List Row) (r : Row)
      → Rows keys i ts rs
      → In r rs
      → (k : ℕ) × (t : Task) × (r.id ≡ i + k) × (get_elem? ts k ≡ some t) × RowFor keys (i + k) t r
  Rows-row i [] [] r h m = absurd m
  Rows-row i [] (q ∷ rs) r h m = absurd h
  Rows-row i (t ∷ ts) [] r h m = absurd m
  Rows-row i (t ∷ ts) (q ∷ rs) r (h, hs) (inl e) =
      let z : i ≡ i + 0 = omega arith in
      (0, t, rw e (h.id_is ∙ z), refl, rw e (subst (λ n. RowFor keys n t q) z h))
  Rows-row i (t ∷ ts) (q ∷ rs) r (h, hs) (inr m) =
      let (k, u, e, g, f) = Rows-row (suc i) ts rs r hs m in
      let z : suc i + k ≡ i + suc k = omega arith in
      (suc k, u, e ∙ z, g, subst (λ n. RowFor keys n u r) z f)

  pub Rows-task :
      (i k : ℕ) (ts : List Task) (rs : List Row) (t : Task)
      → Rows keys i ts rs
      → get_elem? ts k ≡ some t
      → (r : Row) × In r rs × (r.id ≡ i + k) × RowFor keys (i + k) t r
  Rows-task i k [] rs t h g = cc
  Rows-task i k (u ∷ ts) [] t h g = absurd h
  Rows-task i zero (u ∷ ts) (q ∷ rs) t (h, hs) g =
      let z : i ≡ i + 0 = omega arith in
      let same : u ≡ t = cc in
      (
        q,
        inl refl,
        h.id_is ∙ z,
        subst (λ n. RowFor keys n t q) z (subst (λ x. RowFor keys i x q) same h),
      )
  Rows-task i (suc k) (u ∷ ts) (q ∷ rs) t (h, hs) g =
      let (r, m, e, f) = Rows-task (suc i) k ts rs t hs g in
      let z : suc i + k ≡ i + suc k = omega arith in
      (r, inr m, e ∙ z, subst (λ n. RowFor keys n t r) z f)

-- An index that the map of keys returns is that of a task with that key.
pub lookup-index_keys :
    (i : ℕ) (ts : List Task) (m : Map TaskRef ℕ) (dep : TaskRef) (d : ℕ)
    → lookup dep (index_keys i ts m) ≡ some d
    → (lookup dep m ≡ some d)
      ⊎ ((k : ℕ) × (t : Task) × (d ≡ i + k) × (get_elem? ts k ≡ some t) × (ref t ≡ dep))
unfolding index_keys
lookup-index_keys i [] m dep d h = inl h
lookup-index_keys i (t ∷ ts) m dep d h =
    elim (lookup-index_keys (suc i) ts (insert (ref t) i m) dep d h) [
      | inr (k, u, e, g, r) ↦ inr (suc k, u, omega arith, g, r)
      | inl early ↦ elim (==-cases dep (ref t)) [
        | inr (other, f) ↦ inl (sym (lookup-insert_ne (ref t) dep i m f) ∙ early)
        | inl (same, eq) ↦
            let stored : lookup dep (insert (ref t) i m) ≡ some i =
              rw same (lookup-insert_self (ref t) i m) in
            let now : i ≡ d = cc in inr (0, t, omega arith, refl, sym same)
      ]
    ]

module _ (keys : Map TaskRef ℕ) (tasks : List Task) (rows : List Row)
    (h : Rows keys 0 tasks rows) where
  row_inv : (r : Row) → In r rows → RowInv r
  row_inv r m = let (k, t, e, g, f) = Rows-row keys 0 tasks rows r h m in f.inv

  pub ids_are : ids rows ≡ indices 0 (length tasks)
  ids_are = ids-Rows keys 0 tasks rows h

  pub ids_once : NoDup (ids rows)
  ids_once = rw ids_are (NoDup-indices 0 (length tasks))

  start-Inv :
      (less : ℕ → ℕ → Bool)
      → Inv
          (Dep rows)
          (ids rows)
          (record { rows = rows; ready = sort less (initially_ready rows); out = [] })
  unfolding initially_ready
  start-Inv less = record {
    row_ok = λ r m. record {
      count = (row_inv r m).count;
      distinct = (row_inv r m).distinct;
      covered = λ d (q, mq, e, md).
          inl (subst (λ (x : Row). In d x.deps) (ids_inj rows q r ids_once mq m e) md);
      open_yet = λ d md n. n;
      real = λ d md. (r, m, refl, md);
    };
    named = refl;
    out_once = tt;
    ready_once = NoDup-sort less _ (NoDup-map_keep (λ (r : Row). nat_eq r.degree 0) rows ids_once);
    apart = λ i m n. m;
    known = λ i m. elim m [
      | inl nowhere ↦ absurd nowhere
      | inr now ↦
          let (r, mr, e) = In-map_inv (λ (x : Row). x.id) i _ (In-sort less i _ now) in
          rw e (
            In-map (λ (x : Row). x.id) r rows
              (In-keep (λ (x : Row). nat_eq x.degree 0) r rows mr).0)
    ];
    free = λ r m now. elim now [
      | inl nowhere ↦ absurd nowhere
      | inr ready ↦
          let (q, mq, e) = In-map_inv (λ (x : Row). x.id) r.id _ (In-sort less r.id _ ready) in
          let (mq', z) = In-keep (λ (x : Row). nat_eq x.degree 0) q rows mq in
          let same = ids_inj rows r q ids_once m mq' e in
          let zero_degree : r.degree ≡ 0 = rw same ((nat_eq_iff q.degree 0).0 z) in
          empty_of_length r.deps (omega (arith, (row_inv r m).count))
    ];
    rest = λ r m closed. inr (
        In-sort_of less r.id _ (
          In-map (λ (x : Row). x.id) r _
            (In-keep_of (λ (x : Row). nat_eq x.degree 0) r rows m
              ((nat_eq_iff r.degree 0).1 (omega (arith, (row_inv r m).count, ap length closed))))));
    ordered = tt;
  }
    where
      empty_of_length : (xs : List ℕ) → length xs ≡ 0 → xs ≡ []
      empty_of_length [] e = refl
      empty_of_length (x ∷ xs) e = absurd (omega arith)

  -- At its end the loop has nothing ready, and its invariant holds.
  pub kahn-Inv : Inv (Dep rows) (ids rows) (kahn tasks rows) × ((kahn tasks rows).ready ≡ [])
  unfolding kahn
  kahn-Inv =
      let less = before tasks (downstream_heights (length tasks) (consumers rows)) in
      loop_ends less (Dep rows) (ids rows) ids_once (length tasks) _ (start-Inv less)
        (omega (arith, ap length ids_are, length-indices 0 (length tasks)))
