-- ===== src/Depgraph/Kahn/Inv.antt =====
-- The invariant of Kahn's loop, and its preservation by one round.
use sloff.Prelude.{
  Bool-cases, In, In-append_cases, In-append_left, In-append_right, In-erase, In-erase_cases,
  In-map, List, NoDup, NoDup-erase, Str_Eq, [], ap, arith, contains, contains-In, erase, false, inl,
  inr, length, length-erase, map, nat_Eq, nat_eq, nat_eq_iff, not-In, not-In-erase, refl, subst,
  sym, true, ℕ, ◌++◌, ◌-◌, ◌∙◌, ◌∷◌, ◌≡◌, ◌≢◌, ◌⊎◌,
}
use sloff.Depgraph.Kahn.{Row, release, unblocked}

-- Facts about one row: `Dep i d` says that task i depends on task d.
pub record RowOk (Dep : ℕ → ℕ → Type 0) (out : List ℕ) (r : Row) : Type 0 where
  pub count : r.degree ≡ length r.deps
  pub distinct : NoDup r.deps
  pub covered : (d : ℕ) → Dep r.id d → In d r.deps ⊎ In d out
  pub open_yet : (d : ℕ) → In d r.deps → ¬ In d out
  pub real : (d : ℕ) → In d r.deps → Dep r.id d

abbrev pub ids : List Row → List ℕ
ids rows = map (λ (r : Row). r.id) rows

pub release-cases :
    (next : ℕ) (r : Row)
    → (contains r.deps next ≡ true)
        × (release next r ≡ record r { deps = erase r.deps next; degree = r.degree - 1 })
      ⊎ (contains r.deps next ≡ false) × (release next r ≡ r)
unfolding release
release-cases next r = elim (Bool-cases (contains r.deps next)) [
  | inl t ↦ inl (t, rw t)
  | inr f ↦ inr (f, rw f)
]

release-id : (next : ℕ) (r : Row) → (release next r).id ≡ r.id
release-id next r = elim (release-cases next r) [ inl (t, e) ↦ rw e | inr (f, e) ↦ rw e ]

pub ids-release : (next : ℕ) (rows : List Row) → ids (map (release next) rows) ≡ ids rows
ids-release next [] = refl
ids-release next (r ∷ rs) = rw (release-id next r) (ap (◌∷◌ r.id) (ids-release next rs))

pub unblocked-cases :
    (next i : ℕ) (rows : List Row)
    → In i (unblocked next rows)
    → (r : Row) × In r rows × (r.id ≡ i) × (contains r.deps next ≡ true) × (r.degree - 1 ≡ 0)
unfolding unblocked
unblocked-cases next i [] m = absurd m
unblocked-cases next i (r ∷ rs) m = elim (Bool-cases (contains r.deps next)) [
  | inr f ↦ let (q, a, b, c, d) = unblocked-cases next i rs (rw f at m) in (q, inr a, b, c, d)
  | inl t ↦ elim (Bool-cases (nat_eq (r.degree - 1) 0)) [
    | inr f ↦
        let (q, a, b, c, d) = unblocked-cases next i rs (rw (t, f) at m) in (q, inr a, b, c, d)
    | inl z ↦ elim (rw (t, z) at m) [
      | inl e ↦ (r, inl refl, sym e, t, (nat_eq_iff _ _).0 z)
      | inr later ↦ let (q, a, b, c, d) = unblocked-cases next i rs later in (q, inr a, b, c, d)
    ]
  ]
]

pub In-unblocked :
    (next : ℕ) (r : Row) (rows : List Row)
    → In r rows
    → contains r.deps next ≡ true
    → r.degree - 1 ≡ 0
    → In r.id (unblocked next rows)
unfolding unblocked
In-unblocked next r [] m t z = absurd m
In-unblocked next r (q ∷ rs) (inl e) t z =
    let z' = (nat_eq_iff (r.degree - 1) 0).1 z in rw (← e) (rw t (rw z' (inl refl)))
In-unblocked next r (q ∷ rs) (inr m) t z = elim (Bool-cases (contains q.deps next)) [
  | inr f ↦ rw f (In-unblocked next r rs m t z)
  | inl t' ↦ rw t' (elim (Bool-cases (nat_eq (q.degree - 1) 0)) [
    | inl z' ↦ rw z' (inr (In-unblocked next r rs m t z))
    | inr f ↦ rw f (In-unblocked next r rs m t z)
  ])
]

pub ids_inj :
    (rows : List Row) (r q : Row) → NoDup (ids rows) → In r rows → In q rows → r.id ≡ q.id → r ≡ q
ids_inj [] r q d mr mq e = absurd mr
ids_inj (x ∷ rows) r q d (inl er) (inl eq) e = er ∙ sym eq
ids_inj (x ∷ rows) r q d (inl er) (inr mq) e =
    let here : q.id ≡ x.id = sym e ∙ ap (λ (t : Row). t.id) er in
    absurd (d.0 (rw (← here) (In-map (λ (t : Row). t.id) q rows mq)))
ids_inj (x ∷ rows) r q d (inr mr) (inl eq) e =
    let here : r.id ≡ x.id = e ∙ ap (λ (t : Row). t.id) eq in
    absurd (d.0 (rw (← here) (In-map (λ (t : Row). t.id) r rows mr)))
ids_inj (x ∷ rows) r q d (inr mr) (inr mq) e = ids_inj rows r q d.1 mr mq e

pub NoDup-unblocked : (next : ℕ) (rows : List Row) → NoDup (ids rows) → NoDup (unblocked next rows)
unfolding unblocked
NoDup-unblocked next [] d = tt
NoDup-unblocked next (r ∷ rs) d = elim (Bool-cases (contains r.deps next)) [
  | inr f ↦ rw f (NoDup-unblocked next rs d.1)
  | inl t ↦ rw t (elim (Bool-cases (nat_eq (r.degree - 1) 0)) [
    | inr f ↦ rw f (NoDup-unblocked next rs d.1)
    | inl z ↦ rw z (
      λ m.
          let (q, mq, e, _, _) = unblocked-cases next r.id rs m in
          d.0 (rw (← e) (In-map (λ (x : Row). x.id) q rs mq)),
      NoDup-unblocked next rs d.1,
    )
  ])
]

not-In-snoc : (next : ℕ) (out : List ℕ) (d : ℕ) → ¬ In d out → d ≢ next → ¬ In d (out ++ next ∷ [])
not-In-snoc next out d n other m = elim (In-append_cases d out (next ∷ []) m) [
  | inl i ↦ n i
  | inr i ↦ elim i [ inl e ↦ other e | inr none_left ↦ none_left ]
]

module _ {Dep : ℕ → ℕ → Type 0} (next : ℕ) (out : List ℕ) (r : Row) where
  pub release-RowOk : RowOk Dep out r → RowOk Dep (out ++ next ∷ []) (release next r)
  release-RowOk h = elim (release-cases next r) [
    | inl (t, e) ↦ rw e (record {
      count = omega (arith, h.count, length-erase r.deps next (contains-In r.deps next t));
      distinct = NoDup-erase r.deps next h.distinct;
      covered = λ d dep. elim (h.covered d dep) [
        | inl open_dep ↦ elim (In-erase_cases r.deps next d open_dep) [
          | inl same ↦ inr (In-append_right d out (next ∷ []) (inl same))
          | inr left ↦ inl left
        ]
        | inr done ↦ inr (In-append_left d out (next ∷ []) done)
      ];
      open_yet = λ d m. not-In-snoc next out d (h.open_yet d (In-erase r.deps next d m)) (λ same.
          not-In-erase r.deps next h.distinct (subst (λ x. In x (erase r.deps next)) same m));
      real = λ d m. h.real d (In-erase r.deps next d m);
    })
    | inr (f, e) ↦ rw e (record {
      count = h.count;
      distinct = h.distinct;
      covered = λ d dep. elim (h.covered d dep) [
        | inl open_dep ↦ inl open_dep
        | inr done ↦ inr (In-append_left d out (next ∷ []) done)
      ];
      open_yet = λ d m.
          not-In-snoc next out d (h.open_yet d m)
            (λ same. not-In r.deps next f (subst (λ x. In x r.deps) same m));
      real = h.real;
    })
  ]
