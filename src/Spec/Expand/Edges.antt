-- ===== src/Spec/Expand/Edges.antt =====
-- The edges that the patterns of a command expand to.
use sloff.Prelude.{
  Bool-cases, In, In-append_cases, In-append_left, In-append_right, List, NoDup, NoDup-snoc, Str,
  Str_Eq, [], ap, arith, contains, contains-In, false, inl, inr, map, nat_Eq, not-In, refl, true,
  ◌++◌, ◌||◌, ◌↔◌, ◌∷◌, ◌≡◌, ◌⊎◌,
}
use sloff.Spec.Defs.{Depend, EdgeKey, EdgeKey_Eq}
use sloff.Spec.References.{resolve_edge}
use sloff.Spec.Expand.{Added, add_edges}

-- The keys of some entries.
abbrev pub edge_keys : Str → List Depend → List EdgeKey
edge_keys dir ds = map (resolve_edge dir) ds

edge_keys-snoc :
    (dir : Str) (ds : List Depend) (d : Depend)
    → edge_keys dir (ds ++ d ∷ []) ≡ edge_keys dir ds ++ resolve_edge dir d ∷ []
edge_keys-snoc dir [] d = refl
edge_keys-snoc dir (x ∷ ds) d = ap (◌∷◌ (resolve_edge dir x)) (edge_keys-snoc dir ds d)

-- The set of keys is that of the entries, which have different keys.
pub record Tracks (dir : Str) (a : Added) : Type 0 where
  pub known : (k : EdgeKey) → In k a.keys ↔ In k (edge_keys dir a.entries)
  pub distinct : NoDup (edge_keys dir a.entries)

Tracks-snoc :
    (dir : Str) (a : Added) (m : Depend)
    → Tracks dir a
    → ¬ In (resolve_edge dir m) a.keys
    → Tracks dir (record { keys = resolve_edge dir m ∷ a.keys; entries = a.entries ++ m ∷ [] })
Tracks-snoc dir a m t new = record {
  known = λ k. (
    λ i. rw (edge_keys-snoc dir a.entries m) (elim i [
      | inl same ↦ In-append_right k (edge_keys dir a.entries) _ (inl same)
      | inr old ↦ In-append_left k (edge_keys dir a.entries) _ ((t.known k).0 old)
    ]),
    λ i.
        elim (In-append_cases k (edge_keys dir a.entries) _
          (rw (edge_keys-snoc dir a.entries m) at i)) [
            | inl old ↦ inr ((t.known k).1 old)
            | inr (inl same) ↦ inl same
            | inr (inr no_more) ↦ absurd no_more
          ],
  );
  distinct = rw (edge_keys-snoc dir a.entries m) (
      NoDup-snoc (edge_keys dir a.entries) (resolve_edge dir m) t.distinct
        (λ i. new ((t.known (resolve_edge dir m)).1 i)));
}

-- From `a` to `b` exactly the keys with P that are no literals were added.
pub record Grows (dir : Str) (literal : List EdgeKey) (P : EdgeKey → Type 0) (a b : Added)
    : Type 0 where
  pub tracks : Tracks dir b
  pub edges :
      (k : EdgeKey)
      → In k (edge_keys dir b.entries) ↔ (In k (edge_keys dir a.entries) ⊎ (P k × ¬ In k literal))

pub add_edges-Grows :
    (dir : Str) (literal : List EdgeKey) (ms : List Depend) (a : Added)
    → Tracks dir a
    → Grows dir literal (λ k. In k (edge_keys dir ms)) a (add_edges dir literal ms a)
unfolding add_edges
add_edges-Grows dir literal [] a t = record {
  tracks = t;
  edges = λ k. (λ i. inl i, λ i. elim i [ inl old ↦ old | inr (never, _) ↦ absurd never ]);
}
add_edges-Grows dir literal (m ∷ ms) a t =
    elim (Bool-cases
      (contains literal (resolve_edge dir m) || contains a.keys (resolve_edge dir m))) [
        | inl old ↦ rw old (kept old (add_edges-Grows dir literal ms a t))
        | inr new ↦ rw new (
            grown new (
              add_edges-Grows dir literal ms _
                (Tracks-snoc dir a m t (not-In a.keys (resolve_edge dir m) (ground arith)))))
      ]
  where
    kept :
        (contains literal (resolve_edge dir m) || contains a.keys (resolve_edge dir m)) ≡ true
        → Grows dir literal (λ k. In k (edge_keys dir ms)) a (add_edges dir literal ms a)
        → Grows dir literal (λ k. In k (edge_keys dir (m ∷ ms))) a (add_edges dir literal ms a)
    kept old g = record {
      tracks = g.tracks;
      edges = λ k. (
        λ i. elim ((g.edges k).0 i) [
          | inl before ↦ inl before
          | inr (later, free) ↦ inr (inr later, free)
        ],
        λ i. elim i [
          | inl before ↦ (g.edges k).1 (inl before)
          | inr (inr later, free) ↦ (g.edges k).1 (inr (later, free))
          | inr (inl same, free) ↦ (g.edges k).1 (
              inl (elim (Bool-cases (contains literal (resolve_edge dir m))) [
                | inl lit ↦ absurd (free (rw same (contains-In literal (resolve_edge dir m) lit)))
                | inr f ↦ rw same (
                    (t.known (resolve_edge dir m)).0
                      (contains-In a.keys (resolve_edge dir m) (ground arith)))
              ]))
        ],
      );
    }

    grown :
        (contains literal (resolve_edge dir m) || contains a.keys (resolve_edge dir m)) ≡ false
        → let next : Added = record {
          keys = resolve_edge dir m ∷ a.keys;
          entries = a.entries ++ m ∷ [];
        } in
          Grows dir literal (λ k. In k (edge_keys dir ms)) next (add_edges dir literal ms next)
          → Grows dir literal (λ k. In k (edge_keys dir (m ∷ ms))) a (add_edges dir literal ms next)
    grown new g = record {
      tracks = g.tracks;
      edges = λ k. (
        λ i. elim ((g.edges k).0 i) [
          | inr (later, free) ↦ inr (inr later, free)
          | inl before ↦
              elim (In-append_cases k (edge_keys dir a.entries) _
                (rw (edge_keys-snoc dir a.entries m) at before)) [
                  | inl old ↦ inl old
                  | inr (inl same) ↦ inr (
                    inl same,
                    λ l. not-In literal (resolve_edge dir m) (ground arith) (rw (← same) l),
                  )
                  | inr (inr no_more) ↦ absurd no_more
                ]
        ],
        λ i. (g.edges k).1 (elim i [
          | inl old ↦ inl (
              rw (edge_keys-snoc dir a.entries m)
                (In-append_left k (edge_keys dir a.entries) _ old))
          | inr (inl same, free) ↦ inl (
              rw (edge_keys-snoc dir a.entries m)
                (In-append_right k (edge_keys dir a.entries) _ (inl same)))
          | inr (inr later, free) ↦ inr (later, free)
        ]),
      );
    }
