-- ===== src/Spec/Expand/Patterns.antt =====
-- What the patterns of a command match, and what becomes of its depends.
use sloff.Prelude.{
  Bool, Bool-cases, In, List, NoDup, Option, Option-cases, Str, Str_Eq, [], ap, false, inl, inr,
  nat_Eq, none, refl, some, str_eq, subst, sym, true, ◌&&◌, ◌++◌, ◌↔◌, ◌∙◌, ◌∷◌, ◌≡◌, ◌⊎◌,
}
use sloff.Spec.Defs.{Depend, Command, EdgeKey, EdgeKey_Eq, is_depend_pattern}
use sloff.Spec.Paths.{join, escapes_root}
use sloff.Spec.References.{resolve_edge}
use sloff.Spec.Expand.{
  ExpandedPattern, ExpandError, outside, malformed, unmatched, Expanded, ok, err, literals, Added,
  add_edges, matched, expand_pattern, expand_patterns, expand_command_depends,
}
use sloff.Spec.Expand.Edges.{edge_keys, Tracks, Grows, add_edges-Grows}

module _ (glob_matches : Str → Str → Option Bool) (names : Str → List Str) (dir : Str)
    (c : Command) where
  -- The pattern matches a task of its directory that is not the command itself.
  abbrev pub Matches : Depend → List Str → Str → Type 0
  Matches d ns n =
      In n ns
      × ((str_eq (join dir d.spec) dir && str_eq n c.name) ≡ false)
      × (glob_matches d.task n ≡ some true)

  -- The edges that a pattern stands for.
  abbrev pub StandsFor : Depend → List Str → EdgeKey → Type 0
  StandsFor d ns k =
      (n : Str) × Matches d ns n × (k ≡ resolve_edge dir (record { spec = d.spec; task = n }))

  Matches-later : (d : Depend) (n m : Str) (ns : List Str) → Matches d ns m → Matches d (n ∷ ns) m
  Matches-later d n m ns (i, other, hit) = (inr i, other, hit)

  matched-StandsFor :
      (d : Depend) (ns : List Str) (ms : List Depend)
      → matched glob_matches names dir c d ns ≡ some ms
      → (k : EdgeKey) → In k (edge_keys dir ms) ↔ StandsFor d ns k
  unfolding matched
  matched-StandsFor d [] ms h k =
      let none_made : [] ≡ ms = cc in
      (λ i. absurd (subst (λ l. In k (edge_keys dir l)) (sym none_made) i), λ s. absurd s.1.0)
  matched-StandsFor d (n ∷ ns) ms h k =
      elim (Bool-cases (str_eq (join dir d.spec) dir && str_eq n c.name)) [
        | inl t ↦
            let rest = matched-StandsFor d ns ms (rw (t, matched) at h) k in
            (
              λ i. let (m, found, e) = rest.0 i in (m, Matches-later d n m ns found, e),
              λ s. rest.1 (drop_first s (λ self. let bad : true ≡ false = sym t ∙ self in cc)),
            )
        | inr f ↦ elim (answer_cases (glob_matches d.task n)) [
          | inl e ↦ let bad : none ≡ some ms = rw (f, e, matched) at h in cc
          | inr (inl e) ↦
              let rest = matched-StandsFor d ns ms (rw (f, e, matched) at h) k in
              (
                λ i. let (m, found, g) = rest.0 i in (m, Matches-later d n m ns found, g),
                λ s.
                    rest.1
                      (drop_second s (λ hit. let bad : some false ≡ some true = sym e ∙ hit in cc)),
              )
          | inr (inr e) ↦ elim (Option-cases (matched glob_matches names dir c d ns)) [
            | inl none_there ↦ let bad : none ≡ some ms = rw (f, e, none_there, matched) at h in cc
            | inr (more, found) ↦
                let both : some (record { spec = d.spec; task = n } ∷ more) ≡ some ms =
                  rw (f, e, found, matched) at h in
                let same : record { spec = d.spec; task = n } ∷ more ≡ ms = cc in
                let rest = matched-StandsFor d ns more found k in
                rw (← same) (
                  λ i. elim i [
                    | inl here ↦ (n, (inl refl, f, e), here)
                    | inr later ↦ let (m, g, x) = rest.0 later in (m, Matches-later d n m ns g, x)
                  ],
                  λ s. elim s.1.0 [
                    | inl first ↦ inl (
                        s.2 ∙ ap (λ x. resolve_edge dir (record { spec = d.spec; task = x })) first)
                    | inr later ↦ inr (rest.1 (s.0, (later, s.1.1, s.1.2), s.2))
                  ],
                )
          ]
        ]
      ]
    where
      answer_cases : (o : Option Bool) → (o ≡ none) ⊎ (o ≡ some false) ⊎ (o ≡ some true)
      answer_cases none = inl refl
      answer_cases (some false) = inr (inl refl)
      answer_cases (some true) = inr (inr refl)

      drop_first :
          StandsFor d (n ∷ ns) k
          → ((str_eq (join dir d.spec) dir && str_eq n c.name) ≡ false → ⊥)
          → StandsFor d ns k
      drop_first (m, (inr later, other, hit), e) self = (m, (later, other, hit), e)
      drop_first (m, (inl first, other, _), e) self = absurd (
          self (subst (λ x. (str_eq (join dir d.spec) dir && str_eq x c.name) ≡ false) first other))

      drop_second :
          StandsFor d (n ∷ ns) k → (glob_matches d.task n ≡ some true → ⊥) → StandsFor d ns k
      drop_second (m, (inr later, other, hit), e) miss = (m, (later, other, hit), e)
      drop_second (m, (inl first, _, hit), e) miss =
          absurd (miss (subst (λ x. glob_matches d.task x ≡ some true) first hit))

  expand_pattern-matched :
      (d : Depend) (ms : List Depend)
      → expand_pattern glob_matches names dir c d ≡ ok ms
      → matched glob_matches names dir c d (names (join dir d.spec)) ≡ some ms
  unfolding expand_pattern
  expand_pattern-matched d ms h = elim (Bool-cases (escapes_root (join dir d.spec))) [
    | inl t ↦ let bad : err (outside dir c.name d.task) ≡ ok ms = rw (t, expand_pattern) at h in cc
    | inr f ↦ go (matched glob_matches names dir c d (names (join dir d.spec))) refl f
  ]
    where
      go :
          (o : Option (List Depend))
          → matched glob_matches names dir c d (names (join dir d.spec)) ≡ o
          → escapes_root (join dir d.spec) ≡ false
          → matched glob_matches names dir c d (names (join dir d.spec)) ≡ some ms
      go none e f =
          let bad : err (malformed dir c.name d.task) ≡ ok ms = rw (f, e, expand_pattern) at h in cc
      go (some []) e f =
          let bad : err (unmatched dir c.name d.task) ≡ ok ms = rw (f, e, expand_pattern) at h in cc
      go (some (x ∷ xs)) e f =
          let same : ok (x ∷ xs) ≡ ok ms = rw (f, e, expand_pattern) at h in
          let eq : x ∷ xs ≡ ms = cc in e ∙ ap some eq

  -- An edge that some pattern among the entries stands for.
  abbrev pub PatternEdge : List Depend → EdgeKey → Type 0
  PatternEdge ds k =
      (d : Depend) × In d ds
      × (is_depend_pattern d.task ≡ true)
      × StandsFor d (names (join dir d.spec)) k

  PatternEdge-later :
      (d : Depend) (ds : List Depend) (k : EdgeKey) → PatternEdge ds k → PatternEdge (d ∷ ds) k
  PatternEdge-later d ds k (x, i, p, s) = (x, inr i, p, s)

  PatternEdge-cases :
      (d : Depend) (ds : List Depend) (k : EdgeKey)
      → PatternEdge (d ∷ ds) k
      → ((is_depend_pattern d.task ≡ true) × StandsFor d (names (join dir d.spec)) k)
        ⊎ PatternEdge ds k
  PatternEdge-cases d ds k (x, inr i, p, s) = inr (x, i, p, s)
  PatternEdge-cases d ds k (x, inl e, p, s) = inl (
    subst (λ (y : Depend). is_depend_pattern y.task ≡ true) e p,
    subst (λ (y : Depend). StandsFor y (names (join dir y.spec)) k) e s,
  )

  expand_patterns-Grows :
      (literal : List EdgeKey) (ds : List Depend) (a b : Added) (groups : List ExpandedPattern)
      → Tracks dir a
      → expand_patterns glob_matches names dir c literal ds a ≡ ok (b, groups)
      → Grows dir literal (PatternEdge ds) a b
  unfolding expand_patterns
  expand_patterns-Grows literal [] a b groups t h =
      let both : ◌≡◌ {A = Expanded (Added × List ExpandedPattern)} (ok (a, [])) (ok (b, groups)) =
        h in
      let same : a ≡ b = cc in
      subst (Grows dir literal (PatternEdge []) a) same (record {
        tracks = t;
        edges = λ k. (λ i. inl i, λ i. elim i [ inl old ↦ old | inr (never, _) ↦ absurd never.1 ]);
      })
  expand_patterns-Grows literal (d ∷ ds) a b groups t h =
      elim (Bool-cases (is_depend_pattern d.task)) [
        | inr f ↦
            skipped f (expand_patterns-Grows literal ds a b groups t (rw (f, expand_patterns) at h))
        | inl p ↦ elim (expanded_cases (expand_pattern glob_matches names dir c d)) [
          | inl (e, same) ↦
              let bad : ◌≡◌ {A = Expanded (Added × List ExpandedPattern)} (err e) (ok (b, groups)) =
                rw (p, same, expand_patterns) at h in
              cc
          | inr (ms, same) ↦
              elim (expanded_cases (
                expand_patterns glob_matches names dir c literal ds (add_edges dir literal ms a))) [
                  | inl (e, fails) ↦
                      let bad : ◌≡◌ {A = Expanded (Added × List ExpandedPattern)} (err e)
                          (ok (b, groups)) =
                        rw (p, same, fails, expand_patterns) at h in
                      cc
                  | inr ((z, more), goes) ↦
                      let g = add_edges-Grows dir literal ms a t in
                      let whole : ◌≡◌ {A = Expanded (Added × List ExpandedPattern)}
                          (ok (
                            z,
                            record {
                              consumer_dir = dir;
                              consumer_name = c.name;
                              glob = d.task;
                              edges = ms;
                            }
                                ∷ more,
                          ))
                          (ok (b, groups)) =
                        rw (p, same, goes, expand_patterns) at h in
                      let last : z ≡ b = cc in
                      joined p ms (expand_pattern-matched d ms same) g (
                        subst (Grows dir literal (PatternEdge ds) (add_edges dir literal ms a)) last
                          (expand_patterns-Grows literal ds (add_edges dir literal ms a) z more
                            g.tracks goes))
                ]
        ]
      ]
    where
      expanded_cases :
          {A : Type 0} (x : Expanded A) → ((e : ExpandError) × (x ≡ err e)) ⊎ ((v : A) × (x ≡ ok v))
      expanded_cases (err e) = inl (e, refl)
      expanded_cases (ok v) = inr (v, refl)

      skipped :
          is_depend_pattern d.task ≡ false
          → Grows dir literal (PatternEdge ds) a b
          → Grows dir literal (PatternEdge (d ∷ ds)) a b
      skipped f g = record {
        tracks = g.tracks;
        edges = λ k. (
          λ i. elim ((g.edges k).0 i) [
            | inl old ↦ inl old
            | inr (edge, free) ↦ inr (PatternEdge-later d ds k edge, free)
          ],
          λ i. (g.edges k).1 (elim i [
            | inl old ↦ inl old
            | inr (edge, free) ↦ elim (PatternEdge-cases d ds k edge) [
              | inr later ↦ inr (later, free)
              | inl (p, _) ↦ absurd (let bad : true ≡ false = sym p ∙ f in cc)
            ]
          ]),
        );
      }

      joined :
          is_depend_pattern d.task ≡ true
          → (ms : List Depend)
          → matched glob_matches names dir c d (names (join dir d.spec)) ≡ some ms
          → Grows dir literal (λ k. In k (edge_keys dir ms)) a (add_edges dir literal ms a)
          → Grows dir literal (PatternEdge ds) (add_edges dir literal ms a) b
          → Grows dir literal (PatternEdge (d ∷ ds)) a b
      joined p ms found g later = record {
        tracks = later.tracks;
        edges = λ k.
            let own = matched-StandsFor d (names (join dir d.spec)) ms found k in
            (
              λ i. elim ((later.edges k).0 i) [
                | inr (edge, free) ↦ inr (PatternEdge-later d ds k edge, free)
                | inl first ↦ elim ((g.edges k).0 first) [
                  | inl old ↦ inl old
                  | inr (new, free) ↦ inr ((d, inl refl, p, own.0 new), free)
                ]
              ],
              λ i. (later.edges k).1 (elim i [
                | inl old ↦ inl ((g.edges k).1 (inl old))
                | inr (edge, free) ↦ elim (PatternEdge-cases d ds k edge) [
                  | inr after ↦ inr (after, free)
                  | inl (_, here) ↦ inl ((g.edges k).1 (inr (own.1 here, free)))
                ]
              ]),
            );
      }

  -- When the expansion of a command's depends succeeds, the literal entries stand first, as they were.
  -- Behind them stands one entry for each edge that no literal names and that a pattern stands for: an
  -- edge to a task of the directory of the pattern whose name the pattern matches, other than the
  -- command itself.
  pub expand_command_depends-edges :
      (out : List Depend) (groups : List ExpandedPattern)
      → expand_command_depends glob_matches names dir c ≡ ok (out, groups)
      → (rest : List Depend) × (out ≡ literals c.depends ++ rest)
        × NoDup (edge_keys dir rest)
        × ((k : EdgeKey)
            → In k (edge_keys dir rest)
              ↔ (PatternEdge c.depends k × ¬ In k (edge_keys dir (literals c.depends))))
  unfolding expand_command_depends
  expand_command_depends-edges out groups h =
      go (expand_patterns glob_matches names dir c lits c.depends none_yet) refl
    where
      lits : List EdgeKey
      lits = edge_keys dir (literals c.depends)

      none_yet : Added
      none_yet = record { keys = []; entries = [] }

      go :
          (x : Expanded (Added × List ExpandedPattern))
          → expand_patterns glob_matches names dir c lits c.depends none_yet ≡ x
          → (rest : List Depend) × (out ≡ literals c.depends ++ rest)
            × NoDup (edge_keys dir rest)
            × ((k : EdgeKey) → In k (edge_keys dir rest) ↔ (PatternEdge c.depends k × ¬ In k lits))
      go (err e) same =
          let bad : ◌≡◌ {A = Expanded (List Depend × List ExpandedPattern)} (err e)
              (ok (out, groups)) =
            rw (same, expand_command_depends) at h in
          absurd (cc)
      go (ok (b, more)) same =
          let both : ◌≡◌ {A = Expanded (List Depend × List ExpandedPattern)}
              (ok (literals c.depends ++ b.entries, more)) (ok (out, groups)) =
            rw (same, expand_command_depends) at h in
          let whole : literals c.depends ++ b.entries ≡ out = cc in
          let g =
            expand_patterns-Grows lits c.depends none_yet b more
              (record { known = λ k. (λ i. i, λ i. i); distinct = tt }) same in
          (
            b.entries,
            sym whole,
            g.tracks.distinct,
            λ k. (
              λ i. elim ((g.edges k).0 i) [ inl never ↦ absurd never | inr new ↦ new ],
              λ new. (g.edges k).1 (inr new),
            ),
          )
