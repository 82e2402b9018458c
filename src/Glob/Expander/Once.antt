-- ===== src/Glob/Expander/Once.antt =====
-- The caches change no result.
use sloff.Prelude.{
  ==-cases, Bool-cases, List, Map, Option, Option-cases, Str, Str_Eq, [], ap, false, inl, inr,
  insert, lookup, lookup-insert_ne, lookup-insert_self, map, nat_Eq, none, refl, some, subst, sym,
  true, ◌∙◌, ◌∷◌, ◌≡◌,
}
use sloff.Spec.Paths.{join, escapes_root}
use sloff.Glob.Expander.{
  Doublestar, Expander, new_expander, is_direct, below, match_files, escapes, failing, Expansion,
  ok, err, add_seen, sorted, files_under, walked, compute_matches, remember, match_pattern,
  expand_each, expand, expand_once,
}

module _ (d : Doublestar) where
  abbrev walk_once : Str → Option (List Str)
  walk_once b = (files_under d new_expander b).1

  abbrev pub match_once : Str → Option (List Str)
  match_once j = (compute_matches d new_expander j).1

  -- Each cached list is what an expander with empty caches finds.
  pub record Sound (e : Expander) : Type 0 where
    pub of_cache : (j : Str) (ms : List Str) → lookup j e.cache ≡ some ms → match_once j ≡ some ms
    pub of_base :
        (b : Str) (fs : List Str) → lookup b e.base_files ≡ some fs → walk_once b ≡ some fs

  -- A step that gives what the caches do not change.
  abbrev Agrees : {A : Type 0} → Expander × A → A → Type 0
  Agrees r a = (r.1 ≡ a) × Sound r.0

  pub new_expander-Sound : Sound new_expander
  unfolding lookup
  new_expander-Sound = record { of_cache = λ j ms h. absurd (cc); of_base = λ b fs h. absurd (cc) }

  insert-Entries :
      (f : Str → Option (List Str)) (m : Map Str (List Str)) (b : Str) (fs : List Str)
      → ((k : Str) (v : List Str) → lookup k m ≡ some v → f k ≡ some v)
      → f b ≡ some fs
      → (k : Str) (v : List Str) → lookup k (insert b fs m) ≡ some v
      → f k ≡ some v
  insert-Entries f m b fs old new k v h = elim (==-cases k b) [
    | inl (same, _) ↦ rw same (new ∙ sym (lookup-insert_self b fs m) ∙ (rw same at h))
    | inr (_, other) ↦ old k v (sym (lookup-insert_ne b k fs m other) ∙ h)
  ]

  files_under-once : (e : Expander) (b : Str) → Sound e → Agrees (files_under d e b) (walk_once b)
  unfolding files_under lookup
  files_under-once e b s = elim (Option-cases (lookup b e.base_files)) [
    | inr (fs, h) ↦ rw (h, files_under) (sym (s.of_base b fs h), s)
    | inl h ↦ elim (Option-cases (d.under b)) [
      | inl g ↦ rw (h, g, files_under) (refl, s)
      | inr (rel, g) ↦
          let walk : walk_once b ≡ some (map (below b) rel) = rw (g, files_under) refl in
          rw (h, g, files_under)
            (
              refl,
              record {
                of_cache = s.of_cache;
                of_base =
                    insert-Entries walk_once e.base_files b (map (below b) rel) s.of_base walk;
              },
            )
    ]
  ]

  walked-Agrees :
      (j : Str) (r t : Expander × Option (List Str))
      → r.1 ≡ t.1
      → Sound r.0
      → Agrees (walked d j r) (walked d j t).1
  unfolding walked
  walked-Agrees j (e, none) (f, none) h s = (refl, s)
  walked-Agrees j (e, none) (f, some y) h s = absurd (cc)
  walked-Agrees j (e, some x) (f, none) h s = absurd (cc)
  walked-Agrees j (e, some x) (f, some y) h s =
      let same : x ≡ y = cc in (ap (match_files d j) same, s)

  -- What compute_matches does with each expander, it does with the empty one.
  alike :
      (e : Expander) (j : Str) (f : Expander → Expander × Option (List Str))
      → ((x : Expander) → compute_matches d x j ≡ f x)
      → Agrees (f e) (f new_expander).1
      → Agrees (compute_matches d e j) (match_once j)
  alike e j f eq (same, sound) = (
    ap (λ r. r.1) (eq e) ∙ same ∙ sym (ap (λ r. r.1) (eq new_expander)),
    subst (λ r. Sound r.0) (sym (eq e)) sound,
  )

  compute_matches-once :
      (e : Expander) (j : Str) → Sound e → Agrees (compute_matches d e j) (match_once j)
  unfolding compute_matches
  compute_matches-once e j s = elim (Bool-cases (d.valid j)) [
    | inr f ↦ alike e j (λ x. (x, none)) (λ x. rw (f, compute_matches) refl) (refl, s)
    | inl t ↦ elim (Bool-cases (is_direct d j)) [
      | inl direct ↦
          alike e j (λ x. (x, d.glob j)) (λ x. rw (t, direct, compute_matches) refl) (refl, s)
      | inr walk ↦
          let (same, sound) = files_under-once e (d.base j) s in
          alike e j (λ x. walked d j (files_under d x (d.base j)))
            (λ x. rw (t, walk, compute_matches) refl)
            (walked-Agrees j (files_under d e (d.base j)) (files_under d new_expander (d.base j))
              same sound)
    ]
  ]

  remember-Sound :
      (j : Str) (r : Expander × Option (List Str))
      → r.1 ≡ match_once j
      → Sound r.0
      → Agrees (remember d j r) (match_once j)
  unfolding remember
  remember-Sound j (e, none) h s = (h, s)
  remember-Sound j (e, some ms) h s = (
    h,
    record {
      of_cache = insert-Entries match_once e.cache j ms s.of_cache (sym h);
      of_base = s.of_base;
    },
  )

  match_pattern-once :
      (e : Expander) (j : Str) → Sound e → Agrees (match_pattern d e j) (match_once j)
  unfolding match_pattern
  match_pattern-once e j s = elim (Option-cases (lookup j e.cache)) [
    | inr (ms, h) ↦ rw (h, match_pattern) (sym (s.of_cache j ms h), s)
    | inl h ↦
        let (same, sound) = compute_matches-once e j s in
        rw (h, match_pattern) (remember-Sound j (compute_matches d e j) same sound)
  ]

  -- The loop without caches.
  each_once : Str → List Str → List Str → Expansion
  unfolding add_seen escapes_root
  each_once dir seen [] = ok seen
  each_once dir seen (p ∷ ps) = elim (escapes_root (join dir p)) [
    | true ↦ err (escapes p)
    | false ↦ elim (match_once (join dir p)) [
      | none ↦ err (failing p)
      | some ms ↦ each_once dir (add_seen seen ms) ps
    ]
  ]

  expand_each-once :
      (e : Expander) (dir : Str) (seen ps : List Str)
      → Sound e
      → Agrees (expand_each d e dir seen ps) (each_once dir seen ps)
  unfolding expand_each each_once
  expand_each-once e dir seen [] s = (refl, s)
  expand_each-once e dir seen (p ∷ ps) s = elim (Bool-cases (escapes_root (join dir p))) [
    | inl out ↦ rw (out, expand_each, each_once) (refl, s)
    | inr within ↦
        let (same, sound) = match_pattern-once e (join dir p) s in
        elim (Option-cases (match_once (join dir p))) [
          | inl bad ↦
              let found : (match_pattern d e (join dir p)).1 ≡ none = same ∙ bad in
              rw (within, bad, found, expand_each, each_once) (refl, sound)
          | inr (ms, good) ↦
              let found : (match_pattern d e (join dir p)).1 ≡ some ms = same ∙ good in
              rw (within, good, found, expand_each, each_once)
                (expand_each-once (match_pattern d e (join dir p)).0 dir (add_seen seen ms) ps
                  sound)
        ]
  ]

  -- An Expander whose caches hold what expanders with empty caches find gives what the Expand of the
  -- package gives, the errors included, and its caches stay such.
  pub expand-expand_once :
      (e : Expander) (dir : Str) (ps : List Str)
      → Sound e
      → ((expand d e dir ps).1 ≡ expand_once d dir ps) × Sound (expand d e dir ps).0
  unfolding expand expand_once
  expand-expand_once e dir ps s =
      let (same, sound) = expand_each-once e dir [] ps s in
      let (empty, _) = expand_each-once new_expander dir [] ps new_expander-Sound in
      (ap sorted (same ∙ sym empty), sound)
