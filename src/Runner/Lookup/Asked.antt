-- ===== src/Runner/Lookup/Asked.antt =====
-- What a prefetch spares the lookups of the run.
use sloff.Prelude.{
  All, Bool-cases, In, In-contains, List, Option-cases, Str, Str_Eq, [], ap, false, inl, inr,
  lookup, nat_Eq, nat_eq, none, refl, some, subst, sym, ◌∙◌, ◌∷◌, ◌≡◌, ◌⊎◌,
}
use sloff.Depgraph.{TaskRef_Eq, Task, ref}
use sloff.Fingerprint.Defs.{Key, Key_Eq}
use sloff.Fingerprint.Cached.{Result, failed, Result-cases}
use sloff.Hash.FileCache.{Read, ok, not_exist, unreadable}
use sloff.Runner.Defs.{Env, TaskInfo, State}
use sloff.Runner.Lookup.{
  pending_tools, optimistic_key, split_deferred, asked_keys, prefetch_fingerprints, lookup_record,
}
use sloff.Runner.Lookup.Prefetched.{Faithful, prefetch-Truthful}

-- None of the tools is deferred.
abbrev pub NoneDeferred : {W S : Type 0} → State W S → List Str → Type 0
NoneDeferred s names = All (λ n. lookup n s.deferred_tools ≡ none) names

pending_tools-zero :
    {W S : Type 0} (s : State W S) (names : List Str)
    → NoneDeferred s names
    → pending_tools s names ≡ 0
unfolding pending_tools
pending_tools-zero s [] h = refl
pending_tools-zero s (n ∷ names) (here, later) =
    rw (here, pending_tools) (pending_tools-zero s names later)

Read-cases : {A : Type 0} (x : Read A) → (x ≡ unreadable) ⊎ (x ≡ not_exist) ⊎ ((a : A) × (x ≡ ok a))
Read-cases unreadable = inl refl
Read-cases not_exist = inr (inl refl)
Read-cases (ok a) = inr (inr (a, refl))

module _ {W S : Type 0} (env : Env W S) where
  -- A task that is no barrier and has no deferred tool is asked for.
  In-split_deferred :
      (s : State W S) (ts : List Task) (t : Task) (info : TaskInfo)
      → In t ts
      → t.barrier ≡ false
      → lookup (ref t) s.by_key ≡ some info
      → NoneDeferred s info.command.tools
      → In t (split_deferred env s ts).0
  unfolding split_deferred
  In-split_deferred s [] t info m b e n = absurd m
  In-split_deferred s (u ∷ ts) t info (inl same) b e n =
      let b' : u.barrier ≡ false = ap (λ (x : Task). x.barrier) (sym same) ∙ b in
      let e' : lookup (ref u) s.by_key ≡ some info =
        ap (λ (x : Task). lookup (ref x) s.by_key) (sym same) ∙ e in
      simp (b', e', pending_tools-zero s info.command.tools n, split_deferred) (inl same)
  In-split_deferred s (u ∷ ts) t info (inr later) b e n =
      let rest = In-split_deferred s ts t info later b e n in
      elim (Bool-cases u.barrier) [
        | inl x ↦ rw (x, split_deferred) rest
        | inr x ↦ elim (Option-cases (lookup (ref u) s.by_key)) [
          | inl y ↦ rw (x, y, split_deferred) (inr rest)
          | inr (i, y) ↦ elim (Bool-cases (nat_eq (pending_tools s i.command.tools) 0)) [
            | inl z ↦ rw (x, y, z, split_deferred) (inr rest)
            | inr z ↦ rw (x, y, z, split_deferred) rest
          ]
        ]
      ]

  In-asked_keys :
      (s : State W S) (ts : List Task) (ks : List Key) (t : Task) (k : Key)
      → asked_keys env s ts ≡ Result.ok ks
      → In t ts
      → optimistic_key env s t ≡ ok k
      → In k ks
  unfolding asked_keys
  In-asked_keys s [] ks t k h m e = absurd m
  In-asked_keys s (u ∷ ts) ks t k h m e = elim (Read-cases (optimistic_key env s u)) [
    | inl x ↦ let bad : failed ≡ Result.ok ks = rw (x, asked_keys) at h in cc
    | inr (inl x) ↦ elim m [
      | inl same ↦
          let bad : ok k ≡ not_exist = sym e ∙ ap (optimistic_key env s) same ∙ x in absurd (cc)
      | inr later ↦ In-asked_keys s ts ks t k (rw (x, asked_keys) at h) later e
    ]
    | inr (inr (j, x)) ↦ elim (Result-cases (asked_keys env s ts)) [
      | inl y ↦ let bad : failed ≡ Result.ok ks = rw (x, y, asked_keys) at h in cc
      | inr (rest, y) ↦
          let all_of : Result.ok (j ∷ rest) ≡ Result.ok ks = rw (x, y, asked_keys) at h in
          let whole : j ∷ rest ≡ ks = cc in
          subst (In k) whole (elim m [
            | inl same ↦
                let both : ok k ≡ ok j = sym e ∙ ap (optimistic_key env s) same ∙ x in inl (cc)
            | inr later ↦ inr (In-asked_keys s ts rest t k y later e)
          ])
    ]
  ]

  prefetched-In :
      (ordered : List Task) (s : State W S) (t : Task) (info : TaskInfo) (k : Key)
      → (prefetch_fingerprints env ordered s).1 ≡ Result.ok tt
      → In t ordered
      → t.barrier ≡ false
      → lookup (ref t) s.by_key ≡ some info
      → NoneDeferred s info.command.tools
      → optimistic_key env s t ≡ ok k
      → In k (prefetch_fingerprints env ordered s).0.prefetched_keys
  unfolding prefetch_fingerprints
  prefetched-In ordered s t info k h m b e n at = go (asked_keys env s1 real) refl
    where
      real : List Task
      real = (split_deferred env s ordered).0

      s1 : State W S
      s1 = record s { deferred_consumers = (split_deferred env s ordered).1 }

      asked : (ks : List Key) → asked_keys env s1 real ≡ Result.ok ks → In k ks
      asked ks q = In-asked_keys s1 real ks t k q (In-split_deferred s ordered t info m b e n) at

      go :
          (r : Result (List Key))
          → asked_keys env s1 real ≡ r
          → In k (prefetch_fingerprints env ordered s).0.prefetched_keys
      go failed q = let bad : failed ≡ Result.ok (tt {0}) = rw (q, prefetch_fingerprints) at h in cc
      go (Result.ok []) q = absurd (asked [] q)
      go (Result.ok (j ∷ js)) q = elim (Result-cases (env.store.load_many s1.storage (j ∷ js)).1) [
        | inl l ↦
            let bad : failed ≡ Result.ok (tt {0}) = rw (q, l, prefetch_fingerprints) at h in cc
        | inr (loaded, l) ↦ rw (q, l, prefetch_fingerprints) (asked (j ∷ js) q)
      ]

  -- After a prefetch that succeeds, the lookup of the key of each task that is no barrier and has no
  -- deferred tool succeeds, changes nothing, and so asks the backend for nothing, and gives what the
  -- backend holds.
  pub lookup_record-prefetch :
      (b : Faithful env.store) (ordered : List Task) (s : State W S) (t : Task) (info : TaskInfo)
      (k : Key)
      → (prefetch_fingerprints env ordered s).1 ≡ Result.ok tt
      → In t ordered
      → t.barrier ≡ false
      → lookup (ref t) s.by_key ≡ some info
      → NoneDeferred s info.command.tools
      → optimistic_key env s t ≡ ok k
      → let after = (prefetch_fingerprints env ordered s).0 in
        lookup_record env k after ≡ (after, Result.ok (b.view after.storage k))
  unfolding lookup_record
  lookup_record-prefetch b ordered s t info k h m x e n at =
      let after = (prefetch_fingerprints env ordered s).0 in
      let known = prefetched-In ordered s t info k h m x e n at in
      let told = (prefetch-Truthful env b ordered s h).0 k known in
      elim (Option-cases (lookup k after.prefetched)) [
        | inr (r, found) ↦
            rw (found, lookup_record) (ap (λ o. (after, Result.ok o)) (sym found ∙ told))
        | inl absent ↦
            rw (absent, In-contains after.prefetched_keys k known, lookup_record)
              (ap (λ o. (after, Result.ok o)) (sym absent ∙ told))
      ]
