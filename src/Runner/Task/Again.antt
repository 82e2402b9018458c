-- ===== src/Runner/Task/Again.antt =====
-- A record that a task queued serves the next lookup.
use sloff.Prelude.{
  ==_refl, List, Option, Str_Eq, [], ap, arith, inl, inr, length, length-append, lookup, nat_Eq,
  refl, some, str_eq, subst, sym, true, ◌++◌, ◌∙◌, ◌∷◌, ◌≡◌, ◌≢◌,
}
use sloff.Depgraph.{Task}
use sloff.Fingerprint.Defs.{Key, Key_Eq, Record, file_paths}
use sloff.Fingerprint.Cached.{Result}
use sloff.Hash.FileCache.{ok, cached_files}
use sloff.Runner.Defs.{Env, State}
use sloff.Runner.Lookup.{hit, lookup_record, fingerprint_lookup}
use sloff.Runner.Task.{run_task}
use sloff.Runner.Task.Outcome.{Valid, run_task-Queued}

snoc-ne : {A : Type 0} (xs : List A) (x : A) → xs ≢ xs ++ x ∷ []
snoc-ne xs x e =
    let n : length xs ≡ length (xs ++ x ∷ []) = ap length e in
    let m = length-append xs (x ∷ []) in absurd (omega (arith, n, m))

last_or : {A : Type 0} → A → List A → A
last_or d [] = d
last_or d (x ∷ xs) = last_or x xs

last_or-snoc : {A : Type 0} (d : A) (xs : List A) (x : A) → last_or d (xs ++ x ∷ []) ≡ x
unfolding last_or
last_or-snoc d [] x = refl
last_or-snoc d (y ∷ xs) x = last_or-snoc y xs x

snoc-inj : {A : Type 0} (xs : List A) (x y : A) → xs ++ x ∷ [] ≡ xs ++ y ∷ [] → x ≡ y
snoc-inj xs x y e = sym (last_or-snoc x xs x) ∙ ap (last_or x) e ∙ last_or-snoc x xs y

module _ {W S : Type 0} (env : Env W S) where
  -- A lookup that finds a record whose outputs are those of the working tree is a hit.
  prefetched-hit :
      (key : Key) (rec : Record) (s : State W S)
      → lookup key s.prefetched ≡ some rec
      → cached_files env.sha256 (env.digest s.world) (file_paths rec.output.files)
        ≡ ok rec.output.hash
      → (fingerprint_lookup env key s).1 ≡ hit rec (file_paths rec.output.files)
  unfolding fingerprint_lookup lookup_record
  prefetched-hit key rec s found same =
      let equal : str_eq rec.output.hash rec.output.hash ≡ true = ==_refl rec.output.hash in
      let left : lookup_record env key s ≡ (s, Result.ok (some rec)) =
        rw (found, lookup_record) refl in
      let state : (lookup_record env key s).0 ≡ s =
        ap (λ (p : State W S × Result (Option Record)). p.0) left in
      let result : (lookup_record env key s).1 ≡ Result.ok (some rec) =
        ap (λ (p : State W S × Result (Option Record)). p.1) left in
      let there : cached_files env.sha256 (env.digest (lookup_record env key s).0.world)
            (file_paths rec.output.files)
          ≡ ok rec.output.hash =
        subst
          (λ (x : State W S).
            cached_files env.sha256 (env.digest x.world) (file_paths rec.output.files)
            ≡ ok rec.output.hash)
          (sym state) same in
      rw (result, fingerprint_lookup, there, equal) refl

  queued-Valid :
      (t : Task) (s : State W S) (key : Key) (rec : Record)
      → (run_task env t s).0.pending ≡ s.pending ++ (key, rec) ∷ []
      → Valid env (run_task env t s).0.world t key rec
  queued-Valid t s key rec h = elim (run_task-Queued env t s) [
    | inl same ↦ absurd (snoc-ne s.pending (key, rec) (sym same ∙ h))
    | inr (k, r, e, _, _, v) ↦
        let pairs : (k, r) ≡ (key, rec) = snoc-inj s.pending (k, r) (key, rec) (sym e ∙ h) in
        subst (λ (x : Key × Record). Valid env (run_task env t s).0.world t x.0 x.1) pairs v
  ]

  -- If a task queued a record, then a later lookup under the same key, with the record prefetched and
  -- the working tree as the task left it, is a hit with that record and the paths that it lists.
  pub run_task-hit :
      (t : Task) (s : State W S) (key : Key) (rec : Record) (next : State W S)
      → (run_task env t s).0.pending ≡ s.pending ++ (key, rec) ∷ []
      → next.world ≡ (run_task env t s).0.world
      → lookup key next.prefetched ≡ some rec
      → (fingerprint_lookup env key next).1 ≡ hit rec (file_paths rec.output.files)
  run_task-hit t s key rec next h world found =
      let v = queued-Valid t s key rec h in
      prefetched-hit key rec next found (
        subst
          (λ w.
            cached_files env.sha256 (env.digest w) (file_paths rec.output.files)
            ≡ ok rec.output.hash)
          (sym world) v.outputs_match)
