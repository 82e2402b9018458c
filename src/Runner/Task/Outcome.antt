-- ===== src/Runner/Task/Outcome.antt =====
-- What a task leaves in the queue of records.
use sloff.Prelude.{
  Bool, Bool-cases, List, Map, Option, Str, Str_Eq, [], ap, false, if◌then◌else◌, inl, inr, lookup,
  map, nat_Eq, none, refl, some, subst, sym, true, ◌++◌, ◌∙◌, ◌∷◌, ◌≡◌, ◌⊎◌,
}
use sloff.Depgraph.{TaskRef_Eq, Task, ref}
use sloff.Fingerprint.Defs.{Key, Record, file_paths}
use sloff.Hash.FileCache.{
  Read, ok, not_exist, unreadable, compute_digests, fold_digests, entries, cached_files,
  files_and_digests,
}
use sloff.Hash.FileCache.Same.{as_option, Digested, compute-cases}
use sloff.Runner.Defs.{
  Env, TaskInfo, DeferredTool, State, TaskError, run, skip, no_info, hash_inputs, load_record,
  expand_outputs, no_outputs,
}
use sloff.Runner.Tools.{note, ensure_tools_resolved}
use sloff.Runner.Lookup.{
  LookupResult, hit, stale, not_found, load_failed, fingerprint_lookup, fingerprint_store,
}
use sloff.Runner.Lookup.Transparent.{fingerprint_lookup-Untouched}
use sloff.Runner.Tools.Untouched.{ensure-Untouched}
use sloff.Runner.Task.{
  outputs_equivalent, exec_line, exec_cmd, resolve_outputs, register, new_record, store_unless_same,
  finish, rerun, decide, task_key, hashed, run_task,
}

entries-paths :
    (digest : Str → Read Str) (ps ds : List Str)
    → Digested digest ps ds
    → file_paths (map (λ (e : Str × Str). record { path = e.0; hash = e.1 }) (entries ps ds)) ≡ ps
unfolding entries file_paths
entries-paths digest [] [] v = refl
entries-paths digest (p ∷ ps) (d ∷ ds) v = ap (λ l. p ∷ l) (entries-paths digest ps ds v.1)
entries-paths digest [] (d ∷ ds) v = absurd v
entries-paths digest (p ∷ ps) [] v = absurd v

pair_of : {A B : Type 0} (d : A × B) → Read (A × B) → A × B
pair_of d (ok p) = p
pair_of d not_exist = d
pair_of d unreadable = d

ok_first :
    {A B : Type 0} (a c : A) (b d : B) → ◌≡◌ {A = Read (A × B)} (ok (a, b)) (ok (c, d)) → a ≡ c
unfolding pair_of
ok_first a c b d e = ap (λ r. (pair_of (a, b) r).0) e

ok_second :
    {A B : Type 0} (a c : A) (b d : B) → ◌≡◌ {A = Read (A × B)} (ok (a, b)) (ok (c, d)) → b ≡ d
unfolding pair_of
ok_second a c b d e = ap (λ r. (pair_of (a, b) r).1) e

-- What FilesAndDigests says of some paths, Files says of the paths of its entries.
files_and_digests-again :
    (sha256 : Str → Str) (digest : Str → Read Str) (paths : List Str) (h : Str)
    (es : List (Str × Str))
    → files_and_digests sha256 digest paths ≡ ok (h, es)
    → cached_files sha256 digest
        (file_paths (map (λ (e : Str × Str). record { path = e.0; hash = e.1 }) es))
      ≡ ok h
unfolding files_and_digests cached_files
files_and_digests-again sha256 digest paths h es e = go (compute_digests digest paths) refl
  where
    of_entries : List (Str × Str) → List Str
    of_entries l = file_paths (map (λ (x : Str × Str). record { path = x.0; hash = x.1 }) l)

    digested : (ds : List Str) → compute_digests digest paths ≡ ok ds → Digested digest paths ds
    digested ds c = elim (compute-cases digest paths) [
      | inl (ds', c', each) ↦
          let same : ok ds' ≡ ok ds = sym c' ∙ c in
          let eq : ds' ≡ ds = cc in subst (Digested digest paths) eq each
      | inr (bad, _) ↦
          let wrong : as_option (ok ds) ≡ none = subst (λ r. as_option r ≡ none) c bad in cc
    ]

    folded :
        (ds : List Str)
        → compute_digests digest paths ≡ ok ds
        → (o : Option Str) → fold_digests sha256 paths ds ≡ o
        → cached_files sha256 digest (of_entries es) ≡ ok h
    folded ds c none f =
        let bad : ◌≡◌ {A = Read (Str × List (Str × Str))} unreadable (ok (h, es)) =
          rw (c, files_and_digests, f) at e in
        cc
    folded ds c (some x) f =
        let found : ◌≡◌ {A = Read (Str × List (Str × Str))} (ok (x, entries paths ds))
            (ok (h, es)) =
          rw (c, files_and_digests, f) at e in
        let same : x ≡ h = ok_first x h _ _ found in
        let listed : of_entries es ≡ paths =
          ap of_entries (sym (ok_second x h _ _ found))
          ∙ entries-paths digest paths ds (digested ds c) in
        rw listed (rw (c, cached_files, f) (ap ok same))

    go :
        (r : Read (List Str))
        → compute_digests digest paths ≡ r
        → cached_files sha256 digest (of_entries es) ≡ ok h
    go not_exist c =
        let bad : ◌≡◌ {A = Read (Str × List (Str × Str))} not_exist (ok (h, es)) =
          rw (c, files_and_digests) at e in
        cc
    go unreadable c =
        let bad : ◌≡◌ {A = Read (Str × List (Str × Str))} unreadable (ok (h, es)) =
          rw (c, files_and_digests) at e in
        cc
    go (ok ds) c = folded ds c (fold_digests sha256 paths ds) refl

module _ {W S : Type 0} (env : Env W S) where
  -- A record that tells what a task wrote: its outputs hash to what it says, in the world `w`.
  pub record Valid (w : W) (t : Task) (key : Key) (rec : Record) : Type 0 where
    pub dir_matches : key.spec_relpath ≡ t.spec_relpath
    pub name_matches : key.task_id ≡ t.name
    pub input_matches : rec.input.hash ≡ key.input_hash
    pub outputs_match :
        cached_files env.sha256 (env.digest w) (file_paths rec.output.files) ≡ ok rec.output.hash

  -- Either nothing was queued, or the task succeeded, may write, and queued one valid record.
  abbrev pub Queued : Task → State W S → State W S → Option TaskError → Type 0
  Queued t s s' e =
      (s'.pending ≡ s.pending)
      ⊎ ((key : Key) × (rec : Record) × (s'.pending ≡ s.pending ++ (key, rec) ∷ [])
          × (e ≡ none)
          × (env.read_only ≡ false)
          × Valid s'.world t key rec)

  abbrev QueuedBy : Task → State W S → State W S × Option TaskError → Type 0
  QueuedBy t s p = Queued t s p.0 p.1

  from :
      (t : Task) (s s' : State W S) (p : State W S × Option TaskError)
      → s'.pending ≡ s.pending
      → QueuedBy t s' p
      → QueuedBy t s p
  from t s s' p same q =
      subst
        (λ l.
          (p.0.pending ≡ l)
          ⊎ ((key : Key) × (rec : Record) × (p.0.pending ≡ l ++ (key, rec) ∷ [])
              × (p.1 ≡ none)
              × (env.read_only ≡ false)
              × Valid p.0.world t key rec))
        same q

  store-Queued :
      (t : Task) (existing : Option Record) (key : Key) (rec : Record) (s : State W S)
      → env.read_only ≡ false
      → Valid s.world t key rec
      → QueuedBy t s (store_unless_same env existing key rec s, none)
  unfolding store_unless_same fingerprint_store
  store-Queued t none key rec s w v = inr (key, rec, refl, refl, w, v)
  store-Queued t (some old) key rec s w v =
      elim (Bool-cases (outputs_equivalent old.output rec.output)) [
        | inl t ↦ inl (rw (t, store_unless_same) refl)
        | inr f ↦ rw (f, store_unless_same) (inr (key, rec, refl, refl, w, v))
      ]

  finish-Queued :
      (t : Task) (info : TaskInfo) (existing : Option Record) (key : Key) (h : Str)
      (paths : List Str) (s : State W S)
      → key.spec_relpath ≡ t.spec_relpath
      → key.task_id ≡ t.name
      → QueuedBy t s (finish env (ref t) info existing key h paths s)
  unfolding finish new_record
  finish-Queued t info existing key h paths s d n =
      go (files_and_digests env.sha256 (env.digest s.world) paths) refl
    where
      go :
          (r : Read (Str × List (Str × Str)))
          → files_and_digests env.sha256 (env.digest s.world) paths ≡ r
          → QueuedBy t s (finish env (ref t) info existing key h paths s)
      go not_exist e = inl (rw (e, finish) refl)
      go unreadable e = inl (rw (e, finish) refl)
      go (ok (out, ds)) e = elim (Bool-cases env.read_only) [
        | inl only ↦ inl (rw (e, finish, only) refl)
        | inr may ↦
            let rec = new_record env info key.input_hash h out ds in
            let left : finish env (ref t) info existing key h paths s
                ≡ (store_unless_same env existing key rec s, none) =
              rw (e, finish, may) refl in
            subst (QueuedBy t s) (sym left) (
              store-Queued t existing key rec s may (record {
                dir_matches = d;
                name_matches = n;
                input_matches = refl;
                outputs_match =
                    files_and_digests-again env.sha256 (env.digest s.world) paths out ds e;
              }))
      ]

  exec_line-pending :
      (c : List Str) (dir : Str) (s : State W S) → (exec_line env c dir s).0.pending ≡ s.pending
  unfolding exec_line
  exec_line-pending [] dir s = refl
  exec_line-pending (c ∷ cs) dir s = refl

  exec_cmd-pending : (info : TaskInfo) (s : State W S) → (exec_cmd env info s).0.pending ≡ s.pending
  unfolding exec_cmd
  exec_cmd-pending info s = exec_line-pending info.command.cmd info.spec_relpath s

  -- The end of rerun, with what the patterns of the outputs matched.
  after_exec :
      Task
      → TaskInfo
      → Option Record
      → Key
      → Str
      → State W S
      → Option (List Str)
      → State W S × Option TaskError
  after_exec t info existing key h s o = elim o [
    | none ↦ (s, some expand_outputs)
    | some [] ↦ (s, some no_outputs)
    | some (p ∷ ps) ↦
        let (s2, e2) = register env (ref t) (p ∷ ps) s in
        elim e2 [
          | some bad ↦ (s2, some bad)
          | none ↦ finish env (ref t) info existing key h (p ∷ ps) s2
        ]
  ]

  rerun-Queued :
      (t : Task) (info : TaskInfo) (existing : Option Record) (key : Key) (h : Str) (s : State W S)
      → key.spec_relpath ≡ t.spec_relpath
      → key.task_id ≡ t.name
      → QueuedBy t s (rerun env (ref t) info existing key h s)
  unfolding rerun after_exec register
  rerun-Queued t info existing key h s d n = ended ran.1
    where
      ran : State W S × Option TaskError
      ran = exec_cmd env info (note (run (ref t)) s)

      same : ran.0.pending ≡ s.pending
      same = exec_cmd-pending info (note (run (ref t)) s)

      registered :
          (p : Str) (ps : List Str) (e : Option TaskError)
          → QueuedBy t s (elim e [
            | some bad ↦ ((register env (ref t) (p ∷ ps) ran.0).0, some bad)
            | none ↦
                finish env
                  (ref t)
                  info
                  existing
                  key
                  h
                  (p ∷ ps)
                  (register env (ref t) (p ∷ ps) ran.0).0
          ])
      registered p ps (some bad) = inl same
      registered p ps none =
          from t s (register env (ref t) (p ∷ ps) ran.0).0
            (finish env (ref t) info existing key h (p ∷ ps)
              (register env (ref t) (p ∷ ps) ran.0).0)
            same
            (finish-Queued t info existing key h (p ∷ ps) (register env (ref t) (p ∷ ps) ran.0).0 d
              n)

      resolved : (o : Option (List Str)) → QueuedBy t s (after_exec t info existing key h ran.0 o)
      resolved none = inl same
      resolved (some []) = inl same
      resolved (some (p ∷ ps)) = registered p ps (register env (ref t) (p ∷ ps) ran.0).1

      ended :
          (e : Option TaskError)
          → QueuedBy t s (elim e [
            | some bad ↦ (ran.0, some bad)
            | none ↦ after_exec t info existing key h ran.0 (resolve_outputs env info ran.0.world)
          ])
      ended (some bad) = inl same
      ended none = resolved (resolve_outputs env info ran.0.world)

  lookup-pending : (k : Key) (s : State W S) → (fingerprint_lookup env k s).0.pending ≡ s.pending
  lookup-pending k s = (fingerprint_lookup-Untouched env k s).1

  decide-Queued :
      (t : Task) (info : TaskInfo) (key : Key) (h : Str) (s : State W S)
      → key.spec_relpath ≡ t.spec_relpath
      → key.task_id ≡ t.name
      → QueuedBy t s (decide env (ref t) info key h s)
  unfolding decide register
  decide-Queued t info key h s d n = go (fingerprint_lookup env key s).1
    where
      s1 : State W S
      s1 = (fingerprint_lookup env key s).0

      again : (o : Option Record) → QueuedBy t s (rerun env (ref t) info o key h s1)
      again o =
          from t s s1 (rerun env (ref t) info o key h s1) (lookup-pending key s)
            (rerun-Queued t info o key h s1 d n)

      kept :
          (old : Record) (paths : List Str) (e : Option TaskError)
          → QueuedBy t s (elim e [
            | some bad ↦ ((register env (ref t) paths s1).0, some bad)
            | none ↦ (note (skip (ref t)) (register env (ref t) paths s1).0, none)
          ])
      kept old paths (some bad) = inl (lookup-pending key s)
      kept old paths none = inl (lookup-pending key s)

      go :
          (found : LookupResult)
          → QueuedBy t s (elim found [
            | load_failed ↦ (s1, some load_record)
            | not_found ↦ rerun env (ref t) info none key h s1
            | stale old ↦ rerun env (ref t) info (some old) key h s1
            | hit old paths ↦
                let (s2, e) = register env (ref t) paths s1 in
                let anew = rerun env (ref t) info (some old) key h s1 in
                if env.force
                then anew
                else elim e [ some bad ↦ (s2, some bad) | none ↦ (note (skip (ref t)) s2, none) ]
          ])
      go load_failed = inl (lookup-pending key s)
      go not_found = again none
      go (stale old) = again (some old)
      go (hit old paths) = choose env.force
        where
          choose :
              (b : Bool)
              → QueuedBy t s (
                  if b
                  then rerun env (ref t) info (some old) key h s1
                  else (elim (register env (ref t) paths s1).1 [
                    | some bad ↦ ((register env (ref t) paths s1).0, some bad)
                    | none ↦ (note (skip (ref t)) (register env (ref t) paths s1).0, none)
                  ]))
          choose true = again (some old)
          choose false = kept old paths (register env (ref t) paths s1).1

  hashed-Queued : (t : Task) (s : State W S) → QueuedBy t s (hashed env t s)
  unfolding hashed task_key
  hashed-Queued t s = found (lookup (ref t) s.by_key)
    where
      read :
          (info : TaskInfo) (r : Read Str)
          → QueuedBy t s (elim r [
            | ok h ↦ decide env (ref t) info (task_key env t info h) h s
            | _ ↦ (s, some hash_inputs)
          ])
      read info (ok h) = decide-Queued t info (task_key env t info h) h s refl refl
      read info not_exist = inl refl
      read info unreadable = inl refl

      found :
          (o : Option TaskInfo)
          → QueuedBy t s (elim o [
            | none ↦ (s, some no_info)
            | some info ↦ elim (cached_files env.sha256 (env.digest s.world) info.input_paths) [
              | ok h ↦ decide env (ref t) info (task_key env t info h) h s
              | _ ↦ (s, some hash_inputs)
            ]
          ])
      found none = inl refl
      found (some info) = read info (cached_files env.sha256 (env.digest s.world) info.input_paths)

  -- runTask after ensureToolsResolved.
  with_tools :
      Task
      → State W S
      → State W S × Option TaskError
      → Map Str DeferredTool
      → State W S × Option TaskError
  with_tools t s p deferred = elim deferred [
    | [] ↦ hashed env t s
    | _ ↦ elim p.1 [ some bad ↦ (p.0, some bad) | none ↦ hashed env t p.0 ]
  ]

  with_tools-Queued :
      (t : Task) (s : State W S) (p : State W S × Option TaskError)
      (deferred : Map Str DeferredTool)
      → p.0.pending ≡ s.pending
      → QueuedBy t s (with_tools t s p deferred)
  unfolding with_tools
  with_tools-Queued t s p [] same = hashed-Queued t s
  with_tools-Queued t s (s1, some bad) (d ∷ ds) same = inl same
  with_tools-Queued t s (s1, none) (d ∷ ds) same =
      from t s s1 (hashed env t s1) same (hashed-Queued t s1)

  -- runTask leaves the queue of records alone, or it succeeds outside the read-only mode and queues
  -- one record, under a key of the task, whose input hash is that of the key and whose output hash is
  -- what the files that it lists hash to in the working tree that the task leaves.
  pub run_task-Queued :
      (t : Task) (s : State W S) → Queued t s (run_task env t s).0 (run_task env t s).1
  unfolding run_task with_tools
  run_task-Queued t s = found (lookup (ref t) s.by_key) refl
    where
      found : (o : Option TaskInfo) → lookup (ref t) s.by_key ≡ o → QueuedBy t s (run_task env t s)
      found none e = rw (e, run_task) (inl refl)
      found (some info) e =
          let kept : QueuedBy t s
              (with_tools t s (ensure_tools_resolved env t info s) s.deferred_tools) =
            with_tools-Queued t s (ensure_tools_resolved env t info s) s.deferred_tools
              (ensure-Untouched env t info s).1 in
          rw (e, run_task) kept
