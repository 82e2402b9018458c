-- ===== src/Runner/Tools/Untouched.antt =====
-- Resolving tools and looking records up change neither the working tree nor what the run has
-- queued or produced.
use sloff.Prelude.{
  Bool, List, Map, Option, Str, Str_Eq, [], false, if◌then◌else◌, insert, lookup, nat_Eq, none,
  refl, some, true, ℕ, ◌++◌, ◌∙◌, ◌∷◌, ◌≡◌,
}
use sloff.Depgraph.{TaskRef, TaskRef_Eq, Task, ref}
use sloff.Fingerprint.Defs.{Key, Key_Eq, Record, ResolvedVersion}
use sloff.Fingerprint.Cached.{Result, failed}
use sloff.Runner.Defs.{
  Contribution, resolved, unresolved, cancelled, Env, TaskInfo, DeferredTool, State, TaskError,
  tool_resolved, reload_failed,
}
use sloff.Runner.Tools.{
  note, count_down, ready_keys, merge_loaded, reload_deferred_consumers, resolve, resolve_tools,
  rebuilt, ensure_tools_resolved,
}

module _ {W S : Type 0} where
  abbrev pub Untouched : State W S → State W S → Type 0
  Untouched s s' =
      (s'.world ≡ s.world) × (s'.pending ≡ s.pending) × (s'.produced_by ≡ s.produced_by)

  Untouched-trans : (a b c : State W S) → Untouched a b → Untouched b c → Untouched a c
  Untouched-trans a b c (w, p, q) (w', p', q') = (w' ∙ w, p' ∙ p, q' ∙ q)

  module _ (env : Env W S) where
    reload-Untouched :
        (tool : Str) (s : State W S) → Untouched s (reload_deferred_consumers env tool s)
    unfolding reload_deferred_consumers
    reload-Untouched tool s = go (ready_keys env (record s { deferred_consumers = waiting }) ready)
      where
        ready : List Task
        ready = (count_down env s tool s.deferred_consumers).0

        waiting : List (TaskRef × (ℕ × Task))
        waiting = (count_down env s tool s.deferred_consumers).1

        s1 : State W S
        s1 = record s { deferred_consumers = waiting }

        loaded_or_not :
            (k : Key) (ks : List Key) (st : S) (res : Result (Map Key Record))
            → Untouched s (elim res [
              | failed ↦ note (reload_failed tool) (record s1 { storage = st })
              | Result.ok loaded ↦ record s1 {
                storage = st;
                prefetched = merge_loaded env (k ∷ ks) loaded s1.prefetched;
                prefetched_keys = (k ∷ ks) ++ s1.prefetched_keys;
              }
            ])
        loaded_or_not k ks st failed = (refl, refl, refl)
        loaded_or_not k ks st (Result.ok m) = (refl, refl, refl)

        go :
            (l : List Key)
            → Untouched s (elim l [
              | [] ↦ s1
              | k ∷ ks ↦
                  let (st, res) = env.store.load_many s1.storage (k ∷ ks) in
                  elim res [
                    | failed ↦ note (reload_failed tool) (record s1 { storage = st })
                    | Result.ok loaded ↦ record s1 {
                      storage = st;
                      prefetched = merge_loaded env (k ∷ ks) loaded s1.prefetched;
                      prefetched_keys = (k ∷ ks) ++ s1.prefetched_keys;
                    }
                  ]
            ])
        go [] = (refl, refl, refl)
        go (k ∷ ks) =
            loaded_or_not k ks (env.store.load_many s1.storage (k ∷ ks)).0
              (env.store.load_many s1.storage (k ∷ ks)).1

    resolve-Untouched :
        (name : Str) (dt : DeferredTool) (s : State W S) → Untouched s (resolve env name dt s).0
    unfolding resolve
    resolve-Untouched name dt s = latched dt.done refl
      where
        s1 : List Str → List ResolvedVersion → State W S
        s1 ins vs = note (tool_resolved name) (record s {
          deferred_tools =
              insert name (record { done = none; inputs = ins; versions = vs }) s.deferred_tools;
        })

        tried :
            (c : Contribution)
            → dt.done ≡ none
            → env.resolve_contrib s.world name ≡ c
            → Untouched s (resolve env name dt s).0
        tried cancelled e c = rw (e, resolve, c) (refl, refl, refl)
        tried unresolved e c = rw (e, resolve, c) (refl, refl, refl)
        tried (resolved ins vs) e c =
            let left : Untouched s (reload_deferred_consumers env name (s1 ins vs)) =
              Untouched-trans s (s1 ins vs) (reload_deferred_consumers env name (s1 ins vs))
                (refl, refl, refl) (reload-Untouched name (s1 ins vs)) in
            rw (e, resolve, c) left

        latched : (o : Option Bool) → dt.done ≡ o → Untouched s (resolve env name dt s).0
        latched (some true) e = rw (e, resolve) (refl, refl, refl)
        latched (some false) e = rw (e, resolve) (refl, refl, refl)
        latched none e = tried (env.resolve_contrib s.world name) e refl

    tool_end :
        DeferredTool
        → List Str
        → State W S
        → Str
        → Option TaskError
        → State W S × (Bool × Option TaskError)
    tool_end dt names s name e =
        let s1 = (resolve env name dt s).0 in
        let (s2, (_, e2)) = resolve_tools env names s1 in
        elim e [ some bad ↦ (s1, (true, some bad)) | none ↦ (s2, (true, e2)) ]

    resolve_tools-Untouched :
        (names : List Str) (s : State W S) → Untouched s (resolve_tools env names s).0
    unfolding resolve_tools tool_end
    resolve_tools-Untouched [] s = (refl, refl, refl)
    resolve_tools-Untouched (name ∷ names) s =
        found (λ s'. resolve_tools-Untouched names s') (lookup name s.deferred_tools) refl
      where
        ended :
            ((s' : State W S) → Untouched s' (resolve_tools env names s').0)
            → (dt : DeferredTool) (bad : Option TaskError)
            → Untouched s (tool_end dt names s name bad).0
        ended rest dt (some x) = resolve-Untouched name dt s
        ended rest dt none =
            let s1 = (resolve env name dt s).0 in
            Untouched-trans s s1 (resolve_tools env names s1).0 (resolve-Untouched name dt s)
              (rest s1)

        found :
            ((s' : State W S) → Untouched s' (resolve_tools env names s').0)
            → (o : Option DeferredTool) → lookup name s.deferred_tools ≡ o
            → Untouched s (resolve_tools env (name ∷ names) s).0
        found rest none e = rw (e, resolve_tools) (rest s)
        found rest (some dt) e = rw (e, resolve_tools) (ended rest dt (resolve env name dt s).1)

    -- The end of ensureToolsResolved.
    ensure_end :
        Task → TaskInfo → State W S → Bool → Option TaskError → State W S × Option TaskError
    ensure_end t info s1 used e = elim e [
      | some bad ↦ (s1, some bad)
      | none ↦
          if used
          then (record s1 { by_key = insert (ref t) (rebuilt env s1 info) s1.by_key }, none)
          else (s1, none)
    ]

    pub ensure-Untouched :
        (t : Task) (info : TaskInfo) (s : State W S)
        → Untouched s (ensure_tools_resolved env t info s).0
    unfolding ensure_tools_resolved ensure_end
    ensure-Untouched t info s =
        ended (resolve_tools env info.command.tools s).1.1
          (resolve_tools env info.command.tools s).1.0
      where
        s1 : State W S
        s1 = (resolve_tools env info.command.tools s).0

        ended : (e : Option TaskError) (used : Bool) → Untouched s (ensure_end t info s1 used e).0
        ended (some bad) used = resolve_tools-Untouched info.command.tools s
        ended none true = resolve_tools-Untouched info.command.tools s
        ended none false = resolve_tools-Untouched info.command.tools s
