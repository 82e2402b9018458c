-- ===== src/Runner/Tools.antt =====
-- Deferred tools: tool_depends.go, and reloadDeferredConsumers in runner.go. One task at a time: the
-- attempts of concurrent consumers are one after the other.
pub mod Untouched
use sloff.Prelude.{
  Bool, List, Map, Option, Str, Str_Eq, [], contains, false, if◌then◌else◌, insert, lookup, nat_Eq,
  nat_eq, none, some, true, ℕ, ◌++◌, ◌-◌, ◌∷◌,
}
use sloff.Spec.Defs.{Command}
use sloff.Depgraph.{TaskRef, TaskRef_Eq, Task, ref}
use sloff.Fingerprint.Defs.{Key, Key_Eq, Record, ResolvedVersion}
use sloff.Fingerprint.Cached.{Result, failed}
use sloff.Hash.{cmd, resolved_versions, input}
use sloff.Hash.FileCache.{Read, ok, not_exist, unreadable, cached_files}
use sloff.Runner.Defs.{
  resolved, unresolved, cancelled, Env, TaskInfo, DeferredTool, LogLine, tool_resolved,
  reload_failed, State, TaskError, tool_failed, tool_cancelled,
}
use sloff.Runner.Inputs.{merge_inputs, input_surface, version_strings}

abbrev pub note : {W S : Type 0} → LogLine → State W S → State W S
note line s = record s { log = s.log ++ line ∷ [] }

-- One tool's part of resolvedInputSurface; the maps give nil for a missing name.
pub tool_inputs : {W S : Type 0} → State W S → Str → List Str
tool_inputs s name = elim (lookup name s.deferred_tools) [
  | some dt ↦ dt.inputs
  | none ↦ elim (lookup name s.inputs_by_tool) [ some v ↦ v | none ↦ [] ]
]

pub tool_versions : {W S : Type 0} → State W S → Str → List ResolvedVersion
tool_versions s name = elim (lookup name s.deferred_tools) [
  | some dt ↦ dt.versions
  | none ↦ elim (lookup name s.versions_by_tool) [ some v ↦ v | none ↦ [] ]
]

pub concat_map : {A B : Type 0} → (A → List B) → List A → List B
concat_map f [] = []
concat_map f (x ∷ xs) = f x ++ concat_map f xs

unfoldable pub resolved_input_surface :
    {W S : Type 0} → State W S → TaskInfo → List Str × List ResolvedVersion
unfolding tool_inputs tool_versions concat_map merge_inputs
resolved_input_surface s info = (
  merge_inputs info.declared_inputs (concat_map (tool_inputs s) info.command.tools),
  concat_map (tool_versions s) info.command.tools,
)

module _ {W S : Type 0} (env : Env W S) where
  -- The key under which a task with these inputs and versions is stored.
  unfoldable pub key_for : W → Task → Command → List Str → List ResolvedVersion → Read Key
  unfolding cached_files cmd resolved_versions input version_strings
  key_for w t c paths versions = elim (cached_files env.sha256 (env.digest w) paths) [
    | not_exist ↦ not_exist
    | unreadable ↦ unreadable
    | ok files_hash ↦ ok (record {
      spec_relpath = t.spec_relpath;
      task_id = t.name;
      input_hash =
          input env.sha256 files_hash (cmd env.sha256 c.cmd)
            (resolved_versions env.sha256 (version_strings versions));
    })
  ]

  -- The part of reloadDeferredConsumers under deferredConsumersMu: the counters of the consumers of
  -- the tool go down; those that reach 0 leave the map and are ready.
  unfoldable pub count_down :
      State W S → Str → List (TaskRef × (ℕ × Task)) → List Task × List (TaskRef × (ℕ × Task))
  count_down s tool [] = ([], [])
  count_down s tool ((r, (n, t)) ∷ rest) =
      let (ready, waiting) = count_down s tool rest in
      let uses : Bool = elim (lookup r s.by_key) [
        | some info ↦ contains info.command.tools tool
        | none ↦ false
      ] in
      if uses
      then (if nat_eq (n - 1) 0 then (t ∷ ready, waiting) else (ready, (r, (n - 1, t)) ∷ waiting))
      else (ready, (r, (n, t)) ∷ waiting)

  unfoldable pub ready_keys : State W S → List Task → List Key
  unfolding resolved_input_surface key_for
  ready_keys s [] = []
  ready_keys s (t ∷ ts) =
      let rest = ready_keys s ts in
      elim (lookup (ref t) s.by_key) [
        | none ↦ rest
        | some info ↦
            let (paths, versions) = resolved_input_surface s info in
            elim (key_for s.world t info.command paths versions) [ ok k ↦ k ∷ rest | _ ↦ rest ]
      ]

  -- Every key asked for is marked, and what was found is merged in.
  unfoldable pub merge_loaded : List Key → Map Key Record → Map Key Record → Map Key Record
  merge_loaded [] loaded m = m
  merge_loaded (k ∷ ks) loaded m =
      merge_loaded ks loaded (elim (lookup k loaded) [ some r ↦ insert k r m | none ↦ m ])

  unfoldable pub reload_deferred_consumers : Str → State W S → State W S
  unfolding count_down ready_keys merge_loaded
  reload_deferred_consumers tool s =
      let (ready, waiting) = count_down s tool s.deferred_consumers in
      let s1 = record s { deferred_consumers = waiting } in
      elim (ready_keys s1 ready) [
        | [] ↦ s1
        | k ∷ ks ↦
            let (st, res) = env.store.load_many s1.storage (k ∷ ks) in
            elim res [
              | failed ↦ note (reload_failed tool) (record s1 { storage = st })
              | Result.ok loaded ↦ record s1 {
                storage = st;
                prefetched = merge_loaded (k ∷ ks) loaded s1.prefetched;
                prefetched_keys = (k ∷ ks) ++ s1.prefetched_keys;
              }
            ]
      ]

  -- deferredTool.resolve; the result says why it failed. A cancelled attempt leaves nothing latched.
  unfoldable pub resolve : Str → DeferredTool → State W S → State W S × Option TaskError
  unfolding reload_deferred_consumers
  resolve name dt s = elim dt.done [
    | some true ↦ (s, none)
    | some false ↦ (s, some (tool_failed name))
    | none ↦ elim (env.resolve_contrib s.world name) [
      | cancelled ↦ (s, some (tool_cancelled name))
      | unresolved ↦
          let latched : DeferredTool = record { done = some false; inputs = []; versions = [] } in
          (
            record s { deferred_tools = insert name latched s.deferred_tools },
            some (tool_failed name),
          )
      | resolved ins vs ↦
          let stored : DeferredTool = record { done = none; inputs = ins; versions = vs } in
          let latched : DeferredTool = record { done = some true; inputs = ins; versions = vs } in
          let s1 =
            note (tool_resolved name)
              (record s { deferred_tools = insert name stored s.deferred_tools }) in
          let s2 = reload_deferred_consumers name s1 in
          (record s2 { deferred_tools = insert name latched s2.deferred_tools }, none)
    ]
  ]

  -- The first loop of ensureToolsResolved; the Boolean is deferredUsed.
  unfoldable pub resolve_tools : List Str → State W S → State W S × (Bool × Option TaskError)
  unfolding resolve
  resolve_tools [] s = (s, (false, none))
  resolve_tools (name ∷ names) s = elim (lookup name s.deferred_tools) [
    | none ↦ resolve_tools names s
    | some dt ↦
        let (s1, e) = resolve name dt s in
        let (s2, (_, e2)) = resolve_tools names s1 in
        elim e [ some bad ↦ (s1, (true, some bad)) | none ↦ (s2, (true, e2)) ]
  ]

  -- What ensureToolsResolved writes into the task's info.
  unfoldable pub rebuilt : State W S → TaskInfo → TaskInfo
  unfolding resolved_input_surface input_surface
  rebuilt s info =
      let (merged, vs) = resolved_input_surface s info in
      let (set, joined) = input_surface info.spec_relpath info.command.inputs merged in
      record info {
        input_paths = merged;
        versions = vs;
        input_set = set;
        joined_input_patterns = joined;
        input_surface_authoritative = true;
      }

  unfoldable pub ensure_tools_resolved : Task → TaskInfo → State W S → State W S × Option TaskError
  unfolding resolve_tools rebuilt
  ensure_tools_resolved t info s =
      let (s1, (used, e)) = resolve_tools info.command.tools s in
      elim e [
        | some bad ↦ (s1, some bad)
        | none ↦
            if used
            then (record s1 { by_key = insert (ref t) (rebuilt s1 info) s1.by_key }, none)
            else (s1, none)
      ]
