-- ===== src/Runner/Task.antt =====
-- runTask in runner.go, and what it calls.
pub mod Outcome
pub mod Again
use sloff.Prelude.{
  Bool, List, Map, Option, Str, Str_Eq, [], false, if◌then◌else◌, insert, length, lookup, map,
  nat_Eq, nat_eq, none, not, some, sort, str_eq, str_ltb, true, ◌&&◌, ◌++◌, ◌∷◌,
}
use sloff.Spec.Defs.{Command}
use sloff.Depgraph.{TaskRef, TaskRef_Eq, Task, ref, ref_eq}
use sloff.Fingerprint.Defs.{Key, Record, Output, FileEntry, ResolvedVersion, schema_version_v3}
use sloff.Hash.{cmd, resolved_versions, input}
use sloff.Hash.FileCache.{Read, ok, not_exist, unreadable, cached_files, files_and_digests}
use sloff.Runner.Defs.{
  Env, TaskInfo, LogLine, skip, run, not_written, State, TaskError, no_info, hash_inputs,
  hash_outputs, load_record, empty_cmd, cmd_failed, expand_outputs, no_outputs, duplicate_output,
}
use sloff.Runner.Inputs.{version_strings}
use sloff.Runner.Tools.{note, ensure_tools_resolved}
use sloff.Runner.Lookup.{
  LookupResult, hit, stale, not_found, load_failed, fingerprint_lookup, fingerprint_store,
}

unfoldable pub same_entries : List FileEntry → List FileEntry → Bool
same_entries [] [] = true
same_entries (a ∷ left) (b ∷ right) =
    str_eq a.path b.path && (str_eq a.hash b.hash && same_entries left right)
same_entries _ _ = false

abbrev pub entry_less : FileEntry → FileEntry → Bool
entry_less a b = str_ltb a.path b.path

unfoldable pub outputs_equivalent : Output → Output → Bool
unfolding same_entries
outputs_equivalent a b =
    str_eq a.hash b.hash
    && (nat_eq (length a.files) (length b.files)
        && same_entries (sort entry_less a.files) (sort entry_less b.files))

-- recordProducedPaths: on a conflict the paths before it stay registered.
unfoldable pub record_produced_paths :
    TaskRef → List Str → Map Str TaskRef → Map Str TaskRef × Option TaskError
record_produced_paths producer [] m = (m, none)
record_produced_paths producer (p ∷ ps) m =
    let rest = record_produced_paths producer ps (insert p producer m) in
    elim (lookup p m) [
      | none ↦ rest
      | some existing ↦
          if not (ref_eq existing producer)
          then (m, some (duplicate_output p existing producer))
          else rest
    ]

-- strings.Join(cmd, " ")
unfoldable pub join_words : List Str → Str
join_words [] = []
join_words (w ∷ []) = w
join_words (w ∷ v ∷ ws) = w ++ (32 ∷ join_words (v ∷ ws))

module _ {W S : Type 0} (env : Env W S) where
  abbrev pub fail : TaskError → State W S → State W S × Option TaskError
  fail e s = (s, some e)

  -- The command in the directory of its spec.
  unfoldable pub exec_line : List Str → Str → State W S → State W S × Option TaskError
  exec_line [] dir s = (s, some empty_cmd)
  exec_line (c ∷ cs) dir s =
      let (w, exited) = env.exec s.world dir (c ∷ cs) in
      (record s { world = w }, if exited then none else some cmd_failed)

  unfoldable pub exec_cmd : TaskInfo → State W S → State W S × Option TaskError
  unfolding exec_line
  exec_cmd info s = exec_line info.command.cmd info.spec_relpath s

  -- resolveOutputs
  unfoldable pub resolve_outputs : TaskInfo → W → Option (List Str)
  resolve_outputs info w = env.expand w info.spec_relpath info.output_patterns

  -- recordProducedPaths on the runner's map.
  unfoldable pub register : TaskRef → List Str → State W S → State W S × Option TaskError
  unfolding record_produced_paths
  register producer paths s =
      let (m, e) = record_produced_paths producer paths s.produced_by in
      (record s { produced_by = m }, e)

  unfoldable pub new_record : TaskInfo → Str → Str → Str → List (Str × Str) → Record
  unfolding cmd resolved_versions version_strings join_words
  new_record info input_hash files_hash output_hash digests = record {
    schema_version = schema_version_v3;
    spec = record {
      cmd = join_words info.command.cmd;
      dir = info.spec_relpath;
      task_id = info.command.name;
    };
    input = record {
      hash = input_hash;
      files_hash = files_hash;
      cmd_hash = cmd env.sha256 info.command.cmd;
      resolved_versions_hash = resolved_versions env.sha256 (version_strings info.versions);
      resolved_versions = info.versions;
    };
    output = record {
      hash = output_hash;
      files = map (λ (e : Str × Str). record { path = e.0; hash = e.1 }) digests;
    };
  }

  -- The end of runTask: the write-skip rule, or the record into the queue.
  unfoldable pub store_unless_same : Option Record → Key → Record → State W S → State W S
  unfolding outputs_equivalent fingerprint_store
  store_unless_same existing key rec s = elim existing [
    | none ↦ fingerprint_store env key rec s
    | some old ↦
        if outputs_equivalent old.output rec.output then s else fingerprint_store env key rec s
  ]

  -- runTask from the hashing of the outputs on.
  unfoldable pub finish :
      TaskRef
      → TaskInfo
      → Option Record
      → Key
      → Str
      → List Str
      → State W S
      → State W S × Option TaskError
  unfolding files_and_digests new_record store_unless_same
  finish r info existing key files_hash paths s =
      elim (files_and_digests env.sha256 (env.digest s.world) paths) [
        | ok (output_hash, digests) ↦ if env.read_only then (note (not_written r) s, none) else (
          store_unless_same existing key
              (new_record info key.input_hash files_hash output_hash digests) s,
          none,
        )
        | _ ↦ (s, some hash_outputs)
      ]

  -- runTask from the execution on.
  unfoldable pub rerun :
      TaskRef → TaskInfo → Option Record → Key → Str → State W S → State W S × Option TaskError
  unfolding exec_cmd resolve_outputs register finish
  rerun r info existing key files_hash s =
      let (s1, e1) = exec_cmd info (note (run r) s) in
      elim e1 [
        | some bad ↦ (s1, some bad)
        | none ↦ elim (resolve_outputs info s1.world) [
          | none ↦ (s1, some expand_outputs)
          | some [] ↦ (s1, some no_outputs)
          | some (p ∷ ps) ↦
              let (s2, e2) = register r (p ∷ ps) s1 in
              elim e2 [
                | some bad ↦ (s2, some bad)
                | none ↦ finish r info existing key files_hash (p ∷ ps) s2
              ]
        ]
      ]

  -- runTask from the lookup on.
  unfoldable pub decide : TaskRef → TaskInfo → Key → Str → State W S → State W S × Option TaskError
  unfolding fingerprint_lookup register rerun
  decide r info key files_hash s =
      let (s1, found) = fingerprint_lookup env key s in
      elim found [
        | load_failed ↦ (s1, some load_record)
        | not_found ↦ rerun r info none key files_hash s1
        | stale old ↦ rerun r info (some old) key files_hash s1
        | hit old paths ↦
            let (s2, e) = register r paths s1 in
            let again = rerun r info (some old) key files_hash s1 in
            if env.force
            then again
            else elim e [ some bad ↦ (s2, some bad) | none ↦ (note (skip r) s2, none) ]
      ]

  unfoldable pub task_key : Task → TaskInfo → Str → Key
  unfolding input cmd resolved_versions version_strings
  task_key t info files_hash = record {
    spec_relpath = t.spec_relpath;
    task_id = t.name;
    input_hash =
        input env.sha256 files_hash (cmd env.sha256 info.command.cmd)
          (resolved_versions env.sha256 (version_strings info.versions));
  }

  -- runTask from the hashing of the inputs on, with the info that ensureToolsResolved left.
  unfoldable pub hashed : Task → State W S → State W S × Option TaskError
  unfolding cached_files decide task_key
  hashed t s = elim (lookup (ref t) s.by_key) [
    | none ↦ (s, some no_info)
    | some info ↦ elim (cached_files env.sha256 (env.digest s.world) info.input_paths) [
      | ok files_hash ↦ decide (ref t) info (task_key t info files_hash) files_hash s
      | _ ↦ (s, some hash_inputs)
    ]
  ]

  unfoldable pub run_task : Task → State W S → State W S × Option TaskError
  unfolding ensure_tools_resolved hashed
  run_task t s = elim (lookup (ref t) s.by_key) [
    | none ↦ (s, some no_info)
    | some info ↦
        let (s1, e) = ensure_tools_resolved env t info s in
        elim s.deferred_tools [
          | [] ↦ hashed t s
          | _ ↦ elim e [ some bad ↦ (s1, some bad) | none ↦ hashed t s1 ]
        ]
  ]
