-- ===== src/Runner/Check.antt =====
-- checkTask and the verdicts of check.go. Whether os.Stat finds a path absent is a parameter.
pub mod Agrees
use sloff.Prelude.{
  Bool, List, Map, Option, Str, Str_Eq, [], any, false, if◌then◌else◌, keep, lookup, nat_Eq, none,
  not, some, str_eq, true, ◌∷◌,
}
use sloff.Depgraph.{TaskRef, TaskRef_Eq, Task, ref}
use sloff.Fingerprint.Defs.{Key, Record, FileEntry}
use sloff.Hash.FileCache.{Read, ok, not_exist, unreadable, cached_files, file_hex}
use sloff.Runner.Defs.{
  Env, TaskInfo, DeferredTool, State, TaskError, no_info, hash_inputs, load_record,
}
use sloff.Runner.Tools.{ensure_tools_resolved}
use sloff.Runner.Lookup.{LookupResult, hit, stale, not_found, load_failed, fingerprint_lookup}
use sloff.Runner.Task.{task_key}

pub data CheckStatus : Type 0 where
  check_ok check_no_record check_output_mismatch check_input_missing check_unverifiable :
      CheckStatus

unfoldable pub is_drift : CheckStatus → Bool
is_drift check_no_record = true
is_drift check_output_mismatch = true
is_drift check_input_missing = true
is_drift _ = false

pub data Reason : Type 0 where
  missing modified cannot_read : Reason

pub record CheckFileIssue : Type 0 where
  pub path : Str
  pub reason : Reason

pub record CheckResult : Type 0 where
  pub spec_relpath : Str
  pub task : Str
  pub status : CheckStatus
  pub missing_inputs : List Str
  pub output_issues : List CheckFileIssue
  pub tool : Str
  pub tool_producers_drifted : Bool

-- Drift of a report's results.
unfoldable pub drift : List CheckResult → List CheckResult
drift [] = []
drift (res ∷ rest) = elim res.status [
  | check_ok ↦ drift rest
  | check_unverifiable ↦
      let others = drift rest in if not res.tool_producers_drifted then others else res ∷ others
  | _ ↦ res ∷ drift rest
]

-- Clean
unfoldable pub clean : List CheckResult → Bool
clean [] = true
clean (res ∷ rest) = elim res.status [ check_ok ↦ clean rest | _ ↦ false ]

-- A verdict, or an error that says the check could not run.
pub data Verdict : Type 0 where
  verdict : CheckResult → Verdict
  check_failed : TaskError → Verdict
  unverified_outputs inconsistent : Verdict

abbrev pub blank : Task → CheckResult
blank t = record {
  spec_relpath = t.spec_relpath;
  task = t.name;
  status = check_ok;
  missing_inputs = [];
  output_issues = [];
  tool = [];
  tool_producers_drifted = false;
}

-- The first tool of the task whose deferred resolution failed.
unfoldable pub failed_tool : Map Str DeferredTool → List Str → Option Str
failed_tool deferred [] = none
failed_tool deferred (name ∷ names) = elim (lookup name deferred) [
  | none ↦ failed_tool deferred names
  | some dt ↦ elim dt.done [ some false ↦ some name | _ ↦ failed_tool deferred names ]
]

module _ {W S : Type 0} (env : Env W S) (absent : W → Str → Bool) where
  -- diffRecordedOutputs, with whether some file could not be read.
  unfoldable pub diff_recorded_outputs : W → List FileEntry → List CheckFileIssue × Bool
  unfolding file_hex
  diff_recorded_outputs w [] = ([], false)
  diff_recorded_outputs w (f ∷ fs) =
      let (issues, bad) = diff_recorded_outputs w fs in
      if absent w f.path
      then (record { path = f.path; reason = missing } ∷ issues, bad)
      else elim (file_hex (env.digest w) f.path) [
        | ok h ↦
            if not (str_eq h f.hash)
            then (record { path = f.path; reason = modified } ∷ issues, bad)
            else (issues, bad)
        | _ ↦ (record { path = f.path; reason = cannot_read } ∷ issues, true)
      ]

  unfoldable pub missing_input_paths : W → List Str → List Str
  missing_input_paths w paths = keep (λ p. absent w p) paths

  unfoldable pub is_concrete : CheckFileIssue → Bool
  is_concrete i = elim i.reason [ cannot_read ↦ false | _ ↦ true ]

  -- The default case of the switch: a record whose outputs do not match.
  unfoldable pub judge_outputs : Task → W → Record → Verdict
  unfolding diff_recorded_outputs is_concrete
  judge_outputs t w existing =
      let (issues, bad) = diff_recorded_outputs w existing.output.files in
      if not (any is_concrete issues)
      then (if bad then unverified_outputs else inconsistent)
      else verdict (record (blank t) { status = check_output_mismatch; output_issues = issues })

  unfoldable pub judge : Task → W → LookupResult → Verdict
  unfolding judge_outputs
  judge t w load_failed = check_failed load_record
  judge t w (hit rec paths) = verdict (blank t)
  judge t w not_found = verdict (record (blank t) { status = check_no_record })
  judge t w (stale existing) = judge_outputs t w existing

  -- checkTask from the hashing of the inputs on.
  unfoldable pub check_hashed : Task → State W S → State W S × Verdict
  unfolding cached_files missing_input_paths judge task_key
  check_hashed t s = elim (lookup (ref t) s.by_key) [
    | none ↦ (s, check_failed no_info)
    | some info ↦ elim (cached_files env.sha256 (env.digest s.world) info.input_paths) [
      | not_exist ↦ (
        s,
        verdict (record (blank t) {
          status = check_input_missing;
          missing_inputs = missing_input_paths s.world info.input_paths;
        }),
      )
      | unreadable ↦ (s, check_failed hash_inputs)
      | ok files_hash ↦
          let (s1, found) = fingerprint_lookup env (task_key env t info files_hash) s in
          (s1, judge t s1.world found)
    ]
  ]

  unfoldable pub check_task : Task → State W S → State W S × Verdict
  unfolding failed_tool check_hashed
  check_task t s = elim (lookup (ref t) s.by_key) [
    | none ↦ (s, check_failed no_info)
    | some info ↦
        let (s1, e) = ensure_tools_resolved env t info s in
        elim s.deferred_tools [
          | [] ↦ check_hashed t s
          | _ ↦ elim (failed_tool s.deferred_tools info.command.tools) [
            | some name ↦
                (s, verdict (record (blank t) { status = check_unverifiable; tool = name }))
            | none ↦ elim e [ some bad ↦ (s1, check_failed bad) | none ↦ check_hashed t s1 ]
          ]
        ]
  ]
