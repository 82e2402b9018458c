-- ===== src/Runner/Collect.antt =====
-- collectTasks and detectOutputPatternConflicts in runner.go: the commands of the specs become tasks.
-- The expansion of patterns goes through an Expander, whose caches change no result, so it is a
-- function here; of several patterns that fail, the source reports one.
pub mod Writers
pub mod Tests
use sloff.Prelude.{
  Bool, List, Map, Option, Str, Str_Eq, [], any, contains, if◌then◌else◌, insert, keep, length,
  lookup, ltb, map, nat_Eq, none, not, some, sort, str_ltb, ◌++◌, ◌∷◌,
}
use sloff.Spec.Defs.{Command, Spec}
use sloff.Spec.Paths.{clean, join}
use sloff.Depgraph.{TaskRef, TaskRef_Eq, label, Task, ref}
use sloff.Fingerprint.Defs.{ResolvedVersion}
use sloff.Runner.Defs.{TaskInfo}
use sloff.Runner.Inputs.{
  merge_inputs, combine_tool_inputs, combine_resolved_versions, resolve_depends, input_surface,
}
use sloff.Runner.Produced.{append_at}

pub data CollectError : Type 0 where
  inputs_failed outputs_failed : Str → Str → CollectError
  -- the panic of combineToolInputs or combineResolvedVersions
  missing_tool : CollectError
  -- the patterns with several writers, each with their labels
  pattern_conflicts : List (Str × List Str) → CollectError

pub data Collected (A : Type 0) : Type 0 where
  ok : A → Collected A
  err : CollectError → Collected A

pub record ExpandedCommand : Type 0 where
  pub dir : Str
  pub command : Command
  pub inputs : List Str
  pub outputs : List Str

-- Each command with the directory of its spec.
unfoldable pub flat : List Spec → List (Str × Command)
flat [] = []
flat (sp ∷ specs) = map (λ (c : Command). (sp.dir, c)) sp.file.commands ++ flat specs

module _ (glob_expand : Str → List Str → Option (List Str)) where
  unfoldable pub expand_globs : List (Str × Command) → Collected (List ExpandedCommand)
  expand_globs [] = ok []
  expand_globs ((dir, c) ∷ cs) =
      let rest = expand_globs cs in
      elim (glob_expand dir c.inputs) [
        | none ↦ err (inputs_failed dir c.name)
        | some ins ↦ elim (glob_expand dir c.outputs) [
          | none ↦ err (outputs_failed dir c.name)
          | some outs ↦ elim rest [
            | err e ↦ err e
            | ok ecs ↦ ok (record { dir = dir; command = c; inputs = ins; outputs = outs } ∷ ecs)
          ]
        ]
      ]

module _ (deferred : List Str) (inputs_by_tool : Map Str (List Str))
    (versions_by_tool : Option (Map Str (List ResolvedVersion))) where
  -- The versions of a task, none of them where the caller needs none.
  unfoldable pub versions_of : Command → Option (List ResolvedVersion)
  unfolding combine_resolved_versions
  versions_of c = elim versions_by_tool [
    | none ↦ some []
    | some by_tool ↦ combine_resolved_versions c.tools by_tool
  ]

  unfoldable pub task_of : ExpandedCommand → List Str → List ResolvedVersion → Task × TaskInfo
  unfolding merge_inputs input_surface resolve_depends any contains
  task_of ec extra versions =
      let merged = merge_inputs ec.inputs extra in
      let (input_set, joined) = input_surface ec.dir ec.command.inputs merged in
      (
        record {
          spec_relpath = ec.dir;
          name = ec.command.name;
          inputs = merged;
          outputs = ec.outputs;
          depends_on = resolve_depends ec.dir ec.command.depends;
          barrier = ec.command.barrier;
        },
        record {
          spec_relpath = ec.dir;
          command = ec.command;
          input_paths = merged;
          output_patterns = ec.command.outputs;
          declared_inputs = ec.inputs;
          versions = versions;
          input_set = input_set;
          joined_input_patterns = joined;
          input_surface_authoritative = not (any (contains deferred) ec.command.tools);
        },
      )

  -- The assembly in declaration order, with byKey so far.
  unfoldable pub assemble :
      List ExpandedCommand → Map TaskRef TaskInfo → Collected (List Task × Map TaskRef TaskInfo)
  unfolding combine_tool_inputs versions_of task_of insert
  assemble [] by_key = ok ([], by_key)
  assemble (ec ∷ ecs) by_key = elim (combine_tool_inputs ec.command.tools inputs_by_tool) [
    | none ↦ err missing_tool
    | some extra ↦ elim (versions_of ec.command) [
      | none ↦ err missing_tool
      | some versions ↦
          let (t, info) = task_of ec extra versions in
          elim (assemble ecs (insert (ref t) info by_key)) [
            | err e ↦ err e
            | ok (ts, done) ↦ ok (t ∷ ts, done)
          ]
    ]
  ]

-- The path that an output pattern stands for.
abbrev pub resolved_pattern : Str → Str → Str
resolved_pattern dir p = clean (join dir p)

-- One task's patterns into patternProducers, each path once.
unfoldable pub add_patterns :
    Str → Str → List Str → List Str → Map Str (List Str) → Map Str (List Str)
unfolding append_at contains
add_patterns dir name seen [] m = m
add_patterns dir name seen (p ∷ ps) m =
    let key = resolved_pattern dir p in
    if contains seen key
    then add_patterns dir name seen ps m
    else add_patterns dir name (key ∷ seen) ps (append_at key name m)

-- patternProducers; `none` is a task that byKey does not have.
unfoldable pub pattern_producers :
    Map TaskRef TaskInfo → List Task → Map Str (List Str) → Option (Map Str (List Str))
unfolding add_patterns
pattern_producers by_key [] m = some m
pattern_producers by_key (t ∷ ts) m = elim (lookup (ref t) by_key) [
  | none ↦ none
  | some info ↦
      pattern_producers by_key ts
        (add_patterns t.spec_relpath (label (ref t)) [] info.output_patterns m)
]

abbrev pub is_shared : Str × List Str → Bool
is_shared (key, labels) = ltb 1 (length labels)

-- The patterns with more than one writer.
unfoldable pub detect_output_pattern_conflicts :
    List Task → Map TaskRef TaskInfo → Option (List (Str × List Str))
unfolding pattern_producers keep sort
detect_output_pattern_conflicts tasks by_key = elim (pattern_producers by_key tasks []) [
  | none ↦ none
  | some m ↦ some (map (λ (e : Str × List Str). (e.0, sort str_ltb e.1)) (keep is_shared m))
]

module _ (glob_expand : Str → List Str → Option (List Str)) (deferred : List Str)
    (inputs_by_tool : Map Str (List Str))
    (versions_by_tool : Option (Map Str (List ResolvedVersion))) where
  -- collectTasks; `none` is a nil dereference.
  unfoldable pub collect_tasks : List Spec → Option (Collected (List Task × Map TaskRef TaskInfo))
  unfolding expand_globs flat assemble detect_output_pattern_conflicts
  collect_tasks specs = elim (expand_globs glob_expand (flat specs)) [
    | err e ↦ some (err e)
    | ok ecs ↦ elim (assemble deferred inputs_by_tool versions_by_tool ecs []) [
      | err e ↦ some (err e)
      | ok (tasks, by_key) ↦ elim (detect_output_pattern_conflicts tasks by_key) [
        | none ↦ none
        | some [] ↦ some (ok (tasks, by_key))
        | some (x ∷ xs) ↦ some (err (pattern_conflicts (x ∷ xs)))
      ]
    ]
  ]
