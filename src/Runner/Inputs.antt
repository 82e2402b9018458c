-- ===== src/Runner/Inputs.antt =====
-- The input surface of a task in runner.go: the union of declared inputs and tool contributions, the
-- edges from its depends, and which produced paths it reads.
use sloff.Prelude.{
  Bool, List, Map, Option, Str, Str_Eq, [], any, bytes, contains, has_prefix, if◌then◌else◌, keep,
  lookup, map, nat_Eq, none, not, some, sort, str_ltb, ◌++◌, ◌||◌, ◌∷◌,
}
use sloff.Spec.Defs.{Depend, Command, Spec}
use sloff.Spec.Paths.{join, escapes_root}
use sloff.Depgraph.{TaskRef}
use sloff.Fingerprint.Defs.{ResolvedVersion}
use sloff.Runner.Defs.{TaskInfo}

-- `add` of mergeInputs.
unfoldable pub add_path : List Str → Str → List Str
add_path out [] = out
add_path out (c ∷ p) = if contains out (c ∷ p) then out else out ++ (c ∷ p) ∷ []

unfoldable pub add_paths : List Str → List Str → List Str
unfolding add_path
add_paths out [] = out
add_paths out (p ∷ ps) = add_paths (add_path out p) ps

unfoldable pub merge_inputs : List Str → List Str → List Str
unfolding add_paths
merge_inputs declared [] = declared
merge_inputs declared (e ∷ extra) = sort str_ltb (add_paths (add_paths [] declared) (e ∷ extra))

-- combineToolInputs; none is its panic on a name that has no entry.
unfoldable pub combine_tool_inputs : List Str → Map Str (List Str) → Option (List Str)
combine_tool_inputs [] by_tool = some []
combine_tool_inputs (name ∷ names) by_tool = elim (lookup name by_tool) [
  | none ↦ none
  | some v ↦ elim (combine_tool_inputs names by_tool) [ none ↦ none | some rest ↦ some (v ++ rest) ]
]

unfoldable pub combine_resolved_versions :
    List Str → Map Str (List ResolvedVersion) → Option (List ResolvedVersion)
combine_resolved_versions [] by_tool = some []
combine_resolved_versions (name ∷ names) by_tool = elim (lookup name by_tool) [
  | none ↦ none
  | some v ↦ elim (combine_resolved_versions names by_tool) [
    | none ↦ none
    | some rest ↦ some (v ++ rest)
  ]
]

unfoldable pub resolve_depends : Str → List Depend → List TaskRef
unfolding join
resolve_depends dir [] = []
resolve_depends dir (d ∷ ds) =
    record { spec_relpath = join dir d.spec; name = d.task } ∷ resolve_depends dir ds

-- inputSurface's patterns; its set is the list of the input paths.
unfoldable pub joined_patterns : Str → List Str → List Str
unfolding join escapes_root
joined_patterns dir [] = []
joined_patterns dir (p ∷ ps) =
    let rest = joined_patterns dir ps in
    if escapes_root (join dir p) then rest else join dir p ∷ rest

unfoldable pub input_surface : Str → List Str → List Str → List Str × List Str
unfolding joined_patterns
input_surface dir patterns input_paths = (input_paths, joined_patterns dir patterns)

-- versionStrings
unfoldable pub version_strings : List ResolvedVersion → List Str
version_strings versions = map (λ (v : ResolvedVersion). v.version) versions

unfoldable pub referenced_names : List Command → List Str
referenced_names [] = []
referenced_names (c ∷ cs) = c.tools ++ referenced_names cs

unfoldable pub all_referenced : List Spec → List Str
unfolding referenced_names
all_referenced [] = []
all_referenced (sp ∷ specs) = referenced_names sp.file.commands ++ all_referenced specs

-- Each name once: the keys of a map.
unfoldable pub distinct : List Str → List Str
distinct [] = []
distinct (n ∷ ns) = let rest = distinct ns in if contains ns n then rest else n ∷ rest

unfoldable pub referenced_tools : List Spec → List Str
unfolding all_referenced distinct
referenced_tools specs = sort str_ltb (distinct (all_referenced specs))

-- The variables of the environment, as `K=V`.
unfoldable pub child_env : List Str → List Str
child_env parent = keep (λ kv. not (has_prefix kv (bytes "SLOFF_OTEL_"))) parent

module _ (matches : Str → Str → Bool) where
  unfoldable pub task_reads_path : TaskInfo → Str → Bool
  task_reads_path info p =
      contains info.input_set p || any (λ pattern. matches pattern p) info.joined_input_patterns

  unfoldable pub any_produced_path_read : TaskInfo → List Str → Bool
  unfolding task_reads_path
  any_produced_path_read info paths = any (λ p. task_reads_path info p) paths
