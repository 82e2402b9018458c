-- ===== src/Runner/Collect/Tests.antt =====
-- Two specs whose commands write into one directory.
use sloff.Prelude.{
  List, Map, Option, Str, Str_Eq, [], bytes, containers, false, lookup, nat_Eq, none, refl, some,
  true, ◌↔◌, ◌∷◌, ◌≡◌, ◌≤◌,
}
use sloff.Spec.Defs.{Command, Spec}
use sloff.Depgraph.{TaskRef, TaskRef_Eq, label, Task, ref}
use sloff.Runner.Defs.{TaskInfo}
use sloff.Runner.Collect.{
  Collected, ok, err, pattern_conflicts, detect_output_pattern_conflicts, collect_tasks,
}
use sloff.Runner.Collect.Writers.{writer_count, detect_output_pattern_conflicts_iff}

abbrev command : Str → Str → Command
command name output = record {
  cmd = bytes "gen" ∷ [];
  depends = [];
  barrier = false;
  inputs = [];
  name = name;
  outputs = output ∷ [];
  tools = [];
}

abbrev spec_of : Str → Command → Spec
spec_of dir c = record {
  dir = dir;
  path = [];
  file = record { tools = []; commands = c ∷ []; command_providers = [] };
}

-- `b` writes into its own directory, or into that of `a`.
abbrev specs : Str → List Spec
specs output =
    spec_of (bytes "a") (command (bytes "x") (bytes "out"))
    ∷ spec_of (bytes "b") (command (bytes "y") output)
    ∷ []

abbrev collect : List Spec → Option (Collected (List Task × Map TaskRef TaskInfo))
collect s = collect_tasks (λ dir ps. some []) [] [] none s

one_path_twice :
    collect (specs (bytes "../a/out"))
    ≡ some (err (pattern_conflicts ((bytes "a/out", bytes "a:x" ∷ bytes "b:y" ∷ []) ∷ [])))
unfolding collect_tasks label containers
one_path_twice = refl

abbrev task_of_x : Task
task_of_x = record {
  spec_relpath = bytes "a";
  name = bytes "x";
  inputs = [];
  outputs = [];
  depends_on = [];
  barrier = false;
}

abbrev info_of_x : TaskInfo
info_of_x = record {
  spec_relpath = bytes "a";
  command = command (bytes "x") (bytes "out");
  input_paths = [];
  output_patterns = bytes "out" ∷ [];
  declared_inputs = [];
  versions = [];
  input_set = [];
  joined_input_patterns = [];
  input_surface_authoritative = true;
}

one_collected :
    collect (spec_of (bytes "a") (command (bytes "x") (bytes "out")) ∷ [])
    ≡ some (ok (task_of_x ∷ [], (ref task_of_x, info_of_x) ∷ []))
unfolding collect_tasks label containers
one_collected = refl

detect_output_pattern_conflicts_iff_example :
    (cs : List (Str × List Str)) × (detect_output_pattern_conflicts
        (task_of_x ∷ [])
        ((ref task_of_x, info_of_x) ∷ [])
      ≡ some cs)
    × ((cs ≡ [])
        ↔ ((k : Str) → writer_count ((ref task_of_x, info_of_x) ∷ []) (task_of_x ∷ []) k ≤ 1))
unfolding lookup
detect_output_pattern_conflicts_iff_example =
    detect_output_pattern_conflicts_iff (task_of_x ∷ []) ((ref task_of_x, info_of_x) ∷ [])
      ((info_of_x, refl), tt)
