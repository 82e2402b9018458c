-- ===== src/Runner/Produced/Tests.antt =====
-- A task `b` that reads what `a` writes, with and without the edge.
use sloff.Prelude.{
  All, Bool, List, Map, Str, Str_Eq, [], bytes, containers, false, lookup, nat_Eq, refl, some,
  str_eq, true, ◌↔◌, ◌∷◌, ◌≡◌,
}
use sloff.Depgraph.{TaskRef, TaskRef_Eq, Task}
use sloff.Depgraph.Missing.{MissingDependency}
use sloff.Runner.Defs.{TaskInfo}
use sloff.Runner.Produced.{
  unobserved_edge, unobserved_pattern, validate_produced_dependencies, warn_unobserved_depends,
}
use sloff.Runner.Produced.Covered.{Judged, validate_produced_dependencies_iff}

abbrev task : Str → Str → List TaskRef → Task
task name input deps = record {
  spec_relpath = [];
  name = name;
  inputs = input ∷ [];
  outputs = [];
  depends_on = deps;
  barrier = false;
}

abbrev info_of : Str → TaskInfo
info_of input = record {
  spec_relpath = [];
  command = record {
    cmd = [];
    depends = [];
    barrier = false;
    inputs = [];
    name = [];
    outputs = [];
    tools = [];
  };
  input_paths = input ∷ [];
  output_patterns = [];
  declared_inputs = input ∷ [];
  versions = [];
  input_set = input ∷ [];
  joined_input_patterns = [];
  input_surface_authoritative = true;
}

abbrev a_ref : TaskRef
a_ref = record { spec_relpath = []; name = bytes "a" }

abbrev b_ref : TaskRef
b_ref = record { spec_relpath = []; name = bytes "b" }

abbrev infos : Map TaskRef TaskInfo
infos = (a_ref, info_of (bytes "x")) ∷ (b_ref, info_of (bytes "y")) ∷ []

abbrev written : Map Str TaskRef
written = (bytes "y", a_ref) ∷ (bytes "z", a_ref) ∷ []

abbrev declared : List Task
declared = task (bytes "a") (bytes "x") [] ∷ task (bytes "b") (bytes "y") (a_ref ∷ []) ∷ []

abbrev equal : Str → Str → Bool
equal pattern p = str_eq pattern p

edge_not_declared :
    validate_produced_dependencies equal infos written
      (task (bytes "a") (bytes "x") [] ∷ task (bytes "b") (bytes "y") [] ∷ [])
    ≡ some (record { producer = a_ref; consumer = b_ref; files = bytes "y" ∷ [] } ∷ [])
unfolding validate_produced_dependencies containers
edge_not_declared = refl

-- The edge of `b` is observed, that of `a` is not.
edge_not_observed :
    warn_unobserved_depends equal infos [] [] written
      (task (bytes "a") (bytes "x") (a_ref ∷ []) ∷ task (bytes "b") (bytes "y") (a_ref ∷ []) ∷ [])
    ≡ some (unobserved_edge a_ref a_ref ∷ [])
unfolding warn_unobserved_depends containers
edge_not_observed = refl

pattern_not_observed :
    warn_unobserved_depends equal infos
      ((a_ref, record { glob = bytes "*"; refs = a_ref ∷ b_ref ∷ [] } ∷ []) ∷ [])
      []
      written
      (task (bytes "a") (bytes "x") (a_ref ∷ []) ∷ [])
    ≡ some (unobserved_pattern a_ref (bytes "*") ∷ [])
unfolding warn_unobserved_depends containers
pattern_not_observed = refl

validate_produced_dependencies_iff_example :
    (ms : List MissingDependency) × (validate_produced_dependencies equal infos written declared
      ≡ some ms)
    × ((ms ≡ []) ↔ All (Judged equal infos written) declared)
unfolding lookup
validate_produced_dependencies_iff_example =
    validate_produced_dependencies_iff equal infos written declared
      ((info_of (bytes "x"), refl), ((info_of (bytes "y"), refl), tt))
