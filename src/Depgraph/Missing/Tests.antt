-- ===== src/Depgraph/Missing/Tests.antt =====
-- A task that reads what another writes, with and without a declared dependency.
use sloff.Prelude.{List, Str_Eq, [], bytes, containers, false, nat_Eq, refl, ◌↔◌, ◌∷◌, ◌≡◌}
use sloff.Depgraph.Defs.{ok, TaskRef, TaskRef_Eq, Task, ref}
use sloff.Depgraph.Missing.{find_missing_dependencies}
use sloff.Depgraph.Build.{build}
use sloff.Depgraph.Build.Writers.{build-one_writer}
use sloff.Depgraph.Missing.Pairs.{DeclaresWriters, find_missing_dependencies_iff}

abbrev gen : Task
gen = record {
  spec_relpath = bytes "lib";
  name = bytes "gen";
  inputs = [];
  outputs = bytes "x" ∷ bytes "y" ∷ [];
  depends_on = [];
  barrier = false;
}

abbrev reader : List TaskRef → Task
reader deps = record {
  spec_relpath = bytes "app";
  name = bytes "use";
  inputs = bytes "y" ∷ bytes "z" ∷ bytes "x" ∷ [];
  outputs = [];
  depends_on = deps;
  barrier = false;
}

one_missing :
    find_missing_dependencies (gen ∷ reader [] ∷ [])
    ≡ record { producer = ref gen; consumer = ref (reader []); files = bytes "x" ∷ bytes "y" ∷ [] }
      ∷ []
unfolding find_missing_dependencies containers
one_missing = refl

abbrev both : List Task
both = gen ∷ reader (ref gen ∷ []) ∷ []

builds : build both ≡ ok both
unfolding build containers
builds = refl

find_missing_dependencies_iff_example : (find_missing_dependencies both ≡ []) ↔ DeclaresWriters both
find_missing_dependencies_iff_example =
    find_missing_dependencies_iff both (build-one_writer both both builds)
