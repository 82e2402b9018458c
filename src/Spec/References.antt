-- ===== src/Spec/References.antt =====
-- The cross-file rules of depends: ResolveEdge, DefinedTasks and the expansion of patterns in
-- depends.go, ValidateDependReferences in spec.go. A Go map that is only asked for its keys is a
-- list of those. Which names a glob pattern matches is doublestar's to say.
pub mod Valid
use sloff.Prelude.{
  List, Option, Str, Str_Eq, [], contains, if◌then◌else◌, map, nat_Eq, none, not, some, str_eq, suc,
  ℕ, ◌&&◌, ◌++◌, ◌∷◌,
}
use sloff.Spec.Defs.{Depend, Command, Spec, EdgeKey, EdgeKey_Eq}
use sloff.Spec.Commands.{◌and_then◌}
use sloff.Spec.Paths.{join, escapes_root}

-- An error with the directory and the name of the command, and the index of the depends entry.
pub data ReferenceError : Type 0 where
  outside_root itself not_found duplicate : Str → Str → ℕ → ReferenceError

unfoldable pub resolve_edge : Str → Depend → EdgeKey
unfolding join
resolve_edge dir d = record { dir = join dir d.spec; task = d.task }

-- The keys of one file.
abbrev pub command_keys : Str → List Command → List EdgeKey
command_keys dir cs = map (λ (c : Command). record { dir = dir; task = c.name }) cs

unfoldable pub defined_tasks : List Spec → List EdgeKey
defined_tasks [] = []
defined_tasks (sp ∷ specs) = command_keys sp.dir sp.file.commands ++ defined_tasks specs

module _ (defined : List EdgeKey) (dir : Str) (c : Command) where
  -- The body of the loop over c.Depends, with the edges seen so far.
  unfoldable pub check_reference : List EdgeKey → ℕ → Depend → Option ReferenceError
  unfolding resolve_edge escapes_root
  check_reference seen i d =
      let target = join dir d.spec in
      let key = resolve_edge dir d in
      if escapes_root target
      then some (outside_root dir c.name i)
      else if str_eq target dir && str_eq d.task c.name
      then some (itself dir c.name i)
      else if not (contains defined key)
      then some (not_found dir c.name i)
      else if contains seen key
      then some (duplicate dir c.name i)
      else none

  unfoldable pub check_references : List EdgeKey → ℕ → List Depend → Option ReferenceError
  unfolding check_reference
  check_references seen i [] = none
  check_references seen i (d ∷ ds) =
      check_reference seen i d and_then check_references (resolve_edge dir d ∷ seen) (suc i) ds

unfoldable pub check_file : List EdgeKey → Str → List Command → Option ReferenceError
unfolding check_references
check_file defined dir [] = none
check_file defined dir (c ∷ cs) =
    check_references defined dir c [] 0 c.depends and_then check_file defined dir cs

unfoldable pub check_files : List EdgeKey → List Spec → Option ReferenceError
unfolding check_file
check_files defined [] = none
check_files defined (sp ∷ specs) =
    check_file defined sp.dir sp.file.commands and_then check_files defined specs

unfoldable pub validate_depend_references : List Spec → Option ReferenceError
unfolding check_files defined_tasks
validate_depend_references specs = check_files (defined_tasks specs) specs
