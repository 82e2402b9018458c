-- ===== src/Spec/Expand.antt =====
-- ExpandDependPatterns in depends.go: patterns among the depends entries become the literal edges that
-- they match. Whether a pattern matches a name is doublestar's to say; `none` is a malformed pattern.
mod Edges
pub mod Patterns
pub mod Tests
use sloff.Prelude.{
  Bool, List, Option, Str, Str_Eq, [], any, contains, false, if◌then◌else◌, keep, map, nat_Eq, none,
  not, some, sort, str_eq, str_ltb, true, ◌&&◌, ◌++◌, ◌||◌, ◌∷◌,
}
use sloff.Spec.Defs.{Depend, Command, File, Spec, EdgeKey, EdgeKey_Eq, is_depend_pattern}
use sloff.Spec.Paths.{join, escapes_root}
use sloff.Spec.References.{resolve_edge}

pub record ExpandedPattern : Type 0 where
  pub consumer_dir : Str
  pub consumer_name : Str
  pub glob : Str
  pub edges : List Depend

-- An error with the directory and name of the command, and the pattern.
pub data ExpandError : Type 0 where
  outside malformed unmatched : Str → Str → Str → ExpandError

pub data Expanded (A : Type 0) : Type 0 where
  ok : A → Expanded A
  err : ExpandError → Expanded A

-- namesByDir[dir], sorted
pub command_names : Str → List Spec → List Str
command_names dir [] = []
command_names dir (sp ∷ specs) =
    let rest = command_names dir specs in
    if str_eq sp.dir dir then map (λ (c : Command). c.name) sp.file.commands ++ rest else rest

unfoldable pub names_by_dir : List Spec → Str → List Str
unfolding command_names sort
names_by_dir specs dir = sort str_ltb (command_names dir specs)

unfoldable pub command_has_depend_pattern : List Depend → Bool
unfolding is_depend_pattern any
command_has_depend_pattern deps = any (λ (d : Depend). is_depend_pattern d.task) deps

unfoldable pub spec_has_depend_pattern : Spec → Bool
unfolding command_has_depend_pattern
spec_has_depend_pattern sp =
    any (λ (c : Command). command_has_depend_pattern c.depends) sp.file.commands

-- The entries that are no patterns, in order.
unfoldable pub literals : List Depend → List Depend
unfolding keep is_depend_pattern
literals deps = keep (λ (d : Depend). not (is_depend_pattern d.task)) deps

-- The edges of a command that patterns have added: `added` and the tail of `out`.
pub record Added : Type 0 where
  pub keys : List EdgeKey
  pub entries : List Depend

-- The loop over the matched edges of one pattern.
pub add_edges : Str → List EdgeKey → List Depend → Added → Added
unfolding resolve_edge contains
add_edges dir literal [] a = a
add_edges dir literal (m ∷ ms) a =
    let k = resolve_edge dir m in
    add_edges dir literal ms (
      if contains literal k || contains a.keys k
      then a
      else record { keys = k ∷ a.keys; entries = a.entries ++ m ∷ [] })

module _ (glob_matches : Str → Str → Option Bool) (names : Str → List Str) (dir : Str)
    (c : Command) where
  -- The loop over the names of the target directory; `none` is a malformed pattern.
  pub matched : Depend → List Str → Option (List Depend)
  unfolding join
  matched d [] = some []
  matched d (n ∷ ns) =
      let rest = matched d ns in
      if str_eq (join dir d.spec) dir && str_eq n c.name
      then rest
      else elim (glob_matches d.task n) [
        | none ↦ none
        | some false ↦ rest
        | some true ↦ elim rest [
          | none ↦ none
          | some ms ↦ some (record { spec = d.spec; task = n } ∷ ms)
        ]
      ]

  -- One pattern: its edges, or the error.
  pub expand_pattern : Depend → Expanded (List Depend)
  unfolding matched escapes_root
  expand_pattern d =
      if escapes_root (join dir d.spec)
      then err (outside dir c.name d.task)
      else elim (matched d (names (join dir d.spec))) [
        | none ↦ err (malformed dir c.name d.task)
        | some [] ↦ err (unmatched dir c.name d.task)
        | some (m ∷ ms) ↦ ok (m ∷ ms)
      ]

  -- The loop over the patterns of the command.
  pub expand_patterns : List EdgeKey → List Depend → Added → Expanded (Added × List ExpandedPattern)
  unfolding expand_pattern add_edges is_depend_pattern
  expand_patterns literal [] a = ok (a, [])
  expand_patterns literal (d ∷ ds) a =
      let skipped = expand_patterns literal ds a in
      let kept : Expanded (Added × List ExpandedPattern) = elim (expand_pattern d) [
        | err e ↦ err e
        | ok ms ↦ elim (expand_patterns literal ds (add_edges dir literal ms a)) [
          | err e ↦ err e
          | ok (b, groups) ↦ ok (
            b,
            record { consumer_dir = dir; consumer_name = c.name; glob = d.task; edges = ms }
                ∷ groups,
          )
        ]
      ] in
      if is_depend_pattern d.task then kept else skipped

  unfoldable pub expand_command_depends : Expanded (List Depend × List ExpandedPattern)
  unfolding expand_patterns literals resolve_edge
  expand_command_depends =
      elim (expand_patterns (map (resolve_edge dir) (literals c.depends)) c.depends
        (record { keys = []; entries = [] })) [
          | err e ↦ err e
          | ok (a, groups) ↦ ok (literals c.depends ++ a.entries, groups)
        ]

module _ (glob_matches : Str → Str → Option Bool) (names : Str → List Str) where
  pub expand_commands : Str → List Command → Expanded (List Command × List ExpandedPattern)
  unfolding expand_command_depends command_has_depend_pattern
  expand_commands dir [] = ok ([], [])
  expand_commands dir (c ∷ cs) =
      let rest = expand_commands dir cs in
      let own : Expanded (List Depend × List ExpandedPattern) =
        if command_has_depend_pattern c.depends
        then expand_command_depends glob_matches names dir c
        else ok (c.depends, []) in
      elim own [
        | err e ↦ err e
        | ok (deps, groups) ↦ elim rest [
          | err e ↦ err e
          | ok (done, more) ↦ ok (record c { depends = deps } ∷ done, groups ++ more)
        ]
      ]

  pub expand_files : List Spec → Expanded (List Spec × List ExpandedPattern)
  unfolding expand_commands spec_has_depend_pattern
  expand_files [] = ok ([], [])
  expand_files (sp ∷ specs) =
      let rest = expand_files specs in
      let own : Expanded (List Command × List ExpandedPattern) =
        if spec_has_depend_pattern sp
        then expand_commands sp.dir sp.file.commands
        else ok (sp.file.commands, []) in
      elim own [
        | err e ↦ err e
        | ok (cs, groups) ↦ elim rest [
          | err e ↦ err e
          | ok (done, more) ↦
              ok (record sp { file = record sp.file { commands = cs } } ∷ done, groups ++ more)
        ]
      ]

unfoldable pub expand_depend_patterns :
    (Str → Str → Option Bool) → List Spec → Expanded (List Spec × List ExpandedPattern)
unfolding expand_files names_by_dir spec_has_depend_pattern
expand_depend_patterns glob_matches specs =
    if any spec_has_depend_pattern specs
    then expand_files glob_matches (names_by_dir specs) specs
    else ok (specs, [])
