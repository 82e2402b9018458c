-- ===== src/Spec/Registry.antt =====
-- registry.go, and the rules on tools and providers in spec.go. A Go map is visited here in the order
-- of the list that stands for it; the source sorts or has no order.
pub mod Valid
pub mod Tests
use sloff.Prelude.{
  Bool, List, Map, Option, Str, Str_Eq, [], any, bytes, contains, if◌then◌else◌, insert, lookup,
  map, nat_Eq, none, not, some, sort, str_eq, str_ltb, suc, ℕ, ◌&&◌, ◌++◌, ◌||◌, ◌∷◌,
}
use sloff.Spec.Defs.{
  Depend, Command, DeclaredTool, CommandProviderDecl, File, Spec, is_depend_pattern, contains_meta,
  is_abs,
}
use sloff.Spec.Paths.{clean}
use sloff.Spec.Commands.{◌and_then◌, reject_if, empty, is_slug, CommandError, validate_commands}

pub record ToolEntry : Type 0 where
  pub name : Str
  pub spec_dir : Str
  pub declared : DeclaredTool

abbrev pub Registry : Type 0
Registry = Map Str ToolEntry

-- `registryDefinitionPath`
unfoldable pub definition_path : Str → Str
definition_path dir =
    if str_eq dir [] || str_eq dir (bytes ".") then bytes "sloff.yml" else dir ++ bytes "/sloff.yml"

-- The name defined twice, and both places.
pub record Collision : Type 0 where
  pub tool : Str
  pub existing_path : Str
  pub new_path : Str

pub data Registered : Type 0 where
  registry : Registry → Registered
  collision : Collision → Registered

-- The loop over the tools of one file.
unfoldable pub add_tools : Str → Map Str DeclaredTool → Registry → Registered
unfolding lookup insert definition_path
add_tools dir [] reg = registry reg
add_tools dir ((name, tool) ∷ tools) reg =
    let rest =
      add_tools dir tools
        (insert name (record { name = name; spec_dir = dir; declared = tool }) reg) in
    elim (lookup name reg) [
      | some existing ↦ collision (record {
        tool = name;
        existing_path = definition_path existing.spec_dir;
        new_path = definition_path dir;
      })
      | none ↦ rest
    ]

unfoldable pub add_specs : List Spec → Registry → Registered
unfolding add_tools
add_specs [] reg = registry reg
add_specs (sp ∷ specs) reg = elim (add_tools sp.dir sp.file.tools reg) [
  | collision c ↦ collision c
  | registry more ↦ add_specs specs more
]

unfoldable pub build_tool_registry : List Spec → Registered
unfolding add_specs
build_tool_registry specs = add_specs specs []

entry_less : ToolEntry → ToolEntry → Bool
entry_less a b = str_ltb a.name b.name

-- All
unfoldable pub all_entries : Registry → List ToolEntry
unfolding entry_less sort
all_entries reg = sort entry_less (map (λ (e : Str × ToolEntry). e.1) reg)

-- An undefined tool, with the file and the command that reference it.
pub record Undefined : Type 0 where
  pub definition : Str
  pub command : Str
  pub tool : Str

unfoldable pub check_names : Registry → Str → Str → List Str → Option Undefined
unfolding lookup definition_path
check_names reg dir command [] = none
check_names reg dir command (name ∷ names) = elim (lookup name reg) [
  | none ↦ some (record { definition = definition_path dir; command = command; tool = name })
  | some _ ↦ check_names reg dir command names
]

unfoldable pub check_tool_commands : Registry → Str → List Command → Option Undefined
unfolding check_names
check_tool_commands reg dir [] = none
check_tool_commands reg dir (c ∷ cs) =
    check_names reg dir c.name c.tools and_then check_tool_commands reg dir cs

unfoldable pub validate_tool_references : List Spec → Registry → Option Undefined
unfolding check_tool_commands
validate_tool_references [] reg = none
validate_tool_references (sp ∷ specs) reg =
    check_tool_commands reg sp.dir sp.file.commands and_then validate_tool_references specs reg

-- The errors of validate, with the name of the tool or the index of the provider.
pub data FileError : Type 0 where
  nothing_declared : FileError
  tool_name : Str → FileError
  tool_depend_without_task tool_depend_absolute tool_depend_glob tool_depend_twice :
      Str → ℕ → FileError
  provider_without_name provider_without_exec : ℕ → FileError
  provider_twice : Str → FileError
  in_commands : CommandError → FileError

-- validateToolDepends, with the entries seen so far.
unfoldable pub validate_tool_depends : Str → List (Str × Str) → ℕ → List Depend → Option FileError
unfolding is_depend_pattern contains_meta is_abs clean any
validate_tool_depends tool seen i [] = none
validate_tool_depends tool seen i (d ∷ ds) =
    reject_if (empty d.task) (tool_depend_without_task tool i)
    and_then reject_if (is_abs d.spec) (tool_depend_absolute tool i)
    and_then reject_if (is_depend_pattern d.task) (tool_depend_glob tool i)
    and_then reject_if (contains_meta d.spec) (tool_depend_glob tool i)
    and_then reject_if
        (any (λ (k : Str × Str). str_eq k.0 (clean d.spec) && str_eq k.1 d.task) seen)
        (tool_depend_twice tool i)
    and_then validate_tool_depends tool ((clean d.spec, d.task) ∷ seen) (suc i) ds

tool_less : Str × DeclaredTool → Str × DeclaredTool → Bool
tool_less a b = str_ltb a.0 b.0

unfoldable pub check_declared : List (Str × DeclaredTool) → Option FileError
unfolding validate_tool_depends is_slug
check_declared [] = none
check_declared ((name, tool) ∷ tools) =
    reject_if (not (is_slug name)) (tool_name name)
    and_then validate_tool_depends name [] 0 tool.depends
    and_then check_declared tools

-- validateTools, by ascending name
unfoldable pub validate_tools : Map Str DeclaredTool → Option FileError
unfolding check_declared tool_less sort
validate_tools tools = check_declared (sort tool_less tools)

-- validateCommandProviders, with the names seen so far.
unfoldable pub validate_command_providers :
    List Str → ℕ → List CommandProviderDecl → Option FileError
unfolding contains
validate_command_providers seen i [] = none
validate_command_providers seen i (p ∷ ps) =
    reject_if (empty p.name) (provider_without_name i)
    and_then reject_if (empty p.exec) (provider_without_exec i)
    and_then reject_if (contains seen p.name) (provider_twice p.name)
    and_then validate_command_providers (p.name ∷ seen) (suc i) ps

-- validate, where the patterns that are well formed are a parameter.
unfoldable pub validate : (Str → Bool) → File → Option FileError
unfolding validate_tools validate_command_providers validate_commands
validate valid_pattern f =
    reject_if (empty f.tools && (empty f.commands && empty f.command_providers)) nothing_declared
    and_then validate_tools f.tools
    and_then validate_command_providers [] 0 f.command_providers
    and_then elim (validate_commands valid_pattern f.commands) [
      | none ↦ none
      | some e ↦ some (in_commands e)
    ]
