-- ===== src/Spec/Registry/Tests.antt =====
-- Two files, the second of which uses a tool of the first.
use sloff.Prelude.{
  NoDup, Str_Eq, [], bytes, containers, false, nat_Eq, none, refl, some, true, ◌↔◌, ◌∷◌, ◌≡◌,
}
use sloff.Spec.Defs.{Command, DeclaredTool, Spec}
use sloff.Spec.Registry.{
  Registry, registry, build_tool_registry, validate_tool_references, validate, tool_depend_twice,
}
use sloff.Spec.Registry.Valid.{tool_names, Uses, build_tool_registry_iff}

abbrev tool : DeclaredTool
tool = record {
  resolver = bytes "script";
  exec = bytes "protoc" ∷ [];
  extract = [];
  entry = [];
  package_name = [];
  depends = [];
}

abbrev user : Command
user = record {
  cmd = bytes "gen" ∷ [];
  depends = [];
  barrier = false;
  inputs = bytes "*.proto" ∷ [];
  name = bytes "gen";
  outputs = bytes "*.go" ∷ [];
  tools = bytes "protoc" ∷ [];
}

abbrev declaring : Spec
declaring = record {
  dir = bytes ".";
  path = bytes "sloff.yml";
  file = record { tools = (bytes "protoc", tool) ∷ []; commands = []; command_providers = [] };
}

abbrev using : Spec
using = record {
  dir = bytes "svc";
  path = bytes "svc/sloff.yml";
  file = record { tools = []; commands = user ∷ []; command_providers = [] };
}

twice :
    (validate (λ p. true) declaring.file ≡ none)
    × (validate
          (λ p. true)
          (record {
            tools =
                (
                  bytes "protoc",
                  record tool {
                    depends =
                        record { spec = []; task = bytes "a" }
                        ∷ record { spec = bytes "."; task = bytes "a" }
                        ∷ [];
                  },
                )
                ∷ [];
            commands = [];
            command_providers = [];
          })
        ≡ some (tool_depend_twice (bytes "protoc") 1))
unfolding validate containers
twice = (refl, refl)

build_tool_registry_iff_example :
    ((reg : Registry) × (build_tool_registry (using ∷ declaring ∷ []) ≡ registry reg)
      × (validate_tool_references (using ∷ declaring ∷ []) reg ≡ none))
    ↔ (NoDup (tool_names (using ∷ declaring ∷ []))
        × Uses (tool_names (using ∷ declaring ∷ [])) (using ∷ declaring ∷ []))
build_tool_registry_iff_example = build_tool_registry_iff (using ∷ declaring ∷ [])
