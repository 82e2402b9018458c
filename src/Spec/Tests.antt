-- ===== src/Spec/Tests.antt =====
-- Two small files that refer to each other.
use sloff.Prelude.{
  All, In, List, NoDup, Str_Eq, String, [], bytes, containers, false, has_prefix, map, nat_Eq, none,
  refl, some, true, ◌↔◌, ◌∷◌, ◌≡◌,
}
use sloff.Spec.Defs.{is_abs, is_depend_pattern, Depend, Command, Spec, EdgeKey_Eq}
use sloff.Spec.Commands.{is_slug, validate_commands}
use sloff.Spec.Commands.Valid as Commands
use sloff.Spec.Paths.{segments, dot_dot, clean_stack, clean, escapes_root}
use sloff.Spec.Paths.Inside.{clean-inside}
use sloff.Spec.References.{not_found, defined_tasks, validate_depend_references}
use sloff.Spec.References.Valid as References

abbrev command : String → List Depend → Command
command name deps = record {
  cmd = bytes "gen" ∷ [];
  depends = deps;
  barrier = false;
  inputs = bytes "in/**" ∷ [];
  name = bytes name;
  outputs = bytes "out.go" ∷ [];
  tools = bytes "gen" ∷ [];
}

abbrev depend : String → String → Depend
depend dir task = record { spec = bytes dir; task = bytes task }

abbrev spec : String → List Command → Spec
spec dir cs = record {
  dir = bytes dir;
  path = [];
  file = record { tools = []; commands = cs; command_providers = [] };
}

abbrev commands : List Command
commands = command "a" [] ∷ command "b-2" (depend "" "a" ∷ depend "../x" "gen-*" ∷ []) ∷ []

commands_pass : validate_commands (λ p. true) commands ≡ none
unfolding validate_commands is_slug is_abs is_depend_pattern containers
commands_pass = refl

validate_commands_iff_example : (validate_commands (λ p. true) commands ≡ none) ↔ (
    All (Commands.CommandOk (λ p. true)) commands × NoDup (map (λ (c : Command). c.name) commands))
validate_commands_iff_example = Commands.validate_commands_iff (λ p. true) commands

abbrev specs : List Spec
specs =
    spec "svc/a" (command "a" [] ∷ command "b" (depend "" "a" ∷ depend "../../lib" "a" ∷ []) ∷ [])
    ∷ spec "lib" (command "a" [] ∷ [])
    ∷ []

specs_pass : validate_depend_references specs ≡ none
unfolding validate_depend_references containers
specs_pass = refl

-- The same reference from another directory.
specs_fail :
    validate_depend_references (spec "svc" (command "b" (depend "../x" "a" ∷ []) ∷ []) ∷ [])
    ≡ some (not_found (bytes "svc") (bytes "b") 0)
unfolding validate_depend_references containers
specs_fail = refl

validate_depend_references_iff_example :
    (validate_depend_references specs ≡ none)
    ↔ All
        (λ (sp : Spec). All (References.CommandOk (defined_tasks specs) sp.dir) sp.file.commands)
        specs
validate_depend_references_iff_example = References.validate_depend_references_iff specs

svc_inside : escapes_root (clean (bytes "svc/../a")) ≡ false
unfolding clean escapes_root has_prefix containers
svc_inside = refl

clean-inside_example : ¬ In dot_dot (clean_stack false [] (segments (bytes "svc/../a")))
clean-inside_example = clean-inside b's' (bytes "vc/../a") refl svc_inside
