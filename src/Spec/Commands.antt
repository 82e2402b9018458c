-- ===== src/Spec/Commands.antt =====
-- ValidateCommands and its relatives in spec.go: the structural rules of one file. Each check gives
-- the first error that the source returns, or none. Which glob patterns are well formed is
-- doublestar's to say.
pub mod Valid
use sloff.Prelude.{
  Bool, List, Option, Str, Str_Eq, [], all, contains, false, if◌then◌else◌, leb, nat_Eq, nat_eq,
  none, not, some, suc, true, ℕ, ◌&&◌, ◌||◌, ◌∷◌,
}
use sloff.Spec.Defs.{Depend, Command, CommandProviderDecl, is_depend_pattern, contains_meta, is_abs}
use sloff.Spec.Paths.{clean}

-- An error with the index of the command, and of the tool or depends entry in it.
pub data CommandError : Type 0 where
  name_required name_mismatch barrier_with_work barrier_without_depends : ℕ → CommandError
  cmd_required inputs_required outputs_required tools_required : ℕ → CommandError
  tool_empty depend_without_task depend_absolute depend_malformed : ℕ → ℕ → CommandError
  duplicate_name : Str → CommandError

infixr 5 ◌and_then◌
abbrev pub ◌and_then◌ {ℓ} : {E : Type ℓ} → Option E → Option E → Option E
none and_then k = k
(some e) and_then k = some e

abbrev pub reject_if {ℓ} : {E : Type ℓ} → Bool → E → Option E
reject_if true e = some e
reject_if false e = none

abbrev pub empty {ℓ} : {A : Type ℓ} → List A → Bool
empty [] = true
empty (x ∷ xs) = false

slug_start : ℕ → Bool
slug_start c = (leb b'a' c && leb c b'z') || (leb b'0' c && leb c b'9')

slug_byte : ℕ → Bool
unfolding slug_start
slug_byte c = slug_start c || (nat_eq c b'_' || nat_eq c b'-')

-- toolNamePattern: ^[a-z0-9][a-z0-9_-]*$
unfoldable pub is_slug : Str → Bool
unfolding slug_start slug_byte
is_slug [] = false
is_slug (c ∷ s) = slug_start c && all slug_byte s

pub check_shape : ℕ → Command → Option CommandError
check_shape i c =
    if c.barrier
    then (reject_if (not (empty c.cmd && (empty c.inputs && (empty c.outputs && empty c.tools))))
          (barrier_with_work i)
        and_then reject_if (empty c.depends) (barrier_without_depends i))
    else (reject_if (empty c.cmd) (cmd_required i)
        and_then reject_if (empty c.inputs) (inputs_required i)
        and_then reject_if (empty c.outputs) (outputs_required i)
        and_then reject_if (empty c.tools) (tools_required i))

pub check_tools : ℕ → ℕ → List Str → Option CommandError
check_tools i j [] = none
check_tools i j (name ∷ names) =
    reject_if (empty name) (tool_empty i j) and_then check_tools i (suc j) names

module _ (valid_pattern : Str → Bool) where
  pub check_depend : ℕ → ℕ → Depend → Option CommandError
  check_depend i j d =
      reject_if (empty d.task) (depend_without_task i j)
      and_then reject_if (is_abs d.spec) (depend_absolute i j)
      and_then reject_if (is_depend_pattern d.task && not (valid_pattern d.task))
          (depend_malformed i j)

  pub check_depends : ℕ → ℕ → List Depend → Option CommandError
  unfolding check_depend
  check_depends i j [] = none
  check_depends i j (d ∷ ds) = check_depend i j d and_then check_depends i (suc j) ds

  pub check_command : ℕ → List Str → Command → Option CommandError
  unfolding check_shape check_tools check_depends
  check_command i seen c =
      reject_if (empty c.name) (name_required i)
      and_then reject_if (not (is_slug c.name)) (name_mismatch i)
      and_then check_shape i c
      and_then check_tools i 0 c.tools
      and_then check_depends i 0 c.depends
      and_then reject_if (contains seen c.name) (duplicate_name c.name)

  pub check_commands : ℕ → List Str → List Command → Option CommandError
  unfolding check_command
  check_commands i seen [] = none
  check_commands i seen (c ∷ cs) =
      check_command i seen c and_then check_commands (suc i) (c.name ∷ seen) cs

  -- ValidateCommands
  unfoldable pub validate_commands : List Command → Option CommandError
  unfolding check_commands
  validate_commands cmds = check_commands 0 [] cmds
