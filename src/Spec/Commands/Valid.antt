-- ===== src/Spec/Commands/Valid.antt =====
-- ValidateCommands accepts exactly the well-formed command lists.
use sloff.Prelude.{
  All, Bool, Bool-cases, In, List, NoDup, Option, Str, Str_Eq, [], arith, contains_of_not, false,
  inl, inr, map, nat_Eq, none, not, not-In, refl, some, subst, suc, true, ℕ, ◌↔◌, ◌∷◌, ◌≡◌, ◌≢◌,
  ◌⊎◌,
}
use sloff.Spec.Defs.{Depend, Command, is_depend_pattern, is_abs}
use sloff.Spec.Commands.{
  CommandError, ◌and_then◌, reject_if, empty, is_slug, check_shape, check_tools, check_depend,
  check_depends, check_command, check_commands, validate_commands,
}

-- A barrier declares depends and nothing else; any other task declares all that a task needs.
abbrev pub Shape : Command → Type 0
Shape c =
    (c.barrier ≡ true)
      × (c.cmd ≡ [])
      × (c.inputs ≡ [])
      × (c.outputs ≡ [])
      × (c.tools ≡ [])
      × (c.depends ≢ [])
    ⊎ (c.barrier ≡ false) × (c.cmd ≢ []) × (c.inputs ≢ []) × (c.outputs ≢ []) × (c.tools ≢ [])

pub and_then_iff {ℓ} :
    {E : Type ℓ} (a b : Option E) → ((a and_then b) ≡ none) ↔ ((a ≡ none) × (b ≡ none))
and_then_iff none b = (λ h. (refl, h), λ h. h.1)
and_then_iff (some e) b = (λ h. cc, λ h. cc)

reject_iff {ℓ} : {E : Type ℓ} (b : Bool) (e : E) → (reject_if b e ≡ none) ↔ (b ≡ false)
reject_iff true e = (λ h. cc, λ h. cc)
reject_iff false e = (λ h. refl, λ h. refl)

empty_iff {ℓ} : {A : Type ℓ} (xs : List A) → (empty xs ≡ true) ↔ (xs ≡ [])
empty_iff [] = (λ h. refl, λ h. refl)
empty_iff (x ∷ xs) = (λ h. cc, λ h. cc)

nonempty_iff {ℓ} : {A : Type ℓ} (xs : List A) → (empty xs ≡ false) ↔ (xs ≢ [])
nonempty_iff [] = (λ h. cc, λ h. absurd (h refl))
nonempty_iff (x ∷ xs) = (λ h e. cc, λ h. refl)

check_shape_iff : (i : ℕ) (c : Command) → (check_shape i c ≡ none) ↔ Shape c
unfolding check_shape
check_shape_iff i c = ground (
  arith,
  empty_iff c.cmd,
  empty_iff c.inputs,
  empty_iff c.outputs,
  empty_iff c.tools,
  nonempty_iff c.depends,
)

check_tools_iff :
    (i j : ℕ) (names : List Str) → (check_tools i j names ≡ none) ↔ All (λ n. n ≢ []) names
unfolding check_tools
check_tools_iff i j [] = (λ h. tt, λ h. refl)
check_tools_iff i j ([] ∷ names) = (λ h. cc, λ h. absurd (h.0 refl))
check_tools_iff i j ((c ∷ n) ∷ names) =
    let later = check_tools_iff i (suc j) names in (λ h. (λ e. cc, later.0 h), λ h. later.1 h.1)

module _ (valid_pattern : Str → Bool) where
  pub record DependOk (d : Depend) : Type 0 where
    pub task_named : d.task ≢ []
    pub relative : is_abs d.spec ≡ false
    pub well_formed : is_depend_pattern d.task ≡ true → valid_pattern d.task ≡ true

  check_depend_iff : (i j : ℕ) (d : Depend) → (check_depend valid_pattern i j d ≡ none) ↔ DependOk d
  unfolding check_depend
  check_depend_iff i j d = ground (arith, empty_iff d.task, nonempty_iff d.task)

  check_depends_iff :
      (i j : ℕ) (ds : List Depend) → (check_depends valid_pattern i j ds ≡ none) ↔ All DependOk ds
  unfolding check_depends
  check_depends_iff i j [] = (λ h. tt, λ h. refl)
  check_depends_iff i j (d ∷ ds) =
      let split =
        and_then_iff (check_depend valid_pattern i j d)
          (check_depends valid_pattern i (suc j) ds) in
      let first = check_depend_iff i j d in
      let later = check_depends_iff i (suc j) ds in
      (λ h. (first.0 (split.0 h).0, later.0 (split.0 h).1), λ h. split.1 (first.1 h.0, later.1 h.1))

  pub record CommandOk (c : Command) : Type 0 where
    pub slug : is_slug c.name ≡ true
    pub shape : Shape c
    pub tools_named : All (λ n. n ≢ []) c.tools
    pub depends_ok : All DependOk c.depends

  check_command_iff :
      (i : ℕ) (seen : List Str) (c : Command)
      → (check_command valid_pattern i seen c ≡ none) ↔ (CommandOk c × ¬ In c.name seen)
  unfolding check_command
  check_command_iff i seen c = (
    λ h.
        let (_, h1) = (and_then_iff _ _).0 h in
        let (s, h2) = (and_then_iff _ _).0 h1 in
        let (p, h3) = (and_then_iff _ _).0 h2 in
        let (t, h4) = (and_then_iff _ _).0 h3 in
        let (d, n) = (and_then_iff _ _).0 h4 in
        (
          record {
            slug = slug_of _ s;
            shape = (check_shape_iff i c).0 p;
            tools_named = (check_tools_iff i 0 c.tools).0 t;
            depends_ok = (check_depends_iff i 0 c.depends).0 d;
          },
          not-In seen c.name ((reject_iff _ _).0 n),
        ),
    λ (v, n). (and_then_iff _ _).1 (
      named c.name v.slug,
      (and_then_iff _ _).1 (
        (reject_iff _ _).1 (rw v.slug),
        (and_then_iff _ _).1 (
          (check_shape_iff i c).1 v.shape,
          (and_then_iff _ _).1 (
            (check_tools_iff i 0 c.tools).1 v.tools_named,
            (and_then_iff _ _).1 (
              (check_depends_iff i 0 c.depends).1 v.depends_ok,
              (reject_iff _ _).1 (contains_of_not seen c.name n),
            ),
          ),
        ),
      ),
    ),
  )
    where
      slug_of :
          (e : CommandError) → reject_if (not (is_slug c.name)) e ≡ none → is_slug c.name ≡ true
      slug_of e h = elim (Bool-cases (is_slug c.name)) [
        | inl t ↦ t
        | inr f ↦ let bad : some e ≡ none = rw f at h in cc
      ]

      named :
          (s : Str) → is_slug s ≡ true → reject_if (empty s) (CommandError.name_required i) ≡ none
      named [] h = unfold is_slug in cc
      named (x ∷ s) h = refl

  check_commands_iff :
      (i : ℕ) (seen : List Str) (cs : List Command)
      → (check_commands valid_pattern i seen cs ≡ none) ↔ (
          All CommandOk cs
          × NoDup (map (λ (c : Command). c.name) cs)
          × ((n : Str) → In n (map (λ (c : Command). c.name) cs) → ¬ In n seen))
  unfolding check_commands
  check_commands_iff i seen [] = (λ h. (tt, tt, λ n m. absurd m), λ h. refl)
  check_commands_iff i seen (c ∷ cs) =
      let names = map (λ (x : Command). x.name) cs in
      let split =
        and_then_iff (check_command valid_pattern i seen c)
          (check_commands valid_pattern (suc i) (c.name ∷ seen) cs) in
      let first = check_command_iff i seen c in
      let later = check_commands_iff (suc i) (c.name ∷ seen) cs in
      (
        λ h.
            let (v, n) = first.0 (split.0 h).0 in
            let (vs, d, apart) = later.0 (split.0 h).1 in
            (
              (v, vs),
              (λ m. apart c.name m (inl refl), d),
              λ x m. elim m [ inl e ↦ rw e n | inr i' ↦ λ s. apart x i' (inr s) ],
            ),
        λ (vs, d, apart). split.1 (
          first.1 (vs.0, apart c.name (inl refl)),
          later.1 (
            vs.1,
            d.1,
            λ x m s. elim s [
              | inl e ↦ d.0 (subst (λ y. In y names) e m)
              | inr old ↦ apart x (inr m) old
            ],
          ),
        ),
      )

  -- ValidateCommands returns no error exactly for the lists in which all names differ and each command
  -- has a slug for its name, the fields that its kind demands, no empty tool name, and depends entries
  -- that name a task, are relative, and are well formed where they are patterns.
  pub validate_commands_iff :
      (cmds : List Command)
      → (validate_commands valid_pattern cmds ≡ none)
        ↔ (All CommandOk cmds × NoDup (map (λ (c : Command). c.name) cmds))
  unfolding validate_commands
  validate_commands_iff cmds =
      let whole = check_commands_iff 0 [] cmds in
      (λ h. ((whole.0 h).0, (whole.0 h).1), λ (v, d). whole.1 (v, d, λ n m i. i))
