-- ===== src/Spec/References/Valid.antt =====
-- What a set of files that passes ValidateDependReferences promises of its depends entries.
use sloff.Prelude.{
  ==_ne, All, Bool, In, In-contains, List, NoDup, Str, Str_Eq, [], arith, contains, contains-In,
  contains_of_not, false, if◌then◌else◌, inl, inr, map, nat_Eq, ne_of_==, none, not, not-In, refl,
  some, subst, suc, true, ℕ, ◌==◌, ◌↔◌, ◌∷◌, ◌≡◌, ◌≢◌,
}
use sloff.Spec.Defs.{Depend, Command, Spec, EdgeKey, EdgeKey_Eq}
use sloff.Spec.Commands.Valid.{and_then_iff}
use sloff.Spec.Paths.{join, escapes_root}
use sloff.Spec.References.{
  outside_root, itself, not_found, duplicate, resolve_edge, defined_tasks, check_reference,
  check_references, check_file, check_files, validate_depend_references,
}

abbrev pub key_of : Str → Command → EdgeKey
key_of dir c = record { dir = dir; task = c.name }

-- A depends entry that stays inside the repository and names another, defined command.
pub record EdgeOk (defined : List EdgeKey) (dir : Str) (c : Command) (d : Depend) : Type 0 where
  pub inside : escapes_root (join dir d.spec) ≡ false
  pub other : resolve_edge dir d ≢ key_of dir c
  pub is_defined : In (resolve_edge dir d) defined

abbrev pub CommandOk : List EdgeKey → Str → Command → Type 0
CommandOk defined dir c =
    All (EdgeOk defined dir c) c.depends × NoDup (map (resolve_edge dir) c.depends)

-- Four tests in a row pass if none of them reports.
four_tests {ℓ} :
    {E : Type ℓ} (a b c d : Bool) (e f g h : E)
    → ((if a
          then some e
          else if b
          then some f
          else if not c
          then some g
          else if d
          then some h
          else none)
        ≡ none)
      ↔ ((a ≡ false) × (b ≡ false) × (c ≡ true) × (d ≡ false))
four_tests a b c d e f g h = ground arith

module _ (defined : List EdgeKey) (dir : Str) (c : Command) where
  check_reference_iff :
      (seen : List EdgeKey) (i : ℕ) (d : Depend)
      → (check_reference defined dir c seen i d ≡ none)
        ↔ (EdgeOk defined dir c d × ¬ In (resolve_edge dir d) seen)
  unfolding check_reference resolve_edge
  check_reference_iff seen i d =
      let key = resolve_edge dir d in
      let tests =
        four_tests (escapes_root (join dir d.spec)) (key == key_of dir c) (contains defined key)
          (contains seen key) (outside_root dir c.name i) (itself dir c.name i)
          (not_found dir c.name i) (duplicate dir c.name i) in
      (
        λ h.
            let (inside, apart, found, new) = tests.0 h in
            (
              record {
                inside = inside;
                other = ne_of_== apart;
                is_defined = contains-In defined key found;
              },
              not-In seen key new,
            ),
        λ (v, new). tests.1 (
          v.inside,
          ==_ne v.other,
          In-contains defined key v.is_defined,
          contains_of_not seen key new,
        ),
      )

  check_references_iff :
      (seen : List EdgeKey) (i : ℕ) (ds : List Depend)
      → (check_references defined dir c seen i ds ≡ none) ↔ (
          All (EdgeOk defined dir c) ds
          × NoDup (map (resolve_edge dir) ds)
          × ((k : EdgeKey) → In k (map (resolve_edge dir) ds) → ¬ In k seen))
  unfolding check_references
  check_references_iff seen i [] = (λ h. (tt, tt, λ k m. absurd m), λ h. refl)
  check_references_iff seen i (d ∷ ds) =
      let key = resolve_edge dir d in
      let first = check_reference_iff seen i d in
      let later = check_references_iff (key ∷ seen) (suc i) ds in
      let both =
        and_then_iff (check_reference defined dir c seen i d)
          (check_references defined dir c (key ∷ seen) (suc i) ds) in
      (
        λ h.
            let (vs, distinct, apart) = later.0 (both.0 h).1 in
            let (v, new) = first.0 (both.0 h).0 in
            (
              (v, vs),
              (λ m. apart key m (inl refl), distinct),
              λ k m. elim m [ inl e ↦ rw e new | inr m' ↦ λ old. apart k m' (inr old) ],
            ),
        λ (vs, distinct, apart). both.1 (
          first.1 (vs.0, apart key (inl refl)),
          later.1 (
            vs.1,
            distinct.1,
            λ k m old. elim old [
              | inl e ↦ distinct.0 (subst (λ x. In x (map (resolve_edge dir) ds)) e m)
              | inr old' ↦ apart k (inr m) old'
            ],
          ),
        ),
      )

check_file_iff :
    (defined : List EdgeKey) (dir : Str) (cs : List Command)
    → (check_file defined dir cs ≡ none) ↔ All (CommandOk defined dir) cs
unfolding check_file
check_file_iff defined dir [] = (λ h. tt, λ h. refl)
check_file_iff defined dir (c ∷ cs) =
    let first = check_references_iff defined dir c [] 0 c.depends in
    let later = check_file_iff defined dir cs in
    let both =
      and_then_iff (check_references defined dir c [] 0 c.depends) (check_file defined dir cs) in
    (
      λ h. let (vs, distinct, _) = first.0 (both.0 h).0 in ((vs, distinct), later.0 (both.0 h).1),
      λ v. both.1 (first.1 (v.0.0, v.0.1, λ k m old. old), later.1 v.1),
    )

check_files_iff :
    (defined : List EdgeKey) (specs : List Spec)
    → (check_files defined specs ≡ none)
      ↔ All (λ (sp : Spec). All (CommandOk defined sp.dir) sp.file.commands) specs
unfolding check_files
check_files_iff defined [] = (λ h. tt, λ h. refl)
check_files_iff defined (sp ∷ specs) =
    let first = check_file_iff defined sp.dir sp.file.commands in
    let later = check_files_iff defined specs in
    let both =
      and_then_iff (check_file defined sp.dir sp.file.commands) (check_files defined specs) in
    (λ h. (first.0 (both.0 h).0, later.0 (both.0 h).1), λ v. both.1 (first.1 v.0, later.1 v.1))

-- ValidateDependReferences returns no error exactly if each depends entry of each command resolves
-- to a directory inside the repository and to a command that one of the files defines and that is
-- not the declaring one, and no two entries of a command resolve to the same command.
pub validate_depend_references_iff :
    (specs : List Spec)
    → (validate_depend_references specs ≡ none)
      ↔ All (λ (sp : Spec). All (CommandOk (defined_tasks specs) sp.dir) sp.file.commands) specs
unfolding validate_depend_references
validate_depend_references_iff specs = check_files_iff (defined_tasks specs) specs
