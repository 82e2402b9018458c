-- ===== src/Spec/Registry/Valid.antt =====
-- When the tools of the specs are accepted.
use sloff.Prelude.{
  ==-cases, All, In, In-append_cases, In-append_left, In-append_right, In-dec, List, Map, NoDup,
  NoDup-append, Option-cases, Str, Str_Eq, [], ap, inl, inr, insert, keys_of, lookup,
  lookup-insert_ne, lookup-insert_self, nat_Eq, none, refl, some, subst, sym, ◌++◌, ◌↔◌, ◌∙◌, ◌∷◌,
  ◌≡◌, ◌≢◌, ◌⊎◌,
}
use sloff.Spec.Defs.{Command, DeclaredTool, Spec}
use sloff.Spec.Commands.Valid.{and_then_iff}
use sloff.Spec.Registry.{
  ToolEntry, Registry, Registered, registry, Collision, collision, add_tools, add_specs,
  build_tool_registry, check_names, check_tool_commands, validate_tool_references,
}

-- The names of all declared tools.
abbrev pub tool_names : List Spec → List Str
tool_names [] = []
tool_names (sp ∷ specs) = keys_of sp.file.tools ++ tool_names specs

abbrev Free : Registry → Str → Type 0
Free reg n = lookup n reg ≡ none

-- What a successful loop means for the names it went over.
record Added (names : List Str) (reg out : Registry) : Type 0 where
  once : NoDup names
  fresh : (n : Str) → In n names → Free reg n
  left : (n : Str) → Free out n ↔ (Free reg n × ¬ In n names)

Free-insert :
    (k n : Str) (e : ToolEntry) (reg : Registry)
    → Free reg k
    → Free (insert k e reg) n ↔ (Free reg n × (n ≢ k))
Free-insert k n e reg f = elim (==-cases n k) [
  | inl (same, _) ↦ (
    λ h. let bad : some e ≡ none = sym (lookup-insert_self k e reg) ∙ (rw same at h) in cc,
    λ h. absurd (h.1 same),
  )
  | inr (other, g) ↦ (
    λ h. (sym (lookup-insert_ne k n e reg g) ∙ h, other),
    λ h. lookup-insert_ne k n e reg g ∙ h.0,
  )
]

not_registry : (c : Collision) (out : Registry) → collision c ≡ registry out → ⊥
not_registry c out h = cc

add_tools-Added :
    (dir : Str) (tools : Map Str DeclaredTool) (reg out : Registry)
    → add_tools dir tools reg ≡ registry out
    → Added (keys_of tools) reg out
unfolding add_tools
add_tools-Added dir [] reg out h =
    let same : reg ≡ out = cc in
    record {
      once = tt;
      fresh = λ n i. absurd i;
      left = λ n. (λ f. (ap (lookup n) same ∙ f, λ i. i), λ f. ap (lookup n) (sym same) ∙ f.0);
    }
add_tools-Added dir ((name, tool) ∷ tools) reg out h = elim (Option-cases (lookup name reg)) [
  | inr (e, g) ↦ absurd (not_registry _ out (rw (g, add_tools) at h))
  | inl free ↦
      let entry : ToolEntry = record { name = name; spec_dir = dir; declared = tool } in
      let later =
        add_tools-Added dir tools (insert name entry reg) out (rw (free, add_tools) at h) in
      record {
        once = (
          λ i. ((Free-insert name name entry reg free).0 (later.fresh name i)).1 refl,
          later.once,
        );
        fresh = λ n i. elim i [
          | inl same ↦ rw same free
          | inr i' ↦ ((Free-insert name n entry reg free).0 (later.fresh n i')).0
        ];
        left = λ n. (
          λ f.
              let (f', out_) = (later.left n).0 f in
              let (f'', other) = (Free-insert name n entry reg free).0 f' in
              (f'', λ i. elim i [ inl same ↦ other same | inr i' ↦ out_ i' ]),
          λ f.
              (later.left n).1
                ((Free-insert name n entry reg free).1 (f.0, λ e. f.1 (inl e)), λ i. f.1 (inr i)),
        );
      }
]

add_tools-registry :
    (dir : Str) (tools : Map Str DeclaredTool) (reg : Registry)
    → NoDup (keys_of tools)
    → ((n : Str) → In n (keys_of tools) → Free reg n)
    → (out : Registry) × (add_tools dir tools reg ≡ registry out)
unfolding add_tools
add_tools-registry dir [] reg d f = (reg, refl)
add_tools-registry dir ((name, tool) ∷ tools) reg d f =
    let entry : ToolEntry = record { name = name; spec_dir = dir; declared = tool } in
    let free = f name (inl refl) in
    let (out, e) = add_tools-registry dir tools (insert name entry reg) d.1 (λ n i.
      (Free-insert name n entry reg free).1
        (f n (inr i), λ same. d.0 (subst (λ x. In x (keys_of tools)) same i))) in
    (out, rw (free, add_tools) e)

NoDup-split :
    (xs ys : List Str) → NoDup (xs ++ ys) → NoDup xs × NoDup ys × ((n : Str) → In n xs → ¬ In n ys)
NoDup-split [] ys d = (tt, d, λ n i. absurd i)
NoDup-split (x ∷ xs) ys d =
    let (dx, dy, apart) = NoDup-split xs ys d.1 in
    (
      (λ i. d.0 (In-append_left x xs ys i), dx),
      dy,
      λ n i. elim i [
        | inl same ↦ λ j. d.0 (In-append_right x xs ys (rw (← same) j))
        | inr i' ↦ apart n i'
      ],
    )

add_specs-Added :
    (specs : List Spec) (reg out : Registry)
    → add_specs specs reg ≡ registry out
    → Added (tool_names specs) reg out
unfolding add_specs
add_specs-Added [] reg out h =
    let same : reg ≡ out = cc in
    record {
      once = tt;
      fresh = λ n i. absurd i;
      left = λ n. (λ f. (ap (lookup n) same ∙ f, λ i. i), λ f. ap (lookup n) (sym same) ∙ f.0);
    }
add_specs-Added (sp ∷ specs) reg out h =
    elim (registered_cases (add_tools sp.dir sp.file.tools reg)) [
      | inl (c, e) ↦ absurd (not_registry c out (rw (e, add_specs) at h))
      | inr (mid, e) ↦
          let own = add_tools-Added sp.dir sp.file.tools reg mid e in
          let later = add_specs-Added specs mid out (rw (e, add_specs) at h) in
          let apart : (n : Str) → In n (keys_of sp.file.tools) → ¬ In n (tool_names specs) =
            λ n i j. ((own.left n).0 (later.fresh n j)).1 i in
          record {
            once =
                NoDup-append (keys_of sp.file.tools) (tool_names specs) own.once later.once apart;
            fresh = λ n i. elim (In-append_cases n (keys_of sp.file.tools) (tool_names specs) i) [
              | inl i' ↦ own.fresh n i'
              | inr i' ↦ ((own.left n).0 (later.fresh n i')).0
            ];
            left = λ n. (
              λ f.
                  let (f', out') = (later.left n).0 f in
                  let (f'', out'') = (own.left n).0 f' in
                  (
                    f'',
                    λ i. elim (In-append_cases n (keys_of sp.file.tools) (tool_names specs) i) [
                      | inl i' ↦ out'' i'
                      | inr i' ↦ out' i'
                    ],
                  ),
              λ f. (later.left n).1 (
                (own.left n).1
                    (f.0, λ i. f.1 (In-append_left n (keys_of sp.file.tools) (tool_names specs) i)),
                λ i. f.1 (In-append_right n (keys_of sp.file.tools) (tool_names specs) i),
              ),
            );
          }
    ]
  where
    registered_cases :
        (r : Registered)
        → ((c : Collision) × (r ≡ collision c)) ⊎ ((m : Registry) × (r ≡ registry m))
    registered_cases (collision c) = inl (c, refl)
    registered_cases (registry m) = inr (m, refl)

add_specs-registry :
    (specs : List Spec) (reg : Registry)
    → NoDup (tool_names specs)
    → ((n : Str) → In n (tool_names specs) → Free reg n)
    → (out : Registry) × (add_specs specs reg ≡ registry out)
unfolding add_specs
add_specs-registry [] reg d f = (reg, refl)
add_specs-registry (sp ∷ specs) reg d f =
    let (dx, dy, apart) = NoDup-split (keys_of sp.file.tools) (tool_names specs) d in
    let (mid, e) =
      add_tools-registry sp.dir sp.file.tools reg dx
        (λ n i. f n (In-append_left n (keys_of sp.file.tools) (tool_names specs) i)) in
    let own = add_tools-Added sp.dir sp.file.tools reg mid e in
    let (out, g) = add_specs-registry specs mid dy (λ n i.
      (own.left n).1
        (f n (In-append_right n (keys_of sp.file.tools) (tool_names specs) i), λ j. apart n j i)) in
    (out, rw (e, add_specs) g)

-- Each name has an entry.
abbrev Known : Registry → List Str → Type 0
Known reg names = All (λ n. ¬ Free reg n) names

check_names_iff :
    (reg : Registry) (dir command : Str) (names : List Str)
    → (check_names reg dir command names ≡ none) ↔ Known reg names
unfolding check_names
check_names_iff reg dir command [] = (λ h. tt, λ h. refl)
check_names_iff reg dir command (n ∷ names) = elim (Option-cases (lookup n reg)) [
  | inl e ↦ rw (e, check_names) (λ h. cc, λ h. absurd (h.0 refl))
  | inr (x, e) ↦
      let rest = check_names_iff reg dir command names in
      rw (e, check_names) (λ h. (λ f. cc, rest.0 h), λ h. rest.1 h.1)
]

check_tool_commands_iff :
    (reg : Registry) (dir : Str) (cs : List Command)
    → (check_tool_commands reg dir cs ≡ none) ↔ All (λ (c : Command). Known reg c.tools) cs
unfolding check_tool_commands
check_tool_commands_iff reg dir [] = (λ h. tt, λ h. refl)
check_tool_commands_iff reg dir (c ∷ cs) =
    let split =
      and_then_iff (check_names reg dir c.name c.tools) (check_tool_commands reg dir cs) in
    let first = check_names_iff reg dir c.name c.tools in
    let rest = check_tool_commands_iff reg dir cs in
    (λ h. (first.0 (split.0 h).0, rest.0 (split.0 h).1), λ h. split.1 (first.1 h.0, rest.1 h.1))

validate_tool_references_iff :
    (specs : List Spec) (reg : Registry)
    → (validate_tool_references specs reg ≡ none)
      ↔ All (λ (sp : Spec). All (λ (c : Command). Known reg c.tools) sp.file.commands) specs
unfolding validate_tool_references
validate_tool_references_iff [] reg = (λ h. tt, λ h. refl)
validate_tool_references_iff (sp ∷ specs) reg =
    let split =
      and_then_iff (check_tool_commands reg sp.dir sp.file.commands)
        (validate_tool_references specs reg) in
    let first = check_tool_commands_iff reg sp.dir sp.file.commands in
    let rest = validate_tool_references_iff specs reg in
    (λ h. (first.0 (split.0 h).0, rest.0 (split.0 h).1), λ h. split.1 (first.1 h.0, rest.1 h.1))

All-map :
    {A : Type 0} (P Q : A → Type 0) (xs : List A) → ((a : A) → P a → Q a) → All P xs → All Q xs
All-map P Q [] f h = tt
All-map P Q (x ∷ xs) f h = (f x h.0, All-map P Q xs f h.1)

-- Every command uses only names of the list.
abbrev pub Uses : List Str → List Spec → Type 0
Uses names specs =
    All (λ (sp : Spec). All (λ (c : Command). All (λ n. In n names) c.tools) sp.file.commands) specs

-- BuildToolRegistry gives a registry against which ValidateToolReferences finds no error, exactly if no
-- tool is declared twice in all files and every tool that a command uses is declared in one of them.
pub build_tool_registry_iff :
    (specs : List Spec)
    → ((reg : Registry) × (build_tool_registry specs ≡ registry reg)
        × (validate_tool_references specs reg ≡ none))
      ↔ (NoDup (tool_names specs) × Uses (tool_names specs) specs)
unfolding build_tool_registry lookup
build_tool_registry_iff specs = (
  λ h.
      let (reg, e, valid) = h in
      let a = add_specs-Added specs [] reg e in
      (
        a.once,
        across reg
            (λ n known. elim (In-dec n (tool_names specs)) [
              | inl i ↦ i
              | inr out ↦ absurd (known ((a.left n).1 (refl, out)))
            ])
            ((validate_tool_references_iff specs reg).0 valid),
      ),
  λ h.
      let (reg, e) = add_specs-registry specs [] h.0 (λ n i. refl) in
      let a = add_specs-Added specs [] reg e in
      (
        reg,
        e,
        (validate_tool_references_iff specs reg).1 (back reg (λ n i f. ((a.left n).0 f).1 i) h.1),
      ),
)
  where
    across :
        (reg : Registry)
        → ((n : Str) → ¬ Free reg n → In n (tool_names specs))
        → All (λ (sp : Spec). All (λ (c : Command). Known reg c.tools) sp.file.commands) specs
        → Uses (tool_names specs) specs
    across reg f h =
        All-map _ _ specs
          (λ sp k.
            All-map _ _ sp.file.commands
              (λ c l. All-map (λ n. ¬ Free reg n) (λ n. In n (tool_names specs)) c.tools f l) k)
          h

    back :
        (reg : Registry)
        → ((n : Str) → In n (tool_names specs) → ¬ Free reg n)
        → Uses (tool_names specs) specs
        → All (λ (sp : Spec). All (λ (c : Command). Known reg c.tools) sp.file.commands) specs
    back reg f h =
        All-map _ _ specs
          (λ sp k.
            All-map _ _ sp.file.commands
              (λ c l. All-map (λ n. In n (tool_names specs)) (λ n. ¬ Free reg n) c.tools f l) k)
          h
