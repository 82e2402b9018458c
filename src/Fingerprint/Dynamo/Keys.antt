-- ===== src/Fingerprint/Dynamo/Keys.antt =====
-- keys.go: the items of the table and their primary keys.
use sloff.Prelude.{
  Bool, Eq, In, Option, Str, Str_Eq, [], ap, append_of-cut, arith, cut, cut-append, nat_Eq, none,
  not-In-cut, some, str_eq, str_eq_iff, sym, true, ℕ, ◌&&◌, ◌++◌, ◌↔◌, ◌∙◌, ◌∷◌, ◌≡◌, ◌≢◌,
}
use sloff.Fingerprint.Defs.{Key, key_eq_iff}

-- skSeparator
abbrev pub sk_separator : ℕ
sk_separator = b'#'

-- A time is the number of seconds that the attribute holds; the zero time of an item without the
-- attribute is `none`.
pub record Item : Type 0 where
  pub pk : Str
  pub sk : Str
  pub record_bytes : Str
  pub created_at : Option ℕ
  pub expires_at : Option ℕ

pub record PrimaryKey : Type 0 where
  pub pk : Str
  pub sk : Str

abbrev pub primary_eq : PrimaryKey → PrimaryKey → Bool
primary_eq a b = str_eq a.pk b.pk && str_eq a.sk b.sk

pub primary_eq_iff : (a b : PrimaryKey) → (primary_eq a b ≡ true) ↔ (a ≡ b)
primary_eq_iff a b = ground (arith, str_eq_iff a.pk b.pk, str_eq_iff a.sk b.sk)

instance abbrev pub Primary_Eq : Eq PrimaryKey
Primary_Eq = record { same_as = primary_eq; same_iff = primary_eq_iff }

unfoldable pub sort_key : Key → Str
sort_key k = k.task_id ++ (sk_separator ∷ k.input_hash)

unfoldable pub new_primary_key : Key → PrimaryKey
unfolding sort_key
new_primary_key k = record { pk = k.spec_relpath; sk = sort_key k }

-- The parts around the first separator, unless one is empty.
unfoldable pub both_parts : Option (Str × Str) → Option (Str × Str)
both_parts (some (a ∷ task, b ∷ hash)) = some (a ∷ task, b ∷ hash)
both_parts _ = none

unfoldable pub parse_sort_key : Str → Option (Str × Str)
unfolding cut both_parts
parse_sort_key s = both_parts (cut sk_separator s)

unfoldable pub sort_key_task_prefix : Str → Str
sort_key_task_prefix task_id = task_id ++ sk_separator ∷ []

unfoldable pub to_key : Item → Option Key
unfolding parse_sort_key
to_key i = elim (parse_sort_key i.sk) [
  | none ↦ none
  | some (task, hash) ↦ some (record { spec_relpath = i.pk; task_id = task; input_hash = hash })
]

both_parts_iff :
    (o : Option (Str × Str)) (task hash : Str)
    → (both_parts o ≡ some (task, hash)) ↔ ((o ≡ some (task, hash)) × (task ≢ []) × (hash ≢ []))
unfolding both_parts
both_parts_iff none task hash = (λ h. cc, λ h. cc)
both_parts_iff (some ([], b)) task hash =
    (λ h. cc, λ h. absurd (h.1 (let e : [] ≡ task = cc in sym e)))
both_parts_iff (some (a ∷ x, [])) task hash =
    (λ h. cc, λ h. absurd (h.2 (let e : [] ≡ hash = cc in sym e)))
both_parts_iff (some (a ∷ x, b ∷ y)) task hash = (
  λ h.
      let first : a ∷ x ≡ task = cc in
      let second : b ∷ y ≡ hash = cc in
      (
        h,
        λ e. let bad : a ∷ x ≡ [] = first ∙ e in cc,
        λ e. let bad : b ∷ y ≡ [] = second ∙ e in cc,
      ),
  λ h. h.0,
)

-- parseSortKey accepts exactly the texts made of a task id without separator, a separator and a hash,
-- both not empty, and returns the two.
pub parse_sort_key_iff :
    (s task hash : Str)
    → (parse_sort_key s ≡ some (task, hash))
      ↔ ((s ≡ task ++ (sk_separator ∷ hash)) × (task ≢ []) × (hash ≢ []) × ¬ In sk_separator task)
unfolding parse_sort_key
parse_sort_key_iff s task hash = (
  λ h.
      let (found, t, n) = (both_parts_iff (cut sk_separator s) task hash).0 h in
      (
        append_of-cut sk_separator s task hash found,
        t,
        n,
        not-In-cut sk_separator s task hash found,
      ),
  λ h.
      let (e, t, n, out) = h in
      (both_parts_iff (cut sk_separator s) task hash).1
        (ap (cut sk_separator) e ∙ cut-append sk_separator task hash out, t, n),
)

-- Keys whose task ids hold no separator have different primary keys if they differ.
pub new_primary_key-inj :
    (j k : Key)
    → ¬ In sk_separator j.task_id
    → ¬ In sk_separator k.task_id
    → new_primary_key j ≡ new_primary_key k
    → j ≡ k
unfolding new_primary_key sort_key
new_primary_key-inj j k clear_j clear_k h =
    let specs : j.spec_relpath ≡ k.spec_relpath = ap (λ (p : PrimaryKey). p.pk) h in
    let sks : j.task_id ++ (sk_separator ∷ j.input_hash)
        ≡ k.task_id ++ (sk_separator ∷ k.input_hash) =
      ap (λ (p : PrimaryKey). p.sk) h in
    let both : ◌≡◌ {A = Option (Str × Str)} (some (j.task_id, j.input_hash))
        (some (k.task_id, k.input_hash)) =
      sym (cut-append sk_separator j.task_id j.input_hash clear_j)
      ∙ ap (cut sk_separator) sks
      ∙ cut-append sk_separator k.task_id k.input_hash clear_k in
    let tasks : j.task_id ≡ k.task_id = cc in
    let hashes : j.input_hash ≡ k.input_hash = cc in
    let a = (str_eq_iff j.spec_relpath k.spec_relpath).1 specs in
    let b = (str_eq_iff j.task_id k.task_id).1 tasks in
    let c = (str_eq_iff j.input_hash k.input_hash).1 hashes in
    (key_eq_iff j k).0 (ground (arith, a, b, c))
