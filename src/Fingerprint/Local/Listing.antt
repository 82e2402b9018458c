-- ===== src/Fingerprint/Local/Listing.antt =====
-- List, CollapseDuplicates, LoadMany and SaveMany. The walk visits the directories of the tree; a
-- directory that cannot be read fails it. The goroutines of the bulk operations work on separate keys
-- one after the other here; the first error is the result.
use sloff.Prelude.{
  ==-cases, ==_ne, Bool, In, In-dec, List, Map, Option, Str, Str_Eq, [], any, ap, false,
  if◌then◌else◌, inl, inr, insert, keep, keys_of, lookup, lookup-insert_ne, lookup-insert_self, ltb,
  nat_Eq, none, not, refl, some, sort, str_eq, str_ltb, subst, sym, true, without, ℕ, ◌&&◌, ◌+◌,
  ◌||◌, ◌∙◌, ◌∷◌, ◌≡◌, ◌≢◌, ◌⊎◌,
}
use sloff.Spec.Paths.{join_segments}
use sloff.Fingerprint.Defs.{Key, Key_Eq, Record, ListFilter}
use sloff.Fingerprint.Bytes.{Proto}
use sloff.Fingerprint.Cached.{Result, ok, failed}
use sloff.Fingerprint.Local.Filename.{split_filename}
use sloff.Fingerprint.Local.Store.{
  Node, file, subdirectory, Dir, Tree, Names_Eq, Faults, Moment, dir_for, entries_of, update,
  matching_names, load, save,
}

-- parts[:n-2] and parts[n-2], if there are so many.
unfoldable pub split_last : List Str → Option (List Str × Str)
split_last [] = none
split_last (s ∷ ss) = elim (split_last ss) [
  | none ↦ some ([], s)
  | some (init, end) ↦ some (s ∷ init, end)
]

-- The key of a file below the root.
unfoldable pub key_of : List Str → Str → Option Key
unfolding split_last split_filename join_segments
key_of dir name = elim (split_last dir) [
  | none ↦ none
  | some (spec, task) ↦ elim (split_filename name) [
    | none ↦ none
    | some (_, hash) ↦
        some (record { spec_relpath = join_segments spec; task_id = task; input_hash = hash })
  ]
]

-- The conditions on the spec and the task.
unfoldable pub admits : ListFilter → Key → Bool
admits f k =
    (str_eq f.spec_relpath [] || str_eq k.spec_relpath f.spec_relpath)
    && (str_eq f.task_id [] || str_eq k.task_id f.task_id)

-- `seen[key]`, which keeps the latest modification time.
unfoldable pub note_file : Key → ℕ → Map Key ℕ → Map Key ℕ
unfolding lookup insert
note_file k at seen = elim (lookup k seen) [
  | none ↦ insert k at seen
  | some latest ↦ if ltb latest at then insert k at seen else seen
]

-- The callback of the walk on one entry.
unfoldable pub visit_entry : ListFilter → List Str → Str × Node → Map Key ℕ → Map Key ℕ
unfolding key_of admits note_file
visit_entry f dir (name, subdirectory) seen = seen
visit_entry f dir (name, file b at) seen = elim (key_of dir name) [
  | none ↦ seen
  | some k ↦ if admits f k then note_file k at seen else seen
]

unfoldable pub visit_dir : ListFilter → List Str → Dir → Map Key ℕ → Map Key ℕ
unfolding visit_entry
visit_dir f dir [] seen = seen
visit_dir f dir (e ∷ d) seen = visit_dir f dir d (visit_entry f dir e seen)

unfoldable pub walk : ListFilter → Tree → Map Key ℕ → Map Key ℕ
unfolding visit_dir
walk f [] seen = seen
walk f ((dir, d) ∷ t) seen = walk f t (visit_dir f dir d seen)

-- `b.latest.Before(filter.OlderThan)`, or no such filter.
old_enough : ListFilter → Key × ℕ → Bool
old_enough f (k, latest) = elim f.older_than [ none ↦ true | some cutoff ↦ ltb latest cutoff ]

key_less : Key → Key → Bool
key_less a b =
    if not (str_eq a.spec_relpath b.spec_relpath)
    then str_ltb a.spec_relpath b.spec_relpath
    else if not (str_eq a.task_id b.task_id)
    then str_ltb a.task_id b.task_id
    else str_ltb a.input_hash b.input_hash

-- How the collapse ends: with the count of removed files, or an error after some of them.
pub data Collapsed : Type 0 where
  removed : ℕ → Collapsed
  stopped : ℕ → Collapsed
  -- `matches[1:]` of no matches
  panicked : Collapsed

module _ (faults : Faults) where
  unfoldable pub list : Tree → ListFilter → Result (List Key)
  unfolding walk old_enough key_less keep sort any
  list t f =
      if any (λ (e : List Str × Dir). faults.read_dir e.0) t
      then failed
      else ok (sort key_less (keys_of (keep (old_enough f) (walk f t []))))

  -- The removals of one key, counted.
  unfoldable pub remove_counted : List Str → List Str → Dir → Dir × ℕ × Bool
  unfolding without
  remove_counted dir [] d = (d, 0, true)
  remove_counted dir (name ∷ names) d =
      let (after, n, done) = remove_counted dir names (without name d) in
      if faults.remove dir name then (d, 0, false) else (after, n + 1, done)

  unfoldable pub collapse_keys : List Key → ℕ → Tree → Tree × Collapsed
  unfolding entries_of matching_names remove_counted update
  collapse_keys [] count t = (t, removed count)
  collapse_keys (k ∷ ks) count t =
      let dir = dir_for k in
      elim (matching_names k.input_hash (entries_of t dir)) [
        | [] ↦ if faults.read_dir dir then (t, stopped count) else (t, panicked)
        | earliest ∷ later ↦
            let (after, n, done) = remove_counted dir later (entries_of t dir) in
            let rest = collapse_keys ks (count + n) (update t dir after) in
            if faults.read_dir dir
            then (t, stopped count)
            else if done
            then rest
            else (update t dir after, stopped (count + n))
      ]

  unfoldable pub collapse_duplicates : Tree → Tree × Collapsed
  unfolding list collapse_keys
  collapse_duplicates t =
      elim (list t (record { spec_relpath = []; task_id = []; older_than = none })) [
        | failed ↦ (t, stopped 0)
        | ok ks ↦ collapse_keys ks 0 t
      ]

-- `out[key] = rec`, if there is a record.
add_found : Key → Option Record → Map Key Record → Map Key Record
unfolding insert
add_found k none out = out
add_found k (some r) out = insert k r out

module _ (proto : Proto) (faults : Faults) where
  unfoldable pub load_many : Tree → List Key → Result (Map Key Record)
  unfolding load add_found
  load_many t [] = ok []
  load_many t (k ∷ ks) =
      let rest = load_many t ks in
      elim (load proto faults t k) [
        | failed ↦ failed
        | ok o ↦ elim rest [ failed ↦ failed | ok out ↦ ok (add_found k o out) ]
      ]

  unfoldable pub save_many : Moment → Tree → List (Key × Record) → Tree × Result (Unit {0})
  unfolding save
  save_many at t [] = (t, ok tt)
  save_many at t ((k, r) ∷ items) =
      let (after, res) = save proto faults at t k r in
      let (last, rest) = save_many at after items in
      (last, elim res [ failed ↦ failed | ok _ ↦ rest ])

-- bulkConcurrencyDefault on a machine with `cpus` processors.
unfoldable pub bulk_concurrency_default : ℕ → ℕ
bulk_concurrency_default cpus = if ltb cpus 1 then 1 else if ltb 16 cpus then 16 else cpus

result_cases : {A : Type 0} (x : Result A) → (x ≡ failed) ⊎ ((a : A) × (x ≡ ok a))
result_cases failed = inl refl
result_cases (ok a) = inr (a, refl)

module _ (proto : Proto) (faults : Faults) (t : Tree) where
  lookup-add_found_ne :
      (j k : Key) (o : Option Record) (rest : Map Key Record)
      → k ≢ j
      → lookup k (add_found j o rest) ≡ lookup k rest
  unfolding add_found
  lookup-add_found_ne j k none rest n = refl
  lookup-add_found_ne j k (some r) rest n = lookup-insert_ne j k r rest (==_ne n)

  -- What LoadMany makes of the first key.
  load_many-cons :
      (k : Key) (ks : List Key) (out : Map Key Record)
      → load_many proto faults t (k ∷ ks) ≡ ok out
      → (o : Option Record) × (rest : Map Key Record) × (load proto faults t k ≡ ok o)
        × (load_many proto faults t ks ≡ ok rest)
        × (out ≡ add_found k o rest)
  unfolding load_many
  load_many-cons k ks out h = elim (result_cases (load proto faults t k)) [
    | inl e ↦ let bad : failed ≡ ok out = rw (e, load_many) at h in cc
    | inr (o, e) ↦ elim (result_cases (load_many proto faults t ks)) [
      | inl f ↦ let bad : failed ≡ ok out = rw (e, f, load_many) at h in cc
      | inr (rest, f) ↦
          let both : ok (add_found k o rest) ≡ ok out = rw (e, f, load_many) at h in
          let same : add_found k o rest ≡ out = cc in (o, rest, e, f, sym same)
    ]
  ]

  load_many-absent :
      (ks : List Key) (out : Map Key Record) (k : Key)
      → load_many proto faults t ks ≡ ok out
      → ¬ In k ks
      → lookup k out ≡ none
  unfolding load_many lookup
  load_many-absent [] out k h n = let e : [] ≡ out = cc in rw (← e) refl
  load_many-absent (j ∷ ks) out k h n =
      let (o, rest, _, e, same) = load_many-cons j ks out h in
      rw same (
        lookup-add_found_ne j k o rest (λ x. n (inl x))
        ∙ load_many-absent ks rest k e (λ i. n (inr i)))

  -- If LoadMany succeeds, its result has for each requested key what Load returns for it, and nothing
  -- for any other key.
  pub load_many-load :
      (ks : List Key) (out : Map Key Record) (k : Key)
      → load_many proto faults t ks ≡ ok out
      → (In k ks → load proto faults t k ≡ ok (lookup k out)) × (¬ In k ks → lookup k out ≡ none)
  unfolding add_found
  load_many-load ks out k h = (found ks out h, load_many-absent ks out k h)
    where
      twice :
          (j : Key) (o : Option Record) (rest : Map Key Record)
          → load proto faults t j ≡ ok o
          → load proto faults t j ≡ ok (lookup j rest)
          → load proto faults t j ≡ ok (lookup j (add_found j o rest))
      twice j none rest l again = again
      twice j (some r) rest l again = l ∙ ap ok (sym (lookup-insert_self j r rest))

      alone :
          (j : Key) (o : Option Record) (rest : Map Key Record)
          → load proto faults t j ≡ ok o
          → lookup j rest ≡ none
          → load proto faults t j ≡ ok (lookup j (add_found j o rest))
      alone j none rest l absent = l ∙ ap ok (sym absent)
      alone j (some r) rest l absent = l ∙ ap ok (sym (lookup-insert_self j r rest))

      found :
          (ks : List Key) (out : Map Key Record)
          → load_many proto faults t ks ≡ ok out
          → In k ks
          → load proto faults t k ≡ ok (lookup k out)
      found [] out h i = absurd i
      found (j ∷ ks) out h i =
          let (o, rest, l, e, same) = load_many-cons j ks out h in
          elim (==-cases k j) [
            | inl (first, _) ↦
                rw (same, first)
                  (elim (In-dec j ks) [
                    | inl again ↦ twice j o rest l (
                        subst (λ x. load proto faults t x ≡ ok (lookup x rest)) first
                          (found ks rest e (subst (λ x. In x ks) (sym first) again)))
                    | inr once ↦ alone j o rest l (load_many-absent ks rest j e once)
                  ])
            | inr (other, _) ↦ elim i [
              | inl first ↦ absurd (other first)
              | inr later ↦ rw (same, lookup-add_found_ne j k o rest other) (found ks rest e later)
            ]
          ]
