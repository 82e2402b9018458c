-- ===== src/Fingerprint/Local/Store.antt =====
-- The directory of a key and the operations of the backend on it. The file system is a map from the
-- directories below `.sloff/fingerprints` to their entries; which calls of the operating system fail
-- is a parameter. ErrNotExist is no failure: the code treats it as absence.
use sloff.Prelude.{
  Bool, Eq, List, Map, Option, Str, Str_Eq, [], arith, bytes, false, if◌then◌else◌, insert, keep,
  keys_of, lookup, nat_Eq, none, not, refl, some, sort, str_eq, str_eq_iff, str_ltb, strip_suffix,
  true, without, ℕ, ◌&&◌, ◌++◌, ◌↔◌, ◌∷◌, ◌≡◌,
}
use sloff.Spec.Paths.{segments, clean, slash}
use sloff.Fingerprint.Defs.{Key, Record}
use sloff.Fingerprint.Bytes.{Proto, found, outdated, corrupt, unmarshal_bytes, marshal_bytes}
use sloff.Fingerprint.Cached.{Result, ok, failed}
use sloff.Fingerprint.Local.Filename.{
  Time, format_prefix, looks_like_timestamp, dash, file_ext, file_name,
}

-- A file with its bytes and its modification time.
pub data Node : Type 0 where
  subdirectory : Node
  file : Str → ℕ → Node

abbrev pub Dir : Type 0
Dir = Map Str Node

-- Paths of directories are the lists of their names.
abbrev pub names_eq : List Str → List Str → Bool
names_eq [] [] = true
names_eq (a ∷ p) (b ∷ q) = str_eq a b && names_eq p q
names_eq _ _ = false

pub names_eq_iff : (p q : List Str) → (names_eq p q ≡ true) ↔ (p ≡ q)
names_eq_iff [] [] = (λ _. refl, λ _. refl)
names_eq_iff [] (b ∷ q) = (λ h. cc, λ h. cc)
names_eq_iff (a ∷ p) [] = (λ h. cc, λ h. cc)
names_eq_iff (a ∷ p) (b ∷ q) = ground (arith, str_eq_iff a b, names_eq_iff p q)

instance abbrev pub Names_Eq : Eq (List Str)
Names_Eq = record { same_as = names_eq; same_iff = names_eq_iff }

abbrev pub Tree : Type 0
Tree = Map (List Str) Dir

-- The calls that fail.
pub record Faults : Type 0 where
  pub read_dir : List Str → Bool
  pub mkdir_all : List Str → Bool
  pub read_file : List Str → Str → Bool
  pub remove : List Str → Str → Bool
  pub create_temp : List Str → Bool
  -- a write, chmod or close of the temp file
  pub fill_temp : List Str → Bool
  pub rename : List Str → Bool

-- What a Save takes from outside: the clock, the random part of the temp name, the time of the write.
pub record Moment : Type 0 where
  pub clock : Time
  pub random : Str
  pub written_at : ℕ

-- dirFor, for task ids that are slugs.
unfoldable pub dir_for : Key → List Str
unfolding clean segments keep
dir_for k =
    let spec : Str = elim (clean (slash ∷ k.spec_relpath)) [ [] ↦ [] | _ ∷ rest ↦ rest ] in
    keep (λ s. not (str_eq s [])) (segments spec) ++ k.task_id ∷ []

unfoldable pub entries_of : Tree → List Str → Dir
unfolding lookup
entries_of t dir = elim (lookup dir t) [ none ↦ [] | some d ↦ d ]

-- The test of a name in matchingFiles.
unfoldable pub name_matches : Str → Str → Bool
unfolding strip_suffix looks_like_timestamp
name_matches hash name = elim (strip_suffix name (dash ∷ (hash ++ file_ext))) [
  | none ↦ false
  | some prefix ↦ looks_like_timestamp prefix
]

abbrev pub entry_matches : Str → Str × Node → Bool
entry_matches hash (name, subdirectory) = false
entry_matches hash (name, file b m) = name_matches hash name

-- matchingFiles in a directory that can be read.
unfoldable pub matching_names : Str → Dir → List Str
unfolding keep sort name_matches
matching_names hash d = sort str_ltb (keys_of (keep (entry_matches hash) d))

abbrev pub last : List Str → Option Str
last [] = none
last (x ∷ []) = some x
last (x ∷ y ∷ xs) = last (y ∷ xs)

unfoldable pub update : Tree → List Str → Dir → Tree
unfolding insert
update t dir d = insert dir d t

-- "."+filepath.Base(target)+".*.tmp"
unfoldable pub temp_name : Str → Str → Str
temp_name target random = bytes "." ++ (target ++ (bytes "." ++ (random ++ bytes ".tmp")))

abbrev pub outcome : Bool → Result (Unit {0})
outcome true = ok tt
outcome false = failed

module _ (faults : Faults) where
  -- os.Remove of some files in turn, up to the first that fails.
  unfoldable pub remove_files : List Str → List Str → Dir → Dir × Bool
  unfolding without
  remove_files dir [] d = (d, true)
  remove_files dir (name ∷ names) d =
      let rest = remove_files dir names (without name d) in
      if faults.remove dir name then (d, false) else rest

  -- os.Remove of the temp file, whose error is dropped.
  unfoldable pub discard : List Str → Str → Dir → Dir
  unfolding without
  discard dir temp d = if faults.remove dir temp then d else without temp d

  unfoldable pub write_file_atomic : Moment → List Str → Str → Str → Dir → Dir × Bool
  unfolding insert without discard temp_name
  write_file_atomic at dir target b d =
      let temp = temp_name target at.random in
      let created = insert temp (file [] at.written_at) d in
      let filled = insert temp (file b at.written_at) d in
      if faults.create_temp dir
      then (d, false)
      else if faults.fill_temp dir
      then (discard dir temp created, false)
      else if faults.rename dir
      then (discard dir temp filled, false)
      else (insert target (file b at.written_at) (without temp filled), true)

module _ (proto : Proto) (faults : Faults) where
  unfoldable pub matching_files : Tree → Key → Result (List Str)
  unfolding matching_names entries_of
  matching_files t k =
      if faults.read_dir (dir_for k)
      then failed
      else ok (matching_names k.input_hash (entries_of t (dir_for k)))

  -- os.ReadFile and Unmarshal.
  unfoldable pub read_record : Tree → List Str → Str → Result (Option Record)
  unfolding entries_of lookup unmarshal_bytes
  read_record t dir name =
      if faults.read_file dir name then failed else elim (lookup name (entries_of t dir)) [
        | some (file b _) ↦ elim (unmarshal_bytes proto b) [
          | found r ↦ ok (some r)
          | outdated ↦ ok none
          | corrupt ↦ failed
        ]
        | _ ↦ failed
      ]

  unfoldable pub load : Tree → Key → Result (Option Record)
  unfolding matching_files read_record
  load t k = elim (matching_files t k) [
    | failed ↦ failed
    | ok matches ↦ elim (last matches) [
      | none ↦ ok none
      | some latest ↦ read_record t (dir_for k) latest
    ]
  ]

  -- Save, on the entries of the directory of the key.
  unfoldable pub save_in : Moment → List Str → Str → Record → Dir → Dir × Bool
  unfolding matching_names marshal_bytes remove_files write_file_atomic
  save_in at dir hash r d = elim (marshal_bytes proto r) [
    | none ↦ (d, false)
    | some b ↦ elim (matching_names hash d) [
      | [] ↦ write_file_atomic faults at dir (file_name (format_prefix at.clock) hash) b d
      | target ∷ others ↦
          let (rest, removed) = remove_files faults dir others d in
          if removed then write_file_atomic faults at dir target b rest else (rest, false)
    ]
  ]

  unfoldable pub save : Moment → Tree → Key → Record → Tree × Result (Unit {0})
  unfolding save_in update entries_of
  save at t k r =
      let dir = dir_for k in
      let d = entries_of t dir in
      let (after, done) = save_in at dir k.input_hash r d in
      if faults.mkdir_all dir
      then (t, failed)
      else if faults.read_dir dir
      then (update t dir d, failed)
      else (update t dir after, outcome done)

  unfoldable pub delete : Tree → Key → Tree × Result (Unit {0})
  unfolding matching_files remove_files update entries_of
  delete t k = elim (matching_files t k) [
    | failed ↦ (t, failed)
    | ok [] ↦ (t, ok tt)
    | ok (name ∷ names) ↦
        let (after, done) =
          remove_files faults (dir_for k) (name ∷ names) (entries_of t (dir_for k)) in
        (update t (dir_for k) after, outcome done)
  ]
