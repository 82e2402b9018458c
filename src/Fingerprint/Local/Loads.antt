-- ===== src/Fingerprint/Local/Loads.antt =====
-- What Load returns after Save and Delete.
use sloff.Prelude.{
  ==-cases, ==_ne, Bool, Bool-cases, In, List, Option-cases, Str, Str_Eq, [], ap, false, inl, inr,
  lookup, lookup-insert_ne, lookup-insert_self, nat_Eq, none, refl, some, sym, true, ◌∙◌, ◌∷◌, ◌≡◌,
  ◌≢◌, ◌⊎◌,
}
use sloff.Fingerprint.Defs.{Key}
use sloff.Fingerprint.Bytes.{Proto}
use sloff.Fingerprint.Cached.{ok, failed}
use sloff.Fingerprint.Local.Store.{
  Dir, Tree, Names_Eq, Faults, dir_for, entries_of, update, last, name_matches, matching_names,
  matching_files, read_record, load,
}
use sloff.Fingerprint.Cached.{ok, failed}
use sloff.Fingerprint.Local.Store.{outcome}
use sloff.Fingerprint.Local.Matches.{Names, In-Matching_iff, matching_names-cong}

-- Every directory holds each name once.
abbrev pub WellFormed : Tree → Type 0
WellFormed t = (dir : List Str) → Names (entries_of t dir)

pub entries_of-update_self :
    (t : Tree) (dir : List Str) (d : Dir) → entries_of (update t dir d) dir ≡ d
unfolding update entries_of
entries_of-update_self t dir d = rw (lookup-insert_self dir d t, entries_of) refl

entries_of-update_ne :
    (t : Tree) (dir : List Str) (d : Dir) (other : List Str)
    → other ≢ dir
    → entries_of (update t dir d) other ≡ entries_of t other
unfolding update entries_of
entries_of-update_ne t dir d other n =
    rw (lookup-insert_ne dir other d t (==_ne n), entries_of) refl

pub update-WellFormed :
    (t : Tree) (dir : List Str) (d : Dir) → WellFormed t → Names d → WellFormed (update t dir d)
update-WellFormed t dir d w u other = elim (==-cases other dir) [
  | inl (same, _) ↦ rw (same, entries_of-update_self t dir d) u
  | inr (apart, _) ↦ rw (entries_of-update_ne t dir d other apart) (w other)
]

last-In : (xs : List Str) (x : Str) → last xs ≡ some x → In x xs
last-In [] x h = cc
last-In (y ∷ []) x h = inl (cc)
last-In (y ∷ z ∷ xs) x h = inr (last-In (z ∷ xs) x h)

-- Two keys address different records.
abbrev pub Apart : Key → Key → Type 0
Apart j k = (dir_for j ≢ dir_for k) ⊎ (j.input_hash ≢ k.input_hash)

pub outcome-ok : (b : Bool) → outcome b ≡ ok tt → b ≡ true
outcome-ok true h = refl
outcome-ok false h = cc

module _ (proto : Proto) (faults : Faults) where
  read_record-cong :
      (t u : Tree) (dir : List Str) (n : Str)
      → lookup n (entries_of t dir) ≡ lookup n (entries_of u dir)
      → read_record proto faults t dir n ≡ read_record proto faults u dir n
  unfolding read_record
  read_record-cong t u dir n h = rw h refl

  pub load-refused :
      (t : Tree) (k : Key) → faults.read_dir (dir_for k) ≡ true → load proto faults t k ≡ failed
  unfolding load matching_files
  load-refused t k f = rw (f, matching_files, load) refl

  pub load-nothing :
      (t : Tree) (k : Key)
      → faults.read_dir (dir_for k) ≡ false
      → last (matching_names k.input_hash (entries_of t (dir_for k))) ≡ none
      → load proto faults t k ≡ ok none
  unfolding load matching_files
  load-nothing t k f e = rw (f, e, matching_files, load) refl

  pub load-latest :
      (t : Tree) (k : Key) (n : Str)
      → faults.read_dir (dir_for k) ≡ false
      → last (matching_names k.input_hash (entries_of t (dir_for k))) ≡ some n
      → load proto faults t k ≡ read_record proto faults t (dir_for k) n
  unfolding load matching_files
  load-latest t k n f e = rw (f, e, matching_files, load) refl

  load-cong :
      (t u : Tree) (k : Key)
      → WellFormed t
      → WellFormed u
      → ((n : Str)
          → name_matches k.input_hash n ≡ true
          → lookup n (entries_of t (dir_for k)) ≡ lookup n (entries_of u (dir_for k)))
      → load proto faults t k ≡ load proto faults u k
  load-cong t u k wt wu same = elim (Bool-cases (faults.read_dir (dir_for k))) [
    | inl f ↦ load-refused t k f ∙ sym (load-refused u k f)
    | inr f ↦
        let names =
          matching_names-cong k.input_hash (entries_of t (dir_for k)) (entries_of u (dir_for k))
            (wt (dir_for k)) (wu (dir_for k)) same in
        elim (Option-cases (last (matching_names k.input_hash (entries_of u (dir_for k))))) [
          | inl e ↦ load-nothing t k f (ap last names ∙ e) ∙ sym (load-nothing u k f e)
          | inr (n, e) ↦
              let (_, _, _, matches) =
                (In-Matching_iff k.input_hash n (entries_of u (dir_for k)) (wu (dir_for k))).0
                  (last-In _ n e) in
              load-latest t k n f (ap last names ∙ e)
              ∙ read_record-cong t u (dir_for k) n (same n matches)
              ∙ sym (load-latest u k n f e)
        ]
  ]

  -- An update of one directory that keeps what matches all other hashes changes no other load.
  pub load-update :
      (t : Tree) (d : Dir) (j k : Key)
      → WellFormed t
      → Names d
      → Apart j k
      → ((h n : Str)
          → h ≢ k.input_hash
          → name_matches h n ≡ true
          → lookup n d ≡ lookup n (entries_of t (dir_for k)))
      → load proto faults (update t (dir_for k) d) j ≡ load proto faults t j
  load-update t d j k w u apart kept =
      load-cong (update t (dir_for k) d) t j (update-WellFormed t (dir_for k) d w u) w (λ n m.
        elim (==-cases (dir_for j) (dir_for k)) [
          | inr (elsewhere, _) ↦
              ap (lookup n) (entries_of-update_ne t (dir_for k) d (dir_for j) elsewhere)
          | inl (same, _) ↦ elim apart [
            | inl elsewhere ↦ absurd (elsewhere same)
            | inr other ↦
                rw (same, entries_of-update_self t (dir_for k) d) (kept j.input_hash n other m)
          ]
        ])
