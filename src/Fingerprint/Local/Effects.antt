-- ===== src/Fingerprint/Local/Effects.antt =====
-- The writes and removals of the backend, entry by entry.
use sloff.Prelude.{
  ==-cases, ==_ne, Bool, Bool-cases, In, In-dec, List, NoDup-insert, NoDup-without, Str, Str_Eq, [],
  ap, arith, bytes, false, inl, inr, insert, lookup, lookup-insert_ne, lookup-insert_self,
  lookup-without_ne, lookup-without_self, nat_Eq, none, refl, some, sym, true, without, ℕ, ◌++◌,
  ◌∙◌, ◌∷◌, ◌≡◌, ◌≢◌,
}
use sloff.Fingerprint.Local.Filename.{file_name, file_ext, dash}
use sloff.Fingerprint.Local.Store.{
  Node, file, Dir, Faults, Moment, name_matches, remove_files, discard, temp_name,
  write_file_atomic,
}
use sloff.Fingerprint.Local.Matches.{Names, name_matches_iff}

-- The last byte of a string that has one.
final : Str → ℕ
final [] = 0
final (c ∷ []) = c
final (c ∷ d ∷ s) = final (d ∷ s)

final-append : (xs : Str) (y : ℕ) (ys : Str) → final (xs ++ y ∷ ys) ≡ final (y ∷ ys)
unfolding final
final-append [] y ys = refl
final-append (x ∷ []) y ys = refl
final-append (x ∷ z ∷ xs) y ys = final-append (z ∷ xs) y ys

-- The temp file is not seen as a record.
pub name_matches-temp_name :
    (hash target random : Str) → name_matches hash (temp_name target random) ≡ false
unfolding temp_name file_name final
name_matches-temp_name hash target random =
    elim (Bool-cases (name_matches hash (temp_name target random))) [
      | inr f ↦ f
      | inl t ↦
          let (prefix, e, _) = (name_matches_iff hash (temp_name target random)).0 t in
          let ours : final (temp_name target random) ≡ 112 =
            final-append (46 ∷ target) 46 (random ++ bytes ".tmp")
            ∙ final-append (46 ∷ random) 46 (bytes "tmp") in
          let theirs : final (file_name prefix hash) ≡ 98 =
            final-append prefix dash (hash ++ file_ext)
            ∙ final-append (dash ∷ hash) 46 (bytes "pb") in
          absurd (omega (arith, ap final e, ours, theirs))
    ]

module _ (faults : Faults) (dir : List Str) where
  pub remove_files-kept :
      (names : List Str) (d : Dir) (n : Str)
      → ¬ In n names
      → lookup n (remove_files faults dir names d).0 ≡ lookup n d
  unfolding remove_files
  remove_files-kept [] d n out = refl
  remove_files-kept (m ∷ names) d n out = elim (Bool-cases (faults.remove dir m)) [
    | inl t ↦ rw t refl
    | inr f ↦ rw f (
        remove_files-kept names (without m d) n (λ i. out (inr i))
        ∙ lookup-without_ne m n d (==_ne (λ e. out (inl e))))
  ]

  -- What is there after some removals was there before.
  pub remove_files-within :
      (names : List Str) (d : Dir) (n : Str) (x : Node)
      → lookup n (remove_files faults dir names d).0 ≡ some x
      → lookup n d ≡ some x
  unfolding remove_files
  remove_files-within [] d n x h = h
  remove_files-within (m ∷ names) d n x h = elim (Bool-cases (faults.remove dir m)) [
    | inl t ↦ rw t at h
    | inr f ↦
        let k = remove_files-within names (without m d) n x (rw f at h) in
        elim (==-cases n m) [
          | inl (same, t) ↦
              let bad : none ≡ some x = sym (lookup-without_self m d) ∙ (rw same at k) in cc
          | inr (other, g) ↦ sym (lookup-without_ne m n d g) ∙ k
        ]
  ]

  pub remove_files-gone :
      (names : List Str) (d : Dir) (n : Str)
      → (remove_files faults dir names d).1 ≡ true
      → In n names
      → lookup n (remove_files faults dir names d).0 ≡ none
  unfolding remove_files
  remove_files-gone [] d n h i = absurd i
  remove_files-gone (m ∷ names) d n h i = elim (Bool-cases (faults.remove dir m)) [
    | inl t ↦ let bad : false ≡ true = rw t at h in cc
    | inr f ↦ rw f (elim (In-dec n names) [
      | inl later ↦ remove_files-gone names (without m d) n (rw f at h) later
      | inr out ↦ elim i [
        | inr later ↦ absurd (out later)
        | inl same ↦ remove_files-kept names (without m d) n out ∙ rw same (lookup-without_self m d)
      ]
    ])
  ]

  pub remove_files-Names :
      (names : List Str) (d : Dir) → Names d → Names (remove_files faults dir names d).0
  unfolding remove_files
  remove_files-Names [] d u = u
  remove_files-Names (m ∷ names) d u = elim (Bool-cases (faults.remove dir m)) [
    | inl t ↦ rw t u
    | inr f ↦ rw f (remove_files-Names names (without m d) (NoDup-without m d u))
  ]

-- How the writing of a target leaves a directory: with the whole content if it succeeds, and else as it
-- was, the temp file aside.
pub record Written (at : Moment) (target b : Str) (before after : Dir) (done : Bool) : Type 0 where
  pub whole : done ≡ true → lookup target after ≡ some (file b at.written_at)
  pub others :
      (n : Str)
      → (n ≡ target → done ≡ false)
      → n ≢ temp_name target at.random
      → lookup n after ≡ lookup n before
  pub names : Names before → Names after

module _ (faults : Faults) (dir : List Str) where
  discard-kept :
      (temp : Str) (x : Node) (d : Dir) (n : Str)
      → n ≢ temp
      → lookup n (discard faults dir temp (insert temp x d)) ≡ lookup n d
  unfolding discard
  discard-kept temp x d n other = elim (Bool-cases (faults.remove dir temp)) [
    | inl t ↦ rw t (lookup-insert_ne temp n x d (==_ne other))
    | inr f ↦ rw f (
        lookup-without_ne temp n (insert temp x d) (==_ne other)
        ∙ lookup-insert_ne temp n x d (==_ne other))
  ]

  discard-Names :
      (temp : Str) (x : Node) (d : Dir)
      → Names d
      → Names (discard faults dir temp (insert temp x d))
  unfolding discard
  discard-Names temp x d u = elim (Bool-cases (faults.remove dir temp)) [
    | inl t ↦ rw t (NoDup-insert temp x d u)
    | inr f ↦ rw f (NoDup-without temp (insert temp x d) (NoDup-insert temp x d u))
  ]

  -- writeFileAtomic leaves no partial record, wherever it fails.
  pub write_file_atomic-Written :
      (at : Moment) (target b : Str) (d : Dir)
      → let r = write_file_atomic faults at dir target b d in Written at target b d r.0 r.1
  unfolding write_file_atomic
  write_file_atomic-Written at target b d = elim (Bool-cases (faults.create_temp dir)) [
    | inl t ↦ rw t (record { whole = λ e. cc; others = λ n s o. refl; names = λ u. u })
    | inr f ↦ elim (Bool-cases (faults.fill_temp dir)) [
      | inl t ↦ rw (f, t) (undone (file [] at.written_at))
      | inr g ↦ elim (Bool-cases (faults.rename dir)) [
        | inl t ↦ rw (f, g, t) (undone (file b at.written_at))
        | inr h ↦
            rw (f, g, h)
              (record {
                whole = λ e. lookup-insert_self target _ _;
                others = λ n s o.
                    lookup-insert_ne target n _ _ (==_ne (λ e. let bad : true ≡ false = s e in cc))
                    ∙ lookup-without_ne temp n _ (==_ne o)
                    ∙ lookup-insert_ne temp n _ d (==_ne o);
                names =
                    λ u. NoDup-insert target _ _ (NoDup-without temp _ (NoDup-insert temp _ d u));
              })
      ]
    ]
  ]
    where
      temp : Str
      temp = temp_name target at.random

      undone : (x : Node) → Written at target b d (discard faults dir temp (insert temp x d)) false
      undone x = record {
        whole = λ e. cc;
        others = λ n s o. discard-kept temp x d n o;
        names = discard-Names temp x d;
      }
