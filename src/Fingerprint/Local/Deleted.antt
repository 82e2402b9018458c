-- ===== src/Fingerprint/Local/Deleted.antt =====
-- What Load returns after Delete.
use sloff.Prelude.{
  Bool, Bool-cases, List, Str, Str_Eq, [], ap, false, inl, inr, nat_Eq, none, refl, some, sym, true,
  ◌∙◌, ◌∷◌, ◌≡◌, ◌⊎◌,
}
use sloff.Fingerprint.Defs.{Key}
use sloff.Fingerprint.Bytes.{Proto}
use sloff.Fingerprint.Cached.{ok, failed}
use sloff.Fingerprint.Local.Store.{
  file, Dir, Tree, Faults, dir_for, entries_of, update, outcome, last, matching_names,
  matching_files, remove_files, load, delete,
}
use sloff.Fingerprint.Local.Matches.{
  Matching, name_matches-inj, In-Matching_iff, matching_names-none,
}
use sloff.Fingerprint.Local.Effects.{
  remove_files-kept, remove_files-within, remove_files-gone, remove_files-Names,
}
use sloff.Fingerprint.Local.Loads.{
  outcome-ok, WellFormed, Apart, entries_of-update_self, update-WellFormed, load-nothing,
  load-update,
}

module _ (proto : Proto) (faults : Faults) (t : Tree) (k : Key) where
  abbrev here : Dir
  here = entries_of t (dir_for k)

  abbrev matches : List Str
  matches = matching_names k.input_hash here

  abbrev done : Dir × Bool
  done = remove_files faults (dir_for k) matches here

  -- Delete leaves the tree alone, or removes the matches in turn.
  delete-cases :
      (delete proto faults t k ≡ (t, failed))
      ⊎ (faults.read_dir (dir_for k) ≡ false)
        × (matches ≡ [])
        × (delete proto faults t k ≡ (t, ok tt))
      ⊎ (faults.read_dir (dir_for k) ≡ false)
        × (delete proto faults t k ≡ (update t (dir_for k) done.0, outcome done.1))
  unfolding delete matching_files
  delete-cases = elim (Bool-cases (faults.read_dir (dir_for k))) [
    | inl f ↦ inl (rw (f, matching_files, delete) refl)
    | inr f ↦ inr (go matches refl f)
  ]
    where
      go :
          (ms : List Str)
          → matches ≡ ms
          → faults.read_dir (dir_for k) ≡ false
          → (faults.read_dir (dir_for k) ≡ false)
              × (matches ≡ [])
              × (delete proto faults t k ≡ (t, ok tt))
            ⊎ (faults.read_dir (dir_for k) ≡ false)
              × (delete proto faults t k ≡ (update t (dir_for k) done.0, outcome done.1))
      go [] e f = inl (f, e, rw (f, e, matching_files, delete) refl)
      go (n ∷ ns) e f = inr (f, rw (f, e, matching_files, delete) refl)

  -- Delete keeps the names in each directory apart, whether it succeeds or fails.
  pub delete-WellFormed : WellFormed t → WellFormed (delete proto faults t k).0
  delete-WellFormed w = elim delete-cases [
    | inl e ↦ rw e w
    | inr (inl (_, _, e)) ↦ rw e w
    | inr (inr (_, e)) ↦ rw e (
        update-WellFormed t (dir_for k) done.0 w
          (remove_files-Names faults (dir_for k) matches here (w (dir_for k))))
  ]

  nothing_left : WellFormed t → done.1 ≡ true → (n : Str) → ¬ Matching k.input_hash done.0 n
  nothing_left w good n m =
      let (b, at, found, tn) = m in
      let old = remove_files-within faults (dir_for k) matches here n (file b at) found in
      let listed = (In-Matching_iff k.input_hash n here (w (dir_for k))).1 (b, at, old, tn) in
      let bad : none ≡ some (file b at) =
        sym (remove_files-gone faults (dir_for k) matches here n good listed) ∙ found in
      cc

  -- After a Delete that succeeds, Load finds nothing under the key.
  pub load-delete :
      WellFormed t
      → (delete proto faults t k).1 ≡ ok tt
      → load proto faults (delete proto faults t k).0 k ≡ ok none
  load-delete w h = elim delete-cases [
    | inl e ↦ let bad : failed ≡ ok tt = sym (ap (λ x. x.1) e) ∙ h in cc
    | inr (inl (f, empty, e)) ↦ rw e (load-nothing proto faults t k f (ap last empty))
    | inr (inr (f, e)) ↦
        let good : done.1 ≡ true = outcome-ok done.1 (sym (ap (λ x. x.1) e) ∙ h) in
        let names = remove_files-Names faults (dir_for k) matches here (w (dir_for k)) in
        rw e (
          load-nothing proto faults (update t (dir_for k) done.0) k f (
            ap (λ d. last (matching_names k.input_hash d))
              (entries_of-update_self t (dir_for k) done.0)
            ∙ ap last (matching_names-none k.input_hash done.0 names (nothing_left w good))))
  ]

  -- Whether Delete succeeds or fails, Load of a key with another directory or another hash returns what
  -- it returned before.
  pub load-delete-Apart :
      (j : Key)
      → WellFormed t
      → Apart j k
      → load proto faults (delete proto faults t k).0 j ≡ load proto faults t j
  load-delete-Apart j w apart = elim delete-cases [
    | inl e ↦ rw e refl
    | inr (inl (_, _, e)) ↦ rw e refl
    | inr (inr (_, e)) ↦ rw e (
        load-update proto faults t done.0 j k w
          (remove_files-Names faults (dir_for k) matches here (w (dir_for k))) apart
          (λ h n other m. remove_files-kept faults (dir_for k) matches here n (λ i. other (
            name_matches-inj n h k.input_hash m
              ((In-Matching_iff k.input_hash n here (w (dir_for k))).0 i).3))))
  ]
