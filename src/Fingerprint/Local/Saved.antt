-- ===== src/Fingerprint/Local/Saved.antt =====
-- Save in the directory of a key.
use sloff.Prelude.{
  ==-cases, Bool, Bool-cases, In, List, NoDup, Str, Str_Eq, [], ap, false, inl, inr, lookup, nat_Eq,
  none, refl, some, subst, sym, true, ◌∙◌, ◌∷◌, ◌≡◌, ◌≢◌, ◌⊎◌,
}
use sloff.Fingerprint.Defs.{Record}
use sloff.Fingerprint.Bytes.{Proto, marshal_bytes}
use sloff.Fingerprint.Local.Filename.{format_prefix, file_name}
use sloff.Fingerprint.Local.Timestamp.{IsCalendar, looks_like-format_prefix}
use sloff.Fingerprint.Local.Store.{
  Node, file, Dir, Faults, Moment, name_matches, matching_names, remove_files, temp_name,
  write_file_atomic, save_in,
}
use sloff.Fingerprint.Local.Matches.{
  Names, Matching, name_matches_iff, name_matches-inj, In-Matching_iff, matching_names-only,
  NoDup-matching_names,
}
use sloff.Fingerprint.Local.Effects.{
  name_matches-temp_name, remove_files-kept, remove_files-within, remove_files-gone,
  remove_files-Names, Written, write_file_atomic-Written,
}

-- What Save makes of a directory, for a record that encodes as b.
pub record Outcome (at : Moment) (hash b : Str) (before after : Dir) (done : Bool) : Type 0 where
  -- the names that match another hash keep their files
  pub apart : (k n : Str) → k ≢ hash → name_matches k n ≡ true → lookup n after ≡ lookup n before
  -- after a success, one file matches, and it holds the record
  pub success :
      done ≡ true
      → (n : Str) × (matching_names hash after ≡ n ∷ [])
        × (lookup n after ≡ some (file b at.written_at))
        × ((matching_names hash before ≡ [])
            ⊎ ((ns : List Str) × (matching_names hash before ≡ n ∷ ns)))
  -- after a failure, what matches was there with the same bytes, and the first match is still there
  pub failure :
      done ≡ false
      → ((n : Str) (x : Node)
          → lookup n after ≡ some x
          → name_matches hash n ≡ true
          → lookup n before ≡ some x)
        × ((n : Str) (ns : List Str)
            → matching_names hash before ≡ n ∷ ns
            → lookup n after ≡ lookup n before)
  pub names : Names after

module _ (proto : Proto) (faults : Faults) (at : Moment) (dir : List Str) (hash b : Str) where
  not_temp : (k n target : Str) → name_matches k n ≡ true → n ≢ temp_name target at.random
  not_temp k n target t e =
      let f = name_matches-temp_name k target at.random in
      let bad : true ≡ false = sym t ∙ ap (name_matches k) e ∙ f in cc

  fresh_target :
      IsCalendar at.clock → name_matches hash (file_name (format_prefix at.clock) hash) ≡ true
  fresh_target c =
      (name_matches_iff hash _).1
        (format_prefix at.clock, refl, looks_like-format_prefix at.clock c)

  only_target :
      (target : Str) (before after : Dir) (done : Bool)
      → Written at target b before after done
      → Names before
      → name_matches hash target ≡ true
      → ((k : Str) → Matching hash before k → k ≡ target)
      → done ≡ true
      → matching_names hash after ≡ target ∷ []
  only_target target before after done w u t sole h =
      matching_names-only hash target after (w.names u) (b, at.written_at, w.whole h, t)
        (λ k m.
          let (x, y, found, tk) = m in
          elim (==-cases k target) [
            | inl (same, _) ↦ same
            | inr (other, _) ↦
                let old = w.others k (λ e. absurd (other e)) (not_temp hash k target tk) in
                sole k (x, y, sym old ∙ found, tk)
          ])

  created-Outcome :
      (d : Dir)
      → Names d
      → IsCalendar at.clock
      → matching_names hash d ≡ []
      → let r = write_file_atomic faults at dir (file_name (format_prefix at.clock) hash) b d in
        Outcome at hash b d r.0 r.1
  created-Outcome d u c none_yet = record {
    apart = λ k n other t.
        w.others n (λ e. absurd (other (name_matches-inj n k hash t (rw e (fresh_target c)))))
          (not_temp k n target t);
    success = λ t. (
      target,
      only_target target d _ _ w u (fresh_target c)
          (λ k m.
            let bad : In k [] = subst (In k) none_yet ((In-Matching_iff hash k d u).1 m) in
            absurd bad)
          t,
      w.whole t,
      inl none_yet,
    );
    failure = λ f. (
      λ n x h t. sym (w.others n (λ e. f) (not_temp hash n target t)) ∙ h,
      λ n ns e. let bad : [] ≡ n ∷ ns = sym none_yet ∙ e in cc,
    );
    names = w.names u;
  }
    where
      target : Str
      target = file_name (format_prefix at.clock) hash

      w :
          Written at target b d
            (write_file_atomic faults at dir target b d).0
            (write_file_atomic faults at dir target b d).1
      w = write_file_atomic-Written faults dir at target b d

  module _ (d : Dir) (u : Names d) (target : Str) (others : List Str)
      (matches : matching_names hash d ≡ target ∷ others) where
    abbrev removed : Dir × Bool
    removed = remove_files faults dir others d

    all_matching : (n : Str) → In n (target ∷ others) → name_matches hash n ≡ true
    all_matching n i = ((In-Matching_iff hash n d u).0 (subst (In n) (sym matches) i)).3

    apart_kept : (k n : Str) → k ≢ hash → name_matches k n ≡ true → lookup n removed.0 ≡ lookup n d
    apart_kept k n other t =
        remove_files-kept faults dir others d n
          (λ i. other (name_matches-inj n k hash t (all_matching n (inr i))))

    target_kept : lookup target removed.0 ≡ lookup target d
    target_kept =
        remove_files-kept faults dir others d target
          (subst NoDup matches (NoDup-matching_names hash d u)).0

    first_target : (n : Str) (ns : List Str) → matching_names hash d ≡ n ∷ ns → n ≡ target
    first_target n ns e = let both : n ∷ ns ≡ target ∷ others = sym e ∙ matches in cc

    stopped-Outcome : removed.1 ≡ false → Outcome at hash b d removed.0 false
    stopped-Outcome f = record {
      apart = apart_kept;
      success = λ t. cc;
      failure = λ _. (
        λ n x h t. remove_files-within faults dir others d n x h,
        λ n ns e. rw (first_target n ns e) target_kept,
      );
      names = remove_files-Names faults dir others d u;
    }

    sole : removed.1 ≡ true → (k : Str) → Matching hash removed.0 k → k ≡ target
    sole t k m =
        let (x, y, found, tk) = m in
        let old = remove_files-within faults dir others d k (file x y) found in
        elim (subst (In k) matches ((In-Matching_iff hash k d u).1 (x, y, old, tk))) [
          | inl same ↦ same
          | inr later ↦
              let bad : none ≡ some (file x y) =
                sym (remove_files-gone faults dir others d k t later) ∙ found in
              cc
        ]

    replaced-Outcome :
        removed.1 ≡ true
        → let r = write_file_atomic faults at dir target b removed.0 in Outcome at hash b d r.0 r.1
    replaced-Outcome t = record {
      apart = λ k n other m.
          w.others n
            (λ e.
              absurd (other (name_matches-inj n k hash m (rw e (all_matching target (inl refl))))))
            (not_temp k n target m)
          ∙ apart_kept k n other m;
      success = λ done. (
        target,
        only_target target removed.0 _ _ w (remove_files-Names faults dir others d u)
            (all_matching target (inl refl)) (sole t) done,
        w.whole done,
        inr (others, matches),
      );
      failure = λ f. (
        λ n x h m.
            remove_files-within faults dir others d n x
              (sym (w.others n (λ e. f) (not_temp hash n target m)) ∙ h),
        λ n ns e.
            let same = first_target n ns e in
            rw same (
              w.others target (λ _. f)
                (not_temp hash target target (all_matching target (inl refl)))
              ∙ target_kept),
      );
      names = w.names (remove_files-Names faults dir others d u);
    }
      where
        w :
            Written at target b removed.0
              (write_file_atomic faults at dir target b removed.0).0
              (write_file_atomic faults at dir target b removed.0).1
        w = write_file_atomic-Written faults dir at target b removed.0

  pub save_in-Outcome :
      (r : Record) (d : Dir)
      → marshal_bytes proto r ≡ some b
      → Names d
      → IsCalendar at.clock
      → let s = save_in proto faults at dir hash r d in Outcome at hash b d s.0 s.1
  unfolding save_in
  save_in-Outcome r d encoded u c = elim (list_cases (matching_names hash d)) [
    | inl e ↦ rw (encoded, e, save_in) (created-Outcome d u c e)
    | inr (target, others, e) ↦ elim (Bool-cases (remove_files faults dir others d).1) [
      | inl t ↦ rw (encoded, e, t, save_in) (replaced-Outcome d u target others e t)
      | inr f ↦ rw (encoded, e, f, save_in) (stopped-Outcome d u target others e f)
    ]
  ]
    where
      list_cases : (xs : List Str) → (xs ≡ []) ⊎ ((y : Str) × (ys : List Str) × (xs ≡ y ∷ ys))
      list_cases [] = inl refl
      list_cases (y ∷ ys) = inr (y, ys, refl)
