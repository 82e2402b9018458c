-- ===== src/Fingerprint/Local/RoundTrip.antt =====
-- What Load returns after Save and Delete.
use sloff.Prelude.{
  Bool, Bool-cases, List, Option-cases, Str, Str_Eq, [], ap, false, inl, inr, lookup, nat_Eq, refl,
  some, sym, true, ℕ, ◌∙◌, ◌∷◌, ◌≡◌, ◌≢◌, ◌⊎◌,
}
use sloff.Fingerprint.Defs.{Key, Record}
use sloff.Fingerprint.Canonical.{sort_record}
use sloff.Fingerprint.Bytes.{
  Proto, Decodes, found, marshal_bytes, unmarshal_bytes, unmarshal_bytes-marshal_bytes,
}
use sloff.Fingerprint.Cached.{ok, failed}
use sloff.Fingerprint.Local.Timestamp.{IsCalendar}
use sloff.Fingerprint.Local.Store.{
  Node, file, Dir, Tree, Faults, Moment, dir_for, entries_of, update, outcome, last, name_matches,
  matching_names, read_record, save_in, load, save,
}
use sloff.Fingerprint.Local.Matches.{Names}
use sloff.Fingerprint.Local.Saved.{Outcome, save_in-Outcome}
use sloff.Fingerprint.Local.Loads.{
  WellFormed, Apart, outcome-ok, entries_of-update_self, update-WellFormed, load-latest,
  load-update,
}

module _ (proto : Proto) (faults : Faults) where
  read_record-found :
      (t : Tree) (dir : List Str) (n b : Str) (m : ℕ) (r : Record)
      → faults.read_file dir n ≡ false
      → lookup n (entries_of t dir) ≡ some (file b m)
      → unmarshal_bytes proto b ≡ found r
      → read_record proto faults t dir n ≡ ok (some r)
  unfolding read_record
  read_record-found t dir n b m r f e u = rw (f, e, u, read_record) refl

  module _ (at : Moment) (t : Tree) (k : Key) (r : Record) where
    abbrev here : Dir
    here = entries_of t (dir_for k)

    abbrev done : Dir × Bool
    done = save_in proto faults at (dir_for k) k.input_hash r here

    -- Save fails before it touches a file, or does what it does in the directory.
    save-cases :
        (save proto faults at t k r ≡ (t, failed))
        ⊎ (save proto faults at t k r ≡ (update t (dir_for k) here, failed))
        ⊎ (faults.read_dir (dir_for k) ≡ false)
          × (save proto faults at t k r ≡ (update t (dir_for k) done.0, outcome done.1))
    unfolding save
    save-cases = elim (Bool-cases (faults.mkdir_all (dir_for k))) [
      | inl f ↦ inl (rw (f, save) refl)
      | inr f ↦ elim (Bool-cases (faults.read_dir (dir_for k))) [
        | inl g ↦ inr (inl (rw (f, g, save) refl))
        | inr g ↦ inr (inr (g, rw (f, g, save) refl))
      ]
    ]

    done-cases :
        WellFormed t
        → IsCalendar at.clock
        → (done ≡ (here, false))
          ⊎ ((b : Str) × (marshal_bytes proto r ≡ some b)
              × Outcome at k.input_hash b here done.0 done.1)
    unfolding save_in
    done-cases w c = elim (Option-cases (marshal_bytes proto r)) [
      | inl e ↦ inl (rw (e, save_in) refl)
      | inr (b, e) ↦ inr (
        b,
        e,
        save_in-Outcome proto faults at (dir_for k) k.input_hash b r here e (w (dir_for k)) c,
      )
    ]

    done-Names : WellFormed t → IsCalendar at.clock → Names done.0
    done-Names w c = elim (done-cases w c) [
      | inl e ↦ rw e (w (dir_for k))
      | inr (b, e, o) ↦ o.names
    ]

    -- Save keeps the names in each directory apart, whether it succeeds or fails.
    pub save-WellFormed :
        WellFormed t → IsCalendar at.clock → WellFormed (save proto faults at t k r).0
    save-WellFormed w c = elim save-cases [
      | inl e ↦ rw e w
      | inr (inl e) ↦ rw e (update-WellFormed t (dir_for k) here w (w (dir_for k)))
      | inr (inr (_, e)) ↦ rw e (update-WellFormed t (dir_for k) done.0 w (done-Names w c))
    ]

    -- If protobuf decodes what it encodes for the record, the clock is in a year of at most four digits, and the files
    -- of the directory can be read, then a Save that succeeds makes Load return the record, in canonical
    -- order.
    pub load-save :
        Decodes proto (sort_record r)
        → WellFormed t
        → IsCalendar at.clock
        → ((n : Str) → faults.read_file (dir_for k) n ≡ false)
        → (save proto faults at t k r).1 ≡ ok tt
        → load proto faults (save proto faults at t k r).0 k ≡ ok (some (sort_record r))
    load-save trips w c readable h = elim save-cases [
      | inl e ↦ let bad : failed ≡ ok tt = sym (ap (λ x. x.1) e) ∙ h in cc
      | inr (inl e) ↦ let bad : failed ≡ ok tt = sym (ap (λ x. x.1) e) ∙ h in cc
      | inr (inr (opens, e)) ↦
          let good : done.1 ≡ true = outcome-ok done.1 (sym (ap (λ x. x.1) e) ∙ h) in
          elim (done-cases w c) [
            | inl f ↦ let bad : false ≡ true = sym (ap (λ x. x.1) f) ∙ good in cc
            | inr (b, encoded, o) ↦ rw e (reads opens good b encoded o)
          ]
    ]
      where
        reads :
            faults.read_dir (dir_for k) ≡ false
            → done.1 ≡ true
            → (b : Str) → marshal_bytes proto r ≡ some b
            → Outcome at k.input_hash b here done.0 done.1
            → load proto faults (update t (dir_for k) done.0) k ≡ ok (some (sort_record r))
        reads opens good b encoded o =
            let (n, one, content, _) = o.success good in
            let self = entries_of-update_self t (dir_for k) done.0 in
            load-latest proto faults (update t (dir_for k) done.0) k n opens
              (ap (λ d. last (matching_names k.input_hash d)) self ∙ ap last one)
            ∙ read_record-found (update t (dir_for k) done.0) (dir_for k) n b at.written_at
                (sort_record r) (readable n) (ap (lookup n) self ∙ content)
                (unmarshal_bytes-marshal_bytes proto r b trips encoded)

    -- Whether Save succeeds or fails, Load of a key with another directory or another hash returns
    -- what it returned before, if the clock is in a year of at most four digits.
    pub load-save-Apart :
        (j : Key)
        → WellFormed t
        → IsCalendar at.clock
        → Apart j k
        → load proto faults (save proto faults at t k r).0 j ≡ load proto faults t j
    load-save-Apart j w c apart = elim save-cases [
      | inl e ↦ rw e refl
      | inr (inl e) ↦
          rw e (load-update proto faults t here j k w (w (dir_for k)) apart (λ h n o m. refl))
      | inr (inr (_, e)) ↦
          rw e (load-update proto faults t done.0 j k w (done-Names w c) apart kept)
    ]
      where
        kept :
            (h n : Str)
            → h ≢ k.input_hash
            → name_matches h n ≡ true
            → lookup n done.0 ≡ lookup n here
        kept h n other m = elim (done-cases w c) [
          | inl f ↦ rw f refl
          | inr (b, e, o) ↦ o.apart h n other m
        ]

    -- If the clock is in a year of at most four digits, then after a Save that succeeds one file matches
    -- the key, under the earliest name that matched before if there was one; after one that fails, each
    -- file that matches was there before with the same bytes, and so the earliest is still there.
    pub save-one_file :
        WellFormed t
        → IsCalendar at.clock
        → let after = entries_of (save proto faults at t k r).0 (dir_for k) in
          ((save proto faults at t k r).1 ≡ ok tt)
            × ((n : Str) × (matching_names k.input_hash after ≡ n ∷ [])
                × ((matching_names k.input_hash here ≡ [])
                    ⊎ ((ns : List Str) × (matching_names k.input_hash here ≡ n ∷ ns))))
          ⊎ ((save proto faults at t k r).1 ≡ failed)
            × ((n : Str) (x : Node)
                → lookup n after ≡ some x
                → name_matches k.input_hash n ≡ true
                → lookup n here ≡ some x)
            × ((n : Str) (ns : List Str)
                → matching_names k.input_hash here ≡ n ∷ ns
                → lookup n after ≡ lookup n here)
    save-one_file w c = elim save-cases [
      | inl e ↦ rw e (inr (refl, λ n x h m. h, λ n ns m. refl))
      | inr (inl e) ↦
          rw (e, entries_of-update_self t (dir_for k) here)
            (inr (refl, λ n x h m. h, λ n ns m. refl))
      | inr (inr (_, e)) ↦
          rw (e, entries_of-update_self t (dir_for k) done.0)
            (elim (Bool-cases done.1) [
              | inl good ↦ elim (done-cases w c) [
                | inl f ↦ let bad : false ≡ true = sym (ap (λ x. x.1) f) ∙ good in cc
                | inr (b, encoded, o) ↦
                    let (n, one, content, before) = o.success good in
                    inl (ap outcome good, (n, one, before))
              ]
              | inr bad ↦ elim (done-cases w c) [
                | inl f ↦ rw (ap (λ x. x.0) f, bad) (inr (refl, λ n x h m. h, λ n ns m. refl))
                | inr (b, encoded, o) ↦
                    let (old, first) = o.failure bad in inr (ap outcome bad, old, first)
              ]
            ])
    ]
