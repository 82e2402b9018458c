-- ===== src/Fingerprint/Cached/Writes.antt =====
-- Save and Delete through the cache, and when it stays coherent.
use sloff.Prelude.{
  ==-cases, ==_refl, Bool-cases, Str_Eq, inl, inr, insert, lookup, lookup-insert_self, nat_Eq, none,
  some, subst, sym, true, ◌∙◌, ◌≡◌, ◌⊎◌,
}
use sloff.Fingerprint.Defs.{Key, Key_Eq, Record}
use sloff.Fingerprint.Canonical.{marshal, canonical}
use sloff.Fingerprint.Cached.{
  Result-cases, ok, failed, Disk, State, write_cache_best_effort, remove_cache_best_effort, save,
  delete,
}
use sloff.Fingerprint.Cached.Coherence.{Backend, CoherentAt, lookup-write, lookup-drop_entry}

left :
    (k j : Key) (c : Record) (d : Disk)
    → lookup j (remove_cache_best_effort k d).entries ≡ some c
    → lookup j d.entries ≡ some c
unfolding remove_cache_best_effort
left k j c d found = elim (Bool-cases (d.removed k)) [
  | inr f ↦ rw (f, remove_cache_best_effort) at found
  | inl t ↦
      let found' =
        sym (lookup-drop_entry k j d.entries) ∙ (rw (t, remove_cache_best_effort) at found) in
      elim (==-cases j k) [
        | inl (same, e) ↦ absurd (let bad : none ≡ some c = rw e at found' in cc)
        | inr (other, e) ↦ rw e at found'
      ]
]

no_file :
    (k : Key) (c : Record) (d : Disk)
    → (d.removed k ≡ true) ⊎ (lookup k d.entries ≡ none)
    → lookup k (remove_cache_best_effort k d).entries ≡ some c
    → ⊥
unfolding remove_cache_best_effort
no_file k c d (inr absent) found =
    absurd (let bad : none ≡ some c = sym absent ∙ left k k c d found in cc)
no_file k c d (inl t) found =
    let found' =
      sym (lookup-drop_entry k k d.entries) ∙ (rw (t, remove_cache_best_effort) at found) in
    absurd (let bad : none ≡ some c = rw (==_refl k) at found' in cc)

module _ {S : Type 0} (b : Backend S) where
  open b use {storage, may, apart_ne, save_ok, save_apart, delete_apart}

  -- The write of the record reaches the disk, or the key has no file to go stale.
  abbrev pub Reaches : State S → Key → Record → Type 0
  Reaches s k r =
      ((w : Record) × (marshal r ≡ some w) × (s.cache.stored k ≡ true))
      ⊎ (lookup k s.cache.entries ≡ none)

  written :
      (k : Key) (r c : Record) (d : Disk)
      → ((w : Record) × (marshal r ≡ some w) × (d.stored k ≡ true)) ⊎ (lookup k d.entries ≡ none)
      → lookup k (write_cache_best_effort k r d).entries ≡ some c
      → marshal r ≡ some c
  unfolding write_cache_best_effort
  written k r c d (inl (w, e, t)) found =
      let now : lookup k (insert k w d.entries) ≡ some c =
        rw (e, write_cache_best_effort, t) at found in
      e ∙ sym (lookup-insert_self k w d.entries) ∙ now
  written k r c d (inr absent) found = elim (lookup-write k k r c d found) [
    | inl (_, e) ↦ e
    | inr old ↦ absurd (let bad : none ≡ some c = sym absent ∙ old in cc)
  ]

  -- After a Save, whether it succeeds or fails, the keys apart from that of the Save are coherent if
  -- they were; the key of the Save is, after one that succeeds, if the cache write reaches the disk or
  -- the key was not cached.
  pub save-CoherentAt :
      (s : State S) (k j : Key) (r : Record)
      → (b.Apart j k × CoherentAt b s j)
        ⊎ (j ≡ k) × ((save storage s k r).1 ≡ ok tt) × Reaches s k r
      → CoherentAt b (save storage s k r).0 j
  unfolding save
  save-CoherentAt s k j r (inl (apart, h)) = elim (Result-cases (storage.save s.inner k r).1) [
    | inl f ↦ rw (f, save) (λ c found. moved c (h c found))
    | inr (u, t) ↦
        rw (t, save)
          (λ c found. elim (lookup-write k j r c s.cache found) [
            | inl (same, _) ↦ absurd (apart_ne j k apart same)
            | inr old ↦ moved c (h c old)
          ])
  ]
    where
      moved :
          (c : Record)
          → (q : Record) × may s.inner j (some q) × (c ≡ canonical q)
          → (q : Record) × may (storage.save s.inner k r).0 j (some q) × (c ≡ canonical q)
      moved c (q, held, e) = (q, save_apart s.inner k j r (some q) apart held, e)
  save-CoherentAt s k j r (inr (same, done, reach)) =
      elim (Result-cases (storage.save s.inner k r).1) [
        | inl f ↦ let bad : failed ≡ ok (tt {0}) = rw (f, save) at done in absurd (cc)
        | inr (u, t) ↦
            rw (t, save)
              (λ c found. now c t (
                subst (λ x. lookup x (write_cache_best_effort k r s.cache).entries ≡ some c) same
                  found))
      ]
    where
      now :
          (c : Record)
          → (storage.save s.inner k r).1 ≡ ok tt
          → lookup k (write_cache_best_effort k r s.cache).entries ≡ some c
          → (q : Record) × may (storage.save s.inner k r).0 j (some q) × (c ≡ canonical q)
      now c t found =
          let (q, held, e) = save_ok s.inner k r c t (written k r c s.cache reach found) in
          (q, subst (λ x. may (storage.save s.inner k r).0 x (some q)) (sym same) held, sym e)

  -- After a Delete the keys apart from that of the Delete are coherent if they were; the key itself is,
  -- after one that succeeds, if the removal of the file does too or the key was not cached.
  pub delete-CoherentAt :
      (s : State S) (k j : Key)
      → (b.Apart j k × CoherentAt b s j)
        ⊎ (j ≡ k)
          × ((delete storage s k).1 ≡ ok tt)
          × ((s.cache.removed k ≡ true) ⊎ (lookup k s.cache.entries ≡ none))
      → CoherentAt b (delete storage s k).0 j
  unfolding delete
  delete-CoherentAt s k j (inl (apart, h)) = elim (Result-cases (storage.delete s.inner k).1) [
    | inl f ↦ rw (f, delete) (λ c found. moved c (h c found))
    | inr (u, t) ↦ rw (t, delete) (λ c found. moved c (h c (kept c found)))
  ]
    where
      moved :
          (c : Record)
          → (q : Record) × may s.inner j (some q) × (c ≡ canonical q)
          → (q : Record) × may (storage.delete s.inner k).0 j (some q) × (c ≡ canonical q)
      moved c (q, held, e) = (q, delete_apart s.inner k j (some q) apart held, e)

      kept :
          (c : Record)
          → lookup j (remove_cache_best_effort k s.cache).entries ≡ some c
          → lookup j s.cache.entries ≡ some c
      kept c found = left k j c s.cache found
  delete-CoherentAt s k j (inr (same, done, gone)) =
      elim (Result-cases (storage.delete s.inner k).1) [
        | inl f ↦ let bad : failed ≡ ok (tt {0}) = rw (f, delete) at done in absurd (cc)
        | inr (u, t) ↦
            rw (t, delete)
              (λ c found.
                let at_k =
                  subst (λ x. lookup x (remove_cache_best_effort k s.cache).entries ≡ some c) same
                    found in
                absurd (no_file k c s.cache gone at_k))
      ]
