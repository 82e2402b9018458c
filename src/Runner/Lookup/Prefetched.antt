-- ===== src/Runner/Lookup/Prefetched.antt =====
-- The prefetched records are those that the backend holds.
use sloff.Prelude.{
  Bool-cases, In, List, Map, Option, Str_Eq, [], contains, contains-In, inl, inr, lookup, nat_Eq,
  none, refl, some, sym, ◌∙◌, ◌∷◌, ◌≡◌,
}
use sloff.Depgraph.{Task}
use sloff.Fingerprint.Defs.{Key, Key_Eq, Record}
use sloff.Fingerprint.Cached.{Result, failed}
use sloff.Runner.Defs.{Store, Env, State}
use sloff.Runner.Lookup.{split_deferred, asked_keys, prefetch_fingerprints, lookup_record}

-- What storage.go promises of Load and LoadMany: both tell what the backend holds and change nothing
-- of it; LoadMany may leave a key out only if there is no record.
pub record Faithful {S : Type 0} (store : Store S) : Type 0 where
  pub view : S → Key → Option Record
  pub load_view :
      (st : S) (k : Key) (o : Option Record) → (store.load st k).1 ≡ Result.ok o → o ≡ view st k
  pub load_keeps : (st : S) (k j : Key) → view (store.load st k).0 j ≡ view st j
  pub load_many_view :
      (st : S) (ks : List Key) (m : Map Key Record)
      → (store.load_many st ks).1 ≡ Result.ok m
      → (k : Key) → In k ks
      → lookup k m ≡ view st k
  pub load_many_only :
      (st : S) (ks : List Key) (m : Map Key Record)
      → (store.load_many st ks).1 ≡ Result.ok m
      → (k : Key) (r : Record) → lookup k m ≡ some r
      → In k ks
  pub load_many_keeps :
      (st : S) (ks : List Key) (j : Key) → view (store.load_many st ks).0 j ≡ view st j

no_entry : (k : Key) (r : Record) → lookup k [] ≡ some r → ⊥
unfolding lookup
no_entry k r found = let bad : none ≡ some r = found in absurd (is_none bad)
  where
    is_none : none ≡ some r → ⊥
    is_none e = cc

of_ok : (a c : Option Record) → ◌≡◌ {A = Result (Option Record)} (Result.ok a) (Result.ok c) → a ≡ c
of_ok a c x = cc

module _ {W S : Type 0} (env : Env W S) (b : Faithful env.store) where
  -- The prefetched records tell what the backend holds, for every key that was asked for.
  abbrev pub Truthful : State W S → Type 0
  Truthful s =
      ((k : Key) → In k s.prefetched_keys → lookup k s.prefetched ≡ b.view s.storage k)
      × ((k : Key) (r : Record) → lookup k s.prefetched ≡ some r → In k s.prefetched_keys)

  -- After a prefetch that succeeds, the prefetched records are the backend's for all keys asked for.
  pub prefetch-Truthful :
      (ordered : List Task) (s : State W S)
      → (prefetch_fingerprints env ordered s).1 ≡ Result.ok tt
      → Truthful (prefetch_fingerprints env ordered s).0
  unfolding prefetch_fingerprints
  prefetch-Truthful ordered s h = asked (asked_keys env s1 real) refl
    where
      real : List Task
      real = (split_deferred env s ordered).0

      s1 : State W S
      s1 = record s { deferred_consumers = (split_deferred env s ordered).1 }

      loaded :
          (k : Key) (ks : List Key)
          → asked_keys env s1 real ≡ Result.ok (k ∷ ks)
          → (r : Result (Map Key Record)) → (env.store.load_many s1.storage (k ∷ ks)).1 ≡ r
          → Truthful (prefetch_fingerprints env ordered s).0
      loaded k ks e failed l =
          let bad : failed ≡ Result.ok (tt {0}) = rw (e, prefetch_fingerprints, l) at h in cc
      loaded k ks e (Result.ok m) l =
          rw (e, prefetch_fingerprints, l)
            (
              λ j i.
                  b.load_many_view s.storage (k ∷ ks) m l j i
                  ∙ sym (b.load_many_keeps s.storage (k ∷ ks) j),
              λ j r found. b.load_many_only s.storage (k ∷ ks) m l j r found,
            )

      asked :
          (r : Result (List Key))
          → asked_keys env s1 real ≡ r
          → Truthful (prefetch_fingerprints env ordered s).0
      asked failed e =
          let bad : failed ≡ Result.ok (tt {0}) = rw (e, prefetch_fingerprints) at h in cc
      asked (Result.ok []) e =
          rw (e, prefetch_fingerprints) (λ k i. absurd i, λ k r found. no_entry k r found)
      asked (Result.ok (k ∷ ks)) e = loaded k ks e (env.store.load_many s1.storage (k ∷ ks)).1 refl

  -- With truthful prefetched records, a lookup that does not fail gives what the backend holds, whether
  -- it was prefetched, known to be absent, or loaded; the prefetched records stay truthful.
  pub lookup_record-view :
      (k : Key) (s : State W S)
      → Truthful s
      → ((o : Option Record) → (lookup_record env k s).1 ≡ Result.ok o → o ≡ b.view s.storage k)
        × Truthful (lookup_record env k s).0
  unfolding lookup_record
  lookup_record-view k s h = found (lookup k s.prefetched) refl
    where
      found :
          (o : Option Record)
          → lookup k s.prefetched ≡ o
          → ((o : Option Record) → (lookup_record env k s).1 ≡ Result.ok o → o ≡ b.view s.storage k)
            × Truthful (lookup_record env k s).0
      found (some r) e =
          rw (e, lookup_record)
            (
              λ o same.
                  let eq : some r ≡ o = of_ok (some r) o same in sym eq ∙ sym e ∙ h.0 k (h.1 k r e),
              h,
            )
      found none e = elim (Bool-cases (contains s.prefetched_keys k)) [
        | inl t ↦
            rw (e, lookup_record, t)
              (
                λ o same.
                    let eq : none ≡ o = of_ok none o same in
                    sym eq ∙ sym e ∙ h.0 k (contains-In s.prefetched_keys k t),
                h,
              )
        | inr f ↦
            rw (e, lookup_record, f)
              (
                λ o same. b.load_view s.storage k o same,
                (λ j i. h.0 j i ∙ sym (b.load_keeps s.storage k j), h.1),
              )
      ]
