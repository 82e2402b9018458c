-- ===== src/Runner/Lookup/Transparent.antt =====
-- What a lookup leaves alone, and that the prefetched records are those of the backend.
use sloff.Prelude.{
  Bool-cases, Option, Str, Str_Eq, contains, inl, inr, lookup, nat_Eq, none, refl, some, str_eq,
  subst, sym, ◌≡◌,
}
use sloff.Fingerprint.Defs.{Key, Key_Eq, Record, file_paths}
use sloff.Fingerprint.Cached.{Result, failed}
use sloff.Hash.FileCache.{Read, ok, not_exist, unreadable, cached_files}
use sloff.Runner.Defs.{Env, State}
use sloff.Runner.Tools.Untouched.{Untouched}
use sloff.Runner.Lookup.{lookup_record, fingerprint_lookup}

module _ {W S : Type 0} (env : Env W S) where
  lookup_record-Untouched : (k : Key) (s : State W S) → Untouched s (lookup_record env k s).0
  unfolding lookup_record
  lookup_record-Untouched k s = found (lookup k s.prefetched) refl
    where
      found :
          (o : Option Record) → lookup k s.prefetched ≡ o → Untouched s (lookup_record env k s).0
      found (some r) e = rw (e, lookup_record) (refl, refl, refl)
      found none e = elim (Bool-cases (contains s.prefetched_keys k)) [
        | inl t ↦ rw (e, lookup_record, t) (refl, refl, refl)
        | inr f ↦ rw (e, lookup_record, f) (refl, refl, refl)
      ]

  -- Whatever a lookup finds, its state is the one that lookupRecord left.
  fingerprint_lookup-state :
      (k : Key) (s : State W S) → (fingerprint_lookup env k s).0 ≡ (lookup_record env k s).0
  unfolding fingerprint_lookup
  fingerprint_lookup-state k s = found (lookup_record env k s).1 refl
    where
      s1 : State W S
      s1 = (lookup_record env k s).0

      found :
          (r : Result (Option Record))
          → (lookup_record env k s).1 ≡ r
          → (fingerprint_lookup env k s).0 ≡ s1
      found failed e = rw (e, fingerprint_lookup) refl
      found (Result.ok none) e = rw (e, fingerprint_lookup) refl
      found (Result.ok (some rec)) e =
          compared rec e
            (cached_files env.sha256 (env.digest s1.world) (file_paths rec.output.files)) refl
        where
          compared :
              (rec : Record)
              → (lookup_record env k s).1 ≡ Result.ok (some rec)
              → (c : Read Str)
              → cached_files env.sha256 (env.digest s1.world) (file_paths rec.output.files) ≡ c
              → (fingerprint_lookup env k s).0 ≡ s1
          compared rec e not_exist c = rw (e, fingerprint_lookup, c) refl
          compared rec e unreadable c = rw (e, fingerprint_lookup, c) refl
          compared rec e (ok h) c = elim (Bool-cases (str_eq h rec.output.hash)) [
            | inl t ↦ rw (e, fingerprint_lookup, c, t) refl
            | inr f ↦ rw (e, fingerprint_lookup, c, f) refl
          ]

  pub fingerprint_lookup-Untouched :
      (k : Key) (s : State W S) → Untouched s (fingerprint_lookup env k s).0
  fingerprint_lookup-Untouched k s =
      subst (Untouched s) (sym (fingerprint_lookup-state k s)) (lookup_record-Untouched k s)
