-- ===== src/Fingerprint/Cached/Coherence.antt =====
-- The cache shows nothing that the backend does not hold.
use sloff.Prelude.{
  ==-cases, ==_ne, Bool-cases, Map, Option, Option-cases, Str_Eq, [], ap, false, if◌then◌else◌, inl,
  inr, insert, lookup, lookup-insert_ne, lookup-insert_self, nat_Eq, none, refl, some, sym, ◌==◌,
  ◌∙◌, ◌∷◌, ◌≡◌, ◌≢◌, ◌⊎◌,
}
use sloff.Fingerprint.Defs.{Key, Key_Eq, Record}
use sloff.Fingerprint.Canonical.{marshal, canonical}
use sloff.Fingerprint.Cached.{
  Result, ok, failed, Storage, Disk, State, write_cache_best_effort, drop_entry, load,
}

-- What a backend keeps to. `may` tells what a Load may return under a key: one record or none where
-- reads are consistent, all recent versions where they are eventually so. A record that Save accepts may
-- be read afterwards, in a form that Marshal writes the same; keys that are apart do not touch each
-- other, whether an operation succeeds or fails.
pub record Backend (S : Type 0) : Type 1 where
  pub storage : Storage S
  pub may : S → Key → Option Record → Type 0
  pub Apart : Key → Key → Type 0
  pub apart_ne : (j k : Key) → Apart j k → j ≢ k
  pub load_ok : (s : S) (k : Key) (o : Option Record) → storage.load s k ≡ ok o → may s k o
  pub save_ok :
      (s : S) (k : Key) (r w : Record)
      → (storage.save s k r).1 ≡ ok tt
      → marshal r ≡ some w
      → (c : Record) × may (storage.save s k r).0 k (some c) × (canonical c ≡ w)
  pub save_apart :
      (s : S) (k j : Key) (r : Record) (o : Option Record)
      → Apart j k
      → may s j o
      → may (storage.save s k r).0 j o
  pub delete_apart :
      (s : S) (k j : Key) (o : Option Record)
      → Apart j k
      → may s j o
      → may (storage.delete s k).0 j o

abbrev pub canonical? : Option Record → Option Record
canonical? none = none
canonical? (some r) = some (canonical r)

pub lookup-write :
    (k j : Key) (r c : Record) (d : Disk)
    → lookup j (write_cache_best_effort k r d).entries ≡ some c
    → (j ≡ k) × (marshal r ≡ some c) ⊎ (lookup j d.entries ≡ some c)
unfolding write_cache_best_effort
lookup-write k j r c d h = elim (Option-cases (marshal r)) [
  | inl e ↦ inr (rw (e, write_cache_best_effort) at h)
  | inr (w, e) ↦ elim (Bool-cases (d.stored k)) [
    | inr f ↦ inr (rw (e, write_cache_best_effort, f) at h)
    | inl t ↦
        let h' : lookup j (insert k w d.entries) ≡ some c =
          rw (e, write_cache_best_effort, t) at h in
        elim (==-cases j k) [
          | inl (same, b) ↦
              let h'' : lookup k (insert k w d.entries) ≡ some c = rw same at h' in
              inl (same, e ∙ sym (lookup-insert_self k w d.entries) ∙ h'')
          | inr (other, b) ↦ inr (sym (lookup-insert_ne k j w d.entries b) ∙ h')
        ]
  ]
]

pub canonical_of : (r c : Record) → marshal r ≡ some c → canonical r ≡ c
unfolding canonical
canonical_of r c e = rw (e, canonical) refl

pub lookup-drop_entry :
    (k j : Key) (m : Map Key Record)
    → lookup j (drop_entry k m) ≡ (if j == k then none else lookup j m)
unfolding drop_entry lookup
lookup-drop_entry k j [] = elim (==-cases j k) [ inl (_, t) ↦ rw t | inr (_, f) ↦ rw f ]
lookup-drop_entry k j ((i, r) ∷ m) = elim (==-cases k i) [
  | inl (same, t) ↦ rw t (
      rw (lookup-drop_entry k j m) (elim (==-cases j k) [
        | inl (_, u) ↦ rw u
        | inr (other, u) ↦ let v : (j == i) ≡ false = rw same at u in rw u (rw v)
      ]))
  | inr (apart, f) ↦ rw f (elim (==-cases j i) [
    | inl (same, t) ↦ rw t (let v : (j == k) ≡ false = ==_ne (λ e. apart (sym e ∙ same)) in rw v)
    | inr (other, u) ↦ rw u (lookup-drop_entry k j m)
  ])
]

module _ {S : Type 0} (b : Backend S) where
  open b use {storage, may, load_ok}

  -- A cached record is the canonical form of one that the backend may return under that key.
  abbrev pub CoherentAt : State S → Key → Type 0
  CoherentAt s k =
      (c : Record)
      → lookup k s.cache.entries ≡ some c
      → (r : Record) × may s.inner k (some r) × (c ≡ canonical r)

  abbrev pub Coherent : State S → Type 0
  Coherent s = (k : Key) → CoherentAt s k

  write-Coherent :
      (s : State S) (k : Key) (r : Record)
      → Coherent s
      → may s.inner k (some r)
      → Coherent (record s { cache = write_cache_best_effort k r s.cache })
  write-Coherent s k r h held j c found = elim (lookup-write k j r c s.cache found) [
    | inl (same, e) ↦ (r, rw same held, sym (canonical_of r c e))
    | inr old ↦ h j c old
  ]

  -- A result that is the canonical form of what the backend may return.
  abbrev pub Returned : State S → Key → Option Record → Type 0
  Returned s k o = (v : Option Record) × may s.inner k v × (o ≡ canonical? v)

  -- From a coherent state, a Load that does not fail returns what the backend may return under the key,
  -- in canonical order, whether it came from the cache or not; every Load leaves the state coherent and
  -- the backend as it was.
  pub load-Returned :
      (s : State S) (k : Key)
      → Coherent s
      → ((o : Option Record) → (load storage s k).1 ≡ ok o → Returned s k o)
        × Coherent (load storage s k).0
        × ((load storage s k).0.inner ≡ s.inner)
  unfolding load
  load-Returned s k h = elim (Option-cases (lookup k s.cache.entries)) [
    | inr (c, found) ↦
        let (r, held, same) = h k c found in
        rw (found, load) (λ o e. (some r, held, ok-inj (some c) o e ∙ ap some same), h, refl)
    | inl absent ↦ rw (absent, load) (go (storage.load s.inner k) refl)
  ]
    where
      ok-inj : (a o : Option Record) → ◌≡◌ {A = Result (Option Record)} (ok a) (ok o) → o ≡ a
      ok-inj a o e = cc

      after : Result (Option Record) → State S × Result (Option Record)
      after failed = (s, failed)
      after (ok none) = (s, ok none)
      after (ok (some r)) =
          (record s { cache = write_cache_best_effort k r s.cache }, ok (some (canonical r)))

      go :
          (res : Result (Option Record))
          → storage.load s.inner k ≡ res
          → ((o : Option Record) → (after res).1 ≡ ok o → Returned s k o)
            × Coherent (after res).0
            × ((after res).0.inner ≡ s.inner)
      go failed e = (λ o f. cc, h, refl)
      go (ok none) e = (λ o f. (none, load_ok s.inner k none e, ok-inj none o f), h, refl)
      go (ok (some r)) e =
          let held = load_ok s.inner k (some r) e in
          (
            λ o f. (some r, held, ok-inj (some (canonical r)) o f),
            write-Coherent s k r h held,
            refl,
          )
