-- ===== src/Fingerprint/Cached.antt =====
-- internal/sloff/fingerprint/cached/cached.go: the local disk cache in front of a backend. The
-- backend is a parameter, an interface with a state; so is what a cache write does, since it is
-- allowed to fail.
pub mod Coherence
pub mod Writes
pub mod Tests
use sloff.Prelude.{
  Bool, List, Map, Option, Str_Eq, [], if◌then◌else◌, inl, inr, insert, lookup, nat_Eq, none, refl,
  some, ◌==◌, ◌∷◌, ◌≡◌, ◌⊎◌,
}
use sloff.Fingerprint.Defs.{Key, Key_Eq, Record}
use sloff.Fingerprint.Canonical.{marshal, canonical}

pub data Result (A : Type 0) : Type 0 where
  ok : A → Result A
  failed : Result A

pub Result-cases : {A : Type 0} (r : Result A) → (r ≡ failed) ⊎ ((a : A) × (r ≡ ok a))
Result-cases failed = inl refl
Result-cases (ok a) = inr (a, refl)

-- fingerprint.Storage, as far as the cache forwards to it: each operation with the state after it.
pub record Storage (S : Type 0) : Type 0 where
  pub load : S → Key → Result (Option Record)
  pub save : S → Key → Record → S × Result (Unit {0})
  pub delete : S → Key → S × Result (Unit {0})
  pub load_many : S → List Key → Result (Map Key Record)
  pub save_many : S → List (Key × Record) → S × Result (Unit {0})

-- The cache directory: the file of a key, if there is one that decodes. `stored k` says whether the
-- write of a key reaches the disk, and `removed k` whether its removal does.
pub record Disk : Type 0 where
  pub entries : Map Key Record
  pub stored : Key → Bool
  pub removed : Key → Bool

pub record State (S : Type 0) : Type 0 where
  pub inner : S
  pub cache : Disk

pub read_cache : Disk → Key → Option Record
read_cache d k = lookup k d.entries

pub write_cache_best_effort : Key → Record → Disk → Disk
unfolding marshal
write_cache_best_effort k r d = elim (marshal r) [
  | none ↦ d
  | some c ↦ if d.stored k then record d { entries = insert k c d.entries } else d
]

pub write_cache_many_best_effort : List (Key × Record) → Disk → Disk
unfolding write_cache_best_effort
write_cache_many_best_effort [] d = d
write_cache_many_best_effort ((k, r) ∷ items) d =
    write_cache_many_best_effort items (write_cache_best_effort k r d)

-- os.Remove of the file of the key.
pub drop_entry : Key → Map Key Record → Map Key Record
drop_entry k [] = []
drop_entry k ((j, r) ∷ m) = let rest = drop_entry k m in if k == j then rest else (j, r) ∷ rest

pub remove_cache_best_effort : Key → Disk → Disk
unfolding drop_entry
remove_cache_best_effort k d =
    if d.removed k then record d { entries = drop_entry k d.entries } else d

-- The keys that the cache serves, and those left for the backend, in LoadMany.
pub split_cached : Disk → List Key → Map Key Record × List Key
unfolding read_cache
split_cached d [] = ([], [])
split_cached d (k ∷ ks) =
    let (out, missing) = split_cached d ks in
    elim (read_cache d k) [ some r ↦ (insert k r out, missing) | none ↦ (out, k ∷ missing) ]

-- maps.Copy(out, fetched); the cache writes that follow sort the same records in place.
pub copy_into : Map Key Record → Map Key Record → Map Key Record
copy_into out [] = out
copy_into out ((k, r) ∷ m) = insert k (canonical r) (copy_into out m)

module _ {S : Type 0} (inner : Storage S) where
  unfoldable pub load : State S → Key → State S × Result (Option Record)
  unfolding read_cache write_cache_best_effort
  load s k = elim (read_cache s.cache k) [
    | some r ↦ (s, ok (some r))
    | none ↦ elim (inner.load s.inner k) [
      | failed ↦ (s, failed)
      | ok none ↦ (s, ok none)
      | ok (some r) ↦
          (record s { cache = write_cache_best_effort k r s.cache }, ok (some (canonical r)))
    ]
  ]

  unfoldable pub save : State S → Key → Record → State S × Result (Unit {0})
  unfolding write_cache_best_effort
  save s k r =
      let (i, res) = inner.save s.inner k r in
      elim res [
        | failed ↦ (record s { inner = i }, failed)
        | ok _ ↦ (record { inner = i; cache = write_cache_best_effort k r s.cache }, ok tt)
      ]

  unfoldable pub delete : State S → Key → State S × Result (Unit {0})
  unfolding remove_cache_best_effort
  delete s k =
      let (i, res) = inner.delete s.inner k in
      elim res [
        | failed ↦ (record s { inner = i }, failed)
        | ok _ ↦ (record { inner = i; cache = remove_cache_best_effort k s.cache }, ok tt)
      ]

  unfoldable pub load_many : State S → List Key → State S × Result (Map Key Record)
  unfolding split_cached copy_into write_cache_many_best_effort
  load_many s keys =
      let (out, missing) = split_cached s.cache keys in
      elim missing [
        | [] ↦ (s, ok out)
        | k ∷ ks ↦ elim (inner.load_many s.inner (k ∷ ks)) [
          | failed ↦ (s, failed)
          | ok fetched ↦ (
            record s { cache = write_cache_many_best_effort fetched s.cache },
            ok (copy_into out fetched),
          )
        ]
      ]

  unfoldable pub save_many : State S → List (Key × Record) → State S × Result (Unit {0})
  unfolding write_cache_many_best_effort
  save_many s items =
      let (i, res) = inner.save_many s.inner items in
      elim res [
        | failed ↦ (record s { inner = i }, failed)
        | ok _ ↦ (record { inner = i; cache = write_cache_many_best_effort items s.cache }, ok tt)
      ]
