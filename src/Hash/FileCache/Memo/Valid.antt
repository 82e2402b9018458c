-- ===== src/Hash/FileCache/Memo/Valid.antt =====
-- The memo gives the digests that hashing gives, and the cache file what was saved.
use sloff.Prelude.{
  ==-cases, Bool, Bool-cases, In, In-keep, In-keep_of, In-keys_of, In-sort, In-sort_of, List, NoDup,
  NoDup-map_keep, NoDup-perm, Option, Option-cases, Str, Str_Eq, [], ap, arith, false, inl, inr,
  insert, keep, keys_of, lookup, lookup-In, lookup-insert_ne, lookup-insert_self, lookup_of_In,
  nat_Eq, none, not, refl, some, sort-perm, subst, sym, true, ℕ, ◌↔◌, ◌∙◌, ◌∷◌, ◌≡◌, ◌⊎◌,
}
use mathlib.Core.List.Perm
use sloff.Hash.FileCache.{Read, ok, not_exist, unreadable}
use sloff.Hash.FileCache.Memo.{
  bool_eq, Stat, MemoEntry, Memo, Seen, entry_matches, stable, keep_if_stable, hash_file, digest,
  entry_is_racy, CacheFile, cache_schema_version, saved_entries, load_entries, load, save_at,
  path_less,
}

-- What the stats of one platform show: an identity on each, or none, where ctime and inode are 0.
abbrev pub Shows : Bool → Stat → Type 0
Shows identity s = (s.id_ok ≡ identity) × (identity ≡ false → (s.ctime ≡ 0) × (s.inode ≡ 0))

-- A file that shows one stat before and after a read had the content of that stat in between.
abbrev pub Honest : (Str → Stat → Str) → Str → Seen → Type 0
Honest content path seen =
    (s : Stat) (b : Str)
    → seen.before ≡ ok s
    → seen.after ≡ ok s
    → seen.content ≡ ok b
    → b ≡ content path s

abbrev stat_of : ℕ → ℕ → ℕ → ℕ → Bool → Stat
stat_of size mtime ctime inode id_ok = record {
  size = size;
  mtime = mtime;
  ctime = ctime;
  inode = inode;
  id_ok = id_ok;
}

stat_same :
    (s t : Stat)
    → s.size ≡ t.size
    → s.mtime ≡ t.mtime
    → s.ctime ≡ t.ctime
    → s.inode ≡ t.inode
    → s.id_ok ≡ t.id_ok
    → s ≡ t
stat_same s t a b c d e =
    let whole : stat_of s.size s.mtime s.ctime s.inode s.id_ok
        ≡ stat_of t.size t.mtime t.ctime t.inode t.id_ok =
      cc in
    whole

bool_eq_same : (a b : Bool) → bool_eq a b ≡ true → a ≡ b
bool_eq_same true b h = sym h
bool_eq_same false true h = cc
bool_eq_same false false h = refl

stable_same : (s t : Stat) → stable s t ≡ true → s ≡ t
unfolding stable
stable_same s t h =
    stat_same s t (ground arith) (ground arith) (ground arith) (ground arith)
      (sym (bool_eq_same t.id_ok s.id_ok (ground arith)))

-- On one platform, an entry matches a stat only if it has that stat.
entry_matches_same :
    (identity : Bool) (e : MemoEntry) (s : Stat)
    → Shows identity e.stat
    → Shows identity s
    → entry_matches e s ≡ true
    → e.stat ≡ s
unfolding entry_matches
entry_matches_same true e s (a, _) (b, _) h =
    stat_same e.stat s (ground arith) (ground arith) (ground arith) (ground arith) (a ∙ sym b)
entry_matches_same false e s (a, x) (b, y) h =
    let (c, i) = x refl in
    let (d, j) = y refl in
    stat_same e.stat s (ground arith) (ground arith) (c ∙ sym d) (i ∙ sym j) (a ∙ sym b)

read_cases :
    {A : Type 0} (x : Read A) → ((x ≡ not_exist) ⊎ (x ≡ unreadable)) ⊎ ((a : A) × (x ≡ ok a))
read_cases not_exist = inl (inl refl)
read_cases unreadable = inl (inr refl)
read_cases (ok a) = inr (a, refl)

module _ (sha256 : Str → Str) (content : Str → Stat → Str) (identity : Bool) where
  -- Each entry has a stat of the platform and the digest of the content of that stat.
  abbrev pub Valid : Memo → Type 0
  Valid c =
      (path : Str) (e : MemoEntry)
      → lookup path c ≡ some e
      → Shows identity e.stat × (e.digest ≡ sha256 (content path e.stat))

  Valid-insert :
      (c : Memo) (path : Str) (e : MemoEntry)
      → Valid c
      → Shows identity e.stat × (e.digest ≡ sha256 (content path e.stat))
      → Valid (insert path e c)
  Valid-insert c path e v d p x h = elim (==-cases p path) [
    | inl (same, _) ↦
        let both : some e ≡ some x = sym (lookup-insert_self path e c) ∙ (rw same at h) in
        let eq : e ≡ x = cc in rw (same, ← eq) d
    | inr (_, f) ↦ v p x (sym (lookup-insert_ne path p e c f) ∙ h)
  ]

  -- What digest returns: the digest of the content of the stat, or of the bytes read.
  abbrev pub Right : Str → Seen → Read Str → Type 0
  Right path seen (ok d) =
      (s : Stat) × (seen.before ≡ ok s)
      × ((d ≡ sha256 (content path s)) ⊎ ((b : Str) × (seen.content ≡ ok b) × (d ≡ sha256 b)))
  Right path seen _ = Unit

  hash_file-Valid :
      (path : Str) (s : Stat) (seen : Seen) (c : Memo)
      → Honest content path seen
      → Shows identity s
      → seen.before ≡ ok s
      → Valid c
      → Valid (hash_file sha256 path s seen c).0
        × Right path seen (hash_file sha256 path s seen c).1
  unfolding hash_file keep_if_stable
  hash_file-Valid path s seen c honest shown at v = elim (read_cases seen.content) [
    | inl (inl e) ↦ rw (e, hash_file) (v, tt)
    | inl (inr e) ↦ rw (e, hash_file) (v, tt)
    | inr (b, e) ↦ rw (e, hash_file) (stored b e seen.after refl, (s, at, inr (b, refl, refl)))
  ]
    where
      stored :
          (b : Str)
          → seen.content ≡ ok b
          → (t : Read Stat) → seen.after ≡ t
          → Valid (keep_if_stable path s (sha256 b) t c)
      stored b e not_exist f = v
      stored b e unreadable f = v
      stored b e (ok t) f = elim (Bool-cases (stable s t)) [
        | inr moved ↦ rw (moved, keep_if_stable) v
        | inl same ↦
            rw (same, keep_if_stable)
              (Valid-insert c path (record { stat = s; digest = sha256 b }) v
                (shown, ap sha256 (honest s b at (f ∙ ap ok (sym (stable_same s t same))) e)))
      ]

  -- Where all stats show an identity or none does, digest keeps valid a memo whose entries have the
  -- digests of the contents of their stats, if a file that shows one stat before and after a read had
  -- the content of that stat; what it returns, from the memo or not, is the digest of the content of
  -- the stat or of the bytes that it read.
  pub digest-Valid :
      (path : Str) (seen : Seen) (c : Memo)
      → ((s : Stat) → seen.before ≡ ok s → Shows identity s)
      → Honest content path seen
      → Valid c
      → Valid (digest sha256 path seen c).0 × Right path seen (digest sha256 path seen c).1
  unfolding digest
  digest-Valid path seen c shows honest v = elim (read_cases seen.before) [
    | inl (inl e) ↦ rw (e, digest) (v, tt)
    | inl (inr e) ↦ rw (e, digest) (v, tt)
    | inr (s, e) ↦ elim (Option-cases (lookup path c)) [
      | inl new ↦ fresh s e (rw (e, new, digest) refl)
      | inr (x, old) ↦ elim (Bool-cases (entry_matches x s)) [
        | inr f ↦ fresh s e (rw (e, old, f, digest) refl)
        | inl t ↦
            let served : digest sha256 path seen c ≡ (c, ok x.digest) =
              rw (e, old, t, digest) refl in
            let (known, right) = v path x old in
            let same = entry_matches_same identity x s known (shows s e) t in
            subst (λ r. Valid r.0 × Right path seen r.1) (sym served)
              (v, (s, e, inl (right ∙ ap (λ y. sha256 (content path y)) same)))
      ]
    ]
  ]
    where
      fresh :
          (s : Stat)
          → seen.before ≡ ok s
          → digest sha256 path seen c ≡ hash_file sha256 path s seen c
          → Valid (digest sha256 path seen c).0 × Right path seen (digest sha256 path seen c).1
      fresh s e same =
          subst (λ r. Valid r.0 × Right path seen r.1) (sym same)
            (hash_file-Valid path s seen c honest (shows s e) e v)

NoDup-saved_entries : (at : ℕ) (c : Memo) → NoDup (keys_of c) → NoDup (keys_of (saved_entries at c))
unfolding saved_entries
NoDup-saved_entries at c d =
    let kept = keep (λ (e : Str × MemoEntry). not (entry_is_racy e.1 at)) c in
    NoDup-perm (keys_of kept) (keys_of (saved_entries at c))
      (Perm.map (λ (e : Str × MemoEntry). e.0) (Perm.symm (sort-perm path_less kept)))
      (NoDup-map_keep (λ (e : Str × MemoEntry). e.0)
        (λ (e : Str × MemoEntry). not (entry_is_racy e.1 at)) c d)

lookup-saved_entries :
    (at : ℕ) (c : Memo) (p : Str) (e : MemoEntry)
    → NoDup (keys_of c)
    → (lookup p (saved_entries at c) ≡ some e)
      ↔ ((lookup p c ≡ some e) × (entry_is_racy e at ≡ false))
unfolding saved_entries
lookup-saved_entries at c p e d = (
  λ h.
      let i = In-sort path_less (p, e) kept (lookup-In p e (saved_entries at c) h) in
      let (old, t) = In-keep fresh (p, e) c i in (lookup_of_In p e c d old, ground arith),
  λ h.
      let t : fresh (p, e) ≡ true = rw (h.1) refl in
      lookup_of_In p e (saved_entries at c) (NoDup-saved_entries at c d)
        (In-sort_of path_less (p, e) kept (In-keep_of fresh (p, e) c (lookup-In p e c h.0) t)),
)
  where
    fresh : Str × MemoEntry → Bool
    fresh x = not (entry_is_racy x.1 at)

    kept : List (Str × MemoEntry)
    kept = keep fresh c

or_else : Option MemoEntry → Option MemoEntry → Option MemoEntry
or_else none b = b
or_else (some a) b = some a

or_else-none : (o : Option MemoEntry) → or_else o none ≡ o
unfolding or_else
or_else-none none = refl
or_else-none (some a) = refl

lookup-absent : (q : Str) (es : List (Str × MemoEntry)) → ¬ In q (keys_of es) → lookup q es ≡ none
lookup-absent q es n = elim (Option-cases (lookup q es)) [
  | inl g ↦ g
  | inr (x, g) ↦ absurd (n (In-keys_of q x es g))
]

-- Loading puts the entries in front of what is there.
lookup-load_entries :
    (es : List (Str × MemoEntry)) (c : Memo) (p : Str)
    → NoDup (keys_of es)
    → lookup p (load_entries es c) ≡ or_else (lookup p es) (lookup p c)
unfolding load_entries lookup or_else
lookup-load_entries [] c p d = refl
lookup-load_entries ((q, e) ∷ es) c p d = elim (==-cases p q) [
  | inl (same, t) ↦
      let later : or_else (lookup p es) (lookup p (insert q e c)) ≡ some e =
        rw (same, lookup-absent q es d.0) (lookup-insert_self q e c) in
      let here : some e ≡ lookup p ((q, e) ∷ es) = rw t refl in
      lookup-load_entries es (insert q e c) p d.1 ∙ later ∙ ap (λ o. or_else o (lookup p c)) here
  | inr (other, f) ↦
      let skip : lookup p es ≡ lookup p ((q, e) ∷ es) = rw f refl in
      lookup-load_entries es (insert q e c) p d.1
      ∙ ap (or_else (lookup p es)) (lookup-insert_ne q p e c f)
      ∙ ap (λ o. or_else o (lookup p c)) skip
]

module _ (encode : CacheFile → Str) (decode : Str → Option CacheFile) where
  -- If the format decodes what it encodes for the file written, and no path stands twice in the memo, then
  -- a run that loads the cache file of a Save that was
  -- written has exactly the entries that were not racy at the start of the run before.
  pub load-save_at :
      (at : ℕ) (c : Memo) (old : Option Str) (p : Str) (e : MemoEntry)
      → ◌≡◌ {A = Option CacheFile}
          (decode (encode (cache_schema_version, saved_entries at c)))
          (some (cache_schema_version, saved_entries at c))
      → NoDup (keys_of c)
      → (lookup p (load encode decode (save_at encode decode true true at c old).0) ≡ some e)
        ↔ ((lookup p c ≡ some e) × (entry_is_racy e at ≡ false))
  unfolding load save_at lookup
  load-save_at at c old p e trips d =
      let seeded =
        lookup-load_entries (saved_entries at c) [] p (NoDup-saved_entries at c d)
        ∙ or_else-none (lookup p (saved_entries at c)) in
      let written = lookup-saved_entries at c p e d in
      rw trips (λ h. written.0 (sym seeded ∙ h), λ h. seeded ∙ written.1 h)
