-- ===== src/Hash/FileCache/Memo.antt =====
-- The memo of FileCache in filecache.go: digest with the identity of a file, and the cache file that
-- keeps the entries between runs. What os.Stat and the read of a file give is a parameter, and so are the
-- format of the cache file, which is protobuf's, and whether its write succeeds. Times are nanoseconds.
pub mod Valid
pub mod Tests
use sloff.Prelude.{
  Bool, List, Map, Option, Str, Str_Eq, [], false, if◌then◌else◌, insert, keep, lookup, ltb, nat_Eq,
  nat_eq, none, not, some, sort, str_ltb, true, ℕ, ◌&&◌, ◌+◌, ◌||◌, ◌∷◌,
}
use sloff.Hash.FileCache.{Read, ok, not_exist, unreadable}

-- What a stat tells: os.FileInfo and fileIdentity.
pub record Stat : Type 0 where
  pub size : ℕ
  pub mtime : ℕ
  pub ctime : ℕ
  pub inode : ℕ
  pub id_ok : Bool

-- fileCacheEntry
pub record MemoEntry : Type 0 where
  pub stat : Stat
  pub digest : Str

abbrev pub Memo : Type 0
Memo = Map Str MemoEntry

-- What one call of digest sees of a file: the stat before, the bytes, and the stat after.
pub record Seen : Type 0 where
  pub before : Read Stat
  pub content : Read Str
  pub after : Read Stat

abbrev pub bool_eq : Bool → Bool → Bool
bool_eq true b = b
bool_eq false b = not b

unfoldable pub entry_matches : MemoEntry → Stat → Bool
entry_matches e s =
    if not (nat_eq e.stat.size s.size && nat_eq e.stat.mtime s.mtime)
    then false
    else if s.id_ok && e.stat.id_ok
    then nat_eq e.stat.ctime s.ctime && nat_eq e.stat.inode s.inode
    else true

-- The condition under which a fresh digest is kept.
unfoldable pub stable : Stat → Stat → Bool
stable s t =
    (nat_eq t.size s.size && nat_eq t.mtime s.mtime)
    && (nat_eq t.ctime s.ctime && (nat_eq t.inode s.inode && bool_eq t.id_ok s.id_ok))

unfoldable pub keep_if_stable : Str → Stat → Str → Read Stat → Memo → Memo
unfolding stable insert
keep_if_stable path s d (ok t) c =
    if stable s t then insert path (record { stat = s; digest = d }) c else c
keep_if_stable path s d _ c = c

module _ (sha256 : Str → Str) where
  -- A digest that is not in the memo.
  unfoldable pub hash_file : Str → Stat → Seen → Memo → Memo × Read Str
  unfolding keep_if_stable
  hash_file path s seen c = elim seen.content [
    | ok b ↦ (keep_if_stable path s (sha256 b) seen.after c, ok (sha256 b))
    | not_exist ↦ (c, not_exist)
    | unreadable ↦ (c, unreadable)
  ]

  unfoldable pub digest : Str → Seen → Memo → Memo × Read Str
  unfolding hash_file entry_matches lookup
  digest path seen c = elim seen.before [
    | not_exist ↦ (c, not_exist)
    | unreadable ↦ (c, unreadable)
    | ok s ↦ elim (lookup path c) [
      | none ↦ hash_file path s seen c
      | some e ↦
          let fresh = hash_file path s seen c in
          if entry_matches e s then (c, ok e.digest) else fresh
    ]
  ]

-- racyMargin, two seconds.
abbrev pub racy_margin : ℕ
racy_margin = 2000000000

unfoldable pub entry_is_racy : MemoEntry → ℕ → Bool
entry_is_racy e at =
    ltb at (e.stat.mtime + racy_margin) || (e.stat.id_ok && ltb at (e.stat.ctime + racy_margin))

abbrev pub cache_schema_version : ℕ
cache_schema_version = 1

-- The cache file: its schema version and its entries.
abbrev pub CacheFile : Type 0
CacheFile = ℕ × List (Str × MemoEntry)

path_less : Str × MemoEntry → Str × MemoEntry → Bool
path_less a b = str_ltb a.0 b.0

-- What saveAt writes: the entries that are not racy, by path.
unfoldable pub saved_entries : ℕ → Memo → List (Str × MemoEntry)
unfolding keep sort entry_is_racy path_less
saved_entries at c = sort path_less (keep (λ (e : Str × MemoEntry). not (entry_is_racy e.1 at)) c)

-- `c.entries[pe.GetPath()] = …` for each entry.
unfoldable pub load_entries : List (Str × MemoEntry) → Memo → Memo
unfolding insert
load_entries [] c = c
load_entries ((p, e) ∷ es) c = load_entries es (insert p e c)

module _ (encode : CacheFile → Str) (decode : Str → Option CacheFile) where
  -- load, from the bytes of the file if it can be read.
  unfoldable pub load : Option Str → Memo
  unfolding load_entries
  load none = []
  load (some b) = elim (decode b) [
    | none ↦ []
    | some (version, es) ↦
        let seeded = load_entries es [] in
        if nat_eq version cache_schema_version then seeded else []
  ]

  -- saveAt, with the file before and after; without a path nothing is written.
  unfoldable pub save_at : Bool → Bool → ℕ → Memo → Option Str → Option Str × Bool
  unfolding saved_entries
  save_at persistent written at c old =
      if not persistent
      then (old, true)
      else if written
      then (some (encode (cache_schema_version, saved_entries at c)), true)
      else (old, false)
