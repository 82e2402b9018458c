-- ===== src/Hash/FileCache.antt =====
-- FileCache of internal/sloff/hash/filecache.go, as far as it composes digests: computeDigests,
-- foldDigests, Files, FilesAndDigests and FileHex. The digest of one file is a parameter, which is
-- ok with bytes, or an error that is or is not fs.ErrNotExist.
pub mod Same
pub mod Memo
pub mod Tests
use sloff.Prelude.{List, Map, Option, Str, Str_Eq, [], insert, lookup, nat_Eq, none, some, ◌∷◌}
use sloff.Hash.{hex, files_with}

pub data Read (A : Type 0) : Type 0 where
  ok : A → Read A
  not_exist : Read A
  unreadable : Read A

-- The digests in input order; the first error that is not ErrNotExist wins over one that is.
unfoldable pub compute_digests : (Str → Read Str) → List Str → Read (List Str)
compute_digests digest [] = ok []
compute_digests digest (p ∷ ps) =
    let rest = compute_digests digest ps in
    elim (digest p) [
      | unreadable ↦ unreadable
      | not_exist ↦ elim rest [ unreadable ↦ unreadable | _ ↦ not_exist ]
      | ok d ↦ elim rest [ unreadable ↦ unreadable | not_exist ↦ not_exist | ok ds ↦ ok (d ∷ ds) ]
    ]

-- `m[p] = ds[i]` for each path, in order.
unfoldable pub digest_map : List Str → List Str → Map Str Str → Map Str Str
digest_map [] ds m = m
digest_map (p ∷ ps) [] m = m
digest_map (p ∷ ps) (d ∷ ds) m = digest_map ps ds (insert p d m)

-- `m[p]`, the zero value where there is no entry.
unfoldable pub digest_at : Map Str Str → Str → Option Str
digest_at m p = elim (lookup p m) [ some d ↦ some d | none ↦ some [] ]

module _ (sha256 : Str → Str) where
  unfoldable pub fold_digests : List Str → List Str → Option Str
  unfolding digest_map digest_at files_with
  fold_digests paths ds = files_with sha256 paths (digest_at (digest_map paths ds []))

  -- FileCache.Files
  unfoldable pub cached_files : (Str → Read Str) → List Str → Read Str
  unfolding compute_digests fold_digests
  cached_files digest paths = elim (compute_digests digest paths) [
    | unreadable ↦ unreadable
    | not_exist ↦ not_exist
    | ok ds ↦ elim (fold_digests paths ds) [ some h ↦ ok h | none ↦ unreadable ]
  ]

-- The entries that FilesAndDigests returns next to the hash of the set.
unfoldable pub entries : List Str → List Str → List (Str × Str)
unfolding hex
entries [] ds = []
entries (p ∷ ps) [] = []
entries (p ∷ ps) (d ∷ ds) = (p, hex d) ∷ entries ps ds

module _ (sha256 : Str → Str) where
  unfoldable pub files_and_digests : (Str → Read Str) → List Str → Read (Str × List (Str × Str))
  unfolding compute_digests fold_digests entries
  files_and_digests digest paths = elim (compute_digests digest paths) [
    | unreadable ↦ unreadable
    | not_exist ↦ not_exist
    | ok ds ↦ elim (fold_digests sha256 paths ds) [
      | some h ↦ ok (h, entries paths ds)
      | none ↦ unreadable
    ]
  ]

unfoldable pub file_hex : (Str → Read Str) → Str → Read Str
unfolding hex
file_hex digest p = elim (digest p) [
  | ok d ↦ ok (hex d)
  | not_exist ↦ not_exist
  | unreadable ↦ unreadable
]
