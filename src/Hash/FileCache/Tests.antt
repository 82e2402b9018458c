-- ===== src/Hash/FileCache/Tests.antt =====
-- A tree of three paths, one of them absent.
use sloff.Prelude.{
  Str, Str_Eq, [], bytes, containers, if◌then◌else◌, nat_Eq, refl, str_eq, ◌∷◌, ◌≡◌,
}
use sloff.Hash.{files_with}
use sloff.Hash.FileCache.{Read, ok, not_exist, unreadable, compute_digests, cached_files}
use sloff.Hash.FileCache.Same.{as_option, cached_files-files_with}

abbrev digest : Str → Read Str
digest p =
    if str_eq p (bytes "c")
    then not_exist
    else if str_eq p (bytes "d")
    then unreadable
    else ok (7 ∷ p)

-- An unreadable file wins over a missing one before it.
worst_error : compute_digests digest (bytes "c" ∷ bytes "a" ∷ bytes "d" ∷ []) ≡ unreadable
unfolding compute_digests containers
worst_error = refl

cached_files-files_with_example :
    as_option (cached_files (λ b. b) digest (bytes "b" ∷ bytes "a" ∷ bytes "b" ∷ []))
    ≡ files_with (λ b. b) (bytes "b" ∷ bytes "a" ∷ bytes "b" ∷ []) (λ p. as_option (digest p))
cached_files-files_with_example =
    cached_files-files_with (λ b. b) digest (bytes "b" ∷ bytes "a" ∷ bytes "b" ∷ [])
