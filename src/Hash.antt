-- ===== src/Hash.antt =====
-- internal/sloff/hash/hash.go: the digests that make up an input hash. SHA-256 is a parameter, a
-- function from bytes to bytes.
pub mod Encoding
pub mod FileCache
pub mod Tests
use sloff.Prelude.{
  List, Option, Str, Str_Eq, [], if◌then◌else◌, ltb, nat_Eq, none, some, sort, str_ltb, ℕ, ◌%◌,
  ◌++◌, ◌+◌, ◌/◌, ◌∷◌,
}

-- Two lower-case hexadecimal digits for each byte, as encoding/hex writes them.
hex_digit : ℕ → ℕ
hex_digit d = if ltb d 10 then 48 + d else 87 + d

unfoldable pub hex : Str → Str
unfolding hex_digit
hex [] = []
hex (b ∷ bs) = hex_digit (b / 16) ∷ hex_digit (b % 16) ∷ hex bs

-- What FilesWith writes for the sorted paths: path, NUL, digest, NUL. `none` is the error of
-- fileDigest, which ends the loop.
unfoldable pub files_preimage : (Str → Option Str) → List Str → Option Str
files_preimage digest [] = some []
files_preimage digest (p ∷ ps) = elim (digest p) [
  | none ↦ none
  | some d ↦ elim (files_preimage digest ps) [
    | none ↦ none
    | some rest ↦ some (p ++ (0 ∷ (d ++ (0 ∷ rest))))
  ]
]

-- What Cmd and ResolvedVersions write: the arguments with a NUL between any two.
unfoldable pub joined : List Str → Str
joined [] = []
joined (a ∷ []) = a
joined (a ∷ b ∷ rest) = a ++ (0 ∷ joined (b ∷ rest))

module _ (sha256 : Str → Str) where
  unfoldable pub files_with : List Str → (Str → Option Str) → Option Str
  unfolding files_preimage
  files_with paths digest = elim (files_preimage digest (sort str_ltb paths)) [
    | none ↦ none
    | some bytes_written ↦ some (hex (sha256 bytes_written))
  ]

  unfoldable pub cmd : List Str → Str
  unfolding joined
  cmd args = hex (sha256 (joined args))

  unfoldable pub resolved_versions : List Str → Str
  unfolding joined
  resolved_versions versions = hex (sha256 (joined (sort str_ltb versions)))

  -- `fmt.Fprintf(h, "%s\n%s\n%s\n", ...)`
  unfoldable pub input : Str → Str → Str → Str
  input files_hash cmd_hash resolved_versions_hash =
      hex (sha256 (files_hash ++ (10 ∷ (cmd_hash ++ (10 ∷ (resolved_versions_hash ++ (10 ∷ [])))))))

  -- fileSHA256 of a tree, which maps the paths of the files to their contents.
  unfoldable pub file_sha256 : (Str → Option Str) → Str → Option Str
  file_sha256 tree p = elim (tree p) [ none ↦ none | some content ↦ some (sha256 content) ]

  -- Files, with the root left out of the paths.
  unfoldable pub files : (Str → Option Str) → List Str → Option Str
  unfolding files_with file_sha256
  files tree paths = files_with paths (file_sha256 tree)
