-- ===== src/Hash/Tests.antt =====
-- The digests on concrete texts, and the inputs they tell apart.
use sloff.Prelude.{
  All, List, Option, Str, Str_Eq, [], bytes, containers, contains, false, length, nat_Eq, not-In,
  refl, some, sym, ◌∷◌, ◌≡◌,
}
use sloff.Hash.{hex, files_preimage, joined}
use sloff.Hash.Encoding.{NulFree, Digests, joined-inj, files_preimage-inj}

hex_runs :
    (hex (0 ∷ 10 ∷ 255 ∷ []) ≡ bytes "000aff")
    × (joined (bytes "a" ∷ bytes "b" ∷ []) ≡ 97 ∷ 0 ∷ 98 ∷ [])
unfolding hex joined containers
hex_runs = (refl, refl)

abbrev ls : List Str
ls = bytes "ls" ∷ bytes "-l" ∷ []

clear : (s : Str) → contains s 0 ≡ false → NulFree s
clear s h = not-In s 0 h

ls-NulFree : All NulFree ls
unfolding containers
ls-NulFree = (clear (bytes "ls") refl, (clear (bytes "-l") refl, tt))

joined-inj_example : ls ≡ ls
joined-inj_example = joined-inj ls ls (λ e. cc) (λ e. cc) ls-NulFree ls-NulFree refl

-- Every content has the digest 7, 8.
abbrev digest : Str → Option Str
digest p = some (7 ∷ 8 ∷ [])

abbrev paths : List Str
paths = bytes "a" ∷ bytes "b" ∷ []

paths-NulFree : All NulFree paths
unfolding containers
paths-NulFree = (clear (bytes "a") refl, (clear (bytes "b") refl, tt))

paths_written : files_preimage digest paths ≡ some (97 ∷ 0 ∷ 7 ∷ 8 ∷ 0 ∷ 98 ∷ 0 ∷ 7 ∷ 8 ∷ 0 ∷ [])
unfolding files_preimage
paths_written = refl

digests : Digests digest 2 paths
digests = (λ d e. two d e, (λ d e. two d e, tt))
  where
    two : (d : Str) → ◌≡◌ {A = Option Str} (some (7 ∷ 8 ∷ [])) (some d) → length d ≡ 2
    two d e = let same : 7 ∷ 8 ∷ [] ≡ d = cc in rw (sym same) refl

files_preimage-inj_example : (paths ≡ paths) × All (λ p. digest p ≡ digest p) paths
files_preimage-inj_example =
    files_preimage-inj digest digest 2 paths paths _ paths-NulFree paths-NulFree digests digests
      paths_written paths_written
