-- ===== src/Glob/Expander.antt =====
-- The Expander of glob.go, one call after the other. What doublestar finds in the tree, which does not
-- change while an Expander is used, is a parameter; `none` is its error.
pub mod Once
pub mod Tests
use sloff.Prelude.{
  Bool, List, Map, Option, Str, Str_Eq, [], bytes, contains, false, has_prefix, if◌then◌else◌,
  insert, lookup, map, nat_Eq, none, not, some, sort, str_eq, str_ltb, true, ◌++◌, ◌/◌, ◌||◌, ◌∷◌,
}
use sloff.Spec.Paths.{join, escapes_root}

pub record Doublestar : Type 0 where
  -- ValidatePattern
  pub valid : Str → Bool
  -- the literal base of SplitPattern
  pub base : Str → Str
  -- Glob of a pattern at the root of the repository, files only
  pub glob : Str → Option (List Str)
  -- Glob of `**` at a directory, files only, relative to it
  pub under : Str → Option (List Str)
  -- Match of a pattern and a path
  pub match : Str → Str → Option Bool

pub record Expander : Type 0 where
  pub cache : Map Str (List Str)
  pub base_files : Map Str (List Str)

abbrev pub new_expander : Expander
new_expander = record { cache = []; base_files = [] }

-- `strings.Contains(joined, "**")`
unfoldable pub contains_stars : Str → Bool
unfolding has_prefix
contains_stars [] = false
contains_stars (c ∷ s) = has_prefix (c ∷ s) (bytes "**") || contains_stars s

-- The patterns that Glob expands without a walk of their base.
unfoldable pub is_direct : Doublestar → Str → Bool
unfolding contains_stars
is_direct d joined =
    (str_eq (d.base joined) (bytes ".") || str_eq (d.base joined) []) || not (contains_stars joined)

-- `base + "/" + r`
abbrev pub below : Str → Str → Str
below base r = base ++ bytes "/" ++ r

-- The loop over the files under a base.
unfoldable pub match_files : Doublestar → Str → List Str → Option (List Str)
match_files d joined [] = some []
match_files d joined (f ∷ fs) =
    let rest = match_files d joined fs in
    elim (d.match joined f) [
      | none ↦ none
      | some true ↦ elim rest [ none ↦ none | some ms ↦ some (f ∷ ms) ]
      | some false ↦ rest
    ]

pub data GlobError : Type 0 where
  escapes failing : Str → GlobError

pub data Expansion : Type 0 where
  ok : List Str → Expansion
  err : GlobError → Expansion

-- `seen[m] = struct{}{}` for each match
unfoldable pub add_seen : List Str → List Str → List Str
unfolding contains
add_seen seen [] = seen
add_seen seen (m ∷ ms) = add_seen (if contains seen m then seen else m ∷ seen) ms

-- The paths of the set in order.
unfoldable pub sorted : Expansion → Expansion
unfolding sort
sorted (ok seen) = ok (sort str_ltb seen)
sorted (err e) = err e

module _ (d : Doublestar) where
  unfoldable pub files_under : Expander → Str → Expander × Option (List Str)
  unfolding lookup insert
  files_under e base = elim (lookup base e.base_files) [
    | some files ↦ (e, some files)
    | none ↦ elim (d.under base) [
      | none ↦ (e, none)
      | some rel ↦ (
        record e { base_files = insert base (map (below base) rel) e.base_files },
        some (map (below base) rel),
      )
    ]
  ]

  unfoldable pub walked : Str → Expander × Option (List Str) → Expander × Option (List Str)
  unfolding match_files
  walked joined (e, none) = (e, none)
  walked joined (e, some files) = (e, match_files d joined files)

  unfoldable pub compute_matches : Expander → Str → Expander × Option (List Str)
  unfolding files_under walked is_direct
  compute_matches e joined =
      let walk = walked joined (files_under e (d.base joined)) in
      if not (d.valid joined)
      then (e, none)
      else if is_direct d joined
      then (e, d.glob joined)
      else walk

  -- What match puts in the cache.
  unfoldable pub remember : Str → Expander × Option (List Str) → Expander × Option (List Str)
  unfolding insert
  remember joined (e, none) = (e, none)
  remember joined (e, some ms) = (record e { cache = insert joined ms e.cache }, some ms)

  unfoldable pub match_pattern : Expander → Str → Expander × Option (List Str)
  unfolding compute_matches lookup remember
  match_pattern e joined = elim (lookup joined e.cache) [
    | some cached ↦ (e, some cached)
    | none ↦ remember joined (compute_matches e joined)
  ]

  -- The loop over the patterns, with the matches seen so far.
  unfoldable pub expand_each : Expander → Str → List Str → List Str → Expander × Expansion
  unfolding match_pattern join escapes_root add_seen
  expand_each e dir seen [] = (e, ok seen)
  expand_each e dir seen (p ∷ ps) = elim (escapes_root (join dir p)) [
    | true ↦ (e, err (escapes p))
    | false ↦
        let (after, found) = match_pattern e (join dir p) in
        elim found [
          | none ↦ (after, err (failing p))
          | some ms ↦ expand_each after dir (add_seen seen ms) ps
        ]
  ]

  -- Expander.Expand
  unfoldable pub expand : Expander → Str → List Str → Expander × Expansion
  unfolding expand_each sorted
  expand e dir ps = let (after, found) = expand_each e dir [] ps in (after, sorted found)

  -- The Expand of the package.
  unfoldable pub expand_once : Str → List Str → Expansion
  unfolding expand
  expand_once dir ps = (expand new_expander dir ps).1
