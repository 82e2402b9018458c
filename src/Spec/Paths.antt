-- ===== src/Spec/Paths.antt =====
-- Paths in slash form: path.Clean and path.Join of Go's library, and EscapesRoot of
-- internal/sloff/glob/glob.go. The separator of the operating system is taken to be the slash, so
-- that filepath.ToSlash and FromSlash change nothing.
pub mod Inside
use sloff.Prelude.{
  Bool, List, Str, Str_Eq, [], bytes, containers, has_prefix, if◌then◌else◌, nat_Eq, nat_eq, refl,
  reverse, str_eq, true, ℕ, ◌++◌, ◌/◌, ◌||◌, ◌∷◌, ◌≡◌,
}

abbrev pub slash : ℕ
slash = b'/'

abbrev pub dot : Str
dot = bytes "."

abbrev pub dot_dot : Str
dot_dot = bytes ".."

-- A byte in front of the first of some segments.
onto_first : ℕ → List Str → List Str
onto_first c [] = (c ∷ []) ∷ []
onto_first c (s ∷ ss) = (c ∷ s) ∷ ss

-- The segments between slashes; there is always one.
unfoldable pub segments : Str → List Str
unfolding onto_first
segments [] = [] ∷ []
segments (c ∷ p) = let rest = segments p in if nat_eq c slash then [] ∷ rest else onto_first c rest

unfoldable pub join_segments : List Str → Str
join_segments [] = []
join_segments (s ∷ []) = s
join_segments (s ∷ t ∷ rest) = s ++ (slash ∷ join_segments (t ∷ rest))

-- `..` takes the last segment off, unless there is none or it is a `..` that stayed.
unfoldable pub back_up : Bool → List Str → List Str
back_up rooted [] = if rooted then [] else dot_dot ∷ []
back_up rooted (s ∷ stack) = if str_eq s dot_dot then dot_dot ∷ s ∷ stack else stack

-- One segment onto the stack of those that stay, the last on top.
unfoldable pub push_segment : Bool → List Str → Str → List Str
unfolding back_up
push_segment rooted stack s =
    if str_eq s [] || str_eq s dot
    then stack
    else if str_eq s dot_dot
    then back_up rooted stack
    else s ∷ stack

unfoldable pub clean_stack : Bool → List Str → List Str → List Str
unfolding push_segment
clean_stack rooted stack [] = stack
clean_stack rooted stack (s ∷ ss) = clean_stack rooted (push_segment rooted stack s) ss

-- path.Clean
unfoldable pub clean : Str → Str
unfolding clean_stack segments join_segments
clean [] = dot
clean (c ∷ p) =
    let rooted = nat_eq c slash in
    let out = join_segments (reverse (clean_stack rooted [] (segments (c ∷ p)))) in
    if rooted then slash ∷ out else elim out [ [] ↦ dot | b ∷ bs ↦ b ∷ bs ]

-- path.Join of two elements
unfoldable pub join : Str → Str → Str
unfolding clean
join [] [] = []
join [] (c ∷ b) = clean (c ∷ b)
join (c ∷ a) b = clean ((c ∷ a) ++ (slash ∷ b))

unfoldable pub escapes_root : Str → Bool
escapes_root joined = str_eq joined dot_dot || has_prefix joined (bytes "../")

clean_runs :
    (clean (bytes "a/./b//../c") ≡ bytes "a/c")
    × (clean (bytes "../a/../../b") ≡ bytes "../../b")
    × (join (bytes "svc/a") (bytes "../../x/*.go") ≡ bytes "x/*.go")
    × (escapes_root (join (bytes "svc") (bytes "../../x")) ≡ true)
    × (join (bytes ".") (bytes "") ≡ bytes ".")
    × (clean (bytes "/../a") ≡ bytes "/a")
unfolding join escapes_root containers
clean_runs = (refl, refl, refl, refl, refl, refl)
