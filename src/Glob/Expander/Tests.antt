-- ===== src/Glob/Expander/Tests.antt =====
-- A tree with two files under `a`.
use sloff.Prelude.{List, Str, Str_Eq, [], bytes, containers, nat_Eq, refl, some, true, ◌∷◌, ◌≡◌}
use sloff.Glob.Expander.{Doublestar, Expander, new_expander, escapes, ok, err, expand, expand_once}
use sloff.Glob.Expander.Once.{Sound, new_expander-Sound, expand-expand_once}

-- Each pattern has the base `a` and matches every file under it.
abbrev all_under : Doublestar
all_under = record {
  valid = λ p. true;
  base = λ p. bytes "a";
  glob = λ p. some (p ∷ []);
  under = λ b. some (bytes "y" ∷ bytes "x" ∷ []);
  match = λ p f. some true;
}

abbrev patterns : List Str
patterns = bytes "**" ∷ bytes "z" ∷ bytes "**" ∷ []

abbrev warm : Expander
warm = (expand all_under new_expander (bytes "a") patterns).0

two_walked_one_direct :
    expand_once all_under (bytes "a") patterns ≡ ok (bytes "a/x" ∷ bytes "a/y" ∷ bytes "a/z" ∷ [])
unfolding expand_once containers
two_walked_one_direct = refl

out_of_the_root :
    expand_once all_under (bytes "a") (bytes "../../b" ∷ []) ≡ err (escapes (bytes "../../b"))
unfolding expand_once containers
out_of_the_root = refl

expand-expand_once_example :
    ((expand all_under warm (bytes "a") patterns).1 ≡ expand_once all_under (bytes "a") patterns)
    × Sound all_under (expand all_under warm (bytes "a") patterns).0
expand-expand_once_example =
    expand-expand_once all_under warm (bytes "a") patterns
      (expand-expand_once all_under new_expander (bytes "a") patterns
        (new_expander-Sound all_under)).1
