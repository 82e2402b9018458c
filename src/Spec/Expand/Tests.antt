-- ===== src/Spec/Expand/Tests.antt =====
-- A command that depends on all tasks with a prefix.
use sloff.Prelude.{
  Bool, In, List, NoDup, Option, Str, Str_Eq, String, [], bytes, containers, false, nat_Eq, nat_eq,
  refl, some, true, ◌&&◌, ◌++◌, ◌||◌, ◌↔◌, ◌∷◌, ◌≡◌,
}
use sloff.Spec.Defs.{Depend, Command, File, Spec, EdgeKey, EdgeKey_Eq}
use sloff.Spec.Expand.{
  ExpandedPattern, ok, err, unmatched, literals, expand_command_depends, names_by_dir,
}
use sloff.Spec.Expand.Edges.{edge_keys}
use sloff.Spec.Expand.Patterns.{PatternEdge, expand_command_depends-edges}

-- A pattern with a star at its end.
stars : Str → Str → Bool
stars [] n = false
stars (p ∷ ps) [] = nat_eq p b'*'
stars (p ∷ ps) (c ∷ n) = nat_eq p b'*' || (nat_eq p c && stars ps n)

abbrev glob_matches : Str → Str → Option Bool
glob_matches p n = some (stars p n)

abbrev on : String → Depend
on s = record { spec = []; task = bytes s }

abbrev command : String → List Depend → Command
command s deps = record {
  cmd = [];
  depends = deps;
  barrier = true;
  inputs = [];
  name = bytes s;
  outputs = [];
  tools = [];
}

abbrev all_gens : Command
all_gens = command "gen_all" (on "gen_*" ∷ on "gen_b" ∷ on "g*" ∷ [])

abbrev here : Str
here = bytes "svc"

abbrev file : File
file = record {
  tools = [];
  commands = command "gen_b" [] ∷ all_gens ∷ command "gen_a" [] ∷ [];
  command_providers = [];
}

abbrev specs : List Spec
specs = record { dir = here; path = bytes "svc/sloff.yml"; file = file } ∷ []

abbrev names : Str → List Str
names = names_by_dir specs

abbrev groups : List ExpandedPattern
groups =
    record {
      consumer_dir = here;
      consumer_name = bytes "gen_all";
      glob = bytes "gen_*";
      edges = on "gen_a" ∷ on "gen_b" ∷ [];
    }
    ∷ record {
      consumer_dir = here;
      consumer_name = bytes "gen_all";
      glob = bytes "g*";
      edges = on "gen_a" ∷ on "gen_b" ∷ [];
    }
    ∷ []

expanded :
    expand_command_depends glob_matches names here all_gens
    ≡ ok (on "gen_b" ∷ on "gen_a" ∷ [], groups)
unfolding expand_command_depends names_by_dir stars containers
expanded = refl

nothing_matches :
    expand_command_depends glob_matches names here (command "x" (on "y*" ∷ []))
    ≡ err (unmatched here (bytes "x") (bytes "y*"))
unfolding expand_command_depends names_by_dir stars containers
nothing_matches = refl

expand_command_depends-edges_example :
    (rest : List Depend) × (on "gen_b" ∷ on "gen_a" ∷ [] ≡ literals all_gens.depends ++ rest)
    × NoDup (edge_keys here rest)
    × ((k : EdgeKey)
        → In k (edge_keys here rest) ↔ (
            PatternEdge glob_matches names here all_gens all_gens.depends k
            × ¬ In k (edge_keys here (literals all_gens.depends))))
expand_command_depends-edges_example =
    expand_command_depends-edges glob_matches names here all_gens (on "gen_b" ∷ on "gen_a" ∷ [])
      groups expanded
