-- ===== src/Spec/Defs.antt =====
-- The data of a sloff.yml: spec.go and EdgeKey of depends.go.
use sloff.Prelude.{
  Bool, Eq, List, Map, Str, Str_Eq, any, arith, bytes, contains, has_prefix, nat_Eq, str_eq,
  str_eq_iff, true, ◌&&◌, ◌↔◌, ◌≡◌,
}

pub record Depend : Type 0 where
  pub spec : Str
  pub task : Str

pub record Command : Type 0 where
  pub cmd : List Str
  pub depends : List Depend
  pub barrier : Bool
  pub inputs : List Str
  pub name : Str
  pub outputs : List Str
  pub tools : List Str

pub record DeclaredTool : Type 0 where
  pub resolver : Str
  pub exec : List Str
  pub extract : Str
  pub entry : Str
  pub package_name : Str
  pub depends : List Depend

pub record CommandProviderDecl : Type 0 where
  pub name : Str
  pub exec : List Str

pub record File : Type 0 where
  pub tools : Map Str DeclaredTool
  pub commands : List Command
  pub command_providers : List CommandProviderDecl

pub record Spec : Type 0 where
  pub dir : Str
  pub path : Str
  pub file : File

pub record EdgeKey : Type 0 where
  pub dir : Str
  pub task : Str

abbrev pub edge_eq : EdgeKey → EdgeKey → Bool
edge_eq a b = str_eq a.dir b.dir && str_eq a.task b.task

pub edge_eq_iff : (a b : EdgeKey) → (edge_eq a b ≡ true) ↔ (a ≡ b)
edge_eq_iff a b = ground (arith, str_eq_iff a.dir b.dir, str_eq_iff a.task b.task)

instance abbrev pub EdgeKey_Eq : Eq EdgeKey
EdgeKey_Eq = record { same_as = edge_eq; same_iff = edge_eq_iff }

-- dependPatternMeta: `*`, `?` and `[`.
abbrev pub pattern_meta : Str
pattern_meta = bytes "*?["

-- strings.ContainsAny(s, dependPatternMeta)
unfoldable pub contains_meta : Str → Bool
contains_meta s = any (λ c. contains pattern_meta c) s

unfoldable pub is_depend_pattern : Str → Bool
unfolding contains_meta
is_depend_pattern task = contains_meta task

-- filepath.IsAbs, where the separator is a slash.
unfoldable pub is_abs : Str → Bool
is_abs p = has_prefix p (bytes "/")
