-- ===== src/Fingerprint/Defs.antt =====
-- record.go, storage.go and the record schema of proto/sloff/fingerprint/v1. A proto getter on an
-- absent message gives the zero value, so an absent message is that value.
use sloff.Prelude.{
  Bool, Eq, List, Option, Str, Str_Eq, arith, map, nat_Eq, str_eq, str_eq_iff, true, ℕ, ◌&&◌, ◌↔◌,
  ◌≡◌,
}

pub record Key : Type 0 where
  pub spec_relpath : Str
  pub task_id : Str
  pub input_hash : Str

abbrev pub key_eq : Key → Key → Bool
key_eq a b =
    str_eq a.spec_relpath b.spec_relpath
    && (str_eq a.task_id b.task_id && str_eq a.input_hash b.input_hash)

pub key_eq_iff : (a b : Key) → (key_eq a b ≡ true) ↔ (a ≡ b)
key_eq_iff a b = ground (
  arith,
  str_eq_iff a.spec_relpath b.spec_relpath,
  str_eq_iff a.task_id b.task_id,
  str_eq_iff a.input_hash b.input_hash,
)

instance abbrev pub Key_Eq : Eq Key
Key_Eq = record { same_as = key_eq; same_iff = key_eq_iff }

-- ListFilter; empty texts and the zero time mean no condition.
pub record ListFilter : Type 0 where
  pub spec_relpath : Str
  pub task_id : Str
  pub older_than : Option ℕ

pub record FileEntry : Type 0 where
  pub path : Str
  pub hash : Str

pub record Output : Type 0 where
  pub hash : Str
  pub files : List FileEntry

pub record ResolvedVersion : Type 0 where
  pub name : Str
  pub version : Str
  pub source : Str

pub record Input : Type 0 where
  pub hash : Str
  pub files_hash : Str
  pub cmd_hash : Str
  pub resolved_versions_hash : Str
  pub resolved_versions : List ResolvedVersion

pub record SpecInfo : Type 0 where
  pub cmd : Str
  pub dir : Str
  pub task_id : Str

pub record Record : Type 0 where
  pub schema_version : ℕ
  pub spec : SpecInfo
  pub input : Input
  pub output : Output

-- SCHEMA_VERSION_V3.
abbrev pub schema_version_v3 : ℕ
schema_version_v3 = 3

-- FilePaths
unfoldable pub file_paths : List FileEntry → List Str
file_paths files = map (λ (f : FileEntry). f.path) files
