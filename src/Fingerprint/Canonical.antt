-- ===== src/Fingerprint/Canonical.antt =====
-- record.go: the schema check, the canonical order of the repeated fields, and what Marshal writes.
-- The encoding is protobuf's; Marshal and Unmarshal on bytes are in Bytes.
pub mod Order
use sloff.Prelude.{
  ==-cases, Bool, Option, Str_Eq, arith, if◌then◌else◌, inl, inr, nat_Eq, nat_eq, none, not, refl,
  some, sort, str_eq, str_ltb, ℕ, ◌||◌, ◌≡◌, ◌≢◌, ◌⊎◌,
}
use sloff.Fingerprint.Defs.{FileEntry, Output, ResolvedVersion, Input, Record, schema_version_v3}

pub data SchemaCheck : Type 0 where
  valid unspecified unknown superseded : SchemaCheck

-- SchemaVersion_name: the values that the enum declares, 0, 2 and 3.
known_version : ℕ → Bool
known_version v = nat_eq v 0 || (nat_eq v 2 || nat_eq v schema_version_v3)

unfoldable pub validate_schema_version : ℕ → SchemaCheck
unfolding known_version
validate_schema_version v =
    if nat_eq v 0
    then unspecified
    else if not (known_version v)
    then unknown
    else if not (nat_eq v schema_version_v3)
    then superseded
    else valid

pub path_less : FileEntry → FileEntry → Bool
path_less a b = str_ltb a.path b.path

-- By name, then version, then source.
pub version_less : ResolvedVersion → ResolvedVersion → Bool
version_less a b =
    if not (str_eq a.name b.name)
    then str_ltb a.name b.name
    else if not (str_eq a.version b.version)
    then str_ltb a.version b.version
    else str_ltb a.source b.source

pub sort_output : Output → Output
unfolding path_less
sort_output o = record o { files = sort path_less o.files }

pub sort_input : Input → Input
unfolding version_less
sort_input i = record i { resolved_versions = sort version_less i.resolved_versions }

-- Sort
unfoldable pub sort_record : Record → Record
unfolding sort_output sort_input
sort_record r = record r { output = sort_output r.output; input = sort_input r.input }

-- Marshal up to the encoding: the record that is encoded, if the version is the current one.
unfoldable pub marshal : Record → Option Record
unfolding validate_schema_version sort_record
marshal r = elim (validate_schema_version r.schema_version) [
  | valid ↦ some (sort_record r)
  | _ ↦ none
]

-- The record that a caller of Marshal holds afterwards: Sort works in place.
unfoldable pub canonical : Record → Record
unfolding marshal
canonical r = elim (marshal r) [ some c ↦ c | none ↦ r ]

validate-cases :
    (v : ℕ)
    → (v ≡ schema_version_v3) × (validate_schema_version v ≡ valid)
      ⊎ (v ≢ schema_version_v3) × (validate_schema_version v ≢ valid)
unfolding validate_schema_version
validate-cases v = elim (==-cases v schema_version_v3) [
  | inl (same, t) ↦ inl (same, rw same)
  | inr (other, f) ↦ inr (other, λ h. ground arith)
]

pub marshal-cases :
    (r : Record)
    → (r.schema_version ≡ schema_version_v3) × (marshal r ≡ some (sort_record r))
      ⊎ (r.schema_version ≢ schema_version_v3) × (marshal r ≡ none)
unfolding marshal
marshal-cases r = elim (validate-cases r.schema_version) [
  | inl (same, e) ↦ inl (same, rw (e, marshal))
  | inr (other, n) ↦ inr (other, refused _ n)
]
  where
    refused :
        (c : SchemaCheck)
        → c ≢ valid
        → ◌≡◌ {A = Option Record} (elim c [ valid ↦ some (sort_record r) | _ ↦ none ]) none
    refused valid h = absurd (h refl)
    refused _ h = refl
