-- ===== src/Fingerprint/Tests.antt =====
-- A record that is written and read back.
use sloff.Prelude.{
  List, Str, Str_Eq, String, [], bytes, containers, nat_Eq, none, refl, some, ℕ, ◌∷◌, ◌≡◌, ◌≢◌, ◌⊎◌,
}
use sloff.Fingerprint.Defs.{FileEntry, Record}
use sloff.Fingerprint.Canonical.{sort_record, marshal}
use sloff.Fingerprint.Canonical.Order.{IsCanonicalOf}
use sloff.Fingerprint.Bytes.{
  Proto, Decodes, found, marshal_bytes, unmarshal_bytes, unmarshal-marshal_bytes,
}

abbrev file : String → FileEntry
file p = record { path = bytes p; hash = bytes "0f" }

abbrev rec : ℕ → List FileEntry → Record
rec version files = record {
  schema_version = version;
  spec = record { cmd = bytes "ls"; dir = bytes "a"; task_id = bytes "t" };
  input = record {
    hash = [];
    files_hash = [];
    cmd_hash = [];
    resolved_versions_hash = [];
    resolved_versions = [];
  };
  output = record { hash = bytes "00"; files = files };
}

marshal_sorts : marshal (rec 3 (file "b" ∷ file "a" ∷ [])) ≡ some (rec 3 (file "a" ∷ file "b" ∷ []))
unfolding marshal containers
marshal_sorts = refl

abbrev unsorted : Record
unsorted = rec 3 (file "b" ∷ file "a" ∷ [])

-- A format for this one record.
abbrev one_record : Proto
one_record = record {
  encode = λ r. bytes "record";
  decode = λ b. some (rec 3 (file "a" ∷ file "b" ∷ []));
}

decodes : Decodes one_record (sort_record unsorted)
unfolding sort_record containers
decodes = refl

unmarshal-marshal_bytes_example :
    (unsorted.schema_version ≡ 3)
      × ((b : Str) × (c : Record) × (marshal_bytes one_record unsorted ≡ some b)
          × (unmarshal_bytes one_record b ≡ found c)
          × IsCanonicalOf unsorted c)
    ⊎ (unsorted.schema_version ≢ 3) × (marshal_bytes one_record unsorted ≡ none)
unmarshal-marshal_bytes_example = unmarshal-marshal_bytes one_record unsorted decodes
