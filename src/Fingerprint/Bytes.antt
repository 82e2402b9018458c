-- ===== src/Fingerprint/Bytes.antt =====
-- Marshal and Unmarshal of record.go on bytes: the wire format is protobuf's, a parameter.
use sloff.Prelude.{Option, Str, Str_Eq, inl, inr, nat_Eq, none, refl, some, ◌≡◌, ◌≢◌, ◌⊎◌}
use sloff.Fingerprint.Defs.{Record, schema_version_v3}
use sloff.Fingerprint.Canonical.Order.{IsCanonicalOf, sort_record-IsCanonicalOf}
use sloff.Fingerprint.Canonical.{
  validate_schema_version, valid, superseded, marshal, sort_record, marshal-cases,
}

-- Encoding and decoding of messages by the protobuf library.
pub record Proto : Type 0 where
  pub encode : Record → Str
  pub decode : Str → Option Record

-- What Unmarshal returns: a superseded version is told apart from all other errors.
pub data Unmarshaled : Type 0 where
  found : Record → Unmarshaled
  outdated : Unmarshaled
  corrupt : Unmarshaled

unfoldable pub unmarshal_bytes : Proto → Str → Unmarshaled
unfolding validate_schema_version
unmarshal_bytes p b = elim (p.decode b) [
  | none ↦ corrupt
  | some r ↦ elim (validate_schema_version r.schema_version) [
    | valid ↦ found r
    | superseded ↦ outdated
    | _ ↦ corrupt
  ]
]

unfoldable pub marshal_bytes : Proto → Record → Option Str
unfolding marshal
marshal_bytes p r = elim (marshal r) [ none ↦ none | some c ↦ some (p.encode c) ]

-- Decoding reads back what encoding wrote of a message.
abbrev pub Decodes : Proto → Record → Type 0
Decodes p r = p.decode (p.encode r) ≡ some r

-- What Marshal has written reads as the record in canonical order.
pub unmarshal_bytes-marshal_bytes :
    (p : Proto) (r : Record) (b : Str)
    → Decodes p (sort_record r)
    → marshal_bytes p r ≡ some b
    → unmarshal_bytes p b ≡ found (sort_record r)
unfolding unmarshal_bytes marshal_bytes sort_record validate_schema_version
unmarshal_bytes-marshal_bytes p r b trips h = elim (marshal-cases r) [
  | inr (_, none_made) ↦ let bad : none ≡ some b = rw (none_made, marshal_bytes) at h in cc
  | inl (current, made) ↦
      let e : some (p.encode (sort_record r)) ≡ some b = rw (made, marshal_bytes) at h in
      let written : p.encode (sort_record r) ≡ b = cc in
      let accepted : validate_schema_version (sort_record r).schema_version ≡ valid =
        rw current refl in
      rw (← written) (rw (trips, unmarshal_bytes) (rw accepted refl))
]

-- If protobuf decodes what it encodes for the record in canonical order, then Marshal accepts exactly
-- the records of the current version, and Unmarshal reads what it wrote as a record with the same
-- fields, of which the files are the same in the order of their paths, and the versions of tools the
-- same in the order of name, version and source.
pub unmarshal-marshal_bytes :
    (p : Proto) (r : Record)
    → Decodes p (sort_record r)
    → (r.schema_version ≡ schema_version_v3)
        × ((b : Str) × (c : Record) × (marshal_bytes p r ≡ some b)
            × (unmarshal_bytes p b ≡ found c)
            × IsCanonicalOf r c)
      ⊎ (r.schema_version ≢ schema_version_v3) × (marshal_bytes p r ≡ none)
unfolding marshal_bytes
unmarshal-marshal_bytes p r trips = elim (marshal-cases r) [
  | inr (other, none_made) ↦ inr (other, rw (none_made, marshal_bytes) refl)
  | inl (current, made) ↦
      let written : marshal_bytes p r ≡ some (p.encode (sort_record r)) =
        rw (made, marshal_bytes) refl in
      inl (
        current,
        (
          p.encode (sort_record r),
          sort_record r,
          written,
          unmarshal_bytes-marshal_bytes p r (p.encode (sort_record r)) trips written,
          sort_record-IsCanonicalOf r,
        ),
      )
]
