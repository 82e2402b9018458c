-- ===== src/Fingerprint/Dynamo/RoundTrip.antt =====
-- What Load returns after Save, over a service that keeps to its documentation.
use sloff.Prelude.{
  In, Option, Option-cases, Str, Str_Eq, [], ap, if◌then◌else◌, inl, inr, ltb, nat_Eq, none, refl,
  some, sym, ◌+◌, ◌∙◌, ◌∷◌, ◌≡◌, ◌≢◌, ◌⊎◌,
}
use sloff.Fingerprint.Defs.{Key, Key_Eq, Record}
use sloff.Fingerprint.Canonical.{sort_record}
use sloff.Fingerprint.Bytes.{
  Proto, Decodes, found, corrupt, unmarshal_bytes, marshal_bytes, unmarshal_bytes-marshal_bytes,
}
use sloff.Fingerprint.Cached.{Result, ok, failed, Result-cases}
use sloff.Fingerprint.Dynamo.Keys.{
  Item, PrimaryKey, Primary_Eq, sort_key, new_primary_key, new_primary_key-inj, sk_separator,
}
use sloff.Fingerprint.Dynamo.Store.{
  Client, Setting, miss_or_record, record_from_attrs, item_attrs, load, save,
}
use sloff.Fingerprint.Dynamo.Bulk.{Reads}

-- What the service documents of a put, and the marshalling of an item. `latest` is what has been
-- written last. A read after a put may still give what a read before may have given, until the copies
-- of the item agree.
pub record Puts {W A : Type 0} (client : Client W A) (reads : Reads client) : Type 0 where
  pub unmarshals : (i : Item) → client.item_of (client.attrs_of i) ≡ some i
  pub latest : W → PrimaryKey → Option A
  pub put_latest :
      (w : W) (i : Item)
      → (client.put_item w (client.attrs_of i)).1 ≡ ok tt
      → latest (client.put_item w (client.attrs_of i)).0 (record { pk = i.pk; sk = i.sk })
        ≡ some (client.attrs_of i)
  pub put_may :
      (w : W) (i : Item) (p : PrimaryKey) (o : Option A)
      → (client.put_item w (client.attrs_of i)).1 ≡ ok tt
      → reads.may (client.put_item w (client.attrs_of i)).0 p o
      → (p ≡ record { pk = i.pk; sk = i.sk }) × (o ≡ some (client.attrs_of i)) ⊎ reads.may w p o

module _ {W A : Type 0} (proto : Proto) (client : Client W A) (reads : Reads client)
    (puts : Puts client reads) where
  -- What Load makes of a version of an item.
  abbrev pub loaded_from : Option A → Result (Option Record)
  loaded_from none = ok none
  loaded_from (some a) = record_from_attrs proto client a

  -- The copies of an item agree.
  abbrev pub IsSettled : W → PrimaryKey → Type 0
  IsSettled w p = (o : Option A) → reads.may w p o → o ≡ puts.latest w p

  -- What Load makes of the table, if it reaches it.
  load-may :
      (w : W) (k : Key)
      → client.get_item w (new_primary_key k) ≢ failed
      → (o : Option A) × reads.may w (new_primary_key k) o × (load proto client w k ≡ loaded_from o)
  unfolding load
  load-may w k reached = elim (Result-cases (client.get_item w (new_primary_key k))) [
    | inl e ↦ absurd (reached e)
    | inr (o, e) ↦ (o, reads.get_ok w (new_primary_key k) o e, rw (e, load) (same o))
  ]
    where
      same :
          (o : Option A)
          → ◌≡◌ {A = Result (Option Record)}
              (elim o [ none ↦ ok none | some a ↦ record_from_attrs proto client a ])
              (loaded_from o)
      same none = refl
      same (some a) = refl

  record_from-found :
      (i : Item) (r : Record)
      → unmarshal_bytes proto [] ≡ corrupt
      → unmarshal_bytes proto i.record_bytes ≡ found r
      → record_from_attrs proto client (client.attrs_of i) ≡ ok (some r)
  unfolding record_from_attrs miss_or_record
  record_from-found i r empty u = rw (puts.unmarshals i, record_from_attrs) (go i.record_bytes u)
    where
      go :
          (b : Str)
          → unmarshal_bytes proto b ≡ found r
          → ◌≡◌ {A = Result (Option Record)}
              (elim b [ [] ↦ failed | c ∷ rest ↦ miss_or_record proto (c ∷ rest) ])
              (ok (some r))
      go [] e = absurd (let bad : corrupt ≡ found r = sym empty ∙ e in cc)
      go (c ∷ rest) e = rw (e, miss_or_record) refl

  -- The item that Save writes.
  written : Setting → Key → Str → Item
  written s k b = record {
    pk = k.spec_relpath;
    sk = sort_key k;
    record_bytes = b;
    created_at = some s.now;
    expires_at = if ltb 0 s.expires_in then some (s.now + s.expires_in) else none;
  }

  save-cases :
      (s : Setting) (w : W) (k : Key) (r : Record)
      → (save proto client s w k r).1 ≡ ok tt
      → (b : Str) × (marshal_bytes proto r ≡ some b)
        × (save proto client s w k r ≡ client.put_item w (client.attrs_of (written s k b)))
  unfolding save item_attrs written
  save-cases s w k r h = elim (Option-cases (marshal_bytes proto r)) [
    | inl e ↦ let bad : failed ≡ ok tt = rw (e, item_attrs, save) at h in cc
    | inr (b, e) ↦ (b, e, rw (e, item_attrs, save) refl)
  ]

  -- If protobuf decodes what it encodes for the record and refuses the empty text, then after a Save
  -- that succeeds, each Load that reaches the table, of any key, makes its result of a version that a
  -- read before the Save may have given, or returns the record, in canonical order, and that only for
  -- the key of the Save, if the task ids hold no separator. Once the copies of the item agree, with no
  -- other write to it, Load of the key returns the record.
  pub load-put_item :
      (s : Setting) (w : W) (k : Key) (r : Record)
      → unmarshal_bytes proto [] ≡ corrupt
      → Decodes proto (sort_record r)
      → (save proto client s w k r).1 ≡ ok tt
      → let after = (save proto client s w k r).0 in
        ((v : W)
          → puts.latest v (new_primary_key k) ≡ puts.latest after (new_primary_key k)
          → IsSettled v (new_primary_key k)
          → client.get_item v (new_primary_key k) ≢ failed
          → load proto client v k ≡ ok (some (sort_record r)))
        × ((j : Key)
            → ¬ In sk_separator j.task_id
            → ¬ In sk_separator k.task_id
            → client.get_item after (new_primary_key j) ≢ failed
            → (j ≡ k) × (load proto client after j ≡ ok (some (sort_record r)))
              ⊎ ((o : Option A) × reads.may w (new_primary_key j) o
                  × (load proto client after j ≡ loaded_from o)))
  unfolding written new_primary_key
  load-put_item s w k r empty decodes h =
      let (b, encoded, same) = save-cases s w k r h in
      let put_ok = sym (ap (λ x. x.1) same) ∙ h in
      let item = written s k b in
      let found : loaded_from (some (client.attrs_of item)) ≡ ok (some (sort_record r)) =
        record_from-found item (sort_record r) empty
          (unmarshal_bytes-marshal_bytes proto r b decodes encoded) in
      rw same (
        λ v unchanged agree reached.
            let (o, may, result) = load-may v k reached in
            result
            ∙ ap loaded_from (agree o may ∙ unchanged ∙ puts.put_latest w item put_ok)
            ∙ found,
        λ j clear_j clear_k reached.
            let (o, may, result) = load-may _ j reached in
            elim (puts.put_may w item (new_primary_key j) o put_ok may) [
              | inr before ↦ inr (o, before, result)
              | inl (at, new) ↦
                  inl (
                    new_primary_key-inj j k clear_j clear_k at,
                    result ∙ ap loaded_from new ∙ found,
                  )
            ],
      )
