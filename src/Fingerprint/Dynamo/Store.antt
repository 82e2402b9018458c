-- ===== src/Fingerprint/Dynamo/Store.antt =====
-- dynamodb.go: the operations of the backend. The client of the service and the marshalling of
-- attributes are parameters; a context that is cancelled is a call that fails. Batches run one after the
-- other here, and the first error is the result.
use sloff.Prelude.{
  Bool, List, Map, Option, Str, Str_Eq, [], false, if◌then◌else◌, insert, length, lookup, ltb, map,
  nat_Eq, none, not, some, str_eq, suc, true, zero, ℕ, ◌++◌, ◌+◌, ◌||◌, ◌∷◌,
}
use sloff.Fingerprint.Defs.{Key, Key_Eq, Record, ListFilter}
use sloff.Fingerprint.Bytes.{Proto, found, outdated, corrupt, unmarshal_bytes, marshal_bytes}
use sloff.Fingerprint.Cached.{Result, ok, failed}
use sloff.Fingerprint.Dynamo.Keys.{
  Item, PrimaryKey, Primary_Eq, sort_key, new_primary_key, sort_key_task_prefix, to_key,
}
use sloff.Fingerprint.Dynamo.Chunks.{chunk}

-- batchGetMaxItems and batchWriteMaxItems
abbrev pub batch_get_max_items : ℕ
batch_get_max_items = 100

abbrev pub batch_write_max_items : ℕ
batch_write_max_items = 25

-- The client, on states W of the service and attribute maps A.
pub record Client (W A : Type 0) : Type 0 where
  pub item_of : A → Option Item
  pub attrs_of : Item → A
  pub get_item : W → PrimaryKey → Result (Option A)
  pub put_item : W → A → W × Result (Unit {0})
  pub delete_item : W → PrimaryKey → W × Result (Unit {0})
  -- the items of one page of a Query or a Scan, or the error
  pub query : W → Str → Option Str → List (Result (List A))
  pub scan : W → List (Result (List A))
  -- the items found and the keys left unprocessed
  pub batch_get_item : W → List PrimaryKey → W × Result (List A × List PrimaryKey)
  -- the items left unwritten
  pub batch_write_item : W → List A → W × Result (List A)

-- The configuration of a Storage: the clock, and how many seconds a record lives, if that is limited.
pub record Setting : Type 0 where
  pub now : ℕ
  pub expires_in : ℕ

-- What Unmarshal gives a reader: superseded records are misses.
unfoldable pub miss_or_record : Proto → Str → Result (Option Record)
unfolding unmarshal_bytes
miss_or_record p b = elim (unmarshal_bytes p b) [
  | found r ↦ ok (some r)
  | outdated ↦ ok none
  | corrupt ↦ failed
]

-- `keyByPair`
unfoldable pub index_pairs : List Key → Map PrimaryKey Key → Map PrimaryKey Key
unfolding new_primary_key insert
index_pairs [] m = m
index_pairs (k ∷ ks) m = index_pairs ks (insert (new_primary_key k) k m)

-- unprocessedKeys
unfoldable pub unprocessed_keys : List PrimaryKey → Map PrimaryKey Key → List Key
unfolding lookup
unprocessed_keys [] by_pair = []
unprocessed_keys (p ∷ ps) by_pair =
    let rest = unprocessed_keys ps by_pair in
    if str_eq p.pk [] || str_eq p.sk []
    then rest
    else elim (lookup p by_pair) [ none ↦ rest | some k ↦ k ∷ rest ]

-- The filter on the write time; an item without one is kept.
recent : ListFilter → Item → Bool
recent f i = elim f.older_than [
  | none ↦ false
  | some cutoff ↦ elim i.created_at [ none ↦ false | some at ↦ not (ltb at cutoff) ]
]

module _ {W A : Type 0} (proto : Proto) (client : Client W A) where
  -- recordFromAttrs, and what Load makes of it.
  unfoldable pub record_from_attrs : A → Result (Option Record)
  unfolding miss_or_record
  record_from_attrs a = elim (client.item_of a) [
    | none ↦ failed
    | some i ↦ elim i.record_bytes [ [] ↦ failed | c ∷ b ↦ miss_or_record proto (c ∷ b) ]
  ]

  unfoldable pub load : W → Key → Result (Option Record)
  unfolding record_from_attrs new_primary_key
  load w k = elim (client.get_item w (new_primary_key k)) [
    | failed ↦ failed
    | ok none ↦ ok none
    | ok (some a) ↦ record_from_attrs a
  ]

  unfoldable pub item_attrs : Setting → Key → Record → Option A
  unfolding marshal_bytes sort_key
  item_attrs s k r = elim (marshal_bytes proto r) [
    | none ↦ none
    | some b ↦ some (
        client.attrs_of (record {
          pk = k.spec_relpath;
          sk = sort_key k;
          record_bytes = b;
          created_at = some s.now;
          expires_at = if ltb 0 s.expires_in then some (s.now + s.expires_in) else none;
        }))
  ]

  unfoldable pub save : Setting → W → Key → Record → W × Result (Unit {0})
  unfolding item_attrs
  save s w k r = elim (item_attrs s k r) [ none ↦ (w, failed) | some a ↦ client.put_item w a ]

  unfoldable pub delete : W → Key → W × Result (Unit {0})
  unfolding new_primary_key
  delete w k = client.delete_item w (new_primary_key k)

  unfoldable pub key_from_attrs : ListFilter → A → Result (Option Key)
  unfolding to_key recent
  key_from_attrs f a = elim (client.item_of a) [
    | none ↦ failed
    | some i ↦ elim (to_key i) [
      | none ↦ ok none
      | some k ↦ ok (if recent f i then none else some k)
    ]
  ]

  -- The loop over the items of a page, for the keys that pass a further test.
  unfoldable pub page_keys : ListFilter → (Key → Bool) → List A → Result (List Key)
  unfolding key_from_attrs
  page_keys f test [] = ok []
  page_keys f test (a ∷ tail) =
      let rest = page_keys f test tail in
      elim (key_from_attrs f a) [
        | failed ↦ failed
        | ok none ↦ rest
        | ok (some k) ↦ elim rest [ failed ↦ failed | ok ks ↦ ok (if test k then k ∷ ks else ks) ]
      ]

  unfoldable pub pages_keys : ListFilter → (Key → Bool) → List (Result (List A)) → Result (List Key)
  unfolding page_keys
  pages_keys f test [] = ok []
  pages_keys f test (page ∷ pages) =
      let rest = pages_keys f test pages in
      elim page [
        | failed ↦ failed
        | ok items ↦ elim (page_keys f test items) [
          | failed ↦ failed
          | ok ks ↦ elim rest [ failed ↦ failed | ok more ↦ ok (ks ++ more) ]
        ]
      ]

  unfoldable pub list_by_query : W → ListFilter → Result (List Key)
  unfolding pages_keys sort_key_task_prefix
  list_by_query w f =
      let prefix : Option Str =
        if str_eq f.task_id [] then none else some (sort_key_task_prefix f.task_id) in
      pages_keys f (λ k. true) (client.query w f.spec_relpath prefix)

  unfoldable pub list_by_scan : W → ListFilter → Result (List Key)
  unfolding pages_keys
  list_by_scan w f =
      pages_keys f (λ k. str_eq f.task_id [] || str_eq k.task_id f.task_id) (client.scan w)

  unfoldable pub list : W → ListFilter → Result (List Key)
  unfolding list_by_query list_by_scan
  list w f = if str_eq f.spec_relpath [] then list_by_scan w f else list_by_query w f

  -- The loop over the items of a response.
  unfoldable pub add_items : Map PrimaryKey Key → List A → Map Key Record → Result (Map Key Record)
  unfolding miss_or_record insert lookup
  add_items by_pair [] out = ok out
  add_items by_pair (a ∷ tail) out = elim (client.item_of a) [
    | none ↦ failed
    | some i ↦ elim (lookup (record { pk = i.pk; sk = i.sk }) by_pair) [
      | none ↦ add_items by_pair tail out
      | some k ↦ elim (miss_or_record proto i.record_bytes) [
        | failed ↦ failed
        | ok none ↦ add_items by_pair tail out
        | ok (some r) ↦ add_items by_pair tail (insert k r out)
      ]
    ]
  ]

  -- The loop over the pending keys of a batch, with fuel for its rounds; `none` is running out of it.
  unfoldable pub load_batch :
      ℕ → Map PrimaryKey Key → W → List Key → Map Key Record → Option (W × Result (Map Key Record))
  unfolding add_items unprocessed_keys new_primary_key
  load_batch fuel by_pair w [] out = some (w, ok out)
  load_batch zero by_pair w (k ∷ ks) out = none
  load_batch (suc fuel) by_pair w (k ∷ ks) out =
      let (after, response) = client.batch_get_item w (map new_primary_key (k ∷ ks)) in
      elim response [
        | failed ↦ some (after, failed)
        | ok (items, left) ↦ elim (add_items by_pair items out) [
          | failed ↦ some (after, failed)
          | ok more ↦ load_batch fuel by_pair after (unprocessed_keys left by_pair) more
        ]
      ]

  unfoldable pub load_batches :
      Map PrimaryKey Key
      → W
      → List (List Key)
      → Map Key Record
      → Option (W × Result (Map Key Record))
  unfolding load_batch
  load_batches by_pair w [] out = some (w, ok out)
  load_batches by_pair w (batch ∷ batches) out =
      elim (load_batch (length batch) by_pair w batch out) [
        | none ↦ none
        | some (after, failed) ↦ some (after, failed)
        | some (after, ok more) ↦ load_batches by_pair after batches more
      ]

  unfoldable pub load_many : W → List Key → Option (W × Result (Map Key Record))
  unfolding load_batches index_pairs chunk
  load_many w [] = some (w, ok [])
  load_many w (k ∷ ks) =
      load_batches (index_pairs (k ∷ ks) []) w (chunk (k ∷ ks) batch_get_max_items) []

  unfoldable pub encode_batch_writes : Setting → List (Key × Record) → Option (List A)
  unfolding item_attrs
  encode_batch_writes s [] = some []
  encode_batch_writes s ((k, r) ∷ items) =
      let rest = encode_batch_writes s items in
      elim (item_attrs s k r) [
        | none ↦ none
        | some a ↦ elim rest [ none ↦ none | some tail ↦ some (a ∷ tail) ]
      ]

  -- The loop over the pending writes of a batch.
  unfoldable pub write_batch : ℕ → W → List A → Option (W × Result (Unit {0}))
  write_batch fuel w [] = some (w, ok tt)
  write_batch zero w (a ∷ tail) = none
  write_batch (suc fuel) w (a ∷ tail) =
      let (after, response) = client.batch_write_item w (a ∷ tail) in
      elim response [ failed ↦ some (after, failed) | ok left ↦ write_batch fuel after left ]

  unfoldable pub write_batches :
      Setting → W → List (List (Key × Record)) → Option (W × Result (Unit {0}))
  unfolding encode_batch_writes write_batch
  write_batches s w [] = some (w, ok tt)
  write_batches s w (batch ∷ batches) = elim (encode_batch_writes s batch) [
    | none ↦ some (w, failed)
    | some writes ↦ elim (write_batch (length writes) w writes) [
      | none ↦ none
      | some (after, failed) ↦ some (after, failed)
      | some (after, ok _) ↦ write_batches s after batches
    ]
  ]

  unfoldable pub save_many : Setting → W → List (Key × Record) → Option (W × Result (Unit {0}))
  unfolding write_batches chunk
  save_many s w [] = some (w, ok tt)
  save_many s w (item ∷ items) = write_batches s w (chunk (item ∷ items) batch_write_max_items)
