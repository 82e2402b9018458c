-- ===== src/Fingerprint/Dynamo/Bulk.antt =====
-- The service as its documentation has it, and the index that LoadMany finds keys by.
use sloff.Prelude.{
  ==-cases, ==_ne, All, All-In, Bool-cases, In, In-map, List, Map, Option, Option-cases, Str,
  Str_Eq, [], ap, arith, false, inl, inr, insert, length, lookup, lookup-insert_ne,
  lookup-insert_self, map, nat_Eq, none, refl, some, str_eq, subst, sym, ◌++◌, ◌<◌, ◌||◌, ◌∙◌, ◌∷◌,
  ◌≡◌, ◌≢◌, ◌≤◌, ◌⊎◌,
}
use sloff.Fingerprint.Defs.{Key, Key_Eq}
use sloff.Fingerprint.Cached.{ok}
use sloff.Fingerprint.Dynamo.Keys.{
  Item, PrimaryKey, Primary_Eq, sort_key, new_primary_key, new_primary_key-inj, sk_separator,
}
use sloff.Fingerprint.Dynamo.Store.{Client, index_pairs, unprocessed_keys}

-- What the service documents of its reads, which are eventually consistent: `may` tells which versions
-- of an item, or its absence, a read may give. A batch answers each requested key with such a version
-- or leaves it unprocessed, leaves fewer than it was given, and an item carries its key.
pub record Reads {W A : Type 0} (client : Client W A) : Type 1 where
  pub may : W → PrimaryKey → Option A → Type 0
  pub get_ok : (w : W) (p : PrimaryKey) (o : Option A) → client.get_item w p ≡ ok o → may w p o
  pub keyed :
      (w : W) (p : PrimaryKey) (a : A) (i : Item)
      → may w p (some a)
      → client.item_of a ≡ some i
      → (i.pk ≡ p.pk) × (i.sk ≡ p.sk)
  -- a read makes no new version
  pub kept :
      (w : W) (ps : List PrimaryKey) (p : PrimaryKey) (o : Option A)
      → may (client.batch_get_item w ps).0 p o
      → may w p o
  pub complete :
      (w : W) (ps : List PrimaryKey) (items : List A) (left : List PrimaryKey)
      → (client.batch_get_item w ps).1 ≡ ok (items, left)
      → (p : PrimaryKey) → In p ps
      → ¬ In p left
      → may w p none ⊎ ((a : A) × may w p (some a) × In a items)
  pub sound :
      (w : W) (ps : List PrimaryKey) (items : List A) (left : List PrimaryKey)
      → (client.batch_get_item w ps).1 ≡ ok (items, left)
      → (a : A) → In a items
      → (p : PrimaryKey) × may w p (some a)
  pub progress :
      (w : W) (p : PrimaryKey) (ps : List PrimaryKey) (items : List A) (left : List PrimaryKey)
      → (client.batch_get_item w (p ∷ ps)).1 ≡ ok (items, left)
      → length left < length (p ∷ ps)

-- A key that the table can hold: its partition key is not empty, and its task id holds no separator.
abbrev pub Storable : Key → Type 0
Storable k = (k.spec_relpath ≢ []) × ¬ In sk_separator k.task_id

index_pairs-named :
    (ks : List Key) (m : Map PrimaryKey Key) (p : PrimaryKey) (k : Key)
    → lookup p (index_pairs ks m) ≡ some k
    → (In k ks × (p ≡ new_primary_key k)) ⊎ (lookup p m ≡ some k)
unfolding index_pairs
index_pairs-named [] m p k h = inr h
index_pairs-named (j ∷ ks) m p k h =
    elim (index_pairs-named ks (insert (new_primary_key j) j m) p k h) [
      | inl (i, e) ↦ inl (inr i, e)
      | inr old ↦ elim (==-cases p (new_primary_key j)) [
        | inl (same, _) ↦
            let e : some j ≡ some k =
              sym (lookup-insert_self (new_primary_key j) j m) ∙ (rw same at old) in
            let first : j ≡ k = cc in inl (inl (sym first), rw (← first) same)
        | inr (other, f) ↦ inr (sym (lookup-insert_ne (new_primary_key j) p j m f) ∙ old)
      ]
    ]

index_pairs-some :
    (ks : List Key) (m : Map PrimaryKey Key) (p : PrimaryKey)
    → (In p (map new_primary_key ks) ⊎ ((k : Key) × (lookup p m ≡ some k)))
    → (k : Key) × (lookup p (index_pairs ks m) ≡ some k)
unfolding index_pairs
index_pairs-some [] m p (inl i) = absurd i
index_pairs-some [] m p (inr h) = h
index_pairs-some (j ∷ ks) m p h = index_pairs-some ks (insert (new_primary_key j) j m) p (next h)
  where
    next :
        In p (map new_primary_key (j ∷ ks)) ⊎ ((k : Key) × (lookup p m ≡ some k))
        → In p (map new_primary_key ks)
          ⊎ ((k : Key) × (lookup p (insert (new_primary_key j) j m) ≡ some k))
    next (inl (inl same)) = inr (j, rw same (lookup-insert_self (new_primary_key j) j m))
    next (inl (inr later)) = inl later
    next (inr (k, e)) = elim (==-cases p (new_primary_key j)) [
      | inl (same, _) ↦ inr (j, rw same (lookup-insert_self (new_primary_key j) j m))
      | inr (_, f) ↦ inr (k, lookup-insert_ne (new_primary_key j) p j m f ∙ e)
    ]

pub length-unprocessed_keys :
    (left : List PrimaryKey) (by_pair : Map PrimaryKey Key)
    → length (unprocessed_keys left by_pair) ≤ length left
unfolding unprocessed_keys
length-unprocessed_keys [] by_pair = omega arith
length-unprocessed_keys (p ∷ ps) by_pair = elim (Bool-cases (str_eq p.pk [] || str_eq p.sk [])) [
  | inl t ↦ rw t (omega (arith, length-unprocessed_keys ps by_pair))
  | inr f ↦ elim (Option-cases (lookup p by_pair)) [
    | inl e ↦ rw (f, e) (omega (arith, length-unprocessed_keys ps by_pair))
    | inr (k, e) ↦ rw (f, e) (omega (arith, length-unprocessed_keys ps by_pair))
  ]
]

sort_key-ne : (k : Key) → str_eq (sort_key k) [] ≡ false
unfolding sort_key
sort_key-ne k = ==_ne (not_nil k.task_id)
  where
    not_nil : (s : Str) → s ++ (sk_separator ∷ k.input_hash) ≢ []
    not_nil [] e = cc
    not_nil (c ∷ s) e = cc

module _ (all_keys : List Key) (storable : All Storable all_keys) where
  abbrev pub by_pair : Map PrimaryKey Key
  by_pair = index_pairs all_keys []

  pub paired : (k : Key) → In k all_keys → lookup (new_primary_key k) by_pair ≡ some k
  unfolding lookup
  paired k i =
      let (j, e) =
        index_pairs-some all_keys [] (new_primary_key k)
          (inl (In-map new_primary_key k all_keys i)) in
      elim (index_pairs-named all_keys [] (new_primary_key k) j e) [
        | inr bad ↦ absurd (let c : none ≡ some j = bad in cc)
        | inl (known, same) ↦
            let eq =
              new_primary_key-inj k j (All-In Storable k all_keys storable i).1
                (All-In Storable j all_keys storable known).1 same in
            e ∙ ap some (sym eq)
      ]

  usable_key :
      (k : Key)
      → In k all_keys
      → (str_eq (new_primary_key k).pk [] || str_eq (new_primary_key k).sk []) ≡ false
  unfolding new_primary_key
  usable_key k known =
      let spec : str_eq k.spec_relpath [] ≡ false =
        ==_ne (All-In Storable k all_keys storable known).0 in
      rw (spec, sort_key-ne k) refl

  pub In-unprocessed_keys :
      (left : List PrimaryKey) (k : Key)
      → In k all_keys
      → In (new_primary_key k) left
      → In k (unprocessed_keys left by_pair)
  unfolding unprocessed_keys
  In-unprocessed_keys [] k known i = absurd i
  In-unprocessed_keys (p ∷ ps) k known (inl same) =
      let usable : (str_eq p.pk [] || str_eq p.sk []) ≡ false =
        subst (λ (q : PrimaryKey). (str_eq q.pk [] || str_eq q.sk []) ≡ false) same
          (usable_key k known) in
      let mine : lookup p by_pair ≡ some k =
        ap (λ q. lookup q by_pair) (sym same) ∙ paired k known in
      rw (usable, mine) (inl refl)
  In-unprocessed_keys (p ∷ ps) k known (inr later) =
      let rest = In-unprocessed_keys ps k known later in
      elim (Bool-cases (str_eq p.pk [] || str_eq p.sk [])) [
        | inl t ↦ rw t rest
        | inr f ↦ elim (Option-cases (lookup p by_pair)) [
          | inl e ↦ rw (f, e) rest
          | inr (j, e) ↦ rw (f, e) (inr rest)
        ]
      ]

  pub unprocessed_keys-known :
      (left : List PrimaryKey) (k : Key) → In k (unprocessed_keys left by_pair) → In k all_keys
  unfolding unprocessed_keys lookup
  unprocessed_keys-known [] k i = absurd i
  unprocessed_keys-known (p ∷ ps) k i = elim (Bool-cases (str_eq p.pk [] || str_eq p.sk [])) [
    | inl t ↦ unprocessed_keys-known ps k (rw t at i)
    | inr f ↦ elim (Option-cases (lookup p by_pair)) [
      | inl e ↦ unprocessed_keys-known ps k (rw (f, e) at i)
      | inr (j, e) ↦ elim (rw (f, e) at i) [
        | inr later ↦ unprocessed_keys-known ps k later
        | inl same ↦ elim (index_pairs-named all_keys [] p j e) [
          | inl (known, _) ↦ rw same known
          | inr bad ↦ absurd (let c : none ≡ some j = bad in cc)
        ]
      ]
    ]
  ]

  pub paired_inv :
      (p : PrimaryKey) (k : Key)
      → lookup p by_pair ≡ some k
      → In k all_keys × (p ≡ new_primary_key k)
  unfolding lookup
  paired_inv p k e = elim (index_pairs-named all_keys [] p k e) [
    | inl found ↦ found
    | inr bad ↦ absurd (let c : none ≡ some k = bad in cc)
  ]
