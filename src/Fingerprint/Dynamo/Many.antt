-- ===== src/Fingerprint/Dynamo/Many.antt =====
-- LoadMany against Load, over a service that keeps to its documentation.
use sloff.Prelude.{
  ==-cases, All, In, In-append_cases, In-append_left, In-append_right, In-dec, In-map, List, Map,
  Option, Option-cases, Str, Str_Eq, [], ap, arith, inl, inr, insert, length, length-map, lookup,
  lookup-insert_ne, lookup-insert_self, map, nat_Eq, none, refl, some, str_eq_iff, subst, suc, sym,
  zero, ℕ, ◌++◌, ◌∙◌, ◌∷◌, ◌≡◌, ◌≤◌, ◌⊎◌,
}
use sloff.Fingerprint.Defs.{Key, Key_Eq, Record}
use sloff.Fingerprint.Bytes.{Proto, corrupt, unmarshal_bytes}
use sloff.Fingerprint.Cached.{Result, ok, failed, Result-cases}
use sloff.Fingerprint.Dynamo.Keys.{primary_eq_iff, Item, PrimaryKey, Primary_Eq, new_primary_key}
use sloff.Fingerprint.Dynamo.Chunks.{chunk, concat, chunk-whole}
use sloff.Fingerprint.Dynamo.Store.{
  load_batch, load_batches, load_many, load, unprocessed_keys, batch_get_max_items, Client,
  miss_or_record, record_from_attrs, add_items,
}
use sloff.Fingerprint.Dynamo.Bulk.{
  Reads, Storable, by_pair, paired, paired_inv, In-unprocessed_keys, unprocessed_keys-known,
  length-unprocessed_keys,
}

outcome_cases :
    {A : Type 0} (x : Result (Option A))
    → (x ≡ failed) ⊎ (x ≡ ok none) ⊎ ((a : A) × (x ≡ ok (some a)))
outcome_cases failed = inl refl
outcome_cases (ok none) = inr (inl refl)
outcome_cases (ok (some a)) = inr (inr (a, refl))

module _ {W A : Type 0} (proto : Proto) (client : Client W A) (reads : Reads client)
    (empty : unmarshal_bytes proto [] ≡ corrupt) (all_keys : List Key)
    (storable : All Storable all_keys) (table : PrimaryKey → Option A → Type 0)
    (keyed : (p : PrimaryKey) (a : A) (i : Item)
      → table p (some a)
      → client.item_of a ≡ some i
      → (i.pk ≡ p.pk) × (i.sk ≡ p.sk)) where
  -- What Load makes of a version of an item.
  from : Option A → Result (Option Record)
  from none = ok none
  from (some a) = record_from_attrs proto client a

  -- What a Load may return that reaches the table.
  abbrev Answer : Key → Result (Option Record) → Type 0
  Answer k res = (x : Option A) × table (new_primary_key k) x × (from x ≡ res)

  record_from-item :
      (a : A) (i : Item)
      → client.item_of a ≡ some i
      → record_from_attrs proto client a ≡ miss_or_record proto i.record_bytes
  unfolding record_from_attrs miss_or_record
  record_from-item a i e = rw (e, record_from_attrs) (go i.record_bytes)
    where
      go :
          (b : Str)
          → ◌≡◌ {A = Result (Option Record)}
              (elim b [ [] ↦ failed | c ∷ rest ↦ miss_or_record proto (c ∷ rest) ])
              (miss_or_record proto b)
      go [] = rw (empty, miss_or_record) refl
      go (c ∷ rest) = refl

  abbrev Sound : Map Key Record → Type 0
  Sound out = (k : Key) (r : Record) → lookup k out ≡ some r → Answer k (ok (some r))

  abbrev Answered : Map Key Record → Key → Type 0
  Answered out k = Answer k (ok none) ⊎ ((r : Record) × (lookup k out ≡ some r))

  -- What a loop adds to the result: only answers, and none is lost.
  record Adds (out more : Map Key Record) : Type 0 where
    right : Sound out → Sound more
    stays : (k : Key) → Answered out k → Answered more k

  Adds-refl : (out : Map Key Record) → Adds out out
  Adds-refl out = record { right = λ s. s; stays = λ k h. h }

  Adds-trans : (a b c : Map Key Record) → Adds a b → Adds b c → Adds a c
  Adds-trans a b c f g = record {
    right = λ s. g.right (f.right s);
    stays = λ k h. g.stays k (f.stays k h);
  }

  Adds-insert :
      (k : Key) (r : Record) (out : Map Key Record)
      → Answer k (ok (some r))
      → Adds out (insert k r out)
  Adds-insert k r out e = record {
    right = λ s j x h. elim (==-cases j k) [
      | inl (same, _) ↦
          let both : some r ≡ some x = sym (lookup-insert_self k r out) ∙ (rw same at h) in
          let eq : r ≡ x = cc in rw same (subst (λ y. Answer k (ok (some y))) eq e)
      | inr (_, f) ↦ s j x (sym (lookup-insert_ne k j r out f) ∙ h)
    ];
    stays = λ j h. elim h [
      | inl miss ↦ inl miss
      | inr (x, found) ↦ elim (==-cases j k) [
        | inl (same, _) ↦ rw same (inr (r, lookup-insert_self k r out))
        | inr (_, f) ↦ inr (x, lookup-insert_ne k j r out f ∙ found)
      ]
    ];
  }

  pair_of : Item → PrimaryKey
  pair_of i = record { pk = i.pk; sk = i.sk }

  pair-at :
      (p : PrimaryKey) (a : A) (i : Item)
      → table p (some a)
      → client.item_of a ≡ some i
      → pair_of i ≡ p
  unfolding pair_of
  pair-at p a i t e =
      let (same_pk, same_sk) = keyed p a i t e in
      let x = (str_eq_iff i.pk p.pk).1 same_pk in
      let y = (str_eq_iff i.sk p.sk).1 same_sk in
      (primary_eq_iff (pair_of i) p).0 (ground (arith, x, y))

  Answer-at :
      (k : Key) (a : A) (i : Item) (res : Result (Option Record))
      → table (new_primary_key k) (some a)
      → client.item_of a ≡ some i
      → miss_or_record proto i.record_bytes ≡ res
      → Answer k res
  unfolding from
  Answer-at k a i res t e h = (some a, t, record_from-item a i e ∙ h)

  abbrev pairs : Map PrimaryKey Key
  pairs = by_pair all_keys storable

  -- How one item of a response is taken.
  record Taken (a : A) (tail : List A) (out more : Map Key Record) : Type 0 where
    next : Map Key Record
    onward : add_items proto client pairs tail next ≡ ok more
    adds : Adds out next
    taken : (k : Key) → In k all_keys → table (new_primary_key k) (some a) → Answered next k

  item-Taken :
      (a : A) (tail : List A) (out more : Map Key Record)
      → ((p : PrimaryKey) × table p (some a))
      → add_items proto client pairs (a ∷ tail) out ≡ ok more
      → Taken a tail out more
  unfolding add_items pair_of
  item-Taken a tail out more (p, stored) h = elim (Option-cases (client.item_of a)) [
    | inl e ↦ let bad : failed ≡ ok more = rw (e, add_items) at h in cc
    | inr (i, e) ↦ elim (Option-cases (lookup (pair_of i) pairs)) [
      | inl unknown ↦ record {
        next = out;
        onward = rw (e, unknown, add_items) at h;
        adds = Adds-refl out;
        taken = λ k known t.
            let bad : none ≡ some k =
              sym unknown
              ∙ ap (λ q. lookup q pairs) (pair-at (new_primary_key k) a i t e)
              ∙ paired all_keys storable k known in
            cc;
      }
      | inr (j, named) ↦ elim (outcome_cases (miss_or_record proto i.record_bytes)) [
        | inl f ↦ let bad : failed ≡ ok more = rw (e, named, f, add_items) at h in cc
        | inr (inl miss) ↦ record {
          next = out;
          onward = rw (e, named, miss, add_items) at h;
          adds = Adds-refl out;
          taken = λ k known t. inl (Answer-at k a i (ok none) t e miss);
        }
        | inr (inr (r, hit)) ↦ record {
          next = insert j r out;
          onward = rw (e, named, hit, add_items) at h;
          adds = Adds-insert j r out (Answer-at j a i (ok (some r)) (here i j e named) e hit);
          taken = λ k known t.
              let both : some j ≡ some k =
                sym named
                ∙ ap (λ q. lookup q pairs) (pair-at (new_primary_key k) a i t e)
                ∙ paired all_keys storable k known in
              let eq : j ≡ k = cc in rw (← eq) (inr (r, lookup-insert_self j r out));
        }
      ]
    ]
  ]
    where
      here :
          (i : Item) (j : Key)
          → client.item_of a ≡ some i
          → lookup (pair_of i) pairs ≡ some j
          → table (new_primary_key j) (some a)
      here i j e named =
          subst (λ q. table q (some a))
            (sym (pair-at p a i stored e) ∙ (paired_inv all_keys storable (pair_of i) j named).1)
            stored

  add_items-Adds :
      (items : List A) (out more : Map Key Record)
      → ((a : A) → In a items → (p : PrimaryKey) × table p (some a))
      → add_items proto client pairs items out ≡ ok more
      → Adds out more
        × ((a : A) (k : Key)
            → In a items
            → In k all_keys
            → table (new_primary_key k) (some a)
            → Answered more k)
  unfolding add_items
  add_items-Adds [] out more stored h =
      let e : out ≡ more = cc in (subst (Adds out) e (Adds-refl out), λ a k i. absurd i)
  add_items-Adds (a ∷ tail) out more stored h =
      let t = item-Taken a tail out more (stored a (inl refl)) h in
      let (later, all_later) = add_items-Adds tail t.next more (λ b i. stored b (inr i)) t.onward in
      (
        Adds-trans out t.next more t.adds later,
        λ b k i known at. elim i [
          | inl same ↦
              later.stays k
                (t.taken k known (subst (λ z. table (new_primary_key k) (some z)) same at))
          | inr i' ↦ all_later b k i' known at
        ],
      )

  -- The end of a loop over pending keys: an error, or answers for all of them.
  abbrev Finished : List Key → Map Key Record → Option (W × Result (Map Key Record)) → Type 0
  Finished pending out none = ⊥
  Finished pending out (some (w, failed)) = Unit
  Finished pending out (some (w, ok more)) =
      ((p : PrimaryKey) (o : Option A) → reads.may w p o → table p o)
      × Adds out more
      × ((k : Key) → In k pending → Answered more k)

  Finished-after :
      (first rest : List Key) (out more : Map Key Record)
      (end : Option (W × Result (Map Key Record)))
      → Adds out more
      → ((k : Key) → In k first → In k rest ⊎ Answered more k)
      → Finished rest more end
      → Finished first out end
  Finished-after first rest out more none a split f = f
  Finished-after first rest out more (some (w, failed)) a split f = tt
  Finished-after first rest out more (some (w, ok last)) a split (v, b, done) = (
    v,
    Adds-trans out more last a b,
    λ k i. elim (split k i) [ inl later ↦ done k later | inr now ↦ b.stays k now ],
  )

  load_batch-Finished :
      (fuel : ℕ) (w : W) (pending : List Key) (out : Map Key Record)
      → ((p : PrimaryKey) (o : Option A) → reads.may w p o → table p o)
      → ((k : Key) → In k pending → In k all_keys)
      → length pending ≤ fuel
      → Finished pending out (load_batch proto client fuel pairs w pending out)
  unfolding load_batch from
  load_batch-Finished fuel w [] out v known enough = (v, Adds-refl out, λ k i. absurd i)
  load_batch-Finished zero w (k ∷ ks) out v known enough = absurd (omega arith)
  load_batch-Finished (suc fuel) w (k ∷ ks) out v known enough =
      elim (Result-cases (client.batch_get_item w asked).1) [
        | inl e ↦ rw (e, load_batch) tt
        | inr ((items, left), e) ↦ elim (Result-cases (add_items proto client pairs items out)) [
          | inl f ↦ rw (e, f, load_batch) tt
          | inr (more, f) ↦
              let (adds, all_answered) = add_items-Adds items out more (stored items left e) f in
              rw (e, f, load_batch)
                (Finished-after (k ∷ ks) (unprocessed_keys left pairs) out more _ adds
                  (split items left more e all_answered)
                  (load_batch-Finished fuel (client.batch_get_item w asked).0
                    (unprocessed_keys left pairs) more (λ p o m. v p o (reads.kept w asked p o m))
                    (unprocessed_keys-known all_keys storable left) (fewer items left e)))
        ]
      ]
    where
      asked : List PrimaryKey
      asked = map new_primary_key (k ∷ ks)

      stored :
          (items : List A) (left : List PrimaryKey)
          → (client.batch_get_item w asked).1 ≡ ok (items, left)
          → (a : A) → In a items
          → (p : PrimaryKey) × table p (some a)
      stored items left e a i =
          let (p, at) = reads.sound w asked items left e a i in (p, v p (some a) at)

      split :
          (items : List A) (left : List PrimaryKey) (more : Map Key Record)
          → (client.batch_get_item w asked).1 ≡ ok (items, left)
          → ((a : A) (j : Key)
              → In a items
              → In j all_keys
              → table (new_primary_key j) (some a)
              → Answered more j)
          → (j : Key) → In j (k ∷ ks)
          → In j (unprocessed_keys left pairs) ⊎ Answered more j
      split items left more e answered j i = elim (In-dec (new_primary_key j) left) [
        | inl waits ↦ inl (In-unprocessed_keys all_keys storable left j (known j i) waits)
        | inr served ↦
            let there = In-map new_primary_key j (k ∷ ks) i in
            elim (reads.complete w asked items left e (new_primary_key j) there served) [
              | inl nothing ↦ inr (inl (none, v _ none nothing, refl))
              | inr (a, at, found) ↦ inr (answered a j found (known j i) (v _ (some a) at))
            ]
      ]

      fewer :
          (items : List A) (left : List PrimaryKey)
          → (client.batch_get_item w asked).1 ≡ ok (items, left)
          → length (unprocessed_keys left pairs) ≤ fuel
      fewer items left e = omega (
        arith,
        reads.progress w (new_primary_key k) (map new_primary_key ks) items left e,
        length-unprocessed_keys left pairs,
        length-map new_primary_key ks,
        enough,
      )

  load_batches-Finished :
      (w : W) (batches : List (List Key)) (out : Map Key Record)
      → ((p : PrimaryKey) (o : Option A) → reads.may w p o → table p o)
      → ((k : Key) → In k (concat batches) → In k all_keys)
      → Finished (concat batches) out (load_batches proto client pairs w batches out)
  unfolding load_batches
  load_batches-Finished w [] out v known = (v, Adds-refl out, λ k i. absurd i)
  load_batches-Finished w (batch ∷ batches) out v known =
      go (load_batch proto client (length batch) pairs w batch out) refl
        (load_batch-Finished (length batch) w batch out v
          (λ k i. known k (In-append_left k batch (concat batches) i)) (omega arith))
        (λ after more v'.
          load_batches-Finished after batches more v'
            (λ k i. known k (In-append_right k batch (concat batches) i)))
    where
      go :
          (end : Option (W × Result (Map Key Record)))
          → load_batch proto client (length batch) pairs w batch out ≡ end
          → Finished batch out end
          → ((after : W) (more : Map Key Record)
              → ((p : PrimaryKey) (o : Option A) → reads.may after p o → table p o)
              → Finished (concat batches) more (load_batches proto client pairs after batches more))
          → Finished
              (batch ++ concat batches)
              out
              (load_batches proto client pairs w (batch ∷ batches) out)
      go none e f rest = absurd f
      go (some (after, failed)) e f rest = rw (e, load_batches) tt
      go (some (after, ok more)) e (v', adds, done) rest =
          rw (e, load_batches)
            (Finished-after (batch ++ concat batches) (concat batches) out more _ adds
              (λ k i. elim (In-append_cases k batch (concat batches) i) [
                | inl now ↦ inr (done k now)
                | inr later ↦ inl later
              ])
              (rest after more v'))

  -- What the result holds is what Load may return.
  Answer-lookup :
      (out : Map Key Record) (k : Key) → Sound out → Answered out k → Answer k (ok (lookup k out))
  Answer-lookup out k s h = elim (Option-cases (lookup k out)) [
    | inr (r, found) ↦ rw found (s k r found)
    | inl absent ↦ elim h [
      | inl miss ↦ rw absent miss
      | inr (r, found) ↦ let bad : none ≡ some r = sym absent ∙ found in absurd (cc)
    ]
  ]

  load-from :
      (w : W) (k : Key) (x : Option A)
      → client.get_item w (new_primary_key k) ≡ ok x
      → load proto client w k ≡ from x
  unfolding load from
  load-from w k none e = rw (e, load) refl
  load-from w k (some a) e = rw (e, load) refl

module _ {W A : Type 0} (proto : Proto) (client : Client W A) (reads : Reads client) where
  many-Finished :
      (empty : unmarshal_bytes proto [] ≡ corrupt) (w : W) (k : Key) (ks : List Key)
      (storable : All Storable (k ∷ ks))
      → Finished proto client reads empty
          (k ∷ ks)
          storable
          (reads.may w)
          (reads.keyed w)
          (k ∷ ks)
          []
          (load_many proto client w (k ∷ ks))
  unfolding load_many
  many-Finished empty w k ks storable =
      let (whole, _) = chunk-whole (k ∷ ks) batch_get_max_items (omega arith) in
      let chunks = chunk (k ∷ ks) batch_get_max_items in
      subst
        (λ l.
          Finished proto client reads empty (k ∷ ks) storable (reads.may w) (reads.keyed w) l []
            (load_many proto client w (k ∷ ks)))
        whole
        (load_batches-Finished proto client reads empty (k ∷ ks) storable (reads.may w)
          (reads.keyed w) w chunks [] (λ p o m. m) (λ j i. subst (In j) whole i))

  -- What LoadMany has for a key: what Load returns when GetItem gives a version of the item that a read
  -- may give.
  abbrev pub Loaded : W → Map Key Record → Key → Type 0
  Loaded w out k =
      (x : Option A) × reads.may w (new_primary_key k) x
      × ((v : W)
          → client.get_item v (new_primary_key k) ≡ ok x
          → load proto client v k ≡ ok (lookup k out))

  -- For a service that keeps to its documentation, with eventually consistent reads, and keys that the
  -- table can hold, LoadMany comes to an end, and fails or has for each key, in whatever batches and
  -- rounds, what Load returns when GetItem gives some version of the item that a read may give. The
  -- decoder must refuse the empty text.
  pub load_batches-load :
      (w : W) (ks : List Key)
      → unmarshal_bytes proto [] ≡ corrupt
      → All Storable ks
      → (after : W) × (res : Result (Map Key Record)) × (load_many proto client w ks
          ≡ some (after, res))
        × ((res ≡ failed)
            ⊎ ((out : Map Key Record) × (res ≡ ok out) × ((k : Key) → In k ks → Loaded w out k)))
  unfolding load_many lookup
  load_batches-load w [] empty storable = (w, ok [], refl, inr ([], refl, λ k i. absurd i))
  load_batches-load w (k ∷ ks) empty storable =
      go (load_many proto client w (k ∷ ks)) refl (many-Finished empty w k ks storable)
    where
      go :
          (end : Option (W × Result (Map Key Record)))
          → load_many proto client w (k ∷ ks) ≡ end
          → Finished proto client reads empty
              (k ∷ ks)
              storable
              (reads.may w)
              (reads.keyed w)
              (k ∷ ks)
              []
              end
          → (after : W) × (res : Result (Map Key Record)) × (load_many proto client w (k ∷ ks)
              ≡ some (after, res))
            × ((res ≡ failed)
                ⊎ ((out : Map Key Record) × (res ≡ ok out)
                    × ((j : Key) → In j (k ∷ ks) → Loaded w out j)))
      go none e f = absurd f
      go (some (after, failed)) e f = (after, failed, e, inl refl)
      go (some (after, ok out)) e (v, adds, answered) = (
        after,
        ok out,
        e,
        inr (
          out,
          refl,
          λ j i.
              let (x, may, same) =
                Answer-lookup proto client reads empty (k ∷ ks) storable (reads.may w)
                  (reads.keyed w) out j (adds.right (λ y r h. let bad : none ≡ some r = h in cc))
                  (answered j i) in
              (
                x,
                may,
                λ u gives.
                    load-from proto client reads empty (k ∷ ks) storable (reads.may w)
                      (reads.keyed w) u j x gives
                    ∙ same,
              ),
        ),
      )
