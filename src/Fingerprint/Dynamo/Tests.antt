-- ===== src/Fingerprint/Dynamo/Tests.antt =====
-- A service in memory with two copies of the table, of which the one that answers reads lacks the last
-- write. It answers one key of each batch and leaves the others unprocessed.
use sloff.Prelude.{
  ==-cases, ==_refl, All, In, List, Map, Option, Option-cases, Str, Str_Eq, [], ap, arith, bytes,
  containers, contains, false, if◌then◌else◌, inl, inr, insert, length, lookup, lookup-insert_ne,
  lookup-insert_self, nat_Eq, none, not-In, refl, some, subst, sym, without, ◌++◌, ◌==◌, ◌↔◌, ◌∙◌,
  ◌∷◌, ◌≡◌, ◌≢◌, ◌≤◌, ◌⊎◌,
}
use sloff.Fingerprint.Defs.{Key, Key_Eq, Record}
use sloff.Fingerprint.Canonical.{sort_record}
use sloff.Fingerprint.Bytes.{Proto, Decodes, corrupt, unmarshal_bytes}
use sloff.Fingerprint.Cached.{Result, ok, failed}
use sloff.Fingerprint.Dynamo.Keys.{
  Item, PrimaryKey, Primary_Eq, new_primary_key, sk_separator, parse_sort_key, parse_sort_key_iff,
}
use sloff.Fingerprint.Dynamo.Chunks.{chunk, concat, chunk-whole}
use sloff.Fingerprint.Dynamo.Store.{Client, Setting, load, save, load_many}
use sloff.Fingerprint.Dynamo.Bulk.{Reads}
use sloff.Fingerprint.Dynamo.Many.{Loaded, load_batches-load}
use sloff.Fingerprint.Dynamo.RoundTrip.{Puts, IsSettled, loaded_from, load-put_item}

abbrev Table : Type 0
Table = Map PrimaryKey Item

abbrev pair : Item → PrimaryKey
pair i = record { pk = i.pk; sk = i.sk }

-- An item is found under its own key only.
abbrev own : PrimaryKey → Option Item → Option Item
own p none = none
own p (some i) = if pair i == p then some i else none

look : Table → PrimaryKey → Option Item
unfolding lookup
look w p = own p (lookup p w)

serve : Option Item → List Item
serve none = []
serve (some i) = i ∷ []

batch_get : Table → List PrimaryKey → Result (List Item × List PrimaryKey)
unfolding look serve
batch_get w [] = ok ([], [])
batch_get w (p ∷ ps) = ok (serve (look w p), ps)

-- The copy with all writes and the one that lags behind.
abbrev Copies : Type 0
Copies = Table × Table

abbrev memory : Client Copies Item
memory = record {
  item_of = λ i. some i;
  attrs_of = λ i. i;
  get_item = λ w p. ok (look w.1 p);
  put_item = λ w i. ((insert (pair i) i w.0, w.0), ok tt);
  delete_item = λ w p. ((without p w.0, w.0), ok tt);
  query = λ w pk prefix. [];
  scan = λ w. [];
  batch_get_item = λ w ps. (w, batch_get w.1 ps);
  batch_write_item = λ w items. (w, failed);
}

own-pair : (p : PrimaryKey) (o : Option Item) (i : Item) → own p o ≡ some i → pair i ≡ p
own-pair p none i h = cc
own-pair p (some j) i h = elim (==-cases (pair j) p) [
  | inr (_, f) ↦ let bad : none ≡ some i = rw f at h in cc
  | inl (same, t) ↦ let e : some j ≡ some i = rw t at h in let eq : j ≡ i = cc in rw (← eq) same
]

In-serve : (i : Item) (o : Option Item) → o ≡ some i → In i (serve o)
unfolding serve
In-serve i o e = rw e (inl refl)

serve-In : (i : Item) (o : Option Item) → In i (serve o) → o ≡ some i
unfolding serve
serve-In i none m = absurd m
serve-In i (some j) (inl e) = ap some (sym e)
serve-In i (some j) (inr no_more) = absurd no_more

memory-Reads : Reads memory
unfolding batch_get look serve
memory-Reads = record {
  may = λ w p o. (o ≡ look w.0 p) ⊎ (o ≡ look w.1 p);
  get_ok = λ w p o h. inr (cc);
  keyed = λ w p a i h e.
      let same : a ≡ i = cc in
      let at : pair a ≡ p = elim h [
        | inl now ↦ own-pair p (lookup p w.0) a (sym now)
        | inr old ↦ own-pair p (lookup p w.1) a (sym old)
      ] in
      (
        ap (λ (q : PrimaryKey). q.pk) (ap pair (sym same) ∙ at),
        ap (λ (q : PrimaryKey). q.sk) (ap pair (sym same) ∙ at),
      );
  kept = λ w ps p o m. m;
  complete = λ w ps items left h p. complete w.0 w.1 ps items left h p;
  sound = λ w ps items left h i m. let (p, at) = sound w.1 ps items left h i m in (p, inr (sym at));
  progress = λ w p ps items left h. let rest : ps ≡ left = cc in omega (arith, ap length rest);
}
  where
    complete :
        (now w : Table) (ps : List PrimaryKey) (items : List Item) (left : List PrimaryKey)
        → batch_get w ps ≡ ok (items, left)
        → (p : PrimaryKey) → In p ps
        → ¬ In p left
        → ((none ≡ look now p) ⊎ (none ≡ look w p))
          ⊎ ((i : Item) × ((some i ≡ look now p) ⊎ (some i ≡ look w p)) × In i items)
    complete now w [] items left h p m n = absurd m
    complete now w (q ∷ ps) items left h p m n =
        let first : serve (look w q) ≡ items = cc in
        let second : ps ≡ left = cc in
        elim m [
          | inr later ↦ absurd (n (subst (In p) second later))
          | inl same ↦ elim (Option-cases (look w p)) [
            | inl absent ↦ inl (inr (sym absent))
            | inr (i, at) ↦
                let served = In-serve i (look w q) (ap (look w) (sym same) ∙ at) in
                inr (i, inr (sym at), subst (In i) first served)
          ]
        ]

    sound :
        (w : Table) (ps : List PrimaryKey) (items : List Item) (left : List PrimaryKey)
        → batch_get w ps ≡ ok (items, left)
        → (i : Item) → In i items
        → (p : PrimaryKey) × (look w p ≡ some i)
    sound w [] items left h i m =
        let none_there : [] ≡ items = cc in absurd (subst (In i) (sym none_there) m)
    sound w (q ∷ ps) items left h i m =
        let first : serve (look w q) ≡ items = cc in
        (q, serve-In i (look w q) (subst (In i) (sym first) m))

look-insert_self : (w : Table) (i : Item) → look (insert (pair i) i w) (pair i) ≡ some i
unfolding look
look-insert_self w i = rw (lookup-insert_self (pair i) i w, ==_refl (pair i)) refl

memory-Puts : Puts memory memory-Reads
unfolding memory-Reads look
memory-Puts = record {
  unmarshals = λ i. refl;
  latest = λ w p. look w.0 p;
  put_latest = λ w i h. look-insert_self w.0 i;
  put_may = λ w i p o h m. elim m [
    | inr before ↦ inr (inl before)
    | inl now ↦ elim (==-cases p (pair i)) [
      | inl (same, t) ↦
          inl (same, now ∙ ap (look (insert (pair i) i w.0)) same ∙ look-insert_self w.0 i)
      | inr (other, f) ↦ inr (inl (now ∙ ap (own p) (lookup-insert_ne (pair i) p i w.0 f)))
    ]
  ];
}

abbrev rec : Record
rec = record {
  schema_version = 3;
  spec = record { cmd = bytes "gen"; dir = bytes "svc"; task_id = bytes "t" };
  input = record {
    hash = bytes "ab";
    files_hash = [];
    cmd_hash = [];
    resolved_versions_hash = [];
    resolved_versions = [];
  };
  output = record { hash = bytes "ff"; files = [] };
}

-- A format for this one record.
abbrev one_record : Proto
one_record = record {
  encode = λ r. bytes "record";
  decode = λ b. elim b [ [] ↦ none | _ ∷ _ ↦ some rec ];
}

abbrev at : Setting
at = record { now = 1000; expires_in = 86400 }

abbrev key : Key
key = record { spec_relpath = bytes "svc"; task_id = bytes "t"; input_hash = bytes "ab" }

abbrev second_key : Key
second_key = record key { task_id = bytes "u" }

refuses : unmarshal_bytes one_record [] ≡ corrupt
unfolding unmarshal_bytes
refuses = refl

decodes : Decodes one_record (sort_record rec)
unfolding sort_record containers
decodes = refl

clear : (s : Str) → contains s sk_separator ≡ false → ¬ In sk_separator s
clear s h = not-In s sk_separator h

clear_t : ¬ In sk_separator (bytes "t")
unfolding containers
clear_t = clear (bytes "t") refl

clear_u : ¬ In sk_separator (bytes "u")
unfolding containers
clear_u = clear (bytes "u") refl

spec_named : bytes "svc" ≢ []
spec_named e = cc

parse_sort_key_iff_example : (parse_sort_key (bytes "t#ab") ≡ some (bytes "t", bytes "ab")) ↔ (
    (bytes "t#ab" ≡ bytes "t" ++ (sk_separator ∷ bytes "ab"))
    × (bytes "t" ≢ [])
    × (bytes "ab" ≢ [])
    × ¬ In sk_separator (bytes "t"))
parse_sort_key_iff_example = parse_sort_key_iff (bytes "t#ab") (bytes "t") (bytes "ab")

chunk-whole_example :
    (concat (chunk (bytes "abcde") 2) ≡ bytes "abcde")
    × All (λ c. (1 ≤ length c) × (length c ≤ 2)) (chunk (bytes "abcde") 2)
chunk-whole_example = chunk-whole (bytes "abcde") 2 (omega arith)

chunks : chunk (bytes "abcde") 2 ≡ bytes "ab" ∷ bytes "cd" ∷ bytes "e" ∷ []
unfolding chunk
chunks = refl

abbrev empty_table : Copies
empty_table = ([], [])

abbrev after_save : Copies
after_save = (save one_record memory at empty_table key rec).0

saved : (save one_record memory at empty_table key rec).1 ≡ ok tt
unfolding save containers
saved = refl

-- The copy that answers has not seen the write.
not_seen_yet : load one_record memory after_save key ≡ ok none
unfolding load save containers look
not_seen_yet = refl

load-put_item_example :
    ((v : Copies)
      → memory-Puts.latest v (new_primary_key key)
        ≡ memory-Puts.latest after_save (new_primary_key key)
      → IsSettled one_record memory memory-Reads memory-Puts v (new_primary_key key)
      → memory.get_item v (new_primary_key key) ≢ failed
      → load one_record memory v key ≡ ok (some (sort_record rec)))
    × ((j : Key)
        → ¬ In sk_separator j.task_id
        → ¬ In sk_separator key.task_id
        → memory.get_item after_save (new_primary_key j) ≢ failed
        → (j ≡ key) × (load one_record memory after_save j ≡ ok (some (sort_record rec)))
          ⊎ ((o : Option Item) × memory-Reads.may empty_table (new_primary_key j) o
              × (load one_record memory after_save j
                  ≡ loaded_from one_record memory memory-Reads memory-Puts o)))
load-put_item_example =
    load-put_item one_record memory memory-Reads memory-Puts at empty_table key rec refuses decodes
      saved

load_batches-load_example :
    (after : Copies) × (res : Result (Map Key Record)) × (load_many one_record memory after_save
        (key ∷ second_key ∷ [])
      ≡ some (after, res))
    × ((res ≡ failed)
        ⊎ ((out : Map Key Record) × (res ≡ ok out)
            × ((k : Key)
                → In k (key ∷ second_key ∷ [])
                → Loaded one_record memory memory-Reads after_save out k)))
load_batches-load_example =
    load_batches-load one_record memory memory-Reads after_save (key ∷ second_key ∷ []) refuses
      ((spec_named, clear_t), ((spec_named, clear_u), tt))
