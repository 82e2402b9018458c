-- ===== src/Fingerprint/Cached/Tests.antt =====
-- A backend in memory, which meets the contract of the storage interface.
use sloff.Prelude.{
  ==_ne, List, Map, Option, Str_Eq, String, [], bytes, containers, contains, false, inr, insert,
  keep, lookup, lookup-insert_ne, lookup-insert_self, nat_Eq, refl, some, sym, true, ◌∙◌, ◌∷◌, ◌≡◌,
  ◌≢◌,
}
use sloff.Fingerprint.Defs.{Key, Key_Eq, Record}
use sloff.Fingerprint.Cached.{ok, Storage, State, load, save, drop_entry}
use sloff.Fingerprint.Cached.Coherence.{
  Backend, CoherentAt, Returned, Coherent, canonical_of, lookup-drop_entry, load-Returned,
}
use sloff.Fingerprint.Cached.Writes.{save-CoherentAt}

insert_all : Map Key Record → List (Key × Record) → Map Key Record
insert_all m [] = m
insert_all m ((k, r) ∷ items) = insert_all (insert k r m) items

abbrev memory_storage : Storage (Map Key Record)
memory_storage = record {
  load = λ m k. ok (lookup k m);
  save = λ m k r. (insert k r m, ok tt);
  delete = λ m k. (drop_entry k m, ok tt);
  load_many = λ m ks. ok (keep (λ (kr : Key × Record). contains ks kr.0) m);
  save_many = λ m items. (insert_all m items, ok tt);
}

abbrev memory : Backend (Map Key Record)
memory = record {
  storage = memory_storage;
  may = λ m k o. o ≡ lookup k m;
  Apart = λ j k. j ≢ k;
  apart_ne = λ j k h. h;
  load_ok = λ s k o h. cc;
  save_ok = λ s k r w h e. (r, sym (lookup-insert_self k r s), canonical_of r w e);
  save_apart = λ s k j r o h m. m ∙ sym (lookup-insert_ne k j r s (==_ne h));
  delete_apart = λ s k j o h m. m ∙ sym (lookup-drop_entry k j s ∙ rw (==_ne h) refl);
}

abbrev key : Key
key = record { spec_relpath = bytes "a"; task_id = bytes "t"; input_hash = bytes "00" }

abbrev rec : String → Record
rec hash = record {
  schema_version = 3;
  spec = record { cmd = bytes "ls"; dir = bytes "a"; task_id = bytes "t" };
  input = record {
    hash = bytes "00";
    files_hash = [];
    cmd_hash = [];
    resolved_versions_hash = [];
    resolved_versions = [];
  };
  output = record { hash = bytes hash; files = [] };
}

abbrev fresh : State (Map Key Record)
fresh = record {
  inner = (key, rec "old") ∷ [];
  cache = record { entries = []; stored = λ k. true; removed = λ k. true };
}

fresh-Coherent : Coherent memory fresh
unfolding lookup
fresh-Coherent k c h = cc

load-Returned_example :
    ((o : Option Record) → (load memory.storage fresh key).1 ≡ ok o → Returned memory fresh key o)
    × Coherent memory (load memory.storage fresh key).0
    × ((load memory.storage fresh key).0.inner ≡ fresh.inner)
load-Returned_example = load-Returned memory fresh key fresh-Coherent

save-CoherentAt_example : CoherentAt memory (save memory.storage fresh key (rec "new")).0 key
unfolding lookup save
save-CoherentAt_example =
    save-CoherentAt memory fresh key key (rec "new") (inr (refl, refl, inr refl))

-- The cache file of the key is there and cannot be written again.
abbrev locked : State (Map Key Record)
locked = record {
  inner = (key, rec "old") ∷ [];
  cache = record { entries = (key, rec "old") ∷ []; stored = λ k. false; removed = λ k. false };
}

-- A cache write that is lost leaves the old record to be served.
stale :
    (load memory.storage (save memory.storage locked key (rec "new")).0 key).1
    ≡ ok (some (rec "old"))
unfolding load save containers
stale = refl
