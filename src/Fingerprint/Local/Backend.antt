-- ===== src/Fingerprint/Local/Backend.antt =====
-- The local storage as a backend of the cache, where protobuf decodes what it encodes and all files can
-- be read. Its operations run at one moment; its trees are those whose names are apart.
use sloff.Prelude.{List, Str, Str_Eq, [], ap, false, inl, inr, nat_Eq, ◌∙◌, ◌∷◌, ◌≡◌, ◌≢◌}
use sloff.Fingerprint.Defs.{Key, Record}
use sloff.Fingerprint.Canonical.{sort_record}
use sloff.Fingerprint.Canonical.Order.{canonical-sort_record}
use sloff.Fingerprint.Bytes.{Proto, Decodes}
use sloff.Fingerprint.Cached.{ok, Storage}
use sloff.Fingerprint.Cached.Coherence.{Backend}
use sloff.Fingerprint.Local.Timestamp.{IsCalendar}
use sloff.Fingerprint.Local.Store.{Tree, Faults, Moment, dir_for, load, save, delete}
use sloff.Fingerprint.Local.Loads.{WellFormed, Apart}
use sloff.Fingerprint.Local.RoundTrip.{save-WellFormed, load-save, load-save-Apart}
use sloff.Fingerprint.Local.Deleted.{delete-WellFormed, load-delete-Apart}
use sloff.Fingerprint.Local.Listing.{load_many, save_many}

module _ (proto : Proto) (faults : Faults) (at : Moment) (calendar : IsCalendar at.clock) where
  abbrev Kept : Type 0
  Kept = (t : Tree) × WellFormed t

  save_many-WellFormed :
      (t : Tree) (items : List (Key × Record))
      → WellFormed t
      → WellFormed (save_many proto faults at t items).0
  unfolding save_many
  save_many-WellFormed t [] w = w
  save_many-WellFormed t ((k, r) ∷ items) w =
      save_many-WellFormed (save proto faults at t k r).0 items
        (save-WellFormed proto faults at t k r w calendar)

  abbrev local_storage : Storage Kept
  local_storage = record {
    load = λ s k. load proto faults s.0 k;
    save = λ s k r.
        let (t, res) = save proto faults at s.0 k r in
        ((t, save-WellFormed proto faults at s.0 k r s.1 calendar), res);
    delete = λ s k.
        let (t, res) = delete proto faults s.0 k in
        ((t, delete-WellFormed proto faults s.0 k s.1), res);
    load_many = λ s ks. load_many proto faults s.0 ks;
    save_many = λ s items.
        let (t, res) = save_many proto faults at s.0 items in
        ((t, save_many-WellFormed s.0 items s.1), res);
  }

  Apart-ne : (j k : Key) → Apart j k → j ≢ k
  Apart-ne j k (inl dirs) e = dirs (ap dir_for e)
  Apart-ne j k (inr hashes) e = hashes (ap (λ (x : Key). x.input_hash) e)

  -- The local storage keeps to the contract of a backend.
  abbrev local_backend :
      ((r : Record) → Decodes proto r)
      → ((dir : List Str) (n : Str) → faults.read_file dir n ≡ false)
      → Backend Kept
  local_backend trips readable = record {
    storage = local_storage;
    may = λ s k o. load proto faults s.0 k ≡ ok o;
    Apart = Apart;
    apart_ne = Apart-ne;
    load_ok = λ s k o h. h;
    save_ok = λ s k r w done e. (
      sort_record r,
      load-save proto faults at s.0 k r (trips (sort_record r)) s.1 calendar (readable (dir_for k))
          done,
      canonical-sort_record r w e,
    );
    save_apart =
        λ s k j r o apart m. load-save-Apart proto faults at s.0 k r j s.1 calendar apart ∙ m;
    delete_apart = λ s k j o apart m. load-delete-Apart proto faults s.0 k j s.1 apart ∙ m;
  }
