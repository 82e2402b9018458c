-- ===== src/Fingerprint/Local/Tests.antt =====
-- A directory with two files for one record, as a merge leaves them.
use sloff.Prelude.{
  List, Str, Str_Eq, [], arith, bytes, containers, false, inr, lookup, nat_Eq, ne_of_==, none,
  not-In, refl, some, str_ltb, true, ◌↔◌, ◌∷◌, ◌≡◌, ◌≢◌, ◌⊎◌,
}
use sloff.Fingerprint.Defs.{Key, Key_Eq, Record}
use sloff.Fingerprint.Canonical.{sort_record}
use sloff.Fingerprint.Bytes.{Proto, Decodes}
use sloff.Fingerprint.Cached.{ok, failed}
use sloff.Fingerprint.Local.Filename.{
  Time, format_prefix, looks_like_timestamp, split_filename, split_filename_iff, file_name,
}
use sloff.Fingerprint.Local.Timestamp.{
  IsCalendar, fields, looks_like-format_prefix, format_prefix-order,
}
use sloff.Fingerprint.Local.Store.{
  Node, file, Dir, Tree, Names_Eq, Faults, Moment, dir_for, entries_of, update, matching_names,
  load, save, delete, name_matches,
}
use sloff.Fingerprint.Local.Loads.{WellFormed, update-WellFormed}
use sloff.Fingerprint.Local.Matches.{Names}
use sloff.Fingerprint.Local.RoundTrip.{load-save, load-save-Apart, save-one_file}
use sloff.Fingerprint.Local.Listing.{load_many, collapse_duplicates, removed}

abbrev new_year : Time
new_year = record {
  year = 2025;
  month = 1;
  day = 1;
  hour = 0;
  minute = 0;
  second = 0;
  nanosecond = 7000000;
}

abbrev may : Time
may = record new_year { month = 5; day = 12 }

new_year-IsCalendar : IsCalendar new_year
new_year-IsCalendar = record {
  year_ok = omega arith;
  month_ok = omega arith;
  day_ok = omega arith;
  hour_ok = omega arith;
  minute_ok = omega arith;
  second_ok = omega arith;
  nanosecond_ok = omega arith;
}

may-IsCalendar : IsCalendar may
may-IsCalendar = record {
  year_ok = omega arith;
  month_ok = omega arith;
  day_ok = omega arith;
  hour_ok = omega arith;
  minute_ok = omega arith;
  second_ok = omega arith;
  nanosecond_ok = omega arith;
}

prefixes :
    (format_prefix new_year ≡ bytes "20250101000000007")
    × (format_prefix may ≡ bytes "20250512000000007")
unfolding format_prefix containers
prefixes = (refl, refl)

names :
    (split_filename (bytes "20250512000000007-ab-c.pb")
      ≡ some (bytes "20250512000000007", bytes "ab-c"))
    × (split_filename (bytes "2025-ab.pb") ≡ none)
    × (split_filename (bytes "20250512000000007-.pb") ≡ none)
unfolding split_filename containers
names = (refl, refl, refl)

split_filename_iff_example :
    (split_filename (bytes "20250512000000007-ab.pb")
      ≡ some (bytes "20250512000000007", bytes "ab"))
    ↔ ((bytes "20250512000000007-ab.pb" ≡ file_name (bytes "20250512000000007") (bytes "ab"))
        × (looks_like_timestamp (bytes "20250512000000007") ≡ true)
        × (bytes "ab" ≢ []))
split_filename_iff_example =
    split_filename_iff (bytes "20250512000000007-ab.pb") (bytes "20250512000000007") (bytes "ab")

looks_like-format_prefix_example : looks_like_timestamp (format_prefix may) ≡ true
looks_like-format_prefix_example = looks_like-format_prefix may may-IsCalendar

format_prefix-order_example :
    str_ltb (format_prefix new_year) (format_prefix may) ≡ str_ltb (fields new_year) (fields may)
format_prefix-order_example = format_prefix-order new_year may new_year-IsCalendar may-IsCalendar

abbrev rec : Record
rec = record {
  schema_version = 3;
  spec = record { cmd = bytes "gen"; dir = bytes "svc"; task_id = bytes "t" };
  input = record {
    hash = bytes "ab";
    files_hash = [];
    cmd_hash = [];
    resolved_versions_hash = [];
    resolved_versions = [];
  };
  output = record { hash = bytes "ff"; files = [] };
}

-- A format for this one record.
abbrev one_record : Proto
one_record = record { encode = λ r. bytes "record"; decode = λ b. some rec }

abbrev no_faults : Faults
no_faults = record {
  read_dir = λ d. false;
  mkdir_all = λ d. false;
  read_file = λ d n. false;
  remove = λ d n. false;
  create_temp = λ d. false;
  fill_temp = λ d. false;
  rename = λ d. false;
}

abbrev at : Moment
at = record { clock = may; random = bytes "42"; written_at = 9 }

abbrev key : Key
key = record { spec_relpath = bytes "svc/a"; task_id = bytes "t"; input_hash = bytes "ab" }

abbrev other_key : Key
other_key = record key { input_hash = bytes "b" }

abbrev place : List Str
place = bytes "svc" ∷ bytes "a" ∷ bytes "t" ∷ []

-- Two files of the key, one of another hash, and a stray one.
abbrev merged : Dir
merged =
    (bytes "20250103000000000-ab.pb", file (bytes "old") 3)
    ∷ (bytes "20250101000000000-ab.pb", file (bytes "older") 1)
    ∷ (bytes "20250102000000000-b.pb", file (bytes "record") 2)
    ∷ (bytes "notes.pb", file [] 4)
    ∷ []

abbrev tree : Tree
tree = (place, merged) ∷ []

dir_for-key : dir_for key ≡ place
unfolding dir_for containers
dir_for-key = refl

saved :
    (entries_of (save one_record no_faults at tree key rec).0 place
      ≡ (bytes "20250101000000000-ab.pb", file (bytes "record") 9)
        ∷ (bytes "20250102000000000-b.pb", file (bytes "record") 2)
        ∷ (bytes "notes.pb", file [] 4)
        ∷ [])
    × ((save one_record no_faults at tree key rec).1 ≡ ok tt)
unfolding save containers dir_for
saved = (refl, refl)

collapsed : (collapse_duplicates no_faults tree).1 ≡ removed 1
unfolding collapse_duplicates containers dir_for
collapsed = refl

once : Names merged
unfolding containers
once = (
  not-In (bytes "20250101000000000-ab.pb" ∷ bytes "20250102000000000-b.pb" ∷ bytes "notes.pb" ∷ [])
      (bytes "20250103000000000-ab.pb") refl,
  (
    not-In (bytes "20250102000000000-b.pb" ∷ bytes "notes.pb" ∷ [])
        (bytes "20250101000000000-ab.pb") refl,
    (
      not-In (bytes "notes.pb" ∷ []) (bytes "20250102000000000-b.pb") refl,
      (not-In [] (bytes "notes.pb") refl, tt),
    ),
  ),
)

tidy : WellFormed tree
unfolding update containers entries_of
tidy = update-WellFormed [] place merged (λ d. tt) once

decodes : Decodes one_record (sort_record rec)
unfolding sort_record containers
decodes = refl

other_hash : other_key.input_hash ≢ key.input_hash
other_hash = ne_of_== refl

load-save_example :
    load one_record no_faults (save one_record no_faults at tree key rec).0 key
    ≡ ok (some (sort_record rec))
load-save_example =
    load-save one_record no_faults at tree key rec decodes tidy may-IsCalendar (λ n. refl) saved.1

load-save-Apart_example :
    load one_record no_faults (save one_record no_faults at tree key rec).0 other_key
    ≡ load one_record no_faults tree other_key
load-save-Apart_example =
    load-save-Apart one_record no_faults at tree key rec other_key tidy may-IsCalendar
      (inr other_hash)

save-one_file_example :
    let after = entries_of (save one_record no_faults at tree key rec).0 (dir_for key) in
    let before = entries_of tree (dir_for key) in
    ((save one_record no_faults at tree key rec).1 ≡ ok tt)
      × ((n : Str) × (matching_names key.input_hash after ≡ n ∷ [])
          × ((matching_names key.input_hash before ≡ [])
              ⊎ ((ns : List Str) × (matching_names key.input_hash before ≡ n ∷ ns))))
    ⊎ ((save one_record no_faults at tree key rec).1 ≡ failed)
      × ((n : Str) (x : Node)
          → lookup n after ≡ some x
          → name_matches key.input_hash n ≡ true
          → lookup n before ≡ some x)
      × ((n : Str) (ns : List Str)
          → matching_names key.input_hash before ≡ n ∷ ns
          → lookup n after ≡ lookup n before)
save-one_file_example = save-one_file one_record no_faults at tree key rec tidy may-IsCalendar

deleted : (delete one_record no_faults tree key).1 ≡ ok tt
unfolding delete containers dir_for
deleted = refl

one_loaded : load_many one_record no_faults tree (other_key ∷ []) ≡ ok ((other_key, rec) ∷ [])
unfolding load_many containers dir_for
one_loaded = refl
