-- ===== src/Runner/Tests.antt =====
-- A generator that copies a file, with the records in memory.
use sloff.Prelude.{
  ==-cases, Bool, Bool-cases, In, In-contains, In-keep, List, Map, Option, Str, Str_Eq, [], ap,
  bytes, containers, contains, contains-In, false, inl, inr, insert, is_some, keep, lookup,
  lookup-In, nat_Eq, none, not, refl, some, str_eq, subst, sym, true, ◌++◌, ◌∙◌, ◌∷◌, ◌≡◌,
}
use sloff.Spec.Defs.{Command}
use sloff.Depgraph.{TaskRef_Eq, Task, ref}
use sloff.Fingerprint.Defs.{Key, Key_Eq, Record, file_paths}
use sloff.Fingerprint.Cached.{Result}
use sloff.Hash.FileCache.{ok, not_exist}
use sloff.Runner.Defs.{Store, Env, TaskInfo, State, unresolved}
use sloff.Runner.Lookup.{
  optimistic_key, hit, prefetch_fingerprints, lookup_record, fingerprint_lookup,
}
use sloff.Runner.Lookup.Prefetched.{Faithful, Truthful, prefetch-Truthful, lookup_record-view}
use sloff.Runner.Lookup.Asked.{lookup_record-prefetch}
use sloff.Runner.Task.Again.{run_task-hit}
use sloff.Runner.Task.{run_task}
use sloff.Runner.Check.{blank, verdict, check_task}
use sloff.Runner.Check.Agrees.{Idle, check_ok-run_task}
use sloff.Runner.Task.Outcome.{Queued, run_task-Queued}

abbrev World : Type 0
World = Map Str Str

abbrev Records : Type 0
Records = Map Key Record

insert_all : Records → List (Key × Record) → Records
insert_all m [] = m
insert_all m ((k, r) ∷ items) = insert_all (insert k r m) items

abbrev among : List Key → Records → Records
among ks m = keep (λ (kr : Key × Record). contains ks kr.0) m

abbrev memory : Store Records
memory = record {
  load = λ m k. (m, Result.ok (lookup k m));
  load_many = λ m ks. (m, Result.ok (among ks m));
  save_many = λ m items. (insert_all m items, Result.ok tt);
}

-- `cp in out` writes the file; anything else fails.
abbrev copy : World → World
copy w = elim (lookup (bytes "in") w) [ some c ↦ insert (bytes "out") c w | none ↦ w ]

abbrev env : Bool → Env World Records
env force = record {
  sha256 = λ b. b;
  digest = λ w p. elim (lookup p w) [ some c ↦ ok c | none ↦ not_exist ];
  expand = λ w dir ps. some (keep (λ p. is_some (lookup p w)) ps);
  exec = λ w dir c. (copy w, is_some (lookup (bytes "in") w));
  resolve_contrib = λ w name. unresolved;
  matches = λ pattern p. str_eq pattern p;
  store = memory;
  force = force;
  read_only = false;
}

abbrev cp : Command
cp = record {
  cmd = bytes "cp" ∷ bytes "in" ∷ bytes "out" ∷ [];
  depends = [];
  barrier = false;
  inputs = bytes "in" ∷ [];
  name = bytes "cp";
  outputs = bytes "out" ∷ [];
  tools = [];
}

abbrev task : Task
task = record {
  spec_relpath = bytes ".";
  name = bytes "cp";
  inputs = bytes "in" ∷ [];
  outputs = [];
  depends_on = [];
  barrier = false;
}

abbrev info : TaskInfo
info = record {
  spec_relpath = bytes ".";
  command = cp;
  input_paths = bytes "in" ∷ [];
  output_patterns = bytes "out" ∷ [];
  declared_inputs = bytes "in" ∷ [];
  versions = [];
  input_set = bytes "in" ∷ [];
  joined_input_patterns = bytes "in" ∷ [];
  input_surface_authoritative = true;
}

abbrev fresh : State World Records
fresh = record {
  world = (bytes "in", 7 ∷ []) ∷ [];
  storage = [];
  by_key = (ref task, info) ∷ [];
  deferred_tools = [];
  inputs_by_tool = [];
  versions_by_tool = [];
  deferred_consumers = [];
  prefetched = [];
  prefetched_keys = [];
  pending = [];
  produced_by = [];
  log = [];
}

abbrev after : State World Records
after = (run_task (env false) task fresh).0

run_task-Queued_example : Queued (env false) task fresh after (run_task (env false) task fresh).1
run_task-Queued_example = run_task-Queued (env false) task fresh

abbrev no_key : Key
no_key = record { spec_relpath = []; task_id = []; input_hash = [] }

abbrev no_record : Record
no_record = record {
  schema_version = 3;
  spec = record { cmd = []; dir = []; task_id = [] };
  input = record {
    hash = [];
    files_hash = [];
    cmd_hash = [];
    resolved_versions_hash = [];
    resolved_versions = [];
  };
  output = record { hash = []; files = [] };
}

-- What the first run queued.
abbrev queued : Key × Record
queued = elim after.pending [ [] ↦ (no_key, no_record) | kr ∷ krs ↦ kr ]

queues_one : after.pending ≡ [] ++ queued ∷ []
unfolding run_task containers
queues_one = refl

-- The next run, in the same tree, with the record in the storage.
abbrev later : State World Records
later = record after {
  storage = queued ∷ [];
  prefetched = queued ∷ [];
  prefetched_keys = queued.0 ∷ [];
  pending = [];
}

found_later : lookup queued.0 later.prefetched ≡ some queued.1
unfolding run_task containers
found_later = refl

run_task-hit_example :
    (fingerprint_lookup (env false) queued.0 later).1
    ≡ hit queued.1 (file_paths queued.1.output.files)
run_task-hit_example =
    run_task-hit (env false) task fresh queued.0 queued.1 later queues_one refl found_later

-- The same task again runs nothing, unless it is forced to.
skips :
    ((run_task (env false) task later).0.world ≡ after.world)
    × ((run_task (env false) task later).0.pending ≡ [])
unfolding run_task containers
skips = (refl, refl)

of_ok : {A : Type 0} (a c : A) → ◌≡◌ {A = Result A} (Result.ok a) (Result.ok c) → a ≡ c
of_ok a c x = cc

lookup-among :
    (k : Key) (ks : List Key) (m : Records) → In k ks → lookup k (among ks m) ≡ lookup k m
unfolding lookup keep
lookup-among k ks [] i = refl
lookup-among k ks ((j, r) ∷ m) i = elim (==-cases k j) [
  | inl (same, t) ↦
      let asked : contains ks j ≡ true =
        subst (λ x. contains ks x ≡ true) same (In-contains ks k i) in
      rw (asked, keep) (rw (t, lookup) refl)
  | inr (other, f) ↦ elim (Bool-cases (contains ks j)) [
    | inl asked ↦ rw (asked, keep) (rw (f, lookup) (lookup-among k ks m i))
    | inr not_asked ↦ rw (not_asked, keep) (rw (f, lookup) (lookup-among k ks m i))
  ]
]

lookup-among_only :
    (k : Key) (ks : List Key) (m : Records) (r : Record) → lookup k (among ks m) ≡ some r → In k ks
lookup-among_only k ks m r h =
    let kept =
      In-keep (λ (kr : Key × Record). contains ks kr.0) (k, r) m (lookup-In k r (among ks m) h) in
    contains-In ks k kept.1

abbrev memory_faithful : Faithful memory
memory_faithful = record {
  view = λ m k. lookup k m;
  load_view = λ m k o h. sym (of_ok (lookup k m) o h);
  load_keeps = λ m k j. refl;
  load_many_view =
      λ st ks m h k i. ap (lookup k) (sym (of_ok (among ks st) m h)) ∙ lookup-among k ks st i;
  load_many_only =
      λ st ks m h k r f. lookup-among_only k ks st r (ap (lookup k) (of_ok (among ks st) m h) ∙ f);
  load_many_keeps = λ m ks j. refl;
}

abbrev stored : State World Records
stored = record fresh { storage = queued ∷ [] }

prefetch_passes : (prefetch_fingerprints (env false) (task ∷ []) stored).1 ≡ Result.ok tt
unfolding prefetch_fingerprints containers
prefetch_passes = refl

task_key_of : optimistic_key (env false) stored task ≡ ok queued.0
unfolding optimistic_key containers run_task
task_key_of = refl

lookup_record-prefetch_example :
    let s = (prefetch_fingerprints (env false) (task ∷ []) stored).0 in
    lookup_record (env false) queued.0 s ≡ (s, Result.ok (memory_faithful.view s.storage queued.0))
unfolding lookup
lookup_record-prefetch_example =
    lookup_record-prefetch (env false) memory_faithful (task ∷ []) stored task info queued.0
      prefetch_passes (inl refl) refl refl tt task_key_of

stored-Truthful :
    Truthful (env false) memory_faithful (prefetch_fingerprints (env false) (task ∷ []) stored).0
stored-Truthful = prefetch-Truthful (env false) memory_faithful (task ∷ []) stored prefetch_passes

lookup_record-view_example :
    let s = (prefetch_fingerprints (env false) (task ∷ []) stored).0 in
    ((o : Option Record)
      → (lookup_record (env false) queued.0 s).1 ≡ Result.ok o
      → o ≡ memory_faithful.view s.storage queued.0)
    × Truthful (env false) memory_faithful (lookup_record (env false) queued.0 s).0
lookup_record-view_example =
    lookup_record-view (env false) memory_faithful queued.0
      (prefetch_fingerprints (env false) (task ∷ []) stored).0 stored-Truthful

-- Whether a path is absent.
abbrev gone : World → Str → Bool
gone w p = not (is_some (lookup p w))

checks_ok : (check_task (env false) gone task later).1 ≡ verdict (blank task)
unfolding check_task run_task containers
checks_ok = refl

no_tools : later.deferred_tools ≡ []
unfolding run_task containers
no_tools = refl

check_ok-run_task_example : Idle (env false) gone later (run_task (env false) task later).0
check_ok-run_task_example =
    check_ok-run_task (env false) gone task later (blank task) no_tools refl checks_ok refl
