-- ===== src/Runner/Lookup.antt =====
-- The records of a run in runner.go: prefetchFingerprints, lookupRecord, fingerprintLookup,
-- fingerprintStore and flushFingerprints.
pub mod Transparent
pub mod Prefetched
pub mod Asked
use sloff.Prelude.{
  List, Option, Str, Str_Eq, [], contains, if◌then◌else◌, lookup, nat_Eq, nat_eq, none, some,
  str_eq, ℕ, ◌++◌, ◌+◌, ◌∷◌,
}
use sloff.Depgraph.{TaskRef, TaskRef_Eq, Task, ref}
use sloff.Fingerprint.Defs.{Key, Key_Eq, Record, file_paths}
use sloff.Fingerprint.Cached.{Result, failed}
use sloff.Hash.FileCache.{Read, ok, not_exist, unreadable, cached_files}
use sloff.Runner.Defs.{Env, TaskInfo, State}
use sloff.Runner.Tools.{key_for}

pub data LookupResult : Type 0 where
  hit : Record → List Str → LookupResult
  stale : Record → LookupResult
  not_found : LookupResult
  load_failed : LookupResult

-- How many of the tools are deferred; a tool that is named twice counts twice.
unfoldable pub pending_tools : {W S : Type 0} → State W S → List Str → ℕ
pending_tools s [] = 0
pending_tools s (name ∷ names) = elim (lookup name s.deferred_tools) [
  | some dt ↦ pending_tools s names + 1
  | none ↦ pending_tools s names
]

module _ {W S : Type 0} (env : Env W S) where
  unfoldable pub optimistic_key : State W S → Task → Read Key
  unfolding key_for
  optimistic_key s t = elim (lookup (ref t) s.by_key) [
    | none ↦ unreadable
    | some info ↦ key_for env s.world t info.command info.input_paths info.versions
  ]

  -- The first loop of prefetchFingerprints: the tasks whose keys are asked for, and the consumers of
  -- deferred tools with the number of those.
  unfoldable pub split_deferred : State W S → List Task → List Task × List (TaskRef × (ℕ × Task))
  unfolding pending_tools
  split_deferred s [] = ([], [])
  split_deferred s (t ∷ ts) =
      let (real, deferred) = split_deferred s ts in
      let n : ℕ = elim (lookup (ref t) s.by_key) [
        | some info ↦ pending_tools s info.command.tools
        | none ↦ 0
      ] in
      if t.barrier
      then (real, deferred)
      else if nat_eq n 0
      then (t ∷ real, deferred)
      else (real, (ref t, (n, t)) ∷ deferred)

  -- `asked`; a task with an absent input is left out, any other error ends the prefetch.
  unfoldable pub asked_keys : State W S → List Task → Result (List Key)
  unfolding optimistic_key
  asked_keys s [] = Result.ok []
  asked_keys s (t ∷ ts) =
      let rest = asked_keys s ts in
      elim (optimistic_key s t) [
        | unreadable ↦ failed
        | not_exist ↦ rest
        | ok k ↦ elim rest [ failed ↦ failed | Result.ok ks ↦ Result.ok (k ∷ ks) ]
      ]

  unfoldable pub prefetch_fingerprints : List Task → State W S → State W S × Result (Unit {0})
  unfolding split_deferred asked_keys
  prefetch_fingerprints ordered s =
      let (real, deferred) = split_deferred s ordered in
      let s1 = record s { deferred_consumers = deferred } in
      elim (asked_keys s1 real) [
        | failed ↦ (s1, failed)
        | Result.ok [] ↦ (record s1 { prefetched = []; prefetched_keys = [] }, Result.ok tt)
        | Result.ok (k ∷ ks) ↦
            let (st, res) = env.store.load_many s1.storage (k ∷ ks) in
            let s2 = record s1 { storage = st } in
            elim res [
              | failed ↦ (s2, failed)
              | Result.ok loaded ↦
                  (record s2 { prefetched = loaded; prefetched_keys = k ∷ ks }, Result.ok tt)
            ]
      ]

  unfoldable pub lookup_record : Key → State W S → State W S × Result (Option Record)
  lookup_record key s = elim (lookup key s.prefetched) [
    | some rec ↦ (s, Result.ok (some rec))
    | none ↦
        let (st, res) = env.store.load s.storage key in
        if contains s.prefetched_keys key
        then (s, Result.ok none)
        else (record s { storage = st }, res)
  ]

  unfoldable pub fingerprint_lookup : Key → State W S → State W S × LookupResult
  unfolding lookup_record cached_files file_paths
  fingerprint_lookup key s =
      let (s1, res) = lookup_record key s in
      elim res [
        | failed ↦ (s1, load_failed)
        | Result.ok none ↦ (s1, not_found)
        | Result.ok (some rec) ↦
            let candidate = file_paths rec.output.files in
            elim (cached_files env.sha256 (env.digest s1.world) candidate) [
              | ok current ↦
                  if str_eq current rec.output.hash
                  then (s1, hit rec candidate)
                  else (s1, stale rec)
              | _ ↦ (s1, stale rec)
            ]
      ]

  unfoldable pub fingerprint_store : Key → Record → State W S → State W S
  fingerprint_store key rec s = record s { pending = s.pending ++ (key, rec) ∷ [] }

  unfoldable pub flush_fingerprints : State W S → State W S × Result (Unit {0})
  flush_fingerprints s =
      let s1 = record s { pending = [] } in
      elim s.pending [
        | [] ↦ (s1, Result.ok tt)
        | kr ∷ krs ↦
            let (st, res) = env.store.save_many s.storage (kr ∷ krs) in
            (record s1 { storage = st }, res)
      ]
