-- ===== src/Runner/Defs.antt =====
-- The state of a Runner (runner.go, tool_depends.go) and what it calls. The working tree with
-- everything that a child process may change is an abstract world; reading a digest, expanding globs,
-- running a command and resolving a tool are functions of it. The storage backend is an interface
-- with a state of its own.
use sloff.Prelude.{Bool, List, Map, Option, Str, Str_Eq, nat_Eq, ℕ}
use sloff.Spec.Defs.{Command}
use sloff.Depgraph.{TaskRef, Task}
use sloff.Fingerprint.Defs.{Key, Record, ResolvedVersion}
use sloff.Fingerprint.Cached.{Result}
use sloff.Hash.FileCache.{Read}

-- The operations of fingerprint.Storage that a run uses.
pub record Store (S : Type 0) : Type 0 where
  pub load : S → Key → S × Result (Option Record)
  pub load_many : S → List Key → S × Result (Map Key Record)
  pub save_many : S → List (Key × Record) → S × Result (Unit {0})

-- The outcome of a resolver: inputs and versions, a failure, or a cancelled context.
pub data Contribution : Type 0 where
  resolved : List Str → List ResolvedVersion → Contribution
  unresolved : Contribution
  cancelled : Contribution

pub record Env (W S : Type 0) : Type 0 where
  pub sha256 : Str → Str
  -- the digest of a path's content
  pub digest : W → Str → Read Str
  -- glob.Expand of patterns against a spec directory
  pub expand : W → Str → List Str → Option (List Str)
  -- the directory and the command; whether it exits with 0
  pub exec : W → Str → List Str → W × Bool
  pub resolve_contrib : W → Str → Contribution
  -- doublestar.Match, false also for a malformed pattern
  pub matches : Str → Str → Bool
  pub store : Store S
  pub force : Bool
  pub read_only : Bool

pub record TaskInfo : Type 0 where
  pub spec_relpath : Str
  pub command : Command
  pub input_paths : List Str
  pub output_patterns : List Str
  pub declared_inputs : List Str
  pub versions : List ResolvedVersion
  pub input_set : List Str
  pub joined_input_patterns : List Str
  pub input_surface_authoritative : Bool

-- deferredTool between two attempts: `done` with the outcome that is latched, true for success.
pub record DeferredTool : Type 0 where
  pub done : Option Bool
  pub inputs : List Str
  pub versions : List ResolvedVersion

pub data LogLine : Type 0 where
  skip run not_written : TaskRef → LogLine
  tool_resolved reload_failed : Str → LogLine

pub record State (W S : Type 0) : Type 0 where
  pub world : W
  pub storage : S
  pub by_key : Map TaskRef TaskInfo
  pub deferred_tools : Map Str DeferredTool
  pub inputs_by_tool : Map Str (List Str)
  pub versions_by_tool : Map Str (List ResolvedVersion)
  pub deferred_consumers : List (TaskRef × (ℕ × Task))
  pub prefetched : Map Key Record
  pub prefetched_keys : List Key
  pub pending : List (Key × Record)
  pub produced_by : Map Str TaskRef
  pub log : List LogLine

pub data TaskError : Type 0 where
  -- byKey has no entry for the task: a nil dereference
  no_info : TaskError
  tool_failed : Str → TaskError
  tool_cancelled : Str → TaskError
  hash_inputs hash_outputs load_record empty_cmd cmd_failed expand_outputs no_outputs : TaskError
  duplicate_output : Str → TaskRef → TaskRef → TaskError
