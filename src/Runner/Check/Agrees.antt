-- ===== src/Runner/Check/Agrees.antt =====
-- Check and a run agree: what checks as ok is not executed.
use sloff.Prelude.{
  Bool, List, Option, Str, Str_Eq, [], any, false, if◌then◌else◌, lookup, nat_Eq, none, not, refl,
  some, subst, sym, true, ◌≡◌, ◌≢◌,
}
use sloff.Depgraph.{TaskRef_Eq, Task, ref}
use sloff.Fingerprint.Defs.{Record, Key}
use sloff.Hash.FileCache.{Read, ok, not_exist, unreadable, cached_files}
use sloff.Runner.Defs.{Env, TaskInfo, State, TaskError, skip, load_record}
use sloff.Runner.Tools.{note}
use sloff.Runner.Lookup.{LookupResult, hit, stale, not_found, load_failed, fingerprint_lookup}
use sloff.Runner.Lookup.Transparent.{fingerprint_lookup-Untouched}
use sloff.Runner.Task.{register, rerun, decide, hashed, task_key, run_task}
use sloff.Runner.Check.{
  check_ok, check_output_mismatch, check_no_record, check_input_missing, CheckResult, Verdict,
  verdict, unverified_outputs, inconsistent, blank, diff_recorded_outputs, is_concrete,
  judge_outputs, judge, check_hashed, check_task,
}

abbrev IsOk : Verdict → Type 0
IsOk (verdict r) = r.status ≡ check_ok
IsOk _ = ⊥

mismatch-ne : check_output_mismatch ≢ check_ok
mismatch-ne e = cc

no_record-ne : check_no_record ≢ check_ok
no_record-ne e = cc

input_missing-ne : check_input_missing ≢ check_ok
input_missing-ne e = cc

module _ {W S : Type 0} (env : Env W S) (absent : W → Str → Bool) where
  -- Nothing was executed and nothing queued.
  abbrev pub Idle : State W S → State W S → Type 0
  Idle s s' = (s'.world ≡ s.world) × (s'.pending ≡ s.pending)

  judge_outputs-not-IsOk :
      (t : Task) (w : W) (rec : Record) → ¬ IsOk (judge_outputs env absent t w rec)
  unfolding judge_outputs
  judge_outputs-not-IsOk t w rec h =
      go
        (not (any (is_concrete env absent) (diff_recorded_outputs env absent w rec.output.files).0))
        (diff_recorded_outputs env absent w rec.output.files).1 h
    where
      go :
          (b bad : Bool)
          → IsOk (
              if b
              then (if bad then unverified_outputs else inconsistent)
              else verdict (record (blank t) {
                status = check_output_mismatch;
                output_issues = (diff_recorded_outputs env absent w rec.output.files).0;
              }))
          → ⊥
      go true true h = h
      go true false h = h
      go false bad h = mismatch-ne h

  -- A hit that is not overridden, with what the registration of its paths said.
  hit_end : Task → List Str → State W S → Option TaskError → State W S × Option TaskError
  hit_end t paths s1 e = elim e [
    | some bad ↦ ((register env (ref t) paths s1).0, some bad)
    | none ↦ (note (skip (ref t)) (register env (ref t) paths s1).0, none)
  ]

  -- decide with what the lookup found.
  decide_end : Task → TaskInfo → Key → Str → State W S → LookupResult → State W S × Option TaskError
  decide_end t info key files s1 found = elim found [
    | load_failed ↦ (s1, some load_record)
    | not_found ↦ rerun env (ref t) info none key files s1
    | stale old ↦ rerun env (ref t) info (some old) key files s1
    | hit old paths ↦
        let (s2, e) = register env (ref t) paths s1 in
        let again = rerun env (ref t) info (some old) key files s1 in
        if env.force
        then again
        else elim e [ some bad ↦ (s2, some bad) | none ↦ (note (skip (ref t)) s2, none) ]
  ]

  decide-Idle :
      (t : Task) (info : TaskInfo) (key : Key) (files : Str) (s : State W S)
      → env.force ≡ false
      → IsOk (
          judge env absent t
            (fingerprint_lookup env key s).0.world
            (fingerprint_lookup env key s).1)
      → Idle s (decide env (ref t) info key files s).0
  unfolding decide decide_end hit_end register judge
  decide-Idle t info key files s unforced h = go (fingerprint_lookup env key s).1 h
    where
      s1 : State W S
      s1 = (fingerprint_lookup env key s).0

      idle : Idle s s1
      idle =
          ((fingerprint_lookup-Untouched env key s).0, (fingerprint_lookup-Untouched env key s).1)

      kept : (paths : List Str) (e : Option TaskError) → Idle s (hit_end t paths s1 e).0
      kept paths (some bad) = idle
      kept paths none = idle

      choose :
          (old : Record) (paths : List Str) (b : Bool)
          → b ≡ false
          → Idle s
              (if b
                then rerun env (ref t) info (some old) key files s1
                else hit_end t paths s1 (register env (ref t) paths s1).1).0
      choose old paths true e = cc
      choose old paths false e = kept paths (register env (ref t) paths s1).1

      go :
          (found : LookupResult)
          → IsOk (judge env absent t s1.world found)
          → Idle s (decide_end t info key files s1 found).0
      go load_failed h = absurd h
      go not_found h = absurd (no_record-ne h)
      go (stale old) h = absurd (judge_outputs-not-IsOk t s1.world old h)
      go (hit old paths) h = choose old paths env.force unforced

  -- In a state without deferred tools, running a task that checks as ok, in a run that is not forced,
  -- executes nothing and queues nothing: the working tree and the queue stay as they are.
  pub check_ok-run_task :
      (t : Task) (s : State W S) (r : CheckResult)
      → s.deferred_tools ≡ []
      → env.force ≡ false
      → (check_task env absent t s).1 ≡ verdict r
      → r.status ≡ check_ok
      → Idle s (run_task env t s).0
  unfolding check_task check_hashed run_task hashed
  check_ok-run_task t s r none_deferred unforced checked fine =
      found (lookup (ref t) s.by_key) refl (subst IsOk (sym checked) fine)
    where
      hash :
          (info : TaskInfo)
          → lookup (ref t) s.by_key ≡ some info
          → (h : Read Str) → cached_files env.sha256 (env.digest s.world) info.input_paths ≡ h
          → IsOk (check_hashed env absent t s).1
          → Idle s (hashed env t s).0
      hash info e unreadable c h = absurd (rw (e, check_hashed, c) at h)
      hash info e not_exist c h = absurd (input_missing-ne (rw (e, check_hashed, c) at h))
      hash info e (ok files) c h =
          rw (e, hashed, c)
            (decide-Idle t info (task_key env t info files) files s unforced
              (rw (e, check_hashed, c) at h))

      found :
          (o : Option TaskInfo)
          → lookup (ref t) s.by_key ≡ o
          → IsOk (check_task env absent t s).1
          → Idle s (run_task env t s).0
      found none e h = absurd (rw (e, check_task) at h)
      found (some info) e h =
          let checked_here : IsOk (check_hashed env absent t s).1 =
            rw (e, check_task, none_deferred) at h in
          rw (e, run_task, none_deferred)
            (hash info e (cached_files env.sha256 (env.digest s.world) info.input_paths) refl
              checked_here)
