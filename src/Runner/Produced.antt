-- ===== src/Runner/Produced.antt =====
-- What a run checks of the produced paths at its end, in runner.go: validateProducedDependencies and
-- warnUnobservedDepends. `none` is a task without a taskInfo, a nil dereference.
pub mod Covered
pub mod Tests
use sloff.Prelude.{
  Bool, Eq, List, Map, Option, Str, Str_Eq, [], any, contains, false, if◌then◌else◌, insert, length,
  lookup, ltb, map, nat_Eq, none, not, some, sort, str_ltb, true, ◌&&◌, ◌++◌, ◌||◌, ◌∷◌,
}
use sloff.Spec.Expand.{ExpandedPattern}
use sloff.Depgraph.{TaskRef, TaskRef_Eq, ref_eq, label, Task, ref}
use sloff.Depgraph.Missing.{MissingDependency}
use sloff.Runner.Defs.{TaskInfo}
use sloff.Runner.Inputs.{resolve_depends, task_reads_path, any_produced_path_read}

abbrev pub or_nil : {A : Type 0} → Option (List A) → List A
or_nil none = []
or_nil (some l) = l

-- m[k] = append(m[k], v)
unfoldable pub append_at : {K V : Type 0} ⦃eq : Eq K⦄ → K → V → Map K (List V) → Map K (List V)
unfolding insert lookup
append_at k v m = insert k (or_nil (lookup k m) ++ v ∷ []) m

by_label : TaskRef × List Str → TaskRef × List Str → Bool
by_label a b = str_ltb (label a.0) (label b.0)

module _ (matches : Str → Str → Bool) where
  -- A path of another task that this one reads without a declared edge.
  pub is_missing : Task → TaskInfo → Str × TaskRef → Bool
  unfolding task_reads_path contains
  is_missing t info (p, producer) =
      not (ref_eq producer (ref t) || contains t.depends_on producer)
      && task_reads_path matches info p

  -- byProducer
  pub group_missing :
      Task → TaskInfo → Map Str TaskRef → Map TaskRef (List Str) → Map TaskRef (List Str)
  unfolding is_missing append_at
  group_missing t info [] m = m
  group_missing t info ((p, producer) ∷ rest) m =
      group_missing t info rest
        (if is_missing t info (p, producer) then append_at producer p m else m)

  pub missing_for : Map Str TaskRef → Task → TaskInfo → List MissingDependency
  unfolding group_missing by_label
  missing_for produced t info =
      map
        (λ (g : TaskRef × List Str). record {
          producer = g.0;
          consumer = ref t;
          files = sort str_ltb g.1;
        })
        (sort by_label (group_missing t info produced []))

  pub produced_missing :
      Map TaskRef TaskInfo → Map Str TaskRef → List Task → Option (List MissingDependency)
  unfolding missing_for
  produced_missing by_key produced [] = some []
  produced_missing by_key produced (t ∷ ts) = elim (lookup (ref t) by_key) [
    | none ↦ none
    | some info ↦
        let own : List MissingDependency =
          if info.input_surface_authoritative then missing_for produced t info else [] in
        elim (produced_missing by_key produced ts) [ none ↦ none | some more ↦ some (own ++ more) ]
  ]

  unfoldable pub validate_produced_dependencies :
      Map TaskRef TaskInfo → Map Str TaskRef → List Task → Option (List MissingDependency)
  unfolding produced_missing
  validate_produced_dependencies by_key [] ordered = some []
  validate_produced_dependencies by_key (p ∷ produced) ordered =
      produced_missing by_key (p ∷ produced) ordered

pub record PatternGroup : Type 0 where
  pub glob : Str
  pub refs : List TaskRef

unfoldable pub index_pattern_groups :
    List ExpandedPattern → Map TaskRef (List PatternGroup) → Map TaskRef (List PatternGroup)
unfolding append_at resolve_depends
index_pattern_groups [] idx = idx
index_pattern_groups (g ∷ gs) idx = index_pattern_groups gs (
    append_at (record { spec_relpath = g.consumer_dir; name = g.consumer_name })
      (record { glob = g.glob; refs = resolve_depends g.consumer_dir g.edges }) idx)

pub data Warning : Type 0 where
  unobserved_edge : TaskRef → TaskRef → Warning
  unobserved_pattern : TaskRef → Str → Warning

-- The produced paths of each task that ran.
pub produced_by_ref : Map Str TaskRef → Map TaskRef (List Str) → Map TaskRef (List Str)
unfolding append_at
produced_by_ref [] m = m
produced_by_ref ((p, r) ∷ rest) m = produced_by_ref rest (append_at r p m)

module _ (matches : Str → Str → Bool) (outs_of : Map TaskRef (List Str)) (consumer : TaskRef)
    (info : TaskInfo) where
  -- The loop over t.DependsOn, less the edges of patterns and of tools.
  pub edge_warnings : List TaskRef → List TaskRef → List Warning
  unfolding any_produced_path_read contains
  edge_warnings skipped [] = []
  edge_warnings skipped (dep ∷ deps) =
      let rest = edge_warnings skipped deps in
      let judged : List Warning = elim (lookup dep outs_of) [
        | none ↦ rest
        | some outs ↦
            if any_produced_path_read matches info outs
            then rest
            else unobserved_edge consumer dep ∷ rest
      ] in
      if contains skipped dep then rest else judged

  -- Whether some task of a group ran, and whether a path of one that ran is read.
  pub group_ran : List TaskRef → Bool
  group_ran refs = any (λ r. elim (lookup r outs_of) [ none ↦ false | some outs ↦ true ]) refs

  pub group_read : List TaskRef → Bool
  unfolding any_produced_path_read
  group_read refs =
      any
        (λ r. elim (lookup r outs_of) [
          | none ↦ false
          | some outs ↦ any_produced_path_read matches info outs
        ])
        refs

  pub group_warnings : List PatternGroup → List Warning
  unfolding group_ran group_read
  group_warnings [] = []
  group_warnings (g ∷ gs) =
      let rest = group_warnings gs in
      if group_ran g.refs && not (group_read g.refs)
      then unobserved_pattern consumer g.glob ∷ rest
      else rest

pub group_refs : List PatternGroup → List TaskRef
group_refs [] = []
group_refs (g ∷ gs) = g.refs ++ group_refs gs

module _ (matches : Str → Str → Bool) (by_key : Map TaskRef TaskInfo)
    (pattern_groups : Map TaskRef (List PatternGroup))
    (injected_depends : Map TaskRef (List TaskRef)) where
  pub task_warnings : Map TaskRef (List Str) → List Task → Option (List Warning)
  unfolding edge_warnings group_warnings group_refs
  task_warnings outs_of [] = some []
  task_warnings outs_of (t ∷ ts) =
      let rest = task_warnings outs_of ts in
      let groups = or_nil (lookup (ref t) pattern_groups) in
      let injected = or_nil (lookup (ref t) injected_depends) in
      if t.barrier then rest else elim (lookup (ref t) by_key) [
        | none ↦ none
        | some info ↦
            let own : List Warning =
              if info.input_surface_authoritative
              then edge_warnings matches outs_of (ref t) info (group_refs groups ++ injected)
                  t.depends_on
                ++ group_warnings matches outs_of (ref t) info groups
              else [] in
            elim rest [ none ↦ none | some more ↦ some (own ++ more) ]
      ]

  -- Without a declared edge there is nothing to judge.
  unfoldable pub warn_unobserved_depends : Map Str TaskRef → List Task → Option (List Warning)
  unfolding task_warnings produced_by_ref
  warn_unobserved_depends produced ordered =
      if any (λ (t : Task). ltb 0 (length t.depends_on)) ordered
      then task_warnings (produced_by_ref produced []) ordered
      else some []
