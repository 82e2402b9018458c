-- ===== src/Depgraph/Build/Writers.antt =====
-- Duplicate producers: Build accepts a task set only if every expanded output path is listed once.
use sloff.Prelude.{
  ==-cases, In, In-append_cases, List, Map, NoDup, NoDup-append, Option-cases, Str, Str_Eq, [], inl,
  inr, insert, lookup, lookup-insert_ne, lookup-insert_self, nat_Eq, none, some, suc, sym, ℕ, ◌++◌,
  ◌∙◌, ◌∷◌, ◌≡◌, ◌≢◌,
}
use sloff.Depgraph.Defs.{Task, ok}
use sloff.Depgraph.Build.{Outputs, claim_output, claim_outputs, scan_outputs, build}
use sloff.Depgraph.Build.Order.{no_outputs, build-Parts}

abbrev pub all_outputs : List Task → List Str
all_outputs [] = []
all_outputs (t ∷ ts) = t.outputs ++ all_outputs ts

insert-ne-nil : (k : Str) (v : List ℕ) (m : Map Str (List ℕ)) → insert k v m ≢ []
unfolding insert
insert-ne-nil k v [] h = cc
insert-ne-nil k v ((j, w) ∷ m) h = elim (==-cases k j) [
  | inl (same, t) ↦ let bad : (k, v) ∷ m ≡ [] = rw t at h in cc
  | inr (other, f) ↦ let bad : (j, w) ∷ insert k v m ≡ [] = rw f at h in cc
]

abbrev Claimed : Outputs → Str → Type 0
Claimed o out = (i : ℕ) × (lookup out o.producer ≡ some i)

-- A claim that adds no conflict is of a path that had no producer, and gives it one.
record Claim (o o' : Outputs) (outs : List Str) : Type 0 where
  before : o.conflicts ≡ []
  distinct : NoDup outs
  fresh : (x : Str) → In x outs → lookup x o.producer ≡ none
  kept : (x : Str) → Claimed o x → Claimed o' x
  claimed : (x : Str) → In x outs → Claimed o' x

claim_output-Claim :
    (i : ℕ) (o : Outputs) (out : Str)
    → (claim_output i o out).conflicts ≡ []
    → Claim o (claim_output i o out) (out ∷ [])
unfolding claim_output
claim_output-Claim i o out h = elim (Option-cases (lookup out o.producer)) [
  | inr (j, e) ↦ absurd (insert-ne-nil out _ o.conflicts (rw (e, claim_output) at h))
  | inl e ↦
      let clean : o.conflicts ≡ [] = rw (e, claim_output) at h in
      rw (e, claim_output)
        (record {
          before = clean;
          distinct = (λ m. m, tt);
          fresh = λ x m. elim m [ inl same ↦ rw same e | inr no_more ↦ absurd no_more ];
          kept = λ x (j, ej). elim (==-cases x out) [
            | inl (same, t) ↦ (i, rw same (lookup-insert_self out i o.producer))
            | inr (other, f) ↦ (j, lookup-insert_ne out x i o.producer f ∙ ej)
          ];
          claimed = λ x m. elim m [
            | inl same ↦ (i, rw same (lookup-insert_self out i o.producer))
            | inr no_more ↦ absurd no_more
          ];
        })
]

Claim-append :
    (o p q : Outputs) (xs ys : List Str) → Claim o p xs → Claim p q ys → Claim o q (xs ++ ys)
Claim-append o p q xs ys a b = record {
  before = a.before;
  distinct = NoDup-append xs ys a.distinct b.distinct (λ x mx my.
      let (i, e) = a.claimed x mx in
      let n = b.fresh x my in let bad : some i ≡ none = sym e ∙ n in cc);
  fresh = λ x m. elim (In-append_cases x xs ys m) [
    | inl mx ↦ a.fresh x mx
    | inr my ↦ elim (Option-cases (lookup x o.producer)) [
      | inl e ↦ e
      | inr (i, e) ↦
          absurd
            (let (j, ej) = a.kept x (i, e) in let bad : some j ≡ none = sym ej ∙ b.fresh x my in cc)
    ]
  ];
  kept = λ x c. b.kept x (a.kept x c);
  claimed = λ x m. elim (In-append_cases x xs ys m) [
    | inl mx ↦ b.kept x (a.claimed x mx)
    | inr my ↦ b.claimed x my
  ];
}

Claim-nil : (o : Outputs) → o.conflicts ≡ [] → Claim o o []
Claim-nil o h = record {
  before = h;
  distinct = tt;
  fresh = λ x m. absurd m;
  kept = λ x c. c;
  claimed = λ x m. absurd m;
}

claim_outputs-Claim :
    (i : ℕ) (outs : List Str) (o : Outputs)
    → (claim_outputs i outs o).conflicts ≡ []
    → Claim o (claim_outputs i outs o) outs
unfolding claim_outputs
claim_outputs-Claim i [] o h = Claim-nil o h
claim_outputs-Claim i (out ∷ outs) o h =
    let later = claim_outputs-Claim i outs (claim_output i o out) h in
    Claim-append o (claim_output i o out) _ (out ∷ []) outs
      (claim_output-Claim i o out later.before) later

scan_outputs-Claim :
    (i : ℕ) (ts : List Task) (o : Outputs)
    → (scan_outputs i ts o).conflicts ≡ []
    → Claim o (scan_outputs i ts o) (all_outputs ts)
unfolding scan_outputs
scan_outputs-Claim i [] o h = Claim-nil o h
scan_outputs-Claim i (t ∷ ts) o h =
    let later = scan_outputs-Claim (suc i) ts (claim_outputs i t.outputs o) h in
    Claim-append o (claim_outputs i t.outputs o) _ t.outputs (all_outputs ts)
      (claim_outputs-Claim i t.outputs o later.before) later

-- When Build succeeds, no path stands twice among the outputs of the tasks: no two tasks write one
-- file.
pub build-one_writer : (tasks out : List Task) → build tasks ≡ ok out → NoDup (all_outputs tasks)
build-one_writer tasks out h = elim (build-Parts tasks out h) [
  | inl (e, o) ↦ rw e tt
  | inr p ↦ (scan_outputs-Claim 0 tasks no_outputs p.clean).distinct
]
