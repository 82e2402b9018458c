-- ===== src/Depgraph/Build/Tests.antt =====
-- Small graphs, and what Build does on them.
use sloff.Prelude.{
  In, List, NoDup, Perm, Str_Eq, String, [], arith, bytes, containers, false, if◌then◌else◌, inl,
  inr, map, nat_Eq, not-In, refl, str_eq, subst, sym, ℕ, ◌<◌, ◌∷◌, ◌≡◌, ◌≢◌,
}
use sloff.Depgraph.Defs.{TaskRef, TaskRef_Eq, Task, ref, ok, err, cycle}
use sloff.Depgraph.Build.{build}
use sloff.Depgraph.Build.Order.{IsOrdered, build-perm, build-IsOrdered}
use sloff.Depgraph.Build.CycleError.{Tangle, build-ne-cycle, build-cycle-Tangle}
use sloff.Depgraph.Build.Writers.{all_outputs, build-one_writer}

abbrev to : String → TaskRef
to s = record { spec_relpath = bytes "."; name = bytes s }

abbrev task : String → List TaskRef → Task
task s deps = record {
  spec_relpath = bytes ".";
  name = bytes s;
  inputs = [];
  outputs = bytes s ∷ [];
  depends_on = deps;
  barrier = false;
}

-- c gates the chain a, b; d is alone.
abbrev a : Task
a = task "a" (to "c" ∷ [])

abbrev b : Task
b = task "b" (to "a" ∷ to "c" ∷ to "a" ∷ [])

abbrev c : Task
c = task "c" []

abbrev d : Task
d = task "d" []

build-chain : build (a ∷ b ∷ d ∷ c ∷ []) ≡ ok (c ∷ a ∷ b ∷ d ∷ [])
unfolding build containers
build-chain = refl

-- x and y wait for each other, z for x.
abbrev x : Task
x = task "x" (to "y" ∷ [])

abbrev y : Task
y = task "y" (to "x" ∷ [])

abbrev z : Task
z = task "z" (to "x" ∷ [])

build-knot : build (x ∷ y ∷ d ∷ []) ≡ err (cycle (to "x" ∷ to "y" ∷ []))
unfolding build containers
build-knot = refl

build-perm_example : Perm (c ∷ a ∷ b ∷ d ∷ []) (a ∷ b ∷ d ∷ c ∷ [])
build-perm_example = build-perm (a ∷ b ∷ d ∷ c ∷ []) (c ∷ a ∷ b ∷ d ∷ []) build-chain

build-IsOrdered_example : IsOrdered [] (c ∷ a ∷ b ∷ d ∷ [])
build-IsOrdered_example = build-IsOrdered (a ∷ b ∷ d ∷ c ∷ []) (c ∷ a ∷ b ∷ d ∷ []) build-chain

build-one_writer_example : NoDup (all_outputs (a ∷ b ∷ d ∷ c ∷ []))
build-one_writer_example = build-one_writer (a ∷ b ∷ d ∷ c ∷ []) (c ∷ a ∷ b ∷ d ∷ []) build-chain

rank : TaskRef → ℕ
rank r = if str_eq r.name (bytes "a") then 1 else 0

rank-falls :
    (t : Task) → In t (a ∷ c ∷ []) → (dep : TaskRef) → In dep t.depends_on → rank dep < rank (ref t)
unfolding rank containers
rank-falls t (inl e) dep i =
    let i' : In dep a.depends_on = subst (λ (u : Task). In dep u.depends_on) e i in
    subst (λ (u : Task). rank dep < rank (ref u)) (sym e) (gate dep i')
  where
    gate : (dep : TaskRef) → In dep a.depends_on → rank dep < rank (ref a)
    gate dep (inl g) = rw g (omega arith)
    gate dep (inr n) = absurd n
rank-falls t (inr (inr n)) dep i = absurd n
rank-falls t (inr (inl e)) dep i = absurd (subst (λ (u : Task). In dep u.depends_on) e i)

build-ne-cycle_example : build (a ∷ c ∷ []) ≢ err (cycle (to "a" ∷ []))
build-ne-cycle_example = build-ne-cycle (a ∷ c ∷ []) rank (to "a" ∷ []) rank-falls

refs_differ : NoDup (map ref (x ∷ y ∷ d ∷ []))
unfolding containers
refs_differ = (
  not-In (to "y" ∷ to "d" ∷ []) (to "x") refl,
  (not-In (to "d" ∷ []) (to "y") refl, (not-In [] (to "d") refl, tt)),
)

build-cycle-Tangle_example : Tangle (x ∷ y ∷ d ∷ []) (to "x" ∷ to "y" ∷ [])
build-cycle-Tangle_example =
    build-cycle-Tangle (x ∷ y ∷ d ∷ []) (to "x" ∷ to "y" ∷ []) refs_differ build-knot
