-- ===== src/Depgraph/Defs.antt =====
-- The data types of depgraph.go: TaskRef, Task and the errors of Build.
use sloff.Prelude.{
  Bool, Eq, List, Map, Str, Str_Eq, [], arith, bytes, if◌then◌else◌, inl, inr, nat_Eq, refl, str_eq,
  str_eq_iff, true, ℕ, ◌&&◌, ◌++◌, ◌||◌, ◌↔◌, ◌≡◌, ◌⊎◌,
}

pub record TaskRef : Type 0 where
  pub spec_relpath : Str
  pub name : Str

abbrev pub ref_eq : TaskRef → TaskRef → Bool
ref_eq a b = str_eq a.spec_relpath b.spec_relpath && str_eq a.name b.name

pub ref_eq_iff : (a b : TaskRef) → (ref_eq a b ≡ true) ↔ (a ≡ b)
ref_eq_iff a b = ground (arith, str_eq_iff a.spec_relpath b.spec_relpath, str_eq_iff a.name b.name)

instance abbrev pub TaskRef_Eq : Eq TaskRef
TaskRef_Eq = record { same_as = ref_eq; same_iff = ref_eq_iff }

-- The root of the repository, as "" or ".", needs no qualifier.
unfoldable pub label : TaskRef → Str
label r =
    if str_eq r.spec_relpath [] || str_eq r.spec_relpath (bytes ".")
    then r.name
    else r.spec_relpath ++ (bytes ":" ++ r.name)

pub record Task : Type 0 where
  pub spec_relpath : Str
  pub name : Str
  pub inputs : List Str
  pub outputs : List Str
  pub depends_on : List TaskRef
  pub barrier : Bool

abbrev pub ref : Task → TaskRef
ref t = record { spec_relpath = t.spec_relpath; name = t.name }

-- The errors that Build returns, with the values that their messages print.
pub data BuildError : Type 0 where
  -- each conflicting output with the indices of its producers
  duplicate_producers : Map Str (List ℕ) → BuildError
  unknown_dependency : TaskRef → TaskRef → BuildError
  self_dependency : TaskRef → BuildError
  cycle : List TaskRef → BuildError

pub data Built (A : Type 0) : Type 0 where
  ok : A → Built A
  err : BuildError → Built A

infixl 5 ◌>>=◌
abbrev pub ◌>>=◌ : {A B : Type 0} → Built A → (A → Built B) → Built B
ok a >>= f = f a
err e >>= f = err e

pub >>=-eq-ok :
    {A B : Type 0} (first : Built A) (next : A → Built B) {done : B}
    → (first >>= next) ≡ ok done
    → (x : A) × (first ≡ ok x) × (next x ≡ ok done)
>>=-eq-ok (ok x) next h = (x, refl, h)
>>=-eq-ok (err bad) next h = cc

pub >>=-eq-err :
    {A B : Type 0} (m : Built A) (f : A → Built B) {e : BuildError}
    → (m >>= f) ≡ err e
    → (m ≡ err e) ⊎ ((a : A) × (m ≡ ok a) × (f a ≡ err e))
>>=-eq-err (ok a) f h = inr (a, refl, h)
>>=-eq-err (err x) f h = inl (cc)
