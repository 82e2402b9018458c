-- ===== src/Prelude/Maps.antt =====
-- Go's maps as association lists.
use mathlib.Core.Path.{◌≡◌, refl, sym, ap}
use mathlib.Core.Logic.{◌⊎◌, inl, inr}
use mathlib.Core.Option.{Option, none, some}
use mathlib.Core.Bool.{false}
use mathlib.Core.List.{List, [], ◌∷◌, map}
use sloff.Prelude.Tests.{if◌then◌else◌}
use sloff.Prelude.Keys.{Eq, ◌==◌, ==-cases, ==_refl, ==_ne}
use sloff.Prelude.Lists.{In, NoDup}

abbrev pub Map : Type 0 → Type 0 → Type 0
Map K V = List (K × V)

module _ {K V : Type 0} ⦃e : Eq K⦄ where
  -- `v, ok := m[k]`
  unfoldable pub lookup : K → Map K V → Option V
  lookup k [] = none
  lookup k ((j, v) ∷ m) = if k == j then some v else lookup k m

  -- `m[k] = v`
  unfoldable pub insert : K → V → Map K V → Map K V
  insert k v [] = (k, v) ∷ []
  insert k v ((j, w) ∷ m) = if k == j then (k, v) ∷ m else (j, w) ∷ insert k v m

  pub lookup-insert_self : (k : K) (v : V) (m : Map K V) → lookup k (insert k v m) ≡ some v
  unfolding lookup insert
  lookup-insert_self k v [] = rw (==_refl k)
  lookup-insert_self k v ((j, w) ∷ m) = elim (==-cases k j) [
    | inl (same, t) ↦ rw t (rw (==_refl k))
    | inr (other, f) ↦ rw f (rw f (lookup-insert_self k v m))
  ]

  pub lookup-insert_ne :
      (k j : K) (v : V) (m : Map K V) → (j == k) ≡ false → lookup j (insert k v m) ≡ lookup j m
  unfolding lookup insert
  lookup-insert_ne k j v [] h = rw h
  lookup-insert_ne k j v ((i, w) ∷ m) h = elim (==-cases k i) [
    | inl (same, t) ↦ let g : (j == i) ≡ false = rw same at h in rw t (rw h (rw g))
    | inr (other, f) ↦ rw f (elim (==-cases j i) [
      | inl (here, t) ↦ rw t
      | inr (there, g) ↦ rw g (lookup-insert_ne k j v m h)
    ])
  ]

  pub lookup-insert :
      (k j : K) (v : V) (m : Map K V)
      → lookup j (insert k v m) ≡ (if j == k then some v else lookup j m)
  lookup-insert k j v m = elim (==-cases j k) [
    | inl (same, t) ↦ rw t (rw same (lookup-insert_self k v m))
    | inr (other, f) ↦ rw f (lookup-insert_ne k j v m f)
  ]

  pub lookup-In : (k : K) (v : V) (m : Map K V) → lookup k m ≡ some v → In (k, v) m
  unfolding lookup
  lookup-In k v [] h = cc
  lookup-In k v ((j, w) ∷ m) h = elim (==-cases k j) [
    | inl (same, t) ↦ let found : some w ≡ some v = rw t at h in inl (cc)
    | inr (other, f) ↦ inr (lookup-In k v m (rw f at h))
  ]

  -- `delete(m, k)`, on a map that may hold the key several times.
  unfoldable pub without : K → Map K V → Map K V
  without k [] = []
  without k ((j, v) ∷ m) = let rest = without k m in if k == j then rest else (j, v) ∷ rest

  abbrev pub keys_of : Map K V → List K
  keys_of m = map (λ e. e.0) m

  pub lookup-without_self : (k : K) (m : Map K V) → lookup k (without k m) ≡ none
  unfolding lookup without
  lookup-without_self k [] = refl
  lookup-without_self k ((j, w) ∷ m) = elim (==-cases k j) [
    | inl (same, t) ↦ rw t (lookup-without_self k m)
    | inr (other, f) ↦ rw f (rw f (lookup-without_self k m))
  ]

  pub lookup-without_ne :
      (k j : K) (m : Map K V) → (j == k) ≡ false → lookup j (without k m) ≡ lookup j m
  unfolding lookup without
  lookup-without_ne k j [] h = refl
  lookup-without_ne k j ((i, w) ∷ m) h = elim (==-cases k i) [
    | inl (same, t) ↦
        let g : (j == i) ≡ false = rw same at h in rw t (rw g (lookup-without_ne k j m h))
    | inr (other, f) ↦ rw f (elim (==-cases j i) [
      | inl (here, t) ↦ rw t
      | inr (there, g) ↦ rw g (lookup-without_ne k j m h)
    ])
  ]

  pub In-keys_of : (k : K) (v : V) (m : Map K V) → lookup k m ≡ some v → In k (keys_of m)
  unfolding lookup
  In-keys_of k v [] h = cc
  In-keys_of k v ((j, w) ∷ m) h = elim (==-cases k j) [
    | inl (same, t) ↦ inl same
    | inr (other, f) ↦ inr (In-keys_of k v m (rw f at h))
  ]

  keys_of-insert :
      (k j : K) (v : V) (m : Map K V) → In j (keys_of (insert k v m)) → (j ≡ k) ⊎ In j (keys_of m)
  unfolding insert
  keys_of-insert k j v [] (inl e) = inl e
  keys_of-insert k j v [] (inr n) = absurd n
  keys_of-insert k j v ((i, w) ∷ m) h = elim (==-cases k i) [
    | inl (same, t) ↦ elim (rw t at h) [ inl e ↦ inl e | inr later ↦ inr (inr later) ]
    | inr (other, f) ↦ elim (rw f at h) [
      | inl e ↦ inr (inl e)
      | inr later ↦ elim (keys_of-insert k j v m later) [ inl e ↦ inl e | inr i ↦ inr (inr i) ]
    ]
  ]

  pub NoDup-insert :
      (k : K) (v : V) (m : Map K V) → NoDup (keys_of m) → NoDup (keys_of (insert k v m))
  unfolding insert
  NoDup-insert k v [] d = (λ n. n, tt)
  NoDup-insert k v ((i, w) ∷ m) d = elim (==-cases k i) [
    | inl (same, t) ↦ rw t (rw same d)
    | inr (other, f) ↦ rw f (
      λ h. elim (keys_of-insert k i v m h) [ inl e ↦ other (sym e) | inr later ↦ d.0 later ],
      NoDup-insert k v m d.1,
    )
  ]

  keys_of-without : (k j : K) (m : Map K V) → In j (keys_of (without k m)) → In j (keys_of m)
  unfolding without
  keys_of-without k j [] h = h
  keys_of-without k j ((i, w) ∷ m) h = elim (==-cases k i) [
    | inl (same, t) ↦ inr (keys_of-without k j m (rw t at h))
    | inr (other, f) ↦ elim (rw f at h) [
      | inl e ↦ inl e
      | inr later ↦ inr (keys_of-without k j m later)
    ]
  ]

  pub NoDup-without : (k : K) (m : Map K V) → NoDup (keys_of m) → NoDup (keys_of (without k m))
  unfolding without
  NoDup-without k [] d = tt
  NoDup-without k ((i, w) ∷ m) d = elim (==-cases k i) [
    | inl (same, t) ↦ rw t (NoDup-without k m d.1)
    | inr (other, f) ↦ rw f ((λ h. d.0 (keys_of-without k i m h)), NoDup-without k m d.1)
  ]

  pub lookup_of_In :
      (k : K) (v : V) (m : Map K V) → NoDup (keys_of m) → In (k, v) m → lookup k m ≡ some v
  unfolding lookup
  lookup_of_In k v [] d h = absurd h
  lookup_of_In k v ((j, w) ∷ m) d (inl e) =
      let same : k ≡ j = ap (λ x. x.0) e in
      let value : v ≡ w = ap (λ x. x.1) e in rw (same, ==_refl j) (ap some (sym value))
  lookup_of_In k v ((j, w) ∷ m) d (inr h) =
      let found = lookup_of_In k v m d.1 h in
      rw (==_ne {a = k} {b = j} (λ e. d.0 (rw (← e) (In-keys_of k v m found)))) found
