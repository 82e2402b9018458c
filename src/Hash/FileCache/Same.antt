-- ===== src/Hash/FileCache/Same.antt =====
-- The cache's Files returns what the plain Files does.
use sloff.Prelude.{
  ==-cases, All, All-of_In, In, In-sort, In-sort_of, List, Map, Option, Str, Str_Eq, [], all, ap,
  inl, inr, insert, lookup, lookup-insert_ne, lookup-insert_self, nat_Eq, none, refl, some, sort,
  str_ltb, subst, sym, ◌++◌, ◌∙◌, ◌∷◌, ◌≡◌, ◌⊎◌,
}
use sloff.Hash.{hex, files_preimage, files_with}
use sloff.Hash.FileCache.{
  Read, ok, not_exist, unreadable, compute_digests, digest_map, digest_at, fold_digests,
  cached_files,
}

abbrev pub as_option : {A : Type 0} → Read A → Option A
as_option (ok a) = some a
as_option not_exist = none
as_option unreadable = none

abbrev pub Digested : (Str → Read Str) → List Str → List Str → Type 0
Digested digest [] [] = Unit
Digested digest (p ∷ ps) (d ∷ ds) = (digest p ≡ ok d) × Digested digest ps ds
Digested digest _ _ = ⊥

extend : Str → Option Str → Option Str → Option Str
extend p o r = elim o [
  | none ↦ none
  | some d ↦ elim r [ none ↦ none | some rest ↦ some (p ++ (0 ∷ (d ++ (0 ∷ rest)))) ]
]

files_preimage-cong :
    (f g : Str → Option Str) (ps : List Str)
    → All (λ p. f p ≡ g p) ps
    → files_preimage f ps ≡ files_preimage g ps
unfolding files_preimage extend
files_preimage-cong f g [] h = refl
files_preimage-cong f g (p ∷ ps) h =
    ap (λ o. extend p o (files_preimage f ps)) h.0
    ∙ ap (extend p (g p)) (files_preimage-cong f g ps h.1)

extend-none : (p : Str) (o r : Option Str) → r ≡ none → extend p o r ≡ none
unfolding extend
extend-none p none r h = refl
extend-none p (some d) r h = rw h refl

files_preimage-none :
    (f : Str → Option Str) (ps : List Str) (p : Str)
    → In p ps
    → f p ≡ none
    → files_preimage f ps ≡ none
unfolding files_preimage extend
files_preimage-none f [] p m h = absurd m
files_preimage-none f (q ∷ ps) p (inl e) h =
    ap (λ o. extend q o (files_preimage f ps)) (ap f (sym e) ∙ h)
files_preimage-none f (q ∷ ps) p (inr m) h = extend-none q (f q) _ (files_preimage-none f ps p m h)

-- How compute_digests takes one file in.
combine : Read Str → Read (List Str) → Read (List Str)
combine o r = elim o [
  | unreadable ↦ unreadable
  | not_exist ↦ elim r [ unreadable ↦ unreadable | _ ↦ not_exist ]
  | ok d ↦ elim r [ unreadable ↦ unreadable | not_exist ↦ not_exist | ok ds ↦ ok (d ∷ ds) ]
]

combine-none :
    (o : Read Str) (r : Read (List Str)) → as_option r ≡ none → as_option (combine o r) ≡ none
unfolding combine
combine-none unreadable r h = refl
combine-none not_exist unreadable h = refl
combine-none not_exist not_exist h = refl
combine-none not_exist (ok ds) h = refl
combine-none (ok d) unreadable h = refl
combine-none (ok d) not_exist h = refl
combine-none (ok d) (ok ds) h = cc

-- Either all files have digests, or one of them has none.
pub compute-cases :
    (digest : Str → Read Str) (ps : List Str)
    → ((ds : List Str) × (compute_digests digest ps ≡ ok ds) × Digested digest ps ds)
      ⊎ ((as_option (compute_digests digest ps) ≡ none)
          × ((p : Str) × In p ps × (as_option (digest p) ≡ none)))
unfolding compute_digests combine
compute-cases digest [] = inl ([], refl, tt)
compute-cases digest (p ∷ ps) = go (digest p) refl (compute-cases digest ps)
  where
    go :
        (o : Read Str)
        → digest p ≡ o
        → ((ds : List Str) × (compute_digests digest ps ≡ ok ds) × Digested digest ps ds)
          ⊎ ((as_option (compute_digests digest ps) ≡ none)
              × ((q : Str) × In q ps × (as_option (digest q) ≡ none)))
        → ((ds : List Str) × (compute_digests digest (p ∷ ps) ≡ ok ds)
            × Digested digest (p ∷ ps) ds)
          ⊎ ((as_option (compute_digests digest (p ∷ ps)) ≡ none)
              × ((q : Str) × In q (p ∷ ps) × (as_option (digest q) ≡ none)))
    go o e (inr (bad, (q, m, n))) = inr (combine-none (digest p) _ bad, (q, inr m, n))
    go (ok d) e (inl (ds, all, each)) = inl (d ∷ ds, rw (e, compute_digests, all), (e, each))
    go not_exist e (inl (ds, all, each)) = inr (rw (e, compute_digests, all), (p, inl refl, rw e))
    go unreadable e (inl (ds, all, each)) = inr (rw (e, compute_digests), (p, inl refl, rw e))

Sound : (Str → Read Str) → Map Str Str → Type 0
Sound digest m = (q e : Str) → lookup q m ≡ some e → digest q ≡ ok e

Sound-insert :
    (digest : Str → Read Str) (p d : Str) (m : Map Str Str)
    → Sound digest m
    → digest p ≡ ok d
    → Sound digest (insert p d m)
unfolding Sound
Sound-insert digest p d m s h q e found = elim (==-cases q p) [
  | inl (same, t) ↦
      let at_p : lookup p (insert p d m) ≡ some e =
        subst (λ x. lookup x (insert p d m) ≡ some e) same found in
      let stored = lookup-insert_self p d m in let eq : d ≡ e = cc in ap digest same ∙ h ∙ ap ok eq
  | inr (other, f) ↦ s q e (sym (lookup-insert_ne p q d m f) ∙ found)
]

digest_map-Sound :
    (digest : Str → Read Str) (ps ds : List Str) (m : Map Str Str)
    → Digested digest ps ds
    → Sound digest m
    → Sound digest (digest_map ps ds m)
unfolding digest_map
digest_map-Sound digest [] [] m v s = s
digest_map-Sound digest (p ∷ ps) (d ∷ ds) m v s =
    digest_map-Sound digest ps ds (insert p d m) v.1 (Sound-insert digest p d m s v.0)
digest_map-Sound digest [] (d ∷ ds) m v s = absurd v
digest_map-Sound digest (p ∷ ps) [] m v s = absurd v

Present : Str → Map Str Str → Type 0
Present q m = (e : Str) × (lookup q m ≡ some e)

Present-insert : (q p d : Str) (m : Map Str Str) → (q ≡ p) ⊎ Present q m → Present q (insert p d m)
unfolding Present
Present-insert q p d m h = elim (==-cases q p) [
  | inl (same, t) ↦ (d, rw same (lookup-insert_self p d m))
  | inr (other, f) ↦ elim h [
    | inl same ↦ absurd (other same)
    | inr (e, found) ↦ (e, lookup-insert_ne p q d m f ∙ found)
  ]
]

digest_map-Present :
    (digest : Str → Read Str) (ps ds : List Str) (m : Map Str Str) (q : Str)
    → Digested digest ps ds
    → In q ps ⊎ Present q m
    → Present q (digest_map ps ds m)
unfolding digest_map
digest_map-Present digest [] [] m q v (inl i) = absurd i
digest_map-Present digest [] [] m q v (inr h) = h
digest_map-Present digest (p ∷ ps) (d ∷ ds) m q v (inl (inl e)) =
    digest_map-Present digest ps ds (insert p d m) q v.1 (inr (Present-insert q p d m (inl e)))
digest_map-Present digest (p ∷ ps) (d ∷ ds) m q v (inl (inr i)) =
    digest_map-Present digest ps ds (insert p d m) q v.1 (inl i)
digest_map-Present digest (p ∷ ps) (d ∷ ds) m q v (inr h) =
    digest_map-Present digest ps ds (insert p d m) q v.1 (inr (Present-insert q p d m (inr h)))
digest_map-Present digest [] (d ∷ ds) m q v h = absurd v
digest_map-Present digest (p ∷ ps) [] m q v h = absurd v

abbrev digested : (Str → Str) → Option Str → Option Str
digested sha256 o = elim o [ none ↦ none | some b ↦ some (hex (sha256 b)) ]

fold_digests-files_with :
    (sha256 : Str → Str) (digest : Str → Read Str) (paths ds : List Str)
    → Digested digest paths ds
    → (fold_digests sha256 paths ds ≡ files_with sha256 paths (λ p. as_option (digest p)))
unfolding fold_digests files_with digest_at Present Sound lookup
fold_digests-files_with sha256 digest paths ds v =
    let m = digest_map paths ds [] in
    let same : All (λ p. digest_at m p ≡ as_option (digest p)) (sort str_ltb paths) =
      All-of_In (λ p. digest_at m p ≡ as_option (digest p)) (sort str_ltb paths)
        (λ p i.
          let (e, found) =
            digest_map-Present digest paths ds [] p v (inl (In-sort str_ltb p paths i)) in
          let from = digest_map-Sound digest paths ds [] v (λ q x h. nothing q x h) p e found in
          rw (found, digest_at) (rw from refl)) in
    ap (digested sha256)
      (files_preimage-cong (digest_at m) (λ p. as_option (digest p)) (sort str_ltb paths) same)
  where
    nothing : (q x : Str) → lookup q [] ≡ some x → digest q ≡ ok x
    nothing q x h = cc

-- FileCache.Files gives the digest that hash.Files gives with the same file digests, and fails when
-- it fails.
pub cached_files-files_with :
    (sha256 : Str → Str) (digest : Str → Read Str) (paths : List Str)
    → as_option (cached_files sha256 digest paths)
      ≡ files_with sha256 paths (λ p. as_option (digest p))
unfolding cached_files files_with
cached_files-files_with sha256 digest paths = elim (compute-cases digest paths) [
  | inl (ds, all, each) ↦
      rw (all, cached_files) (returned _ _ (fold_digests-files_with sha256 digest paths ds each))
  | inr (bad, (p, m, absent)) ↦
      let without =
        files_preimage-none (λ q. as_option (digest q)) (sort str_ltb paths) p
          (In-sort_of str_ltb p paths m) absent in
      stopped (compute_digests digest paths)
        (λ ds. elim (fold_digests sha256 paths ds) [ some h ↦ ok h | none ↦ unreadable ]) bad
      ∙ sym (ap (digested sha256) without)
]
  where
    returned :
        (a b : Option Str)
        → a ≡ b
        → ◌≡◌ {A = Option Str} (as_option (elim a [ some h ↦ ok h | none ↦ unreadable ])) b
    returned none b h = h
    returned (some x) b h = h

    stopped :
        (r : Read (List Str)) (f : List Str → Read Str)
        → as_option r ≡ none
        → ◌≡◌ {A = Option Str}
            (as_option (elim r [ unreadable ↦ unreadable | not_exist ↦ not_exist | ok ds ↦ f ds ]))
            none
    stopped unreadable f h = refl
    stopped not_exist f h = refl
    stopped (ok ds) f h = cc
