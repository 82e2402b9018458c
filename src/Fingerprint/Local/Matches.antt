-- ===== src/Fingerprint/Local/Matches.antt =====
-- What matchingFiles returns, and how writes and removals in the directory change it.
use sloff.Prelude.{
  In, In-keep, In-keep_of, In-map, In-map_inv, In-sort, In-sort_of, IsSorted, List, NoDup,
  NoDup-map_keep, NoDup-sort, Option, Option-cases, Str, Str_Eq, [], ap, append_of-strip_suffix,
  cut, cut-append, false, inl, inr, keep, keys_of, lookup, lookup-In, lookup_of_In, nat_Eq, refl,
  some, sort-IsSorted, sorted_unique, str_geb_trans, str_ltb, str_ltb_asym, str_ltb_connex,
  strip_suffix, strip_suffix-append, sym, true, ℕ, ◌++◌, ◌↔◌, ◌∙◌, ◌∷◌, ◌≡◌,
}
use sloff.Fingerprint.Local.Filename.{
  no_dash, looks-parts, file_name, dash, file_ext, looks_like_timestamp,
}
use sloff.Fingerprint.Local.Store.{
  Node, file, subdirectory, Dir, name_matches, entry_matches, matching_names,
}

-- A directory holds each name once.
abbrev pub Names : Dir → Type 0
Names d = NoDup (keys_of d)

-- The name stands for a record file with the hash.
abbrev pub Matching : Str → Dir → Str → Type 0
Matching hash d n =
    (b : Str) × (m : ℕ) × (lookup n d ≡ some (file b m)) × (name_matches hash n ≡ true)

pub name_matches_iff :
    (hash name : Str)
    → (name_matches hash name ≡ true)
      ↔ ((prefix : Str) × (name ≡ file_name prefix hash) × (looks_like_timestamp prefix ≡ true))
unfolding name_matches file_name
name_matches_iff hash name = (
  λ h. elim (Option-cases (strip_suffix name (dash ∷ (hash ++ file_ext)))) [
    | inl e ↦ let bad : false ≡ true = rw (e, name_matches) at h in cc
    | inr (prefix, e) ↦ (prefix, append_of-strip_suffix name _ prefix e, rw (e, name_matches) at h)
  ],
  λ h.
      let (prefix, e, t) = h in
      rw e (rw (strip_suffix-append prefix (dash ∷ (hash ++ file_ext)), name_matches) t),
)

-- One name matches one hash at most.
pub name_matches-inj :
    (name h k : Str) → name_matches h name ≡ true → name_matches k name ≡ true → h ≡ k
unfolding file_name
name_matches-inj name h k s t =
    let (p, e, l) = (name_matches_iff h name).0 s in
    let (q, f, m) = (name_matches_iff k name).0 t in
    let at_p = cut-append dash p (h ++ file_ext) (no_dash p (looks-parts p l).1) in
    let at_q = cut-append dash q (k ++ file_ext) (no_dash q (looks-parts q m).1) in
    let both : ◌≡◌ {A = Option (Str × Str)} (some (p, h ++ file_ext)) (some (q, k ++ file_ext)) =
      sym at_p ∙ ap (cut dash) (sym e ∙ f) ∙ at_q in
    let tails : h ++ file_ext ≡ k ++ file_ext = cc in
    let whole : some h ≡ some k =
      sym (strip_suffix-append h file_ext)
      ∙ ap (λ l. strip_suffix l file_ext) tails
      ∙ strip_suffix-append k file_ext in
    cc

matched :
    (hash : Str) (d : Dir)
    → Names d
    → (n : Str) (node : Node) → In (n, node) d
    → entry_matches hash (n, node) ≡ true
    → Matching hash d n
matched hash d u n subdirectory i t = cc
matched hash d u n (file b m) i t = (b, m, lookup_of_In n (file b m) d u i, t)

pub In-Matching_iff :
    (hash n : Str) (d : Dir) → Names d → In n (matching_names hash d) ↔ Matching hash d n
unfolding matching_names
In-Matching_iff hash n d u = (
  λ i.
      let ((m, node), k, e) =
        In-map_inv (λ (x : Str × Node). x.0) n (keep (entry_matches hash) d)
          (In-sort str_ltb n (keys_of (keep (entry_matches hash) d)) i) in
      let (found, t) = In-keep (entry_matches hash) (m, node) d k in
      rw e (matched hash d u m node found t),
  λ h.
      let (b, m, found, t) = h in
      In-sort_of str_ltb n (keys_of (keep (entry_matches hash) d)) (
        In-map (λ (x : Str × Node). x.0) (n, file b m) (keep (entry_matches hash) d)
          (In-keep_of (entry_matches hash) (n, file b m) d (lookup-In n (file b m) d found) t)),
)

pub NoDup-matching_names : (hash : Str) (d : Dir) → Names d → NoDup (matching_names hash d)
unfolding matching_names
NoDup-matching_names hash d u =
    NoDup-sort str_ltb (keys_of (keep (entry_matches hash) d))
      (NoDup-map_keep (λ (x : Str × Node). x.0) (entry_matches hash) d u)

-- A list without duplicates is told by its elements if there is one.
only : (x : Str) (xs : List Str) → NoDup xs → In x xs → ((y : Str) → In y xs → y ≡ x) → xs ≡ x ∷ []
only x [] d i all_same = absurd i
only x (y ∷ []) d i all_same = rw (all_same y (inl refl)) refl
only x (y ∷ z ∷ xs) d i all_same =
    absurd (d.0 (inl (all_same y (inl refl) ∙ sym (all_same z (inr (inl refl))))))

none-In : (xs : List Str) → ((y : Str) → ¬ In y xs) → xs ≡ []
none-In [] h = refl
none-In (x ∷ xs) h = absurd (h x (inl refl))

pub matching_names-only :
    (hash n : Str) (d : Dir)
    → Names d
    → Matching hash d n
    → ((k : Str) → Matching hash d k → k ≡ n)
    → matching_names hash d ≡ n ∷ []
matching_names-only hash n d u m all_same =
    only n (matching_names hash d) (NoDup-matching_names hash d u)
      ((In-Matching_iff hash n d u).1 m) (λ k i. all_same k ((In-Matching_iff hash k d u).0 i))

pub matching_names-none :
    (hash : Str) (d : Dir)
    → Names d
    → ((k : Str) → ¬ Matching hash d k)
    → matching_names hash d ≡ []
matching_names-none hash d u h =
    none-In (matching_names hash d) (λ k i. h k ((In-Matching_iff hash k d u).0 i))

-- Two directories that agree on the names that match a hash have the same matches, in the same order.
pub matching_names-cong :
    (hash : Str) (d e : Dir)
    → Names d
    → Names e
    → ((n : Str) → name_matches hash n ≡ true → lookup n d ≡ lookup n e)
    → matching_names hash d ≡ matching_names hash e
unfolding matching_names
matching_names-cong hash d e u v h =
    sorted_unique str_ltb str_ltb_connex (matching_names hash d) (matching_names hash e) (ordered d)
      (ordered e) (NoDup-matching_names hash d u) (NoDup-matching_names hash e v)
      (λ n i.
        let (b, m, found, t) = (In-Matching_iff hash n d u).0 i in
        (In-Matching_iff hash n e v).1 (b, m, sym (h n t) ∙ found, t))
      (λ n i.
        let (b, m, found, t) = (In-Matching_iff hash n e v).0 i in
        (In-Matching_iff hash n d u).1 (b, m, h n t ∙ found, t))
  where
    ordered : (d : Dir) → IsSorted str_ltb (matching_names hash d)
    ordered d =
        sort-IsSorted str_ltb str_ltb_asym str_geb_trans (keys_of (keep (entry_matches hash) d))
