-- ===== src/Hash/Encoding.antt =====
-- What the digests tell apart: the texts that are hashed determine the inputs.
use sloff.Prelude.{
  All, In, List, Option, Option-cases, Str, Str_Eq, [], ap, arith, inl, inr, length, nat_Eq, none,
  refl, some, subst, sym, ℕ, ◌++◌, ◌∙◌, ◌∷◌, ◌≡◌, ◌≢◌,
}
use sloff.Hash.{files_preimage, joined}

abbrev pub NulFree : Str → Type 0
NulFree s = ¬ In 0 s

-- A text up to its first NUL is determined by the whole.
split_at_nul :
    (a b s t : Str) → NulFree a → NulFree b → a ++ (0 ∷ s) ≡ b ++ (0 ∷ t) → (a ≡ b) × (s ≡ t)
split_at_nul [] [] s t na nb e = (refl, cc)
split_at_nul [] (y ∷ b) s t na nb e = let bad : 0 ≡ y = cc in absurd (nb (inl bad))
split_at_nul (x ∷ a) [] s t na nb e = let bad : x ≡ 0 = cc in absurd (na (inl (sym bad)))
split_at_nul (x ∷ a) (y ∷ b) s t na nb e =
    let tails : a ++ (0 ∷ s) ≡ b ++ (0 ∷ t) = cc in
    let (p, q) = split_at_nul a b s t (λ m. na (inr m)) (λ m. nb (inr m)) tails in (cc, q)

no_nul_in : (a s : Str) → NulFree (a ++ (0 ∷ s)) → ⊥
no_nul_in [] s n = n (inl refl)
no_nul_in (x ∷ a) s n = no_nul_in a s (λ m. n (inr m))

-- Non-empty lists of texts without NUL bytes are equal if Cmd and ResolvedVersions hash the same
-- bytes for them: argument boundaries are kept.
pub joined-inj :
    (xs ys : List Str)
    → xs ≢ []
    → ys ≢ []
    → All NulFree xs
    → All NulFree ys
    → joined xs ≡ joined ys
    → xs ≡ ys
unfolding joined
joined-inj [] ys nx ny hx hy e = absurd (nx refl)
joined-inj (a ∷ xs) [] nx ny hx hy e = absurd (ny refl)
joined-inj (a ∷ []) (b ∷ []) nx ny hx hy e = ap (λ s. s ∷ []) e
joined-inj (a ∷ []) (b ∷ c ∷ ys) nx ny hx hy e =
    absurd (no_nul_in b (joined (c ∷ ys)) (subst NulFree e hx.0))
joined-inj (a ∷ c ∷ xs) (b ∷ []) nx ny hx hy e =
    absurd (no_nul_in a (joined (c ∷ xs)) (subst NulFree (sym e) hy.0))
joined-inj (a ∷ c ∷ xs) (b ∷ d ∷ ys) nx ny hx hy e =
    let (p, q) = split_at_nul a b (joined (c ∷ xs)) (joined (d ∷ ys)) hx.0 hy.0 e in
    let rest = joined-inj (c ∷ xs) (d ∷ ys) (λ h. cc) (λ h. cc) hx.1 hy.1 q in cc

-- Two texts of one length in front of a NUL are determined by the whole.
split_at_length :
    (a b s t : Str) → length a ≡ length b → a ++ (0 ∷ s) ≡ b ++ (0 ∷ t) → (a ≡ b) × (s ≡ t)
split_at_length [] [] s t n e = (refl, cc)
split_at_length [] (y ∷ b) s t n e = absurd (omega arith)
split_at_length (x ∷ a) [] s t n e = absurd (omega arith)
split_at_length (x ∷ a) (y ∷ b) s t n e =
    let tails : a ++ (0 ∷ s) ≡ b ++ (0 ∷ t) = cc in
    let (p, q) = split_at_length a b s t (omega arith) tails in (cc, q)

-- The digests of the given length that a file set shows.
abbrev pub Digests : (Str → Option Str) → ℕ → List Str → Type 0
Digests digest n ps = All (λ p. (d : Str) → digest p ≡ some d → length d ≡ n) ps

preimage-cons :
    (digest : Str → Option Str) (p : Str) (ps : List Str) (s : Str)
    → files_preimage digest (p ∷ ps) ≡ some s
    → (d rest : Str) × (digest p ≡ some d)
      × (files_preimage digest ps ≡ some rest)
      × (s ≡ p ++ (0 ∷ (d ++ (0 ∷ rest))))
unfolding files_preimage
preimage-cons digest p ps s h = elim (Option-cases (digest p)) [
  | inl e ↦ absurd (let bad : none ≡ some s = rw (e, files_preimage) at h in cc)
  | inr (d, e) ↦ elim (Option-cases (files_preimage digest ps)) [
    | inl f ↦ absurd (let bad : none ≡ some s = rw (e, files_preimage, f) at h in cc)
    | inr (rest, f) ↦ (
      d,
      rest,
      e,
      f,
      let good : some (p ++ (0 ∷ (d ++ (0 ∷ rest)))) ≡ some s = rw (e, files_preimage, f) at h in
          cc,
    )
  ]
]

nul_start : (p q : Str) → [] ≡ p ++ (0 ∷ q) → ⊥
nul_start [] q e = cc
nul_start (x ∷ p) q e = cc

-- For two lists of paths without NUL bytes whose digests all have one length, the same bytes are
-- hashed only if the paths are the same and have the same digests.
pub files_preimage-inj :
    (f g : Str → Option Str) (n : ℕ) (ps qs : List Str) (s : Str)
    → All NulFree ps
    → All NulFree qs
    → Digests f n ps
    → Digests g n qs
    → files_preimage f ps ≡ some s
    → files_preimage g qs ≡ some s
    → (ps ≡ qs) × All (λ p. f p ≡ g p) ps
unfolding files_preimage
files_preimage-inj f g n [] [] s np nq df dg hf hg = (refl, tt)
files_preimage-inj f g n [] (q ∷ qs) s np nq df dg hf hg =
    let (d, rest, e, k, z) = preimage-cons g q qs s hg in
    let empty : [] ≡ s = cc in absurd (nul_start q (d ++ (0 ∷ rest)) (empty ∙ z))
files_preimage-inj f g n (p ∷ ps) [] s np nq df dg hf hg =
    let (d, rest, e, k, z) = preimage-cons f p ps s hf in
    let empty : [] ≡ s = cc in absurd (nul_start p (d ++ (0 ∷ rest)) (empty ∙ z))
files_preimage-inj f g n (p ∷ ps) (q ∷ qs) s np nq df dg hf hg =
    let (d, r, ed, kd, zd) = preimage-cons f p ps s hf in
    let (d', r', ed', kd', zd') = preimage-cons g q qs s hg in
    let (same, tails) = split_at_nul p q (d ++ (0 ∷ r)) (d' ++ (0 ∷ r')) np.0 nq.0 (sym zd ∙ zd') in
    let lengths : length d ≡ length d' = df.0 d ed ∙ sym (dg.0 d' ed') in
    let (same_digest, rests) = split_at_length d d' r r' lengths tails in
    let (later, digests) = files_preimage-inj f g n ps qs r np.1 nq.1 df.1 dg.1 kd (rw rests kd') in
    (
      ap (◌∷◌ p) later ∙ ap (λ x. x ∷ qs) same,
      (ed ∙ ap some same_digest ∙ sym ed' ∙ ap g (sym same), digests),
    )
