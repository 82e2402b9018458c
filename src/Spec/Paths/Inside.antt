-- ===== src/Spec/Paths/Inside.antt =====
-- What EscapesRoot rules out: a cleaned path that passes it has no `..` segment left.
use sloff.Prelude.{
  ==-cases, All, Bool, Bool-cases, In, List, Str, Str_Eq, [], ap, false, has_prefix, if◌then◌else◌,
  inl, inr, nat_Eq, nat_eq, refl, reverse, str_eq, sym, true, ℕ, ◌++◌, ◌||◌, ◌∙◌, ◌∷◌, ◌≡◌, ◌≢◌,
  ◌⊎◌,
}
use mathlib.Core.List.{reverse-append}
use sloff.Spec.Paths.{
  segments, join_segments, clean, escapes_root, slash, dot, dot_dot, back_up, push_segment,
  clean_stack,
}

-- No segment but a block of `..` at the bottom of the stack is `..`.
abbrev Normal : List Str → Type 0
Normal [] = Unit
Normal (s ∷ stack) = ((s ≡ dot_dot) × All (λ t. t ≡ dot_dot) stack) ⊎ ((s ≢ dot_dot) × Normal stack)

Normal-of_All : (stack : List Str) → All (λ t. t ≡ dot_dot) stack → Normal stack
Normal-of_All [] h = tt
Normal-of_All (s ∷ stack) h = inl (h.0, h.1)

Normal-tail : (s : Str) (stack : List Str) → Normal (s ∷ stack) → Normal stack
Normal-tail s stack (inl (e, h)) = Normal-of_All stack h
Normal-tail s stack (inr (n, h)) = h

back_up-Normal : (rooted : Bool) (stack : List Str) → Normal stack → Normal (back_up rooted stack)
unfolding back_up
back_up-Normal true [] h = tt
back_up-Normal false [] h = inl (refl, tt)
back_up-Normal rooted (s ∷ stack) h = elim (==-cases s dot_dot) [
  | inl (same, t) ↦
      rw t (elim h [ inl (e, ups) ↦ inl (refl, (e, ups)) | inr (n, _) ↦ absurd (n same) ])
  | inr (other, f) ↦ rw f (Normal-tail s stack h)
]

push_segment-Normal :
    (rooted : Bool) (stack : List Str) (s : Str)
    → Normal stack
    → Normal (push_segment rooted stack s)
unfolding push_segment
push_segment-Normal rooted stack s h = elim (Bool-cases (str_eq s [] || str_eq s dot)) [
  | inl t ↦ rw t h
  | inr f ↦ rw f (elim (==-cases s dot_dot) [
    | inl (same, t) ↦ rw t (back_up-Normal rooted stack h)
    | inr (other, g) ↦ rw g (inr (other, h))
  ])
]

clean_stack-Normal :
    (rooted : Bool) (stack ss : List Str) → Normal stack → Normal (clean_stack rooted stack ss)
unfolding clean_stack
clean_stack-Normal rooted stack [] h = h
clean_stack-Normal rooted stack (s ∷ ss) h =
    clean_stack-Normal rooted (push_segment rooted stack s) ss
      (push_segment-Normal rooted stack s h)

-- A stack with a `..` in it has one at its bottom.
Normal-bottom :
    (stack : List Str)
    → Normal stack
    → In dot_dot stack
    → (rest : List Str) × (stack ≡ rest ++ dot_dot ∷ [])
Normal-bottom (s ∷ []) h (inl e) = ([], ap (λ t. t ∷ []) (sym e))
Normal-bottom (s ∷ []) h (inr m) = absurd m
Normal-bottom [] h m = absurd m
Normal-bottom (s ∷ t ∷ stack) (inl (e, ups)) m =
    let (rest, same) =
      Normal-bottom (t ∷ stack) (Normal-of_All (t ∷ stack) ups) (inl (sym ups.0)) in
    (s ∷ rest, ap (λ l. s ∷ l) same)
Normal-bottom (s ∷ t ∷ stack) (inr (n, h)) (inl e) = absurd (n (sym e))
Normal-bottom (s ∷ t ∷ stack) (inr (n, h)) (inr m) =
    let (rest, same) = Normal-bottom (t ∷ stack) h m in (s ∷ rest, ap (λ l. s ∷ l) same)

-- A joined list of segments that starts with `..` escapes.
up_escapes : (rest : List Str) → escapes_root (join_segments (dot_dot ∷ rest)) ≡ true
unfolding escapes_root join_segments has_prefix
up_escapes [] = refl
up_escapes (s ∷ rest) = refl

join_segments-up : (rest : List Str) → join_segments (dot_dot ∷ rest) ≢ []
unfolding join_segments
join_segments-up [] e = cc
join_segments-up (s ∷ rest) e = cc

-- path.Clean of a path that is not empty, by whether it is rooted.
assemble : List Str → Bool → Str
assemble ss rooted =
    let out = join_segments (reverse (clean_stack rooted [] ss)) in
    if rooted then slash ∷ out else elim out [ [] ↦ dot | b ∷ bs ↦ b ∷ bs ]

clean-assemble :
    (c : ℕ) (p : Str) → nat_eq c slash ≡ false → clean (c ∷ p) ≡ assemble (segments (c ∷ p)) false
unfolding clean assemble
clean-assemble c p relative = ap (assemble (segments (c ∷ p))) relative

assemble-up :
    (ss rest : List Str)
    → reverse (clean_stack false [] ss) ≡ dot_dot ∷ rest
    → assemble ss false ≡ join_segments (dot_dot ∷ rest)
unfolding assemble
assemble-up ss rest up =
    let out : join_segments (reverse (clean_stack false [] ss)) ≡ join_segments (dot_dot ∷ rest) =
      ap join_segments up in
    or_dot (join_segments (reverse (clean_stack false [] ss)))
      (λ e. join_segments-up rest (sym out ∙ e))
    ∙ out
  where
    or_dot : (o : Str) → o ≢ [] → ◌≡◌ {A = Str} (elim o [ [] ↦ dot | b ∷ bs ↦ b ∷ bs ]) o
    or_dot [] n = absurd (n refl)
    or_dot (b ∷ bs) n = refl

-- If a relative path, cleaned, does not escape the root, then what it resolves to has no `..` left: it
-- stays below the directory that it starts from.
pub clean-inside :
    (c : ℕ) (p : Str)
    → nat_eq c slash ≡ false
    → escapes_root (clean (c ∷ p)) ≡ false
    → ¬ In dot_dot (clean_stack false [] (segments (c ∷ p)))
clean-inside c p relative inside m =
    let stack = clean_stack false [] (segments (c ∷ p)) in
    let (rest, same) = Normal-bottom stack (clean_stack-Normal false [] (segments (c ∷ p)) tt) m in
    let up : reverse stack ≡ dot_dot ∷ reverse rest =
      ap reverse same ∙ reverse-append rest (dot_dot ∷ []) in
    let whole = clean-assemble c p relative ∙ assemble-up (segments (c ∷ p)) (reverse rest) up in
    let escapes = ap escapes_root whole ∙ up_escapes (reverse rest) in
    true_false (sym escapes ∙ inside)
  where
    true_false : true ≡ false → ⊥
    true_false e = cc
