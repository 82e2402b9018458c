-- ===== src/Fingerprint/Local/Filename.antt =====
-- The names of the record files: formatPrefix, looksLikeTimestamp and splitFilename.
use sloff.Prelude.{
  Bool, Bool-cases, In, Option, Option-cases, Str, Str_Eq, [], all, ap, append_assoc, append_of-cut,
  append_of-strip_suffix, arith, bytes, cut, cut-append, false, if◌then◌else◌, inl, inr, leb,
  length, ltb, nat_Eq, nat_eq, none, some, strip_suffix, strip_suffix-append, subst, suc, sym, true,
  zero, ℕ, ◌%◌, ◌&&◌, ◌++◌, ◌+◌, ◌-◌, ◌/◌, ◌↔◌, ◌∙◌, ◌∷◌, ◌≡◌, ◌≢◌, ◌≤◌,
}

-- A time.Time in UTC, as far as formatPrefix reads it.
pub record Time : Type 0 where
  pub year : ℕ
  pub month : ℕ
  pub day : ℕ
  pub hour : ℕ
  pub minute : ℕ
  pub second : ℕ
  pub nanosecond : ℕ

abbrev pub timestamp_width : ℕ
timestamp_width = 17

-- FileExt
abbrev pub file_ext : Str
file_ext = bytes ".pb"

abbrev pub dash : ℕ
dash = b'-'

unfoldable pub digit : ℕ → ℕ
digit d = 48 + d

-- The decimal digits of a number, with fuel for as many more as there can be.
unfoldable pub decimal : ℕ → ℕ → Str
unfolding digit
decimal zero n = digit (n % 10) ∷ []
decimal (suc fuel) n =
    let high = decimal fuel (n / 10) in
    if ltb n 10 then digit n ∷ [] else high ++ digit (n % 10) ∷ []

unfoldable pub zeros : ℕ → Str
zeros zero = []
zeros (suc n) = 48 ∷ zeros n

-- %0wd of fmt.Sprintf
unfoldable pub padded : ℕ → ℕ → Str
unfolding decimal zeros
padded w n = let ds = decimal n n in zeros (w - length ds) ++ ds

unfoldable pub format_prefix : Time → Str
unfolding padded
format_prefix t =
    padded 4 t.year
    ++ (padded 2 t.month
        ++ (padded 2 t.day
            ++ (padded 2 t.hour
                ++ (padded 2 t.minute
                    ++ (padded 2 t.second ++ padded 3 (t.nanosecond / 1000000))))))

unfoldable pub is_digit : ℕ → Bool
is_digit c = leb 48 c && leb c 57

unfoldable pub looks_like_timestamp : Str → Bool
unfolding is_digit
looks_like_timestamp s = nat_eq (length s) timestamp_width && all is_digit s

-- The parts around the dash, if it is neither the first nor the last byte.
accept : Option (Str × Str) → Option (Str × Str)
unfolding looks_like_timestamp
accept none = none
accept (some ([], h)) = none
accept (some (c ∷ prefix, [])) = none
accept (some (c ∷ prefix, d ∷ h)) =
    if looks_like_timestamp (c ∷ prefix) then some (c ∷ prefix, d ∷ h) else none

unfoldable pub split_filename : Str → Option (Str × Str)
unfolding strip_suffix cut accept
split_filename name = elim (strip_suffix name file_ext) [
  | none ↦ none
  | some stem ↦ accept (cut dash stem)
]

-- `prefix + "-" + key.InputHash + fingerprint.FileExt`
unfoldable pub file_name : Str → Str → Str
file_name prefix hash = prefix ++ (dash ∷ (hash ++ file_ext))

is_digit-bounds : (c : ℕ) → is_digit c ≡ true → (48 ≤ c) × (c ≤ 57)
unfolding is_digit
is_digit-bounds c h = ground arith

pub no_dash : (s : Str) → all is_digit s ≡ true → ¬ In dash s
unfolding all
no_dash [] h m = m
no_dash (c ∷ s) h m = elim m [
  | inl e ↦ let (low, _) = is_digit-bounds c (ground arith) in omega (arith, e)
  | inr k ↦ no_dash s (ground arith) k
]

pub looks-parts :
    (s : Str) → looks_like_timestamp s ≡ true → (length s ≡ 17) × (all is_digit s ≡ true)
unfolding looks_like_timestamp
looks-parts s h = ground arith

accept_iff :
    (o : Option (Str × Str)) (prefix hash : Str)
    → (accept o ≡ some (prefix, hash))
      ↔ ((o ≡ some (prefix, hash)) × (looks_like_timestamp prefix ≡ true) × (hash ≢ []))
unfolding accept
accept_iff none prefix hash = (λ h. cc, λ h. cc)
accept_iff (some ([], x)) prefix hash = (
  λ h. cc,
  λ h.
      let e : [] ≡ prefix = cc in
      let (l, _) = looks-parts prefix h.1 in absurd (omega (arith, l, ap length e)),
)
accept_iff (some (c ∷ p, [])) prefix hash =
    (λ h. cc, λ h. absurd (h.2 (let e : [] ≡ hash = cc in sym e)))
accept_iff (some (c ∷ p, d ∷ x)) prefix hash = elim (Bool-cases (looks_like_timestamp (c ∷ p))) [
  | inl t ↦ rw t (
    λ h.
        let a : c ∷ p ≡ prefix = cc in
        let b : d ∷ x ≡ hash = cc in
        (
          h,
          subst (λ q. looks_like_timestamp q ≡ true) a t,
          λ e. let bad : d ∷ x ≡ [] = b ∙ e in cc,
        ),
    λ h. h.0,
  )
  | inr f ↦ rw f (
    λ h. cc,
    λ h.
        let a : c ∷ p ≡ prefix = cc in
        let bad : true ≡ false = sym h.1 ∙ ap looks_like_timestamp (sym a) ∙ f in cc,
  )
]

-- splitFilename accepts exactly the names made of a timestamp of 17 digits, a dash, a hash that is not
-- empty and the extension, and returns the timestamp and the hash.
pub split_filename_iff :
    (name prefix hash : Str)
    → (split_filename name ≡ some (prefix, hash))
      ↔ ((name ≡ file_name prefix hash) × (looks_like_timestamp prefix ≡ true) × (hash ≢ []))
unfolding split_filename file_name
split_filename_iff name prefix hash = (
  λ h. elim (Option-cases (strip_suffix name file_ext)) [
    | inl e ↦ let bad : none ≡ some (prefix, hash) = rw (e, split_filename) at h in cc
    | inr (stem, e) ↦
        let k : accept (cut dash stem) ≡ some (prefix, hash) = rw (e, split_filename) at h in
        let (found, t, n) = (accept_iff (cut dash stem) prefix hash).0 k in
        (
          append_of-strip_suffix name file_ext stem e
              ∙ ap (λ l. l ++ file_ext) (append_of-cut dash stem prefix hash found)
              ∙ append_assoc prefix (dash ∷ hash) file_ext,
          t,
          n,
        )
  ],
  λ h.
      let stem = strip_suffix-append (prefix ++ dash ∷ hash) file_ext in
      let whole : strip_suffix name file_ext ≡ some (prefix ++ dash ∷ hash) =
        ap (λ l. strip_suffix l file_ext) (h.0 ∙ sym (append_assoc prefix (dash ∷ hash) file_ext))
        ∙ stem in
      let parts = cut-append dash prefix hash (no_dash prefix (looks-parts prefix h.1).1) in
      rw (whole, split_filename) ((accept_iff _ prefix hash).1 (parts, h.1, h.2)),
)
