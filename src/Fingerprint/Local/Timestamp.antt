-- ===== src/Fingerprint/Local/Timestamp.antt =====
-- The prefixes of the names against the times that they stand for.
use sloff.Prelude.{
  Bool, Bool-cases, List, Str, Str_Eq, [], all, ap, append-nil, append_assoc, arith, false,
  if◌then◌else◌, inl, inr, length, length-append, ltb, nat_Eq, refl, str_ltb, suc, sym, true, zero,
  ℕ, ◌%◌, ◌*◌, ◌++◌, ◌+◌, ◌-◌, ◌/◌, ◌<◌, ◌∙◌, ◌∷◌, ◌≡◌, ◌≤◌,
}
use sloff.Fingerprint.Local.Filename.{
  Time, digit, decimal, zeros, padded, format_prefix, is_digit, looks_like_timestamp,
}

pow10 : ℕ → ℕ
pow10 zero = 1
pow10 (suc w) = 10 * pow10 w

-- The last w digits of a number.
fixed : ℕ → ℕ → Str
unfolding digit
fixed zero n = []
fixed (suc w) n = fixed w (n / 10) ++ digit (n % 10) ∷ []

length-fixed : (w n : ℕ) → length (fixed w n) ≡ w
unfolding fixed
length-fixed zero n = refl
length-fixed (suc w) n =
    omega (arith, length-append (fixed w (n / 10)) (digit (n % 10) ∷ []), length-fixed w (n / 10))

all-append : (p : ℕ → Bool) (s t : Str) → all p s ≡ true → all p t ≡ true → all p (s ++ t) ≡ true
unfolding all
all-append p [] t h k = k
all-append p (c ∷ s) t h k = ground (arith, all-append p s t)

fixed-digits : (w n : ℕ) → all is_digit (fixed w n) ≡ true
unfolding fixed all is_digit digit
fixed-digits zero n = refl
fixed-digits (suc w) n =
    all-append is_digit (fixed w (n / 10)) (digit (n % 10) ∷ []) (fixed-digits w (n / 10))
      (ground arith)

zeros-snoc : (w : ℕ) → zeros w ++ 48 ∷ [] ≡ zeros (suc w)
unfolding zeros
zeros-snoc zero = refl
zeros-snoc (suc w) = ap (◌∷◌ 48) (zeros-snoc w)

fixed-zero : (w : ℕ) → fixed w 0 ≡ zeros w
unfolding fixed zeros
fixed-zero zero = refl
fixed-zero (suc w) = ap (λ l. l ++ 48 ∷ []) (fixed-zero w) ∙ zeros-snoc w

one_digit :
    (w n : ℕ) → n < 10 → zeros (suc w - 1) ++ digit n ∷ [] ≡ fixed w (n / 10) ++ digit (n % 10) ∷ []
one_digit w n l =
    let high : n / 10 ≡ 0 = omega arith in
    let low : n % 10 ≡ n = omega arith in
    let all_zero : suc w - 1 ≡ w = omega arith in rw (high, low, all_zero, fixed-zero w) refl

decimal-fixed :
    (w fuel n : ℕ)
    → n ≤ fuel
    → n < pow10 (suc w)
    → (length (decimal fuel n) ≤ suc w)
      × (zeros (suc w - length (decimal fuel n)) ++ decimal fuel n ≡ fixed (suc w) n)
unfolding decimal fixed pow10
decimal-fixed w zero n enough small =
    let none_left : n ≡ 0 = omega arith in (omega arith, rw none_left (one_digit w 0 (omega arith)))
decimal-fixed zero (suc fuel) n enough small =
    let one : n < 10 = omega arith in
    let t : ltb n 10 ≡ true = ground arith in rw t (omega arith, one_digit zero n one)
decimal-fixed (suc w) (suc fuel) n enough small = elim (Bool-cases (ltb n 10)) [
  | inl t ↦ rw t (omega arith, one_digit (suc w) n (ground arith))
  | inr f ↦
      let more : 10 ≤ n = ground arith in
      let (short, same) = decimal-fixed w fuel (n / 10) (omega arith) (omega arith) in
      let ds = decimal fuel (n / 10) in
      let d = digit (n % 10) in
      let long = length-append ds (d ∷ []) in
      let zeros_left : suc (suc w) - length (ds ++ d ∷ []) ≡ suc w - length ds =
        omega (arith, long) in
      rw f (
        omega (arith, long, short),
        ap (λ k. zeros k ++ (ds ++ d ∷ [])) zeros_left
            ∙ sym (append_assoc (zeros (suc w - length ds)) ds (d ∷ []))
            ∙ ap (λ l. l ++ d ∷ []) same,
      )
]

padded-fixed : (w n : ℕ) → n < pow10 (suc w) → padded (suc w) n ≡ fixed (suc w) n
unfolding padded
padded-fixed w n small = (decimal-fixed w n n (omega arith) small).1

str_ltb-append :
    (a b x y : Str)
    → length a ≡ length b
    → str_ltb (a ++ x) (b ++ y)
      ≡ (if str_ltb a b then true else if str_ltb b a then false else str_ltb x y)
unfolding str_ltb
str_ltb-append [] [] x y h = refl
str_ltb-append [] (d ∷ b) x y h = absurd (omega (arith, h))
str_ltb-append (c ∷ a) [] x y h = absurd (omega (arith, h))
str_ltb-append (c ∷ a) (d ∷ b) x y h = ground (arith, str_ltb-append a b x y (omega (arith, h)))

fixed-order : (w m n : ℕ) → m < pow10 w → n < pow10 w → str_ltb (fixed w m) (fixed w n) ≡ ltb m n
unfolding fixed pow10 str_ltb digit
fixed-order zero m n h k = ground arith
fixed-order (suc w) m n h k =
    let high = fixed-order w (m / 10) (n / 10) (omega arith) (omega arith) in
    let low = fixed-order w (n / 10) (m / 10) (omega arith) (omega arith) in
    let same : length (fixed w (m / 10)) ≡ length (fixed w (n / 10)) =
      length-fixed w _ ∙ sym (length-fixed w _) in
    str_ltb-append (fixed w (m / 10)) (fixed w (n / 10)) (digit (m % 10) ∷ []) (digit (n % 10) ∷ [])
      same
    ∙ rw (high, low) (ground arith)

-- The fields that the prefix prints, the most significant first.
abbrev pub fields : Time → List ℕ
fields t = t.year ∷ t.month ∷ t.day ∷ t.hour ∷ t.minute ∷ t.second ∷ (t.nanosecond / 1000000) ∷ []

-- A time of the calendar, in a year of at most four digits.
pub record IsCalendar (t : Time) : Type 0 where
  pub year_ok : t.year ≤ 9999
  pub month_ok : t.month ≤ 12
  pub day_ok : t.day ≤ 31
  pub hour_ok : t.hour ≤ 23
  pub minute_ok : t.minute ≤ 59
  pub second_ok : t.second ≤ 59
  pub nanosecond_ok : t.nanosecond < 1000000000

total : List ℕ → ℕ
total [] = 0
total (w ∷ ws) = w + total ws

columns : List ℕ → List ℕ → Str
columns [] ns = []
columns (w ∷ ws) [] = []
columns (w ∷ ws) (n ∷ ns) = fixed w n ++ columns ws ns

Fits : List ℕ → List ℕ → Type 0
Fits [] [] = Unit
Fits [] (n ∷ ns) = ⊥
Fits (w ∷ ws) [] = ⊥
Fits (w ∷ ws) (n ∷ ns) = (n < pow10 w) × Fits ws ns

columns-order :
    (ws ms ns : List ℕ)
    → Fits ws ms
    → Fits ws ns
    → str_ltb (columns ws ms) (columns ws ns) ≡ str_ltb ms ns
unfolding columns Fits str_ltb
columns-order [] [] [] f g = refl
columns-order [] (m ∷ ms) ns f g = absurd f
columns-order [] [] (n ∷ ns) f g = absurd g
columns-order (w ∷ ws) [] ns f g = absurd f
columns-order (w ∷ ws) (m ∷ ms) [] f g = absurd g
columns-order (w ∷ ws) (m ∷ ms) (n ∷ ns) f g =
    str_ltb-append (fixed w m) (fixed w n) (columns ws ms) (columns ws ns)
      (length-fixed w m ∙ sym (length-fixed w n))
    ∙ rw (fixed-order w m n f.0 g.0, fixed-order w n m g.0 f.0, columns-order ws ms ns f.1 g.1) refl

abbrev widths : List ℕ
widths = 4 ∷ 2 ∷ 2 ∷ 2 ∷ 2 ∷ 2 ∷ 3 ∷ []

fields-Fits : (t : Time) → IsCalendar t → Fits widths (fields t)
unfolding Fits pow10
fields-Fits t c = (
  omega (arith, c.year_ok),
  (
    omega (arith, c.month_ok),
    (
      omega (arith, c.day_ok),
      (
        omega (arith, c.hour_ok),
        (
          omega (arith, c.minute_ok),
          (omega (arith, c.second_ok), (omega (arith, c.nanosecond_ok), tt)),
        ),
      ),
    ),
  ),
)

columns-widths : (t : Time) → IsCalendar t → format_prefix t ≡ columns widths (fields t)
unfolding columns format_prefix pow10
columns-widths t c =
    rw
      (
        padded-fixed 3 t.year (omega (arith, c.year_ok)),
        padded-fixed 1 t.month (omega (arith, c.month_ok)),
        padded-fixed 1 t.day (omega (arith, c.day_ok)),
        padded-fixed 1 t.hour (omega (arith, c.hour_ok)),
        padded-fixed 1 t.minute (omega (arith, c.minute_ok)),
        padded-fixed 1 t.second (omega (arith, c.second_ok)),
        padded-fixed 2 (t.nanosecond / 1000000) (omega (arith, c.nanosecond_ok)),
        append-nil (fixed 3 (t.nanosecond / 1000000)),
      )
      refl

length-columns : (ws ns : List ℕ) → Fits ws ns → length (columns ws ns) ≡ total ws
unfolding columns Fits total
length-columns [] [] f = refl
length-columns [] (n ∷ ns) f = absurd f
length-columns (w ∷ ws) [] f = absurd f
length-columns (w ∷ ws) (n ∷ ns) f =
    omega
      (arith, length-append (fixed w n) (columns ws ns), length-fixed w n, length-columns ws ns f.1)

columns-digits : (ws ns : List ℕ) → all is_digit (columns ws ns) ≡ true
unfolding columns all
columns-digits [] ns = refl
columns-digits (w ∷ ws) [] = refl
columns-digits (w ∷ ws) (n ∷ ns) =
    all-append is_digit (fixed w n) (columns ws ns) (fixed-digits w n) (columns-digits ws ns)

-- The prefix of every time in a year of at most four digits has the shape that the backend looks for.
pub looks_like-format_prefix :
    (t : Time) → IsCalendar t → looks_like_timestamp (format_prefix t) ≡ true
unfolding looks_like_timestamp total
looks_like-format_prefix t c =
    let long = length-columns widths (fields t) (fields-Fits t c) in
    let digits = columns-digits widths (fields t) in
    rw (columns-widths t c) (ground (arith, long, digits))

-- Between times in years of at most four digits, prefixes stand in the order of the strings exactly as
-- the times stand in the order of the calendar, down to the millisecond.
pub format_prefix-order :
    (a b : Time)
    → IsCalendar a
    → IsCalendar b
    → str_ltb (format_prefix a) (format_prefix b) ≡ str_ltb (fields a) (fields b)
format_prefix-order a b c d =
    rw (columns-widths a c, columns-widths b d)
      (columns-order widths (fields a) (fields b) (fields-Fits a c) (fields-Fits b d))
