-- ===== src/Fingerprint/Dynamo/Chunks.antt =====
-- chunkKeys and chunkItems: the batches that the API allows.
use sloff.Prelude.{
  All, List, Str_Eq, [], ap, arith, false, if◌then◌else◌, length, nat_Eq, nat_eq, refl, suc, zero,
  ℕ, ◌++◌, ◌<◌, ◌∙◌, ◌∷◌, ◌≡◌, ◌≤◌,
}

module _ {A : Type 0} where
  -- `in[:n]` and `in[n:]`, with n cut off at the length.
  abbrev pub take : ℕ → List A → List A
  take zero xs = []
  take (suc n) [] = []
  take (suc n) (x ∷ xs) = x ∷ take n xs

  abbrev pub drop : ℕ → List A → List A
  drop zero xs = xs
  drop (suc n) [] = []
  drop (suc n) (x ∷ xs) = drop n xs

  -- The loop over i, with fuel for one round for each element.
  unfoldable pub chunk_loop : ℕ → ℕ → List A → List (List A)
  chunk_loop fuel size [] = []
  chunk_loop zero size (x ∷ xs) = []
  chunk_loop (suc fuel) size (x ∷ xs) =
      take size (x ∷ xs) ∷ chunk_loop fuel size (drop size (x ∷ xs))

  -- chunkKeys and chunkItems for the type of the elements.
  unfoldable pub chunk : List A → ℕ → List (List A)
  unfolding chunk_loop
  chunk xs size = if nat_eq size 0 then xs ∷ [] else chunk_loop (length xs) size xs

  abbrev pub concat : List (List A) → List A
  concat [] = []
  concat (xs ∷ xss) = xs ++ concat xss

  take-drop : (n : ℕ) (xs : List A) → take n xs ++ drop n xs ≡ xs
  take-drop zero xs = refl
  take-drop (suc n) [] = refl
  take-drop (suc n) (x ∷ xs) = ap (◌∷◌ x) (take-drop n xs)

  length-take : (n : ℕ) (xs : List A) → length (take n xs) ≤ n
  length-take zero xs = omega arith
  length-take (suc n) [] = omega arith
  length-take (suc n) (x ∷ xs) = omega (arith, length-take n xs)

  length-drop : (n : ℕ) (xs : List A) → length (drop n xs) ≤ length xs
  length-drop zero xs = omega arith
  length-drop (suc n) [] = omega arith
  length-drop (suc n) (x ∷ xs) = omega (arith, length-drop n xs)

  chunk_loop-whole :
      (fuel size : ℕ) (xs : List A)
      → length xs ≤ fuel
      → 0 < size
      → (concat (chunk_loop fuel size xs) ≡ xs)
        × All (λ c. (1 ≤ length c) × (length c ≤ size)) (chunk_loop fuel size xs)
  unfolding chunk_loop
  chunk_loop-whole fuel size [] enough pos = (refl, tt)
  chunk_loop-whole zero size (x ∷ xs) enough pos = absurd (omega arith)
  chunk_loop-whole (suc fuel) zero (x ∷ xs) enough pos = absurd (omega arith)
  chunk_loop-whole (suc fuel) (suc n) (x ∷ xs) enough pos =
      let (whole, within) =
        chunk_loop-whole fuel (suc n) (drop n xs) (omega (arith, length-drop n xs)) pos in
      (
        ap (◌∷◌ x) (ap (λ l. take n xs ++ l) whole ∙ take-drop n xs),
        ((omega arith, omega (arith, length-take n xs)), within),
      )

  -- For a positive size, the chunks are the list in pieces, each with at least one element and at most
  -- as many as the size.
  pub chunk-whole :
      (xs : List A) (size : ℕ)
      → 0 < size
      → (concat (chunk xs size) ≡ xs)
        × All (λ c. (1 ≤ length c) × (length c ≤ size)) (chunk xs size)
  unfolding chunk
  chunk-whole xs size pos =
      let f : nat_eq size 0 ≡ false = ground arith in
      rw (f, chunk) (chunk_loop-whole (length xs) size xs (omega arith) pos)
