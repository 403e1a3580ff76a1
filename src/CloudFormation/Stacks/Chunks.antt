-- ===== src/CloudFormation/Stacks/Chunks.antt =====
-- The chunks of a list (`chunkStrings`).
use empire.Prelude.{
  ℕ, zero, suc, ◌≤◌, ◌<◌, ◌≡◌, refl, ap, List, [], ◌∷◌, ◌++◌, arith, length, take, drop, All,
}
use empire.Prelude.Text.{Text}
use empire.CloudFormation.Stacks.{chunk_strings, chunks}

abbrev pub concat : List (List Text) → List Text
concat [] = []
concat (c ∷ cs) = c ++ concat cs

-- A chunk of at least one text and at most `size`.
abbrev pub IsChunk : ℕ → List Text → Type 0
IsChunk size c = (1 ≤ length c) × (length c ≤ size)

take-append-drop : (n : ℕ) (s : List Text) → take n s ++ drop n s ≡ s
take-append-drop zero s = refl
take-append-drop (suc n) [] = refl
take-append-drop (suc n) (x ∷ s) = ap (◌∷◌ x) (take-append-drop n s)

length-take : (n : ℕ) (s : List Text) → length (take n s) ≤ n
length-take zero s = omega arith
length-take (suc n) [] = omega arith
length-take (suc n) (x ∷ s) = omega (arith, length-take n s)

length-drop : (n : ℕ) (s : List Text) → length (drop n s) ≤ length s
length-drop zero s = omega arith
length-drop (suc n) [] = omega arith
length-drop (suc n) (x ∷ s) = omega (arith, length-drop n s)

chunks_lem :
    (rounds : ℕ) (s : List Text) (n : ℕ)
    → length s ≤ rounds
    → (concat (chunks rounds s (suc n)) ≡ s) × All (IsChunk (suc n)) (chunks rounds s (suc n))
unfolding chunks
chunks_lem zero [] n h = (refl, tt)
chunks_lem zero (x ∷ s) n h = absurd (omega arith)
chunks_lem (suc rounds) [] n h = (refl, tt)
chunks_lem (suc rounds) (x ∷ s) n h =
    let (e, a) = chunks_lem rounds (drop n s) n (omega (arith, length-drop n s)) in
    (ap (◌∷◌ x) (rw e (take-append-drop n s)), ((omega arith, omega (arith, length-take n s)), a))

-- The loop ends after at most as many turns as there are texts: the chunks make up the list, in
-- order, and each has at least one text and at most `size`, if `size` is positive.
pub chunk_strings_total :
    (s : List Text) (size : ℕ)
    → 0 < size
    → (concat (chunk_strings s size) ≡ s) × All (IsChunk size) (chunk_strings s size)
unfolding chunk_strings
chunk_strings_total s zero h = absurd (omega arith)
chunk_strings_total s (suc n) h = chunks_lem (length s) s n (omega arith)
