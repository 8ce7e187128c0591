-- ===== src/Jobs/Transforms/Chunk/Pieces.antt =====
-- Chunking loses and repeats nothing.
use ujin.Prelude.{
  All, Bool-cases, List, [], arith, drop, inl, inr, length, length-append, length-drop, length-take,
  ltb, refl, suc, take-append-drop, zero, ℕ, ◌++◌, ◌+◌, ◌∙◌, ◌∷◌, ◌≡◌, ◌≤◌, ◌⊎◌,
}
use mathlib.Core.List.{append_assoc}
use ujin.Jobs.Transforms.Chunk.{slices, pack}

module _ {ℓ} {A : Type ℓ} where
  abbrev pub join : List (List A) → List A
  join [] = []
  join (xs ∷ rest) = xs ++ join rest

  -- The slices of a list have between 1 and `size` items each, and joined in order they are the list
  -- again; as many rounds as the list has items are enough.
  pub slices_lem :
      (fuel size : ℕ) (xs : List A)
      → 1 ≤ size
      → length xs ≤ fuel
      → (join (slices fuel size xs) ≡ xs)
        × All (λ piece. (1 ≤ length piece) × (length piece ≤ size)) (slices fuel size xs)
  unfolding slices
  slices_lem zero size [] p h = (refl, tt)
  slices_lem zero size (x ∷ xs) p h = absurd (omega arith)
  slices_lem (suc fuel) size [] p h = (refl, tt)
  slices_lem (suc fuel) size (x ∷ xs) p h =
      let l = length-take size (x ∷ xs) in
      let (joined, sizes) =
        slices_lem fuel size (drop size (x ∷ xs)) p (omega (arith, length-drop size (x ∷ xs))) in
      (rw joined (take-append-drop size (x ∷ xs)), ((omega (arith, l), omega (arith, l)), sizes))

  -- what the items of a chunk weigh
  abbrev pub weight : (A → ℕ) → List A → ℕ
  weight tokens [] = 0
  weight tokens (x ∷ xs) = tokens x + weight tokens xs

  weight-append :
      (tokens : A → ℕ) (xs ys : List A)
      → weight tokens (xs ++ ys) ≡ weight tokens xs + weight tokens ys
  weight-append tokens [] ys = omega arith
  weight-append tokens (x ∷ xs) ys = omega (arith, weight-append tokens xs ys)

  -- A chunk is within the budget, or it is a single item.
  abbrev pub Fits : (A → ℕ) → ℕ → List A → Type 0
  Fits tokens budget piece =
      (1 ≤ length piece) × ((weight tokens piece ≤ budget) ⊎ (length piece ≡ 1))

  packed :
      (tokens : A → ℕ) (budget : ℕ) (c : A) (cur : List A) (cur_tok : ℕ)
      → cur_tok ≡ weight tokens (c ∷ cur)
      → (c ∷ cur ≡ []) ⊎ Fits tokens budget (c ∷ cur)
      → Fits tokens budget (c ∷ cur)
  packed tokens budget c cur w e (inl never) = cc
  packed tokens budget c cur w e (inr f) = f

  pack_from :
      (tokens : A → ℕ) (budget : ℕ) (cur : List A) (cur_tok : ℕ) (xs : List A)
      → cur_tok ≡ weight tokens cur
      → (cur ≡ []) ⊎ Fits tokens budget cur
      → (join (pack tokens budget cur cur_tok xs) ≡ cur ++ xs)
        × All (Fits tokens budget) (pack tokens budget cur cur_tok xs)
  unfolding pack
  pack_from tokens budget [] w [] e f = (refl, tt)
  pack_from tokens budget (c ∷ cur) w [] e f = (refl, (packed tokens budget c cur w e f, tt))
  pack_from tokens budget [] w (x ∷ xs) e f =
      pack_from tokens budget (x ∷ []) (w + tokens x) xs (omega arith) (inr (omega arith, inr refl))
  pack_from tokens budget (c ∷ cur) w (x ∷ xs) e f = elim (Bool-cases (ltb budget (w + tokens x))) [
    | inl over ↦
        let (joined, fit) =
          pack_from tokens budget (x ∷ []) (0 + tokens x) xs (omega arith)
            (inr (omega arith, inr refl)) in
        rw over (rw joined, (packed tokens budget c cur w e f, fit))
    | inr under ↦
        let longer : List A = (c ∷ cur) ++ (x ∷ []) in
        let w' : w + tokens x ≡ weight tokens longer =
          omega (arith, weight-append tokens (c ∷ cur) (x ∷ [])) in
        let l = length-append (c ∷ cur) (x ∷ []) in
        let light : weight tokens longer ≤ budget = ground arith in
        let (joined, fit) =
          pack_from tokens budget longer (w + tokens x) xs w' (inr (omega (arith, l), inl light)) in
        rw under (joined ∙ append_assoc (c ∷ cur) (x ∷ []) xs, fit)
  ]

  -- Packing by a token budget keeps every item, in order. Each chunk has an item, and is within the
  -- budget unless it is a single item.
  pub pack_lem :
      (tokens : A → ℕ) (budget : ℕ) (xs : List A)
      → (join (pack tokens budget [] 0 xs) ≡ xs)
        × All (Fits tokens budget) (pack tokens budget [] 0 xs)
  pack_lem tokens budget xs = pack_from tokens budget [] 0 xs refl (inl refl)
