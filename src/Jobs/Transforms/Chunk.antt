-- ===== src/Jobs/Transforms/Chunk.antt =====
-- `ChunkTransform`: several events for a list or a text. `tokens` stands for `_approx_tokens`, and
-- `cut` for the slices of a text, by their width.
pub mod Pieces
use ujin.Prelude.{
  List, Option, Result, String, [], drop, if◌then◌else◌, length, ltb, map, max, none, ok, raise,
  some, str_eq, suc, take, type_error, zero, ℕ, ◌*◌, ◌++◌, ◌+◌, ◌>>=◌, ◌∷◌,
}
use ujin.Jobs.Value.{Value, null, number, str, arr, obj, Fields, put_field, to_list, of_list}
use ujin.Jobs.Dotted.{Part, dotted_get, dotted_set}
use ujin.Float.{FloatOps, lit}

-- Exactly one of `size` and `token_budget` is used; without either, `size` is 100.
pub record Chunk : Type 0 where
  pub path : List Part
  pub size : Option ℕ
  pub token_budget : Option ℕ

unfoldable pub init : List Part → Option ℕ → Option ℕ → Chunk
init path none none = record { path = path; size = some 100; token_budget = none }
init path size token_budget = record { path = path; size = size; token_budget = token_budget }

module _ {ℓ} {A : Type ℓ} where
  -- [target[i:i + size] for i in range(0, len(target), size)], on fuel
  unfoldable pub slices : ℕ → ℕ → List A → List (List A)
  slices zero size xs = []
  slices (suc fuel) size [] = []
  slices (suc fuel) size (x ∷ xs) = take size (x ∷ xs) ∷ slices fuel size (drop size (x ∷ xs))

  -- the loop that packs items until the budget is hit; `tokens` stands for `_approx_tokens`
  unfoldable pub pack : (A → ℕ) → ℕ → List A → ℕ → List A → List (List A)
  pack tokens budget cur cur_tok [] = elim cur [ [] ↦ [] | a ∷ r ↦ (a ∷ r) ∷ [] ]
  pack tokens budget [] cur_tok (x ∷ xs) = pack tokens budget (x ∷ []) (cur_tok + tokens x) xs
  pack tokens budget (c ∷ cur) cur_tok (x ∷ xs) =
      let fresh : List (List A) = pack tokens budget (x ∷ []) (0 + tokens x) xs in
      let longer : List (List A) =
        pack tokens budget ((c ∷ cur) ++ (x ∷ [])) (cur_tok + tokens x) xs in
      if ltb budget (cur_tok + tokens x) then (c ∷ cur) ∷ fresh else longer

-- `max(1, int(self.size))`; a size that is not there raises
unfoldable pub width : Option ℕ → Result ℕ
width none = raise type_error
width (some n) = ok (max 1 n)

-- a budget of 0 counts as none
unfoldable pub budget_of : Option ℕ → Option ℕ
budget_of none = none
budget_of (some zero) = none
budget_of (some (suc n)) = some (suc n)

-- `_split` on a list
unfoldable pub split_list : (Value → ℕ) → Chunk → List Value → Result (List (List Value))
unfolding width budget_of
split_list tokens c [] = ok []
split_list tokens c (x ∷ xs) = elim (budget_of c.token_budget) [
  | some budget ↦ ok (pack tokens budget [] 0 (x ∷ xs))
  | none ↦ do size ← width c.size; ok (slices (length (x ∷ xs)) size (x ∷ xs))
]

split_text : (ℕ → String → List String) → Chunk → String → Result (List String)
unfolding width budget_of
split_text cut c s = if str_eq s "" then ok [] else elim (budget_of c.token_budget) [
  | some budget ↦ ok (cut (budget * 4) s)
  | none ↦ do size ← width c.size; ok (cut size s)
]

-- `_split`, each piece as the value that is written back
unfoldable pub split :
    (Value → ℕ) → (ℕ → String → List String) → Chunk → Value → Result (List Value)
unfolding split_text
split tokens cut c (arr xs) = do
  lists ← split_list tokens c (to_list xs)
  ok (map (λ piece. arr (of_list piece)) lists)
split tokens cut c (str s) = do texts ← split_text cut c s; ok (map str texts)
split tokens cut c _ = ok []

module _ ⦃F : FloatOps⦄ where
  -- the events for the pieces from the `i`-th on
  unfoldable pub pieces : Chunk → Fields → ℕ → ℕ → List Value → List Fields
  pieces c event total i [] = []
  pieces c event total i (piece ∷ rest) =
      put_field "chunk_total" (number (lit total 1))
        (put_field "chunk_index" (number (lit i 1)) (dotted_set event c.path piece))
      ∷ pieces c event total (i + 1) rest

  unfoldable pub apply :
      (Value → ℕ) → (ℕ → String → List String) → Chunk → Fields → Result (List Fields)
  apply tokens cut c event = do
    chunks ← split tokens cut c (dotted_get (obj event) c.path)
    elim chunks [
      | [] ↦ ok (event ∷ [])
      | piece ∷ rest ↦ ok (pieces c event (length (piece ∷ rest)) 0 (piece ∷ rest))
    ]
