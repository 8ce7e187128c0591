-- ===== src/Jobs/Transforms/Flatten.antt =====
-- `FlattenTransform`: one event for each item of a list.
use ujin.Prelude.{
  Bool-cases, List, Option, String, [], arith, false, if◌then◌else◌, inl, inr, map, none, refl,
  some, str_eq, ℕ, ◌+◌, ◌∷◌, ◌≡◌, ◌≢◌,
}
use mathlib.Core.Path.{ap₂}
use ujin.Jobs.Value.{
  Items, Value, number, arr, obj, Fields, put_field, field_of, field_of-put_field, to_list,
}
use ujin.Jobs.Dotted.{Part, dotted_get, dotted_set}
use ujin.Jobs.Dotted.Paths.{dotted_get-dotted_set}
use ujin.Float.{FloatOps, lit}

pub record Flatten : Type 0 where
  pub path : List Part
  pub index : Option String

module _ ⦃F : FloatOps⦄ where
  numbered : Option String → ℕ → Fields → Fields
  numbered none i event = event
  numbered (some name) i event =
      if str_eq name "" then event else put_field name (number (lit i 1)) event

  unfoldable pub spread : Flatten → Fields → ℕ → List Value → List Fields
  unfolding numbered
  spread f event i [] = []
  spread f event i (item ∷ rest) =
      numbered f.index i (dotted_set event f.path item) ∷ spread f event (i + 1) rest

  unfoldable pub flatten : Flatten → Fields → Value → List Fields
  flatten f event (arr xs) = spread f event 0 (to_list xs)
  flatten f event _ = event ∷ []

  unfoldable pub apply : Flatten → Fields → List Fields
  unfolding flatten
  apply f event = flatten f event (dotted_get (obj event) f.path)

  passes :
      (f : Flatten) (event : Fields) (v : Value)
      → ((items : Items) → v ≢ arr items)
      → flatten f event v ≡ event ∷ []
  unfolding flatten
  passes f event (arr xs) other = absurd (other xs refl)
  passes f event _ other = refl

  read_numbered :
      (index : Option String) (i : ℕ) (event : Fields) (p : Part) (rest : List Part) (item : Value)
      → ((name : String) → index ≡ some name → str_eq name p.text ≡ false)
      → dotted_get (obj (numbered index i (dotted_set event (p ∷ rest) item))) (p ∷ rest) ≡ item
  unfolding numbered
  read_numbered none i event p rest item apart = dotted_get-dotted_set event p rest item
  read_numbered (some name) i event p rest item apart = elim (Bool-cases (str_eq name "")) [
    | inl empty ↦ rw empty (dotted_get-dotted_set event p rest item)
    | inr there ↦
        let written : Fields = dotted_set event (p ∷ rest) item in
        let same : field_of p.text (put_field name (number (lit i 1)) written)
            ≡ field_of p.text written =
          ground
            (arith, field_of-put_field name p.text (number (lit i 1)) written, apart name refl) in
        rw there (unfold dotted_get in rw same (dotted_get-dotted_set event p rest item))
  ]

  read_spread :
      (index : Option String) (event : Fields) (p : Part) (rest : List Part)
      → ((name : String) → index ≡ some name → str_eq name p.text ≡ false)
      → (vs : List Value) (i : ℕ)
      → map
          (λ e. dotted_get (obj e) (p ∷ rest))
          (spread (record { path = p ∷ rest; index = index }) event i vs)
        ≡ vs
  unfolding spread
  read_spread index event p rest apart [] i = refl
  read_spread index event p rest apart (v ∷ vs) i =
      ap₂ ◌∷◌ (read_numbered index i event p rest v apart)
        (read_spread index event p rest apart vs (i + 1))

  -- A list at the path gives one event for each item, in order, with that item at the path, where the
  -- index, if one is asked for, goes to another field. Any other value passes the event on as it is.
  pub apply_lem :
      (index : Option String) (event : Fields) (p : Part) (rest : List Part)
      → ((name : String) → index ≡ some name → str_eq name p.text ≡ false)
      → ((items : Items)
          → dotted_get (obj event) (p ∷ rest) ≡ arr items
          → map
              (λ e. dotted_get (obj e) (p ∷ rest))
              (apply (record { path = p ∷ rest; index = index }) event)
            ≡ to_list items)
        × (((items : Items) → dotted_get (obj event) (p ∷ rest) ≢ arr items)
            → apply (record { path = p ∷ rest; index = index }) event ≡ event ∷ [])
  unfolding apply
  apply_lem index event p rest apart = (
    λ items found. rw found (read_spread index event p rest apart (to_list items) 0),
    λ other. passes (record { path = p ∷ rest; index = index }) event _ other,
  )
