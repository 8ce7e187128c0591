-- ===== src/Prelude/Sorts.antt =====
-- Python's stable sort by a number, and the smallest of a list.
use Prim.Native.Nat.{ℕ, suc, ◌≤◌}
use mathlib.Core.Path.{◌≡◌, refl}
use mathlib.Core.Logic.{inl, inr}
use mathlib.Core.List.{List, [], ◌∷◌}
use native.Mathlib.Omega.{arith}
use ujin.Prelude.Tests.{leb, leb→le, Bool-cases, if◌then◌else◌}
use ujin.Prelude.Lists.{length, All, All-map}

module _ {ℓ} {A : Type ℓ} where
  -- an item goes before those that are as large as it; items are put in from the last on, so that
  -- those that are as large keep their order
  unfoldable pub put_by : (A → ℕ) → A → List A → List A
  put_by key x [] = x ∷ []
  put_by key x (y ∷ ys) = if leb (key x) (key y) then x ∷ y ∷ ys else y ∷ put_by key x ys

  -- sorted(xs, key=key)
  unfoldable pub sort_by : (A → ℕ) → List A → List A
  unfolding put_by
  sort_by key [] = []
  sort_by key (x ∷ xs) = put_by key x (sort_by key xs)

  -- each item is at most as large as those after it
  abbrev pub IsSorted : (A → ℕ) → List A → Type 0
  IsSorted key [] = Unit
  IsSorted key (x ∷ xs) = All (λ y. key x ≤ key y) xs × IsSorted key xs

  pub All-put_by {κ} :
      (P : A → Type κ) (key : A → ℕ) (x : A) (ys : List A)
      → P x
      → All P ys
      → All P (put_by key x ys)
  unfolding put_by
  All-put_by P key x [] p h = (p, tt)
  All-put_by P key x (y ∷ ys) p h = elim (Bool-cases (leb (key x) (key y))) [
    | inl below ↦ rw below (p, h)
    | inr above ↦ rw above (h.0, All-put_by P key x ys p h.1)
  ]

  pub All-sort_by {κ} :
      (P : A → Type κ) (key : A → ℕ) (xs : List A) → All P xs → All P (sort_by key xs)
  unfolding sort_by
  All-sort_by P key [] h = tt
  All-sort_by P key (x ∷ xs) h = All-put_by P key x (sort_by key xs) h.0 (All-sort_by P key xs h.1)

  pub length-put_by :
      (key : A → ℕ) (x : A) (ys : List A) → length (put_by key x ys) ≡ suc (length ys)
  unfolding put_by
  length-put_by key x [] = refl
  length-put_by key x (y ∷ ys) = ground (arith, length-put_by key x ys)

  pub length-sort_by : (key : A → ℕ) (xs : List A) → length (sort_by key xs) ≡ length xs
  unfolding sort_by
  length-sort_by key [] = refl
  length-sort_by key (x ∷ xs) =
      omega (arith, length-put_by key x (sort_by key xs), length-sort_by key xs)

  put_by-IsSorted :
      (key : A → ℕ) (x : A) (ys : List A) → IsSorted key ys → IsSorted key (put_by key x ys)
  unfolding put_by
  put_by-IsSorted key x [] h = (tt, tt)
  put_by-IsSorted key x (y ∷ ys) h = elim (Bool-cases (leb (key x) (key y))) [
    | inl below ↦
        let le : key x ≤ key y = leb→le (key x) (key y) below in
        rw below ((le, All-map (λ z p. omega (arith, p)) ys h.0), h)
    | inr above ↦
        let le : key y ≤ key x = ground arith in
        rw above (All-put_by (λ z. key y ≤ key z) key x ys le h.0, put_by-IsSorted key x ys h.1)
  ]

  pub sort_by-IsSorted : (key : A → ℕ) (xs : List A) → IsSorted key (sort_by key xs)
  unfolding sort_by
  sort_by-IsSorted key [] = tt
  sort_by-IsSorted key (x ∷ xs) = put_by-IsSorted key x (sort_by key xs) (sort_by-IsSorted key xs)
