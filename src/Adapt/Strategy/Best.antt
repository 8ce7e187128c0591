-- ===== src/Adapt/Strategy/Best.antt =====
-- What is recommended has the highest rate of success.
use ujin.Prelude.{
  sym, Bool, if◌then◌else◌, none, Any, refl, some, Option, String, ◌⊎◌, [], inr, inl, Bool-cases,
  arith, ◌∷◌, All, false, true, List, ◌≡◌, ◌≤◌,
}
use mathlib.Core.Path.{subst}
use ujin.Float.{FloatOps}
use ujin.Adapt.Strategy.{Outcome, rate, before, first_of, pick, of_host, recommend}

module _ ⦃F : FloatOps⦄ where
  abbrev AtLeast : Outcome → Outcome → Type 0
  AtLeast best r = rate r ≤ rate best

  before_rate : (r s : Outcome) → before s r ≡ true → rate r ≤ rate s
  unfolding before
  before_rate r s h = ground arith

  not_before : (r s : Outcome) → before s r ≡ false → rate s ≤ rate r
  unfolding before
  not_before r s h = ground arith

  first_of-AtLeast :
      (r : Outcome) (rows : List Outcome)
      → (rate r ≤ rate (first_of r rows)) × All (AtLeast (first_of r rows)) rows
  unfolding first_of
  first_of-AtLeast r [] = (omega arith, tt)
  first_of-AtLeast r (s ∷ rows) =
      let Goal : Bool → Type 0 = (λ b.
        let best : Outcome = first_of (if b then s else r) rows in
        (rate r ≤ rate best) × All (AtLeast best) (s ∷ rows)) in
      elim (Bool-cases (before s r)) [
        | inl better ↦
            let ih = first_of-AtLeast s rows in
            subst Goal (sym better) (omega (arith, ih.0, before_rate r s better), (ih.0, ih.1))
        | inr worse ↦
            let ih = first_of-AtLeast r rows in
            subst Goal (sym worse) (ih.0, (omega (arith, ih.0, not_before r s worse), ih.1))
      ]

  first_of-Any :
      (P : Outcome → Type 0) (r : Outcome) (rows : List Outcome)
      → P (first_of r rows)
      → P r ⊎ Any P rows
  unfolding first_of
  first_of-Any P r [] p = inl p
  first_of-Any P r (s ∷ rows) p = elim (Bool-cases (before s r)) [
    | inl better ↦
        inr (first_of-Any P s rows (subst (λ b. P (first_of (if b then s else r) rows)) better p))
    | inr worse ↦
        elim (first_of-Any P r rows (subst (λ b. P (first_of (if b then s else r) rows)) worse p)) [
          | inl here ↦ inl here
          | inr there ↦ inr (inr there)
        ]
  ]

  -- what a recommendation among the rows of a host is
  abbrev pub IsBest : List Outcome → Option (String × String) → Type 0
  IsBest rows none = rows ≡ []
  IsBest rows (some (backend, render_mode)) =
      Any
        (λ best.
          (best.key.backend ≡ backend)
          × (best.key.render_mode ≡ render_mode)
          × All (λ r. rate r ≤ rate best) rows)
        rows

  pick-IsBest : (rows : List Outcome) → IsBest rows (pick rows)
  unfolding pick
  pick-IsBest [] = refl
  pick-IsBest (r ∷ rows) =
      let best : Outcome = first_of r rows in
      let P : Outcome → Type 0 = (λ o.
        (o.key.backend ≡ best.key.backend)
        × (o.key.render_mode ≡ best.key.render_mode)
        × All (λ other. rate other ≤ rate o) (r ∷ rows)) in
      first_of-Any P r rows (refl, refl, first_of-AtLeast r rows)

  -- A host without a recorded outcome has no recommendation; for any other host the recommendation
  -- names the backend and the render mode of one of its rows, and no row of the host has a higher rate
  -- of success.
  pub recommend-IsBest :
      (host : String) (rows : List Outcome) → IsBest (of_host host rows) (recommend host rows)
  unfolding recommend
  recommend-IsBest host rows = pick-IsBest (of_host host rows)
