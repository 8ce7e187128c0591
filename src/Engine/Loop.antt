-- ===== src/Engine/Loop.antt =====
-- `PollEngine.sweep` and one round of `PollEngine.run`, over the registered targets.
use ujin.Prelude.{
  All, All-keep_if, All-map, Any, Bool, List, List-cases, String, [], arith, false, inl, inr,
  keep_if, leb, max, min, refl, true, ◌&&◌, ◌∷◌, ◌≡◌, ◌≢◌, ◌≤◌,
}
use ujin.Float.{FloatLaws, sub, float_zero, lit, add, Float, FloatOps}
use native.Mathlib.Nat.{le_refl}
use mathlib.Core.Path.{subst}
use ujin.Engine.{Target}
use ujin.Adapt.Breaker
use ujin.Adapt.Breaker.{CircuitBreaker}

-- A registered target with the reading that its breaker takes when it is asked.
pub record Asked (P : Type 0) : Type 0 where
  pub key : String
  pub target : Target P
  pub asked_at : Float

-- What a round does: it polls targets, or sleeps.
pub data Round (P : Type 0) : Type 0 where
  polls : List (Asked P) → Round P
  sleeps : Float → Round P

module _ ⦃F : FloatOps⦄ {P : Type 0} where
  abbrev pub is_allowed : Asked P → Bool
  is_allowed a = Breaker.allow a.target.breaker a.asked_at

  -- the targets that `sweep` polls
  unfoldable pub sweep_due : List (Asked P) → List (Asked P)
  sweep_due = keep_if is_allowed

  abbrev pub is_due : Float → Asked P → Bool
  is_due now a = leb a.target.next_due now && is_allowed a

  -- `min((t.next_due for t in targets), default=now + 1.0)`
  earliest : Float → List (Asked P) → Float
  earliest first [] = first
  earliest first (a ∷ rest) = earliest (min first a.target.next_due) rest

  next_due : Float → List (Asked P) → Float
  unfolding earliest
  next_due now [] = add now (lit 1 1)
  next_due now (a ∷ rest) = earliest a.target.next_due rest

  -- one round of `run` at `now`
  unfoldable pub round : Float → List (Asked P) → Round P
  unfolding next_due
  round now targets =
      let ready : List (Asked P) = keep_if (is_due now) targets in
      elim ready [
        | [] ↦ sleeps (max float_zero (sub (next_due now targets) now))
        | a ∷ rest ↦ polls (a ∷ rest)
      ]

  below_earliest :
      (m first : Float) (targets : List (Asked P))
      → m ≤ earliest first targets
      → (m ≤ first) × All (λ a. m ≤ a.target.next_due) targets
  unfolding earliest
  below_earliest m first [] h = (h, tt)
  below_earliest m first (a ∷ rest) h =
      let later = below_earliest m (min first a.target.next_due) rest h in
      (omega (arith, later.0), (omega (arith, later.0), later.1))

  below_next_due :
      (m now : Float) (targets : List (Asked P))
      → m ≤ next_due now targets
      → All (λ a. m ≤ a.target.next_due) targets
  unfolding next_due
  below_next_due m now [] h = tt
  below_next_due m now (a ∷ rest) h = below_earliest m a.target.next_due rest h

  none_ready :
      (now : Float) (targets : List (Asked P))
      → keep_if (is_due now) targets ≡ []
      → All (λ a. is_due now a ≡ false) targets
  unfolding keep_if
  none_ready now [] e = tt
  none_ready now (a ∷ rest) e = ground (arith, none_ready now rest)

  below_overdue :
      (now : Float) (m : Float) (targets : List (Asked P))
      → All (λ a. m ≤ a.target.next_due) targets
      → Any (λ a. a.target.next_due ≤ now) targets
      → m ≤ now
  below_overdue now m [] h never = elim never [ ]
  below_overdue now m (a ∷ rest) h (inl due) = omega arith
  below_overdue now m (a ∷ rest) h (inr later) = below_overdue now m rest h.1 later

  shut_ready :
      (now : Float) (targets : List (Asked P))
      → All (λ a. is_allowed a ≡ false) targets
      → keep_if (is_due now) targets ≡ []
  unfolding keep_if
  shut_ready now [] h = refl
  shut_ready now (a ∷ rest) h = ground (arith, shut_ready now rest h.1)

  both :
      (now : Float) (a : Asked P)
      → is_due now a ≡ true
      → (leb a.target.next_due now ≡ true) × (is_allowed a ≡ true)
  both now a e = ground (arith, e)

  -- A round polls only targets that are due and whose breaker allows it, and at least one. It sleeps
  -- only if there is no such target, and never past the time at which any target is due.
  pub round_lem :
      (L : FloatLaws F) (now : Float) (targets : List (Asked P))
      → float_zero ≤ now
      → ((ready : List (Asked P))
          → round now targets ≡ polls ready
          → (ready ≢ [])
            × All (λ a. (leb a.target.next_due now ≡ true) × (is_allowed a ≡ true)) ready)
        × ((s : Float)
            → round now targets ≡ sleeps s
            → All (λ a. is_due now a ≡ false) targets
              × All (λ a. s ≤ max float_zero (sub a.target.next_due now)) targets)
  unfolding round
  round_lem L now targets p = elim (List-cases (keep_if (is_due now) targets)) [
    | inl e ↦ (
      λ ready x. cc (rw (e, round) at x),
      λ s x.
          let slept : ◌≡◌ {A = Round P} (sleeps (max float_zero (sub (next_due now targets) now)))
              (sleeps s) =
            rw (e, round) at x in
          let first = below_next_due (next_due now targets) now targets (le_refl _) in
          (
            none_ready now targets e,
            All-map
                (λ a before.
                  ground (arith, L.sub_mono (next_due now targets) a.target.next_due now p before))
                targets first,
          ),
    )
    | inr (a, rest, e) ↦ (
      λ ready x.
          let polled : ◌≡◌ {A = Round P} (polls (a ∷ rest)) (polls ready) = rw (e, round) at x in
          let all = rw e at (All-keep_if (is_due now) targets) in
          let same : a ∷ rest ≡ ready = cc in
          (λ empty. cc, All-map (both now) ready (subst (All (λ a. is_due now a ≡ true)) same all)),
      λ s x. cc (rw (e, round) at x),
    )
  ]

  -- Where targets are overdue and none of them may be polled, since their breakers are open, a round
  -- of the loop sleeps for no time at all.
  pub round_spins :
      (L : FloatLaws F) (now : Float) (targets : List (Asked P))
      → float_zero ≤ now
      → Any (λ a. a.target.next_due ≤ now) targets
      → All (λ a. is_allowed a ≡ false) targets
      → round now targets ≡ sleeps float_zero
  unfolding round
  round_spins L now targets p overdue shut =
      let first = below_next_due (next_due now targets) now targets (le_refl _) in
      let early : next_due now targets ≤ now = below_overdue now _ targets first overdue in
      rw (shut_ready now targets shut, round)
        (ground (arith, L.sub_nonpos (next_due now targets) now p early))
