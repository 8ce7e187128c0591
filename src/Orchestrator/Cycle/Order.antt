-- ===== src/Orchestrator/Cycle/Order.antt =====
-- The order in which `_advance_work` takes the foci, and how many it advances.
use ujin.Prelude.{
  length-append, inr, All-take, leb→le, All-kept, inl, All-sort_by, leb, All-append, Bool-cases, ap,
  not, keep_if, ◌∙◌, sort_by, sym, none, some, zero, Bool, Option, refl, raise, arith, suc, ◌≤◌, [],
  length, ◌-◌, ok, ◌++◌, ◌∷◌, All, Result, ◌≡◌, List, String, take, ℕ,
}
use mathlib.Core.List.{append-nil, append_assoc}
use Prim.Native.Nat.{Ordering}
use Prim.Native.String.{compare as compare_str}
use ujin.Float.{FloatOps}
use ujin.Orchestrator.State.{FocusState, Config}
use ujin.Orchestrator.Focus.{Moved, Step, advance_focus}
use ujin.Orchestrator.Store.{World, Store, write_focus, is_ready, Worked}
use ujin.Orchestrator.Cycle.{admit, order_of, cons_step, advance_all, advance_next, written}

pub All-write_focus {κ} :
    (P : FocusState → Type κ) (fs : FocusState) (foci : List FocusState)
    → P fs
    → All P foci
    → All P (write_focus fs foci)
unfolding write_focus
All-write_focus P fs [] p h = (p, tt)
All-write_focus P fs (g ∷ foci) p h =
    let rest : All P (write_focus fs foci) = All-write_focus P fs foci p h.1 in
    elim (compare_str fs.focus g.focus)
      as (λ o. All P (elim o [
        | Ordering.lt ↦ fs ∷ g ∷ foci
        | Ordering.eq ↦ fs ∷ foci
        | Ordering.gt ↦ g ∷ write_focus fs foci
      ])) [ Ordering.lt ↦ (p, h) | Ordering.eq ↦ (p, h.1) | Ordering.gt ↦ (h.0, rest) ]

take_none : (n : ℕ) → take {A = FocusState} n [] ≡ []
unfolding take
take_none zero = refl
take_none (suc n) = refl

-- The foci that are advanced first are the started ones, and then as many of the ready ones, in their
-- order, as the limit leaves room for.
pub admit_lem :
    (most : ℕ) (order fs : List FocusState)
    → admit most order fs ≡ order ++ take (most - length order) fs
unfolding admit take
admit_lem most order [] =
    sym (append-nil order) ∙ ap (λ r. order ++ r) (sym (take_none (most - length order)))
admit_lem most order (f ∷ fs) = elim (Bool-cases (leb most (length order))) [
  | inl full ↦
      let none_left : most - length order ≡ 0 = omega (arith, leb→le most (length order) full) in
      rw (full, none_left) (sym (append-nil order))
  | inr free ↦
      let room : most - length order ≡ suc (most - suc (length order)) = ground arith in
      let grown : length (order ++ (f ∷ [])) ≡ suc (length order) =
        omega (arith, length-append order (f ∷ [])) in
      let ih : admit most (order ++ (f ∷ [])) fs
          ≡ (order ++ (f ∷ [])) ++ take (most - suc (length order)) fs =
        admit_lem most (order ++ (f ∷ [])) fs
        ∙ ap (λ n. (order ++ (f ∷ [])) ++ take (most - n) fs) grown in
      rw (free, room) (ih ∙ append_assoc order (f ∷ []) (take (most - suc (length order)) fs))
]

pub All-order_of {κ} :
    (P : FocusState → Type κ) (cfg : Config) (active : List FocusState)
    → All P active
    → All P (order_of cfg active)
unfolding order_of
All-order_of P cfg active h =
    let started : List FocusState =
      sort_by (λ f. f.priority) (keep_if (λ f. not (is_ready f.phase)) active) in
    let fresh : List FocusState =
      sort_by (λ f. f.priority) (keep_if (λ f. is_ready f.phase) active) in
    rw (admit_lem cfg.max_concurrent started fresh) (
      All-append P started (take (cfg.max_concurrent - length started) fresh)
        (All-sort_by P (λ f. f.priority) _ (All-kept P (λ f. not (is_ready f.phase)) active h))
        (All-take P (cfg.max_concurrent - length started) fresh
          (All-sort_by P (λ f. f.priority) _ (All-kept P (λ f. is_ready f.phase) active h))))

module _ ⦃F : FloatOps⦄ where
  -- `steps` are at most so many
  abbrev AtMost : ℕ → Result (List (String × Step)) → Type 0
  AtMost left (ok steps) = length steps ≤ left
  AtMost left (raise e) = Unit

  cons_bound :
      (focus : String) (s : Step) (left : ℕ) (r : Worked)
      → AtMost left r.1
      → AtMost (suc left) (cons_step focus s r).1
  unfolding cons_step
  cons_bound focus s left (store, ok rest) h = omega (arith, h)
  cons_bound focus s left (store, raise err) h = tt

  next_bound :
      (w : World) (cfg : Config) (left : ℕ) (fs : FocusState) (step : Result (Option Step))
      (m : Moved) (store : Store) (next : ℕ → Store → Worked)
      → ((left' : ℕ) (store' : Store) → AtMost left' (next left' store').1)
      → AtMost (suc left) (advance_next w cfg left fs step m store next).1
  unfolding advance_next
  next_bound w cfg left fs (raise e) m store next h = tt
  next_bound w cfg left fs (ok none) m store next h = h (suc left) store
  next_bound w cfg left fs (ok (some s)) m store next h =
      cons_bound fs.focus s left (next left (written w cfg m store))
        (h left (written w cfg m store))

  -- A tick advances at most as many foci as it may.
  pub advance_all-bound :
      (w : World) (cfg : Config) (affordable : Bool) (left : ℕ) (order : List FocusState)
      (store : Store)
      → AtMost left (advance_all w cfg affordable left order store).1
  unfolding advance_all
  advance_all-bound w cfg affordable left [] store = omega arith
  advance_all-bound w cfg affordable zero (fs ∷ order) store = omega arith
  advance_all-bound w cfg affordable (suc left) (fs ∷ order) store =
      let m : Moved = advance_focus cfg store.cov_floor fs affordable (w.about fs.focus) in
      next_bound w cfg left fs m.step m store
        (λ left' store'. advance_all w cfg affordable left' order store')
        (λ left' store'. advance_all-bound w cfg affordable left' order store')
