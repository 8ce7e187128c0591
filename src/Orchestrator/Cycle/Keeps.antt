-- ===== src/Orchestrator/Cycle/Keeps.antt =====
-- A tick keeps every focus sound.
use ujin.Prelude.{refl, raise, ok, All, String, ◌≡◌}
use ujin.Orchestrator.Store.{Store, Cycle, Worked}
use ujin.Orchestrator.Cycle.{is_active, cons_step, told}
use ujin.Float.{Float, FloatOps}
use ujin.Orchestrator.State.{is_active, Config}
use ujin.Orchestrator.Focus.{Step}
use ujin.Orchestrator.Focus.Sound.{IsSound}

abbrev pub AllSound : Config → Store → Type 0
AllSound cfg store = All (IsSound cfg) store.foci

module _ ⦃F : FloatOps⦄ where
  pub told_lem : (r : Worked) → (told r).0 ≡ r.0
  unfolding told
  told_lem (store, ok steps) = refl
  told_lem (store, raise e) = refl

  pub cons_lem : (focus : String) (s : Step) (r : Worked) → (cons_step focus s r).0 ≡ r.0
  unfolding cons_step
  cons_lem focus s (store, ok steps) = refl
  cons_lem focus s (store, raise e) = refl
