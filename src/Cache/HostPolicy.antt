-- ===== src/Cache/HostPolicy.antt =====
-- `HostPolicy`: hosts that are left alone after a failure. A host stands for `urlsplit(url).netloc.lower()`.
pub mod Cooldown
use ujin.Prelude.{Option, String, max, min, none, some, suc, zero, ℕ, ◌*◌, ◌+◌, ◌-◌}
use ujin.Prelude.Dict.{Dict, lookup, insert}
use ujin.Float.{Float, FloatOps, lit, add, sub, float_zero}

pub record HostState : Type 0 where
  pub cooldown_until : Float
  pub consecutive_failures : ℕ

-- `cooldown` is in whole seconds.
pub record HostPolicy : Type 0 where
  pub cooldown : ℕ
  pub hosts : Dict HostState

-- 2 ** n
unfoldable pub two_to : ℕ → ℕ
two_to zero = 1
two_to (suc n) = 2 * two_to n

module _ ⦃F : FloatOps⦄ where
  state_of : Option HostState → HostState
  state_of none = record { cooldown_until = float_zero; consecutive_failures = 0 }
  state_of (some s) = s

  unfoldable pub penalty : ℕ → ℕ → Float
  unfolding two_to
  penalty cooldown failures = lit (cooldown * two_to (min (failures - 1) 3)) 1

  unfoldable pub cooldown_remaining : Float → String → HostPolicy → Float
  cooldown_remaining now host p = elim (lookup host p.hosts) [
    | none ↦ float_zero
    | some s ↦ max float_zero (sub s.cooldown_until now)
  ]

  unfoldable pub record_success : String → HostPolicy → HostPolicy
  record_success host p = elim (lookup host p.hosts) [
    | none ↦ p
    | some s ↦ record p {
      hosts =
          insert host (record { cooldown_until = float_zero; consecutive_failures = 0 }) p.hosts;
    }
  ]

  unfoldable pub record_failure : Float → String → HostPolicy → HostPolicy
  unfolding state_of
  record_failure now host p =
      let failures : ℕ = (state_of (lookup host p.hosts)).consecutive_failures + 1 in
      record p {
        hosts =
            insert host
              (record {
                cooldown_until = add now (penalty p.cooldown failures);
                consecutive_failures = failures;
              })
              p.hosts;
      }
