-- ===== src/Cache/HostPolicy/Cooldown.antt =====
-- How long a host is left alone.
use ujin.Prelude.{
  String, arith, false, max, min, refl, some, str_eq, suc, zero, ℕ, ◌*◌, ◌+◌, ◌-◌, ◌∙◌, ◌≡◌, ◌≤◌,
}
use ujin.Prelude.Dict.{lookup, lookup-insert, lookup-insert_self}
use ujin.Float.{Float, FloatOps, FloatLaws, float_zero, lit, add, sub}
use ujin.Cache.HostPolicy.{
  HostState, HostPolicy, two_to, state_of, penalty, cooldown_remaining, record_success,
  record_failure,
}

eighth : (n : ℕ) → n ≤ 3 → two_to n ≤ 8
unfolding two_to
eighth zero h = omega arith
eighth (suc zero) h = omega arith
eighth (suc (suc zero)) h = omega arith
eighth (suc (suc (suc zero))) h = omega arith
eighth (suc (suc (suc (suc n)))) h = absurd (omega arith)

module _ ⦃F : FloatOps⦄ where
  -- the wait that a state asks for
  wait_of :
      (now : Float) (host : String) (s : HostState) (p : HostPolicy)
      → lookup host p.hosts ≡ some s
      → cooldown_remaining now host p ≡ max float_zero (sub s.cooldown_until now)
  unfolding cooldown_remaining
  wait_of now host s p found = rw (found, cooldown_remaining) refl

  failed_state : Float → String → HostPolicy → HostState
  failed_state now host p =
      let failures : ℕ = (state_of (lookup host p.hosts)).consecutive_failures + 1 in
      record {
        cooldown_until = add now (penalty p.cooldown failures);
        consecutive_failures = failures;
      }

  failed_there :
      (now : Float) (host : String) (p : HostPolicy)
      → lookup host (record_failure now host p).hosts ≡ some (failed_state now host p)
  unfolding record_failure failed_state
  failed_there now host p = lookup-insert_self host (failed_state now host p) p.hosts

  cleared : HostState
  cleared = record { cooldown_until = float_zero; consecutive_failures = 0 }

  cleared_there :
      (host : String) (s : HostState) (p : HostPolicy)
      → lookup host p.hosts ≡ some s
      → lookup host (record_success host p).hosts ≡ some cleared
  unfolding record_success cleared
  cleared_there host s p found =
      rw (found, record_success) (lookup-insert_self host cleared p.hosts)

  others_there :
      (now : Float) (host other : String) (p : HostPolicy)
      → str_eq host other ≡ false
      → lookup other (record_failure now host p).hosts ≡ lookup other p.hosts
  unfolding record_failure failed_state
  others_there now host other p apart =
      lookup-insert host other (failed_state now host p) p.hosts ∙ rw apart refl

  others_kept :
      (now now' : Float) (host other : String) (p : HostPolicy)
      → str_eq host other ≡ false
      → cooldown_remaining now' other (record_failure now host p) ≡ cooldown_remaining now' other p
  unfolding cooldown_remaining
  others_kept now now' host other p apart =
      rw (others_there now host other p apart, cooldown_remaining) refl

  module _ (L : FloatLaws F) where
    penalty_bound : (cooldown failures : ℕ) → penalty cooldown failures ≤ lit (cooldown * 8) 1
    unfolding penalty
    penalty_bound cooldown failures =
        let small : two_to (min (failures - 1) 3) ≤ 8 =
          eighth (min (failures - 1) 3) (omega arith) in
        L.lit_mono (cooldown * two_to (min (failures - 1) 3)) 1 (cooldown * 8) 1 (omega arith)
          (omega arith) (grind (arith, small))

    failure_wait :
        (now now' : Float) (host : String) (p : HostPolicy)
        → float_zero ≤ now
        → float_zero ≤ now'
        → cooldown_remaining now' host (record_failure now host p)
          ≤ max float_zero (sub (add now (lit (p.cooldown * 8) 1)) now')
    unfolding failed_state
    failure_wait now now' host p g h =
        let n : ℕ = (state_of (lookup host p.hosts)).consecutive_failures + 1 in
        let w =
          wait_of now' host (failed_state now host p) (record_failure now host p)
            (failed_there now host p) in
        let below =
          L.sub_mono (add now (penalty p.cooldown n)) (add now (lit (p.cooldown * 8) 1)) now' h (
            L.add_mono now (penalty p.cooldown n) (lit (p.cooldown * 8) 1) g
              (penalty_bound p.cooldown n)) in
        rw w (omega (arith, below))

    cleared_wait :
        (now : Float) (host : String) (s : HostState) (p : HostPolicy)
        → float_zero ≤ now
        → lookup host p.hosts ≡ some s
        → cooldown_remaining now host (record_success host p) ≡ float_zero
    unfolding cleared
    cleared_wait now host s p h found =
        wait_of now host cleared (record_success host p) (cleared_there host s p found)
        ∙ omega (arith, L.sub_nonpos float_zero now h h)

    -- On a clock that is not negative, after a failure a host is left alone for at most 8 times `cooldown_secs` from then, however
    -- many failures there were. No other host waits for it, and a success ends the wait.
    pub record_failure_lem :
        (now now' : Float) (host other : String) (p : HostPolicy)
        → float_zero ≤ now
        → float_zero ≤ now'
        → str_eq host other ≡ false
        → (cooldown_remaining now' host (record_failure now host p)
            ≤ max float_zero (sub (add now (lit (p.cooldown * 8) 1)) now'))
          × (cooldown_remaining now' other (record_failure now host p)
              ≡ cooldown_remaining now' other p)
          × (cooldown_remaining now' host (record_success host (record_failure now host p))
              ≡ float_zero)
    record_failure_lem now now' host other p g h apart = (
      failure_wait now now' host p g h,
      others_kept now now' host other p apart,
      cleared_wait now' host (failed_state now host p) (record_failure now host p) h
          (failed_there now host p),
    )
