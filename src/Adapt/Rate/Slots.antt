-- ===== src/Adapt/Rate/Slots.antt =====
-- Requests in flight at one host, as any sequence of entries, releases and responses.
use ujin.Prelude.{Bool, Option, arith, none, some, ℕ, ◌≡◌, ◌≤◌}
use ujin.Float.{Float, FloatOps}
use ujin.Adapt.Aimd
use ujin.Adapt.Aimd.Range
use ujin.Adapt.Rate.{HostGov, calibrate, take_slot, release_slot}

-- What may happen to the governor of a host between two awaits.
pub data Step ⦃F : FloatOps⦄ (rl_floor : Float) : HostGov → HostGov → Type 0 where
  enters : {g g' : HostGov} → take_slot g ≡ some g' → Step rl_floor g g'
  leaves : {g : HostGov} → Step rl_floor g (release_slot g)
  responds :
      {g : HostGov} (status : Option ℕ) (error : Bool)
      → Step rl_floor g (calibrate rl_floor g status error)

pub data Steps ⦃F : FloatOps⦄ (rl_floor : Float) (g : HostGov) : HostGov → Type 0 where
  here : Steps rl_floor g g
  next : {h k : HostGov} → Steps rl_floor g h → Step rl_floor h k → Steps rl_floor g k

module _ ⦃F : FloatOps⦄ where
  pub record IsCapped (most : ℕ) (g : HostGov) : Type 0 where
    pub in_range : Range.IsValid g.aimd
    pub range : F.trunc g.aimd.max_limit ≤ most
    pub capped : g.inflight ≤ most

  -- A request enters only while fewer requests are in flight than the present concurrency, and
  -- waits otherwise; when it leaves, the governor is as it was.
  pub take_slot-release_slot :
      (g : HostGov)
      → (take_slot g ≡ none → Aimd.value g.aimd ≤ g.inflight)
        × ((g' : HostGov)
            → take_slot g ≡ some g'
            → (g'.inflight ≤ Aimd.value g.aimd) × (release_slot g' ≡ g))
  unfolding take_slot release_slot
  take_slot-release_slot g = (λ e. ground arith, λ g' e. ground arith)
