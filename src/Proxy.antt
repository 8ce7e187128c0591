-- ===== src/Proxy.antt =====
-- ujin/proxy/pool.py: `ProxyPool`, the proxies that are used in turn. Each method holds the lock while
-- it runs, and the readings of the clock are arguments.
pub mod Turns
use ujin.Prelude.{
  List, Option, String, [], get_elem?, if◌then◌else◌, keep_if, leb, length, map, min, none, some,
  str_eq, suc, zero, ℕ, ◌%◌, ◌+◌, ◌-◌, ◌==◌, ◌∷◌,
}
use ujin.Float.{Float, FloatOps, lit, add, mul, float_zero}
use ujin.Cache.HostPolicy.{two_to}

pub record ProxyState : Type 0 where
  pub url : String
  pub consecutive_failures : ℕ
  pub cooldown_until : Float

-- `next` is the private field `_next`.
pub record ProxyPool : Type 0 where
  pub states : List ProxyState
  pub cooldown : Float
  pub next : ℕ

-- one of the rounds of the loop of `acquire` after another; `n` is the number of the proxies
unfoldable pub turns : ℕ → List ProxyState → ℕ → Float → ℕ → Option String × ℕ
turns zero states n now next = (none, next)
turns (suc rounds) states n now next =
    let later = turns rounds states n now ((next + 1) % n) in
    elim (get_elem? states (next % n)) [
      | none ↦ (none, next)
      | some s ↦ if leb s.cooldown_until now then (some s.url, (next + 1) % n) else later
    ]

unfoldable pub acquire : Float → ProxyPool → Option String × ProxyPool
acquire now p =
    let n : ℕ = length p.states in
    if n == 0
    then (none, p)
    else let (url, next) = turns n p.states n now p.next in (url, record p { next = next })

-- change the first state with that url
unfoldable pub change_first : String → (ProxyState → ProxyState) → List ProxyState → List ProxyState
change_first url f [] = []
change_first url f (s ∷ rest) = if str_eq s.url url then f s ∷ rest else s ∷ change_first url f rest

module _ ⦃F : FloatOps⦄ where
  unfoldable pub init : List String → Float → ProxyPool
  init proxies cooldown = record {
    states =
        map (λ p. record { url = p; consecutive_failures = 0; cooldown_until = float_zero })
          proxies;
    cooldown = cooldown;
    next = 0;
  }

  unfoldable pub record_success : String → ProxyPool → ProxyPool
  record_success url p = record p {
    states =
        change_first url (λ s. record s { consecutive_failures = 0; cooldown_until = float_zero })
          p.states;
  }

  benched : Float → Float → ProxyState → ProxyState
  benched now cooldown s =
      let failures : ℕ = s.consecutive_failures + 1 in
      record s {
        consecutive_failures = failures;
        cooldown_until = add now (mul cooldown (lit (two_to (min (failures - 1) 3)) 1));
      }

  unfoldable pub record_failure : Float → String → ProxyPool → ProxyPool
  unfolding benched
  record_failure now url p = record p {
    states = change_first url (benched now p.cooldown) p.states;
  }

unfoldable pub healthy : Float → ProxyPool → List String
healthy now p = map (λ s. s.url) (keep_if (λ s. leb s.cooldown_until now) p.states)
