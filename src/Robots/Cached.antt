-- ===== src/Robots/Cached.antt =====
-- `RobotsCache`: the policy of each origin, fetched again once it is older than `ttl`. `get` is given
-- the reading of the clock and the policy that the fetched text has, which is used only where the
-- last component of its result tells that the file was fetched.
pub mod Ttl
use ujin.Prelude.{Bool, String, false, if◌then◌else◌, ltb, none, some, true}
use ujin.Prelude.Dict.{Dict, lookup, insert, remove}
use ujin.Float.{Float, FloatOps, sub}
use ujin.Robots.Policy.{RobotsPolicy}

pub record RobotsCache : Type 0 where
  pub ttl : Float
  pub store : Dict (Float × RobotsPolicy)

unfoldable pub invalidate : String → RobotsCache → RobotsCache
invalidate base_url c = record c { store = remove base_url c.store }

module _ ⦃F : FloatOps⦄ where
  unfoldable pub fetched :
      Float → String → RobotsPolicy → RobotsCache → RobotsPolicy × RobotsCache × Bool
  fetched now base_url policy c =
      (policy, record c { store = insert base_url (now, policy) c.store }, true)

  unfoldable pub get :
      Float → String → RobotsPolicy → RobotsCache → RobotsPolicy × RobotsCache × Bool
  unfolding fetched
  get now base_url policy c = elim (lookup base_url c.store) [
    | none ↦ fetched now base_url policy c
    | some entry ↦
        if ltb (sub now entry.0) c.ttl then (entry.1, c, false) else fetched now base_url policy c
  ]
