-- ===== src/Robots/Cached/Ttl.antt =====
-- How long a policy is kept.
use ujin.Prelude.{
  Bool-cases, Option-cases, String, arith, eq_iff, false, inl, inr, ltb, lt→ltb, none, not_lt→ltb,
  refl, some, true, ◌<◌, ◌≡◌, ◌≤◌,
}
use ujin.Prelude.Dict.{lookup, insert, lookup-insert_self, lookup-remove}
use ujin.Float.{Float, FloatOps, sub}
use ujin.Robots.Policy.{RobotsPolicy}
use ujin.Robots.Cached.{RobotsCache, fetched, get, invalidate}

module _ ⦃F : FloatOps⦄ where
  from_store :
      (now fetched_at : Float) (base_url : String) (kept new : RobotsPolicy) (c : RobotsCache)
      → lookup base_url c.store ≡ some (fetched_at, kept)
      → sub now fetched_at < c.ttl
      → get now base_url new c ≡ (kept, c, false)
  unfolding get
  from_store now fetched_at base_url kept new c found young =
      rw (found, get, lt→ltb (sub now fetched_at) c.ttl young) refl

  after_ttl :
      (now fetched_at : Float) (base_url : String) (kept new : RobotsPolicy) (c : RobotsCache)
      → lookup base_url c.store ≡ some (fetched_at, kept)
      → c.ttl ≤ sub now fetched_at
      → (get now base_url new c).2 ≡ true
  unfolding get fetched
  after_ttl now fetched_at base_url kept new c found old =
      rw (found, get, not_lt→ltb (sub now fetched_at) c.ttl old) refl

  not_stored :
      (now : Float) (base_url : String) (new : RobotsPolicy) (c : RobotsCache)
      → lookup base_url c.store ≡ none
      → (get now base_url new c).2 ≡ true
  unfolding get fetched
  not_stored now base_url new c missing = rw (missing, get) refl

  fetched_now :
      (t : Float) (base_url : String) (old : RobotsPolicy) (c : RobotsCache)
      → (get t base_url old c).2 ≡ true
      → get t base_url old c ≡ fetched t base_url old c
  unfolding get fetched
  fetched_now t base_url old c fetch = elim (Option-cases (lookup base_url c.store)) [
    | inl missing ↦ rw (missing, get) refl
    | inr (entry, found) ↦ elim (Bool-cases (ltb (sub t entry.0) c.ttl)) [
      | inl young ↦ cc (rw (found, young, get) at fetch)
      | inr late ↦ rw (found, late, get) refl
    ]
  ]

  -- A policy that was just fetched answers every later call for its origin, without a fetch and
  -- without a change of the cache, while it is younger than `ttl`. A call after that, and a call
  -- after `invalidate`, fetches.
  pub get_lem :
      (t now : Float) (base_url : String) (old new : RobotsPolicy) (c : RobotsCache)
      → (get t base_url old c).2 ≡ true
      → let c' : RobotsCache = (get t base_url old c).1 in
        (sub now t < c.ttl → get now base_url new c' ≡ (old, c', false))
        × (c.ttl ≤ sub now t → (get now base_url new c').2 ≡ true)
        × ((get now base_url new (invalidate base_url c')).2 ≡ true)
  unfolding fetched invalidate
  get_lem t now base_url old new c fetch =
      let c' : RobotsCache = (fetched t base_url old c).1 in
      let stored : lookup base_url c'.store ≡ some (t, old) =
        lookup-insert_self base_url (t, old) c.store in
      let gone : lookup base_url (invalidate base_url c').store ≡ none = ground (
        arith,
        lookup-remove base_url base_url (insert base_url (t, old) c.store),
        eq_iff base_url base_url,
      ) in
      rw (fetched_now t base_url old c fetch) (
        from_store now t base_url old new c' stored,
        after_ttl now t base_url old new c' stored,
        not_stored now base_url new (invalidate base_url c') gone,
      )
