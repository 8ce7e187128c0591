-- ===== src/Cache/Store/Recent.antt =====
-- What the cache holds.
use ujin.Prelude.{
  String, [], arith, eq_iff, length, lt→ltb, none, not_lt→ltb, refl, some, ℕ, ◌++◌, ◌+◌, ◌<◌, ◌∷◌,
  ◌≡◌, ◌≤◌,
}
use ujin.Prelude.Dict.{Dict, lookup, remove, lookup-remove}
use ujin.Float.{Float, FloatOps}
use ujin.Cache.Store.{CachedEntry, ScrapeCache, hit, evict, put, get, age_secs}

module _ {P : Type 0} where
  length-evict : (max : ℕ) (d : Dict (CachedEntry P)) → length (evict max d) ≤ max
  unfolding evict
  length-evict max [] = omega arith
  length-evict max (entry ∷ rest) = ground (arith, length-evict max rest)

  lookup-last :
      (d : Dict (CachedEntry P)) (key : String) (entry : CachedEntry P)
      → lookup key d ≡ none
      → lookup key (d ++ ((key, entry) ∷ [])) ≡ some entry
  unfolding lookup
  lookup-last [] key entry fresh = ground (arith, eq_iff key key)
  lookup-last (x ∷ xs) key entry fresh =
      let fresh' : lookup key xs ≡ none = ground arith in
      ground (arith, lookup-last xs key entry fresh')

  -- what is evicted is the oldest: the newest stays
  evict-last :
      (max : ℕ) (d : Dict (CachedEntry P)) (key : String) (entry : CachedEntry P)
      → 1 ≤ max
      → lookup key d ≡ none
      → lookup key (evict max (d ++ ((key, entry) ∷ []))) ≡ some entry
  unfolding evict lookup
  evict-last max [] key entry one fresh = ground (arith, eq_iff key key)
  evict-last max (x ∷ xs) key entry one fresh =
      let fresh' : lookup key xs ≡ none = ground arith in
      ground (arith, evict-last max xs key entry one fresh', lookup-last xs key entry fresh')

  removed : (key : String) (d : Dict (CachedEntry P)) → lookup key (remove key d) ≡ none
  removed key d = ground (arith, lookup-remove key key d, eq_iff key key)

  -- The cache never holds more than `max` entries, and has the entry that was put last, unless `max`
  -- is 0.
  pub put_lem :
      (key : String) (entry : CachedEntry P) (c : ScrapeCache P)
      → (length (put key entry c).store ≤ c.max)
        × (1 ≤ c.max → lookup key (put key entry c).store ≡ some entry)
  unfolding put
  put_lem key entry c = (
    length-evict c.max (remove key c.store ++ ((key, entry) ∷ [])),
    λ one. evict-last c.max (remove key c.store) key entry one (removed key c.store),
  )

module _ ⦃F : FloatOps⦄ {P : Type 0} where
  get_missing :
      (now : Float) (key : String) (c : ScrapeCache P)
      → lookup key c.store ≡ none
      → (get now key c).0 ≡ none
  unfolding get
  get_missing now key c missing = rw (missing, get) refl

  get_found :
      (now : Float) (key : String) (entry : CachedEntry P) (c : ScrapeCache P)
      → lookup key c.store ≡ some entry
      → (age_secs now entry ≤ c.ttl
          → (get now key c).0 ≡ some (record entry { hits = entry.hits + 1 }))
        × (c.ttl < age_secs now entry
            → ((get now key c).0 ≡ none) × (lookup key (get now key c).1.store ≡ none))
  unfolding hit get
  get_found now key entry c found = (
    λ young. rw (found, get, not_lt→ltb c.ttl (age_secs now entry) young) refl,
    λ old. rw (found, get, lt→ltb c.ttl (age_secs now entry) old) (refl, removed key c.store),
  )

  -- In a cache that may hold an entry, an entry that was put is what is read, with the hit counted,
  -- as long as it is not older than `ttl`. Once it is older, nothing is read, and it is gone whatever
  -- the clock says later.
  pub get-put :
      (key : String) (entry : CachedEntry P) (c : ScrapeCache P) (now : Float)
      → 1 ≤ c.max
      → (age_secs now entry ≤ c.ttl
          → (get now key (put key entry c)).0 ≡ some (record entry { hits = entry.hits + 1 }))
        × (c.ttl < age_secs now entry
            → ((get now key (put key entry c)).0 ≡ none)
              × ((later : Float) → (get later key (get now key (put key entry c)).1).0 ≡ none))
  unfolding put
  get-put key entry c now one =
      let c' : ScrapeCache P = put key entry c in
      let found : lookup key c'.store ≡ some entry = (put_lem key entry c).1 one in
      let ttl : c'.ttl ≡ c.ttl = refl in
      let (young, old) = get_found now key entry c' found in
      (
        young,
        λ late. ((old late).0, λ later. get_missing later key (get now key c').1 (old late).1),
      )
