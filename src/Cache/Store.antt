-- ===== src/Cache/Store.antt =====
-- `ScrapeCache`: the cache of fetched results. The readings of the clock are arguments. The store is
-- the `OrderedDict`, least recently used first.
pub mod Recent
use ujin.Prelude.{Option, String, [], if◌then◌else◌, length, ltb, none, some, ℕ, ◌++◌, ◌+◌, ◌∷◌}
use ujin.Prelude.Dict.{Dict, lookup, remove}
use ujin.Float.{Float, FloatOps, sub}

-- `P` is what the cache does not look at: the address, the fingerprint, the payload and the rest.
pub record CachedEntry (P : Type 0) : Type 0 where
  pub payload : P
  pub fetched_at : Float
  pub hits : ℕ

pub record ScrapeCache (P : Type 0) : Type 0 where
  pub max : ℕ
  pub ttl : Float
  pub store : Dict (CachedEntry P)

module _ {P : Type 0} where
  -- while len(self._store) > self._max: self._store.popitem(last=False)
  unfoldable pub evict : ℕ → Dict (CachedEntry P) → Dict (CachedEntry P)
  evict max [] = []
  evict max (entry ∷ rest) =
      let fewer : Dict (CachedEntry P) = evict max rest in
      if ltb max (length (entry ∷ rest)) then fewer else entry ∷ rest

  unfoldable pub put : String → CachedEntry P → ScrapeCache P → ScrapeCache P
  put key entry c = record c { store = evict c.max (remove key c.store ++ ((key, entry) ∷ [])) }

  unfoldable pub invalidate : String → ScrapeCache P → ScrapeCache P
  invalidate key c = record c { store = remove key c.store }

module _ ⦃F : FloatOps⦄ {P : Type 0} where
  unfoldable pub age_secs : Float → CachedEntry P → Float
  age_secs now entry = sub now entry.fetched_at

  unfoldable pub hit :
      String → CachedEntry P → ScrapeCache P → Option (CachedEntry P) × ScrapeCache P
  hit key entry c =
      let used : CachedEntry P = record entry { hits = entry.hits + 1 } in
      (some used, record c { store = remove key c.store ++ ((key, used) ∷ []) })

  unfoldable pub get : Float → String → ScrapeCache P → Option (CachedEntry P) × ScrapeCache P
  unfolding hit age_secs
  get now key c = elim (lookup key c.store) [
    | none ↦ (none, c)
    | some entry ↦
        if ltb c.ttl (age_secs now entry)
        then (none, record c { store = remove key c.store })
        else hit key entry c
  ]
