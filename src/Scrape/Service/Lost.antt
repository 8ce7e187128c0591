-- ===== src/Scrape/Service/Lost.antt =====
-- What a scrape does not take from the news that a page has not changed.
use ujin.Prelude.{refl, some, true, ◌≡◌}
use ujin.Float.{FloatOps}
use ujin.Cache.Store.{CachedEntry}
use ujin.Scrape.Model.{at_served, Kept, served, Site, Answers, Service, met}
use ujin.Scrape.Fetch.{Fetched}
use ujin.Scrape.Extract.{Request, result_from_cache}
use ujin.Scrape.Service.{after_fetch, unless_cached}

module _ ⦃F : FloatOps⦄ where
  -- A page that has not changed since it was cached is served as it was cached. The host is not told
  -- of a success, and the entry keeps the time of its first fetch.
  pub after_fetch-unmodified :
      (site : Site) (req : Request) (entry : CachedEntry Kept) (f : Fetched) (ans : Answers)
      (svc : Service)
      → f.not_modified ≡ true
      → let out = after_fetch site req (some entry) f ans svc in
        (out.1 ≡ served (result_from_cache (ans.clock at_served) entry req.mode))
        × (out.0.policy ≡ svc.policy)
        × (out.0.cache ≡ svc.cache)
  unfolding after_fetch unless_cached met
  after_fetch-unmodified site req entry f ans svc same = simp (same, after_fetch) (refl, refl, refl)
