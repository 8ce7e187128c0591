-- ===== src/Scrape/Service/Cooldown.antt =====
-- A host in its cooldown is left alone.
use ujin.Prelude.{arith, ◌<◌, if_so, refl, false, none, some, true, ◌≡◌, Option}
use ujin.Float.{FloatOps, float_zero}
use ujin.Cache.Store.{CachedEntry, get}
use ujin.Cache.HostPolicy.{cooldown_remaining}
use ujin.Scrape.Model.{
  at_cooldown, at_lookup, at_served, Scraped, served, host_cooldown, Site, Answers, Service, Kept,
  met,
}
use ujin.Scrape.Extract.{Request, result_from_cache}
use ujin.Scrape.Service.{scrape, cooling, cools}

module _ ⦃F : FloatOps⦄ where
  -- what a host in its cooldown gives: what is cached, or nothing
  abbrev pub FromCache : Answers → Request → Option (CachedEntry Kept) → Scraped → Type 0
  FromCache ans req none out = out ≡ host_cooldown
  FromCache ans req (some entry) out =
      out ≡ served (result_from_cache (ans.clock at_served) entry req.mode)

  cooling_lem :
      (req : Request) (cached : Option (CachedEntry Kept)) (ans : Answers) (svc : Service)
      → ((cooling req cached ans svc).0.contacted ≡ svc.contacted)
        × ((cooling req cached ans svc).0.policy ≡ svc.policy)
        × ((cooling req cached ans svc).0.feedback ≡ svc.feedback)
        × FromCache ans req cached (cooling req cached ans svc).1
  unfolding cooling met
  cooling_lem req none ans svc = (refl, refl, refl, refl)
  cooling_lem req (some entry) ans svc = (refl, refl, refl, refl)

  -- While a host is in its cooldown, a scrape that is not forced calls no fetcher and changes neither
  -- the policy nor the feedback: it serves what the cache still has for the mode and the address, and
  -- raises the cooldown where the cache has nothing.
  pub scrape-cooling :
      (site : Site) (req : Request) (ans : Answers) (svc : Service)
      → float_zero < cooldown_remaining (ans.clock at_cooldown) (site.host_of req.url) svc.policy
      → req.force_refresh ≡ false
      → ((scrape site req ans svc).0.contacted ≡ svc.contacted)
        × ((scrape site req ans svc).0.policy ≡ svc.policy)
        × ((scrape site req ans svc).0.feedback ≡ svc.feedback)
        × FromCache ans req
            (get (ans.clock at_lookup) req.key svc.cache).0
            (scrape site req ans svc).1
  unfolding scrape cools
  scrape-cooling site req ans svc cool easy =
      let looked = get (ans.clock at_lookup) req.key svc.cache in
      let svc' : Service = record svc { cache = looked.1 } in
      let alone : cools site req ans svc ≡ true = ground arith in
      let cooled : scrape site req ans svc ≡ cooling req looked.0 ans svc' =
        if_so (cools site req ans svc) (cooling req looked.0 ans svc') _ alone in
      let known = cooling_lem req looked.0 ans svc' in rw cooled known
