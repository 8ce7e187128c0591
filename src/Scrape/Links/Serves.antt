-- ===== src/Scrape/Links/Serves.antt =====
-- What `_finalize_links` comes to: a result with the strategy it was given, or an error, and the policy
-- as it was.
use ujin.Prelude.{
  refl, inr, str_eq, Bool-cases, none, some, List, inl, ◌⊎◌, Option, String, ◌≡◌, Error,
}
use ujin.Scrape.Links.{
  to_scraped, finalize_or_raise, filtered, scored, hinted, Source, finalize_links, against,
  unchanged, fresh_links, filter_named_links,
}
use ujin.Float.{FloatOps}
use ujin.Cache.Store.{CachedEntry, get}
use ujin.Scrape.Model.{
  at_relook, Used, Link, Kept, ScrapeResult, Scraped, served, raised, Site, Answers, Service, met,
}

module _ ⦃F : FloatOps⦄ where
  -- a result is served with this strategy, or an error let through, and the policy is as it was
  abbrev pub ServesBy : Used → Service → Service × Scraped → Type 0
  ServesBy strategy svc out =
      (out.0.policy ≡ svc.policy)
      × (((r : ScrapeResult) × (out.1 ≡ served r) × (r.strategy_used ≡ strategy))
          ⊎ ((e : Error) × (out.1 ≡ raised e)))

  -- links are served with their strategy
  against_lem :
      (prior : Option (CachedEntry Kept)) (site : Site) (src : Source) (url : String)
      (found : List Link) (key : String) (ans : Answers) (svc : Service)
      → ((against prior site src url found key ans svc).0.policy ≡ svc.policy)
        × ((against prior site src url found key ans svc).1.strategy_used ≡ src.strategy)
  unfolding against unchanged fresh_links met
  against_lem none site src url found key ans svc = (refl, refl)
  against_lem (some prior) site src url found key ans svc =
      elim (Bool-cases (str_eq prior.payload.fingerprint (site.fingerprint_links found))) [
        | inl same ↦ rw (same, against) (refl, refl)
        | inr new ↦ rw (new, against) (refl, refl)
      ]

  pub finalize_lem :
      (site : Site) (src : Source) (url : String) (found : List Link) (key : String) (ans : Answers)
      (svc : Service)
      → ((finalize_links site src url found key ans svc).0.policy ≡ svc.policy)
        × ((finalize_links site src url found key ans svc).1.strategy_used ≡ src.strategy)
  unfolding finalize_links
  finalize_lem site src url found key ans svc =
      let base_url : String = elim src.final_url [ none ↦ url | some u ↦ u ] in
      let looked = get (ans.clock at_relook) key svc.cache in
      against_lem looked.0 site src url (filter_named_links site base_url found) key ans
        (record svc { cache = looked.1 })

  hinted_lem :
      (o : Option Error) (site : Site) (src : Source) (url : String) (found : List Link)
      (key : String) (ans : Answers) (svc : Service)
      → ServesBy src.strategy svc (hinted o site src url found key ans svc)
  unfolding hinted to_scraped
  hinted_lem none site src url found key ans svc =
      let done = finalize_lem site src url found key ans svc in (done.0, inl (_, refl, done.1))
  hinted_lem (some e) site src url found key ans svc = (refl, inr (e, refl))

  scored_lem :
      (o : Option Error) (site : Site) (src : Source) (url : String) (found named : List Link)
      (key : String) (ans : Answers) (svc : Service)
      → ServesBy src.strategy svc (scored o site src url found named key ans svc)
  unfolding scored
  scored_lem none site src url found named key ans svc = hinted_lem _ site src url found key ans svc
  scored_lem (some e) site src url found named key ans svc = (refl, inr (e, refl))

  filtered_lem :
      (o : Option Error) (site : Site) (src : Source) (url : String) (found named : List Link)
      (key : String) (ans : Answers) (svc : Service)
      → ServesBy src.strategy svc (filtered o site src url found named key ans svc)
  unfolding filtered
  filtered_lem none site src url found named key ans svc =
      scored_lem _ site src url found named key ans svc
  filtered_lem (some e) site src url found named key ans svc = (refl, inr (e, refl))

  pub or_raise_lem :
      (site : Site) (src : Source) (url : String) (found : List Link) (key : String) (ans : Answers)
      (svc : Service)
      → ServesBy src.strategy svc (finalize_or_raise site src url found key ans svc)
  unfolding finalize_or_raise
  or_raise_lem site src url found key ans svc = filtered_lem _ site src url found _ key ans svc
