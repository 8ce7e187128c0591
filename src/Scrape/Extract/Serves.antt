-- ===== src/Scrape/Extract/Serves.antt =====
-- What is made of a page: a result or an error, and the policy as it was.
use ujin.Prelude.{if_both, refl, inr, none, some, List, inl, ◌⊎◌, Option, String, ◌≡◌, Error}
use ujin.Scrape.Extract.{
  Request, extract_page, keep_items, keep_article, keep_links, keep, extract_or_raise,
  links_or_raise, plain_or_raise, page_source, taken_links,
}
use ujin.Scrape.Links.{to_scraped, Source, finalize_or_raise}
use ujin.Scrape.Model.{
  is_link_mode, Mode, links, auto_mode, article, structured, tables, images, metadata, feeds,
  contacts, html, Used, Link, ScrapeResult, Scraped, served, raised, Site, Answers, Service, met,
}
use ujin.Float.{FloatOps}
use ujin.Scrape.Fetch.{Fetched}
use ujin.Scrape.Links.Serves.{ServesBy, finalize_lem, or_raise_lem}

module _ ⦃F : FloatOps⦄ where
  -- a result is served, or an error let through, and the policy is as it was
  abbrev pub Serves : Service → Service × Scraped → Type 0
  Serves svc out =
      (out.0.policy ≡ svc.policy)
      × (((r : ScrapeResult) × (out.1 ≡ served r)) ⊎ ((e : Error) × (out.1 ≡ raised e)))

  pub serves_lem :
      (strategy : Used) (svc : Service) (out : Service × Scraped)
      → ServesBy strategy svc out
      → Serves svc out
  serves_lem strategy svc out (same, inl (r, is, by_it)) = (same, inl (r, is))
  serves_lem strategy svc out (same, inr broke) = (same, inr broke)

  links_lem :
      (o : Option Error) (site : Site) (req : Request) (f : Fetched) (page : String)
      (found : Option (List Link)) (ans : Answers) (svc : Service)
      → Serves svc (links_or_raise o site req f page found ans svc)
  unfolding links_or_raise
  links_lem none site req f page found ans svc =
      let src : Source = page_source f in
      let ls : List Link = taken_links site req f page found in
      serves_lem src.strategy svc (finalize_or_raise site src req.url ls req.key ans svc)
        (or_raise_lem site src req.url ls req.key ans svc)
  links_lem (some e) site req f page found ans svc = (refl, inr (e, refl))

  extract_lem :
      (mode : Mode) (site : Site) (req : Request) (f : Fetched) (page : String)
      (found : Option (List Link)) (ans : Answers) (svc : Service)
      → Serves svc (extract_page mode site req f page found ans svc)
  unfolding extract_page keep_items keep_article keep_links keep to_scraped met
  extract_lem links site req f page found ans svc =
      ((finalize_lem site _ req.url _ req.key ans svc).0, inl (_, refl))
  extract_lem auto_mode site req f page found ans svc =
      ((finalize_lem site _ req.url _ req.key ans svc).0, inl (_, refl))
  extract_lem html site req f page found ans svc =
      ((finalize_lem site _ req.url _ req.key ans svc).0, inl (_, refl))
  extract_lem article site req f page found ans svc = (refl, inl (_, refl))
  extract_lem structured site req f page found ans svc = (refl, inl (_, refl))
  extract_lem tables site req f page found ans svc = (refl, inl (_, refl))
  extract_lem images site req f page found ans svc = (refl, inl (_, refl))
  extract_lem metadata site req f page found ans svc = (refl, inl (_, refl))
  extract_lem feeds site req f page found ans svc = (refl, inl (_, refl))
  extract_lem contacts site req f page found ans svc = (refl, inl (_, refl))

  plain_lem :
      (o : Option Error) (mode : Mode) (site : Site) (req : Request) (f : Fetched) (page : String)
      (ans : Answers) (svc : Service)
      → Serves svc (plain_or_raise o mode site req f page ans svc)
  unfolding plain_or_raise
  plain_lem none mode site req f page ans svc = extract_lem mode site req f page none ans svc
  plain_lem (some e) mode site req f page ans svc = (refl, inr (e, refl))

  pub mode_lem :
      (mode : Mode) (site : Site) (req : Request) (f : Fetched) (page : String)
      (found : Option (List Link)) (ans : Answers) (svc : Service)
      → Serves svc (extract_or_raise mode site req f page found ans svc)
  unfolding extract_or_raise
  mode_lem mode site req f page found ans svc =
      if_both (λ (out : Service × Scraped). Serves svc out) (is_link_mode mode) _ _
        (links_lem _ site req f page found ans svc) (plain_lem _ mode site req f page ans svc)
