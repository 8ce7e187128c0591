-- ===== src/Scrape/Service/Outcome.antt =====
-- What a scrape tells the host policy.
use ujin.Prelude.{
  false, Bool, [], ◌∷◌, sym, raise, ok, Result, if_both, refl, inr, none, some, ◌∙◌, List, inl, ◌⊎◌,
  Option, String, ◌≡◌, Error, Option-cases,
}
use ujin.Scrape.Extract.{result_from_cache, Request, extract_or_raise}
use ujin.Scrape.Model.{
  is_link_mode, at_cooldown, at_lookup, at_served, at_relook, at_put, at_failure, at_attempt, Mode,
  links, auto_mode, article, structured, tables, images, metadata, feeds, contacts, html, Pin,
  unpinned, pinned, pin_sitemap, pin_rss, Backend, Used, by, http_304, sitemap_news, rss, Link,
  Kept, ScrapeResult, Scraped, served, host_cooldown, fetch_failed, raised, Site, Answers, Service,
  is_article, met,
}
use ujin.Scrape.Extract.Serves.{Serves, serves_lem, mode_lem}
use ujin.Scrape.Links.Serves.{ServesBy, or_raise_lem}
use ujin.Scrape.Service.{
  page_error, settle_or_raise, from_alt, settle, unless_cached, page_links, alt_for, after_fetch,
  short_cut, strategy_of, fetched, fetch_and_extract, go_on, cooling, cools, scrape,
}
use mathlib.Core.Path.{subst}
use ujin.Float.{Float, FloatOps}
use ujin.Cache.Store.{CachedEntry, get}
use ujin.Cache.HostPolicy.{HostPolicy, record_success, record_failure}
use ujin.Scrape.Model
use ujin.Scrape.Fetch.{Fetched, fetch_html}
use ujin.Scrape.Fetch.Contacts.{fetch_html-Calls}
use ujin.Scrape.Links.{
  filter_named_links, AltPath, pinned_links, discovered, unless_empty, first_links, with_rss,
  direct_sitemap, direct_rss,
}

module _ ⦃F : FloatOps⦄ where
  -- a result that no fetched page stands behind
  abbrev pub NoPage : Used → Type 0
  NoPage (by b) = ⊥
  NoPage http_304 = ⊥
  NoPage sitemap_news = Unit
  NoPage rss = Unit
  NoPage Model.cache = Unit
  NoPage Model.cooldown = ⊥
  NoPage Model.multi = ⊥

  -- the policy after an outcome, given the policy before
  abbrev pub Told : Float → String → HostPolicy → HostPolicy → Scraped → Type 0
  Told now host before after (served r) =
      (after ≡ record_success host before) ⊎ (after ≡ before) × NoPage r.strategy_used
  Told now host before after fetch_failed = after ≡ record_failure now host before
  Told now host before after host_cooldown = after ≡ before
  Told now host before after (raised e) = (after ≡ before) ⊎ (after ≡ record_success host before)

  served-Told :
      (now : Float) (host : String) (before : HostPolicy) (svc : Service) (out : Service × Scraped)
      → svc.policy ≡ record_success host before
      → Serves svc out
      → Told now host before out.0.policy out.1
  served-Told now host before svc out won (same, inl (r, is)) = rw is (inl (same ∙ won))
  served-Told now host before svc out won (same, inr (e, is)) = rw is (inr (same ∙ won))

  alt_lem :
      (site : Site) (req : Request) (used_renderer : Bool) (strategy : Used) (ls : List Link)
      (ans : Answers) (svc : Service)
      → ServesBy strategy svc (from_alt site req used_renderer (strategy, ls) ans svc)
  unfolding from_alt
  alt_lem site req used_renderer strategy ls ans svc =
      or_raise_lem site
        (record {
          strategy = strategy;
          etag = none;
          last_modified = none;
          final_url = none;
          used_renderer = used_renderer;
        })
        req.url ls req.key ans svc

  alt-Told :
      (site : Site) (req : Request) (used_renderer : Bool) (alt : AltPath) (ans : Answers)
      (svc : Service)
      → let host : String = site.host_of req.url in
        let out =
          from_alt site req used_renderer alt ans
            (record svc { policy = record_success host svc.policy }) in
        Told (ans.clock at_failure) host svc.policy out.0.policy out.1
  alt-Told site req used_renderer (strategy, ls) ans svc =
      let host : String = site.host_of req.url in
      let svc' : Service = record svc { policy = record_success host svc.policy } in
      let out : Service × Scraped = from_alt site req used_renderer (strategy, ls) ans svc' in
      served-Told (ans.clock at_failure) host svc.policy svc' out refl
        (serves_lem strategy svc' out (alt_lem site req used_renderer strategy ls ans svc'))

  settle-Told :
      (site : Site) (req : Request) (f : Fetched) (page : Option String)
      (found : Option (List Link)) (alt : Option AltPath) (ans : Answers) (svc : Service)
      → let out = settle site req f page found alt ans svc in
        Told (ans.clock at_failure) (site.host_of req.url) svc.policy out.0.policy out.1
  unfolding settle from_alt met
  settle-Told site req f none found none ans svc = refl
  settle-Told site req f none found (some (strategy, ls)) ans svc =
      alt-Told site req f.used_renderer (strategy, ls) ans svc
  settle-Told site req f (some page) found (some (strategy, ls)) ans svc =
      alt-Told site req f.used_renderer (strategy, ls) ans svc
  settle-Told site req f (some page) found none ans svc =
      let host : String = site.host_of req.url in
      let svc' : Service = record svc { policy = record_success host svc.policy } in
      served-Told (ans.clock at_failure) host svc.policy svc'
        (extract_or_raise req.mode site req f page found ans svc') refl
        (mode_lem req.mode site req f page found ans svc')

  later-Told :
      (o : Option Error) (now : Float) (host : String) (svc : Service) (rest : Service × Scraped)
      → Told now host svc.policy rest.0.policy rest.1
      → let out = settle_or_raise o svc rest in Told now host svc.policy out.0.policy out.1
  unfolding settle_or_raise
  later-Told none now host svc rest h = h
  later-Told (some e) now host svc rest h = inl refl

  unless-Told :
      (req : Request) (cached : Option (CachedEntry Kept)) (now : Float) (host : String)
      (ans : Answers) (svc : Service) (rest : Service × Scraped)
      → Told now host svc.policy rest.0.policy rest.1
      → let out = unless_cached req cached ans svc rest in
        Told now host svc.policy out.0.policy out.1
  unfolding unless_cached result_from_cache met
  unless-Told req none now host ans svc rest h = h
  unless-Told req (some entry) now host ans svc rest h = inr (refl, tt)

  page-Told :
      (site : Site) (req : Request) (cached : Option (CachedEntry Kept)) (f : Fetched)
      (ans : Answers) (svc : Service)
      → let out = after_fetch site req cached f ans svc in
        Told (ans.clock at_failure) (site.host_of req.url) svc.policy out.0.policy out.1
  unfolding after_fetch
  page-Told site req cached f ans svc =
      let host : String = site.host_of req.url in
      let found : Option (List Link) = page_links site req f in
      let alt : Option AltPath = alt_for site req f found ans svc.fast_path_min_links in
      let rest : Service × Scraped =
        settle_or_raise (page_error site req f) svc (settle site req f f.html found alt ans svc) in
      let rest_told =
        later-Told (page_error site req f) (ans.clock at_failure) host svc
          (settle site req f f.html found alt ans svc)
          (settle-Told site req f f.html found alt ans svc) in
      if_both
        (λ (out : Service × Scraped).
          Told (ans.clock at_failure) host svc.policy out.0.policy out.1)
        f.not_modified (unless_cached req cached ans svc rest) rest
        (unless-Told req cached (ans.clock at_failure) host ans svc rest rest_told) rest_told

  -- told of a service with the policy of another
  Told-again :
      (now : Float) (host : String) (a b : HostPolicy) (out : Service × Scraped)
      → b ≡ a
      → Told now host b out.0.policy out.1
      → Told now host a out.0.policy out.1
  Told-again now host a b out e h = subst (λ p. Told now host p out.0.policy out.1) e h

  fetch-Told :
      (site : Site) (req : Request) (cached : Option (CachedEntry Kept)) (ans : Answers)
      (svc : Service)
      → let out = fetch_and_extract site req cached ans svc in
        Told (ans.clock at_failure) (site.host_of req.url) svc.policy out.0.policy out.1
  unfolding fetch_and_extract fetched
  fetch-Told site req cached ans svc =
      let pin : Pin = strategy_of site req ans svc in
      let r : Service × Fetched = fetch_html site ans req.mode req.url cached pin svc in
      let same = fetch_html-Calls site ans req.mode req.url cached pin svc in
      Told-again (ans.clock at_failure) (site.host_of req.url) svc.policy r.0.policy
        (after_fetch site req cached r.1 ans r.0) same.1.1 (page-Told site req cached r.1 ans r.0)

  paged-Told :
      (now : Float) (host : String) (strategy : Used) (svc : Service) (out : Service × Scraped)
      → NoPage strategy
      → ServesBy strategy svc out
      → Told now host svc.policy out.0.policy out.1
  paged-Told now host strategy svc out n (same, inl (r, is, by_it)) =
      rw is (inr (same, subst NoPage (sym by_it) n))
  paged-Told now host strategy svc out n (same, inr (e, is)) = rw is (inl same)

  short-Told :
      (site : Site) (req : Request) (found : Result (Option AltPath)) (ans : Answers)
      (svc : Service) (next : Service × Scraped)
      → ((alt : AltPath) → found ≡ ok (some alt) → NoPage alt.0)
      → Told (ans.clock at_failure) (site.host_of req.url) svc.policy next.0.policy next.1
      → let out = short_cut site req found ans svc next in
        Told (ans.clock at_failure) (site.host_of req.url) svc.policy out.0.policy out.1
  unfolding short_cut
  short-Told site req (raise e) ans svc next n h = inl refl
  short-Told site req (ok none) ans svc next n h = h
  short-Told site req (ok (some (strategy, ls))) ans svc next n h =
      paged-Told (ans.clock at_failure) (site.host_of req.url) strategy svc
        (from_alt site req false (strategy, ls) ans svc) (n (strategy, ls) refl)
        (alt_lem site req false strategy ls ans svc)

  no_page :
      (s : Used) (ls : List Link) (alt : AltPath)
      → NoPage s
      → ◌≡◌ {A = Result (Option AltPath)} (ok (some (s, ls))) (ok (some alt))
      → NoPage alt.0
  no_page s ls alt n h = let e : s ≡ alt.0 = cc in subst NoPage e n

  found_there :
      (site : Site) (url : String) (r : Result (Option (List Link))) (alt : AltPath)
      → discovered site url r ≡ ok (some alt)
      → NoPage alt.0
  unfolding discovered
  found_there site url (raise e) alt h = cc
  found_there site url (ok none) alt h = cc
  found_there site url (ok (some found)) alt h =
      elim (Option-cases (site.filter_raises url found)) [
        | inl fine ↦
            no_page sitemap_news (unless_empty (filter_named_links site url found) found) alt tt
              (rw (fine, discovered) at h)
        | inr (e, broken) ↦ absurd (cc (rw (broken, discovered) at h))
      ]

  sitemap_lem :
      (ls : List Link) (other : Result (Option AltPath)) (alt : AltPath)
      → (other ≡ ok (some alt) → NoPage alt.0)
      → first_links ls other ≡ ok (some alt)
      → NoPage alt.0
  unfolding first_links
  sitemap_lem [] other alt k h = k h
  sitemap_lem (l ∷ ls) other alt k h = no_page sitemap_news (l ∷ ls) alt tt h

  rss_lem :
      (feed : Option String) (ans : Answers) (r : Result (Option (List Link))) (alt : AltPath)
      → ans.try_rss ≡ r
      → direct_rss feed ans ≡ ok (some alt)
      → NoPage alt.0
  unfolding direct_rss with_rss
  rss_lem none ans r alt e h = cc
  rss_lem (some feed) ans (raise err) alt e h = cc
  rss_lem (some feed) ans (ok none) alt e h = cc
  rss_lem (some feed) ans (ok (some found)) alt e h = no_page rss found alt tt (rw e at h)

  go_on-Told :
      (own : Pin) (site : Site) (req : Request) (cached : Option (CachedEntry Kept)) (ans : Answers)
      (svc : Service)
      → let out = go_on own site req cached ans svc in
        Told (ans.clock at_failure) (site.host_of req.url) svc.policy out.0.policy out.1
  unfolding go_on direct_sitemap
  go_on-Told unpinned site req cached ans svc = fetch-Told site req cached ans svc
  go_on-Told (pinned b) site req cached ans svc = fetch-Told site req cached ans svc
  go_on-Told pin_sitemap site req cached ans svc =
      let told = fetch-Told site req cached ans svc in
      if_both
        (λ (out : Service × Scraped).
          Told (ans.clock at_failure) (site.host_of req.url) svc.policy out.0.policy out.1)
        (is_article req.mode) (fetch_and_extract site req cached ans svc) _ told
        (short-Told site req (direct_sitemap site req.url (site.lookup req.url).sitemap_url ans) ans
          svc (fetch_and_extract site req cached ans svc)
          (λ alt h.
            sitemap_lem (pinned_links (site.lookup req.url).sitemap_url ans.pinned_sitemap)
              (discovered site req.url ans.try_sitemap_news) alt
              (found_there site req.url ans.try_sitemap_news alt) h)
          told)
  go_on-Told pin_rss site req cached ans svc =
      let told = fetch-Told site req cached ans svc in
      if_both
        (λ (out : Service × Scraped).
          Told (ans.clock at_failure) (site.host_of req.url) svc.policy out.0.policy out.1)
        (is_article req.mode) (fetch_and_extract site req cached ans svc) _ told
        (short-Told site req (direct_rss (site.lookup req.url).rss_url ans) ans svc
          (fetch_and_extract site req cached ans svc)
          (λ alt h. rss_lem (site.lookup req.url).rss_url ans ans.try_rss alt refl h) told)

  cooling-Told :
      (req : Request) (cached : Option (CachedEntry Kept)) (now : Float) (host : String)
      (ans : Answers) (svc : Service)
      → let out = cooling req cached ans svc in Told now host svc.policy out.0.policy out.1
  unfolding cooling result_from_cache met
  cooling-Told req none now host ans svc = refl
  cooling-Told req (some entry) now host ans svc = inr (refl, tt)

  -- What a scrape does to the host policy goes with what it comes to: where it raises that the fetch
  -- failed, a failure of the host is recorded; where it serves a result, a success is recorded, or
  -- nothing is, and then the result came from the cache or from a sitemap or a feed that stands in for
  -- the page; where it raises the cooldown, nothing is recorded; where it lets an error of an
  -- extractor, a pattern, the scorer or a pinned way through, nothing or a success is recorded, and
  -- never a failure.
  pub scrape-Told :
      (site : Site) (req : Request) (ans : Answers) (svc : Service)
      → let out = scrape site req ans svc in
        Told (ans.clock at_failure) (site.host_of req.url) svc.policy out.0.policy out.1
  unfolding scrape
  scrape-Told site req ans svc =
      let P : Service × Scraped → Type 0 =
        (λ out. Told (ans.clock at_failure) (site.host_of req.url) svc.policy out.0.policy out.1) in
      let looked = get (ans.clock at_lookup) req.key svc.cache in
      let svc' : Service = record svc { cache = looked.1 } in
      let own : Pin = (site.lookup req.url).strategy in
      if_both P (cools site req ans svc) (cooling req looked.0 ans svc') _
        (cooling-Told req looked.0 (ans.clock at_failure) (site.host_of req.url) ans svc')
        (if_both P req.force_refresh (go_on own site req none ans svc)
          (go_on own site req looked.0 ans svc') (go_on-Told own site req none ans svc)
          (go_on-Told own site req looked.0 ans svc'))
