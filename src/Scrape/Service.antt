-- ===== src/Scrape/Service.antt =====
-- `scrape`: the cooldown, the cache, the ways that an override pins, the fetch and the alternative paths.
pub mod Cooldown
pub mod Outcome
pub mod Lost
use ujin.Prelude.{
  length, not, ok, [], false, ltb, none, raise, some, ◌&&◌, ◌∷◌, Bool, List, Option, Result, String,
  if◌then◌else◌, true, ℕ, Error,
}
use ujin.Float.{Float, FloatOps, float_zero}
use ujin.Cache.Store.{ScrapeCache, CachedEntry, get, put, age_secs}
use ujin.Cache.HostPolicy.{cooldown_remaining, record_success, record_failure}
use ujin.Scrape.Model.{
  at_cooldown, at_lookup, at_served, at_relook, at_put, at_failure, at_attempt, Mode, links,
  auto_mode, article, structured, tables, images, metadata, feeds, contacts, html, Kind, kind_of,
  empty, Pin, unpinned, pinned, pin_sitemap, pin_rss, Used, http_304, Link, Payload, link_list,
  article_text, items, Kept, ScrapeResult, Scraped, served, host_cooldown, fetch_failed, raised,
  Override, Site, Answers, Service, Metric, is_links, is_article, is_link_mode, met,
}
use ujin.Scrape.Model
use ujin.Scrape.Extract.{Request, result_from_cache, extract_or_raise, url_or}
use ujin.Scrape.Links.{
  finalize_or_raise, Source, links_of, finalize_links, AltPath, walk_altpath_chain, direct_sitemap,
  direct_rss,
}
use ujin.Scrape.Fetch.{Fetched, extract_with_profile, fetch_html, biased_auto_strategy}

module _ ⦃F : FloatOps⦄ where
  -- links found around the page are used in place of the page's
  from_alt : Site → Request → Bool → AltPath → Answers → Service → Service × Scraped
  unfolding finalize_or_raise
  from_alt site req used_renderer (strategy, found) ans svc =
      finalize_or_raise site
        (record {
          strategy = strategy;
          etag = none;
          last_modified = none;
          final_url = none;
          used_renderer = used_renderer;
        })
        req.url found req.key ans svc

  -- the links of the page, where they are looked at before the alternative paths
  page_links : Site → Request → Fetched → Option (List Link)
  unfolding extract_with_profile
  page_links site req f = elim f.html [
    | none ↦ none
    | some page ↦
        if is_links req.mode
        then some (elim f.prelinks [
          | some ls ↦ ls
          | none ↦ extract_with_profile site page (url_or f.final_url req.url)
        ])
        else none
  ]

  -- whether the alternative paths are tried
  try_alt : Request → Fetched → Option (List Link) → ℕ → Bool
  try_alt req f found min_links = is_link_mode req.mode && (elim f.html [
    | none ↦ true
    | some page ↦ elim found [ none ↦ false | some ls ↦ ltb (length ls) min_links ]
  ])

  -- after the fetch and the alternative paths
  settle :
      Site
      → Request
      → Fetched
      → Option String
      → Option (List Link)
      → Option AltPath
      → Answers
      → Service
      → Service × Scraped
  unfolding extract_or_raise from_alt
  settle site req f none found none ans svc = (
    met (record { success = false; from_cache = false; strategy = none })
        (record svc {
          policy = record_failure (ans.clock at_failure) (site.host_of req.url) svc.policy;
        }),
    fetch_failed,
  )
  settle site req f page found (some alt) ans svc =
      from_alt site req f.used_renderer alt ans
        (record svc { policy = record_success (site.host_of req.url) svc.policy })
  settle site req f (some page) found none ans svc =
      extract_or_raise req.mode site req f page found ans
        (record svc { policy = record_success (site.host_of req.url) svc.policy })

  -- an entry that was found unchanged is served; `next` is what is done without one
  unless_cached :
      Request
      → Option (CachedEntry Kept)
      → Answers
      → Service
      → Service × Scraped
      → Service × Scraped
  unfolding result_from_cache
  unless_cached req none ans svc next = next
  unless_cached req (some entry) ans svc next = (
    met (record { success = true; from_cache = true; strategy = some http_304 }) svc,
    served (result_from_cache (ans.clock at_served) entry req.mode),
  )

  -- the alternative path that is taken, if one is tried and leads anywhere
  alt_for : Site → Request → Fetched → Option (List Link) → Answers → ℕ → Option AltPath
  unfolding try_alt
  alt_for site req f found ans min_links =
      if try_alt req f found min_links then walk_altpath_chain (site.lookup req.url) ans else none

  -- the error that is raised where the links are looked at before the alternative paths
  page_error : Site → Request → Fetched → Option Error
  page_error site req f = elim f.html [
    | none ↦ none
    | some page ↦
        if is_links req.mode
        then elim f.prelinks [
          | some ls ↦ none
          | none ↦ site.extract_raises page (url_or f.final_url req.url)
        ]
        else none
  ]

  settle_or_raise : Option Error → Service → Service × Scraped → Service × Scraped
  settle_or_raise (some e) svc rest = (svc, raised e)
  settle_or_raise none svc rest = rest

  -- `scrape` after `_fetch_html`
  unfoldable pub after_fetch :
      Site → Request → Option (CachedEntry Kept) → Fetched → Answers → Service → Service × Scraped
  unfolding settle page_links page_error settle_or_raise alt_for unless_cached
  after_fetch site req cached f ans svc =
      let found : Option (List Link) = page_links site req f in
      let rest : Service × Scraped = settle_or_raise (page_error site req f) svc (
        settle site req f f.html found (alt_for site req f found ans svc.fast_path_min_links) ans
          svc) in
      if f.not_modified then unless_cached req cached ans svc rest else rest

  -- what a way that is pinned by an override found; `next` is the ordinary fetch
  short_cut :
      Site
      → Request
      → Result (Option AltPath)
      → Answers
      → Service
      → Service × Scraped
      → Service × Scraped
  unfolding from_alt
  short_cut site req (raise e) ans svc next = (svc, raised e)
  short_cut site req (ok none) ans svc next = next
  short_cut site req (ok (some alt)) ans svc next = from_alt site req false alt ans svc

  -- the strategy of the fetch: the one asked for, that of the override, or what was learned
  effective : Pin → Pin → Option Pin → Pin
  effective unpinned unpinned none = unpinned
  effective unpinned unpinned (some learned) = learned
  effective unpinned (pinned b) learned = pinned b
  effective unpinned pin_sitemap learned = pin_sitemap
  effective unpinned pin_rss learned = pin_rss
  effective (pinned b) own learned = pinned b
  effective pin_sitemap own learned = pin_sitemap
  effective pin_rss own learned = pin_rss

  unfoldable pub strategy_of : Site → Request → Answers → Service → Pin
  unfolding effective biased_auto_strategy
  strategy_of site req ans svc =
      effective req.render (site.lookup req.url).strategy (
        if svc.learn_strategy then biased_auto_strategy site ans req.interval req.url svc else none)

  fetched :
      Site → Request → Option (CachedEntry Kept) → Answers → Service × Fetched → Service × Scraped
  unfolding after_fetch
  fetched site req cached ans (svc, f) = after_fetch site req cached f ans svc

  unfoldable pub fetch_and_extract :
      Site → Request → Option (CachedEntry Kept) → Answers → Service → Service × Scraped
  unfolding fetched strategy_of
  fetch_and_extract site req cached ans svc =
      fetched site req cached ans
        (fetch_html site ans req.mode req.url cached (strategy_of site req ans svc) svc)

  -- `scrape` past the cooldown, with the entry that the cache has
  go_on : Pin → Site → Request → Option (CachedEntry Kept) → Answers → Service → Service × Scraped
  unfolding fetch_and_extract short_cut
  go_on pin_sitemap site req cached ans svc =
      if is_article req.mode
      then fetch_and_extract site req cached ans svc
      else short_cut site req (direct_sitemap site req.url (site.lookup req.url).sitemap_url ans)
          ans svc (fetch_and_extract site req cached ans svc)
  go_on pin_rss site req cached ans svc =
      if is_article req.mode
      then fetch_and_extract site req cached ans svc
      else short_cut site req (direct_rss (site.lookup req.url).rss_url ans) ans svc
          (fetch_and_extract site req cached ans svc)
  go_on unpinned site req cached ans svc = fetch_and_extract site req cached ans svc
  go_on (pinned b) site req cached ans svc = fetch_and_extract site req cached ans svc

  -- a host in its cooldown is served from the cache, or not at all
  cooling : Request → Option (CachedEntry Kept) → Answers → Service → Service × Scraped
  unfolding result_from_cache
  cooling req (some entry) ans svc = (
    met (record { success = true; from_cache = true; strategy = some Model.cache }) svc,
    served (result_from_cache (ans.clock at_served) entry req.mode),
  )
  cooling req none ans svc = (
    met (record { success = false; from_cache = false; strategy = some Model.cooldown }) svc,
    host_cooldown,
  )

  -- whether the host is to be left alone
  unfoldable pub cools : Site → Request → Answers → Service → Bool
  unfolding cooldown_remaining
  cools site req ans svc =
      ltb float_zero (cooldown_remaining (ans.clock at_cooldown) (site.host_of req.url) svc.policy)
      && not req.force_refresh

  -- `scrape` in any mode but `combined`
  unfoldable pub scrape : Site → Request → Answers → Service → Service × Scraped
  unfolding cooling go_on get cools
  scrape site req ans svc =
      let looked : Option (CachedEntry Kept) × ScrapeCache Kept =
        get (ans.clock at_lookup) req.key svc.cache in
      let own : Pin = (site.lookup req.url).strategy in
      if cools site req ans svc
      then cooling req looked.0 ans (record svc { cache = looked.1 })
      else if req.force_refresh
      then go_on own site req none ans svc
      else go_on own site req looked.0 ans (record svc { cache = looked.1 })
