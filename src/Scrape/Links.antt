-- ===== src/Scrape/Links.antt =====
-- The links of a page and what becomes of them: `_filter_named_links`, `_finalize_links`,
-- `_walk_altpath_chain` and `_direct_sitemap`.
pub mod Unchanged
pub mod Serves
use ujin.Scrape.Model.{
  raised, at_cooldown, at_lookup, at_served, at_relook, at_put, at_failure, at_attempt, items,
  article_text, Mode, links, Kind, kind_of, Used, sitemap_news, rss, Link, Payload, link_list, Kept,
  ScrapeResult, Scraped, served, Override, Site, Answers, Service, Metric, met,
}
use ujin.Prelude.{
  Error, min, str_eq, ◌&&◌, if◌then◌else◌, length, not, Bool, [], false, keep_if, ltb, none, ok,
  raise, some, true, ◌>>=◌, ◌∷◌, List, Option, Result, String, ℕ,
}
use ujin.Float.{mul, Float, FloatOps, float_zero, lit}
use ujin.Cache.Store.{ScrapeCache, CachedEntry, get, put}

-- the links that no pattern of the override denies
unfoldable pub filter_named_links : Site → String → List Link → List Link
filter_named_links site base_url found =
    keep_if
      (λ l.
        not (site.path_denied base_url l.url)
        && not (not (str_eq l.text "") && site.title_denied base_url l.text))
      found

-- `NullScorer.poll_hint`
unfoldable pub null_hint : ⦃F : FloatOps⦄ → List Link → Bool → Option Float
null_hint found prior_unchanged =
    some (if prior_unchanged then min (lit 300 1) (mul (lit 60 1) (lit 2 1)) else lit 60 1)

-- a new value where there is one
unfoldable pub or_else : Option String → Option String → Option String
or_else none old = old
or_else (some new) old = some new

-- `payload.get("links", [])`
unfoldable pub links_of : Payload → List Link
links_of (link_list found) = found
links_of (article_text a) = []
links_of (items xs) = []

-- the arguments that tell where the links come from
pub record Source : Type 0 where
  pub strategy : Used
  pub etag : Option String
  pub last_modified : Option String
  pub final_url : Option String
  pub used_renderer : Bool

module _ ⦃F : FloatOps⦄ where
  -- the entry and the result where the links are those that are cached
  unfoldable pub unchanged :
      Source
      → String
      → CachedEntry Kept
      → Option Float
      → String
      → Answers
      → Service
      → Service × ScrapeResult
  unfolding or_else links_of
  unchanged src url prior hint key ans svc =
      let kept : Kept = record {
        url = url;
        fingerprint = prior.payload.fingerprint;
        payload = prior.payload.payload;
        etag = or_else src.etag prior.payload.etag;
        last_modified = or_else src.last_modified prior.payload.last_modified;
      } in
      (
        met (record { success = true; from_cache = true; strategy = some src.strategy })
            (record svc {
              cache =
                  put key
                    (record { payload = kept; fetched_at = ans.clock at_put; hits = prior.hits })
                    svc.cache;
            }),
        record {
          url = url;
          kind = kind_of links;
          fingerprint = prior.payload.fingerprint;
          cached = true;
          age_secs = float_zero;
          used_renderer = src.used_renderer;
          strategy_used = src.strategy;
          content = link_list (links_of prior.payload.payload);
          final_url = src.final_url;
          next_poll_hint_secs = hint;
        },
      )

  unfoldable pub fresh_links :
      Source
      → String
      → List Link
      → String
      → Option Float
      → String
      → Answers
      → Service
      → Service × ScrapeResult
  fresh_links src url found fingerprint hint key ans svc =
      let kept : Kept = record {
        url = url;
        fingerprint = fingerprint;
        payload = link_list found;
        etag = src.etag;
        last_modified = src.last_modified;
      } in
      (
        met
            (record {
              success = ltb 0 (length found);
              from_cache = false;
              strategy = some src.strategy;
            })
            (record svc {
              cache =
                  put key (record { payload = kept; fetched_at = ans.clock at_put; hits = 0 })
                    svc.cache;
            }),
        record {
          url = url;
          kind = kind_of links;
          fingerprint = fingerprint;
          cached = false;
          age_secs = float_zero;
          used_renderer = src.used_renderer;
          strategy_used = src.strategy;
          content = link_list found;
          final_url = src.final_url;
          next_poll_hint_secs = hint;
        },
      )

  -- what the entry that was read from the cache makes of the links
  unfoldable pub against :
      Option (CachedEntry Kept)
      → Site
      → Source
      → String
      → List Link
      → String
      → Answers
      → Service
      → Service × ScrapeResult
  unfolding unchanged fresh_links
  against none site src url found key ans svc =
      fresh_links src url found (site.fingerprint_links found) (site.poll_hint found false) key ans
        svc
  against (some prior) site src url found key ans svc =
      if str_eq prior.payload.fingerprint (site.fingerprint_links found)
      then unchanged src url prior (site.poll_hint found true) key ans svc
      else fresh_links src url found (site.fingerprint_links found) (site.poll_hint found false) key
          ans svc

  -- `_finalize_links`, where neither the patterns nor the scorer raise
  unfoldable pub finalize_links :
      Site → Source → String → List Link → String → Answers → Service → Service × ScrapeResult
  unfolding against filter_named_links get
  finalize_links site src url found key ans svc =
      let base_url : String = elim src.final_url [ none ↦ url | some u ↦ u ] in
      let looked : Option (CachedEntry Kept) × ScrapeCache Kept =
        get (ans.clock at_relook) key svc.cache in
      against looked.0 site src url (filter_named_links site base_url found) key ans
        (record svc { cache = looked.1 })

  unfoldable pub to_scraped : Service × ScrapeResult → Service × Scraped
  to_scraped (svc, r) = (svc, served r)

  -- the error of the scorer's hint comes after the entry was looked up
  hinted :
      Option Error
      → Site
      → Source
      → String
      → List Link
      → String
      → Answers
      → Service
      → Service × Scraped
  unfolding finalize_links to_scraped
  hinted none site src url found key ans svc =
      to_scraped (finalize_links site src url found key ans svc)
  hinted (some e) site src url found key ans svc =
      (record svc { cache = (get (ans.clock at_relook) key svc.cache).1 }, raised e)

  -- whether the entry that was looked up has the fingerprint of the links
  prior_unchanged : Site → List Link → Option (CachedEntry Kept) → Bool
  prior_unchanged site named none = false
  prior_unchanged site named (some prior) =
      str_eq prior.payload.fingerprint (site.fingerprint_links named)

  scored :
      Option Error
      → Site
      → Source
      → String
      → List Link
      → List Link
      → String
      → Answers
      → Service
      → Service × Scraped
  unfolding hinted prior_unchanged
  scored (some e) site src url found named key ans svc = (svc, raised e)
  scored none site src url found named key ans svc =
      hinted
        (site.hint_raises named
          (prior_unchanged site named (get (ans.clock at_relook) key svc.cache).0))
        site src url found key ans svc

  filtered :
      Option Error
      → Site
      → Source
      → String
      → List Link
      → List Link
      → String
      → Answers
      → Service
      → Service × Scraped
  unfolding scored
  filtered (some e) site src url found named key ans svc = (svc, raised e)
  filtered none site src url found named key ans svc =
      scored (site.scorer_raises named) site src url found named key ans svc

  -- `_finalize_links`
  unfoldable pub finalize_or_raise :
      Site → Source → String → List Link → String → Answers → Service → Service × Scraped
  unfolding filtered filter_named_links
  finalize_or_raise site src url found key ans svc =
      let base_url : String = elim src.final_url [ none ↦ url | some u ↦ u ] in
      filtered (site.filter_raises base_url found) site src url found
        (filter_named_links site base_url found) key ans svc

-- a way around the page, and its links
abbrev pub AltPath : Type 0
AltPath = Used × List Link

try_rss_of : Option String → Result (Option (List Link)) → Option AltPath
try_rss_of none answer = none
try_rss_of (some feed) (raise e) = none
try_rss_of (some feed) (ok none) = none
try_rss_of (some feed) (ok (some found)) = some (rss, found)

walk : Override → Result (Option (List Link)) → Result (Option (List Link)) → Option AltPath
unfolding try_rss_of
walk o (ok (some found)) feed = some (sitemap_news, found)
walk o (ok none) feed = try_rss_of o.rss_url feed
walk o (raise e) feed = try_rss_of o.rss_url feed

-- `_walk_altpath_chain`: an error of one way leads to the next
unfoldable pub walk_altpath_chain : Override → Answers → Option AltPath
unfolding walk
walk_altpath_chain o ans = walk o ans.try_sitemap_news ans.try_rss

unfoldable pub pinned_links : Option String → Result (Option (List Link)) → List Link
pinned_links none answer = []
pinned_links (some u) (raise e) = []
pinned_links (some u) (ok none) = []
pinned_links (some u) (ok (some found)) = found

unfoldable pub unless_empty : List Link → List Link → List Link
unless_empty [] whole = whole
unless_empty (l ∷ ls) whole = l ∷ ls

-- the discovered sitemap, filtered unless nothing would be left
unfoldable pub discovered : Site → String → Result (Option (List Link)) → Result (Option AltPath)
unfolding unless_empty filter_named_links
discovered site url (raise e) = raise e
discovered site url (ok none) = ok none
discovered site url (ok (some found)) = elim (site.filter_raises url found) [
  | some e ↦ raise e
  | none ↦ ok (some (sitemap_news, unless_empty (filter_named_links site url found) found))
]

-- the links of the pinned sitemap, if there are any, before what is discovered
unfoldable pub first_links : List Link → Result (Option AltPath) → Result (Option AltPath)
first_links [] other = other
first_links (l ∷ ls) other = ok (some (sitemap_news, l ∷ ls))

-- `_direct_sitemap`
unfoldable pub direct_sitemap : Site → String → Option String → Answers → Result (Option AltPath)
unfolding first_links pinned_links discovered
direct_sitemap site url pin ans =
    first_links (pinned_links pin ans.pinned_sitemap) (discovered site url ans.try_sitemap_news)

unfoldable pub with_rss : Option (List Link) → Option AltPath
with_rss none = none
with_rss (some found) = some (rss, found)

-- `_direct_rss`
unfoldable pub direct_rss : Option String → Answers → Result (Option AltPath)
unfolding with_rss
direct_rss none ans = ok none
direct_rss (some feed) ans = ans.try_rss >>= λ found. ok (with_rss found)
