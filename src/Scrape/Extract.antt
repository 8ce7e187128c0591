-- ===== src/Scrape/Extract.antt =====
-- What is made of a fetched page, where no extractor raises on it, and of a cached entry: the branches
-- of `scrape` by mode, and `_result_from_cache`.
pub mod Agree
pub mod Serves
use ujin.Prelude.{
  Error, length, not, ok, [], false, ltb, none, raise, some, ◌&&◌, ◌∷◌, Bool, List, Option, Result,
  String, if◌then◌else◌, true, ℕ,
}
use ujin.Scrape.Links.{finalize_or_raise, Source, links_of, finalize_links, to_scraped}
use ujin.Float.{Float, FloatOps, float_zero}
use ujin.Cache.Store.{ScrapeCache, CachedEntry, get, put, age_secs}
use ujin.Cache.HostPolicy.{cooldown_remaining, record_success, record_failure}
use ujin.Scrape.Model.{
  at_cooldown, at_lookup, at_served, at_relook, at_put, at_failure, at_attempt, Mode, links,
  auto_mode, article, structured, tables, images, metadata, feeds, contacts, html, Kind, kind_of,
  empty, Pin, unpinned, pinned, pin_sitemap, pin_rss, Used, http_304, Link, Payload, link_list,
  article_text, items, Kept, ScrapeResult, Scraped, served, host_cooldown, fetch_failed, raised,
  Override, Site, Answers, Service, Metric, is_links, is_article, is_link_mode, met,
}
use ujin.Scrape.Model
use ujin.Scrape.Fetch.{Fetched, extract_with_profile}

-- the arguments of `scrape`; `key` is f"{mode}:{url}"
pub record Request : Type 0 where
  pub url : String
  pub mode : Mode
  pub key : String
  pub force_refresh : Bool
  pub render : Pin
  pub interval : Float

-- `payload.get("article")` and the like
unfoldable pub article_of : Payload → Option String
article_of (article_text a) = a
article_of (link_list found) = none
article_of (items xs) = none

unfoldable pub items_of : Payload → List String
items_of (items xs) = xs
items_of (link_list found) = []
items_of (article_text a) = []

unfoldable pub article_kind : Option String → Kind
article_kind none = empty
article_kind (some text) = kind_of article

unfoldable pub items_kind : Mode → List String → Kind
items_kind mode [] = empty
items_kind mode (x ∷ xs) = kind_of mode

-- the kind of a cached result: of feeds and contacts it does not say that there are none
unfoldable pub cached_kind : Mode → Payload → Kind
unfolding article_kind items_kind article_of items_of
cached_kind links p = kind_of links
cached_kind auto_mode p = kind_of links
cached_kind html p = kind_of links
cached_kind article p = article_kind (article_of p)
cached_kind structured p = items_kind structured (items_of p)
cached_kind tables p = items_kind tables (items_of p)
cached_kind images p = items_kind images (items_of p)
cached_kind metadata p = items_kind metadata (items_of p)
cached_kind feeds p = kind_of feeds
cached_kind contacts p = kind_of contacts

unfoldable pub cached_content : Mode → Payload → Payload
unfolding article_of items_of links_of
cached_content links p = link_list (links_of p)
cached_content auto_mode p = link_list (links_of p)
cached_content html p = link_list (links_of p)
cached_content article p = article_text (article_of p)
cached_content structured p = items (items_of p)
cached_content tables p = items (items_of p)
cached_content images p = items (items_of p)
cached_content metadata p = items (items_of p)
cached_content feeds p = items (items_of p)
cached_content contacts p = items (items_of p)

-- an article by the profile of its site, else by the general extractor
unfoldable pub find_article : Site → String → String → String → Option String
find_article site url page base_url = elim (site.article_profile url) [
  | none ↦ site.extract_article page base_url
  | some profile ↦ elim (profile page base_url) [
    | none ↦ site.extract_article page base_url
    | some text ↦ some text
  ]
]

unfoldable pub article_print : Site → Option String → String
article_print site none = ""
article_print site (some text) = site.sha256 text

unfoldable pub is_some {ℓ} : {A : Type ℓ} → Option A → Bool
is_some none = false
is_some (some a) = true

unfoldable pub url_or : Option String → String → String
url_or none url = url
url_or (some u) url = u

module _ ⦃F : FloatOps⦄ where
  -- `_result_from_cache`
  unfoldable pub result_from_cache : Float → CachedEntry Kept → Mode → ScrapeResult
  unfolding cached_kind cached_content age_secs
  result_from_cache now entry mode = record {
    url = entry.payload.url;
    kind = cached_kind mode entry.payload.payload;
    fingerprint = entry.payload.fingerprint;
    cached = true;
    age_secs = age_secs now entry;
    used_renderer = false;
    strategy_used = Model.cache;
    content = cached_content mode entry.payload.payload;
    final_url = none;
    next_poll_hint_secs = none;
  }

  -- the entry and the result of a fresh extraction other than of links
  unfoldable pub keep :
      Request → Fetched → Kind → String → Payload → Bool → Answers → Service → Service × Scraped
  keep req f kind fingerprint content success ans svc =
      let kept : Kept = record {
        url = req.url;
        fingerprint = fingerprint;
        payload = content;
        etag = f.etag;
        last_modified = f.last_modified;
      } in
      (
        met (record { success = success; from_cache = false; strategy = some f.strategy })
            (record svc {
              cache =
                  put req.key (record { payload = kept; fetched_at = ans.clock at_put; hits = 0 })
                    svc.cache;
            }),
        served (record {
          url = req.url;
          kind = kind;
          fingerprint = fingerprint;
          cached = false;
          age_secs = float_zero;
          used_renderer = f.used_renderer;
          strategy_used = f.strategy;
          content = content;
          final_url = f.final_url;
          next_poll_hint_secs = none;
        }),
      )

  unfoldable pub keep_items :
      Site → Request → Fetched → String → Answers → Service → Service × Scraped
  unfolding keep
  keep_items site req f page ans svc =
      let found : List String = site.extract req.mode page (url_or f.final_url req.url) in
      keep req f (kind_of req.mode) (site.fingerprint found) (items found) true ans svc

  unfoldable pub keep_article :
      Site → Request → Fetched → String → Answers → Service → Service × Scraped
  unfolding keep find_article article_kind article_print is_some
  keep_article site req f page ans svc =
      let found : Option String = find_article site req.url page (url_or f.final_url req.url) in
      keep req f (article_kind found) (article_print site found) (article_text found)
        (is_some found) ans svc

  -- where the links of a page come from
  unfoldable pub page_source : Fetched → Source
  page_source f = record {
    strategy = f.strategy;
    etag = f.etag;
    last_modified = f.last_modified;
    final_url = f.final_url;
    used_renderer = f.used_renderer;
  }

  -- the links that were extracted on the way are used again
  unfoldable pub taken_links : Site → Request → Fetched → String → Option (List Link) → List Link
  unfolding extract_with_profile
  taken_links site req f page (some ls) = ls
  taken_links site req f page none = extract_with_profile site page (url_or f.final_url req.url)

  unfoldable pub keep_links :
      Site → Request → Fetched → String → Option (List Link) → Answers → Service → Service × Scraped
  unfolding finalize_links to_scraped page_source taken_links
  keep_links site req f page found ans svc = to_scraped (
      finalize_links site (page_source f) req.url (taken_links site req f page found) req.key ans
        svc)

  -- what is made of a page in each mode, where nothing raises
  unfoldable pub extract_page :
      Mode
      → Site
      → Request
      → Fetched
      → String
      → Option (List Link)
      → Answers
      → Service
      → Service × Scraped
  unfolding keep_items keep_article keep_links
  extract_page links site req f page found ans svc = keep_links site req f page found ans svc
  extract_page auto_mode site req f page found ans svc = keep_links site req f page found ans svc
  extract_page html site req f page found ans svc = keep_links site req f page found ans svc
  extract_page article site req f page found ans svc = keep_article site req f page ans svc
  extract_page structured site req f page found ans svc = keep_items site req f page ans svc
  extract_page tables site req f page found ans svc = keep_items site req f page ans svc
  extract_page images site req f page found ans svc = keep_items site req f page ans svc
  extract_page metadata site req f page found ans svc = keep_items site req f page ans svc
  extract_page feeds site req f page found ans svc = keep_items site req f page ans svc
  extract_page contacts site req f page found ans svc = keep_items site req f page ans svc

  -- the links of a page that are still to be extracted, or the error of that
  links_or_raise :
      Option Error
      → Site
      → Request
      → Fetched
      → String
      → Option (List Link)
      → Answers
      → Service
      → Service × Scraped
  unfolding finalize_or_raise page_source taken_links
  links_or_raise (some e) site req f page found ans svc = (svc, raised e)
  links_or_raise none site req f page found ans svc =
      finalize_or_raise site (page_source f) req.url (taken_links site req f page found) req.key ans
        svc

  -- the error that extracting the links raises; links that are there are not extracted again
  links_error : Site → Request → Fetched → String → Option (List Link) → Option Error
  links_error site req f page (some ls) = none
  links_error site req f page none = site.extract_raises page (url_or f.final_url req.url)

  unfoldable pub plain_or_raise :
      Option Error
      → Mode
      → Site
      → Request
      → Fetched
      → String
      → Answers
      → Service
      → Service × Scraped
  unfolding extract_page
  plain_or_raise (some e) mode site req f page ans svc = (svc, raised e)
  plain_or_raise none mode site req f page ans svc = extract_page mode site req f page none ans svc

  -- what is made of a page in each mode, or the error of an extractor, the patterns or the scorer
  unfoldable pub extract_or_raise :
      Mode
      → Site
      → Request
      → Fetched
      → String
      → Option (List Link)
      → Answers
      → Service
      → Service × Scraped
  unfolding links_or_raise links_error plain_or_raise is_link_mode
  extract_or_raise mode site req f page found ans svc =
      if is_link_mode mode
      then links_or_raise (links_error site req f page found) site req f page found ans svc
      else plain_or_raise (site.mode_raises mode req.url page (url_or f.final_url req.url)) mode
          site req f page ans svc
