-- ===== src/Scrape/Model.antt =====
-- What a scrape works on. The texts of the notes, the wall-clock time of a result and the latencies
-- of the metrics are left out.
use ujin.Prelude.{false, none, Result, some, true, Bool, Error, List, Option, String, ◌∷◌, ℕ}
use ujin.Float.{Float}
use ujin.Cache.Store.{ScrapeCache, CachedEntry}
use ujin.Cache.HostPolicy.{HostPolicy}
use ujin.Adapt.SiteStore.{SiteStore}
use ujin.Adapt.Strategy.{Outcome}

-- `html` is a mode of `scrape_multi` only
pub data Mode : Type 0 where
  links auto_mode article structured tables images metadata feeds contacts html : Mode

pub data Kind : Type 0 where
  kind_of : Mode → Kind
  empty error : Kind

pub data Backend : Type 0 where
  http obscura browser : Backend

-- `render` and the strategy of an override
pub data Pin : Type 0 where
  unpinned : Pin
  pinned : Backend → Pin
  pin_sitemap pin_rss : Pin

-- `strategy_used`, and what the metrics have in its place
pub data Used : Type 0 where
  by : Backend → Used
  http_304 sitemap_news rss cache cooldown multi : Used

pub record Link : Type 0 where
  pub url : String
  pub text : String

-- What is extracted: links, an article's text, or what one of the other extractors finds, as the list
-- of its items.
pub data Payload : Type 0 where
  link_list : List Link → Payload
  article_text : Option String → Payload
  items : List String → Payload

-- what `CachedEntry` holds beside its time and its hits
pub record Kept : Type 0 where
  pub url : String
  pub fingerprint : String
  pub payload : Payload
  pub etag : Option String
  pub last_modified : Option String

pub record ScrapeResult : Type 0 where
  pub url : String
  pub kind : Kind
  pub fingerprint : String
  pub cached : Bool
  pub age_secs : Float
  pub used_renderer : Bool
  pub strategy_used : Used
  pub content : Payload
  pub final_url : Option String
  pub next_poll_hint_secs : Option Float

-- what a call of `scrape` returns or raises
pub data Scraped : Type 0 where
  served : ScrapeResult → Scraped
  host_cooldown fetch_failed : Scraped
  raised : Error → Scraped

pub record Response : Type 0 where
  pub status : ℕ
  pub body : String
  pub not_modified : Bool
  pub final_url : String
  pub etag : Option String
  pub last_modified : Option String

pub record Override : Type 0 where
  pub strategy : Pin
  pub sitemap_url : Option String
  pub rss_url : Option String

-- What the service does not compute itself: the override of an address, the extractors, the patterns
-- that an override denies, the fingerprints and the scorer's hint. The last fields say where these
-- raise: the extractor of links on a page, that of a mode (with its fingerprint) on an address, a page
-- and its base, the patterns on some links, the scorer and the fingerprint, and the scorer's hint. What
-- the fields above give counts only where these are `none`.
pub record Site : Type 0 where
  pub host_of : String → String
  pub lookup : String → Override
  pub link_profile : String → Option (String → List Link)
  pub headline_links : String → String → List Link
  pub path_denied : String → String → Bool
  pub title_denied : String → String → Bool
  pub article_profile : String → Option (String → String → Option String)
  pub extract_article : String → String → Option String
  pub extract : Mode → String → String → List String
  pub fingerprint_links : List Link → String
  pub fingerprint : List String → String
  pub sha256 : String → String
  pub poll_hint : List Link → Bool → Option Float
  pub extract_raises : String → String → Option Error
  pub mode_raises : Mode → String → String → String → Option Error
  pub filter_raises : String → List Link → Option Error
  pub scorer_raises : List Link → Option Error
  pub hint_raises : List Link → Bool → Option Error

-- where the code reads the monotonic clock
pub data Moment : Type 0 where
  at_cooldown at_lookup at_served at_relook at_put at_failure : Moment
  at_attempt : Backend → Moment

-- What is met on the way: the readings of the clock, and what the fetchers would answer; `http` is given the
-- validators. No `browser` is wired where it is `none`.
pub record Answers : Type 0 where
  pub clock : Moment → Float
  pub latency : Backend → Float
  pub http : Option String → Option String → Result Response
  pub obscura : Result String
  pub browser : Option (Result (String × String))
  pub pinned_sitemap : Result (Option (List Link))
  pub try_sitemap_news : Result (Option (List Link))
  pub try_rss : Result (Option (List Link))

pub record Metric : Type 0 where
  pub success : Bool
  pub from_cache : Bool
  pub strategy : Option Used

-- The state of the service. `contacted` is no field of the code: the fetchers called, the last first.
pub record Service : Type 0 where
  pub fast_path_min_links : ℕ
  pub learn_strategy : Bool
  pub cache : ScrapeCache Kept
  pub policy : HostPolicy
  pub feedback : List Outcome
  pub site_store : Option SiteStore
  pub metrics : List Metric
  pub contacted : List Backend

unfoldable pub is_links : Mode → Bool
is_links links = true
is_links _ = false

unfoldable pub is_article : Mode → Bool
is_article article = true
is_article _ = false

-- the modes that an alternative path may serve
unfoldable pub is_link_mode : Mode → Bool
is_link_mode links = true
is_link_mode auto_mode = true
is_link_mode _ = false

unfoldable pub met : Metric → Service → Service
met m svc = record svc { metrics = m ∷ svc.metrics }

unfoldable pub contact : Backend → Service → Service
contact b svc = record svc { contacted = b ∷ svc.contacted }

-- `entry.etag if cached else None`
unfoldable pub etag_of : Option (CachedEntry Kept) → Option String
etag_of none = none
etag_of (some e) = e.payload.etag

unfoldable pub last_modified_of : Option (CachedEntry Kept) → Option String
last_modified_of none = none
last_modified_of (some e) = e.payload.last_modified

-- a mode of `scrape` whose result is no list of links
abbrev pub IsPlain : Mode → Type 0
IsPlain links = ⊥
IsPlain auto_mode = ⊥
IsPlain html = ⊥
IsPlain _ = Unit
