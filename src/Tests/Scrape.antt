-- ===== src/Tests/Scrape.antt =====
-- Scrapes of one site over decimals with two places, and the feedback on its fetches.
use ujin.Scrape.Extract.{extract_or_raise, Request, extract_page, result_from_cache}
use ujin.Prelude.{
  ◌==◌, eq_iff, length, arith, ok, refl, str_eq, Result, [], if◌then◌else◌, value_error, ◌≡◌, List,
  String, false, none, raise, some, true, ◌∷◌, ℕ,
}
use ujin.Prelude.Dict.{lookup}
use ujin.Float.Fixed.{fixed}
use ujin.Cache.Store.{CachedEntry, get, age_secs}
use ujin.Cache.HostPolicy.{HostPolicy, cooldown_remaining}
use ujin.Adapt.Strategy.{Key, Tried, find, of_host, recommend}
use ujin.Adapt.Strategy.Counted.{run_log, about, Summary, run_log-Summary}
use ujin.Adapt.Strategy.Best.{IsBest, recommend-IsBest}
use ujin.Scrape.Model.{
  Mode, links, tables, http, unpinned, pinned, by, Link, Kept, Response, served, ScrapeResult, Site,
  Answers, Service,
}
use ujin.Scrape.Fetch.{Fetched, fetch_html, extract_with_profile}
use ujin.Scrape.Fetch.Contacts.{Calls, Leaves, fetch_html-Calls}
use ujin.Scrape.Fetch.Thin.{fetch_html-thin}
use ujin.Scrape.Links.{Source, finalize_links}
use ujin.Scrape.Links.Unchanged.{finalize_links-again}
use ujin.Scrape.Extract.Agree.{Agrees, extract_page-Agrees}
use ujin.Scrape.Service.{scrape}
use ujin.Scrape.Service.Cooldown.{FromCache, scrape-cooling}
use ujin.Scrape.Service.Outcome.{Told, scrape-Told}
use ujin.Scrape.Multi.{extract_mode}
use ujin.Scrape.Multi.Same.{told, extract_mode-scrape}

abbrev one_link : List Link
one_link = record { url = "https://a.org/1"; text = "One" } ∷ []

abbrev two_links : List Link
two_links =
    record { url = "https://a.org/1"; text = "One" }
    ∷ record { url = "https://a.org/2"; text = "Two" }
    ∷ []

abbrev site : Site
site = record {
  host_of = λ url. "a.org";
  lookup = λ url. record { strategy = unpinned; sitemap_url = none; rss_url = none };
  link_profile = λ url. none;
  headline_links = λ page url. if str_eq page "thin" then one_link else two_links;
  path_denied = λ base url. false;
  title_denied = λ base text. false;
  article_profile = λ url. none;
  extract_article = λ page url. none;
  extract = λ mode page url. page ∷ [];
  fingerprint_links = λ found. if length found == 1 then "print-1" else "print-2";
  fingerprint = λ found. "items";
  sha256 = λ text. text;
  poll_hint = λ found same. some (if same then 12000 else 6000);
  extract_raises = λ page base. none;
  mode_raises = λ mode url page base. none;
  filter_raises = λ base found. none;
  scorer_raises = λ found. none;
  hint_raises = λ found same. none;
}

abbrev page_of : String → Response
page_of body = record {
  status = 200;
  body = body;
  not_modified = false;
  final_url = "";
  etag = some "v1";
  last_modified = none;
}

abbrev answers : String → Result String → Answers
answers body rendered = record {
  clock = λ m. 10000;
  latency = λ b. 20;
  http = λ etag modified. ok (page_of body);
  obscura = rendered;
  browser = none;
  pinned_sitemap = ok none;
  try_sitemap_news = ok none;
  try_rss = ok none;
}

abbrev hosts : ℕ → HostPolicy
hosts until = record {
  cooldown = 60;
  hosts = ("a.org", record { cooldown_until = until; consecutive_failures = 1 }) ∷ [];
}

abbrev service : ℕ → Service
service until = record {
  fast_path_min_links = 2;
  learn_strategy = true;
  cache = record { max = 2; ttl = 6000; store = [] };
  policy = hosts until;
  feedback = [];
  site_store = none;
  metrics = [];
  contacted = [];
}

abbrev ask : Mode → Request
ask mode = record {
  url = "https://a.org/";
  mode = mode;
  key = "links:https://a.org/";
  force_refresh = false;
  render = unpinned;
  interval = 100;
}

abbrev full : Answers
full = answers "page" (raise value_error)

abbrev thin : Answers
thin = answers "thin" (raise value_error)

scrape-Told_example :
    Told 10000 "a.org"
      (hosts 5000)
      (scrape site (ask links) full (service 5000)).0.policy
      (scrape site (ask links) full (service 5000)).1
scrape-Told_example = scrape-Told site (ask links) full (service 5000)

fetch_html-Calls_example :
    (Calls unpinned thin
      (fetch_html site thin links "https://a.org/" none unpinned (service 0)).1
      []
      (fetch_html site thin links "https://a.org/" none unpinned (service 0)).0.contacted)
    × Leaves (service 0) (fetch_html site thin links "https://a.org/" none unpinned (service 0)).0
fetch_html-Calls_example =
    fetch_html-Calls site thin links "https://a.org/" none unpinned (service 0)

scrape-cooling_example :
    ((scrape site (ask links) full (service 12000)).0.contacted ≡ [])
    × ((scrape site (ask links) full (service 12000)).0.policy ≡ hosts 12000)
    × ((scrape site (ask links) full (service 12000)).0.feedback ≡ [])
    × FromCache full
        (ask links)
        (get 10000 "links:https://a.org/" (service 12000).cache).0
        (scrape site (ask links) full (service 12000)).1
unfolding cooldown_remaining lookup
scrape-cooling_example = scrape-cooling site (ask links) full (service 12000) (omega arith) refl

fetch_html-thin_example :
    ((fetch_html site thin links "https://a.org/" none unpinned (service 0)).1.html ≡ none)
    × ((fetch_html site thin links "https://a.org/" none (pinned http) (service 0)).1.html
        ≡ some "thin")
unfolding extract_with_profile
fetch_html-thin_example =
    fetch_html-thin site thin "https://a.org/" none (service 0) (page_of "thin") value_error refl
      (refl, refl, ground (arith, eq_iff "thin" ""), refl, omega arith) refl

abbrev from_http : Source
from_http = record {
  strategy = by http;
  etag = none;
  last_modified = none;
  final_url = none;
  used_renderer = false;
}

finalize_links-again_example :
    ((finalize_links site from_http "https://a.org/" two_links "k" full
        (finalize_links site from_http "https://a.org/" two_links "k" full (service 0)).0).1.cached
      ≡ true)
    × ((finalize_links site from_http "https://a.org/" two_links "k" full
          (finalize_links site from_http "https://a.org/" two_links "k" full
            (service 0)).0).1.content
        ≡ (finalize_links site from_http "https://a.org/" two_links "k" full (service 0)).1.content)
    × ((finalize_links site from_http "https://a.org/" two_links "k" full
          (finalize_links site from_http "https://a.org/" two_links "k" full
            (service 0)).0).1.fingerprint
        ≡ (finalize_links site from_http "https://a.org/" two_links "k" full
            (service 0)).1.fingerprint)
    × ((finalize_links site from_http "https://a.org/" two_links "k" full
          (finalize_links site from_http "https://a.org/" two_links "k" full
            (service 0)).0).1.next_poll_hint_secs
        ≡ some 12000)
unfolding get lookup age_secs
finalize_links-again_example =
    finalize_links-again site from_http from_http "https://a.org/" two_links "k" full full
      (service 0) refl (omega arith) (omega arith) refl

abbrev came : Fetched
came = record {
  html = some "page";
  used_renderer = false;
  etag = some "v1";
  last_modified = none;
  final_url = none;
  not_modified = false;
  strategy = by http;
  prelinks = none;
}

extract_page-Agrees_example :
    (fresh : ScrapeResult) × (entry : CachedEntry Kept) × ((extract_page tables site
        (ask tables)
        came
        "page"
        none
        full
        (service 0)).1
      ≡ served fresh)
    × ((get 11000 "links:https://a.org/"
          (extract_page tables site (ask tables) came "page" none full (service 0)).0.cache).0
        ≡ some entry)
    × Agrees tables fresh (result_from_cache 11000 entry tables)
extract_page-Agrees_example =
    extract_page-Agrees tables site (ask tables) came "page" none full (service 0) 11000 tt refl
      (omega arith) (omega arith)

extract_mode-scrape_example :
    (extract_or_raise tables site (ask tables) came "page" none full (service 0)).1
    ≡ told (extract_mode tables site "https://a.org/" came)
extract_mode-scrape_example =
    extract_mode-scrape site (ask tables) came "page" none full (service 0) refl tt

abbrev by_http : Key
by_http = record { host = "a.org"; backend = "http"; render_mode = "html" }

abbrev by_obscura : Key
by_obscura = record { host = "a.org"; backend = "obscura"; render_mode = "js" }

abbrev log : List Tried
log =
    record { key = by_http; ok = false; latency = 30; now = 300 }
    ∷ record { key = by_obscura; ok = true; latency = 90; now = 200 }
    ∷ record { key = by_http; ok = true; latency = 10; now = 100 }
    ∷ []

run_log-Summary_example : Summary (about by_http log) (find by_http (run_log log))
run_log-Summary_example = run_log-Summary by_http log

recommend-IsBest_example : IsBest (of_host "a.org" (run_log log)) (recommend "a.org" (run_log log))
recommend-IsBest_example = recommend-IsBest "a.org" (run_log log)
