-- ===== src/Scrape/Fetch.antt =====
-- `_fetch_html` and the feedback on each way of fetching.
pub mod Contacts
pub mod Thin
use ujin.Prelude.{
  Error, ◌&&◌, ◌==◌, [], length, not, ◌||◌, leb, max, ok, str_eq, ◌++◌, Result, false,
  if◌then◌else◌, raise, some, true, ◌∷◌, Bool, List, Option, String, none, ℕ,
}
use ujin.Float.{Float, FloatOps, float_zero}
use ujin.Cache.Store.{CachedEntry}
use ujin.Adapt.SiteStore.{SiteStore, HostRecord, zero_record, get}
use ujin.Adapt.Strategy.{Key, Tried, record_outcome, recommend, is_penalized}
use ujin.Scrape.Model.{
  at_cooldown, at_lookup, at_served, at_relook, at_put, at_failure, at_attempt, Mode, Backend, http,
  obscura, browser, Pin, unpinned, pinned, pin_sitemap, pin_rss, Used, by, http_304, Link, Kept,
  Response, Site, Answers, Service, is_links, contact, etag_of, last_modified_of,
}

-- what `_fetch_html` returns
pub record Fetched : Type 0 where
  pub html : Option String
  pub used_renderer : Bool
  pub etag : Option String
  pub last_modified : Option String
  pub final_url : Option String
  pub not_modified : Bool
  pub strategy : Used
  pub prelinks : Option (List Link)

-- what the HTTP attempt comes to: an answer, or what an escalation would start from
pub data TriedHttp : Type 0 where
  settled : Fetched → TriedHttp
  escalates : Fetched → TriedHttp

-- `url in seen`
unfoldable pub any_url : String → List Link → Bool
any_url u [] = false
any_url u (l ∷ more) = str_eq l.url u || any_url u more

-- the union with the generic links that are not there yet
unfoldable pub union_links : List Link → List Link → List Link
unfolding any_url
union_links found [] = found
union_links found (g ∷ more) =
    union_links (if any_url g.url found then found else found ++ (g ∷ [])) more

-- `_extract_with_profile`, where it does not raise
unfoldable pub extract_with_profile : Site → String → String → List Link
unfolding union_links any_url
extract_with_profile site page base_url = elim (site.link_profile base_url) [
  | none ↦ site.headline_links page base_url
  | some apply ↦
      if leb 5 (length (apply page))
      then apply page
      else union_links (apply page) (site.headline_links page base_url)
]

-- the pair that a backend is recorded under
unfoldable pub key_of : String → Backend → Key
key_of host http = record { host = host; backend = "http"; render_mode = "html" }
key_of host obscura = record { host = host; backend = "obscura"; render_mode = "js" }
key_of host browser = record { host = host; backend = "browser"; render_mode = "html" }

unfoldable pub is_raised : Option Error → Bool
is_raised none = false
is_raised (some e) = true

-- an answer with a page of its own is used as it is, in links mode only where it has enough links; an
-- error of the extractor is one of the attempt
unfoldable pub read_http : Site → ℕ → Mode → String → Response → TriedHttp
unfolding extract_with_profile is_raised
read_http site min_links mode url r =
    let base : Fetched = record {
      html = none;
      used_renderer = false;
      etag = r.etag;
      last_modified = r.last_modified;
      final_url = some (if str_eq r.final_url "" then url else r.final_url);
      not_modified = false;
      strategy = by http;
      prelinks = none;
    } in
    if r.not_modified
    then settled (record base { not_modified = true; strategy = http_304 })
    else if not (r.status == 200 && not (str_eq r.body ""))
    then escalates base
    else if not (is_links mode)
    then settled (record base { html = some r.body })
    else if is_raised
        (site.extract_raises r.body (if str_eq r.final_url "" then url else r.final_url))
    then escalates base
    else let found : List Link =
        extract_with_profile site r.body (if str_eq r.final_url "" then url else r.final_url) in
      let page : Fetched = record base { html = some r.body; prelinks = some found } in
      if leb min_links (length found) then settled page else escalates page

module _ ⦃F : FloatOps⦄ where
  -- `_record_attempt`
  unfoldable pub record_attempt : Site → Answers → String → Backend → Bool → Service → Service
  unfolding key_of
  record_attempt site ans url backend good svc =
      if svc.learn_strategy
      then record svc {
        feedback =
            record_outcome
              (record {
                key = key_of (site.host_of url) backend;
                ok = good;
                latency = max float_zero (ans.latency backend);
                now = ans.clock (at_attempt backend);
              })
              svc.feedback;
      }
      else svc

  -- a call of a fetcher, and what is recorded of it
  unfoldable pub attempted : Site → Answers → String → Backend → Bool → Service → Service
  unfolding record_attempt
  attempted site ans url backend good svc =
      record_attempt site ans url backend good (contact backend svc)

  fetched_by : Backend → Option String → Option String → Fetched
  fetched_by backend page final_url = record {
    html = page;
    used_renderer = true;
    etag = none;
    last_modified = none;
    final_url = final_url;
    not_modified = false;
    strategy = by backend;
    prelinks = none;
  }

  unfoldable pub fetch_browser : Site → Answers → String → Service → Service × Fetched
  unfolding attempted fetched_by
  fetch_browser site ans url svc = elim ans.browser [
    | none ↦ (svc, fetched_by browser none (some url))
    | some (raise e) ↦
        (attempted site ans url browser false svc, fetched_by browser none (some url))
    | some (ok (page, final)) ↦ (
      attempted site ans url browser true svc,
      fetched_by browser (some page) (some (if str_eq final "" then url else final)),
    )
  ]

  -- the last resort; it keeps the validators and the address of the HTTP attempt
  unfoldable pub fetch_obscura : Site → Answers → String → Fetched → Service → Service × Fetched
  unfolding attempted
  fetch_obscura site ans url so_far svc = elim ans.obscura [
    | raise e ↦ (
      attempted site ans url obscura false svc,
      record so_far { html = none; used_renderer = true; strategy = by obscura; prelinks = none },
    )
    | ok page ↦ (
      attempted site ans url obscura true svc,
      record so_far {
        html = some page;
        used_renderer = true;
        strategy = by obscura;
        prelinks = none;
        final_url = elim so_far.final_url [ none ↦ some url | some u ↦ some u ];
      },
    )
  ]

  nothing_yet : Fetched
  nothing_yet = record {
    html = none;
    used_renderer = false;
    etag = none;
    last_modified = none;
    final_url = none;
    not_modified = false;
    strategy = by http;
    prelinks = none;
  }

  try_http : Site → ℕ → Mode → String → Result Response → TriedHttp
  unfolding read_http nothing_yet
  try_http site min_links mode url (raise e) = escalates nothing_yet
  try_http site min_links mode url (ok r) = read_http site min_links mode url r

  -- after the HTTP attempt: a host that is pinned to it is not escalated
  after_http : Site → Answers → String → Pin → TriedHttp → Service → Service × Fetched
  unfolding fetch_obscura attempted
  after_http site ans url pin (settled f) svc = (attempted site ans url http true svc, f)
  after_http site ans url (pinned http) (escalates f) svc =
      (attempted site ans url http false svc, f)
  after_http site ans url (pinned obscura) (escalates f) svc =
      fetch_obscura site ans url f (attempted site ans url http false svc)
  after_http site ans url (pinned browser) (escalates f) svc =
      fetch_obscura site ans url f (attempted site ans url http false svc)
  after_http site ans url unpinned (escalates f) svc =
      fetch_obscura site ans url f (attempted site ans url http false svc)
  after_http site ans url pin_sitemap (escalates f) svc =
      fetch_obscura site ans url f (attempted site ans url http false svc)
  after_http site ans url pin_rss (escalates f) svc =
      fetch_obscura site ans url f (attempted site ans url http false svc)

  unfoldable pub fetch_http :
      Site → Answers → Mode → String → Option (CachedEntry Kept) → Pin → Service → Service × Fetched
  unfolding try_http after_http
  fetch_http site ans mode url cached pin svc =
      after_http site ans url pin
        (try_http site svc.fast_path_min_links mode url
          (ans.http (etag_of cached) (last_modified_of cached)))
        svc

  -- `_fetch_html`; `cached` is `none` where a refresh is forced
  unfoldable pub fetch_html :
      Site → Answers → Mode → String → Option (CachedEntry Kept) → Pin → Service → Service × Fetched
  unfolding fetch_browser fetch_obscura fetch_http nothing_yet
  fetch_html site ans mode url cached (pinned browser) svc = fetch_browser site ans url svc
  fetch_html site ans mode url cached (pinned obscura) svc =
      fetch_obscura site ans url nothing_yet svc
  fetch_html site ans mode url cached (pinned http) svc =
      fetch_http site ans mode url cached (pinned http) svc
  fetch_html site ans mode url cached unpinned svc =
      fetch_http site ans mode url cached unpinned svc
  fetch_html site ans mode url cached pin_sitemap svc =
      fetch_http site ans mode url cached pin_sitemap svc
  fetch_html site ans mode url cached pin_rss svc = fetch_http site ans mode url cached pin_rss svc

  -- what the store of site states says of a host; with no store, a record of zeros
  unfoldable pub seen_of : Option SiteStore → String → HostRecord
  unfolding zero_record
  seen_of none host = zero_record
  seen_of (some store) host = get store host

  -- a backend that a recommendation names, if there is one and it may be used
  usable : Answers → Bool → Option (String × String) → Option Pin
  usable ans penalized none = none
  usable ans penalized (some (backend, render_mode)) =
      if penalized
      then none
      else if str_eq backend "http"
      then some (pinned http)
      else if str_eq backend "obscura"
      then some (pinned obscura)
      else if str_eq backend "browser"
      then elim ans.browser [ none ↦ none | some r ↦ some (pinned browser) ]
      else none

  -- `_biased_auto_strategy`; `interval` is the base interval of the signals
  unfoldable pub biased_auto_strategy : Site → Answers → Float → String → Service → Option Pin
  unfolding usable seen_of
  biased_auto_strategy site ans interval url svc =
      let host : String = site.host_of url in
      usable ans (is_penalized (seen_of svc.site_store host) interval) (recommend host svc.feedback)
