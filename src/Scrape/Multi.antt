-- ===== src/Scrape/Multi.antt =====
-- `scrape_multi` and `_extract_mode`: one fetch, several modes. Nothing is cached.
pub mod Same
use ujin.Prelude.{
  map, ◌++◌, if◌then◌else◌, true, ◌||◌, [], false, none, some, ◌==◌, ◌∷◌, Bool, List, Option,
  String, ℕ, Error, Result, ok, raise,
}
use ujin.Float.{Float, FloatOps, float_zero}
use ujin.Cache.HostPolicy.{record_success}
use ujin.Scrape.Model.{
  Mode, links, auto_mode, article, structured, tables, images, metadata, feeds, contacts, html,
  Kind, kind_of, empty, Pin, unpinned, Link, Payload, link_list, article_text, items, ScrapeResult,
  Site, Answers, Service, met, multi,
}
use ujin.Scrape.Fetch.{Fetched, extract_with_profile, fetch_html}
use ujin.Scrape.Links.{filter_named_links}
use ujin.Scrape.Extract.{find_article, url_or}

-- `_mode_result`, with what was extracted
unfoldable pub mode_result :
    ⦃F : FloatOps⦄ → String → Kind → String → Payload → Fetched → ScrapeResult
mode_result url kind fingerprint content f = record {
  url = url;
  kind = kind;
  fingerprint = fingerprint;
  cached = false;
  age_secs = float_zero;
  used_renderer = f.used_renderer;
  strategy_used = f.strategy;
  content = content;
  final_url = f.final_url;
  next_poll_hint_secs = none;
}

links_kind : List Link → Kind
links_kind [] = empty
links_kind (l ∷ ls) = kind_of links

first_error : Option Error → Option Error → Option Error
first_error (some e) later = some e
first_error none later = later

unfoldable pub unless_error {ℓ} : {A : Type ℓ} → Option Error → A → Result A
unless_error (some e) r = raise e
unless_error none r = ok r

module _ ⦃F : FloatOps⦄ where
  mode_items : Mode → Site → String → Fetched → String → ScrapeResult
  unfolding mode_result
  mode_items mode site url f page =
      let found : List String = site.extract mode page (url_or f.final_url url) in
      mode_result url (kind_of mode) (site.fingerprint found) (items found) f

  mode_article : Site → String → Fetched → Option String → ScrapeResult
  unfolding mode_result
  mode_article site url f none = mode_result url empty "" (article_text none) f
  mode_article site url f (some text) =
      mode_result url (kind_of article) (site.sha256 text) (article_text (some text)) f

  mode_links : Site → String → Fetched → String → ScrapeResult
  unfolding mode_result links_kind extract_with_profile filter_named_links
  mode_links site url f page =
      let base_url : String = url_or f.final_url url in
      let found : List Link =
        filter_named_links site base_url (extract_with_profile site page base_url) in
      mode_result url (links_kind found) (site.fingerprint_links found) (link_list found) f

  -- what each mode makes of the page
  unfoldable pub extract_body : Mode → Site → String → Fetched → String → ScrapeResult
  unfolding mode_items mode_article mode_links mode_result find_article
  extract_body html site url f page =
      mode_result url (kind_of html) (site.sha256 page) (items (page ∷ [])) f
  extract_body structured site url f page = mode_items structured site url f page
  extract_body tables site url f page = mode_items tables site url f page
  extract_body images site url f page = mode_items images site url f page
  extract_body metadata site url f page = mode_items metadata site url f page
  extract_body feeds site url f page = mode_items feeds site url f page
  extract_body contacts site url f page = mode_items contacts site url f page
  extract_body article site url f page =
      mode_article site url f (find_article site url page (url_or f.final_url url))
  extract_body links site url f page = mode_links site url f page
  extract_body auto_mode site url f page = mode_links site url f page

  -- what extracting, filtering or scoring the links raises
  links_error : Site → String → String → Option Error
  unfolding extract_with_profile filter_named_links first_error
  links_error site base_url page =
      let found : List Link = extract_with_profile site page base_url in
      first_error (site.extract_raises page base_url) (
        first_error (site.filter_raises base_url found)
          (site.scorer_raises (filter_named_links site base_url found)))

  -- the error that a mode raises
  unfoldable pub mode_error : Mode → Site → String → Fetched → String → Option Error
  unfolding links_error
  mode_error html site url f page = none
  mode_error links site url f page = links_error site (url_or f.final_url url) page
  mode_error auto_mode site url f page = links_error site (url_or f.final_url url) page
  mode_error article site url f page = site.mode_raises article url page (url_or f.final_url url)
  mode_error structured site url f page =
      site.mode_raises structured url page (url_or f.final_url url)
  mode_error tables site url f page = site.mode_raises tables url page (url_or f.final_url url)
  mode_error images site url f page = site.mode_raises images url page (url_or f.final_url url)
  mode_error metadata site url f page = site.mode_raises metadata url page (url_or f.final_url url)
  mode_error feeds site url f page = site.mode_raises feeds url page (url_or f.final_url url)
  mode_error contacts site url f page = site.mode_raises contacts url page (url_or f.final_url url)

  -- `_extract_mode`: without a page every mode is empty
  unfoldable pub extract_mode : Mode → Site → String → Fetched → Result ScrapeResult
  unfolding extract_body mode_error mode_result unless_error
  extract_mode mode site url f = elim f.html [
    | none ↦ ok (mode_result url empty "" (items []) f)
    | some page ↦ unless_error (mode_error mode site url f page) (extract_body mode site url f page)
  ]

-- the place of a mode among the modes
number : Mode → ℕ
number links = 0
number auto_mode = 1
number article = 2
number structured = 3
number tables = 4
number images = 5
number metadata = 6
number feeds = 7
number contacts = 8
number html = 9

is_page : Option String → Bool
is_page none = false
is_page (some page) = true

same_mode : Mode → Mode → Bool
unfolding number
same_mode a b = number a == number b

in_modes : Mode → List Mode → Bool
unfolding same_mode
in_modes m [] = false
in_modes m (k ∷ ms) = same_mode k m || in_modes m ms

-- the modes in their order, each once
unfoldable pub add_modes : List Mode → List Mode → List Mode
unfolding in_modes
add_modes ordered [] = ordered
add_modes ordered (m ∷ ms) =
    add_modes (if in_modes m ordered then ordered else ordered ++ (m ∷ [])) ms

or_links : List Mode → List Mode
or_links [] = links ∷ []
or_links (m ∷ ms) = m ∷ ms

unfoldable pub ordered_modes : List Mode → List Mode
unfolding add_modes or_links
ordered_modes modes = or_links (add_modes [] modes)

pin_or : Pin → Pin → Pin
pin_or unpinned own = own
pin_or (Pin.pinned b) own = Pin.pinned b
pin_or Pin.pin_sitemap own = Pin.pin_sitemap
pin_or Pin.pin_rss own = Pin.pin_rss

module _ ⦃F : FloatOps⦄ where
  -- an error stands for the result that `_error_result` makes of it
  results :
      List Mode → Site → String → Service × Fetched → Service × List (Mode × Result ScrapeResult)
  unfolding extract_mode is_page
  results modes site url (svc, f) = (
    met (record { success = is_page f.html; from_cache = false; strategy = some multi })
        (if is_page f.html
          then record svc { policy = record_success (site.host_of url) svc.policy }
          else svc),
    map (λ m. (m, extract_mode m site url f)) modes,
  )

  -- `scrape_multi`
  unfoldable pub scrape_multi :
      Site
      → String
      → List Mode
      → Pin
      → Answers
      → Service
      → Service × List (Mode × Result ScrapeResult)
  unfolding results ordered_modes pin_or fetch_html
  scrape_multi site url modes render ans svc =
      results (ordered_modes modes) site url
        (fetch_html site ans article url none (pin_or render (site.lookup url).strategy) svc)
