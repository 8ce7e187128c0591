-- ===== src/Scrape/Extract/Agree.antt =====
-- A result that is served from the cache agrees with the fresh one.
use ujin.Prelude.{ap, ◌∙◌, ◌∷◌, [], refl, Bool, Option, some, true, ◌≢◌, ◌≤◌, List, String, ◌≡◌}
use ujin.Float.{Float, FloatOps, sub}
use ujin.Cache.Store.{CachedEntry, get, age_secs}
use ujin.Cache.Store.Recent.{get-put}
use ujin.Scrape.Model.{
  at_put, Mode, links, auto_mode, article, structured, tables, images, metadata, feeds, contacts,
  html, Kind, kind_of, Link, Payload, article_text, items, Kept, ScrapeResult, Scraped, served,
  Site, Answers, Service, IsPlain, met,
}
use ujin.Scrape.Fetch.{Fetched}
use ujin.Scrape.Extract.{
  Request, extract_page, keep_items, keep_article, keep, find_article, article_kind, items_kind,
  article_of, items_of, cached_kind, cached_content, article_print, is_some, url_or,
  result_from_cache,
}

module _ ⦃F : FloatOps⦄ where
  -- the entry that `keep` leaves, when it has been read once
  abbrev entry_of : Request → Fetched → String → Payload → Answers → CachedEntry Kept
  entry_of req f fingerprint content ans = record {
    payload = record {
      url = req.url;
      fingerprint = fingerprint;
      payload = content;
      etag = f.etag;
      last_modified = f.last_modified;
    };
    fetched_at = ans.clock at_put;
    hits = 1;
  }

  keep_lem :
      (req : Request) (f : Fetched) (kind : Kind) (fingerprint : String) (content : Payload)
      (success : Bool) (ans : Answers) (svc : Service) (now : Float)
      → 1 ≤ svc.cache.max
      → sub now (ans.clock at_put) ≤ svc.cache.ttl
      → (get now req.key (keep req f kind fingerprint content success ans svc).0.cache).0
        ≡ some (entry_of req f fingerprint content ans)
  unfolding keep met age_secs
  keep_lem req f kind fingerprint content success ans svc now room young =
      (get-put req.key (record (entry_of req f fingerprint content ans) { hits = 0 }) svc.cache now
          room).0
        young

  -- what a cached result has of a fresh one: the content and the fingerprint, and the kind unless
  -- nothing was found
  abbrev pub Agrees : Mode → ScrapeResult → ScrapeResult → Type 0
  Agrees mode fresh old =
      (old.cached ≡ true)
      × (old.url ≡ fresh.url)
      × (old.content ≡ fresh.content)
      × (old.fingerprint ≡ fresh.fingerprint)
      × (fresh.content ≢ items [] → old.kind ≡ fresh.kind)

  -- an outcome agrees with what the cache then has
  abbrev Stored : Mode → Request → Float → Service × Scraped → Type 0
  Stored mode req now out =
      (fresh : ScrapeResult) × (entry : CachedEntry Kept) × (out.1 ≡ served fresh)
      × ((get now req.key out.0.cache).0 ≡ some entry)
      × Agrees mode fresh (result_from_cache now entry mode)

  -- the kinds of what other extractors find
  some_items :
      (mode : Mode) (xs : List String) → items xs ≢ items [] → items_kind mode xs ≡ kind_of mode
  unfolding items_kind
  some_items mode [] h = absurd (h refl)
  some_items mode (x ∷ xs) h = refl

  items_lem :
      (mode : Mode) (site : Site) (req : Request) (f : Fetched) (page : String) (ans : Answers)
      (svc : Service) (now : Float)
      → 1 ≤ svc.cache.max
      → sub now (ans.clock at_put) ≤ svc.cache.ttl
      → mode ≡ req.mode
      → ((xs : List String) → cached_content mode (items xs) ≡ items xs)
      → ((xs : List String) → items xs ≢ items [] → cached_kind mode (items xs) ≡ kind_of mode)
      → Stored mode req now (keep_items site req f page ans svc)
  unfolding keep_items keep result_from_cache
  items_lem mode site req f page ans svc now room young e same_content same_kind =
      let found : List String = site.extract req.mode page (url_or f.final_url req.url) in
      (
        _,
        entry_of req f (site.fingerprint found) (items found) ans,
        refl,
        keep_lem req f (kind_of req.mode) (site.fingerprint found) (items found) true ans svc now
            room young,
        (refl, refl, same_content found, refl, λ h. same_kind found h ∙ ap kind_of e),
      )

  -- What a page gives in a mode that is not one of links, where no extractor raises, agrees with what
  -- the cache then gives in that mode, as long as the entry is not too old and the cache has room for
  -- one: the same content, fingerprint and address, and the same kind unless nothing was found.
  pub extract_page-Agrees :
      (mode : Mode) (site : Site) (req : Request) (f : Fetched) (page : String)
      (found : Option (List Link)) (ans : Answers) (svc : Service) (now : Float)
      → IsPlain mode
      → mode ≡ req.mode
      → 1 ≤ svc.cache.max
      → sub now (ans.clock at_put) ≤ svc.cache.ttl
      → (fresh : ScrapeResult) × (entry : CachedEntry Kept) × ((extract_page mode site req f page
            found ans svc).1
          ≡ served fresh)
        × ((get now req.key (extract_page mode site req f page found ans svc).0.cache).0
            ≡ some entry)
        × Agrees mode fresh (result_from_cache now entry mode)
  unfolding extract_page keep_article keep result_from_cache cached_kind cached_content article_of
      items_of
  extract_page-Agrees links site req f page found ans svc now p e room young = absurd p
  extract_page-Agrees auto_mode site req f page found ans svc now p e room young = absurd p
  extract_page-Agrees html site req f page found ans svc now p e room young = absurd p
  extract_page-Agrees article site req f page found ans svc now p e room young =
      let text : Option String = find_article site req.url page (url_or f.final_url req.url) in
      (
        _,
        entry_of req f (article_print site text) (article_text text) ans,
        refl,
        keep_lem req f (article_kind text) (article_print site text) (article_text text)
            (is_some text) ans svc now room young,
        (refl, refl, refl, refl, λ h. refl),
      )
  extract_page-Agrees structured site req f page found ans svc now p e room young =
      items_lem structured site req f page ans svc now room young e (λ xs. refl)
        (some_items structured)
  extract_page-Agrees tables site req f page found ans svc now p e room young =
      items_lem tables site req f page ans svc now room young e (λ xs. refl) (some_items tables)
  extract_page-Agrees images site req f page found ans svc now p e room young =
      items_lem images site req f page ans svc now room young e (λ xs. refl) (some_items images)
  extract_page-Agrees metadata site req f page found ans svc now p e room young =
      items_lem metadata site req f page ans svc now room young e (λ xs. refl) (some_items metadata)
  extract_page-Agrees feeds site req f page found ans svc now p e room young =
      items_lem feeds site req f page ans svc now room young e (λ xs. refl) (λ xs h. refl)
  extract_page-Agrees contacts site req f page found ans svc now p e room young =
      items_lem contacts site req f page ans svc now room young e (λ xs. refl) (λ xs h. refl)
