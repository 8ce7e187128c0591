-- ===== src/Scrape/Multi/Same.antt =====
-- `scrape_multi` gives in each mode what `scrape` gives, but for links where there are none.
use ujin.Scrape.Model.{
  Scraped, Mode, links, auto_mode, article, structured, tables, images, metadata, feeds, contacts,
  html, is_link_mode, raised, kind_of, empty, Link, article_text, ScrapeResult, served, Kept, Site,
  Answers, Service, IsPlain,
}
use ujin.Prelude.{
  inr, inl, sym, ap, str_eq, Bool-cases, [], ◌∙◌, none, refl, some, List, ◌≡◌, Option, String,
  Error, Result, ok, raise,
}
use ujin.Float.{FloatOps}
use ujin.Cache.Store.{CachedEntry}
use ujin.Scrape.Fetch.{Fetched, extract_with_profile}
use ujin.Scrape.Links.{
  Source, filter_named_links, finalize_links, against, unchanged, fresh_links, to_scraped,
}
use ujin.Scrape.Extract.{
  extract_or_raise, plain_or_raise, Request, extract_page, keep_items, keep_article, keep_links,
  keep, find_article, article_kind, article_print, is_some, url_or,
}
use ujin.Scrape.Multi.{
  mode_error, unless_error, mode_result, mode_items, mode_article, mode_links, links_kind,
  extract_body, extract_mode,
}

module _ ⦃F : FloatOps⦄ where
  article_lem :
      (site : Site) (req : Request) (f : Fetched) (ans : Answers) (svc : Service)
      (found : Option String)
      → (keep req f
          (article_kind found)
          (article_print site found)
          (article_text found)
          (is_some found)
          ans
          svc).1
        ≡ served (mode_article site req.url f found)
  unfolding keep article_kind article_print is_some mode_article mode_result
  article_lem site req f ans svc none = refl
  article_lem site req f ans svc (some text) = refl

  plain_lem :
      (mode : Mode) (site : Site) (req : Request) (f : Fetched) (page : String)
      (found : Option (List Link)) (ans : Answers) (svc : Service)
      → IsPlain mode
      → mode ≡ req.mode
      → (extract_page mode site req f page found ans svc).1
        ≡ served (extract_body mode site req.url f page)
  unfolding extract_page keep_items keep_article keep extract_body mode_items mode_result
  plain_lem links site req f page found ans svc p e = absurd p
  plain_lem auto_mode site req f page found ans svc p e = absurd p
  plain_lem html site req f page found ans svc p e = absurd p
  plain_lem article site req f page found ans svc p e =
      article_lem site req f ans svc (find_article site req.url page (url_or f.final_url req.url))
  plain_lem structured site req f page found ans svc p e = rw e refl
  plain_lem tables site req f page found ans svc p e = rw e refl
  plain_lem images site req f page found ans svc p e = rw e refl
  plain_lem metadata site req f page found ans svc p e = rw e refl
  plain_lem feeds site req f page found ans svc p e = rw e refl
  plain_lem contacts site req f page found ans svc p e = rw e refl

  kind_lem :
      (o : Option (CachedEntry Kept)) (site : Site) (src : Source) (url : String)
      (found : List Link) (key : String) (ans : Answers) (svc : Service)
      → (against o site src url found key ans svc).1.kind ≡ kind_of links
  unfolding against unchanged fresh_links
  kind_lem none site src url found key ans svc = refl
  kind_lem (some prior) site src url found key ans svc =
      elim (Bool-cases (str_eq prior.payload.fingerprint (site.fingerprint_links found))) [
        | inl same ↦ rw (same, against) refl
        | inr new ↦ rw (new, against) refl
      ]

  -- what `scrape` tells of a result or an error
  abbrev pub told : Result ScrapeResult → Scraped
  told (ok r) = served r
  told (raise e) = raised e

  error_lem :
      (o : Option Error) (mode : Mode) (site : Site) (req : Request) (f : Fetched) (page : String)
      (ans : Answers) (svc : Service) (r : ScrapeResult)
      → (extract_page mode site req f page none ans svc).1 ≡ served r
      → (plain_or_raise o mode site req f page ans svc).1 ≡ told (unless_error o r)
  unfolding plain_or_raise unless_error
  error_lem none mode site req f page ans svc r e = e
  error_lem (some err) mode site req f page ans svc r e = refl

  raise_lem :
      (mode : Mode) (site : Site) (req : Request) (f : Fetched) (page : String)
      (found : Option (List Link)) (ans : Answers) (svc : Service)
      → IsPlain mode
      → mode ≡ req.mode
      → (extract_or_raise mode site req f page found ans svc).1
        ≡ told (
            unless_error
              (mode_error mode site req.url f page)
              (extract_body mode site req.url f page))
  unfolding extract_or_raise is_link_mode mode_error
  raise_lem links site req f page found ans svc p e = absurd p
  raise_lem auto_mode site req f page found ans svc p e = absurd p
  raise_lem html site req f page found ans svc p e = absurd p
  raise_lem article site req f page found ans svc p e =
      error_lem _ article site req f page ans svc _
        (plain_lem article site req f page none ans svc p e)
  raise_lem structured site req f page found ans svc p e =
      error_lem _ structured site req f page ans svc _
        (plain_lem structured site req f page none ans svc p e)
  raise_lem tables site req f page found ans svc p e =
      error_lem _ tables site req f page ans svc _
        (plain_lem tables site req f page none ans svc p e)
  raise_lem images site req f page found ans svc p e =
      error_lem _ images site req f page ans svc _
        (plain_lem images site req f page none ans svc p e)
  raise_lem metadata site req f page found ans svc p e =
      error_lem _ metadata site req f page ans svc _
        (plain_lem metadata site req f page none ans svc p e)
  raise_lem feeds site req f page found ans svc p e =
      error_lem _ feeds site req f page ans svc _ (plain_lem feeds site req f page none ans svc p e)
  raise_lem contacts site req f page found ans svc p e =
      error_lem _ contacts site req f page ans svc _
        (plain_lem contacts site req f page none ans svc p e)

  body_lem :
      (mode : Mode) (site : Site) (url : String) (f : Fetched) (page : String)
      → f.html ≡ some page
      → extract_mode mode site url f
        ≡ unless_error (mode_error mode site url f page) (extract_body mode site url f page)
  unfolding extract_mode
  body_lem mode site url f page e = simp (e, extract_mode)

  -- A page that was fetched gives in `scrape_multi`, in a mode that is not one of links or of the page
  -- itself, the very result that `scrape` makes of that page in that mode, or the error that it raises.
  pub extract_mode-scrape :
      (site : Site) (req : Request) (f : Fetched) (page : String) (found : Option (List Link))
      (ans : Answers) (svc : Service)
      → f.html ≡ some page
      → IsPlain req.mode
      → (extract_or_raise req.mode site req f page found ans svc).1
        ≡ told (extract_mode req.mode site req.url f)
  extract_mode-scrape site req f page found ans svc e p =
      raise_lem req.mode site req f page found ans svc p refl
      ∙ ap told (sym (body_lem req.mode site req.url f page e))

  no_links :
      (site : Site) (url : String) (f : Fetched) (page : String)
      → filter_named_links site
          (url_or f.final_url url)
          (extract_with_profile site page (url_or f.final_url url))
        ≡ []
      → (mode_links site url f page).kind ≡ empty
  unfolding mode_links mode_result links_kind
  no_links site url f page e = ap (λ ls. links_kind ls) e

  -- A fetched page without links that count is of the kind `empty` in `scrape_multi`, and of the kind
  -- `links` in `scrape`, in the mode of links.
  pub extract_body-empty :
      (site : Site) (req : Request) (f : Fetched) (page : String) (found : Option (List Link))
      (ans : Answers) (svc : Service)
      → filter_named_links site
          (url_or f.final_url req.url)
          (extract_with_profile site page (url_or f.final_url req.url))
        ≡ []
      → ((extract_body links site req.url f page).kind ≡ empty)
        × ((r : ScrapeResult) × ((extract_page links site req f page found ans svc).1 ≡ served r)
            × (r.kind ≡ kind_of links))
  unfolding extract_body extract_page keep_links to_scraped finalize_links
  extract_body-empty site req f page found ans svc none_left =
      (no_links site req.url f page none_left, (_, refl, kind_lem _ site _ req.url _ req.key ans _))
