-- ===== src/Scrape/Fetch/Thin.antt =====
-- A page with too few links is used where the host is pinned to HTTP, and lost elsewhere.
use ujin.Prelude.{
  leb, ◌<◌, eq_iff, if◌then◌else◌, refl, arith, length, none, raise, str_eq, ◌≢◌, Error, false,
  some, Option, ok, ◌≡◌, String, ℕ,
}
use ujin.Float.{FloatOps}
use ujin.Cache.Store.{CachedEntry}
use ujin.Scrape.Model.{
  links, http, unpinned, pinned, Kept, Response, Site, Answers, Service, etag_of, last_modified_of,
  is_links,
}
use ujin.Scrape.Fetch.{
  is_raised, Fetched, escalates, try_http, read_http, after_http, fetch_http, fetch_html,
  fetch_obscura, extract_with_profile,
}

module _ ⦃F : FloatOps⦄ where
  -- an HTTP answer with a page on which too few links are found
  abbrev pub IsThin : Site → ℕ → String → Response → Type 0
  IsThin site min_links url r =
      (r.not_modified ≡ false)
      × (r.status ≡ 200)
      × (r.body ≢ "")
      × (site.extract_raises r.body (if str_eq r.final_url "" then url else r.final_url) ≡ none)
      × (length
            (extract_with_profile site r.body (if str_eq r.final_url "" then url else r.final_url))
          < min_links)

  thin_lem :
      (site : Site) (min_links : ℕ) (url : String) (r : Response)
      → IsThin site min_links url r
      → (f : Fetched) × (try_http site min_links links url (ok r) ≡ escalates f)
        × (f.html ≡ some r.body)
  unfolding try_http read_http is_links
  thin_lem site n url r (new, fine, body, read, few) =
      let body_there : str_eq r.body "" ≡ false = ground (arith, eq_iff r.body "") in
      let short : leb n (
            length (
              extract_with_profile site r.body
                (if str_eq r.final_url "" then url else r.final_url)))
          ≡ false =
        ground arith in
      rw (new, fine, body_there, read, short, read_http, is_raised) (_, refl, refl)

  -- Where HTTP brings a page from which too few links are extracted, without an error, and obscura
  -- fails, a links fetch that is not pinned has no page, while one that is pinned to HTTP has the page
  -- that HTTP brought.
  pub fetch_html-thin :
      (site : Site) (ans : Answers) (url : String) (cached : Option (CachedEntry Kept))
      (svc : Service) (r : Response) (e : Error)
      → ans.http (etag_of cached) (last_modified_of cached) ≡ ok r
      → IsThin site svc.fast_path_min_links url r
      → ans.obscura ≡ raise e
      → ((fetch_html site ans links url cached unpinned svc).1.html ≡ none)
        × ((fetch_html site ans links url cached (pinned http) svc).1.html ≡ some r.body)
  unfolding fetch_html fetch_http after_http fetch_obscura
  fetch_html-thin site ans url cached svc r e came thin failed =
      let known = thin_lem site svc.fast_path_min_links url r thin in
      rw (came, known.1, failed, fetch_obscura) (refl, known.2)
