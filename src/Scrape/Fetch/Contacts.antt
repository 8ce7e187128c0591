-- ===== src/Scrape/Fetch/Contacts.antt =====
-- Which fetchers a scrape calls, and what it leaves alone.
use ujin.Prelude.{
  ok, ap, none, raise, refl, some, List, Option, Option-cases, Result, ◌∙◌, ◌≢◌, ◌⊎◌, arith, inr,
  Result-cases, inl, Bool-cases, true, Bool, false, ◌∷◌, String, ◌≡◌, ℕ,
}
use ujin.Float.{FloatOps}
use ujin.Cache.Store.{CachedEntry}
use ujin.Scrape.Model.{
  Mode, Backend, http, obscura, browser, Pin, unpinned, pinned, pin_sitemap, pin_rss, Kept,
  Response, Site, Answers, Service, contact, etag_of, last_modified_of,
}
use ujin.Scrape.Fetch.{
  Fetched, TriedHttp, settled, escalates, attempted, record_attempt, read_http, fetch_browser,
  fetch_obscura, nothing_yet, try_http, after_http, fetch_http, fetch_html,
}

module _ ⦃F : FloatOps⦄ where
  -- nothing but the feedback and the calls is changed
  abbrev pub Leaves : Service → Service → Type 0
  Leaves svc svc' =
      (svc'.cache ≡ svc.cache)
      × (svc'.policy ≡ svc.policy)
      × (svc'.metrics ≡ svc.metrics)
      × (svc.learn_strategy ≡ false → svc'.feedback ≡ svc.feedback)

  attempted_lem :
      (site : Site) (ans : Answers) (url : String) (b : Backend) (good : Bool) (svc : Service)
      → ((attempted site ans url b good svc).contacted ≡ b ∷ svc.contacted)
        × Leaves svc (attempted site ans url b good svc)
        × ((attempted site ans url b good svc).learn_strategy ≡ svc.learn_strategy)
  unfolding attempted record_attempt contact
  attempted_lem site ans url b good svc = elim (Bool-cases svc.learn_strategy) [
    | inl learns ↦ ground arith
    | inr plain ↦ ground arith
  ]

  obscura_lem :
      (site : Site) (ans : Answers) (url : String) (f : Fetched) (svc : Service)
      → ((fetch_obscura site ans url f svc).0.contacted ≡ obscura ∷ svc.contacted)
        × Leaves svc (fetch_obscura site ans url f svc).0
  unfolding fetch_obscura
  obscura_lem site ans url f svc =
      let good = attempted_lem site ans url obscura true svc in
      let bad = attempted_lem site ans url obscura false svc in
      elim (Result-cases ans.obscura) [
        | inl (e, failed) ↦ rw (failed, fetch_obscura) (bad.0, bad.1)
        | inr (page, came) ↦ rw (came, fetch_obscura) (good.0, good.1)
      ]

  -- what the HTTP attempt settles is a page, or that nothing has changed
  abbrev pub HasAnswer : Fetched → Type 0
  HasAnswer f = (f.not_modified ≡ true) ⊎ ((page : String) × (f.html ≡ some page))

  settled_lem :
      (site : Site) (min_links : ℕ) (mode : Mode) (url : String) (r : Result Response) (f : Fetched)
      → try_http site min_links mode url r ≡ settled f
      → HasAnswer f
  unfolding try_http read_http
  settled_lem site n mode url (raise e) f h = cc
  settled_lem site n mode url (ok r) f h = elim (Bool-cases r.not_modified) [
    | inl same ↦ inl (ground arith)
    | inr new ↦ inr (r.body, ground arith)
  ]

  -- the calls of a fetch that is pinned so, before and after
  abbrev pub Calls : Pin → Answers → Fetched → List Backend → List Backend → Type 0
  Calls (pinned http) ans f before after = after ≡ http ∷ before
  Calls (pinned obscura) ans f before after = after ≡ obscura ∷ before
  Calls (pinned browser) ans f before after =
      (ans.browser ≡ none → after ≡ before)
      × ((r : Result (String × String)) → ans.browser ≡ some r → after ≡ browser ∷ before)
  Calls unpinned ans f before after =
      (after ≡ http ∷ before) × HasAnswer f ⊎ (after ≡ obscura ∷ http ∷ before)
  Calls pin_sitemap ans f before after =
      (after ≡ http ∷ before) × HasAnswer f ⊎ (after ≡ obscura ∷ http ∷ before)
  Calls pin_rss ans f before after =
      (after ≡ http ∷ before) × HasAnswer f ⊎ (after ≡ obscura ∷ http ∷ before)

  Leaves-trans :
      (a b c : Service) → Leaves a b → Leaves b c → b.learn_strategy ≡ a.learn_strategy → Leaves a c
  Leaves-trans a b c h k e = (k.0 ∙ h.0, k.1 ∙ h.1, k.2 ∙ h.2, λ off. k.3 (e ∙ off) ∙ h.3 off)

  -- the escalation after an HTTP attempt that settles nothing
  escalated_lem :
      (site : Site) (ans : Answers) (url : String) (f : Fetched) (svc : Service)
      → let r = fetch_obscura site ans url f (attempted site ans url http false svc) in
        (r.0.contacted ≡ obscura ∷ http ∷ svc.contacted) × Leaves svc r.0
  escalated_lem site ans url f svc =
      let tried = attempted_lem site ans url http false svc in
      let again = obscura_lem site ans url f (attempted site ans url http false svc) in
      (
        again.0 ∙ ap (λ calls. obscura ∷ calls) tried.0,
        Leaves-trans svc (attempted site ans url http false svc)
            (fetch_obscura site ans url f (attempted site ans url http false svc)).0 tried.1 again.1
            tried.2,
      )

  after_lem :
      (site : Site) (ans : Answers) (url : String) (pin : Pin) (t : TriedHttp) (svc : Service)
      → ((f : Fetched) → t ≡ settled f → HasAnswer f)
      → pin ≢ pinned obscura
      → pin ≢ pinned browser
      → let r = after_http site ans url pin t svc in
        Calls pin ans r.1 svc.contacted r.0.contacted × Leaves svc r.0
  unfolding after_http
  after_lem site ans url (pinned http) (settled f) svc h a b =
      let tried = attempted_lem site ans url http true svc in (tried.0, tried.1)
  after_lem site ans url (pinned http) (escalates f) svc h a b =
      let tried = attempted_lem site ans url http false svc in (tried.0, tried.1)
  after_lem site ans url (pinned obscura) t svc h a b = absurd (a refl)
  after_lem site ans url (pinned browser) t svc h a b = absurd (b refl)
  after_lem site ans url unpinned (settled f) svc h a b =
      let tried = attempted_lem site ans url http true svc in (inl (tried.0, h f refl), tried.1)
  after_lem site ans url unpinned (escalates f) svc h a b =
      let tried = escalated_lem site ans url f svc in (inr tried.0, tried.1)
  after_lem site ans url pin_sitemap (settled f) svc h a b =
      let tried = attempted_lem site ans url http true svc in (inl (tried.0, h f refl), tried.1)
  after_lem site ans url pin_sitemap (escalates f) svc h a b =
      let tried = escalated_lem site ans url f svc in (inr tried.0, tried.1)
  after_lem site ans url pin_rss (settled f) svc h a b =
      let tried = attempted_lem site ans url http true svc in (inl (tried.0, h f refl), tried.1)
  after_lem site ans url pin_rss (escalates f) svc h a b =
      let tried = escalated_lem site ans url f svc in (inr tried.0, tried.1)

  http_lem :
      (site : Site) (ans : Answers) (mode : Mode) (url : String)
      (cached : Option (CachedEntry Kept)) (pin : Pin) (svc : Service)
      → pin ≢ pinned obscura
      → pin ≢ pinned browser
      → let r = fetch_http site ans mode url cached pin svc in
        Calls pin ans r.1 svc.contacted r.0.contacted × Leaves svc r.0
  unfolding fetch_http
  http_lem site ans mode url cached pin svc a b =
      after_lem site ans url pin _ svc
        (settled_lem site svc.fast_path_min_links mode url
          (ans.http (etag_of cached) (last_modified_of cached)))
        a b

  browser_lem :
      (site : Site) (ans : Answers) (url : String) (svc : Service)
      → let r = fetch_browser site ans url svc in
        Calls (pinned browser) ans r.1 svc.contacted r.0.contacted × Leaves svc r.0
  unfolding fetch_browser
  browser_lem site ans url svc =
      let good = attempted_lem site ans url browser true svc in
      let bad = attempted_lem site ans url browser false svc in
      elim (Option-cases ans.browser) [
        | inl unwired ↦
            rw (unwired, fetch_browser) ((λ e. refl, λ r e. cc), (refl, refl, refl, λ e. refl))
        | inr (r, wired) ↦ elim (Result-cases r) [
          | inl (e, failed) ↦ rw (wired, failed, fetch_browser) ((λ e. cc, λ r e. bad.0), bad.1)
          | inr (page, came) ↦ rw (wired, came, fetch_browser) ((λ e. cc, λ r e. good.0), good.1)
        ]
      ]

  -- A fetch that is pinned to HTTP or to obscura calls that fetcher once and no other; one that is
  -- pinned to the browser calls it once where one is wired, and nothing where none is. Any other fetch
  -- calls HTTP, and then obscura, or only HTTP when that brought a page or told that the page has not
  -- changed. No fetch changes the cache, the cooldowns or the metrics, and none records feedback while
  -- learning is off.
  pub fetch_html-Calls :
      (site : Site) (ans : Answers) (mode : Mode) (url : String)
      (cached : Option (CachedEntry Kept)) (pin : Pin) (svc : Service)
      → let r = fetch_html site ans mode url cached pin svc in
        Calls pin ans r.1 svc.contacted r.0.contacted × Leaves svc r.0
  unfolding fetch_html
  fetch_html-Calls site ans mode url cached (pinned browser) svc = browser_lem site ans url svc
  fetch_html-Calls site ans mode url cached (pinned obscura) svc =
      obscura_lem site ans url nothing_yet svc
  fetch_html-Calls site ans mode url cached (pinned http) svc =
      http_lem site ans mode url cached (pinned http) svc (λ e. cc) (λ e. cc)
  fetch_html-Calls site ans mode url cached unpinned svc =
      http_lem site ans mode url cached unpinned svc (λ e. cc) (λ e. cc)
  fetch_html-Calls site ans mode url cached pin_sitemap svc =
      http_lem site ans mode url cached pin_sitemap svc (λ e. cc) (λ e. cc)
  fetch_html-Calls site ans mode url cached pin_rss svc =
      http_lem site ans mode url cached pin_rss svc (λ e. cc) (λ e. cc)
