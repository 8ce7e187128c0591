-- ===== src/Scrape/Links/Unchanged.antt =====
-- The links of an address whose links have not changed.
use ujin.Prelude.{
  ap, ◌∙◌, sym, false, Option, refl, eq_iff, arith, str_eq, true, ◌≤◌, some, ◌≡◌, List, none,
  String,
}
use mathlib.Core.Path.{subst}
use ujin.Float.{FloatOps}
use ujin.Cache.Store.{ScrapeCache, CachedEntry, get, put, age_secs}
use ujin.Cache.Store.Recent.{get-put}
use ujin.Scrape.Model.{
  at_relook, at_put, Link, link_list, Kept, ScrapeResult, Site, Answers, Service, met,
}
use ujin.Scrape.Links.{
  Source, links_of, finalize_links, against, unchanged, fresh_links, filter_named_links,
}

-- the address that links are resolved against
abbrev pub base_of : Source → String → String
base_of src url = elim src.final_url [ none ↦ url | some u ↦ u ]

module _ ⦃F : FloatOps⦄ where
  -- what is put into the cache when the links differ from the cached ones
  abbrev pub entry_of : Site → Source → String → List Link → Answers → CachedEntry Kept
  entry_of site src url found ans = record {
    payload = record {
      url = url;
      fingerprint = site.fingerprint_links found;
      payload = link_list found;
      etag = src.etag;
      last_modified = src.last_modified;
    };
    fetched_at = ans.clock at_put;
    hits = 0;
  }

  -- the result where an entry has the fingerprint of the links
  again_lem :
      (site : Site) (src : Source) (url : String) (found : List Link) (key : String) (ans : Answers)
      (svc : Service) (prior : CachedEntry Kept)
      → prior.payload.fingerprint ≡ site.fingerprint_links found
      → let r = (against (some prior) site src url found key ans svc).1 in
        (r.cached ≡ true)
        × (r.content ≡ link_list (links_of prior.payload.payload))
        × (r.fingerprint ≡ prior.payload.fingerprint)
        × (r.next_poll_hint_secs ≡ site.poll_hint found true)
  unfolding against unchanged met
  again_lem site src url found key ans svc prior same =
      let yes_same : str_eq prior.payload.fingerprint (site.fingerprint_links found) ≡ true =
        ground (arith, eq_iff prior.payload.fingerprint (site.fingerprint_links found)) in
      rw (yes_same, against) (refl, refl, refl, refl)

  fresh_lem :
      (o : Option (CachedEntry Kept)) (site : Site) (src : Source) (url : String)
      (found : List Link) (key : String) (ans : Answers) (svc : Service)
      → o ≡ none
      → against o site src url found key ans svc
        ≡ fresh_links src url found
            (site.fingerprint_links found)
            (site.poll_hint found false)
            key
            ans
            svc
  unfolding against
  fresh_lem o site src url found key ans svc e = rw e refl

  -- the second time, with the service that the first left
  second_lem :
      (site : Site) (src src' : Source) (url : String) (found : List Link) (key : String)
      (ans ans' : Answers) (svc : Service) (o : Option (CachedEntry Kept))
      → o ≡ some (record (entry_of site src url found ans) { hits = 1 })
      → let r = (against o site src' url found key ans' svc).1 in
        (r.cached ≡ true)
        × (r.content ≡ link_list found)
        × (r.fingerprint ≡ site.fingerprint_links found)
        × (r.next_poll_hint_secs ≡ site.poll_hint found true)
  unfolding links_of
  second_lem site src src' url found key ans ans' svc o e = rw e (
      again_lem site src' url found key ans' svc
        (record (entry_of site src url found ans) { hits = 1 }) refl)

  -- what the second result is to be, after a first one of these links
  abbrev Again : Site → List Link → ScrapeResult → Type 0
  Again site named r =
      (r.cached ≡ true)
      × (r.content ≡ link_list named)
      × (r.fingerprint ≡ site.fingerprint_links named)
      × (r.next_poll_hint_secs ≡ site.poll_hint named true)

  third_lem :
      (site : Site) (src src' : Source) (url : String) (found : List Link) (key : String)
      (ans ans' : Answers) (c : ScrapeCache Kept) (svc : Service)
      → 1 ≤ c.max
      → age_secs
          (ans'.clock at_relook)
          (entry_of site src url (filter_named_links site (base_of src url) found) ans)
        ≤ c.ttl
      → base_of src' url ≡ base_of src url
      → svc.cache
        ≡ put key (entry_of site src url (filter_named_links site (base_of src url) found) ans) c
      → Again site
          (filter_named_links site (base_of src url) found)
          (finalize_links site src' url found key ans' svc).1
  unfolding finalize_links
  third_lem site src src' url found key ans ans' c svc room young same_base kept =
      let named : List Link = filter_named_links site (base_of src url) found in
      let there =
        (get-put key (entry_of site src url named ans) c (ans'.clock at_relook) room).0 young in
      let svc' : Service = record svc { cache = (get (ans'.clock at_relook) key svc.cache).1 } in
      let o : Option (CachedEntry Kept) = (get (ans'.clock at_relook) key svc.cache).0 in
      subst
        (λ b.
          Again site named
            (against o site src' url (filter_named_links site b found) key ans' svc').1)
        (sym same_base)
        (second_lem site src src' url named key ans ans' svc' o
          (ap (λ k. (get (ans'.clock at_relook) key k).0) kept ∙ there))

  -- Links that are finalised again, where neither the patterns nor the scorer raise, within the
  -- lifetime of what the first time put into an empty place of a cache with room for one entry, are
  -- served from that entry: the result says that they are cached, has the same links and fingerprint
  -- as the first, and the scorer's hint for links that have not changed.
  pub finalize_links-again :
      (site : Site) (src src' : Source) (url : String) (found : List Link) (key : String)
      (ans ans' : Answers) (svc : Service)
      → (get (ans.clock at_relook) key svc.cache).0 ≡ none
      → 1 ≤ (get (ans.clock at_relook) key svc.cache).1.max
      → age_secs
          (ans'.clock at_relook)
          (entry_of site src url (filter_named_links site (base_of src url) found) ans)
        ≤ (get (ans.clock at_relook) key svc.cache).1.ttl
      → base_of src' url ≡ base_of src url
      → let first = finalize_links site src url found key ans svc in
        let second = finalize_links site src' url found key ans' first.0 in
        (second.1.cached ≡ true)
        × (second.1.content ≡ first.1.content)
        × (second.1.fingerprint ≡ first.1.fingerprint)
        × (second.1.next_poll_hint_secs
            ≡ site.poll_hint (filter_named_links site (base_of src url) found) true)
  finalize_links-again site src src' url found key ans ans' svc missing room young same_base =
      let named : List Link = filter_named_links site (base_of src url) found in
      let c : ScrapeCache Kept = (get (ans.clock at_relook) key svc.cache).1 in
      let stored : Service × ScrapeResult =
        fresh_links src url named (site.fingerprint_links named) (site.poll_hint named false) key
          ans (record svc { cache = c }) in
      let first : finalize_links site src url found key ans svc ≡ stored =
        unfold finalize_links in
        fresh_lem (get (ans.clock at_relook) key svc.cache).0 site src url named key ans
          (record svc { cache = c }) missing in
      let is : stored.1.content ≡ link_list named = unfold fresh_links in refl in
      let prints : stored.1.fingerprint ≡ site.fingerprint_links named =
        unfold fresh_links in refl in
      let cache_is : stored.0.cache ≡ put key (entry_of site src url named ans) c =
        unfold fresh_links met in refl in
      let known =
        third_lem site src src' url found key ans ans' c stored.0 room young same_base cache_is in
      subst
        (λ a.
          let second = finalize_links site src' url found key ans' a.0 in
          (second.1.cached ≡ true)
          × (second.1.content ≡ a.1.content)
          × (second.1.fingerprint ≡ a.1.fingerprint)
          × (second.1.next_poll_hint_secs ≡ site.poll_hint named true))
        (sym first) (known.0, known.1 ∙ sym is, known.2 ∙ sym prints, known.3)
