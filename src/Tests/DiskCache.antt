-- ===== src/Tests/DiskCache.antt =====
-- A memory cache with two pages, over a restart.
use ujin.Prelude.{ℕ, String, [], arith, none, refl, some, ◌+◌, ◌∷◌}
use ujin.Cache.Store.{CachedEntry, ScrapeCache}
use mathlib.Core.List.{Perm}
use mathlib.Core.List.Perm
use ujin.Prelude.Dict.{Dict}
use ujin.Cache.DiskCache.{Pickle, Content, DiskRow}
use ujin.Cache.DiskCache.Restart.{warm, close}
use ujin.Cache.DiskCache.Restart.Refreshed.{warm-close}

-- payloads are texts, pickled with a version
abbrev pickle : Pickle String (String × ℕ)
pickle = record { dumps = λ s. some (s, 0); loads = λ blob. some blob.0 }

abbrev page : String → CachedEntry (Content String)
page url = record {
  payload = record {
    url = url;
    fingerprint = "f";
    etag = none;
    last_modified = none;
    value = "page";
  };
  fetched_at = 5;
  hits = 3;
}

abbrev cache : ScrapeCache (Content String)
cache = record { max = 4; ttl = 10; store = ("a", page "a") ∷ ("b", page "b") ∷ [] }

abbrev fresh : String → CachedEntry (Content String)
fresh url = record (page url) { fetched_at = 900; hits = 0 }

-- the query gives the rows of the table in this order
abbrev two_rows : Dict (DiskRow (String × ℕ))
two_rows = close pickle (λ n. n + 7) cache []

warm-close_example :
    Perm
      (("a", fresh "a") ∷ ("b", fresh "b") ∷ [])
      (warm pickle 900 two_rows (record cache { store = [] })).store
warm-close_example =
    warm-close pickle (λ n. n + 7) 900 cache two_rows (λ s. ((s, 0), refl, refl))
      ((refl, tt), (tt, tt)) (omega arith) (Perm.refl two_rows)
