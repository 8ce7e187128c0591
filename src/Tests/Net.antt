-- ===== src/Tests/Net.antt =====
-- The caches, the robots rules, the proxies and the diff on concrete inputs.
use ujin.Prelude.{
  All, Any, Bool, List, String, [], arith, false, none, refl, some, true, ℕ, ◌++◌, ◌<◌, ◌∷◌, ◌≡◌,
  ◌≤◌,
}
use ujin.Proxy.{turns, ProxyPool, acquire, healthy}
use ujin.Prelude.Dict.{Dict, lookup, insert}
use ujin.Float.Fixed.{fixed}
use ujin.Cache.Store
use ujin.Cache.Store.{CachedEntry, ScrapeCache, age_secs}
use ujin.Cache.Store.Recent.{get-put}
use ujin.Cache.HostPolicy.{HostPolicy, cooldown_remaining, record_failure, penalty}
use ujin.Robots.Policy.{Rule, RobotsPolicy, is_match, group, best_rule, is_allowed}
use ujin.Robots.Policy.Precedence.{Matches, is_allowed_lem}
use ujin.Robots.Cached
use ujin.Robots.Cached.{RobotsCache}
use ujin.Proxy.Turns.{acquire-healthy}
use ujin.Diff.{diff, any, gone, compare_new}

abbrev page : CachedEntry String
page = record { payload = "page"; fetched_at = 100; hits = 0 }

abbrev small : ScrapeCache String
small = record { max = 1; ttl = 3600; store = ("other", page) ∷ [] }

get-put_example :
    (age_secs 200 page ≤ 3600
      → (Store.get 200 "home" (Store.put "home" page small)).0 ≡ some (record page { hits = 1 }))
    × (3600 < age_secs 200 page
        → ((Store.get 200 "home" (Store.put "home" page small)).0 ≡ none)
          × ((later : ℕ)
              → (Store.get later "home" (Store.get 200 "home" (Store.put "home" page small)).1).0
                ≡ none))
get-put_example = get-put "home" page small 200 (omega arith)

abbrev policy : HostPolicy
policy = record { cooldown = 60; hosts = [] }

first_wait : cooldown_remaining 5000 "a.org" (record_failure 1000 "a.org" policy) ≡ 2000
unfolding cooldown_remaining record_failure lookup insert penalty
first_wait = refl

abbrev rule : Rule
rule = (false, "/private")

abbrev site : RobotsPolicy
site = record { rules = ("*", (rule ∷ (true, "/private") ∷ [])) ∷ []; delays = []; sitemaps = [] }

always : String → String → Bool
always pattern path = true

size_of : String → ℕ
size_of pattern = 8

-- of two rules as long as each other, the first decides
first_rule : is_allowed always size_of "/private/x" "bot" site ≡ false
unfolding is_allowed always size_of lookup group best_rule
first_rule = refl

is_allowed_lem_example :
    ((before : List Rule) (r : Rule) (after : List Rule)
      → group "bot" site ≡ some (before ++ (r ∷ after))
      → Matches always size_of "/private/x" r
      → All (λ x. Matches always size_of "/private/x" x → size_of x.1 < size_of r.1) before
      → All (λ x. Matches always size_of "/private/x" x → size_of x.1 ≤ size_of r.1) after
      → is_allowed always size_of "/private/x" "bot" site ≡ r.0)
    × ((rs : List Rule)
        → group "bot" site ≡ some rs
        → All (λ x. is_match always size_of "/private/x" x ≡ false) rs
        → is_allowed always size_of "/private/x" "bot" site ≡ true)
    × (group "bot" site ≡ none → is_allowed always size_of "/private/x" "bot" site ≡ true)
is_allowed_lem_example = is_allowed_lem always size_of "/private/x" "bot" site

abbrev robots : RobotsCache
robots = record { ttl = 3600; store = [] }

fetched_first : (Cached.get 100 "a.org" site robots).2 ≡ true
unfolding Cached.get lookup
fetched_first = refl

abbrev kept_robots : RobotsCache
kept_robots = (Cached.get 100 "a.org" site robots).1

abbrev pool : ProxyPool
pool = record {
  states =
      record { url = "p"; consecutive_failures = 1; cooldown_until = 900 }
      ∷ record { url = "q"; consecutive_failures = 0; cooldown_until = 0 }
      ∷ [];
  cooldown = 6000;
  next = 0;
}

acquire-healthy_example :
    ((acquire 100 pool).0 ≡ none → healthy 100 pool ≡ [])
    × ((u : String) → (acquire 100 pool).0 ≡ some u → Any (λ v. v ≡ u) (healthy 100 pool))
    × ((acquire 100 pool).1.states ≡ pool.states)
acquire-healthy_example = acquire-healthy 100 pool (omega arith)

skips_benched : (acquire 100 pool).0 ≡ some "q"
unfolding acquire turns
skips_benched = refl

abbrev regions : Dict String
regions = ("h1", "f0") ∷ ("p", "f1") ∷ []

abbrev reordered : Dict String
reordered = ("p", "f1") ∷ ("h1", "f0") ∷ []

no_change : any (diff (some regions) reordered) ≡ false
unfolding any diff compare_new gone lookup
no_change = refl
