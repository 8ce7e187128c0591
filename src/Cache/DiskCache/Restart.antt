-- ===== src/Cache/DiskCache/Restart.antt =====
-- ujin/scrape/build.py: the memory cache is written to disk when the service closes and read from it
-- when it is built.
pub mod Keys
pub mod Refreshed
use ujin.Prelude.{
  length-append, All-both, All-map, List, Option, String, [], ◌∷◌, ◌++◌, ◌+◌, ◌≡◌, ◌≤◌, ℕ, All,
  none, some, arith, refl, if◌then◌else◌, str_eq, false, true, eq_iff, ap, ◌∙◌, length,
}
use ujin.Prelude.Dict.{Dict, lookup, remove}
use ujin.Float.{Float}
use ujin.Cache.Store
use ujin.Cache.Store.{CachedEntry, ScrapeCache}
use ujin.Cache.DiskCache.{
  Pickle, Content, DiskRow, row_of, entry_of, put_row, put, load_all, flush_from,
}
use ujin.Cache.DiskCache.Kept.{put_lem}

module _ {P : Type 0} where
  -- the entries with the readings of the clock at which they are written
  unfoldable pub stamped : (ℕ → Float) → ℕ → Dict P → List (Float × String × P)
  stamped clock n [] = []
  stamped clock n ((key, entry) ∷ rest) = (clock n, key, entry) ∷ stamped clock (n + 1) rest

  unfoldable pub put_all : Dict (CachedEntry P) → ScrapeCache P → ScrapeCache P
  put_all [] c = c
  put_all ((key, entry) ∷ rest) c = put_all rest (Store.put key entry c)

module _ {V B : Type 0} where
  -- what is written when the service closes
  unfoldable pub close :
      Pickle V B → (ℕ → Float) → ScrapeCache (Content V) → Dict (DiskRow B) → Dict (DiskRow B)
  unfolding stamped flush_from
  close pickle clock c table = flush_from pickle (stamped clock 0 c.store) table

  -- what is read when it is built, from the rows of the table
  unfoldable pub warm :
      Pickle V B → Float → Dict (DiskRow B) → ScrapeCache (Content V) → ScrapeCache (Content V)
  unfolding put_all
  warm pickle now rows c = put_all (load_all pickle now rows) c
