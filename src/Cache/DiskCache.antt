-- ===== src/Cache/DiskCache.antt =====
-- ujin/cache/disk.py: `DiskCache`. The table is a dictionary on its primary key; a transaction is one
-- step. The rows of a query without an order are an argument. `pickle` is the two fields of `Pickle`, where an exception is `none`.
pub mod Kept
pub mod Restart
use ujin.Prelude.{
  List, Option, String, [], none, some, ◌∷◌, if◌then◌else◌, str_eq, false, true, Bool,
}
use ujin.Prelude.Dict.{Dict, lookup}
use ujin.Float.{Float}
use ujin.Cache.Store.{CachedEntry}

pub record Pickle (V B : Type 0) : Type 0 where
  pub dumps : V → Option B
  pub loads : B → Option V

-- what the memory cache does not look at
pub record Content (V : Type 0) : Type 0 where
  pub url : String
  pub fingerprint : String
  pub etag : Option String
  pub last_modified : Option String
  pub value : V

pub record DiskRow (B : Type 0) : Type 0 where
  pub url : String
  pub fingerprint : String
  pub etag : Option String
  pub last_modified : Option String
  pub fetched_wall : Float
  pub payload : B

module _ {B : Type 0} where
  -- INSERT … ON CONFLICT(key) DO UPDATE: the row that is there keeps its address
  unfoldable pub put_row : String → DiskRow B → Dict (DiskRow B) → Dict (DiskRow B)
  put_row key row [] = (key, row) ∷ []
  put_row key row ((name, old) ∷ rest) =
      if str_eq name key
      then (name, record row { url = old.url }) ∷ rest
      else (name, old) ∷ put_row key row rest

  unfoldable pub contains : String → Dict (DiskRow B) → Bool
  contains key table = elim (lookup key table) [ none ↦ false | some row ↦ true ]

module _ {V B : Type 0} where
  unfoldable pub row_of : Float → CachedEntry (Content V) → B → DiskRow B
  row_of wall entry blob = record {
    url = entry.payload.url;
    fingerprint = entry.payload.fingerprint;
    etag = entry.payload.etag;
    last_modified = entry.payload.last_modified;
    fetched_wall = wall;
    payload = blob;
  }

  unfoldable pub entry_of : Float → DiskRow B → V → CachedEntry (Content V)
  entry_of now row value = record {
    payload = record {
      url = row.url;
      fingerprint = row.fingerprint;
      etag = row.etag;
      last_modified = row.last_modified;
      value = value;
    };
    fetched_at = now;
    hits = 0;
  }

  unfoldable pub put :
      Pickle V B → Float → String → CachedEntry (Content V) → Dict (DiskRow B) → Dict (DiskRow B)
  unfolding row_of put_row
  put pickle wall key entry table = elim (pickle.dumps entry.payload.value) [
    | none ↦ table
    | some blob ↦ put_row key (row_of wall entry blob) table
  ]

  read_row : Pickle V B → Float → Option (DiskRow B) → Option (CachedEntry (Content V))
  unfolding entry_of
  read_row pickle now none = none
  read_row pickle now (some row) = elim (pickle.loads row.payload) [
    | none ↦ none
    | some value ↦ some (entry_of now row value)
  ]

  unfoldable pub get :
      Pickle V B → Float → String → Dict (DiskRow B) → Option (CachedEntry (Content V))
  unfolding read_row
  get pickle now key table = read_row pickle now (lookup key table)

  -- the entries that can be read, under their keys; `rows` are those of the table, as the query has
  -- given them
  unfoldable pub load_all : Pickle V B → Float → Dict (DiskRow B) → Dict (CachedEntry (Content V))
  unfolding entry_of
  load_all pickle now [] = []
  load_all pickle now ((key, row) ∷ rest) = elim (pickle.loads row.payload) [
    | none ↦ load_all pickle now rest
    | some value ↦ (key, entry_of now row value) ∷ load_all pickle now rest
  ]

  -- the rows are written in one transaction, in the order of the entries; each has its reading of the
  -- clock
  unfoldable pub flush_from :
      Pickle V B
      → List (Float × String × CachedEntry (Content V))
      → Dict (DiskRow B)
      → Dict (DiskRow B)
  unfolding put
  flush_from pickle [] table = table
  flush_from pickle ((wall, key, entry) ∷ rest) table =
      flush_from pickle rest (put pickle wall key entry table)
