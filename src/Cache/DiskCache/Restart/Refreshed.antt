-- ===== src/Cache/DiskCache/Restart/Refreshed.antt =====
-- A restart keeps the entries of the memory cache and forgets their age.
use ujin.Prelude.{
  All-both, All-map, String, [], ◌∷◌, ◌++◌, ◌+◌, ◌≡◌, ◌≤◌, ℕ, All, none, some, arith, refl, str_eq,
  false, ap, ◌∙◌, length, sym, Option, Option-cases, inl, inr,
}
use mathlib.Core.Path.{subst}
use mathlib.Core.Logic.{∥∥₁_map}
use mathlib.Core.List.{Permᴰ, Perm, filter_map}
use mathlib.Core.List.Permᴰ
use mathlib.Core.Option.{Option-elim}
use ujin.Prelude.Dict.{Dict, lookup}
use ujin.Float.{Float}
use ujin.Cache.Store.{CachedEntry, ScrapeCache}
use ujin.Cache.DiskCache.{
  Pickle, Content, DiskRow, row_of, entry_of, put_row, put, load_all, flush_from,
}
use ujin.Cache.DiskCache.Kept.{put_lem}
use ujin.Cache.DiskCache.Restart.{stamped, close, warm}
use ujin.Cache.DiskCache.Restart.Keys.{
  DistinctKeys, lookup-append_one, put_all_lem, append_none, append_one, DistinctKeys-perm,
  length-perm,
}

module _ {B : Type 0} where
  put_row_new :
      (key : String) (row : DiskRow B) (t : Dict (DiskRow B))
      → lookup key t ≡ none
      → put_row key row t ≡ t ++ ((key, row) ∷ [])
  unfolding put_row lookup
  put_row_new key row [] new = refl
  put_row_new key row ((name, old) ∷ t) new = ground (arith, put_row_new key row t (ground arith))

module _ {V : Type 0} where
  -- the entries as if they had been fetched at `now`
  abbrev refreshed : Float → Dict (CachedEntry (Content V)) → Dict (CachedEntry (Content V))
  refreshed now [] = []
  refreshed now ((key, entry) ∷ rest) =
      (key, record entry { fetched_at = now; hits = 0 }) ∷ refreshed now rest

  All-refreshed :
      (Q : String → Type 0) (now : Float) (d : Dict (CachedEntry (Content V)))
      → All (λ x. Q x.0) d
      → All (λ x. Q x.0) (refreshed now d)
  All-refreshed Q now [] h = tt
  All-refreshed Q now (x ∷ d) h = (h.0, All-refreshed Q now d h.1)

  DistinctKeys-refreshed :
      (now : Float) (d : Dict (CachedEntry (Content V)))
      → DistinctKeys d
      → DistinctKeys (refreshed now d)
  DistinctKeys-refreshed now [] h = tt
  DistinctKeys-refreshed now (x ∷ d) h =
      (All-refreshed (λ k. str_eq x.0 k ≡ false) now d h.0, DistinctKeys-refreshed now d h.1)

  in_empty :
      (W : Type 0) (d : Dict (CachedEntry (Content V))) → All (λ x. lookup {V = W} x.0 [] ≡ none) d
  unfolding lookup
  in_empty W [] = tt
  in_empty W (x ∷ d) = (refl, in_empty W d)

  length-refreshed :
      (now : Float) (d : Dict (CachedEntry (Content V))) → length (refreshed now d) ≡ length d
  length-refreshed now [] = refl
  length-refreshed now (x ∷ d) = omega (arith, length-refreshed now d)

module _ {V B : Type 0} where
  -- every payload can be pickled and is read back as it was
  abbrev Saves : Pickle V B → Type 0
  Saves pickle = (v : V) → (blob : B) × (pickle.dumps v ≡ some blob) × (pickle.loads blob ≡ some v)

  load_all-append_one :
      (pickle : Pickle V B) (now : Float) (key : String) (row : DiskRow B) (v : V)
      (t : Dict (DiskRow B))
      → pickle.loads row.payload ≡ some v
      → load_all pickle now (t ++ ((key, row) ∷ []))
        ≡ load_all pickle now t ++ ((key, entry_of now row v) ∷ [])
  unfolding load_all
  load_all-append_one pickle now key row v [] loaded = rw (loaded, load_all) refl
  load_all-append_one pickle now key row v ((name, old) ∷ t) loaded =
      ground (arith, load_all-append_one pickle now key row v t loaded)

  flush_lem :
      (pickle : Pickle V B) (clock : ℕ → Float) (n : ℕ) (now : Float)
      (d : Dict (CachedEntry (Content V))) (t : Dict (DiskRow B))
      → Saves pickle
      → DistinctKeys d
      → All (λ x. lookup x.0 t ≡ none) d
      → load_all pickle now (flush_from pickle (stamped clock n d) t)
        ≡ load_all pickle now t ++ refreshed now d
  unfolding flush_from stamped row_of entry_of
  flush_lem pickle clock n now [] t saves apart new = append_none (load_all pickle now t)
  flush_lem pickle clock n now ((key, entry) ∷ d) t saves apart new =
      let saved = saves entry.payload.value in
      let row : DiskRow B = row_of (clock n) entry saved.0 in
      let t' : Dict (DiskRow B) = t ++ ((key, row) ∷ []) in
      let written : put pickle (clock n) key entry t ≡ t' =
        put_lem pickle (clock n) key entry t saved.0 saved.1 ∙ put_row_new key row t new.0 in
      let still : All (λ x. lookup x.0 t' ≡ none) d =
        All-map (λ x q. lookup-append_one key x.0 row t q.0 q.1) d
          (All-both (λ x. lookup x.0 t ≡ none) (λ x. str_eq key x.0 ≡ false) d new.1 apart.0) in
      ap (λ u. load_all pickle now (flush_from pickle (stamped clock (n + 1) d) u)) written
      ∙ flush_lem pickle clock (n + 1) now d t' saves apart.1 still
      ∙ ap (λ xs. xs ++ refreshed now d)
          (load_all-append_one pickle now key row entry.payload.value t saved.2)
      ∙ append_one (load_all pickle now t) (key, record entry { fetched_at = now; hits = 0 })
          (refreshed now d)

  -- the entry of a row, if it can be read
  read_entry : Pickle V B → Float → String × DiskRow B → Option (String × CachedEntry (Content V))
  unfolding entry_of
  read_entry pickle now (key, row) = elim (pickle.loads row.payload) [
    | none ↦ none
    | some value ↦ some (key, entry_of now row value)
  ]

  load_all-filter_map :
      (pickle : Pickle V B) (now : Float) (rows : Dict (DiskRow B))
      → filter_map (read_entry pickle now) rows ≡ load_all pickle now rows
  unfolding load_all read_entry filter_map Option-elim
  load_all-filter_map pickle now [] = refl
  load_all-filter_map pickle now ((key, row) ∷ rows) =
      elim (Option-cases (pickle.loads row.payload)) [
        | inl unread ↦ rw (unread, load_all, read_entry) (load_all-filter_map pickle now rows)
        | inr (v, said) ↦
            rw (said, load_all, read_entry)
              (ap (◌∷◌ (key, entry_of now row v)) (load_all-filter_map pickle now rows))
      ]

  load_all-perm :
      (pickle : Pickle V B) (now : Float) (t rows : Dict (DiskRow B))
      → Permᴰ t rows
      → Permᴰ (load_all pickle now t) (load_all pickle now rows)
  load_all-perm pickle now t rows d =
      subst (λ xs. Permᴰ xs (load_all pickle now rows)) (load_all-filter_map pickle now t)
        (subst (λ ys. Permᴰ (filter_map (read_entry pickle now) t) ys)
          (load_all-filter_map pickle now rows) (Permᴰ.filter_map (read_entry pickle now) d))

  warmed :
      (pickle : Pickle V B) (clock : ℕ → Float) (now : Float) (c : ScrapeCache (Content V))
      (rows : Dict (DiskRow B))
      → Saves pickle
      → DistinctKeys c.store
      → length c.store ≤ c.max
      → Permᴰ (close pickle clock c []) rows
      → Permᴰ (refreshed now c.store) (warm pickle now rows (record c { store = [] })).store
  unfolding warm close load_all
  warmed pickle clock now c rows saves apart room d =
      let read : Permᴰ (refreshed now c.store) (load_all pickle now rows) =
        subst (λ xs. Permᴰ xs (load_all pickle now rows))
          (flush_lem pickle clock 0 now c.store [] saves apart (in_empty (DiskRow B) c.store))
          (load_all-perm pickle now (close pickle clock c []) rows d) in
      subst (λ ys. Permᴰ (refreshed now c.store) ys)
        (sym (
          put_all_lem (load_all pickle now rows) (record c { store = [] })
            (DistinctKeys-perm read (DistinctKeys-refreshed now c.store apart))
            (in_empty (CachedEntry (Content V)) (load_all pickle now rows))
            (omega (arith, length-refreshed now c.store, length-perm read, room))))
        read

  -- A cache that is written to an empty disk cache when the service closes, and read into an empty one
  -- when it is built again, has all its entries, in some order, and no others, if its keys are
  -- distinct, it is within its limit, every payload can be pickled, and the query gives the rows of the
  -- table in any order. Each counts as fetched when it is read, however old it was, and as never hit.
  pub warm-close :
      (pickle : Pickle V B) (clock : ℕ → Float) (now : Float) (c : ScrapeCache (Content V))
      (rows : Dict (DiskRow B))
      → Saves pickle
      → DistinctKeys c.store
      → length c.store ≤ c.max
      → Perm (close pickle clock c []) rows
      → Perm (refreshed now c.store) (warm pickle now rows (record c { store = [] })).store
  warm-close pickle clock now c rows saves apart room p =
      ∥∥₁_map
        {B = Permᴰ (refreshed now c.store) (warm pickle now rows (record c { store = [] })).store} p
        (λ d. warmed pickle clock now c rows saves apart room d)
