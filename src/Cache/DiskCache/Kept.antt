-- ===== src/Cache/DiskCache/Kept.antt =====
-- What a disk cache reads back.
use ujin.Prelude.{
  false, if◌then◌else◌, none, str_eq, some, ◌≡◌, Option, String, [], ◌∷◌, arith, refl, inl, inr,
  Bool-cases, eq_iff, ap, ◌∙◌,
}
use ujin.Cache.Store.{CachedEntry}
use ujin.Prelude.Dict.{Dict, lookup}
use ujin.Float.{Float}
use ujin.Cache.DiskCache.{Pickle, Content, DiskRow, row_of, entry_of, put_row, put, read_row, get}

-- the address under which a key is kept once it is written with this one
abbrev address : {B : Type 0} → Option (DiskRow B) → String → String
address none url = url
address (some old) url = old.url

module _ {B : Type 0} where
  lookup-put_row :
      (key other : String) (row : DiskRow B) (table : Dict (DiskRow B))
      → lookup other (put_row key row table) ≡ (
          if str_eq key other
          then some (record row { url = address (lookup key table) row.url })
          else lookup other table)
  unfolding lookup put_row
  lookup-put_row key other row [] = refl
  lookup-put_row key other row ((name, old) ∷ rest) = elim (Bool-cases (str_eq name key)) [
    | inl here ↦ ground (arith, here, eq_iff name key, eq_iff name other, eq_iff key other)
    | inr on ↦ ground (
      arith,
      on,
      lookup-put_row key other row rest,
      eq_iff name key,
      eq_iff name other,
      eq_iff key other,
    )
  ]

  lookup-put_self :
      (key : String) (row : DiskRow B) (table : Dict (DiskRow B))
      → lookup key (put_row key row table)
        ≡ some (record row { url = address (lookup key table) row.url })
  lookup-put_self key row table = ground (arith, lookup-put_row key key row table, eq_iff key key)

  lookup-put_other :
      (key other : String) (row : DiskRow B) (table : Dict (DiskRow B))
      → str_eq key other ≡ false
      → lookup other (put_row key row table) ≡ lookup other table
  lookup-put_other key other row table apart = ground (arith, lookup-put_row key other row table)

module _ {V B : Type 0} where
  pub put_lem :
      (pickle : Pickle V B) (wall : Float) (key : String) (entry : CachedEntry (Content V))
      (table : Dict (DiskRow B)) (blob : B)
      → pickle.dumps entry.payload.value ≡ some blob
      → put pickle wall key entry table ≡ put_row key (row_of wall entry blob) table
  unfolding put
  put_lem pickle wall key entry table blob dumped = rw (dumped, put) refl

  read_lem :
      (pickle : Pickle V B) (now : Float) (o : Option (DiskRow B)) (row : DiskRow B) (value : V)
      → o ≡ some row
      → pickle.loads row.payload ≡ some value
      → read_row pickle now o ≡ some (entry_of now row value)
  unfolding read_row
  read_lem pickle now o row value found loaded = rw (found, read_row) (rw loaded refl)

  -- An entry whose payload can be pickled and read back is what is read under its key, as fresh as the
  -- reading, with no hits, and under the address the key was first written with. What is read under
  -- any other key is as before.
  pub get-put :
      (pickle : Pickle V B) (wall now : Float) (key other : String)
      (entry : CachedEntry (Content V)) (table : Dict (DiskRow B)) (blob : B)
      → pickle.dumps entry.payload.value ≡ some blob
      → pickle.loads blob ≡ some entry.payload.value
      → (get pickle now key (put pickle wall key entry table)
          ≡ some (record {
            payload = record entry.payload { url = address (lookup key table) entry.payload.url };
            fetched_at = now;
            hits = 0;
          }))
        × (str_eq key other ≡ false
            → get pickle now other (put pickle wall key entry table) ≡ get pickle now other table)
  unfolding get row_of entry_of
  get-put pickle wall now key other entry table blob dumped loaded =
      let row : DiskRow B = row_of wall entry blob in
      let url : String = address (lookup key table) row.url in
      let written = put_lem pickle wall key entry table blob dumped in
      let found : lookup key (put pickle wall key entry table) ≡ some (record row { url = url }) =
        ap (lookup key) written ∙ lookup-put_self key row table in
      (
        read_lem pickle now (lookup key (put pickle wall key entry table))
            (record row { url = url }) entry.payload.value found loaded,
        λ apart.
            ap (λ t. read_row pickle now (lookup other t)) written
            ∙ ap (read_row pickle now) (lookup-put_other key other row table apart),
      )
