-- ===== src/Jobs/Dotted.antt =====
-- ujin/jobs/transforms.py: `dotted_get` and `dotted_set`. A path is given by the parts that
-- `path.split(".")` has.
pub mod Paths
use ujin.Prelude.{List, Option, String, [], none, some, suc, zero, ℕ, ◌∷◌}
use ujin.Jobs.Value.{
  Value, null, number, str, arr, obj, Items, nil, cons, Fields, done, field, field_of, put_field,
  to_list,
}

-- A part of a path: its text and, where `isdigit()` holds, its number.
pub record Part : Type 0 where
  pub text : String
  pub index : Option ℕ

nth : Items → ℕ → Value
nth nil i = null
nth (cons v rest) zero = v
nth (cons v rest) (suc i) = nth rest i

-- one round of the loop; a value that has no parts gives None, and so do the rounds after it
unfoldable pub get_part : Value → Part → Value
unfolding nth
get_part (obj fs) p = field_of p.text fs
get_part (arr xs) p = elim p.index [ none ↦ null | some i ↦ nth xs i ]
get_part null p = null
get_part (number n) p = null
get_part (str s) p = null

unfoldable pub dotted_get : Value → List Part → Value
unfolding get_part
dotted_get v [] = v
dotted_get v (p ∷ rest) = dotted_get (get_part v p) rest

-- the dictionary that the walk goes on in: the one that is there, or a new one
unfoldable pub fields_at : String → Fields → Fields
fields_at key fs = elim (field_of key fs) [ obj inner ↦ inner | _ ↦ done ]

unfoldable pub dotted_set : Fields → List Part → Value → Fields
unfolding fields_at
dotted_set fs [] v = fs
dotted_set fs (p ∷ []) v = put_field p.text v fs
dotted_set fs (p ∷ q ∷ rest) v =
    put_field p.text (obj (dotted_set (fields_at p.text fs) (q ∷ rest) v)) fs
