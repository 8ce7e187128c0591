-- ===== src/Jobs/Transforms/Items/Fill.antt =====
-- `FillTransform`: defaults where a value is missing.
use ujin.Prelude.{List, String, [], arith, eq_iff, map, refl, ◌∷◌, ◌≡◌, ◌≢◌}
use ujin.Jobs.Value.{
  Value, null, number, str, arr, obj, Fields, done, put_field, field_of, to_list, of_list,
  field_of-put_field,
}
use ujin.Jobs.Dotted.{Part, dotted_get, dotted_set, fields_at}
use ujin.Jobs.Dotted.Paths.{dotted_get-dotted_set}

-- `fills` pairs paths with their defaults; with `paths` and `value`, all have the same.
pub record Fill : Type 0 where
  pub path : List Part
  pub fills : List (List Part × Value)

filled_at : List Part → Value → Value → Fields → Fields
filled_at at default null fs = dotted_set fs at default
filled_at at default _ fs = fs

unfoldable pub fill_one : List Part → Value → Fields → Fields
unfolding filled_at
fill_one at default fs = filled_at at default (dotted_get (obj fs) at) fs

unfoldable pub fill_all : List (List Part × Value) → Fields → Fields
fill_all [] fs = fs
fill_all (entry ∷ rest) fs = fill_all rest (fill_one entry.0 entry.1 fs)

unfoldable pub fill_item : Fill → Value → Value
fill_item f (obj fs) = obj (fill_all f.fills fs)
fill_item f item = item

filled : Fill → Fields → Value → Fields
unfolding fill_item
filled f event (arr xs) = dotted_set event f.path (arr (of_list (map (fill_item f) (to_list xs))))
filled f event (obj fs) = dotted_set event f.path (fill_item f (obj fs))
filled f event _ = event

unfoldable pub apply : Fill → Fields → Fields
unfolding filled
apply f event = filled f event (dotted_get (obj event) f.path)

fill_missing :
    (at : List Part) (default : Value) (fs : Fields)
    → dotted_get (obj fs) at ≡ null
    → fill_one at default fs ≡ dotted_set fs at default
unfolding fill_one filled_at
fill_missing at default fs e = rw (e, fill_one) refl

kept_at :
    (at : List Part) (default : Value) (v : Value) (fs : Fields)
    → v ≢ null
    → filled_at at default v fs ≡ fs
unfolding filled_at
kept_at at default null fs there = absurd (there refl)
kept_at at default (number x) fs there = refl
kept_at at default (str s) fs there = refl
kept_at at default (arr xs) fs there = refl
kept_at at default (obj inner) fs there = refl

-- A default goes to a path that has no value, or None, whatever stands on the way to it; a value that
-- is there is kept.
pub fill_one_lem :
    (p : Part) (rest : List Part) (default : Value) (fs : Fields)
    → (dotted_get (obj fs) (p ∷ rest) ≡ null
        → dotted_get (obj (fill_one (p ∷ rest) default fs)) (p ∷ rest) ≡ default)
      × (dotted_get (obj fs) (p ∷ rest) ≢ null → fill_one (p ∷ rest) default fs ≡ fs)
unfolding fill_one
fill_one_lem p rest default fs = (
  λ e. rw (fill_missing (p ∷ rest) default fs e) (dotted_get-dotted_set fs p rest default),
  λ there. kept_at (p ∷ rest) default (dotted_get (obj fs) (p ∷ rest)) fs there,
)

no_fields : (key text : String) (fs : Fields) → field_of key fs ≡ str text → fields_at key fs ≡ done
unfolding fields_at
no_fields key text fs e = rw (e, fields_at) refl

-- The path `a.b` over a field `a` that holds a text has no value: the text is replaced.
pub fill_one-overwrites :
    (a b : Part) (text : String) (default : Value) (fs : Fields)
    → field_of a.text fs ≡ str text
    → field_of a.text (fill_one (a ∷ b ∷ []) default fs) ≡ obj (put_field b.text default done)
unfolding dotted_get dotted_set
fill_one-overwrites a b text default fs e =
    let missing : dotted_get (obj fs) (a ∷ b ∷ []) ≡ null = unfold dotted_get in rw e refl in
    rw (fill_missing (a ∷ b ∷ []) default fs missing) (
      rw (no_fields a.text text fs e) (
        ground (
          arith,
          field_of-put_field a.text a.text (obj (put_field b.text default done)) fs,
          eq_iff a.text a.text,
        )))
