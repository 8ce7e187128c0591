-- ===== src/Jobs/Dotted/Paths.antt =====
-- Reading what was written at a path, and elsewhere.
use ujin.Prelude.{List, [], arith, eq_iff, false, str_eq, ◌∷◌, ◌≡◌}
use ujin.Jobs.Value.{Value, obj, Fields, field_of, put_field, field_of-put_field}
use ujin.Jobs.Dotted.{Part, dotted_get, dotted_set, fields_at}

-- What is written at a path is read back there, whatever stood in the way.
pub dotted_get-dotted_set :
    (fs : Fields) (p : Part) (rest : List Part) (v : Value)
    → dotted_get (obj (dotted_set fs (p ∷ rest) v)) (p ∷ rest) ≡ v
unfolding dotted_get dotted_set
dotted_get-dotted_set fs p [] v =
    ground (arith, field_of-put_field p.text p.text v fs, eq_iff p.text p.text)
dotted_get-dotted_set fs p (q ∷ rest) v =
    let inner : Fields = dotted_set (fields_at p.text fs) (q ∷ rest) v in
    let here : field_of p.text (put_field p.text (obj inner) fs) ≡ obj inner =
      ground (arith, field_of-put_field p.text p.text (obj inner) fs, eq_iff p.text p.text) in
    rw here (dotted_get-dotted_set (fields_at p.text fs) q rest v)

-- A write leaves alone every path that begins with another field.
pub dotted_get-dotted_set_apart :
    (fs : Fields) (p q : Part) (below beside : List Part) (v : Value)
    → str_eq p.text q.text ≡ false
    → dotted_get (obj (dotted_set fs (p ∷ below) v)) (q ∷ beside) ≡ dotted_get (obj fs) (q ∷ beside)
unfolding dotted_get dotted_set
dotted_get-dotted_set_apart fs p q [] beside v ne =
    let same : field_of q.text (put_field p.text v fs) ≡ field_of q.text fs =
      ground (arith, field_of-put_field p.text q.text v fs) in
    rw same
dotted_get-dotted_set_apart fs p q (r ∷ below) beside v ne =
    let inner : Fields = dotted_set (fields_at p.text fs) (r ∷ below) v in
    let same : field_of q.text (put_field p.text (obj inner) fs) ≡ field_of q.text fs =
      ground (arith, field_of-put_field p.text q.text (obj inner) fs) in
    rw same
