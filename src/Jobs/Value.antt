-- ===== src/Jobs/Value.antt =====
-- The values of an event: what JSON decodes to. A number or a Boolean is known by its rank among the
-- floats, since Python's `==` and `hash` tell `True`, `1` and `1.0` not apart.
use ujin.Prelude.{
  Bool, List, String, [], ap, arith, eq_iff, false, if◌then◌else◌, refl, str_eq, true, ◌∷◌, ◌≡◌,
}
use ujin.Float.{Float}

mutual
  pub data Value : Type 0 where
    null : Value
    number : Float → Value
    str : String → Value
    arr : Items → Value
    obj : Fields → Value

  pub data Items : Type 0 where
    nil : Items
    cons : Value → Items → Items

  pub data Fields : Type 0 where
    done : Fields
    field : String → Value → Fields → Fields

unfoldable pub to_list : Items → List Value
to_list nil = []
to_list (cons v rest) = v ∷ to_list rest

unfoldable pub of_list : List Value → Items
of_list [] = nil
of_list (v ∷ rest) = cons v (of_list rest)

pub to_list-of_list : (vs : List Value) → to_list (of_list vs) ≡ vs
unfolding to_list of_list
to_list-of_list [] = refl
to_list-of_list (v ∷ vs) = ap (◌∷◌ v) (to_list-of_list vs)

-- fs.get(key), with null for None
unfoldable pub field_of : String → Fields → Value
field_of key done = null
field_of key (field name v rest) = if str_eq name key then v else field_of key rest

-- key in fs
unfoldable pub has_field : String → Fields → Bool
has_field key done = false
has_field key (field name v rest) = if str_eq name key then true else has_field key rest

-- fs[key] = v
unfoldable pub put_field : String → Value → Fields → Fields
put_field key v done = field key v done
put_field key v (field name w rest) =
    if str_eq name key then field key v rest else field name w (put_field key v rest)

-- del fs[key]
unfoldable pub drop_field : String → Fields → Fields
drop_field key done = done
drop_field key (field name v rest) =
    let others : Fields = drop_field key rest in
    if str_eq name key then others else field name v others

pub field_of-put_field :
    (key other : String) (v : Value) (fs : Fields)
    → field_of other (put_field key v fs) ≡ (if str_eq key other then v else field_of other fs)
unfolding field_of put_field
field_of-put_field key other v done = refl
field_of-put_field key other v (field name w rest) = ground (
  arith,
  field_of-put_field key other v rest,
  eq_iff name key,
  eq_iff name other,
  eq_iff key other,
)

pub field_of-drop_field :
    (key other : String) (fs : Fields)
    → field_of other (drop_field key fs) ≡ (if str_eq key other then null else field_of other fs)
unfolding field_of drop_field
field_of-drop_field key other done = ground arith
field_of-drop_field key other (field name w rest) = ground (
  arith,
  field_of-drop_field key other rest,
  eq_iff name key,
  eq_iff name other,
  eq_iff key other,
)
