-- ===== src/Jobs/Transforms/Unique.antt =====
-- `UniqueTransform`. What `repr` makes of a list or a dictionary, which cannot be hashed, is a
-- parameter.
pub mod Firsts
use ujin.Prelude.{
  Bool, List, Option, String, [], false, if◌then◌else◌, none, some, str_eq, true, ◌==◌, ◌||◌, ◌∷◌,
}
use ujin.Jobs.Value.{Value, null, number, str, arr, obj, Fields, to_list, of_list}
use ujin.Jobs.Dotted.{Part, dotted_get, dotted_set}
use ujin.Float.{Float}

-- what `seen` holds
pub data Key : Type 0 where
  absent : Key
  rank : Float → Key
  text : String → Key

pub record Unique : Type 0 where
  pub path : List Part
  pub key : Option (List Part)

-- the value that is compared
unfoldable pub raw_of : Option (List Part) → Value → Value
raw_of none item = item
raw_of (some key) (obj fs) = dotted_get (obj fs) key
raw_of (some key) item = item

-- try: hash(raw); except TypeError: k = repr(raw)
unfoldable pub key_of : (Value → String) → Value → Key
key_of repr null = absent
key_of repr (number n) = rank n
key_of repr (str s) = text s
key_of repr (arr xs) = text (repr (arr xs))
key_of repr (obj fs) = text (repr (obj fs))

unfoldable pub same : Key → Key → Bool
same absent absent = true
same (rank n) (rank m) = n == m
same (text s) (text t) = str_eq s t
same _ _ = false

-- k in seen
unfoldable pub is_seen : Key → List Key → Bool
unfolding same
is_seen k [] = false
is_seen k (x ∷ xs) = same x k || is_seen k xs

unfoldable pub first_ones : (Value → Key) → List Key → List Value → List Value
unfolding is_seen
first_ones key seen [] = []
first_ones key seen (item ∷ rest) =
    let again : Bool = is_seen (key item) seen in
    let others : List Value = first_ones key (if again then seen else key item ∷ seen) rest in
    if again then others else item ∷ others

unique : (Value → String) → Unique → Fields → Value → Fields
unfolding first_ones raw_of key_of
unique repr u event (arr xs) =
    dotted_set event u.path
      (arr (of_list (first_ones (λ item. key_of repr (raw_of u.key item)) [] (to_list xs))))
unique repr u event _ = event

unfoldable pub apply : (Value → String) → Unique → Fields → Fields
unfolding unique
apply repr u event = unique repr u event (dotted_get (obj event) u.path)
