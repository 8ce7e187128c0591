-- ===== src/Jobs/Transforms/Limit.antt =====
-- `LimitTransform`: the first or the last items of a list.
use ujin.Prelude.{
  List, Option, Result, String, [], ap, arith, drop, if◌then◌else◌, length, length-drop,
  length-take, min, none, ok, raise, refl, some, str_eq, suc, take, take-append-drop, value_error,
  zero, ℕ, ◌++◌, ◌-◌, ◌>>=◌, ◌∷◌, ◌≡◌,
}
use ujin.Jobs.Value.{Value, arr, obj, Fields, to_list, of_list}
use ujin.Jobs.Dotted.{Part, dotted_get, dotted_set}

pub data Side : Type 0 where
  head tail : Side

pub record Limit : Type 0 where
  pub path : List Part
  pub count : ℕ
  pub side : Side

side_of : String → Result Side
side_of s =
    if str_eq s "head"
    then ok Side.head
    else if str_eq s "tail"
    then ok Side.tail
    else raise value_error

-- The constructor. `count` is `max(0, int(cfg["count"]))` where the key is there.
unfoldable pub init : List Part → Option ℕ → String → Result Limit
unfolding side_of
init path none from = raise value_error
init path (some count) from = do
  side ← side_of from
  ok (record { path = path; count = count; side = side })

unfoldable pub limited {ℓ} : {A : Type ℓ} → Side → ℕ → List A → List A
limited Side.head count xs = take count xs
limited Side.tail zero xs = []
limited Side.tail (suc count) xs = drop (length xs - suc count) xs

limit : Limit → Fields → Value → Fields
limit l event (arr xs) =
    dotted_set event l.path (arr (of_list (limited l.side l.count (to_list xs))))
limit l event _ = event

unfoldable pub apply : Limit → Fields → Fields
unfolding limit
apply l event = limit l event (dotted_get (obj event) l.path)

whole {ℓ} : {A : Type ℓ} (n : ℕ) (xs : List A) → n ≡ length xs → take n xs ++ [] ≡ xs
unfolding take
whole zero [] e = refl
whole (suc n) [] e = refl
whole zero (x ∷ xs) e = absurd (omega arith)
whole (suc n) (x ∷ xs) e = ap (◌∷◌ x) (whole n xs (omega arith))

-- A limit keeps as many items as it may, and they are the first, or the last, in order.
pub limited_lem {ℓ} :
    {A : Type ℓ} (count : ℕ) (xs : List A)
    → (length (limited Side.head count xs) ≡ min count (length xs))
      × (length (limited Side.tail count xs) ≡ min count (length xs))
      × (limited Side.head count xs ++ drop count xs ≡ xs)
      × (take (length xs - count) xs ++ limited Side.tail count xs ≡ xs)
unfolding limited
limited_lem zero xs = (
  omega (arith, length-take 0 xs),
  omega arith,
  take-append-drop 0 xs,
  whole (length xs - 0) xs (omega arith),
)
limited_lem (suc count) xs = (
  omega (arith, length-take (suc count) xs),
  omega (arith, length-drop (length xs - suc count) xs),
  take-append-drop (suc count) xs,
  take-append-drop (length xs - suc count) xs,
)
