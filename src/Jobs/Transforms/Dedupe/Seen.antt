-- ===== src/Jobs/Transforms/Dedupe/Seen.antt =====
-- What a `DedupeTransform` remembers.
use ujin.Prelude.{
  All, All-map, List, String, [], arith, drop, eq_iff, false, if◌then◌else◌, length, length-append,
  length-drop, none, refl, some, str_eq, true, ℕ, ◌++◌, ◌+◌, ◌∷◌, ◌≡◌, ◌≤◌,
}
use ujin.Jobs.Value.{Value, Items, arr, Fields, field_of, to_list}
use ujin.Jobs.Dotted.{Part, dotted_get}
use ujin.Jobs.Transforms.Dedupe.{member, without, evict, mark, fresh, kept_items, by_key, apply}

length-without :
    (v : String) (xs : List String)
    → (length (without v xs) ≤ length xs)
      × (member v xs ≡ true → length (without v xs) + 1 ≤ length xs)
unfolding member without
length-without v [] = (omega arith, λ m. cc)
length-without v (x ∷ xs) = let (le, lt) = length-without v xs in ground (arith, le, lt)

member-append :
    (v : String) (xs ys : List String)
    → member v (xs ++ ys) ≡ (if member v xs then true else member v ys)
unfolding member
member-append v [] ys = refl
member-append v (x ∷ xs) ys = ground (arith, member-append v xs ys)

member-without :
    (v w : String) (xs : List String)
    → member w (without v xs) ≡ (if str_eq v w then false else member w xs)
unfolding member without
member-without v w [] = ground arith
member-without v w (x ∷ xs) =
    ground (arith, member-without v w xs, eq_iff x v, eq_iff x w, eq_iff v w)

member-last :
    (v w : String) (xs : List String)
    → member w (xs ++ (v ∷ [])) ≡ (if member w xs then true else str_eq v w)
unfolding member
member-last v w xs = ground (arith, member-append w xs (v ∷ []))

evict_there :
    (max : ℕ) (v : String) (seen : List String)
    → 1 ≤ max
    → member v (evict max (seen ++ (v ∷ []))) ≡ true
unfolding evict member drop
evict_there max v [] one = ground (arith, eq_iff v v)
evict_there max v (x ∷ xs) one =
    ground (arith, member-last v v xs, member-last v v (x ∷ xs), eq_iff v v)

-- what has just been marked is there
mark_there :
    (max : ℕ) (v : String) (seen : List String) → 1 ≤ max → member v (mark max v seen).1 ≡ true
unfolding mark
mark_there max v seen one =
    ground (arith, member-last v v (without v seen), evict_there max v seen one, eq_iff v v)

mark_known :
    (max : ℕ) (v : String) (seen : List String)
    → member v seen ≡ true
    → ((mark max v seen).0 ≡ false)
      × ((w : String) → member w seen ≡ true → member w (mark max v seen).1 ≡ true)
unfolding mark
mark_known max v seen m = (
  ground arith,
  λ w k. ground (arith, member-last v w (without v seen), member-without v w seen, eq_iff v w),
)

length-evict :
    (max : ℕ) (v : String) (seen : List String)
    → length seen ≤ max
    → length (evict max (seen ++ (v ∷ []))) ≤ max
unfolding evict
length-evict max v seen bounded =
    let l = length-append seen (v ∷ []) in ground (arith, l, length-drop 1 (seen ++ (v ∷ [])))

mark_bounded :
    (max : ℕ) (v : String) (seen : List String)
    → length seen ≤ max
    → length (mark max v seen).1 ≤ max
unfolding mark
mark_bounded max v seen bounded =
    let (le, lt) = length-without v seen in
    ground (arith, lt, length-append (without v seen) (v ∷ []), length-evict max v seen bounded)

-- The memory never grows beyond `max`. Whatever is marked while `max` is positive is known when it is
-- marked again.
pub mark_lem :
    (max : ℕ) (v : String) (seen : List String)
    → length seen ≤ max
    → (length (mark max v seen).1 ≤ max) × (1 ≤ max → (mark max v (mark max v seen).1).0 ≡ false)
mark_lem max v seen bounded = (
  mark_bounded max v seen bounded,
  λ one. (mark_known max v (mark max v seen).1 (mark_there max v seen one)).0,
)

-- while there is room, marking forgets nothing
mark_room :
    (max : ℕ) (v w : String) (seen : List String)
    → length seen + 1 ≤ max
    → (member w (mark max v seen).1 ≡ (if str_eq v w then true else member w seen))
      × (length (mark max v seen).1 ≤ length seen + 1)
unfolding mark evict
mark_room max v w seen room =
    let (le, lt) = length-without v seen in
    ground (
      arith,
      length-append seen (v ∷ []),
      length-append (without v seen) (v ∷ []),
      member-last v w seen,
      member-last v w (without v seen),
      member-without v w seen,
      lt,
      eq_iff v w,
    )

fresh_room :
    (key : Value → String) (max : ℕ) (xs : List Value) (seen : List String)
    → length seen + length xs ≤ max
    → ((w : String) → member w seen ≡ true → member w (fresh key max xs seen).1 ≡ true)
      × All (λ it. member (key it) (fresh key max xs seen).1 ≡ true) xs
unfolding fresh
fresh_room key max [] seen room = (λ w m. m, tt)
fresh_room key max (it ∷ rest) seen room =
    let r : (w : String)
        → (member w (mark max (key it) seen).1
            ≡ (if str_eq (key it) w then true else member w seen))
          × (length (mark max (key it) seen).1 ≤ length seen + 1) =
      λ w. mark_room max (key it) w seen (omega arith) in
    let (kept, known) =
      fresh_room key max rest (mark max (key it) seen).1 (omega (arith, (r (key it)).1)) in
    (
      λ w m. kept w (ground (arith, (r w).0)),
      (kept (key it) (ground (arith, (r (key it)).0, eq_iff (key it) (key it))), known),
    )

fresh_known :
    (key : Value → String) (max : ℕ) (xs : List Value) (seen : List String)
    → All (λ it. member (key it) seen ≡ true) xs
    → (fresh key max xs seen).0 ≡ []
unfolding fresh
fresh_known key max [] seen known = refl
fresh_known key max (it ∷ rest) seen known =
    let (old, stays) = mark_known max (key it) seen known.0 in
    let r =
      fresh_known key max rest (mark max (key it) seen).1
        (All-map (λ x. stays (key x)) rest known.1) in
    rw (old, r) refl

kept_none :
    (event : Fields) (r : List Value × List String) → r.0 ≡ [] → (kept_items event r).0 ≡ none
unfolding kept_items
kept_none event ([], seen) e = refl
kept_none event (x ∷ xs, seen) e = cc

kept_seen : (event : Fields) (r : List Value × List String) → (kept_items event r).1 ≡ r.1
unfolding kept_items
kept_seen event ([], seen) = refl
kept_seen event (x ∷ xs, seen) = refl

-- A list payload that is given again, while all it holds still had room in the memory, is dropped
-- the second time.
pub apply-replay :
    (text : Value → String) (max : ℕ) (key : List Part) (event : Fields) (xs : Items)
    (seen : List String)
    → field_of "payload" event ≡ arr xs
    → length seen + length (to_list xs) ≤ max
    → (apply text
        (record { key = some key; max = max })
        event
        (apply text (record { key = some key; max = max }) event seen).1).0
      ≡ none
unfolding apply by_key
apply-replay text max key event xs seen p room =
    let of : Value → String = λ it. text (dotted_get it key) in
    let (kept, known) = fresh_room of max (to_list xs) seen room in
    rw (p, kept_seen event (fresh of max (to_list xs) seen))
      (kept_none event _ (fresh_known of max (to_list xs) _ known))
