-- ===== src/Jobs/Transforms/Dedupe.antt =====
-- `DedupeTransform`: items and events that were seen already. What `str(...)` makes of a value is a
-- parameter; the texts that were seen stand in the order of the `OrderedDict`, oldest first.
pub mod Seen
use ujin.Prelude.{
  Bool, List, Option, String, [], drop, false, if◌then◌else◌, length, ltb, none, some, str_eq, true,
  ℕ, ◌++◌, ◌+◌, ◌∷◌, ◌≡◌, ◌≤◌,
}
use ujin.Jobs.Value.{
  Items, Value, null, number, str, arr, obj, Fields, field_of, put_field, to_list, of_list,
}
use ujin.Jobs.Dotted.{Part, dotted_get}

pub record Dedupe : Type 0 where
  pub key : Option (List Part)
  pub max : ℕ

-- value in self._seen
unfoldable pub member : String → List String → Bool
member value [] = false
member value (x ∷ xs) = if str_eq x value then true else member value xs

unfoldable pub without : String → List String → List String
without value [] = []
without value (x ∷ xs) = if str_eq x value then without value xs else x ∷ without value xs

-- if len(self._seen) > self.max: self._seen.popitem(last=False)
unfoldable pub evict : ℕ → List String → List String
evict max seen = if ltb max (length seen) then drop 1 seen else seen

-- whether the value is new, and what has been seen after it
unfoldable pub mark : ℕ → String → List String → Bool × List String
unfolding evict
mark max value seen =
    if member value seen
    then (false, without value seen ++ (value ∷ []))
    else (true, evict max (seen ++ (value ∷ [])))

-- [it for it in payload if self._mark(key(it))]
unfoldable pub fresh : (Value → String) → ℕ → List Value → List String → List Value × List String
fresh key max [] seen = ([], seen)
fresh key max (it ∷ rest) seen =
    let (new, seen') = mark max (key it) seen in
    let (kept, seen'') = fresh key max rest seen' in (if new then it ∷ kept else kept, seen'')

passed : Fields → Bool × List String → Option Fields × List String
passed event (new, seen) = (if new then some event else none, seen)

unfoldable pub kept_items : Fields → List Value × List String → Option Fields × List String
kept_items event ([], seen) = (none, seen)
kept_items event (it ∷ rest, seen) =
    (some (put_field "payload" (arr (of_list (it ∷ rest))) event), seen)

by_fingerprint : (Value → String) → ℕ → Fields → Value → List String → Option Fields × List String
unfolding passed
by_fingerprint text max event null seen = (some event, seen)
by_fingerprint text max event fp seen = passed event (mark max (text fp) seen)

unfoldable pub by_key :
    (Value → String) → ℕ → List Part → Fields → Value → List String → Option Fields × List String
unfolding passed kept_items
by_key text max key event (arr xs) seen =
    kept_items event (fresh (λ it. text (dotted_get it key)) max (to_list xs) seen)
by_key text max key event (obj fs) seen =
    passed event (mark max (text (dotted_get (obj fs) key)) seen)
by_key text max key event payload seen = passed event (mark max (text payload) seen)

unfoldable pub apply :
    (Value → String) → Dedupe → Fields → List String → Option Fields × List String
unfolding by_fingerprint by_key
apply text d event seen = elim d.key [
  | none ↦ by_fingerprint text d.max event (field_of "fingerprint" event) seen
  | some key ↦ by_key text d.max key event (field_of "payload" event) seen
]
