-- ===== src/Jobs/Transforms/Items/Filter.antt =====
-- `FilterTransform`. What Python's comparisons, `in` and `re.search` give on two values, or raise, is
-- a parameter.
use ujin.Prelude.{
  All, Bool, Bool-cases, List, Option, Result, Result-cases, String, [], ap, arith, false,
  if◌then◌else◌, index_error, runtime_error, inl, inr, length, none, not, ok, overflow_error, raise,
  refl, some, sym, true, type_error, value_error, ◌+◌, ◌>>=◌, ◌∙◌, ◌∷◌, ◌≡◌,
}
use ujin.Jobs.Value.{Value, null, arr, obj, Fields, to_list, of_list}
use ujin.Jobs.Dotted.{Part, dotted_get, dotted_set}

pub data Op : Type 0 where
  exists : Op
  -- eq, ne, in, contains
  plain : String → Op
  -- gt, lt, ge, le, regex, matches, which are False on None
  guarded : String → Op

pub record Filter : Type 0 where
  pub path : List Part
  pub key : List Part
  pub op : Op
  pub value : Value
  pub negate : Bool

is_null : Value → Bool
is_null null = true
is_null _ = false

subject : Value → List Part → Value
subject (obj fs) key = dotted_get (obj fs) key
subject item key = item

-- except (TypeError, ValueError): result = False
caught : Result Bool → Result Bool
caught (ok b) = ok b
caught (raise type_error) = ok false
caught (raise value_error) = ok false
caught (raise overflow_error) = raise overflow_error
caught (raise index_error) = raise index_error
caught (raise runtime_error) = raise runtime_error

xor : Bool → Bool → Bool
xor result true = not result
xor result false = result

module _ (holds : String → Value → Value → Result Bool) where
  unfoldable pub result_of : Op → Value → Value → Result Bool
  unfolding is_null
  result_of exists val rhs = ok (not (is_null val))
  result_of (plain name) val rhs = holds name val rhs
  result_of (guarded name) val rhs = if is_null val then ok false else holds name val rhs

  unfoldable pub test : Filter → Value → Result Bool
  unfolding caught xor subject
  test f item = do
    result ← caught (result_of f.op (subject item f.key) f.value)
    ok (xor result f.negate)

  -- [it for it in target if self._test(it)]
  unfoldable pub kept : Filter → List Value → Result (List Value)
  kept f [] = ok []
  kept f (x ∷ xs) = do holds_x ← test f x; rest ← kept f xs; ok (if holds_x then x ∷ rest else rest)

  filtered : Filter → Fields → Value → Result (Option Fields)
  filtered f event (arr xs) = do
    items ← kept f (to_list xs)
    ok (some (dotted_set event f.path (arr (of_list items))))
  filtered f event (obj fs) = do
    holds_it ← test f (obj fs)
    ok (if holds_it then some event else none)
  filtered f event _ = ok (some event)

  unfoldable pub apply : Filter → Fields → Result (Option Fields)
  unfolding filtered
  apply f event = filtered f event (dotted_get (obj event) f.path)

  negated :
      (f : Filter) (item : Value) (b : Bool)
      → f.negate ≡ false
      → test f item ≡ ok b
      → test (record f { negate = true }) item ≡ ok (not b)
  unfolding test xor
  negated f item b n e =
      elim (Result-cases (caught (result_of f.op (subject item f.key) f.value))) [
        | inl (err, bad) ↦ cc (rw (bad, test) at e)
        | inr (r, fine) ↦
            let same : ok r ≡ ok b = rw (fine, n, test) at e in
            rw (fine, test) (ap ok (ap not (cc same)))
      ]

  -- Where a filter that is not negated does not raise, its negation does not either. Together they
  -- keep as many items as there are: the filter those that pass its test, the negation those that
  -- do not.
  pub kept-negate :
      (f : Filter) (xs ys : List Value)
      → f.negate ≡ false
      → kept f xs ≡ ok ys
      → (zs : List Value) × (kept (record f { negate = true }) xs ≡ ok zs)
        × (length ys + length zs ≡ length xs)
        × All (λ y. test f y ≡ ok true) ys
        × All (λ z. test f z ≡ ok false) zs
  unfolding kept
  kept-negate f [] [] n e = ([], refl, omega arith, tt, tt)
  kept-negate f [] (y ∷ ys) n e = cc
  kept-negate f (x ∷ xs) ys n e = elim (Result-cases (test f x)) [
    | inl (err, bad) ↦ cc (rw (bad, kept) at e)
    | inr (b, fine) ↦ elim (Result-cases (kept f xs)) [
      | inl (err, bad) ↦ cc (rw (fine, bad, kept) at e)
      | inr (rest, later) ↦
          let (zs, others, sizes, are, are_not) = kept-negate f xs rest n later in
          elim (Bool-cases b) [
            | inl yes_kept ↦
                let same : x ∷ rest ≡ ys = cc (rw (fine, later, yes_kept, kept) at e) in
                let here : test f x ≡ ok true = fine ∙ ap ok yes_kept in
                let opposite = negated f x true n here in
                rw (sym same)
                  (zs, rw (opposite, others) refl, omega (arith, sizes), (here, are), are_not)
            | inr not_kept ↦
                let same : rest ≡ ys = cc (rw (fine, later, not_kept, kept) at e) in
                let here : test f x ≡ ok false = fine ∙ ap ok not_kept in
                let opposite = negated f x false n here in
                rw (sym same)
                  (x ∷ zs, rw (opposite, others) refl, omega (arith, sizes), are, (here, are_not))
          ]
    ]
  ]
