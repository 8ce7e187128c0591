-- ===== src/Jobs/Transforms/Unique/Firsts.antt =====
-- What `UniqueTransform` keeps, without the set of what was seen.
use ujin.Prelude.{
  inr, sym, inl, Bool-cases, String, eq_iff, not, ◌∙◌, refl, [], ap, arith, ◌&&◌, ◌∷◌, true, ◌≡◌,
  Bool, List, keep_if,
}
use ujin.Jobs.Value.{Value, arr, obj, Fields, Items, to_list, of_list}
use ujin.Jobs.Dotted.{dotted_get, dotted_set}
use ujin.Jobs.Transforms.Unique.{
  Key, absent, rank, text, Unique, raw_of, key_of, same, is_seen, first_ones, unique, apply,
}

abbrev nub : (Value → Key) → List Value → List Value
nub key [] = []
nub key (x ∷ xs) = x ∷ keep_if (λ y. not (same (key x) (key y))) (nub key xs)

same-lem : (a b : Key) → same a b ≡ true → a ≡ b
unfolding same
same-lem absent absent h = refl
same-lem (rank n) (rank m) h = ap rank (ground arith)
same-lem (text s) (text t) h = ap text (ground (arith, eq_iff s t))
same-lem absent (rank m) h = ground arith
same-lem absent (text t) h = ground arith
same-lem (rank n) absent h = ground arith
same-lem (rank n) (text t) h = ground arith
same-lem (text s) absent h = ground arith
same-lem (text s) (rank m) h = ground arith

keep_if-keep_if :
    (p q : Value → Bool) (xs : List Value) → keep_if p (keep_if q xs) ≡ keep_if (λ y. q y && p y) xs
unfolding keep_if
keep_if-keep_if p q [] = refl
keep_if-keep_if p q (x ∷ xs) = ground (arith, keep_if-keep_if p q xs)

keep_if-ext :
    (p q : Value → Bool) (xs : List Value) → ((x : Value) → p x ≡ q x) → keep_if p xs ≡ keep_if q xs
unfolding keep_if
keep_if-ext p q [] e = refl
keep_if-ext p q (x ∷ xs) e = ground (arith, e x, keep_if-ext p q xs e)

-- a key that was seen already rules out nothing new
ruled_out :
    (k : Key) (seen : List Key) (j : Key)
    → is_seen k seen ≡ true
    → (not (same k j) && not (is_seen j seen)) ≡ not (is_seen j seen)
ruled_out k seen j h = elim (Bool-cases (same k j)) [
  | inl one ↦ ground (arith, ap (λ i. is_seen i seen) (same-lem k j one))
  | inr two ↦ ground arith
]

ruled_in :
    (k : Key) (seen : List Key) (j : Key)
    → (not (same k j) && not (is_seen j seen)) ≡ not (is_seen j (k ∷ seen))
unfolding is_seen
ruled_in k seen j = ground arith

first_ones_lem :
    (key : Value → Key) (seen : List Key) (xs : List Value)
    → first_ones key seen xs ≡ keep_if (λ y. not (is_seen (key y) seen)) (nub key xs)
unfolding first_ones keep_if
first_ones_lem key seen [] = refl
first_ones_lem key seen (x ∷ xs) = elim (Bool-cases (is_seen (key x) seen)) [
  | inl again ↦ rw again (
      first_ones_lem key seen xs
      ∙ sym (
          keep_if-keep_if (λ y. not (is_seen (key y) seen)) (λ y. not (same (key x) (key y)))
            (nub key xs)
          ∙ keep_if-ext (λ y. not (same (key x) (key y)) && not (is_seen (key y) seen))
              (λ y. not (is_seen (key y) seen)) (nub key xs)
              (λ y. ruled_out (key x) seen (key y) again)))
  | inr new ↦ rw new (
      ap (◌∷◌ x) (
        first_ones_lem key (key x ∷ seen) xs
        ∙ sym (
            keep_if-keep_if (λ y. not (is_seen (key y) seen)) (λ y. not (same (key x) (key y)))
              (nub key xs)
            ∙ keep_if-ext (λ y. not (same (key x) (key y)) && not (is_seen (key y) seen))
                (λ y. not (is_seen (key y) (key x ∷ seen))) (nub key xs)
                (λ y. ruled_in (key x) seen (key y)))))
]

all_kept : (xs : List Value) → keep_if (λ y. true) xs ≡ xs
unfolding keep_if
all_kept [] = refl
all_kept (x ∷ xs) = ap (◌∷◌ x) (all_kept xs)

pub first_ones-nub : (key : Value → Key) (xs : List Value) → first_ones key [] xs ≡ nub key xs
unfolding is_seen
first_ones-nub key xs = first_ones_lem key [] xs ∙ all_kept (nub key xs)

-- Where the path leads to a list, it afterwards leads to the items whose key no item before them has,
-- in their order.
pub apply-nub :
    (repr : Value → String) (u : Unique) (event : Fields) (xs : Items)
    → dotted_get (obj event) u.path ≡ arr xs
    → apply repr u event
      ≡ dotted_set event u.path
          (arr (of_list (nub (λ item. key_of repr (raw_of u.key item)) (to_list xs))))
unfolding apply unique
apply-nub repr u event xs e =
    ap (unique repr u event) e
    ∙ ap (λ ys. dotted_set event u.path (arr (of_list ys)))
        (first_ones-nub (λ item. key_of repr (raw_of u.key item)) (to_list xs))
