-- ===== src/Diff/Sound.antt =====
-- Which snapshots the detector takes for the same.
use ujin.Prelude.{
  List-cases, Option, Option-cases, String, [], arith, eq_iff, false, inl, inr, none, refl, some,
  sym, ◌∙◌, ◌∷◌, ◌≡◌,
}
use ujin.Prelude.Dict.{Dict, lookup}
use ujin.Diff.{RegionDiff, any, judged, compare_new, gone, diff}

any_none : (d : RegionDiff) → any d ≡ false → (d.changed ≡ []) × (d.added ≡ []) × (d.removed ≡ [])
unfolding any
any_none d same = elim (List-cases d.changed) [
  | inr (c, cs, e) ↦ cc (rw e at same)
  | inl no_change ↦ elim (List-cases d.added) [
    | inr (a, more, e) ↦ cc (rw (no_change, e) at same)
    | inl none_added ↦ elim (List-cases d.removed) [
      | inr (r, rs, e) ↦ cc (rw (no_change, none_added, e) at same)
      | inl none_removed ↦ (no_change, none_added, none_removed)
    ]
  ]
]

judged_none :
    (sel fp : String) (old : Option String) (d : RegionDiff)
    → ((judged sel fp old d).removed ≡ d.removed)
      × ((judged sel fp old d).changed ≡ []
          → (judged sel fp old d).added ≡ []
          → (old ≡ some fp) × (d.changed ≡ []) × (d.added ≡ []))
unfolding judged
judged_none sel fp none d = (refl, λ c a. cc)
judged_none sel fp (some old) d = (ground arith, λ c a. ground (arith, eq_iff old fp))

compare_new_none :
    (prev new : Dict String) (d : RegionDiff)
    → ((compare_new prev new d).removed ≡ d.removed)
      × ((compare_new prev new d).changed ≡ []
          → (compare_new prev new d).added ≡ []
          → (sel fp : String) → lookup sel new ≡ some fp
          → lookup sel prev ≡ some fp)
unfolding compare_new lookup
compare_new_none prev [] d = (refl, λ c a sel fp e. cc)
compare_new_none prev ((name, value) ∷ rest) d =
    let (kept, same) = compare_new_none prev rest d in
    let (kept', judge) = judged_none name value (lookup name prev) (compare_new prev rest d) in
    (
      kept' ∙ kept,
      λ c a sel fp e.
          let (here, c', a') = judge c a in
          let later = same c' a' sel fp in ground (arith, later, eq_iff name sel),
    )

gone-none :
    (new prev : Dict String)
    → gone new prev ≡ []
    → (sel : String) → lookup sel new ≡ none
    → lookup sel prev ≡ none
unfolding gone lookup
gone-none new [] e sel missing = refl
gone-none new ((name, value) ∷ rest) e sel missing = elim (Option-cases (lookup name new)) [
  | inl lost ↦ cc (rw (lost, gone) at e)
  | inr (fp, there) ↦
      let e' : gone new rest ≡ [] = rw (there, gone) at e in
      ground (arith, gone-none new rest e' sel missing, eq_iff name sel)
]

-- When no difference is reported, the two snapshots have the same selectors, each with the same
-- fingerprint.
pub any-diff :
    (prev new : Dict String)
    → any (diff (some prev) new) ≡ false
    → (sel : String) → lookup sel new ≡ lookup sel prev
unfolding diff
any-diff prev new same sel =
    let start : RegionDiff = record { changed = []; added = []; removed = gone new prev } in
    let (c, a, r) = any_none (compare_new prev new start) same in
    let (kept, agree) = compare_new_none prev new start in
    elim (Option-cases (lookup sel new)) [
      | inl missing ↦ missing ∙ sym (gone-none new prev (sym kept ∙ r) sel missing)
      | inr (fp, there) ↦ there ∙ sym (agree c a sel fp there)
    ]
