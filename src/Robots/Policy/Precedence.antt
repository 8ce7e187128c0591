-- ===== src/Robots/Policy/Precedence.antt =====
-- Which rule decides.
use ujin.Prelude.{
  All, Bool, Bool-cases, List, Option, String, [], arith, false, inl, inr, lt→ltb, none, refl, some,
  true, ℕ, ◌&&◌, ◌++◌, ◌<◌, ◌∙◌, ◌∷◌, ◌≡◌, ◌≤◌,
}
use ujin.Robots.Policy.{Rule, RobotsPolicy, is_match, longer, best_rule, verdict, group, is_allowed}

module _ (matches : String → String → Bool) (size : String → ℕ) where
  abbrev pub Matches : String → Rule → Type 0
  Matches path rule = is_match matches size path rule ≡ true

  stays :
      (path : String) (r : Rule) (after : List Rule)
      → All (λ x. Matches path x → size x.1 ≤ size r.1) after
      → best_rule matches size path after (some r) ≡ some r
  unfolding best_rule longer
  stays path r [] h = refl
  stays path r (x ∷ xs) h = ground (arith, h.0, stays path r xs h.1)

  longer_than : (x r : Rule) → size x.1 < size r.1 → longer matches size r (some x) ≡ true
  unfolding longer
  longer_than x r h = lt→ltb (size x.1) (size r.1) h

  -- the match that is found so far is shorter than the rule
  beaten :
      (path : String) (r : Rule) (before rest : List Rule) (best : Option Rule)
      → All (λ x. Matches path x → size x.1 < size r.1) before
      → longer matches size r best ≡ true
      → (best' : Option Rule) × (longer matches size r best' ≡ true)
        × (best_rule matches size path (before ++ rest) best
            ≡ best_rule matches size path rest best')
  unfolding best_rule
  beaten path r [] rest best h l = (best, l, refl)
  beaten path r (x ∷ xs) rest best h l =
      elim (Bool-cases (is_match matches size path x && longer matches size x best)) [
        | inl taken ↦
            let shorter : longer matches size r (some x) ≡ true =
              longer_than x r (ground (arith, h.0)) in
            let (best', l', e) = beaten path r xs rest (some x) h.1 shorter in
            (best', l', rw (taken, best_rule) e)
        | inr left ↦
            let (best', l', e) = beaten path r xs rest best h.1 l in
            (best', l', rw (left, best_rule) e)
      ]

  unmatched :
      (path : String) (rs : List Rule)
      → All (λ x. is_match matches size path x ≡ false) rs
      → best_rule matches size path rs none ≡ none
  unfolding best_rule
  unmatched path [] h = refl
  unmatched path (x ∷ xs) h = ground (arith, h.0, unmatched path xs h.1)

  takes :
      (path : String) (r : Rule) (rest : List Rule) (best : Option Rule)
      → Matches path r
      → longer matches size r best ≡ true
      → best_rule matches size path (r ∷ rest) best ≡ best_rule matches size path rest (some r)
  unfolding best_rule
  takes path r rest best m l = ground (arith, m, l)

  decided :
      (path : String) (before : List Rule) (r : Rule) (after : List Rule)
      → Matches path r
      → All (λ x. Matches path x → size x.1 < size r.1) before
      → All (λ x. Matches path x → size x.1 ≤ size r.1) after
      → best_rule matches size path (before ++ (r ∷ after)) none ≡ some r
  unfolding longer
  decided path before r after m h k =
      let (best', l, e) = beaten path r before (r ∷ after) none h refl in
      e ∙ takes path r after best' m l ∙ stays path r after k

  -- Of the rules of a group that match a path, the longest decides, and of those that are as long as
  -- it, the one that stands first. A path that no rule matches, or that has no group, is allowed.
  pub is_allowed_lem :
      (path agent : String) (p : RobotsPolicy)
      → ((before : List Rule) (r : Rule) (after : List Rule)
          → group agent p ≡ some (before ++ (r ∷ after))
          → Matches path r
          → All (λ x. Matches path x → size x.1 < size r.1) before
          → All (λ x. Matches path x → size x.1 ≤ size r.1) after
          → is_allowed matches size path agent p ≡ r.0)
        × ((rs : List Rule)
            → group agent p ≡ some rs
            → All (λ x. is_match matches size path x ≡ false) rs
            → is_allowed matches size path agent p ≡ true)
        × (group agent p ≡ none → is_allowed matches size path agent p ≡ true)
  unfolding is_allowed verdict
  is_allowed_lem path agent p = (
    λ before r after e m h k. rw (e, is_allowed, decided path before r after m h k) refl,
    λ rs e h. rw (e, is_allowed, unmatched path rs h) refl,
    λ e. rw (e, is_allowed) refl,
  )
