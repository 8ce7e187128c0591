-- ===== src/Cache/DiskCache/Restart/Keys.antt =====
-- A cache whose keys are distinct: what is put into it, and its order.
use ujin.Prelude.{
  length-append, All-both, All-map, String, [], ◌∷◌, ◌++◌, ◌≡◌, ◌≤◌, ℕ, All, none, arith, refl,
  str_eq, false, ap, ◌∙◌, length, suc, eq_iff, List,
}
use mathlib.Core.Path.{subst}
use mathlib.Core.List.{Permᴰ}
use ujin.Prelude.Dict.{Dict, lookup, remove}
use ujin.Cache.Store
use ujin.Cache.Store.{CachedEntry, ScrapeCache}
use ujin.Cache.DiskCache.Restart.{put_all}

apart_sym : (a b : String) → str_eq a b ≡ false → str_eq b a ≡ false
apart_sym a b h = ground (arith, eq_iff a b, eq_iff b a)

module _ {ℓ} {A : Type ℓ} where
  All-perm {κ} : (Q : A → Type κ) {xs ys : List A} → Permᴰ xs ys → All Q xs → All Q ys
  All-perm Q Permᴰ.nil h = tt
  All-perm Q (Permᴰ.cons e d) h = (subst Q e h.0, All-perm Q d h.1)
  All-perm Q (Permᴰ.swap e e') h = (subst Q e' h.1.0, (subst Q e h.0, h.1.1))
  All-perm Q (Permᴰ.trans d d') h = All-perm Q d' (All-perm Q d h)

module _ {P : Type 0} where
  abbrev pub DistinctKeys : Dict P → Type 0
  DistinctKeys [] = Unit
  DistinctKeys (x ∷ rest) = All (λ y. str_eq x.0 y.0 ≡ false) rest × DistinctKeys rest

  pub lookup-append_one :
      (key other : String) (v : P) (d : Dict P)
      → lookup other d ≡ none
      → str_eq key other ≡ false
      → lookup other (d ++ ((key, v) ∷ [])) ≡ none
  unfolding lookup
  lookup-append_one key other v [] h apart = ground arith
  lookup-append_one key other v (x ∷ d) h apart =
      ground (arith, lookup-append_one key other v d (ground arith) apart)

  remove-none : (key : String) (d : Dict P) → lookup key d ≡ none → remove key d ≡ d
  unfolding lookup remove
  remove-none key [] h = refl
  remove-none key ((name, v) ∷ d) h = ground (arith, remove-none key d (ground arith))

  pub append_none : (xs : Dict P) → xs ≡ xs ++ []
  append_none [] = refl
  append_none (y ∷ xs) = ap (◌∷◌ y) (append_none xs)

  pub append_one :
      (xs : Dict P) (x : String × P) (ys : Dict P) → (xs ++ (x ∷ [])) ++ ys ≡ xs ++ (x ∷ ys)
  append_one [] x ys = refl
  append_one (y ∷ xs) x ys = ap (◌∷◌ y) (append_one xs x ys)

module _ {P : Type 0} where
  evict_none : (max : ℕ) (d : Dict (CachedEntry P)) → length d ≤ max → Store.evict max d ≡ d
  unfolding Store.evict
  evict_none max [] h = refl
  evict_none max (x ∷ d) h = ground arith

  put_new :
      (key : String) (v : CachedEntry P) (c : ScrapeCache P)
      → lookup key c.store ≡ none
      → length (c.store ++ ((key, v) ∷ [])) ≤ c.max
      → Store.put key v c ≡ record c { store = c.store ++ ((key, v) ∷ []) }
  unfolding Store.put
  put_new key v c new room =
      ap (λ d. record c { store = d })
        (ap (λ d. Store.evict c.max (d ++ ((key, v) ∷ []))) (remove-none key c.store new)
          ∙ evict_none c.max (c.store ++ ((key, v) ∷ [])) room)

  -- entries under new keys that have room stand afterwards behind the others, in their order
  pub put_all_lem :
      (xs : Dict (CachedEntry P)) (c : ScrapeCache P)
      → DistinctKeys xs
      → All (λ x. lookup x.0 c.store ≡ none) xs
      → length (c.store ++ xs) ≤ c.max
      → (put_all xs c).store ≡ c.store ++ xs
  unfolding put_all
  put_all_lem [] c d new room = append_none c.store
  put_all_lem ((key, v) ∷ xs) c d new room =
      let more : ScrapeCache P = record c { store = c.store ++ ((key, v) ∷ []) } in
      let shift = append_one c.store (key, v) xs in
      let room' : length (c.store ++ ((key, v) ∷ [])) ≤ c.max = omega (
        arith,
        length-append c.store ((key, v) ∷ xs),
        length-append c.store ((key, v) ∷ []),
        room,
      ) in
      let still : All (λ x. lookup x.0 more.store ≡ none) xs =
        All-map (λ x q. lookup-append_one key x.0 v c.store q.0 q.1) xs
          (All-both (λ x. lookup x.0 c.store ≡ none) (λ x. str_eq key x.0 ≡ false) xs new.1 d.0) in
      ap (λ m. (put_all xs m).store) (put_new key v c new.0 room')
      ∙ put_all_lem xs more d.1 still (omega (arith, ap length shift, room))
      ∙ shift

  pub DistinctKeys-perm :
      {xs ys : Dict (CachedEntry P)} → Permᴰ xs ys → DistinctKeys xs → DistinctKeys ys
  DistinctKeys-perm Permᴰ.nil h = tt
  DistinctKeys-perm {xs = x ∷ xs} {ys = y ∷ ys} (Permᴰ.cons e d) h = (
    subst (λ v. All (λ z. str_eq v.0 z.0 ≡ false) ys) e
        (All-perm (λ z. str_eq _ z.0 ≡ false) d h.0),
    DistinctKeys-perm d h.1,
  )
  DistinctKeys-perm {xs = a ∷ b ∷ l} {ys = a' ∷ b' ∷ l'} (Permᴰ.swap e e') h =
      subst (λ x. DistinctKeys (x ∷ b' ∷ l)) e'
        (subst (λ y. DistinctKeys (b ∷ y ∷ l)) e ((apart_sym a.0 b.0 h.0.0, h.1.0), (h.0.1, h.1.1)))
  DistinctKeys-perm (Permᴰ.trans d d') h = DistinctKeys-perm d' (DistinctKeys-perm d h)

  pub length-perm : {xs ys : Dict (CachedEntry P)} → Permᴰ xs ys → length xs ≡ length ys
  length-perm Permᴰ.nil = refl
  length-perm (Permᴰ.cons e d) = ap suc (length-perm d)
  length-perm (Permᴰ.swap e e') = refl
  length-perm (Permᴰ.trans d d') = length-perm d ∙ length-perm d'
