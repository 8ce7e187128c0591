-- ===== src/Proxy/Turns.antt =====
-- Which proxy is next.
use ujin.Prelude.{
  Any, Bool-cases, List, Option-cases, String, [], ap, arith, false, get_elem?, inl, inr, keep_if,
  leb, length, map, none, refl, some, suc, sym, true, zero, ℕ, ◌%◌, ◌+◌, ◌-◌, ◌<◌, ◌==◌, ◌∙◌, ◌∷◌,
  ◌≡◌,
}
use ujin.Float.{Float}
use native.Mathlib.Nat.{mod-lt, mod-eq_of_lt, mod-add-mod, add-mod_right}
use native.Mathlib.Decide.{dec_le}
use ujin.Proxy.{ProxyState, ProxyPool, turns, acquire, healthy}

present {ℓ} :
    {A : Type ℓ} (xs : List A) (i : ℕ) → i < length xs → (x : A) × (get_elem? xs i ≡ some x)
present [] i h = absurd (omega arith)
present (x ∷ xs) zero h = (x, refl)
present (x ∷ xs) (suc i) h = present xs i (omega arith)

within {ℓ} : {A : Type ℓ} (xs : List A) (i : ℕ) (x : A) → get_elem? xs i ≡ some x → i < length xs
within [] i x e = cc
within (y ∷ ys) zero x e = omega arith
within (y ∷ ys) (suc i) x e = omega (arith, within ys i x e)

-- every place is reached from `next` by so many steps around
reach : (n next i : ℕ) → next < n → i < n → (j : ℕ) × (j < n) × ((next + j) % n ≡ i)
reach n next i h k = elim (dec_le next i) [
  | yes below ↦
      (i - next, omega arith, let e : next + (i - next) ≡ i = omega arith in rw e (mod-eq_of_lt k))
  | no above ↦ (
    i + n - next,
    omega arith,
    let e : next + (i + n - next) ≡ i + n = omega arith in
        rw e (add-mod_right i n ∙ mod-eq_of_lt k),
  )
]

shift : (n next j : ℕ) → ((next + 1) % n + j) % n ≡ (next + suc j) % n
shift n next j =
    let e : next + 1 + j ≡ next + suc j = omega arith in mod-add-mod (next + 1) n j ∙ rw e refl

first_round :
    (rounds : ℕ) (states : List ProxyState) (n : ℕ) (now : Float) (next : ℕ)
    → 0 < n
    → length states ≡ n
    → (turns (suc rounds) states n now next).0 ≡ none
    → ((s : ProxyState) → get_elem? states (next % n) ≡ some s → leb s.cooldown_until now ≡ false)
      × ((turns rounds states n now ((next + 1) % n)).0 ≡ none)
unfolding turns
first_round rounds states n now next p l e =
    let busy : (s : ProxyState)
        → get_elem? states (next % n) ≡ some s
        → leb s.cooldown_until now ≡ false =
      λ s found. elim (Bool-cases (leb s.cooldown_until now)) [
        | inl free ↦ cc (rw (found, free, turns) at e)
        | inr held ↦ held
      ] in
    let (x, there) = present states (next % n) (rw l (mod-lt next p)) in
    let held = busy x there in (busy, rw (there, held, turns) at e)

-- when the rounds find nothing, they have passed only proxies that are benched
turns-none :
    (rounds : ℕ) (states : List ProxyState) (n : ℕ) (now : Float) (next : ℕ)
    → 0 < n
    → length states ≡ n
    → (turns rounds states n now next).0 ≡ none
    → (j : ℕ) → j < rounds
    → (s : ProxyState) → get_elem? states ((next + j) % n) ≡ some s
    → leb s.cooldown_until now ≡ false
turns-none zero states n now next p l e j h s there = absurd (omega arith)
turns-none (suc rounds) states n now next p l e zero h s there =
    let at_next : next + 0 ≡ next = omega arith in
    (first_round rounds states n now next p l e).0 s (rw at_next at there)
turns-none (suc rounds) states n now next p l e (suc j) h s there =
    turns-none rounds states n now ((next + 1) % n) p l
      (first_round rounds states n now next p l e).1 j (omega arith) s (rw (shift n next j) there)

turns-some :
    (rounds : ℕ) (states : List ProxyState) (n : ℕ) (now : Float) (next : ℕ) (u : String)
    → (turns rounds states n now next).0 ≡ some u
    → (i : ℕ) × (s : ProxyState) × (get_elem? states i ≡ some s)
      × (leb s.cooldown_until now ≡ true)
      × (s.url ≡ u)
unfolding turns
turns-some zero states n now next u e = cc
turns-some (suc rounds) states n now next u e = elim (Option-cases (get_elem? states (next % n))) [
  | inl lost ↦ cc (rw (lost, turns) at e)
  | inr (s, found) ↦ elim (Bool-cases (leb s.cooldown_until now)) [
    | inl free ↦ (next % n, s, found, free, cc (rw (found, free, turns) at e))
    | inr busy ↦ turns-some rounds states n now ((next + 1) % n) u (rw (found, busy, turns) at e)
  ]
]

free_urls : Float → List ProxyState → List String
free_urls now states = map (λ s. s.url) (keep_if (λ s. leb s.cooldown_until now) states)

none_free :
    (now : Float) (states : List ProxyState)
    → ((i : ℕ) (s : ProxyState) → get_elem? states i ≡ some s → leb s.cooldown_until now ≡ false)
    → free_urls now states ≡ []
unfolding free_urls keep_if
none_free now [] h = refl
none_free now (s ∷ rest) h =
    let busy = h 0 s refl in let later = none_free now rest (λ i. h (suc i)) in rw busy later

one_free :
    (now : Float) (states : List ProxyState) (i : ℕ) (s : ProxyState)
    → get_elem? states i ≡ some s
    → leb s.cooldown_until now ≡ true
    → Any (λ u. u ≡ s.url) (free_urls now states)
unfolding free_urls keep_if
one_free now [] i s e free = cc
one_free now (x ∷ xs) zero s e free =
    let same : x ≡ s = cc in
    let free' : leb x.cooldown_until now ≡ true = rw same free in
    rw free' (inl (ap (λ y. y.url) same))
one_free now (x ∷ xs) (suc i) s e free =
    let later = one_free now xs i s e free in
    elim (Bool-cases (leb x.cooldown_until now)) [
      | inl here ↦ rw here (inr later)
      | inr busy ↦ rw busy later
    ]

-- In a pool that has proxies, `acquire` gives None only when no proxy is healthy, and else the URL of a healthy one; it changes
-- nothing but whose turn is next.
pub acquire-healthy :
    (now : Float) (p : ProxyPool)
    → p.next < length p.states
    → ((acquire now p).0 ≡ none → healthy now p ≡ [])
      × ((u : String) → (acquire now p).0 ≡ some u → Any (λ v. v ≡ u) (healthy now p))
      × ((acquire now p).1.states ≡ p.states)
unfolding acquire healthy free_urls
acquire-healthy now p h =
    let n : ℕ = length p.states in
    let some_left : (n == 0) ≡ false = ground arith in
    rw some_left (
      (λ e. none_free now p.states (λ i s there.
          let (j, short, at_i) = reach n p.next i h (within p.states i s there) in
          turns-none n p.states n now p.next (omega arith) refl e j short s (rw at_i there))),
      (λ u e.
          let (i, s, there, free, url) = turns-some n p.states n now p.next u e in
          rw (sym url) (one_free now p.states i s there free)),
      refl,
    )
