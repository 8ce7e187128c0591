-- ===== src/Adapt/Bucket/Tokens.antt =====
-- What the bucket grants: never more than its reserve, and never a request above the burst.
use ujin.Prelude.{◌≤◌, ◌<◌, ◌≡◌, refl, true, false, leb, List, [], ◌∷◌, none, some, arith}
use ujin.Float.{Float, FloatOps, FloatLaws, float_zero, sub, mul}
use ujin.Adapt.Bucket.{TokenBucket, refill, take, acquire_round, acquire}

module _ ⦃F : FloatOps⦄ where
  pub record IsValid (b : TokenBucket) : Type 0 where
    pub running : float_zero < b.rate
    pub not_negative : float_zero ≤ b.tokens
    pub bounded : b.tokens ≤ b.burst
    pub since_start : float_zero ≤ b.last

  module _ (L : FloatLaws F) where
    refill_lem :
        (b : TokenBucket) (now : Float)
        → IsValid b
        → b.last ≤ now
        → IsValid (refill b now) × (b.tokens ≤ (refill b now).tokens)
    unfolding refill
    refill_lem b now v later =
        let elapsed = L.sub_nonneg now b.last v.since_start later in
        let gained = L.mul_nonneg (sub now b.last) b.rate elapsed v.running in
        let grown = L.add_grows b.tokens (mul (sub now b.last) b.rate) v.not_negative gained in
        ground arith

    -- On a clock that does not run backwards a request keeps the bucket between empty and `burst`. It
    -- is granted exactly when the refilled reserve covers it; only then the reserve falls, and a
    -- request that is not granted leaves all that has been gained.
    pub take_lem :
        (b : TokenBucket) (n now : Float)
        → IsValid b
        → float_zero ≤ n
        → b.last ≤ now
        → IsValid (take b n now).0
          × ((take b n now).1 ≡ leb n (refill b now).tokens)
          × ((take b n now).1 ≡ true → (take b n now).0.tokens ≡ sub (refill b now).tokens n)
          × ((take b n now).1 ≡ false → (take b n now).0 ≡ refill b now)
    unfolding take
    take_lem b n now v p later =
        let (v', _) = refill_lem b now v later in
        let x : Float = (refill b now).tokens in
        unfold refill in
        (
          ground (arith, v', L.sub_nonneg x n p, L.sub_shrinks x n),
          ground arith,
          ground arith,
          ground arith,
        )

    -- The loop of `acquire` returns in the first round whose first reading finds the tokens there,
    -- whatever the later readings are.
    pub acquire-returns :
        (b : TokenBucket) (n seen seen' : Float) (rest : List (Float × Float))
        → IsValid b
        → float_zero ≤ n
        → b.last ≤ seen
        → seen ≤ seen'
        → n ≤ (refill b seen).tokens
        → acquire b n ((seen, seen') ∷ rest) ≡ some (take (refill b seen) n seen').0
    unfolding acquire
    acquire-returns b n seen seen' rest v p later after covered =
        unfold refill in ground (arith, refill_lem b seen v later, refill_lem (refill b seen) seen')

  take_above : (b : TokenBucket) (n now : Float) → b.burst < n → (take b n now).1 ≡ false
  unfolding take
  take_above b n now h = ground arith

  round_above :
      (b : TokenBucket) (n seen seen' : Float)
      → b.burst < n
      → ((acquire_round b n seen seen').1 ≡ false)
        × ((acquire_round b n seen seen').0.burst ≡ b.burst)
  unfolding acquire_round
  round_above b n seen seen' h = ground arith

  -- A request above the burst never returns, however long the loop runs.
  pub acquire-starves :
      (b : TokenBucket) (n : Float) (readings : List (Float × Float))
      → b.burst < n
      → acquire b n readings ≡ none
  unfolding acquire
  acquire-starves b n [] h = refl
  acquire-starves b n ((seen, seen') ∷ rest) h =
      ground (
        arith,
        round_above b n seen seen' h,
        acquire-starves (acquire_round b n seen seen').0 n rest,
      )
