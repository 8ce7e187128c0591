-- ===== src/Adapt/Bucket.antt =====
-- ujin/adapt/concurrency.py: `TokenBucket`. Each reading of the clock that a method takes is an
-- argument of it.
pub mod Tokens
use ujin.Prelude.{
  Bool, List, Option, Result, [], false, if◌then◌else◌, leb, ltb, min, none, ok, require, some,
  true, value_error, ◌>>=◌, ◌>>◌, ◌∷◌, ◌≤◌,
}
use ujin.Float.{Float, FloatOps, add, sub, mul, div, float_zero}

-- `tokens` and `last` are the private fields.
pub record TokenBucket : Type 0 where
  pub rate : Float
  pub burst : Float
  pub tokens : Float
  pub last : Float

module _ ⦃F : FloatOps⦄ where
  unfoldable pub init : Float → Float → Float → Result TokenBucket
  init rate burst now = do
    require (ltb float_zero rate) value_error
    ok (record { rate = rate; burst = burst; tokens = burst; last = now })

  unfoldable pub refill : TokenBucket → Float → TokenBucket
  refill b now = record b {
    last = now;
    tokens = min b.burst (add b.tokens (mul (sub now b.last) b.rate));
  }

  unfoldable pub take : TokenBucket → Float → Float → TokenBucket × Bool
  unfolding refill
  take b n now =
      let b' : TokenBucket = refill b now in
      if leb n b'.tokens then (record b' { tokens = sub b'.tokens n }, true) else (b', false)

  unfoldable pub time_until : TokenBucket → Float → Float → TokenBucket × Float
  unfolding refill
  time_until b n now =
      let b' : TokenBucket = refill b now in
      (b', if leb n b'.tokens then float_zero else div (sub n b'.tokens) b'.rate)

  -- A round of the loop in `acquire`: it returns, or goes on, after a sleep or at once.
  unfoldable pub acquire_round : TokenBucket → Float → Float → Float → TokenBucket × Bool
  unfolding take time_until
  acquire_round b n seen seen' =
      let (b', wait) = time_until b n seen in
      if leb wait float_zero then take b' n seen' else (b', false)

  -- The loop, over the readings of the rounds: `none` if it has not returned when they end.
  unfoldable pub acquire : TokenBucket → Float → List (Float × Float) → Option TokenBucket
  unfolding acquire_round
  acquire b n [] = none
  acquire b n ((seen, seen') ∷ rest) =
      let (b', granted) = acquire_round b n seen seen' in
      let later = acquire b' n rest in if granted then some b' else later
