-- ===== src/Jobs/Pipeline.antt =====
-- ujin/jobs/pipeline.py: `Pipeline.__call__`, from the event that `build_event` makes on. What the
-- transforms remember is one state, which each call is given and gives back. A run of sinks is the
-- list of the `emit` calls it begins, in order.
pub mod Flow
pub mod Runs
use ujin.Prelude.{List, Result, [], map, ok, raise, ◌++◌, ◌>>=◌, ◌∷◌}

-- what a transform returns: a dictionary, a list of them, or None
pub data Out {ℓ} (E : Type ℓ) : Type ℓ where
  one : E → Out E
  many : List E → Out E
  dropped : Out E

abbrev pub Transform : Type 0 → Type 0 → Type 0
Transform E W = E → W → Result (Out E) × W

collected {ℓ} : {E : Type ℓ} → Out E → List E → List E
collected (one e) rest = e ∷ rest
collected (many es) rest = es ++ rest
collected dropped rest = rest

module _ {E W : Type 0} where
  -- the inner loop: one transform on each event
  unfoldable pub stage : Transform E W → List E → W → Result (List E) × W
  unfolding collected
  stage t [] w = (ok [], w)
  stage t (e ∷ es) w =
      let (out, w') = t e w in
      elim out [
        | raise err ↦ (raise err, w')
        | ok o ↦ let (rest, w'') = stage t es w' in (rest >>= λ es'. ok (collected o es'), w'')
      ]

  -- the outer loop, with its return where every event was dropped
  unfoldable pub stages : List (Transform E W) → List E → W → Result (List E) × W
  stages [] es w = (ok es, w)
  stages (t ∷ ts) es w =
      let (out, w') = stage t es w in
      elim out [
        | raise err ↦ (raise err, w')
        | ok [] ↦ (ok [], w')
        | ok (e ∷ rest) ↦ stages ts (e ∷ rest) w'
      ]

module _ {E K : Type 0} where
  -- each event to all the sinks
  unfoldable pub emits : List K → List E → List (K × E)
  emits sinks [] = []
  emits sinks (e ∷ es) = map (λ k. (k, e)) sinks ++ emits sinks es

  begun : List K → Result (List E) → List (K × E)
  begun sinks (raise err) = []
  begun sinks (ok es) = emits sinks es

module _ {E W K : Type 0} where
  unfoldable pub call : List (Transform E W) → List K → E → W → List (K × E) × W
  unfolding begun
  call ts sinks event w = let (out, w') = stages ts (event ∷ []) w in (begun sinks out, w')
