-- ===== src/Jobs/Pipeline/Flow.antt =====
-- What a pipeline emits to its sinks.
use ujin.Prelude.{
  Error, List, [], arith, length, length-append, length-map, map, ok, raise, refl, ◌*◌, ◌∷◌, ◌≡◌,
}
use ujin.Jobs.Pipeline.{Transform, stages, emits, call}

length-emits :
    {E K : Type 0} (sinks : List K) (es : List E)
    → length (emits sinks es) ≡ length sinks * length es
unfolding emits
length-emits sinks [] = grind arith
length-emits {E = E} {K = K} sinks (e ∷ es) = grind (
  arith,
  length-emits sinks es,
  length-append (map (λ k. (k, e)) sinks) (emits sinks es),
  length-map {B = K × E} (λ k. (k, e)) sinks,
)

module _ {E W K : Type 0} where
  -- Nothing is emitted when a transform raises. Otherwise every sink is given every event that is
  -- left, once.
  pub call_lem :
      (ts : List (Transform E W)) (sinks : List K) (event : E) (w : W)
      → ((err : Error) → (stages ts (event ∷ []) w).0 ≡ raise err → (call ts sinks event w).0 ≡ [])
        × ((es : List E)
            → (stages ts (event ∷ []) w).0 ≡ ok es
            → ((call ts sinks event w).0 ≡ emits sinks es)
              × (length (call ts sinks event w).0 ≡ length sinks * length es))
  unfolding call
  call_lem ts sinks event w = (λ err e. rw e refl, λ es e. rw e (refl, length-emits sinks es))
