-- ===== src/Jobs/Pipeline/Runs.antt =====
-- What a run of a pipeline comes to, event by event.
use ujin.Prelude.{Error, List, Result, [], ok, raise, refl, ◌++◌, ◌∷◌, ◌≡◌, ◌>>=◌, sym}
use mathlib.Core.Path.{subst}
use ujin.Jobs.Pipeline.{Out, one, many, dropped, Transform, collected, stage, stages}

-- the events that an answer stands for
abbrev events_of {ℓ} : {E : Type ℓ} → Out E → List E
events_of (one e) = e ∷ []
events_of (many es) = es
events_of dropped = []

collected_lem {ℓ} :
    {E : Type ℓ} (o : Out E) (rest : List E) → collected o rest ≡ events_of o ++ rest
unfolding collected
collected_lem (one e) rest = refl
collected_lem (many es) rest = refl
collected_lem dropped rest = refl

module _ {E W : Type 0} where
  -- A transform is given one event after the other, and its answers stand in the order of the events,
  -- all those of one before those of the next; it stops at the first error.
  pub data Turns (t : Transform E W) : List E → W → Result (List E) → W → Type 0 where
    done : (w : W) → Turns t [] w (ok []) w
    turn :
        (e : E) (es rest : List E) (o : Out E) (w w' w'' : W)
        → t e w ≡ (ok o, w')
        → Turns t es w' (ok rest) w''
        → Turns t (e ∷ es) w (ok (events_of o ++ rest)) w''
    stops :
        (e : E) (es : List E) (err : Error) (w w' : W)
        → t e w ≡ (raise err, w')
        → Turns t (e ∷ es) w (raise err) w'
    stops_later :
        (e : E) (es : List E) (o : Out E) (err : Error) (w w' w'' : W)
        → t e w ≡ (ok o, w')
        → Turns t es w' (raise err) w''
        → Turns t (e ∷ es) w (raise err) w''

  -- The transforms take their turns on what the one before has left; nothing goes on after an error or
  -- when no event is left.
  pub data Runs : List (Transform E W) → List E → W → Result (List E) → W → Type 0 where
    through : (es : List E) (w : W) → Runs [] es w (ok es) w
    onward :
        (t : Transform E W) (ts : List (Transform E W)) (es rest : List E) (e : E)
        (r : Result (List E)) (w w' w'' : W)
        → Turns t es w (ok (e ∷ rest)) w'
        → Runs ts (e ∷ rest) w' r w''
        → Runs (t ∷ ts) es w r w''
    emptied :
        (t : Transform E W) (ts : List (Transform E W)) (es : List E) (w w' : W)
        → Turns t es w (ok []) w'
        → Runs (t ∷ ts) es w (ok []) w'
    failed :
        (t : Transform E W) (ts : List (Transform E W)) (es : List E) (err : Error) (w w' : W)
        → Turns t es w (raise err) w'
        → Runs (t ∷ ts) es w (raise err) w'

  -- what one answer and the turns of the other events come to
  turn-Turns :
      (t : Transform E W) (e : E) (es : List E) (w w' w'' : W) (o : Out E) (rest : Result (List E))
      → t e w ≡ (ok o, w')
      → Turns t es w' rest w''
      → Turns t (e ∷ es) w (rest >>= λ es'. ok (collected o es')) w''
  turn-Turns t e es w w' w'' o (raise err) said later = stops_later e es o err w w' w'' said later
  turn-Turns t e es w w' w'' o (ok rest) said later =
      subst (λ xs. Turns t (e ∷ es) w (ok xs) w'') (sym (collected_lem o rest))
        (turn e es rest o w w' w'' said later)

  answer-Turns :
      (t : Transform E W) (e : E) (es : List E) (w : W) (a : Result (Out E) × W)
      → t e w ≡ a
      → ((w' : W) → Turns t es w' (stage t es w').0 (stage t es w').1)
      → let r : Result (List E) × W = elim a.0 [
        | raise err ↦ (raise err, a.1)
        | ok o ↦ let (rest, w'') = stage t es a.1 in (rest >>= λ es'. ok (collected o es'), w'')
      ] in
        Turns t (e ∷ es) w r.0 r.1
  answer-Turns t e es w (raise err, w') said later = stops e es err w w' said
  answer-Turns t e es w (ok o, w') said later =
      turn-Turns t e es w w' (stage t es w').1 o (stage t es w').0 said (later w')

  stage-Turns :
      (t : Transform E W) (es : List E) (w : W) → Turns t es w (stage t es w).0 (stage t es w).1
  unfolding stage
  stage-Turns t [] w = done w
  stage-Turns t (e ∷ es) w = answer-Turns t e es w (t e w) refl (λ w'. stage-Turns t es w')

  passed-Runs :
      (t : Transform E W) (ts : List (Transform E W)) (es : List E) (w : W)
      (a : Result (List E) × W)
      → Turns t es w a.0 a.1
      → ((es' : List E) (w' : W) → Runs ts es' w' (stages ts es' w').0 (stages ts es' w').1)
      → let r : Result (List E) × W = elim a.0 [
        | raise err ↦ (raise err, a.1)
        | ok [] ↦ (ok [], a.1)
        | ok (e ∷ rest) ↦ stages ts (e ∷ rest) a.1
      ] in
        Runs (t ∷ ts) es w r.0 r.1
  passed-Runs t ts es w (raise err, w') first later = failed t ts es err w w' first
  passed-Runs t ts es w (ok [], w') first later = emptied t ts es w w' first
  passed-Runs t ts es w (ok (e ∷ rest), w') first later =
      onward t ts es rest e (stages ts (e ∷ rest) w').0 w w' (stages ts (e ∷ rest) w').1 first
        (later (e ∷ rest) w')

  -- A pipeline runs on any events and from any state as its rules say: every transform is given the
  -- events that the one before has left, in their order, and each of its answers is spliced in at the
  -- place of its event, whether it is one event, several or none; the first error ends the run, and so
  -- does a transform that leaves no event.
  pub stages-Runs :
      (ts : List (Transform E W)) (es : List E) (w : W)
      → Runs ts es w (stages ts es w).0 (stages ts es w).1
  unfolding stages
  stages-Runs [] es w = through es w
  stages-Runs (t ∷ ts) es w =
      passed-Runs t ts es w (stage t es w) (stage-Turns t es w) (λ es' w'. stages-Runs ts es' w')
