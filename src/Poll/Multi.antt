-- ===== src/Poll/Multi.antt =====
-- ujin/poll/multi.py: `MultiPollable`. What the children answer to `gather` is an argument, in their
-- order, and so is the fingerprint.
use ujin.Prelude.{
  Bool, List, Option, String, [], none, some, ◌∷◌, ◌++◌, ◌||◌, ◌≡◌, false, true, refl,
  if◌then◌else◌, keep_if, ap, Bool-cases, inl, inr,
}
use ujin.Float.{Float}
use ujin.Jobs.Value.{Value, null, arr, to_list, of_list}
use ujin.Poll.{PollResult, decide_changed}

pub data Reply : Type 0 where
  raised : Reply
  answered : PollResult Value → Reply

unfoldable pub is_good : Reply → Bool
is_good raised = false
is_good (answered r) = r.is_ok

-- what one payload adds to the list
unfoldable pub added : Option Value → List Value
added none = []
added (some null) = []
added (some (arr xs)) = to_list xs
added (some v) = v ∷ []

-- the list and `ok_any`
unfoldable pub combined : List Reply → List Value × Bool
unfolding added
combined [] = ([], false)
combined (raised ∷ rest) = combined rest
combined (answered r ∷ rest) =
    let (values, good) = combined rest in
    if r.is_ok then (added r.payload ++ values, true) else (values, good)

is_none_left : List Reply → Bool
is_none_left [] = true
is_none_left (r ∷ rest) = false

unfoldable pub poll :
    (List Value → String) → Float → List Reply → Option (PollResult Value) → PollResult Value
unfolding combined is_none_left
poll fingerprint ts replies prev =
    let (values, good) = combined replies in
    let fp : String = fingerprint values in
    record {
      is_ok = good || is_none_left replies;
      changed = decide_changed (some fp) prev;
      fingerprint = some fp;
      payload = some (arr (of_list values));
      latency_ms = 0;
      status = none;
      error = none;
      retry_after = none;
      ts = ts;
    }

combined-good : (replies : List Reply) → combined (keep_if is_good replies) ≡ combined replies
unfolding combined keep_if is_good
combined-good [] = refl
combined-good (raised ∷ rest) = combined-good rest
combined-good (answered r ∷ rest) = elim (Bool-cases r.is_ok) [
  | inl good ↦ rw good (ap (λ p. (added r.payload ++ p.0, true)) (combined-good rest))
  | inr bad ↦ rw bad (combined-good rest)
]

-- A child that fails contributes nothing: the payload, the fingerprint and the change are those of the
-- children that did not fail.
pub poll-good :
    (fingerprint : List Value → String) (ts : Float) (replies : List Reply)
    (prev : Option (PollResult Value))
    → let all : PollResult Value = poll fingerprint ts replies prev in
      let good : PollResult Value = poll fingerprint ts (keep_if is_good replies) prev in
      (all.payload ≡ good.payload)
      × (all.fingerprint ≡ good.fingerprint)
      × (all.changed ≡ good.changed)
unfolding poll
poll-good fingerprint ts replies prev = rw (combined-good replies) (refl, refl, refl)
