-- ===== src/Poll.antt =====
-- ujin/poll/base.py: the result of a poll, and when it counts as a change. A payload is opaque.
pub mod Multi
use ujin.Prelude.{
  Bool, Option, Option-cases, String, arith, eq_iff, false, inl, inr, none, not, refl, some, str_eq,
  true, ℕ, ◌↔◌, ◌≡◌, ◌≢◌,
}
use ujin.Float.{Float}

pub record PollResult (P : Type 0) : Type 0 where
  pub is_ok : Bool
  pub changed : Bool
  pub fingerprint : Option String
  pub payload : Option P
  pub latency_ms : ℕ
  pub status : Option ℕ
  pub error : Option String
  pub retry_after : Option Float
  pub ts : Float

-- `PollResult.failure(error)`, made at `ts`
unfoldable pub failure : {P : Type 0} → String → Float → PollResult P
failure error ts = record {
  is_ok = false;
  changed = false;
  fingerprint = none;
  payload = none;
  latency_ms = 0;
  status = none;
  error = some error;
  retry_after = none;
  ts = ts;
}

abbrev pub fingerprint_of : {P : Type 0} → Option (PollResult P) → Option String
fingerprint_of none = none
fingerprint_of (some r) = r.fingerprint

unfoldable pub decide_changed : {P : Type 0} → Option String → Option (PollResult P) → Bool
decide_changed none prev = false
decide_changed (some new) prev = elim (fingerprint_of prev) [
  | none ↦ true
  | some old ↦ not (str_eq new old)
]

-- A poll counts as a change exactly when it has a fingerprint and the previous poll had not that one.
pub decide_changed_iff :
    {P : Type 0} (new : String) (prev : Option (PollResult P))
    → (decide_changed none prev ≡ false)
      × ((decide_changed (some new) prev ≡ true) ↔ (fingerprint_of prev ≢ some new))
unfolding decide_changed
decide_changed_iff new prev = (
  refl,
  elim (Option-cases (fingerprint_of prev)) [
    | inl gone ↦ (λ e. ground arith, λ h. ground arith)
    | inr (old, there) ↦ (λ e. ground (arith, eq_iff new old), λ h. ground (arith, eq_iff new old))
  ],
)
