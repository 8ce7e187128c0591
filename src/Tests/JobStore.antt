-- ===== src/Tests/JobStore.antt =====
-- A store with one job and one result.
use ujin.Prelude.{[], arith, none, refl, some, true, ◌∷◌, ◌≡◌, ◌≤◌, length, keep_if, str_eq}
use ujin.Jobs.JobStore.{JobSpec, Codec, JobStore, has_id, upsert, delete, record_result}
use ujin.Jobs.JobStore.Newest.{IsNumbered, record_result-IsNumbered}

-- a codec for the specs of one kind of job
abbrev codec : Codec
codec = record {
  encode = λ spec. spec.rest;
  decode =
      λ text. some (record { id = "a"; name = "A"; enabled = true; created_at = 3; rest = text });
}

abbrev spec : JobSpec
spec = record { id = "a"; name = "A"; enabled = true; created_at = 3; rest = "poll" }

abbrev store : JobStore
store = record {
  jobs = [];
  runs = [];
  events = [];
  results = record { id = 1; job_id = "a"; ts = 5; fingerprint = none; payload_json = "{}" } ∷ [];
  next_id = 2;
}

-- deleting a job that is there says so
deleted : (delete "a" (upsert codec 4 spec store)).1 ≡ true
unfolding delete upsert keep_if
deleted = refl

store-IsNumbered : IsNumbered store
unfolding has_id
store-IsNumbered = record { distinct = (refl, tt); below = (omega arith, tt) }

record_result-IsNumbered_example :
    IsNumbered (record_result "a" 6 (some "f") "[]" store)
    × (length
          (keep_if (λ r. str_eq r.job_id "a") (record_result "a" 6 (some "f") "[]" store).results)
        ≤ 50)
record_result-IsNumbered_example =
    record_result-IsNumbered "a" 6 (some "f") "[]" store store-IsNumbered
