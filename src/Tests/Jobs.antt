-- ===== src/Tests/Jobs.antt =====
-- The job service on concrete inputs.
use ujin.Prelude.{
  ◌⊎◌, arith, Bool, Error, List, Result, String, [], false, if◌then◌else◌, none, ok, raise, refl,
  some, true, type_error, value_error, ℕ, ◌%◌, ◌+◌, ◌/◌, ◌<◌, ◌==◌, ◌∷◌, ◌≡◌, ◌≤◌, ltb, ◌-◌,
  keep_if,
}
use ujin.Jobs.Dotted.{Part, dotted_get, dotted_set}
use ujin.Jobs.Transforms.Unique
use ujin.Jobs.Transforms.Unique.Firsts.{apply-nub}
use ujin.Jobs.Manager.{idle, adaptive, cron, JobSpec, JobManager, register, pause}
use ujin.Jobs.Value.{
  null, Value, str, arr, Items, nil, cons, Fields, done, field, field_of, put_field, of_list,
  to_list,
}
use ujin.Prelude.Dict.{lookup, insert}
use ujin.Float.Fixed.{fixed}
use ujin.Jobs.Pipeline.{one, many, dropped, Transform, stage, stages, emits, call}
use ujin.Jobs.Pipeline.Runs.{Runs, stages-Runs}
use ujin.Jobs.Transforms.Chunk.{pack}
use ujin.Jobs.Transforms.Items.Filter.{Filter, exists}
use ujin.Float.{Float}
use ujin.Jobs.Cron.{contains, day_ok, Calendar, CronExpr, fires, horizon, next_after}
use ujin.Jobs.Cron.Next.{Skips, next_after_lem, next_after-at_once, next_after-back}
use ujin.Jobs.Manager.Armed.{Reachable, fresh, registers, pauses, IsArmed, Reachable-IsArmed}

abbrev sinks : List String
sinks = "log" ∷ "hook" ∷ []

-- a transform that sends an event on twice, and counts
doubles : Transform ℕ ℕ
doubles e w = (ok (many (e ∷ (e + 1) ∷ [])), w + 1)

-- a transform that refuses the event 9 and drops the event 8
picks : Transform ℕ ℕ
picks e w = (if e == 9 then raise type_error else if e == 8 then ok dropped else ok (one e), w)

-- the two answers to 7 stand before those to 3
doubled : stages (doubles ∷ picks ∷ []) (7 ∷ 3 ∷ []) 0 ≡ (ok (7 ∷ 3 ∷ 4 ∷ []), 2)
unfolding stages stage doubles picks
doubled = refl

stages-Runs_example :
    Runs
      (doubles ∷ picks ∷ [])
      (7 ∷ 3 ∷ [])
      0
      (stages (doubles ∷ picks ∷ []) (7 ∷ 3 ∷ []) 0).0
      (stages (doubles ∷ picks ∷ []) (7 ∷ 3 ∷ []) 0).1
stages-Runs_example = stages-Runs (doubles ∷ picks ∷ []) (7 ∷ 3 ∷ []) 0

-- the event 8 is dropped, and 7 goes to both sinks
doubled_and_picked : call (doubles ∷ picks ∷ []) sinks 7 0 ≡ (("log", 7) ∷ ("hook", 7) ∷ [], 1)
unfolding call stages stage doubles picks emits
doubled_and_picked = refl

packed : pack (λ n. n) 5 [] 0 (3 ∷ 2 ∷ 9 ∷ 1 ∷ []) ≡ (3 ∷ 2 ∷ []) ∷ (9 ∷ []) ∷ (1 ∷ []) ∷ []
unfolding pack
packed = refl

abbrev payload : Part
payload = record { text = "payload"; index = none }

abbrev two : Items
two = cons (str "a") (cons (str "b") nil)

abbrev news : Fields
news = field "payload" (arr two) done

text_of : Value → String
text_of (str s) = s
text_of _ = ""

never : String → Value → Value → Result Bool
never name val rhs = raise type_error

abbrev has_doi : Filter
has_doi = record { path = payload ∷ []; key = []; op = exists; value = null; negate = false }

-- a year of one month of one day, in minutes
abbrev days : Calendar
days = record {
  month = λ t. 1;
  day = λ t. 1;
  weekday = λ t. 0;
  hour = λ t. t / 60 % 24;
  minute = λ t. t % 60;
  local = λ ts. ts;
  timestamp = λ t. t;
}

-- The clock is put back by an hour at the minute 600; a time of the wall clock is its first reading.
abbrev turned_back : Calendar
turned_back = record days {
  local = λ ts. if ltb ts 600 then ts else ts - 60;
  timestamp = λ t. if ltb t 600 then t else t + 60;
}

-- `30 9 * * *`
abbrev half_past_nine : CronExpr
half_past_nine = record {
  minute = 30 ∷ [];
  hour = 9 ∷ [];
  dom = 1 ∷ [];
  month = 1 ∷ [];
  dow = 0 ∷ [];
  dom_restricted = false;
  dow_restricted = false;
}

next_after_lem_example :
    ((r : Float)
      → next_after days half_past_nine 568 ≡ ok r
      → (m : ℕ) × (days.timestamp m ≡ r)
        × (568 < m)
        × (fires days half_past_nine m ≡ true)
        × ((k : ℕ) → 568 < k → k < m → fires days half_past_nine k ≡ false))
    × ((err : Error)
        → next_after days half_past_nine 568 ≡ raise err
        → (err ≡ value_error)
          × ((k : ℕ) → 568 < k → k ≤ 568 + horizon → fires days half_past_nine k ≡ false))
next_after_lem_example = next_after_lem days half_past_nine 568

-- half past nine at the minute before its second reading: the first one is given back
due_again : next_after turned_back half_past_nine 629 ≡ ok 570
unfolding fires day_ok contains
due_again = next_after-at_once turned_back half_past_nine 629 refl

repeated_till : (k : ℕ) → 569 < k → k ≤ 599 → (if ltb k 600 then k else k + 60) ≤ 629
repeated_till k p l = ground arith

once_more_after : (k : ℕ) → 599 < k → 629 < (if ltb k 600 then k else k + 60)
once_more_after k p = ground arith

next_after-back_example :
    ((m : ℕ) × (569 < m) × (m ≤ 599) × (fires turned_back half_past_nine m ≡ true) × (570 ≤ 629))
    ⊎ (Skips (fires turned_back half_past_nine) 570 600 × (629 < 570))
next_after-back_example =
    next_after-back turned_back half_past_nine 629 570 599 repeated_till once_more_after due_again

abbrev feed : JobSpec
feed = record { id = "feed"; enabled = true; mode = adaptive }

abbrev nothing : JobManager ℕ
nothing = record { jobs = []; targets = []; store = [] }

abbrev one_job : JobManager ℕ
one_job = record {
  jobs =
      ("feed", record { spec = feed; target = 7; is_adaptive = true; next_fire = 0; state = idle })
      ∷ [];
  targets = ("feed", 7) ∷ [];
  store = [];
}

registered : register (ok 7) (ok 0) feed nothing ≡ ok one_job
unfolding register insert
registered = refl

not_there : lookup "feed" nothing.jobs ≡ none
unfolding lookup
not_there = refl

one_job-Reachable : Reachable one_job
one_job-Reachable = registers 7 (ok 0) feed fresh not_there registered

Reachable-IsArmed_example : IsArmed (pause "feed" one_job).1
Reachable-IsArmed_example =
    Reachable-IsArmed (pause "feed" one_job).1 (pauses "feed" one_job-Reachable)

abbrev nightly : JobSpec
nightly = record { id = "feed"; enabled = true; mode = cron }

abbrev cron_job : JobManager ℕ
cron_job = record {
  jobs =
      (
        "feed",
        record { spec = nightly; target = 8; is_adaptive = false; next_fire = 5; state = idle },
      )
      ∷ [];
  targets = ("feed", 7) ∷ [];
  store = [];
}

registered_again : register (ok 8) (ok 5) nightly one_job ≡ ok cron_job
unfolding register insert
registered_again = refl

still_there : lookup "feed" one_job.targets ≡ some 7
unfolding lookup
still_there = refl

-- a payload with one item twice
abbrev repeated : Items
repeated = cons (str "x") (cons null (cons (str "x") (cons (str "y") nil)))

apply-nub_example :
    Unique.apply
      (λ v. "v")
      (record { path = payload ∷ []; key = none })
      (field "payload" (arr repeated) done)
    ≡ field "payload" (arr (cons (str "x") (cons null (cons (str "y") nil)))) done
unfolding dotted_get dotted_set field_of put_field of_list to_list keep_if Unique.same Unique.key_of
    Unique.raw_of
apply-nub_example =
    apply-nub (λ v. "v") (record { path = payload ∷ []; key = none })
      (field "payload" (arr repeated) done) repeated refl
