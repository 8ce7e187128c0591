-- ===== src/Jobs/JobStore.antt =====
-- ujin/jobs/store.py: `JobStore`. A table is the list of its rows in the order of their insertion, a
-- transaction is one step, and the readings of the clock are arguments. Reading and writing a spec as
-- JSON (`to_dict`, `from_dict`) are the fields of `Codec`; a text that cannot be read is `none`.
pub mod Specs
pub mod Newest
use ujin.Prelude.{
  length, ◌&&◌, ◌+◌, [], if◌then◌else◌, not, str_eq, ◌==◌, ◌||◌, false, keep_if, ltb, none, some,
  take, ◌∷◌, Bool, List, Option, String, ◌++◌, ℕ,
}
use ujin.Float.{Float}

pub record JobSpec : Type 0 where
  pub id : String
  pub name : String
  pub enabled : Bool
  pub created_at : Float
  pub rest : String

pub record Codec : Type 0 where
  pub encode : JobSpec → String
  pub decode : String → Option JobSpec

pub record JobRow : Type 0 where
  pub id : String
  pub name : String
  pub enabled : Bool
  pub spec_json : String
  pub created_at : Float
  pub updated_at : Float

pub record RunRow : Type 0 where
  pub job_id : String
  pub started_at : Float
  pub finished_at : Option Float
  pub good : Bool
  pub changed : Bool
  pub fingerprint : Option String
  pub error : Option String
  pub strategy : Option String

pub record EventRow : Type 0 where
  pub job_id : String
  pub ts : Float
  pub fingerprint : Option String
  pub event_json : String

pub record ResultRow : Type 0 where
  pub id : ℕ
  pub job_id : String
  pub ts : Float
  pub fingerprint : Option String
  pub payload_json : String

-- `next_id` is the next id of `job_results`
pub record JobStore : Type 0 where
  pub jobs : List JobRow
  pub runs : List RunRow
  pub events : List EventRow
  pub results : List ResultRow
  pub next_id : ℕ

-- RESULTS_CAP
abbrev pub results_cap : ℕ
results_cap = 50

-- INSERT … ON CONFLICT(id) DO UPDATE: the row that is there keeps its creation
unfoldable pub put_job : JobRow → List JobRow → List JobRow
put_job row [] = row ∷ []
put_job row (r ∷ rows) =
    if str_eq r.id row.id
    then record row { created_at = r.created_at } ∷ rows
    else r ∷ put_job row rows

unfoldable pub upsert : Codec → Float → JobSpec → JobStore → JobStore
unfolding put_job
upsert c now spec s = record s {
  jobs =
      put_job
        (record {
          id = spec.id;
          name = spec.name;
          enabled = spec.enabled;
          spec_json = c.encode spec;
          created_at = spec.created_at;
          updated_at = now;
        })
        s.jobs;
}

-- SELECT … FROM jobs WHERE id = ?
unfoldable pub find_job : String → List JobRow → Option JobRow
find_job id [] = none
find_job id (r ∷ rows) = if str_eq r.id id then some r else find_job id rows

-- `_decode`: the column is authoritative for the flag
unfoldable pub decode_row : Codec → JobRow → Option JobSpec
decode_row c r = elim (c.decode r.spec_json) [
  | none ↦ none
  | some spec ↦ some (record spec { enabled = r.enabled })
]

read_row : Codec → Option JobRow → Option JobSpec
unfolding decode_row
read_row c none = none
read_row c (some r) = decode_row c r

unfoldable pub get : Codec → String → JobStore → Option JobSpec
unfolding read_row find_job
get c id s = read_row c (find_job id s.jobs)

-- whether there was such a job; its events stay
unfoldable pub delete : String → JobStore → JobStore × Bool
delete id s = (
  record s {
    jobs = keep_if (λ r. not (str_eq r.id id)) s.jobs;
    runs = keep_if (λ r. not (str_eq r.job_id id)) s.runs;
    results = keep_if (λ r. not (str_eq r.job_id id)) s.results;
  },
  ltb 0 (length (keep_if (λ r. str_eq r.id id) s.jobs)),
)

unfoldable pub flag_job : String → Bool → Float → List JobRow → List JobRow
flag_job id enabled now [] = []
flag_job id enabled now (r ∷ rows) =
    (if str_eq r.id id then record r { enabled = enabled; updated_at = now } else r)
    ∷ flag_job id enabled now rows

unfoldable pub set_enabled : String → Bool → Float → JobStore → JobStore
unfolding flag_job
set_enabled id enabled now s = record s { jobs = flag_job id enabled now s.jobs }

unfoldable pub record_run : RunRow → JobStore → JobStore
record_run row s = record s { runs = s.runs ++ (row ∷ []) }

unfoldable pub record_event : EventRow → JobStore → JobStore
record_event row s = record s { events = s.events ++ (row ∷ []) }

-- ORDER BY ts DESC, id DESC
unfoldable pub newer : ResultRow → ResultRow → Bool
newer a b = ltb b.ts a.ts || (a.ts == b.ts) && ltb b.id a.id

unfoldable pub put_newer : ResultRow → List ResultRow → List ResultRow
unfolding newer
put_newer row [] = row ∷ []
put_newer row (r ∷ rows) = if newer row r then row ∷ r ∷ rows else r ∷ put_newer row rows

unfoldable pub sort_newest : List ResultRow → List ResultRow
unfolding put_newer
sort_newest [] = []
sort_newest (r ∷ rows) = put_newer r (sort_newest rows)

-- SELECT … FROM job_results WHERE job_id = ? ORDER BY … LIMIT ?
unfoldable pub newest : String → ℕ → List ResultRow → List ResultRow
unfolding sort_newest
newest job limit rows = take limit (sort_newest (keep_if (λ r. str_eq r.job_id job) rows))

-- id IN (SELECT id …)
unfoldable pub has_id : ℕ → List ResultRow → Bool
has_id i [] = false
has_id i (r ∷ rows) = r.id == i || has_id i rows

-- DELETE … WHERE job_id = ? AND id NOT IN …
unfoldable pub prune : String → List ResultRow → List ResultRow
unfolding newest has_id
prune job rows =
    keep_if (λ r. not (str_eq r.job_id job) || has_id r.id (newest job results_cap rows)) rows

unfoldable pub record_result : String → Float → Option String → String → JobStore → JobStore
unfolding prune
record_result job ts fingerprint payload s =
    let row : ResultRow = record {
      id = s.next_id;
      job_id = job;
      ts = ts;
      fingerprint = fingerprint;
      payload_json = payload;
    } in
    record s { results = prune job (s.results ++ (row ∷ [])); next_id = s.next_id + 1 }

-- the rows that `results` reads; a payload that cannot be read is left out by the caller
unfoldable pub results : String → ℕ → JobStore → List ResultRow
unfolding newest
results job limit s = newest job limit s.results
