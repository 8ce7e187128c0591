-- ===== src/Jobs/JobStore/Specs.antt =====
-- The specs of jobs: what is written is read back, and a job that is deleted leaves only its events.
use ujin.Prelude.{
  All-keep_if, inr, true, All, inl, not, ◌∙◌, Bool-cases, Option, ap, keep_if, none, refl, eq_iff,
  [], arith, ◌∷◌, false, some, str_eq, ◌≡◌, List, String,
}
use ujin.Float.{Float}
use ujin.Jobs.JobStore.{
  JobSpec, Codec, JobRow, JobStore, put_job, upsert, find_job, decode_row, read_row, get, delete,
}

find_put :
    (id : String) (row : JobRow) (rows : List JobRow)
    → str_eq row.id id ≡ false
    → find_job id (put_job row rows) ≡ find_job id rows
unfolding find_job put_job
find_put id row [] other = rw other refl
find_put id row (r ∷ rows) other =
    ground (arith, find_put id row rows other, eq_iff r.id row.id, eq_iff r.id id, eq_iff row.id id)

-- the row that is found under the id that was written
find_same :
    (row : JobRow) (rows : List JobRow)
    → (r : JobRow) × (find_job row.id (put_job row rows) ≡ some r)
      × (r.spec_json ≡ row.spec_json)
      × (r.enabled ≡ row.enabled)
unfolding find_job put_job
find_same row [] = (row, ground (arith, eq_iff row.id row.id), refl, refl)
find_same row (r ∷ rows) = elim (Bool-cases (str_eq r.id row.id)) [
  | inl same ↦
      (record row { created_at = r.created_at }, ground (arith, eq_iff row.id row.id), refl, refl)
  | inr other ↦ let rest = find_same row rows in (rest.0, ground (arith, rest.1), rest.2, rest.3)
]

read_lem :
    (c : Codec) (o : Option JobRow) (r : JobRow) (spec : JobSpec)
    → o ≡ some r
    → c.decode r.spec_json ≡ some spec
    → read_row c o ≡ some (record spec { enabled = r.enabled })
unfolding read_row decode_row
read_lem c o r spec e d = rw (e, d, read_row, decode_row) refl

-- A spec that the codec reads back is read as it was written under its id, and what is read under any
-- other id is as before.
pub get-upsert :
    (c : Codec) (now : Float) (spec : JobSpec) (s : JobStore) (other : String)
    → c.decode (c.encode spec) ≡ some spec
    → (get c spec.id (upsert c now spec s) ≡ some spec)
      × (str_eq spec.id other ≡ false → get c other (upsert c now spec s) ≡ get c other s)
unfolding get upsert
get-upsert c now spec s other reads =
    let row : JobRow = record {
      id = spec.id;
      name = spec.name;
      enabled = spec.enabled;
      spec_json = c.encode spec;
      created_at = spec.created_at;
      updated_at = now;
    } in
    let found = find_same row s.jobs in
    (
      read_lem c (find_job spec.id (put_job row s.jobs)) found.0 spec found.1
            (ap c.decode found.2 ∙ reads)
          ∙ ap (λ flag. some (record spec { enabled = flag })) found.3,
      λ apart. ap (read_row c) (find_put other row s.jobs apart),
    )

gone_lem :
    (id : String) (rows : List JobRow)
    → find_job id (keep_if (λ r. not (str_eq r.id id)) rows) ≡ none
unfolding find_job keep_if
gone_lem id [] = refl
gone_lem id (r ∷ rows) = ground (arith, gone_lem id rows)

kept_lem :
    (id other : String) (rows : List JobRow)
    → str_eq id other ≡ false
    → find_job other (keep_if (λ r. not (str_eq r.id id)) rows) ≡ find_job other rows
unfolding find_job keep_if
kept_lem id other [] apart = refl
kept_lem id other (r ∷ rows) apart =
    ground (arith, kept_lem id other rows apart, eq_iff r.id id, eq_iff r.id other, eq_iff id other)

-- A job that is deleted is not found any more and has no runs and no results; its events are kept, and
-- so is every other job.
pub delete_lem :
    (c : Codec) (id other : String) (s : JobStore)
    → (get c id (delete id s).0 ≡ none)
      × All (λ r. not (str_eq r.job_id id) ≡ true) (delete id s).0.runs
      × All (λ r. not (str_eq r.job_id id) ≡ true) (delete id s).0.results
      × ((delete id s).0.events ≡ s.events)
      × (str_eq id other ≡ false → get c other (delete id s).0 ≡ get c other s)
unfolding get delete read_row
delete_lem c id other s = (
  ap (read_row c) (gone_lem id s.jobs),
  All-keep_if (λ r. not (str_eq r.job_id id)) s.runs,
  All-keep_if (λ r. not (str_eq r.job_id id)) s.results,
  refl,
  λ apart. ap (read_row c) (kept_lem id other s.jobs apart),
)
