-- ===== src/Jobs/JobStore/Newest.antt =====
-- How many results of a job are kept, and which.
use ujin.Prelude.{
  length-take, All-keep_if, All-kept, ◌||◌, All-append, All-map, not, All-both, inr, refl, ◌+◌, [],
  arith, inl, suc, ◌≤◌, Bool-cases, false, if◌then◌else◌, str_eq, true, ◌++◌, Bool, Option, length,
  ◌<◌, ◌==◌, ◌∷◌, ◌≡◌, All, List, String, keep_if, ℕ,
}
use ujin.Float.{Float}
use ujin.Jobs.JobStore.{
  ResultRow, JobStore, results_cap, newest, sort_newest, has_id, prune, record_result,
}

-- no two rows have one id
abbrev Distinct : List ResultRow → Type 0
Distinct [] = Unit
Distinct (r ∷ rows) = (has_id r.id rows ≡ false) × Distinct rows

remove_id : ℕ → List ResultRow → List ResultRow
remove_id i [] = []
remove_id i (r ∷ rows) = if r.id == i then rows else r ∷ remove_id i rows

removed_length :
    (i : ℕ) (rows : List ResultRow)
    → has_id i rows ≡ true
    → suc (length (remove_id i rows)) ≡ length rows
unfolding has_id remove_id
removed_length i [] h = cc
removed_length i (r ∷ rows) h = elim (Bool-cases (r.id == i)) [
  | inl here ↦ rw here refl
  | inr on ↦ ground (arith, removed_length i rows)
]

removed_has :
    (i j : ℕ) (rows : List ResultRow)
    → (j == i) ≡ false
    → has_id j rows ≡ true
    → has_id j (remove_id i rows) ≡ true
unfolding has_id remove_id
removed_has i j [] apart h = h
removed_has i j (r ∷ rows) apart h = ground (arith, removed_has i j rows apart)

apart-All :
    (i : ℕ) (rows : List ResultRow) → has_id i rows ≡ false → All (λ r. (r.id == i) ≡ false) rows
unfolding has_id
apart-All i [] h = tt
apart-All i (r ∷ rows) h = (ground arith, apart-All i rows (ground arith))

-- distinct rows that are all among others are no more than those
few :
    (xs ys : List ResultRow)
    → Distinct xs
    → All (λ r. has_id r.id ys ≡ true) xs
    → length xs ≤ length ys
few [] ys d h = omega arith
few (x ∷ xs) ys d h =
    let others =
      All-both (λ r. (r.id == x.id) ≡ false) (λ r. has_id r.id ys ≡ true) xs (apart-All x.id xs d.0)
        h.1 in
    let rest = few xs (remove_id x.id ys) d.1 (
      All-map {R = λ r. has_id r.id (remove_id x.id ys) ≡ true}
        (λ r q. removed_has x.id r.id ys q.0 q.1) xs others) in
    omega (arith, rest, removed_length x.id ys h.0)

kept_apart :
    (i : ℕ) (p : ResultRow → Bool) (rows : List ResultRow)
    → has_id i rows ≡ false
    → has_id i (keep_if p rows) ≡ false
unfolding has_id keep_if
kept_apart i p [] h = h
kept_apart i p (r ∷ rows) h = ground (arith, kept_apart i p rows)

Distinct-kept :
    (p : ResultRow → Bool) (rows : List ResultRow) → Distinct rows → Distinct (keep_if p rows)
unfolding keep_if
Distinct-kept p [] d = tt
Distinct-kept p (r ∷ rows) d = elim (Bool-cases (p r)) [
  | inl kept ↦ rw kept (kept_apart r.id p rows d.0, Distinct-kept p rows d.1)
  | inr left ↦ rw left (Distinct-kept p rows d.1)
]

-- the ids are distinct, and below the next one
pub record IsNumbered (s : JobStore) : Type 0 where
  pub distinct : Distinct s.results
  pub below : All (λ r. r.id < s.next_id) s.results

fresh_id :
    (r : ResultRow) (rows : List ResultRow) (row : ResultRow)
    → has_id r.id rows ≡ false
    → r.id < row.id
    → has_id r.id (rows ++ (row ∷ [])) ≡ false
unfolding has_id
fresh_id r [] row h lt = ground arith
fresh_id r (x ∷ rows) row h lt = ground (arith, fresh_id r rows row)

Distinct-append :
    (rows : List ResultRow) (row : ResultRow)
    → Distinct rows
    → All (λ r. r.id < row.id) rows
    → Distinct (rows ++ (row ∷ []))
unfolding has_id
Distinct-append [] row d h = (refl, tt)
Distinct-append (r ∷ rows) row d h = (fresh_id r rows row d.0 h.0, Distinct-append rows row d.1 h.1)

prune_bound :
    (job : String) (rows : List ResultRow)
    → Distinct rows
    → length (keep_if (λ r. str_eq r.job_id job) (prune job rows)) ≤ results_cap
unfolding prune newest
prune_bound job rows d =
    let top : List ResultRow = newest job results_cap rows in
    let left : List ResultRow = prune job rows in
    let mine : List ResultRow = keep_if (λ r. str_eq r.job_id job) left in
    let both =
      All-both (λ r. str_eq r.job_id job ≡ true)
        (λ r. (not (str_eq r.job_id job) || has_id r.id top) ≡ true) mine
        (All-keep_if (λ r. str_eq r.job_id job) left)
        (All-kept (λ r. (not (str_eq r.job_id job) || has_id r.id top) ≡ true)
          (λ r. str_eq r.job_id job) left
          (All-keep_if (λ r. not (str_eq r.job_id job) || has_id r.id top) rows)) in
    let at_top = All-map {R = λ r. has_id r.id top ≡ true} (λ r q. ground arith) mine both in
    let short =
      few mine top
        (Distinct-kept (λ r. str_eq r.job_id job) left
          (Distinct-kept (λ r. not (str_eq r.job_id job) || has_id r.id top) rows d))
        at_top in
    omega (
      arith,
      short,
      length-take results_cap (sort_newest (keep_if (λ r. str_eq r.job_id job) rows)),
    )

-- Recording a result keeps the rows numbered, whatever the clock says, and leaves the job with at most
-- `results_cap` results.
pub record_result-IsNumbered :
    (job : String) (ts : Float) (fingerprint : Option String) (payload : String) (s : JobStore)
    → IsNumbered s
    → IsNumbered (record_result job ts fingerprint payload s)
      × (length (
            keep_if (λ r. str_eq r.job_id job) (record_result job ts fingerprint payload s).results)
          ≤ results_cap)
unfolding record_result prune
record_result-IsNumbered job ts fingerprint payload s v =
    let row : ResultRow = record {
      id = s.next_id;
      job_id = job;
      ts = ts;
      fingerprint = fingerprint;
      payload_json = payload;
    } in
    let rows : List ResultRow = s.results ++ (row ∷ []) in
    let d : Distinct rows = Distinct-append s.results row v.distinct v.below in
    let low : All (λ r. r.id < s.next_id + 1) rows =
      All-append (λ r. r.id < s.next_id + 1) s.results (row ∷ [])
        (All-map (λ r q. omega (arith, q)) s.results v.below) (omega arith, tt) in
    (
      record {
        distinct =
            Distinct-kept
              (λ r. not (str_eq r.job_id job) || has_id r.id (newest job results_cap rows)) rows d;
        below =
            All-kept (λ r. r.id < s.next_id + 1)
              (λ r. not (str_eq r.job_id job) || has_id r.id (newest job results_cap rows)) rows
              low;
      },
      prune_bound job rows d,
    )
