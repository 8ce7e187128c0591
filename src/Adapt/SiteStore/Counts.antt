-- ===== src/Adapt/SiteStore/Counts.antt =====
-- What one transaction changes, and that the latency window stays bounded.
use ujin.Prelude.{
  Option, Option-cases, String, [], arith, eq_iff, inl, inr, length, length-drop, none, refl, some,
  ◌++◌, ◌+◌, ◌-◌, ◌∷◌, ◌≡◌, ◌≢◌, ◌≤◌,
}
use ujin.Prelude.Dict.{lookup-insert_self, lookup-insert, lookup}
use ujin.Float.{Float, FloatOps}
use ujin.Adapt.SiteStore.{
  SiteStore, Row, Observed, get, row_of, record_of, note_latency, observe_row, store_record,
  p50_window,
}

-- every stored window holds at most `p50_window` samples
pub record IsBounded (s : SiteStore) : Type 0 where
  pub at_host : (h : String) (r : Row) → lookup h s ≡ some r → length r.window ≤ p50_window

module _ ⦃F : FloatOps⦄ where
  note_latency_lem :
      (r : Row) (x : Option Float)
      → length r.window ≤ p50_window
      → length (note_latency r x).window ≤ p50_window
  unfolding note_latency
  note_latency_lem r none h = h
  note_latency_lem r (some x) h =
      rw (length-drop (length (r.window ++ x ∷ []) - p50_window) (r.window ++ x ∷ [])) (omega arith)

  note_latency_same :
      (r : Row) (x : Option Float)
      → ((note_latency r x).seen.error_count ≡ r.seen.error_count)
        × ((note_latency r x).seen.rate_limit_count ≡ r.seen.rate_limit_count)
        × ((note_latency r x).seen.last_status ≡ r.seen.last_status)
        × ((note_latency r x).seen.crawl_delay ≡ r.seen.crawl_delay)
  unfolding note_latency
  note_latency_same r none = (refl, refl, refl, refl)
  note_latency_same r (some x) = (refl, refl, refl, refl)

  row_of_record : (o : Option Row) → (row_of o).seen ≡ record_of o
  unfolding row_of record_of
  row_of_record none = refl
  row_of_record (some r) = refl

  row_bound :
      (s : SiteStore) (h : String) → IsBounded s → length (row_of (lookup h s)).window ≤ p50_window
  unfolding row_of
  row_bound s h v = elim (Option-cases (lookup h s)) [
    | inl gone ↦ rw gone (omega arith)
    | inr (r, there) ↦ rw there (v.at_host h r there)
  ]

  -- One transaction adds the errors and 429s that it was told of to the host's counts, stamps the
  -- clock, and leaves every other host as it was; the status and the crawl delay change only if they
  -- were given.
  pub get-store_record :
      (s : SiteStore) (h j : String) (o : Observed) (now : Float)
      → ((get (store_record s h o now) h).error_count ≡ (get s h).error_count + o.error)
        × ((get (store_record s h o now) h).rate_limit_count
            ≡ (get s h).rate_limit_count + o.rate_limited)
        × ((get (store_record s h o now) h).last_seen ≡ now)
        × (o.status ≡ none → (get (store_record s h o now) h).last_status ≡ (get s h).last_status)
        × (o.crawl_delay ≡ none
            → (get (store_record s h o now) h).crawl_delay ≡ (get s h).crawl_delay)
        × (h ≢ j → get (store_record s h o now) j ≡ get s j)
  unfolding get store_record
  get-store_record s h j o now =
      let r : Row = observe_row (row_of (lookup h s)) o now in
      let known = note_latency_same (row_of (lookup h s)) o.latency in
      unfold record_of observe_row in
      rw (lookup-insert_self h r s) (
        ground (arith, known, row_of_record (lookup h s)),
        ground (arith, known, row_of_record (lookup h s)),
        refl,
        λ e. ground (arith, known, row_of_record (lookup h s)),
        λ e. ground (arith, known, row_of_record (lookup h s)),
        λ ne. ground (arith, lookup-insert h j r s, eq_iff h j),
      )

  -- No transaction makes a stored latency window longer than its limit.
  pub store_record-IsBounded :
      (s : SiteStore) (h : String) (o : Observed) (now : Float)
      → IsBounded s
      → IsBounded (store_record s h o now)
  unfolding store_record
  store_record-IsBounded s h o now v = record {
    at_host = λ j r e. ground (
      arith,
      lookup-insert h j (observe_row (row_of (lookup h s)) o now) s,
      v.at_host j r,
      row_bound s h v,
      note_latency_lem (row_of (lookup h s)) o.latency,
    );
  }
