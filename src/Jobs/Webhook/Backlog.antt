-- ===== src/Jobs/Webhook/Backlog.antt =====
-- The backlog of a webhook: its order, its size, and when it goes.
use ujin.Prelude.{
  inr, leb→le, length-drop, true, ltb, ◌-◌, inl, leb, Bool-cases, length-append, if_both, ◌<◌, ap,
  sym, [], arith, ◌∙◌, ◌≤◌, length, refl, suc, ◌++◌, ◌+◌, ◌∷◌, List, String, ◌≡◌, ℕ,
}
use mathlib.Core.Path.{subst}
use mathlib.Core.List.{append_assoc, append-nil}
use ujin.Jobs.Webhook.Kept.{drain_both}
use ujin.Jobs.Webhook.{
  Answer, Delivery, delivered, retriable, permanent, Webhook, post_once, tries, deliver, taken,
  drain_next, drain_files, drain_spool, make_room, spool_body, unless_taken, emit,
}

-- the receiver is there: it takes every request
abbrev pub Accepts : (ℕ → Answer) → Type 0
Accepts net = (n : ℕ) → post_once (net n) ≡ delivered

first_try :
    (net : ℕ → Answer) (left at : ℕ)
    → post_once (net at) ≡ delivered
    → (tries net (suc left) at).1 ≡ delivered
unfolding tries
first_try net left at h = rw (h, tries) refl

accepted : (net : ℕ → Answer) (w : Webhook) → Accepts net → (deliver net w).1 ≡ delivered
unfolding deliver
accepted net w h =
    let more : w.retries + 1 ≡ suc w.retries = omega arith in
    rw more (first_try net w.retries w.next (h w.next))

-- a delivery that was taken
taken_lem :
    (body : String) (r : ℕ × Delivery) (w : Webhook)
    → r.1 ≡ delivered
    → ((taken body r w).received ≡ w.received ++ (body ∷ []))
      × ((taken body r w).spool ≡ w.spool)
      × ((taken body r w).dropped ≡ w.dropped)
unfolding taken
taken_lem body (at, delivered) w h = (refl, refl, refl)
taken_lem body (at, permanent) w h = cc
taken_lem body (at, retriable) w h = cc

next_lem :
    (d : Delivery) (stays goes_on : Webhook) → d ≡ delivered → drain_next d stays goes_on ≡ goes_on
unfolding drain_next
next_lem d stays goes_on e = rw e refl

next_stays :
    (d : Delivery) (stays goes_on : Webhook) → d ≡ retriable → drain_next d stays goes_on ≡ stays
unfolding drain_next
next_stays d stays goes_on e = rw e refl

flush_files :
    (net : ℕ → Answer) (files : List String) (w : Webhook)
    → Accepts net
    → ((drain_files net files w).received ≡ w.received ++ files)
      × ((drain_files net files w).spool ≡ [])
      × ((drain_files net files w).dropped ≡ w.dropped)
unfolding drain_files
flush_files net [] w h = (sym (append-nil w.received), refl, refl)
flush_files net (body ∷ files) w h =
    let tried : Webhook = taken body (deliver net w) w in
    let took : (deliver net w).1 ≡ delivered = accepted net w h in
    let now = taken_lem body (deliver net w) w took in
    let later = flush_files net files tried h in
    let step =
      next_lem (deliver net w).1 (record tried { spool = body ∷ files })
        (drain_files net files tried) took in
    (
      ap (λ v. v.received) step
          ∙ later.0
          ∙ ap (λ l. l ++ files) now.0
          ∙ append_assoc w.received (body ∷ []) files,
      ap (λ v. v.spool) step ∙ later.1,
      ap (λ v. v.dropped) step ∙ later.2 ∙ now.2,
    )

unless_lem :
    (body : String) (d : Delivery) (w : Webhook) → d ≡ delivered → unless_taken body d w ≡ w
unfolding unless_taken
unless_lem body d w e = rw e refl

-- Where the receiver is back and takes every request, an event that is emitted is received after the
-- whole backlog, which is received in the order in which it was spooled; the spool is then empty, and
-- nothing more is given up.
pub emit-flush :
    (net : ℕ → Answer) (body : String) (w : Webhook)
    → Accepts net
    → ((emit net body w).received ≡ w.received ++ (w.spool ++ (body ∷ [])))
      × ((emit net body w).spool ≡ [])
      × ((emit net body w).dropped ≡ w.dropped)
unfolding emit drain_spool
emit-flush net body w h =
    let drained : Webhook = drain_files net w.spool w in
    let known = flush_files net w.spool w h in
    let took : (deliver net drained).1 ≡ delivered = accepted net drained h in
    let now = taken_lem body (deliver net drained) drained took in
    let same =
      unless_lem body (deliver net drained).1 (taken body (deliver net drained) drained) took in
    (
      ap (λ v. v.received) same
          ∙ now.0
          ∙ ap (λ l. l ++ (body ∷ [])) known.0
          ∙ append_assoc w.received w.spool (body ∷ []),
      ap (λ v. v.spool) same ∙ now.1 ∙ known.1,
      ap (λ v. v.dropped) same ∙ now.2 ∙ known.2,
    )

retry_lem :
    (body : String) (r : ℕ × Delivery) (w : Webhook)
    → r.1 ≡ retriable
    → taken body r w ≡ record w { next = r.0 }
unfolding taken
retry_lem body (at, delivered) w h = cc
retry_lem body (at, permanent) w h = cc
retry_lem body (at, retriable) w h = refl

stay_lem :
    (net : ℕ → Answer) (oldest : String) (files : List String) (w : Webhook)
    → (deliver net w).1 ≡ retriable
    → drain_files net (oldest ∷ files) w
      ≡ record w { next = (deliver net w).0; spool = oldest ∷ files }
unfolding drain_files
stay_lem net oldest files w failed =
    next_stays (deliver net w).1 _ _ failed
    ∙ ap (λ (v : Webhook). record v { spool = oldest ∷ files })
        (retry_lem oldest (deliver net w) w failed)

took_lem :
    (net : ℕ → Answer) (left at : ℕ)
    → post_once (net at) ≡ delivered
    → (tries net (left + 1) at).1 ≡ delivered
took_lem net left at h =
    let more : left + 1 ≡ suc left = omega arith in rw more (first_try net left at h)

-- Where the tries for the oldest spooled event fail, and the receiver then takes the next request, an
-- event that is emitted is received before the whole backlog, which stays spooled.
pub emit-overtakes :
    (net : ℕ → Answer) (body oldest : String) (files : List String) (w : Webhook)
    → w.spool ≡ oldest ∷ files
    → (deliver net w).1 ≡ retriable
    → post_once (net (deliver net w).0) ≡ delivered
    → ((emit net body w).received ≡ w.received ++ (body ∷ []))
      × ((emit net body w).spool ≡ oldest ∷ files)
unfolding emit drain_spool
emit-overtakes net body oldest files w there failed back =
    let w' : Webhook = record w { next = (deliver net w).0; spool = oldest ∷ files } in
    let stays : drain_files net w.spool w ≡ w' =
      ap (λ fs. drain_files net fs w) there ∙ stay_lem net oldest files w failed in
    let took : (deliver net w').1 ≡ delivered =
      unfold deliver in took_lem net w.retries (deliver net w).0 back in
    let now = taken_lem body (deliver net w') w' took in
    let same = unless_lem body (deliver net w').1 (taken body (deliver net w') w') took in
    subst
      (λ v.
        ((unless_taken body (deliver net v).1 (taken body (deliver net v) v)).received
          ≡ w.received ++ (body ∷ []))
        × ((unless_taken body (deliver net v).1 (taken body (deliver net v) v)).spool
            ≡ oldest ∷ files))
      (sym stays) (ap (λ v. v.received) same ∙ now.0, ap (λ v. v.spool) same ∙ now.1)

drain_fits :
    (net : ℕ → Answer) (files : List String) (w : Webhook)
    → length (drain_files net files w).spool ≤ length files
unfolding drain_files
drain_fits net [] w = omega arith
drain_fits net (body ∷ files) w =
    let tried : Webhook = taken body (deliver net w) w in
    drain_both (λ v. length v.spool ≤ suc (length files)) (deliver net w).1
      (record tried { spool = body ∷ files }) (drain_files net files tried)
      (λ took. omega (arith, drain_fits net files tried)) (λ failed. omega arith)

taken_same :
    (body : String) (r : ℕ × Delivery) (w : Webhook)
    → ((taken body r w).max_files ≡ w.max_files) × ((taken body r w).spool ≡ w.spool)
unfolding taken
taken_same body (at, delivered) w = (refl, refl)
taken_same body (at, permanent) w = (refl, refl)
taken_same body (at, retriable) w = (refl, refl)

drain_same :
    (net : ℕ → Answer) (files : List String) (w : Webhook)
    → (drain_files net files w).max_files ≡ w.max_files
unfolding drain_files
drain_same net [] w = refl
drain_same net (body ∷ files) w =
    let tried : Webhook = taken body (deliver net w) w in
    let kept = (taken_same body (deliver net w) w).0 in
    drain_both (λ v. v.max_files ≡ w.max_files) (deliver net w).1
      (record tried { spool = body ∷ files }) (drain_files net files tried)
      (λ took. drain_same net files tried ∙ kept) (λ failed. kept)

room_lem : (w : Webhook) → 1 ≤ w.max_files → length (make_room w).spool < w.max_files
unfolding make_room
room_lem w one = elim (Bool-cases (leb w.max_files (length w.spool))) [
  | inl full ↦
      let over : ℕ = length w.spool - w.max_files + 1 in
      let limited : ltb 0 w.max_files ≡ true = ground arith in
      rw (full, limited, make_room)
        (omega (arith, length-drop over w.spool, leb→le w.max_files (length w.spool) full))
  | inr free ↦
      let limited : ltb 0 w.max_files ≡ true = ground arith in
      rw (free, limited, make_room) (ground arith)
]

spool_fits :
    (body : String) (w : Webhook)
    → 1 ≤ w.max_files
    → length w.spool ≤ w.max_files
    → length (spool_body body w).spool ≤ w.max_files
unfolding spool_body
spool_fits body w one fits =
    let roomy : Webhook = make_room w in
    if_both (λ (v : Webhook). length v.spool ≤ w.max_files) w.spool_enabled
      (record roomy { spool = roomy.spool ++ (body ∷ []) })
      (record w { dropped = w.dropped ++ (body ∷ []) })
      (omega (arith, length-append roomy.spool (body ∷ []), room_lem w one)) fits

end_fits :
    (body : String) (d : Delivery) (w : Webhook)
    → 1 ≤ w.max_files
    → length w.spool ≤ w.max_files
    → length (unless_taken body d w).spool ≤ w.max_files
unfolding unless_taken
end_fits body delivered w one fits = fits
end_fits body permanent w one fits = fits
end_fits body retriable w one fits = spool_fits body w one fits

-- A limited spool that is within its limit stays within it, whatever the receiver answers.
pub emit-fits :
    (net : ℕ → Answer) (body : String) (w : Webhook)
    → 1 ≤ w.max_files
    → length w.spool ≤ w.max_files
    → length (emit net body w).spool ≤ w.max_files
unfolding emit drain_spool
emit-fits net body w one fits =
    let drained : Webhook = drain_files net w.spool w in
    let r : ℕ × Delivery = deliver net drained in
    let limit : (taken body r drained).max_files ≡ w.max_files =
      (taken_same body r drained).0 ∙ drain_same net w.spool w in
    let within : length (taken body r drained).spool ≤ w.max_files = omega (
      arith,
      ap (length {A = String}) (taken_same body r drained).1,
      drain_fits net w.spool w,
      fits,
    ) in
    omega (
      arith,
      limit,
      end_fits body r.1 (taken body r drained) (omega (arith, limit, one))
          (omega (arith, limit, within)),
    )
