-- ===== src/Jobs/Webhook/Kept.antt =====
-- No event is lost silently, and a receiver that is back gets the backlog.
use ujin.Prelude.{
  take-append-drop, ap, take, drop, leb, ◌&&◌, ltb, ◌-◌, if_both, length, refl, [], inr, arith, inl,
  str_eq, ◌++◌, ◌∷◌, List, if◌then◌else◌, ◌+◌, ◌≢◌, ◌⊎◌, String, ◌≡◌, ℕ,
}
use ujin.Jobs.Webhook.{
  Answer, Delivery, delivered, retriable, permanent, Webhook, deliver, taken, drain_next,
  drain_files, drain_spool, make_room, spool_body, unless_taken, emit,
}

-- how often a body is in a list
abbrev pub one_if : String → String → ℕ
one_if x y = if str_eq y x then 1 else 0

unfoldable pub count : String → List String → ℕ
count x [] = 0
count x (y ∷ ys) = one_if x y + count x ys

-- how often a body has been received, given up or kept for later
unfoldable pub total : String → Webhook → ℕ
total x w = count x w.received + count x w.dropped + count x w.spool

count-append : (x : String) (ys zs : List String) → count x (ys ++ zs) ≡ count x ys + count x zs
unfolding count
count-append x [] zs = omega arith
count-append x (y ∷ ys) zs = omega (arith, count-append x ys zs)

Delivery-cases : (d : Delivery) → (d ≡ delivered) ⊎ ((d ≡ permanent) ⊎ (d ≡ retriable))
Delivery-cases delivered = inl refl
Delivery-cases permanent = inr (inl refl)
Delivery-cases retriable = inr (inr refl)

-- what a delivery adds to what was received or given up
taken_count :
    (x body : String) (r : ℕ × Delivery) (w : Webhook)
    → ((r.1 ≢ retriable
          → count x (taken body r w).received + count x (taken body r w).dropped
            ≡ count x w.received + count x w.dropped + one_if x body)
        × (r.1 ≡ retriable
            → count x (taken body r w).received + count x (taken body r w).dropped
              ≡ count x w.received + count x w.dropped))
      × ((taken body r w).spool ≡ w.spool)
unfolding taken count
taken_count x body (at, delivered) w =
    ((λ h. omega (arith, count-append x w.received (body ∷ [])), λ h. cc), refl)
taken_count x body (at, permanent) w =
    ((λ h. omega (arith, count-append x w.dropped (body ∷ [])), λ h. cc), refl)
taken_count x body (at, retriable) w = ((λ h. absurd (h refl), λ h. omega arith), refl)

pub drain_both {κ} :
    (P : Webhook → Type κ) (d : Delivery) (stays goes_on : Webhook)
    → (d ≢ retriable → P goes_on)
    → (d ≡ retriable → P stays)
    → P (drain_next d stays goes_on)
unfolding drain_next
drain_both P delivered stays goes_on p q = p (λ e. cc)
drain_both P permanent stays goes_on p q = p (λ e. cc)
drain_both P retriable stays goes_on p q = q refl

drain_count :
    (net : ℕ → Answer) (x : String) (files : List String) (w : Webhook)
    → total x (drain_files net files w) ≡ count x w.received + count x w.dropped + count x files
unfolding drain_files total count
drain_count net x [] w = refl
drain_count net x (body ∷ files) w =
    let tried : Webhook = taken body (deliver net w) w in
    let known = taken_count x body (deliver net w) w in
    let later = drain_count net x files tried in
    drain_both (λ v. total x v ≡ count x w.received + count x w.dropped + count x (body ∷ files))
      (deliver net w).1 (record tried { spool = body ∷ files }) (drain_files net files tried)
      (λ took. omega (arith, later, known.0.0 took)) (λ failed. omega (arith, known.0.1 failed))

room_count : (x : String) (w : Webhook) → total x (make_room w) ≡ total x w
unfolding make_room total
room_count x w =
    let over : ℕ = length w.spool - w.max_files + 1 in
    if_both (λ (v : Webhook). total x v ≡ total x w)
      (ltb 0 w.max_files && leb w.max_files (length w.spool))
      (record w { spool = drop over w.spool; dropped = w.dropped ++ take over w.spool }) w
      (omega (
        arith,
        count-append x w.dropped (take over w.spool),
        count-append x (take over w.spool) (drop over w.spool),
        ap (count x) (take-append-drop over w.spool),
      ))
      refl

spool_count :
    (x body : String) (w : Webhook) → total x (spool_body body w) ≡ total x w + one_if x body
unfolding spool_body total count
spool_count x body w =
    let roomy : Webhook = make_room w in
    if_both (λ (v : Webhook). total x v ≡ total x w + one_if x body) w.spool_enabled
      (record roomy { spool = roomy.spool ++ (body ∷ []) })
      (record w { dropped = w.dropped ++ (body ∷ []) })
      (omega (arith, count-append x roomy.spool (body ∷ []), room_count x w))
      (omega (arith, count-append x w.dropped (body ∷ [])))

emit_count :
    (x body : String) (r : ℕ × Delivery) (w : Webhook)
    → total x (unless_taken body r.1 (taken body r w)) ≡ total x w + one_if x body
unfolding unless_taken taken total count
emit_count x body (at, delivered) w = omega (arith, count-append x w.received (body ∷ []))
emit_count x body (at, permanent) w = omega (arith, count-append x w.dropped (body ∷ []))
emit_count x body (at, retriable) w = spool_count x body (record w { next = at })

-- Whatever the receiver answers, an event that is emitted is afterwards received, given up or spooled,
-- once more often than before, and every other event as often as before: an event leaves the spool only
-- to be received or given up.
pub emit-count :
    (net : ℕ → Answer) (x body : String) (w : Webhook)
    → total x (emit net body w) ≡ total x w + one_if x body
unfolding emit drain_spool
emit-count net x body w =
    let drained : Webhook = drain_files net w.spool w in
    let kept : total x drained ≡ total x w = unfold total in drain_count net x w.spool w in
    omega (arith, emit_count x body (deliver net drained) drained, kept)
