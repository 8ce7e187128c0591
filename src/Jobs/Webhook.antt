-- ===== src/Jobs/Webhook.antt =====
-- ujin/jobs/sinks.py: `WebhookSink`. The answers of the receiver are numbered in the order of the
-- requests; a body is a text, and the spool directory is the bodies of its files in the order of their
-- names. The waits between the tries and the failures of the disk are left out.
pub mod Kept
pub mod Backlog
use ujin.Prelude.{
  take, drop, ◌-◌, length, leb, ◌&&◌, [], ◌||◌, ltb, not, zero, ◌++◌, ◌==◌, ◌∷◌, Bool, List, String,
  if◌then◌else◌, suc, ◌+◌, ℕ,
}

-- the answer to a request: a status, or a connection error or timeout
pub data Answer : Type 0 where
  status : ℕ → Answer
  no_answer : Answer

-- what `_deliver` returns
pub data Delivery : Type 0 where
  delivered retriable permanent : Delivery

-- `max_files` is `spool_max_files`, where 0 stands for no limit. `next` numbers the next request, and
-- `received` is what the receiver has taken, the first first; `dropped` is what was given up.
pub record Webhook : Type 0 where
  pub retries : ℕ
  pub spool_enabled : Bool
  pub max_files : ℕ
  pub spool : List String
  pub next : ℕ
  pub received : List String
  pub dropped : List String

-- _RETRY_STATUSES
unfoldable pub is_retry_status : ℕ → Bool
is_retry_status s =
    s == 408 || (s == 425 || (s == 429 || (s == 500 || (s == 502 || (s == 503 || s == 504)))))

-- `_post_once`
unfoldable pub post_once : Answer → Delivery
unfolding is_retry_status
post_once no_answer = retriable
post_once (status s) =
    if ltb s 400 then delivered else if is_retry_status s then retriable else permanent

-- the tries of `_deliver`: how many there were, and what came of them
unfoldable pub tries : (ℕ → Answer) → ℕ → ℕ → ℕ × Delivery
unfolding post_once
tries net zero at = (at, retriable)
tries net (suc left) at = elim (post_once (net at)) [
  | delivered ↦ (at + 1, delivered)
  | permanent ↦ (at + 1, permanent)
  | retriable ↦ tries net left (at + 1)
]

unfoldable pub deliver : (ℕ → Answer) → Webhook → ℕ × Delivery
unfolding tries
deliver net w = tries net (w.retries + 1) w.next

-- what a delivery of a body leaves, beside the spool
unfoldable pub taken : String → ℕ × Delivery → Webhook → Webhook
taken body (at, delivered) w = record w { next = at; received = w.received ++ (body ∷ []) }
taken body (at, permanent) w = record w { next = at; dropped = w.dropped ++ (body ∷ []) }
taken body (at, retriable) w = record w { next = at }

unfoldable pub drain_next : Delivery → Webhook → Webhook → Webhook
drain_next delivered stays goes_on = goes_on
drain_next permanent stays goes_on = goes_on
drain_next retriable stays goes_on = stays

-- `_drain_spool` over the files that it found: a file goes once it was delivered or refused for good,
-- and the first that is neither stays with those behind it
unfoldable pub drain_files : (ℕ → Answer) → List String → Webhook → Webhook
unfolding deliver taken drain_next
drain_files net [] w = record w { spool = [] }
drain_files net (body ∷ files) w =
    let tried : Webhook = taken body (deliver net w) w in
    let goes_on : Webhook = drain_files net files tried in
    drain_next (deliver net w).1 (record tried { spool = body ∷ files }) goes_on

unfoldable pub drain_spool : (ℕ → Answer) → Webhook → Webhook
unfolding drain_files
drain_spool net w = drain_files net w.spool w

-- the oldest files go until there is room for one
unfoldable pub make_room : Webhook → Webhook
make_room w =
    let over : ℕ = length w.spool - w.max_files + 1 in
    if ltb 0 w.max_files && leb w.max_files (length w.spool)
    then record w { spool = drop over w.spool; dropped = w.dropped ++ take over w.spool }
    else w

-- `_spool`
unfoldable pub spool_body : String → Webhook → Webhook
unfolding make_room
spool_body body w =
    let roomy : Webhook = make_room w in
    if w.spool_enabled
    then record roomy { spool = roomy.spool ++ (body ∷ []) }
    else record w { dropped = w.dropped ++ (body ∷ []) }

unless_taken : String → Delivery → Webhook → Webhook
unfolding spool_body
unless_taken body delivered w = w
unless_taken body permanent w = w
unless_taken body retriable w = spool_body body w

-- `emit`
unfoldable pub emit : (ℕ → Answer) → String → Webhook → Webhook
unfolding drain_spool deliver taken unless_taken
emit net body w =
    let drained : Webhook = drain_spool net w in
    unless_taken body (deliver net drained).1 (taken body (deliver net drained) drained)
