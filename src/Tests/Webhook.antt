-- ===== src/Tests/Webhook.antt =====
-- A webhook whose receiver fails for a while.
use ujin.Prelude.{refl, [], arith, ◌+◌, ◌∷◌, ◌≤◌, length, true, ◌≡◌, ℕ}
use ujin.Jobs.Webhook.{Answer, status, no_answer, Webhook, emit, post_once}
use ujin.Jobs.Webhook.Kept.{total, one_if, emit-count}
use ujin.Jobs.Webhook.Backlog.{emit-flush, emit-fits}

abbrev hook : Webhook
hook = record {
  retries = 1;
  spool_enabled = true;
  max_files = 2;
  spool = "a" ∷ "b" ∷ [];
  next = 0;
  received = [];
  dropped = [];
}

abbrev down : ℕ → Answer
down n = no_answer

abbrev up : ℕ → Answer
up n = status 204

emit-count_example : total "c" (emit down "c" hook) ≡ total "c" hook + one_if "c" "c"
emit-count_example = emit-count down "c" "c" hook

emit-flush_example :
    ((emit up "c" hook).received ≡ "a" ∷ "b" ∷ "c" ∷ [])
    × ((emit up "c" hook).spool ≡ [])
    × ((emit up "c" hook).dropped ≡ [])
unfolding post_once
emit-flush_example = emit-flush up "c" hook (λ n. refl)

emit-fits_example : length (emit down "c" hook).spool ≤ 2
emit-fits_example = emit-fits down "c" hook (omega arith) (omega arith)
