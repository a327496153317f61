-- ===== src/Scheduler.antt =====
-- internal/scheduler/scheduler.go: one poll of the scheduler. Its context carries no correlation ID.
pub mod Safe
use notifier.Base.{String, ℕ, List, [], ◌∷◌, Option, none, some}
use notifier.Domain.Status.{queued, channel_text, status_text}
use notifier.Domain.Errors.{Error, Result, ok, err}
use notifier.Domain.Notification.{Notification}
use notifier.World.{World}
use notifier.Storage.Table.{Table}
use notifier.Storage.Repository.{
  Outcome, claim_due_for_queue, recover_stale_processing, list_stale_queued, touch,
}
use notifier.Publisher.{Context, publish_created, publish_event}

abbrev pub claim_batch_limit : ℕ
claim_batch_limit = 100

abbrev pub no_context : Context
no_context = ""

-- The event of a claimed row, if its message was published.
abbrev announce : Notification → Outcome → World → World
announce n (some e) w = w
announce n none w =
    (publish_event
      (record {
        notification_id = n.id;
        status = status_text queued;
        channel = channel_text n.channel;
        attempts = n.attempts;
        last_error = "";
        provider_message_id = "";
        provider_status_code = 0;
        provider_response = "";
        occurred_at = w.now;
      })
      w).1

unfoldable pub publish_due : List Notification → World → World
publish_due [] w = w
publish_due (n ∷ ns) w =
    let (e, v) = publish_created no_context n w in publish_due ns (announce n e v)

unfoldable pub each_claimed : (List Notification → World → World) → Result Table → World → World
each_claimed f (err e) w = w
each_claimed f (ok ns) w = f ns w

-- `queueDue`; the locked rows are those that other schedulers hold.
unfoldable pub queue_due : ℕ → List ℕ → World → World
queue_due stale_after locked w =
    let (r, v) = claim_due_for_queue stale_after claim_batch_limit locked w in
    each_claimed publish_due r v

abbrev touch_published : Notification → Outcome → World → World
touch_published n (some e) w = w
touch_published n none w = (touch n.id w).1

unfoldable pub republish : List Notification → World → World
republish [] w = w
republish (n ∷ ns) w =
    let (e, v) = publish_created no_context n w in republish ns (touch_published n e v)

unfoldable pub republish_stale : ℕ → World → World
republish_stale stale_after w =
    let (r, v) = list_stale_queued stale_after claim_batch_limit w in each_claimed republish r v

unfoldable pub publish_recovered : List Notification → World → World
publish_recovered [] w = w
publish_recovered (n ∷ ns) w = publish_recovered ns (publish_created no_context n w).1

unfoldable pub recover_processing : ℕ → List ℕ → World → World
recover_processing stale_after locked w =
    let (r, v) = recover_stale_processing stale_after claim_batch_limit locked w in
    each_claimed publish_recovered r v

-- `RunOnce`
unfoldable pub run_once : ℕ → List ℕ → List ℕ → World → World
run_once stale_after locked_due locked_stuck w =
    recover_processing stale_after locked_stuck
      (republish_stale stale_after (queue_due stale_after locked_due w))
