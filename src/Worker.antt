-- ===== src/Worker.antt =====
-- internal/worker/worker.go: one consumed message, from the claim to the recorded outcome.
pub mod Safe
pub mod Sends
pub mod Outcomes
pub mod Consume
pub mod Supervise
pub mod Senders
use notifier.Base.{
  String, ℕ, ◌+◌, ◌-◌, ◌≤◌, Bool, true, false, ◌&&◌, List, [], ◌∷◌, ◌++◌, Option, none, some, ltb,
  if◌then◌else◌,
}
use notifier.Domain.Status.{
  Channel, Status, processing, retrying, failed, sent, statuses_allowed_into, channel_text,
  status_text,
}
use notifier.Domain.Errors.{
  Error, external, wrapped, is_not_found, is_invalid_transition, Result, ok, err, decimal, texts,
  error_text,
}
use notifier.Domain.Notification.{Notification}
use notifier.Queue.Message.{StatusEvent}
use notifier.Delivery.{SendResult, Provider, is_retryable, rest}
use notifier.World.{World, Metric, attempted, delivered}
use notifier.Storage.Repository.{
  Outcome, claim_for_processing, mark_retrying, mark_failed, mark_as_sent,
}
use notifier.Publisher.{Context, publish_retry, publish_dead_letter, publish_event}

-- The interface `Sender`: it works on the provider's state, at a time, and takes time.
pub record Sender : Type 0 where
  pub send : Notification → ℕ → Provider → Result SendResult × Provider × ℕ
  pub send_later : (n : Notification) (now : ℕ) (p : Provider) → now ≤ (send n now p).2

-- What a worker is built with; `quote` is the verb `%q` of fmt.
pub record Settings : Type 0 where
  pub sender : Sender
  pub max_attempts : ℕ
  pub has_metrics : Bool
  pub quote : String → String

abbrev pub count_metric : Bool → Metric → World → World
count_metric true m w = record w { metrics = w.metrics ++ m ∷ [] }
count_metric false m w = w

unfoldable pub record_attempt : Settings → Channel → String → ℕ → World → World
record_attempt s c outcome duration w =
    count_metric s.has_metrics (attempted (channel_text c) outcome duration) w

unfoldable pub record_delivered : Settings → Channel → Status → World → World
record_delivered s c status w =
    count_metric s.has_metrics (delivered (channel_text c) (status_text status)) w

-- A failure to publish an event is only logged.
unfoldable pub emit_event : Notification → Status → String → World → World
emit_event n status last_error w =
    (publish_event
      (record {
        notification_id = n.id;
        status = status_text status;
        channel = channel_text n.channel;
        attempts = n.attempts;
        last_error = last_error;
        provider_message_id = "";
        provider_status_code = 0;
        provider_response = "";
        occurred_at = w.now;
      })
      w).1

unfoldable pub emit_sent_event : Notification → SendResult → World → World
emit_sent_event n r w =
    (publish_event
      (record {
        notification_id = n.id;
        status = status_text sent;
        channel = channel_text n.channel;
        attempts = n.attempts;
        last_error = "";
        provider_message_id = r.provider_message_id;
        provider_status_code = r.status_code;
        provider_response = r.body;
        occurred_at = w.now;
      })
      w).1

-- An error of a status write: a rejected move settles the message, any other is handed on.
abbrev pub settled_or : String → Error → Outcome
settled_or label e = if is_invalid_transition e then none else some (wrapped label e)

unfoldable pub after_publish_retry :
    Settings → Notification → Error → Outcome → World → Outcome × World
after_publish_retry s n cause (some e) w = (some (wrapped "publish retry" e), w)
after_publish_retry s n cause none w = (none, emit_event n retrying (error_text s.quote cause) w)

unfoldable pub after_mark_retrying :
    Settings → Context → Notification → Error → Outcome → World → Outcome × World
after_mark_retrying s ctx n cause (some e) w = (settled_or "mark retrying" e, w)
after_mark_retrying s ctx n cause none w =
    let (e, v) = publish_retry ctx n n.attempts w in after_publish_retry s n cause e v

-- `attempt %d/%d: %v`
abbrev pub failure_reason : Settings → Notification → Error → String
failure_reason s n cause = texts (
    "attempt "
    ∷ decimal n.attempts
    ∷ "/"
    ∷ decimal s.max_attempts
    ∷ ": "
    ∷ error_text s.quote cause
    ∷ [])

unfoldable pub after_mark_failed :
    Settings → Context → Notification → Error → Outcome → World → Outcome × World
after_mark_failed s ctx n cause (some e) w = (settled_or "mark failed" e, w)
after_mark_failed s ctx n cause none w =
    let v = record_delivered s n.channel failed w in
    let u = emit_event n failed (error_text s.quote cause) v in
    (none, (publish_dead_letter ctx n (failure_reason s n cause) u).1)

-- `handleSendFailure`
unfoldable pub handle_send_failure :
    Settings → Context → Notification → Error → World → Outcome × World
handle_send_failure s ctx n cause w =
    if is_retryable cause && ltb n.attempts s.max_attempts
    then (let (e, v) = mark_retrying n.id (error_text s.quote cause) w in
        after_mark_retrying s ctx n cause e v)
    else (let (e, v) = mark_failed n.id (error_text s.quote cause) w in
        after_mark_failed s ctx n cause e v)

unfoldable pub after_mark_sent :
    Settings → Notification → SendResult → Outcome → World → Outcome × World
after_mark_sent s n r (some e) w = (settled_or "mark sent" e, w)
after_mark_sent s n r none w = (none, emit_sent_event n r (record_delivered s n.channel sent w))

unfoldable pub after_send :
    Settings → Context → ℕ → Notification → ℕ → Result SendResult → World → Outcome × World
after_send s ctx id n duration (err e) w =
    handle_send_failure s ctx n e
      (record_attempt s n.channel (if is_retryable e then "retryable" else "permanent") duration w)
after_send s ctx id n duration (ok r) w =
    let v = record_attempt s n.channel "success" duration w in
    let (e, u) = mark_as_sent id r.provider_message_id v.now v in after_mark_sent s n r e u

-- The call of the sender: the only place where a notification leaves the service.
unfoldable pub call_send : Settings → Notification → World → Result SendResult × World
call_send s n w =
    let (r, p, t) = s.sender.send n w.now w.provider in
    (r, record w { provider = p; now = t; sends = w.sends ++ n ∷ [] })

unfoldable pub deliver : Settings → Context → ℕ → Notification → World → Outcome × World
deliver s ctx id n w = let (r, v) = call_send s n w in after_send s ctx id n (v.now - w.now) r v

-- `Wait` of the channel's limiter: whether it was granted.
abbrev next_wait : List (Option ℕ) → Option ℕ
next_wait [] = some 0
next_wait (x ∷ xs) = x

abbrev waited : Option ℕ → World → Bool × World
waited none w = (false, record w { waits = rest w.waits })
waited (some d) w = (true, record w { waits = rest w.waits; now = w.now + d })

unfoldable pub wait : World → Bool × World
wait w = waited (next_wait w.waits) w

unfoldable pub after_wait : Settings → Context → ℕ → Notification → Bool → World → Outcome × World
after_wait s ctx id n true w = deliver s ctx id n w
after_wait s ctx id n false w = (
  some (wrapped "rate limit wait" (external "context")),
  (mark_retrying n.id "delivery interrupted before send" w).1,
)

unfoldable pub after_claim : Settings → Context → ℕ → Result Notification → World → Outcome × World
after_claim s ctx id (err e) w = (
  if is_not_found e
      then none
      else if is_invalid_transition e
      then none
      else some (wrapped "claim notification" e),
  w,
)
after_claim s ctx id (ok n) w = let (granted, v) = wait w in after_wait s ctx id n granted v

-- `processNotification`: none means that the message is settled.
unfoldable pub process_notification : Settings → Context → ℕ → World → Outcome × World
process_notification s ctx id w =
    let (r, v) = claim_for_processing id (statuses_allowed_into processing) w in
    after_claim s ctx id r v
