-- ===== src/Service/Create.antt =====
-- internal/service/notification.go: creating one notification and handing it to the queue. The
-- settings of a service say whether it has a repository of templates and counters.
use notifier.Base.{
  String, ℕ, ◌+◌, Bool, true, false, [], ◌∷◌, ◌++◌, Option, none, some, if◌then◌else◌, str_eq,
}
use notifier.Domain.Status.{
  Status, pending, scheduled, queued, Priority, normal, other_priority, status_text, channel_text,
  priority_text,
}
use notifier.Domain.Errors.{Error, is_duplicate_key, wrapped, Result, ok, err}
use notifier.Domain.Notification.{Notification}
use notifier.Domain.Validate.{validate_new}
use notifier.Template.{Engine}
use notifier.World.{World, created}
use notifier.Storage.Repository.{
  Outcome, create as insert_row, get_by_idempotency_key, update_status,
}
use notifier.Publisher.{Context, publish_created, publish_event}
use notifier.Service.Resolve.{CreateInput, new_resolver, resolve_content}

pub record Service : Type 0 where
  pub has_templates : Bool
  pub has_metrics : Bool

unfoldable pub record_created : Service → Notification → World → World
record_created s n w =
    if s.has_metrics
    then record w {
      metrics = w.metrics ++ created (channel_text n.channel) (priority_text n.priority) ∷ [];
    }
    else w

-- `emitEvent`: a failure is only logged.
unfoldable pub emit_event : Notification → Status → World → World
emit_event n status w =
    (publish_event
      (record {
        notification_id = n.id;
        status = status_text status;
        channel = channel_text n.channel;
        attempts = n.attempts;
        last_error = "";
        provider_message_id = "";
        provider_status_code = 0;
        provider_response = "";
        occurred_at = w.now;
      })
      w).1

-- `Priority == ""` takes the default.
abbrev pub default_priority : Priority → Priority
default_priority (other_priority s) = if str_eq s "" then normal else other_priority s
default_priority p = p

abbrev pub initial_status : Option ℕ → Status
initial_status none = pending
initial_status (some t) = scheduled

-- `newNotification`, with the identifier that `uuid.New` gave.
unfoldable pub new_notification : ℕ → CreateInput → String → ℕ → Option ℕ → Notification
new_notification id input content now batch = record {
  id = id;
  batch_id = batch;
  recipient = input.recipient;
  channel = input.channel;
  content = content;
  priority = default_priority input.priority;
  status = initial_status input.scheduled_at;
  idempotency_key = input.idempotency_key;
  scheduled_at = input.scheduled_at;
  attempts = 0;
  last_error = none;
  provider_message_id = none;
  created_at = now;
  updated_at = now;
  sent_at = none;
}

abbrev pub minted : World → World
minted w = record w { next_id = w.next_id + 1 }

unfoldable pub after_queued : Notification → Outcome → World → Notification × World
after_queued n (some e) w = (n, w)
after_queued n none w = let q = record n { status = queued } in (q, emit_event q queued w)

unfoldable pub after_publish : Notification → Outcome → World → Notification × World
after_publish n (some e) w = (n, w)
after_publish n none w =
    let (e, v) = update_status n.id queued (pending ∷ []) w in after_queued n e v

-- `publishForDelivery`
unfoldable pub publish_for_delivery : Context → Notification → World → Notification × World
publish_for_delivery ctx n w = let (e, v) = publish_created ctx n w in after_publish n e v

pub record CreateResult : Type 0 where
  pub notification : Notification
  pub replayed : Bool

abbrev replay_result : Result Notification → Result CreateResult
replay_result (ok n) = ok (record { notification = n; replayed = true })
replay_result (err e) = err (wrapped "replay idempotent create" e)

-- Only an immediate notification is published.
unfoldable pub hand_over : Context → Notification → Status → World → Notification × World
hand_over ctx n pending w = publish_for_delivery ctx n w
hand_over ctx n _ w = (n, w)

-- A violated key with no key given is an error like any other.
unfoldable pub replay : Error → Option String → World → Result CreateResult × World
replay e none w = (err (wrapped "create notification" e), w)
replay e (some k) w =
    if is_duplicate_key e
    then (let (r, v) = get_by_idempotency_key k w in (replay_result r, v))
    else (err (wrapped "create notification" e), w)

unfoldable pub after_insert :
    Service → Context → Notification → Outcome → World → Result CreateResult × World
after_insert s ctx n (some e) w = replay e n.idempotency_key w
after_insert s ctx n none w =
    let (m, v) = hand_over ctx n n.status (record_created s n w) in
    (ok (record { notification = m; replayed = false }), v)

unfoldable pub after_validate :
    Service → Context → Notification → Option Error → World → Result CreateResult × World
after_validate s ctx n (some e) w = (err e, w)
after_validate s ctx n none w = let (e, v) = insert_row n w in after_insert s ctx n e v

unfoldable pub after_resolve :
    Service → Context → CreateInput → ℕ → Result String → World → Result CreateResult × World
after_resolve s ctx input now (err e) w = (err e, w)
after_resolve s ctx input now (ok content) w =
    let n = new_notification w.next_id input content now none in
    after_validate s ctx n (validate_new n now) (minted w)

-- `Create`
unfoldable pub create :
    Engine
    → (String → String)
    → Service
    → Context
    → CreateInput
    → World
    → Result CreateResult × World
create engine quote s ctx input w =
    let (r, rs, v) =
      resolve_content engine quote s.has_templates input (new_resolver engine quote) w in
    after_resolve s ctx input w.now r v
