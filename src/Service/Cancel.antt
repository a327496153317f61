-- ===== src/Service/Cancel.antt =====
-- internal/service/notification.go: cancelling and reading one notification.
use notifier.Base.{ℕ, ◌||◌, none, some, if◌then◌else◌}
use notifier.Domain.Status.{cancelled, cancellable_statuses}
use notifier.Domain.Errors.{is_not_found, is_invalid_transition, wrapped, Result, ok, err}
use notifier.Domain.Notification.{Notification}
use notifier.World.{World}
use notifier.Storage.Repository.{Outcome, update_status, get_by_id}
use notifier.Service.Create.{emit_event}

unfoldable pub after_load : Result Notification → World → Result Notification × World
after_load (err e) w = (err (wrapped "load cancelled notification" e), w)
after_load (ok n) w = (ok n, emit_event n cancelled w)

unfoldable pub after_cancelled : ℕ → Outcome → World → Result Notification × World
after_cancelled id (some e) w = (
  err (if is_not_found e || is_invalid_transition e then e else wrapped "cancel notification" e),
  w,
)
after_cancelled id none w = let (r, v) = get_by_id id w in after_load r v

-- `Cancel`
unfoldable pub cancel : ℕ → World → Result Notification × World
cancel id w =
    let (e, v) = update_status id cancelled cancellable_statuses w in after_cancelled id e v

abbrev got : Result Notification → Result Notification
got (ok n) = ok n
got (err e) = err (wrapped "get notification" e)

-- `Get`
unfoldable pub get : ℕ → World → Result Notification × World
get id w = let (r, v) = get_by_id id w in (got r, v)
