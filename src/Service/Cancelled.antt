-- ===== src/Service/Cancelled.antt =====
-- The outcomes of `Cancel` of internal/service/notification.go, when nothing fails and nobody
-- interferes.
use notifier.Base.{ℕ, ◌≡◌, refl, ◌⊎◌, inl, inr, true, false, none, Bool-cases}
use notifier.Domain.Status.{cancelled, cancellable_statuses, has_status}
use notifier.Domain.Errors.{
  ok, err, not_found, invalid_transition, is_not_found, is_invalid_transition,
}
use notifier.Domain.Notification.{Notification}
use notifier.World.{World}
use notifier.World.Quiet.{IsQuiet}
use notifier.Storage.Repository.{find_id}
use notifier.Storage.Repository.Find.{HasRow}
use notifier.Storage.Repository.Moves.{
  get_by_id-quiet, update_status-quiet, update_status-refused, update_status-missing,
}
use notifier.Publisher.Aside.{publish_event-IsBusStep}
use notifier.Worker.Outcomes.{HasRow-bus}
use notifier.Service.Create.{emit_event}
use notifier.Service.Cancel.{after_cancelled, after_load, cancel}

-- The row of a cancelled notification.
abbrev pub cancelled_row : Notification → ℕ → Notification
cancelled_row r now = record r { status = cancelled; updated_at = now }

after_cancelled-row :
    (id : ℕ) (r : Notification) (w : World)
    → HasRow id r w
    → ((after_cancelled id none w).0 ≡ ok r) × HasRow id r (after_cancelled id none w).1
unfolding after_cancelled after_load emit_event
after_cancelled-row id r w h =
    rw (get_by_id-quiet id r w h) (refl, HasRow-bus id r w _ (publish_event-IsBusStep _ w) h)

-- With no faults and no interference, cancelling a stored notification gives one of two outcomes: if
-- its status is cancellable, the row becomes cancelled and is returned as it now is; otherwise the
-- transition is reported as invalid and nothing at all changes.
pub cancel-outcome :
    (id : ℕ) (r : Notification) (w : World)
    → HasRow id r w
    → ((has_status r.status cancellable_statuses ≡ true)
        × ((cancel id w).0 ≡ ok (cancelled_row r w.now))
        × HasRow id (cancelled_row r w.now) (cancel id w).1)
      ⊎ ((has_status r.status cancellable_statuses ≡ false)
          × (cancel id w ≡ (err invalid_transition, w)))
unfolding cancel after_cancelled is_invalid_transition is_not_found
cancel-outcome id r w h = elim (Bool-cases (has_status r.status cancellable_statuses)) [
  | inl e ↦
      let (run, row) = update_status-quiet id cancelled cancellable_statuses w r h e in
      let (answer, kept) = after_cancelled-row id (cancelled_row r w.now) _ row in
      inl (e, rw run answer, rw run kept)
  | inr e ↦ inr (e, rw (update_status-refused id cancelled cancellable_statuses w r h e) refl)
]

-- With no faults and no interference, cancelling an identifier that is not stored reports that it is
-- not found, and nothing changes.
pub cancel-missing :
    (id : ℕ) (w : World) → IsQuiet w → find_id id w.table ≡ none → cancel id w ≡ (err not_found, w)
unfolding cancel after_cancelled is_invalid_transition is_not_found
cancel-missing id w q f = rw (update_status-missing id cancelled cancellable_statuses w q f) refl
