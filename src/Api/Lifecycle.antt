-- ===== src/Api/Lifecycle.antt =====
-- The handlers of internal/api/notifications.go one after the other: what the status codes mean.
use notifier.Base.{String, ℕ, ◌≡◌, refl, ap, true, false, none, some, inl, inr, Option-cases}
use notifier.Domain.Status.{has_status, cancellable_statuses}
use notifier.Domain.Errors.{Result, is_invalid_transition, is_not_found, as_validation}
use notifier.Domain.Notification.{Notification}
use notifier.Domain.Validate.{validate_new}
use notifier.Template.{Engine}
use notifier.Storage.Table.{microsecond, microseconds, has_id, key_used}
use notifier.Storage.Table.Keys.{IsKeyed}
use notifier.Storage.Repository.{find_id}
use notifier.Storage.Repository.Find.{HasRow}
use notifier.Storage.Repository.Moves.{get_by_id-quiet}
use notifier.World.{World}
use notifier.World.Quiet.{IsQuiet}
use notifier.Publisher.{Context}
use notifier.Service.Create.{Service, CreateResult, new_notification}
use notifier.Service.Cancel as Cancel
use notifier.Service.Cancelled.{cancelled_row, cancel-outcome, cancel-missing}
use notifier.Service.Fresh.{kept, Answers, create-fresh}
use notifier.Api.Respond.{Response, json, status_code}
use notifier.Api.Query.{Parsers}
use notifier.Api.Notifications.{
  CreateNotificationRequest, to_create_input, NotificationResponse, to_notification_response,
  decoded, created_response, create, cancel, get_id, get, write_service_error,
}

-- The second answer shows what the first one showed, with the times in microseconds and the time of
-- the last change.
abbrev pub ShowsCreated :
    Response NotificationResponse × World → (World → Response NotificationResponse × World) → Type 0
ShowsCreated z later =
    (m : NotificationResponse) × (at : ℕ) × (z.0 ≡ json 201 m)
    × (later z.1 ≡ (
      json 200 (record m {
        scheduled_at = microseconds m.scheduled_at;
        created_at = microsecond m.created_at;
        updated_at = at;
      }),
      z.1,
    ))

module _ (quote : String → String) (parsers : Parsers) where
  get_id-found :
      (id : ℕ) (m : Notification) (w : World)
      → HasRow id m w
      → get_id quote (some id) w ≡ (json 200 (to_notification_response m), w)
  unfolding get_id Cancel.get
  get_id-found id m w h = rw (get_by_id-quiet id m w h) refl

  shown :
      (id : ℕ) (z : Result CreateResult × World)
      → Answers id z
      → ShowsCreated (created_response quote z.0, z.1) (get_id quote (some id))
  unfolding to_notification_response
  shown id z (m, e, (at, row)) = (
    to_notification_response m,
    at,
    ap (created_response quote) e,
    get_id-found id (kept m at) z.1 row,
  )

  -- With no faults in the database and no interference, whatever the broker answers: a decoded request
  -- that names no template and passes the checks, with an unused key and an unused identifier, is
  -- answered with 201, and a request for that identifier right after it with 200 and the same body, but
  -- for created_at and scheduled_at, which it has in microseconds, and updated_at.
  pub create-get :
      (engine : Engine) (s : Service) (ctx : Context) (p : CreateNotificationRequest) (id : String)
      (w : World)
      → IsQuiet w
      → IsKeyed w.table
      → p.template ≡ none
      → validate_new (new_notification w.next_id (to_create_input p) p.content w.now none) w.now
        ≡ none
      → has_id w.next_id w.table ≡ false
      → key_used p.idempotency_key w.table ≡ false
      → parsers.parse_uuid id ≡ some w.next_id
      → ShowsCreated (create quote engine s ctx (decoded p) w) (get quote parsers id)
  unfolding create get to_create_input
  create-get engine s ctx p id w q k t v i u e = rw e (
      shown w.next_id _
        (create-fresh engine quote s ctx (to_create_input p) w q k (rw t refl) v i u))

  -- The four answers to a cancellation.
  pub data CancelAnswer (id : String) (w : World) (z : Response NotificationResponse × World)
      : Type 0 where
    no_uuid : parsers.parse_uuid id ≡ none → status_code z.0 ≡ 400 → z.1 ≡ w → CancelAnswer id w z
    missing :
        (i : ℕ)
        → parsers.parse_uuid id ≡ some i
        → find_id i w.table ≡ none
        → status_code z.0 ≡ 404
        → z.1 ≡ w
        → CancelAnswer id w z
    refused :
        (i : ℕ) (r : Notification)
        → parsers.parse_uuid id ≡ some i
        → find_id i w.table ≡ some r
        → has_status r.status cancellable_statuses ≡ false
        → status_code z.0 ≡ 409
        → z.1 ≡ w
        → CancelAnswer id w z
    done :
        (i : ℕ) (r : Notification)
        → parsers.parse_uuid id ≡ some i
        → find_id i w.table ≡ some r
        → has_status r.status cancellable_statuses ≡ true
        → z.0 ≡ json 200 (to_notification_response (cancelled_row r w.now))
        → HasRow i (cancelled_row r w.now) z.1
        → CancelAnswer id w z

  -- With no faults and no interference, on a table with distinct identifiers, a cancellation is
  -- answered in one of four ways: 400 for a text that is no UUID, 404 for an identifier that is not
  -- stored, 409 for a row whose status is not cancellable, each with nothing changed; and 200 with the
  -- notification as cancelled, which the row then is, if its status is cancellable.
  pub cancel-answer :
      (id : String) (w : World)
      → IsQuiet w
      → IsKeyed w.table
      → CancelAnswer id w (cancel quote parsers id w)
  unfolding cancel write_service_error is_not_found is_invalid_transition as_validation
      notifier.Api.Respond.write_error_response
  cancel-answer id w q k = elim (Option-cases (parsers.parse_uuid id)) [
    | inl e ↦ no_uuid e (rw e refl) (rw e refl)
    | inr (i, e) ↦ elim (Option-cases (find_id i w.table)) [
      | inl f ↦
          let run = cancel-missing i w q f in
          missing i e f (rw e (rw run refl)) (rw e (rw run refl))
      | inr (r, f) ↦
          let row : HasRow i r w = record { quiet = q; keyed = k; found = f } in
          elim (cancel-outcome i r w row) [
            | inl (c, a, h) ↦ done i r e f c (rw e (rw a refl)) (rw e h)
            | inr (c, run) ↦ refused i r e f c (rw e (rw run refl)) (rw e (rw run refl))
          ]
    ]
  ]
