-- ===== src/Api/Batch.antt =====
-- internal/api/batch.go: the handler of batches.
use notifier.Base.{String, ℕ, List, [], ◌∷◌, map, Option, ltb, ◌==◌, if◌then◌else◌, length}
use mathlib.Core.Option
use notifier.Domain.Errors.{decimal, texts, Result, ok, err}
use notifier.Template.{Engine}
use notifier.World.{World}
use notifier.Publisher.{Context}
use notifier.Service.Create.{Service}
use notifier.Service.Batch as Batch
use notifier.Service.Batch.{
  BatchItemStatus, accepted, rejected, duplicate, BatchItemResult, BatchResult,
}
use notifier.Api.Respond.{
  FieldErrorResponse, field_response, Response, write_json_response, write_error_response,
}
use notifier.Api.Notifications.{
  CreateNotificationRequest, to_create_input, NotificationResponse, to_notification_response,
  Decoded, too_large, malformed, decoded, malformed_body, body_too_large, write_service_error,
}

pub record BatchItemResponse : Type 0 where
  pub index : ℕ
  pub status : String
  pub notification : Option NotificationResponse
  pub existing_id : Option ℕ
  pub errors : List FieldErrorResponse

pub record BatchResponse : Type 0 where
  pub batch_id : ℕ
  pub accepted : ℕ
  pub rejected : ℕ
  pub results : List BatchItemResponse

abbrev item_status_text : BatchItemStatus → String
item_status_text accepted = "accepted"
item_status_text rejected = "rejected"
item_status_text duplicate = "duplicate"

module _ (quote : String → String) where
  unfoldable pub to_item_response : BatchItemResult → BatchItemResponse
  to_item_response r = record {
    index = r.index;
    status = item_status_text r.status;
    notification = Option.map to_notification_response r.notification;
    existing_id = r.existing_id;
    errors = map (field_response quote) r.errors;
  }

  -- `toBatchResponse`
  unfoldable pub to_batch_response : BatchResult → BatchResponse
  unfolding to_item_response
  to_batch_response r = record {
    batch_id = r.batch_id;
    accepted = r.accepted_count;
    rejected = r.rejected_count;
    results = map to_item_response r.results;
  }

  abbrev batch_created : Result BatchResult → Response BatchResponse
  batch_created (err e) = write_service_error quote e
  batch_created (ok r) = write_json_response 201 (to_batch_response r)

  module _ (engine : Engine) (s : Service) (ctx : Context) (max_batch_size : ℕ) where
    unfoldable pub create_sized :
        List CreateNotificationRequest → World → Response BatchResponse × World
    create_sized ps w =
        let (r, v) = Batch.create_batch engine quote s ctx (map to_create_input ps) w in
        (batch_created r, v)

    unfoldable pub create_decoded :
        List CreateNotificationRequest → World → Response BatchResponse × World
    create_decoded ps w =
        if length ps == 0
        then (write_error_response quote 400 "notifications must not be empty" [], w)
        else if ltb max_batch_size (length ps)
        then (
          write_error_response quote 400
              (texts ("batch exceeds " ∷ decimal max_batch_size ∷ " notifications" ∷ [])) [],
          w,
        )
        else create_sized ps w

    -- `createBatch`
    unfoldable pub create_batch :
        Decoded (List CreateNotificationRequest) → World → Response BatchResponse × World
    create_batch (too_large limit) w = (body_too_large quote limit, w)
    create_batch malformed w = (malformed_body quote, w)
    create_batch (decoded ps) w = create_decoded ps w
