-- ===== src/Examples/OfService.antt =====
-- The laws of the service, at a world with three rows, with an engine that renders a body as it is.
use notifier.Base.{String, ◌+◌, ◌≡◌, true, refl, List, [], ◌∷◌, none, some, length}
use notifier.Domain.Errors.{err, not_found, invalid_transition, Result, ok, text}
use notifier.Template.{Engine}
use notifier.World.Safe.{Leads}
use notifier.Service.Create.{create, minted, new_notification}
use notifier.Service.Cancel.{cancel}
use notifier.Service.Safe.{create-Leads, cancel-Leads}
use notifier.World.{World}
use notifier.Storage.Repository.{find_id, find_key}
use notifier.Service.Replay.{create-replay}
use notifier.Domain.Notification.{Notification}
use notifier.Domain.Status.{has_status, cancellable_statuses, sent, queued, normal}
use notifier.Domain.Validate.{validate_new, field_error}
use notifier.Service.Resolve.{CreateInput}
use notifier.Service.Batch.{BatchResult, accepted_item, duplicate_item, rejected_item, create_batch}
use notifier.Service.Batch.Tally.{count_accepted, create_batch-IsComplete}
use notifier.Service.Batch.Safe.{create_batch-Leads}
use notifier.Examples.Data.{row, keyed_row, calm, calm-IsSound, plain_service, plain_input}

abbrev plain_engine : Engine
plain_engine = record { Parsed = String; parse_text = λ s. ok s; execute = λ p vars. ok p }

create-Leads_example :
    Leads calm (create plain_engine (λ s. s) plain_service "c-1" plain_input calm).1
create-Leads_example =
    create-Leads plain_service "c-1" plain_engine (λ s. s) plain_input calm calm-IsSound

cancel-Leads_example : Leads calm (cancel 2 calm).1
cancel-Leads_example = cancel-Leads 2 calm calm-IsSound

-- A valid item, the same key again, and an item with no recipient.
abbrev three_inputs : List CreateInput
three_inputs =
    plain_input ∷ plain_input ∷ record plain_input { recipient = ""; idempotency_key = none } ∷ []

create_batch-Leads_example :
    Leads calm (create_batch plain_engine (λ s. s) plain_service "c-1" three_inputs calm).1
create_batch-Leads_example =
    create_batch-Leads plain_engine (λ s. s) plain_service "c-1" three_inputs calm calm-IsSound

abbrev plain_quote : String → String
plain_quote s = s

abbrev batch_run : Result BatchResult × World
batch_run = create_batch plain_engine (λ s. s) plain_service "c-1" three_inputs calm

abbrev batch_of_three : BatchResult
batch_of_three = record {
  batch_id = 50;
  accepted_count = 1;
  rejected_count = 2;
  results =
      accepted_item 0 first
      ∷ duplicate_item 1 51
      ∷ rejected_item 2 (field_error "recipient" (text "required") ∷ [])
      ∷ [];
}
  where
    first : Notification
    first = record (row 51 queued) {
      batch_id = some 50;
      priority = normal;
      idempotency_key = some "fresh";
      created_at = 100;
      updated_at = 100;
    }

batch_of_three_run : batch_run.0 ≡ ok batch_of_three
unfolding create_batch notifier.Service.Batch.after_keys notifier.Service.Batch.after_loop
    notifier.Service.Batch.next_item notifier.Service.Batch.after_content
    notifier.Service.Batch.after_lookup notifier.Service.Batch.after_check
    notifier.Service.Batch.accept_item notifier.Service.Batch.reject_item
    notifier.Service.Batch.refuse notifier.Service.Batch.after_copy
    notifier.Service.Batch.record_all notifier.Service.Batch.publish_batch
    notifier.Service.Batch.to_publish notifier.Service.Batch.after_mark
    notifier.Service.Batch.mark_items notifier.Service.Batch.mark_item
    notifier.Storage.Repository.existing_idempotency_keys notifier.Storage.Repository.existing_keys
    notifier.Storage.Repository.create_batch notifier.Storage.Repository.mark_queued_bulk
    notifier.World.query notifier.World.settle notifier.World.arrive notifier.World.exec
    notifier.World.run_all notifier.Service.Resolve.resolve_content
    notifier.Service.Resolve.resolve_with notifier.Service.Resolve.cached
    notifier.Service.Create.new_notification notifier.Service.Create.record_created
    notifier.Service.Create.emit_event notifier.Domain.Validate.validate_new
    notifier.Domain.Validate.new_errors notifier.Domain.Validate.validate_recipient
    notifier.Domain.Validate.is_e164 notifier.Domain.Validate.validate_content
    notifier.Domain.Status.channel_valid notifier.Domain.Status.priority_valid
    notifier.Domain.Status.has_status notifier.Domain.Status.status_valid
    notifier.Domain.Regexp.match_string notifier.Domain.Regexp.matches notifier.Domain.Regexp.times
    notifier.Domain.Regexp.up_to notifier.Domain.Errors.as_validation notifier.Domain.Errors.cause
    notifier.Publisher.publish_created_all notifier.Publisher.burst
    notifier.Publisher.publish_created notifier.Publisher.publish_confirmed
    notifier.Publisher.publish_event notifier.Publisher.put_bus
    notifier.Publisher.notification_publishing notifier.Storage.Table.apply
    notifier.Storage.Table.check_copy notifier.Storage.Table.check_insert
    notifier.Storage.Table.add_when notifier.Storage.Table.update notifier.Storage.Table.guard
    notifier.Storage.Table.assign notifier.Storage.Table.affected
batch_of_three_run = refl

create_batch-IsComplete_example :
    (length batch_of_three.results ≡ length three_inputs)
    × (count_accepted batch_of_three.results ≡ batch_of_three.accepted_count)
    × (batch_of_three.accepted_count + batch_of_three.rejected_count ≡ length three_inputs)
create_batch-IsComplete_example =
    create_batch-IsComplete plain_engine (λ s. s) plain_service "c-1" three_inputs calm
      batch_of_three batch_of_three_run

-- The key of the third row, used again.
abbrev used_key_input : CreateInput
used_key_input = record plain_input { idempotency_key = some "k" }

used_key_input-valid : validate_new (new_notification 50 used_key_input "hello" 100 none) 100 ≡ none
unfolding new_notification validate_new notifier.Domain.Validate.new_errors
    notifier.Domain.Validate.validate_recipient notifier.Domain.Validate.is_e164
    notifier.Domain.Validate.validate_content notifier.Domain.Status.channel_valid
    notifier.Domain.Status.priority_valid notifier.Domain.Regexp.match_string
    notifier.Domain.Regexp.matches notifier.Domain.Regexp.times notifier.Domain.Regexp.up_to
used_key_input-valid = refl

create-replay_example :
    create plain_engine plain_quote plain_service "c-1" used_key_input calm
    ≡ (ok (record { notification = keyed_row 3 sent "k"; replayed = true }), minted calm)
unfolding find_key
create-replay_example =
    create-replay plain_engine plain_quote plain_service "c-1" used_key_input "k"
      (keyed_row 3 sent "k") calm refl refl used_key_input-valid refl refl refl
