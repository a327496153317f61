-- ===== src/Domain/Notification.antt =====
-- internal/domain/notification.go: the record of one message to one recipient.
-- Identifiers and times are numbers; 0 is `uuid.Nil` and the zero time.
use notifier.Base.{String, ℕ, Option}
use notifier.Domain.Status.{Channel, Priority, Status}

pub record Notification : Type 0 where
  pub id : ℕ
  pub batch_id : Option ℕ
  pub recipient : String
  pub channel : Channel
  pub content : String
  pub priority : Priority
  pub status : Status
  pub idempotency_key : Option String
  pub scheduled_at : Option ℕ
  pub attempts : ℕ
  pub last_error : Option String
  pub provider_message_id : Option String
  pub created_at : ℕ
  pub updated_at : ℕ
  pub sent_at : Option ℕ

pub record StatusCount : Type 0 where
  pub channel : Channel
  pub status : Status
  pub count : ℕ
