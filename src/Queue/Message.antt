-- ===== src/Queue/Message.antt =====
-- internal/queue/rabbit/message.go, and what a publish carries: the payloads before their JSON.
use notifier.Base.{String, ℕ, Bool, List}

-- `Message` and `DeadLetterMessage`: a payload carries the identity only.
pub data Body : Type 0 where
  message : ℕ → Body
  dead_letter : ℕ → String → Body

pub record StatusEvent : Type 0 where
  pub notification_id : ℕ
  pub status : String
  pub channel : String
  pub attempts : ℕ
  pub last_error : String
  pub provider_message_id : String
  pub provider_status_code : ℕ
  pub provider_response : String
  pub occurred_at : ℕ

-- `amqp.Publishing` with the exchange and the routing key it goes to; every one is persistent.
pub record Publishing : Type 0 where
  pub exchange : String
  pub routing_key : String
  pub priority : ℕ
  pub correlation_id : String
  pub body : Body

-- What the broker makes of one publish: confirmed, refused, not sent at all, or taken with its
-- confirmation lost.
pub data Confirmation : Type 0 where
  acked nacked unsent unconfirmed : Confirmation

-- The broker: its coming answers, the messages it took, and the status events it fanned out.
pub record Bus : Type 0 where
  pub confirmations : List Confirmation
  pub published : List Publishing
  pub event_faults : List Bool
  pub events : List StatusEvent
