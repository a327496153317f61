-- ===== src/Worker/Consume.antt =====
-- internal/worker/consume.go: what a handler goroutine does with one delivery of a work queue. The
-- JSON decoder is of the standard library: a delivery carries its decoded identity, or none.
use notifier.Base.{String, ℕ, Bool, true, false, Option, none, some, str_eq, if◌then◌else◌}
use notifier.World.{World}
use notifier.Storage.Repository.{Outcome}
use notifier.Publisher.{Context}
use notifier.Worker.{Settings, process_notification}

pub record Delivery : Type 0 where
  pub correlation_id : String
  pub notification_id : Option ℕ

-- `Ack(false)`, `Nack(false, true)` and `Nack(false, false)`.
pub data Settlement : Type 0 where
  acknowledged requeued discarded : Settlement

abbrev pub settlement : Outcome → Settlement
settlement none = acknowledged
settlement (some e) = requeued

-- `handleDelivery`
abbrev pub delivery_context : Context → Delivery → Context
delivery_context ctx d = if str_eq d.correlation_id "" then ctx else d.correlation_id

abbrev handle_decoded : Settings → Context → Option ℕ → World → Settlement × World
handle_decoded s ctx none w = (discarded, w)
handle_decoded s ctx (some id) w = let (e, v) = process_notification s ctx id w in (settlement e, v)

unfoldable pub handle_delivery : Settings → Context → Delivery → World → Settlement × World
handle_delivery s ctx d w = handle_decoded s (delivery_context ctx d) d.notification_id w

-- The body of the pool's loop: while draining, a delivery goes back to the queue untouched.
unfoldable pub handle_pooled : Settings → Context → Bool → Delivery → World → Settlement × World
unfolding handle_delivery
handle_pooled s ctx true d w = (requeued, w)
handle_pooled s ctx false d w = handle_delivery s ctx d w
