-- ===== src/Publisher.antt =====
-- internal/queue/rabbit/publisher.go: the confirmed publishes and the unconfirmed status events.
-- The context of a call is its correlation ID, which internal/observability/ctxlog.go carries.
pub mod Aside
pub mod Burst
use notifier.Base.{String, ℕ, Bool, true, false, List, [], ◌∷◌, ◌++◌, Option, none, some}
use notifier.Domain.Errors.{Error, external, wrapped, texts}
use notifier.Domain.Notification.{Notification}
use notifier.Domain.Status.{channel_text}
use notifier.Queue.Message.{
  Body, message, dead_letter, StatusEvent, Publishing, Confirmation, acked, nacked, unsent,
  unconfirmed, Bus,
}
use notifier.Queue.Topology.{
  direct_exchange, dead_letter_exchange, RetryTier, tier_for_attempt, amqp_priority,
}
use notifier.Delivery.{rest}
use notifier.World.{World}
use notifier.Storage.Repository.{Outcome}

abbrev pub Context : Type 0
Context = String

-- With no answer left the broker confirms.
abbrev pub next_confirmation : List Confirmation → Confirmation
next_confirmation [] = acked
next_confirmation (c ∷ cs) = c

-- The messages that the broker has after one publish, and what the publisher learns.
abbrev pub taken : Confirmation → List Publishing → Publishing → List Publishing
taken acked ps p = ps ++ p ∷ []
taken nacked ps p = ps
taken unsent ps p = ps
taken unconfirmed ps p = ps ++ p ∷ []

abbrev confirm_error : Confirmation → String → Outcome
confirm_error acked exchange = none
confirm_error nacked exchange =
    some (external (texts ("broker nacked publish to " ∷ exchange ∷ [])))
confirm_error unsent exchange =
    some (wrapped (texts ("publish to " ∷ exchange ∷ [])) (external "channel"))
confirm_error unconfirmed exchange =
    some (wrapped (texts ("await publish confirm from " ∷ exchange ∷ [])) (external "context"))

unfoldable pub put_bus : World → Bus → World
put_bus w b = record w { bus = b }

-- `publishConfirmed`
unfoldable pub publish_confirmed : Publishing → World → Outcome × World
unfolding put_bus
publish_confirmed p w =
    let c = next_confirmation w.bus.confirmations in
    (
      confirm_error c p.exchange,
      put_bus w (record (w.bus) {
        confirmations = rest w.bus.confirmations;
        published = taken c w.bus.published p;
      }),
    )

-- The standard message of a notification for an exchange, keyed by its channel.
unfoldable pub notification_publishing : Context → String → Notification → Publishing
notification_publishing ctx exchange n = record {
  exchange = exchange;
  routing_key = channel_text n.channel;
  priority = amqp_priority n.priority;
  correlation_id = ctx;
  body = message n.id;
}

unfoldable pub publish_created : Context → Notification → World → Outcome × World
publish_created ctx n w = publish_confirmed (notification_publishing ctx direct_exchange n) w

-- An index out of range, which `tier_for_attempt_lem` excludes, would be a panic.
unfoldable pub publish_retry : Context → Notification → ℕ → World → Outcome × World
publish_retry ctx n attempt w = elim (tier_for_attempt attempt) [
  | none ↦ (some (external "index out of range"), w)
  | some t ↦ publish_confirmed (notification_publishing ctx t.name n) w
]

unfoldable pub publish_dead_letter : Context → Notification → String → World → Outcome × World
publish_dead_letter ctx n reason w =
    publish_confirmed
      (record {
        exchange = dead_letter_exchange;
        routing_key = "";
        priority = 0;
        correlation_id = ctx;
        body = dead_letter n.id reason;
      })
      w

abbrev next_fault : List Bool → Bool
next_fault [] = false
next_fault (b ∷ bs) = b

abbrev event_bus : Bool → StatusEvent → Bus → Bus
event_bus true e b = record b { event_faults = rest b.event_faults }
event_bus false e b = record b { event_faults = rest b.event_faults; events = b.events ++ e ∷ [] }

abbrev event_error : Bool → Outcome
event_error true = some (wrapped "publish status event" (external "events channel"))
event_error false = none

-- `PublishEvent`: unconfirmed, on a channel of its own.
unfoldable pub publish_event : StatusEvent → World → Outcome × World
unfolding put_bus
publish_event e w =
    let fault = next_fault w.bus.event_faults in
    (event_error fault, put_bus w (event_bus fault e w.bus))

-- A burst publishes in order up to the first message that is not sent; the confirmations come
-- afterwards, and the identifiers of the confirmed messages are the result.
abbrev confirmed_ids : Confirmation → ℕ → List ℕ → List ℕ
confirmed_ids acked id ids = id ∷ ids
confirmed_ids nacked id ids = ids
confirmed_ids unsent id ids = []
confirmed_ids unconfirmed id ids = ids

abbrev burst_world : Confirmation → World → World → World
burst_world unsent stopped continued = stopped
burst_world _ stopped continued = continued

unfoldable pub burst : Context → List Notification → World → List ℕ × World
burst ctx [] w = ([], w)
burst ctx (n ∷ ns) w =
    let c = next_confirmation w.bus.confirmations in
    let v = (publish_created ctx n w).1 in
    let more = burst ctx ns v in (confirmed_ids c n.id more.0, burst_world c v more.1)

-- `PublishCreatedAll`; a marshalled identity cannot fail, so there is no error.
unfoldable pub publish_created_all : Context → List Notification → World → List ℕ × World
unfolding burst
publish_created_all ctx ns w = burst ctx ns w
