-- ===== src/Queue/Topology.antt =====
-- internal/queue/rabbit/topology.go: the names of exchanges and queues, and the retry tiers; and
-- the numeric priorities of internal/queue/rabbit/publisher.go.
pub mod Tiers
use notifier.Base.{
  String, ℕ, ◌-◌, ◌*◌, List, [], ◌∷◌, ◌++◌, map, Option, ltb, leb, length, get_elem?, if◌then◌else◌,
}
use Prim.Native.String.{◌++◌ as text_append}
use notifier.Domain.Status.{
  Channel, Priority, high, normal, low, other_priority, channels, channel_text,
}

abbrev pub direct_exchange : String
direct_exchange = "notifications.direct"

abbrev pub dead_letter_exchange : String
dead_letter_exchange = "notifications.dlx"

abbrev pub dead_letter_queue : String
dead_letter_queue = "notifications.dlq"

abbrev pub events_exchange : String
events_exchange = "notifications.events"

abbrev pub max_priority : ℕ
max_priority = 10

-- `time.Second`, in nanoseconds.
abbrev pub second : ℕ
second = 1_000_000_000

pub record RetryTier : Type 0 where
  pub name : String
  pub ttl : ℕ

abbrev pub retry_tiers : List RetryTier
retry_tiers =
    record { name = "notifications.retry.5s"; ttl = 5 * second }
    ∷ record { name = "notifications.retry.30s"; ttl = 30 * second }
    ∷ record { name = "notifications.retry.120s"; ttl = 120 * second }
    ∷ []

-- The index after both clamps; `attempt - 1` is below 0 only for attempt 0.
abbrev pub tier_index : ℕ → ℕ
tier_index attempt =
    let index = if ltb attempt 1 then 0 else attempt - 1 in
    if leb (length retry_tiers) index then length retry_tiers - 1 else index

-- `RetryTiers[index]`, where `none` would be an index out of range.
unfoldable pub tier_for_attempt : ℕ → Option RetryTier
tier_for_attempt attempt = get_elem? retry_tiers (tier_index attempt)

unfoldable pub work_queue_name : Channel → String
work_queue_name c = text_append "notifications." (channel_text c)

-- The queues that `QueueDepths` of internal/queue/rabbit/inspect.go probes.
unfoldable pub service_queues : List String
unfolding work_queue_name
service_queues =
    map work_queue_name channels ++ (map (λ t. t.name) retry_tiers ++ dead_letter_queue ∷ [])

unfoldable pub amqp_priority : Priority → ℕ
amqp_priority high = 9
amqp_priority low = 1
amqp_priority normal = 5
amqp_priority (other_priority s) = 5
