-- ===== src/Queue/Declare/Routes.antt =====
-- Where the messages of internal/queue/rabbit/publisher.go arrive under the topology of
-- internal/queue/rabbit/topology.go. What the broker does is a parameter with its documented laws.
use notifier.Base.{
  zero, suc, ◌++◌, ◌*◌, get_elem?, subst, sym, String, ℕ, ◌≡◌, refl, ap, ◌∙◌, Bool, true, false,
  ◌&&◌, ◌||◌, List, [], ◌∷◌, Option, none, some, exists, if◌then◌else◌, str_eq, arith,
}
use mathlib.Core.List.{append-nil}
use notifier.Domain.Errors.{Error, wrapped}
use notifier.Domain.Notification.{Notification}
use notifier.Domain.Status.{Channel, sms, email, push, other_channel, channel_valid, channel_text}
use notifier.Publisher.{Context, notification_publishing}
use notifier.Queue.Topology.{
  RetryTier, tier_for_attempt, tier_index, work_queue_name, direct_exchange, second, retry_tiers,
}
use notifier.Queue.Declare.{
  plain_queue, Kind, direct, fanout, QueueTable, Call, declare_exchange, declare_queue, bind_queue,
  declare_topology, after_call, declare_all, topology_calls,
}

-- What the calls that were made say of an exchange, of a queue, and of the queues bound to an exchange.
abbrev pub kind_of : String → List Call → Option Kind
kind_of x [] = none
kind_of x (declare_exchange y k ∷ calls) = if str_eq y x then some k else kind_of x calls
kind_of x (_ ∷ calls) = kind_of x calls

abbrev pub table_of : String → List Call → Option QueueTable
table_of q [] = none
table_of q (declare_queue r t ∷ calls) = if str_eq r q then some t else table_of q calls
table_of q (_ ∷ calls) = table_of q calls

abbrev pub is_bound : Bool → String → String → String → List Call → Bool
is_bound any_key x k q [] = false
is_bound any_key x k q (bind_queue r j y ∷ calls) =
    (str_eq y x && ((any_key || str_eq j k) && str_eq r q)) || is_bound any_key x k q calls
is_bound any_key x k q (_ ∷ calls) = is_bound any_key x k q calls

abbrev pub arrives : String → List String → Bool
arrives q qs = exists (λ r. str_eq r q) qs

-- The broker: the queues that a message reaches from an exchange with its routing key, and where a
-- message goes, with which key, when its time in a queue is over.
pub record Broker : Type 0 where
  pub route : List Call → String → String → List String
  pub expire : List Call → String → String → Option (String × String)

-- A direct exchange serves the bindings with the message's key and a fanout exchange serves all; an
-- expired message goes to the queue's dead letter exchange under its own key.
pub record IsAmqp (broker : Broker) : Type 0 where
  pub direct_law :
      (calls : List Call) (x : String)
      → kind_of x calls ≡ some direct
      → (k q : String) → arrives q (broker.route calls x k) ≡ is_bound false x k q calls
  pub fanout_law :
      (calls : List Call) (x : String)
      → kind_of x calls ≡ some fanout
      → (k q : String) → arrives q (broker.route calls x k) ≡ is_bound true x k q calls
  pub expire_law :
      (calls : List Call) (q x k : String) (t : QueueTable) (ttl : ℕ)
      → table_of q calls ≡ some t
      → t.message_ttl ≡ some ttl
      → t.dead_letter_exchange ≡ some x
      → broker.expire calls q k ≡ some (x, k)

-- A message to an exchange with a key reaches one queue and no other.
abbrev pub ReachesOnly : Broker → List Call → String → String → String → Type 0
ReachesOnly broker calls x k queue =
    (q : String) → arrives q (broker.route calls x k) ≡ str_eq queue q

abbrev calls_of : List (String × Call) → List Call
calls_of [] = []
calls_of ((label, call) ∷ rest) = call ∷ calls_of rest

snoc_append : (a b : List Call) (c : Call) → (a ++ c ∷ []) ++ b ≡ a ++ c ∷ b
snoc_append [] b c = refl
snoc_append (x ∷ xs) b c = ap (λ l. x ∷ l) (snoc_append xs b c)

after_call-none :
    (e : Option Error) (label : String) (done : List Call) (more : Option Error × List Call)
    (calls : List Call)
    → after_call e label done more ≡ (none, calls)
    → more ≡ (none, calls)
after_call-none none label done more calls h = h
after_call-none (some e) label done more calls h =
    absurd (let stopped : some (wrapped label e) ≡ none = ap (λ z. z.0) h in cc)

-- A declaration without an error has made every call.
declare_all-none :
    (answer : Call → Option Error) (steps : List (String × Call)) (done calls : List Call)
    → declare_all answer steps done ≡ (none, calls)
    → calls ≡ done ++ calls_of steps
unfolding declare_all
declare_all-none answer [] done calls h =
    let same : done ≡ calls = cc in sym same ∙ sym (append-nil done)
declare_all-none answer ((label, call) ∷ steps) done calls h =
    declare_all-none answer steps (done ++ call ∷ []) calls
      (after_call-none (answer call) label done _ calls h)
    ∙ snoc_append done (calls_of steps) call

abbrev all_calls : List Call
all_calls = calls_of topology_calls

declare_topology-none :
    (opened : Option Error) (answer : Call → Option Error) (calls : List Call)
    → declare_topology opened answer ≡ (none, calls)
    → calls ≡ all_calls
unfolding declare_topology
declare_topology-none (some e) answer calls h =
    absurd (let stopped : some (wrapped "open declare channel" e) ≡ none = ap (λ z. z.0) h in cc)
declare_topology-none none answer calls h = declare_all-none answer topology_calls [] calls h

module _ (broker : Broker) (amqp : IsAmqp broker) where
  to_work_queue :
      (c : Channel)
      → channel_valid c ≡ true
      → ReachesOnly broker all_calls direct_exchange (channel_text c) (work_queue_name c)
  unfolding topology_calls channel_text work_queue_name channel_valid
  to_work_queue sms v q = amqp.direct_law all_calls direct_exchange refl "sms" q ∙ ground arith
  to_work_queue email v q = amqp.direct_law all_calls direct_exchange refl "email" q ∙ ground arith
  to_work_queue push v q = amqp.direct_law all_calls direct_exchange refl "push" q ∙ ground arith
  to_work_queue (other_channel s) v q = absurd (cc)

  abbrev Waits : RetryTier → String → Type 0
  Waits t k =
      ReachesOnly broker all_calls t.name k t.name
      × (broker.expire all_calls t.name k ≡ some (direct_exchange, k))

  tier_table : ℕ → QueueTable
  tier_table ms = record plain_queue {
    message_ttl = some ms;
    dead_letter_exchange = some direct_exchange;
  }

  queue_expires :
      (t : RetryTier) (k : String) (ms : ℕ)
      → kind_of t.name all_calls ≡ some fanout
      → table_of t.name all_calls ≡ some (tier_table ms)
      → ((q : String) → is_bound true t.name k q all_calls ≡ str_eq t.name q)
      → Waits t k
  unfolding tier_table
  queue_expires t k ms f e b = (
    λ q. amqp.fanout_law all_calls t.name f k q ∙ b q,
    amqp.expire_law all_calls t.name direct_exchange k (tier_table ms) ms e refl refl,
  )

  tier : String → ℕ → RetryTier
  tier name seconds = record { name = name; ttl = seconds * second }

  to_tier : (i : ℕ) (t : RetryTier) (k : String) → get_elem? retry_tiers i ≡ some t → Waits t k
  unfolding topology_calls tier_table tier work_queue_name channel_text
  to_tier zero t k h =
      let same : tier "notifications.retry.5s" 5 ≡ t = cc in
      subst (λ z. Waits z k) same
        (queue_expires (tier "notifications.retry.5s" 5) k 5_000 refl refl (λ q. ground arith))
  to_tier (suc zero) t k h =
      let same : tier "notifications.retry.30s" 30 ≡ t = cc in
      subst (λ z. Waits z k) same
        (queue_expires (tier "notifications.retry.30s" 30) k 30_000 refl refl (λ q. ground arith))
  to_tier (suc (suc zero)) t k h =
      let same : tier "notifications.retry.120s" 120 ≡ t = cc in
      subst (λ z. Waits z k) same
        (queue_expires (tier "notifications.retry.120s" 120) k 120_000 refl refl
          (λ q. ground arith))
  to_tier (suc (suc (suc i))) t k h = absurd (cc)

-- Once a declaration of the topology has ended without an error, on a broker that routes and expires as
-- documented, with a known channel: a message published for a retry waits in the queue of its tier and
-- in no other, leaves it for the direct exchange when its time is over, and from there reaches the work
-- queue of its channel and no other.
pub retry_returns :
    (broker : Broker)
    → IsAmqp broker
    → (opened : Option Error) (answer : Call → Option Error) (calls : List Call)
    → declare_topology opened answer ≡ (none, calls)
    → (ctx : Context) (n : Notification) (attempt : ℕ) (t : RetryTier)
    → channel_valid n.channel ≡ true
    → tier_for_attempt attempt ≡ some t
    → let p = notification_publishing ctx t.name n in
      ReachesOnly broker calls p.exchange p.routing_key t.name
      × (broker.expire calls t.name p.routing_key ≡ some (direct_exchange, p.routing_key))
      × ReachesOnly broker calls direct_exchange p.routing_key (work_queue_name n.channel)
unfolding tier_for_attempt notification_publishing
retry_returns broker amqp opened answer calls d ctx n attempt t known found =
    let same = declare_topology-none opened answer calls d in
    let (waits, expires) =
      to_tier broker amqp (tier_index attempt) t (channel_text n.channel) found in
    rw same (waits, expires, to_work_queue broker amqp n.channel known)
