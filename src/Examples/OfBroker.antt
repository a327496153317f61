-- ===== src/Examples/OfBroker.antt =====
-- The topology on a broker that routes as AMQP says.
use notifier.Base.{
  String, ◌≡◌, refl, Bool, true, false, ◌&&◌, ◌||◌, List, [], ◌∷◌, Option, none, some, ◌*◌, str_eq,
  if◌then◌else◌, arith,
}
use notifier.Domain.Errors.{Error}
use notifier.Domain.Status.{queued, sms}
use notifier.Queue.Topology.{second, direct_exchange, work_queue_name}
use notifier.Queue.Declare.{
  Kind, direct, fanout, QueueTable, Call, declare_exchange, declare_queue, bind_queue,
  declare_topology,
}
use notifier.Queue.Declare.Routes.{
  kind_of, table_of, is_bound, arrives, Broker, IsAmqp, ReachesOnly, retry_returns,
}
use notifier.Publisher.{notification_publishing}
use notifier.Examples.Data.{row}

abbrev bound : Bool → String → String → List Call → List String
bound any_key x k [] = []
bound any_key x k (bind_queue r j y ∷ calls) =
    let more = bound any_key x k calls in
    if str_eq y x && (any_key || str_eq j k) then r ∷ more else more
bound any_key x k (_ ∷ calls) = bound any_key x k calls

abbrev route_kind : Option Kind → String → String → List Call → List String
route_kind none x k calls = []
route_kind (some direct) x k calls = bound false x k calls
route_kind (some fanout) x k calls = bound true x k calls

abbrev expire_to : Option QueueTable → String → Option (String × String)
expire_to none k = none
expire_to (some t) k = elim t.dead_letter_exchange [ none ↦ none | some x ↦ some (x, k) ]

abbrev plain_broker : Broker
plain_broker = record {
  route = λ calls x k. route_kind (kind_of x calls) x k calls;
  expire = λ calls q k. expire_to (table_of q calls) k;
}

arrives-bound :
    (any_key : Bool) (x k : String) (calls : List Call) (q : String)
    → arrives q (bound any_key x k calls) ≡ is_bound any_key x k q calls
arrives-bound any_key x k [] q = refl
arrives-bound any_key x k (declare_exchange y j ∷ calls) q = arrives-bound any_key x k calls q
arrives-bound any_key x k (declare_queue y j ∷ calls) q = arrives-bound any_key x k calls q
arrives-bound any_key x k (bind_queue r j y ∷ calls) q =
    ground (arith, arrives-bound any_key x k calls q)

plain_broker-IsAmqp : IsAmqp plain_broker
plain_broker-IsAmqp = record {
  direct_law = λ calls x e k q. rw e (arrives-bound false x k calls q);
  fanout_law = λ calls x e k q. rw e (arrives-bound true x k calls q);
  expire_law = λ calls q x k t ttl e m d. rw e (rw d refl);
}

abbrev no_error : Call → Option Error
no_error c = none

abbrev declared : List Call
declared = (declare_topology none no_error).1

declared-none : declare_topology none no_error ≡ (none, declared)
unfolding declare_topology
declared-none = refl

retry_returns_example :
    let p = notification_publishing "c-1" "notifications.retry.30s" (row 1 queued) in
    ReachesOnly plain_broker declared p.exchange p.routing_key "notifications.retry.30s"
    × (plain_broker.expire declared "notifications.retry.30s" p.routing_key
        ≡ some (direct_exchange, p.routing_key))
    × ReachesOnly plain_broker declared direct_exchange p.routing_key (work_queue_name sms)
unfolding notifier.Queue.Topology.tier_for_attempt notifier.Domain.Status.channel_valid
retry_returns_example =
    retry_returns plain_broker plain_broker-IsAmqp none no_error declared declared-none "c-1"
      (row 1 queued) 2 (record { name = "notifications.retry.30s"; ttl = 30 * second }) refl refl
