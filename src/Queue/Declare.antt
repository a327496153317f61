-- ===== src/Queue/Declare.antt =====
-- `DeclareTopology` of internal/queue/rabbit/topology.go, as the calls that it makes of the broker, and
-- `QueueDepths` of internal/queue/rabbit/inspect.go. What a call returns is a parameter.
pub mod Routes
use notifier.Base.{String, ℕ, ◌/◌, List, [], ◌∷◌, ◌++◌, Option, none, some}
use notifier.Domain.Errors.{Error, wrapped, texts, Result, ok, err}
use notifier.Domain.Status.{Channel, channels, channel_text}
use notifier.Queue.Topology.{
  direct_exchange, dead_letter_exchange, dead_letter_queue, events_exchange, max_priority,
  RetryTier, retry_tiers, work_queue_name, service_queues,
}

pub data Kind : Type 0 where
  direct fanout : Kind

-- The arguments of a queue: `x-max-priority`, `x-message-ttl` and `x-dead-letter-exchange`.
pub record QueueTable : Type 0 where
  pub max_priority : Option ℕ
  pub message_ttl : Option ℕ  -- in milliseconds
  pub dead_letter_exchange : Option String

-- `ExchangeDeclare`, `QueueDeclare` and `QueueBind`, with the queue before its routing key.
pub data Call : Type 0 where
  declare_exchange : String → Kind → Call
  declare_queue : String → QueueTable → Call
  bind_queue : String → String → String → Call

abbrev pub plain_queue : QueueTable
plain_queue = record { max_priority = none; message_ttl = none; dead_letter_exchange = none }

-- A call with the text of its error.
abbrev step : String → String → Call → String × Call
step what name call = (texts (what ∷ " " ∷ name ∷ []), call)

unfoldable pub declare_work_queue : Channel → List (String × Call)
declare_work_queue c =
    let name = work_queue_name c in
    step "declare queue" name
      (declare_queue name (record plain_queue { max_priority = some max_priority }))
    ∷ step "bind queue" name (bind_queue name (channel_text c) direct_exchange)
    ∷ []

abbrev nanoseconds_per_millisecond : ℕ
nanoseconds_per_millisecond = 1_000_000

-- `declareRetryTier`
unfoldable pub declare_retry_tier : RetryTier → List (String × Call)
declare_retry_tier tier =
    step "declare retry exchange" tier.name (declare_exchange tier.name fanout)
    ∷ step "declare retry queue" tier.name (
        declare_queue tier.name (record plain_queue {
          message_ttl = some (tier.ttl / nanoseconds_per_millisecond);
          dead_letter_exchange = some direct_exchange;
        }))
    ∷ step "bind retry queue" tier.name (bind_queue tier.name "" tier.name)
    ∷ []

-- `declareDeadLetter`
unfoldable pub declare_dead_letter : List (String × Call)
declare_dead_letter =
    step "declare exchange" dead_letter_exchange (declare_exchange dead_letter_exchange fanout)
    ∷ step "declare queue" dead_letter_queue (declare_queue dead_letter_queue plain_queue)
    ∷ step "bind queue" dead_letter_queue (bind_queue dead_letter_queue "" dead_letter_exchange)
    ∷ []

abbrev each {ℓ} : {A : Type ℓ} → (A → List (String × Call)) → List A → List (String × Call)
each f [] = []
each f (x ∷ xs) = f x ++ each f xs

unfoldable pub topology_calls : List (String × Call)
unfolding declare_work_queue declare_retry_tier declare_dead_letter
topology_calls =
    step "declare exchange" direct_exchange (declare_exchange direct_exchange direct)
    ∷ (each declare_work_queue channels
        ++ (each declare_retry_tier retry_tiers
            ++ (step "declare exchange" events_exchange (declare_exchange events_exchange fanout)
                ∷ declare_dead_letter)))

abbrev pub after_call :
    Option Error → String → List Call → Option Error × List Call → Option Error × List Call
after_call none label done more = more
after_call (some e) label done more = (some (wrapped label e), done)

-- The calls in order, up to the first error; and the ones that the broker has answered.
unfoldable pub declare_all :
    (Call → Option Error) → List (String × Call) → List Call → Option Error × List Call
declare_all answer [] done = (none, done)
declare_all answer ((label, call) ∷ calls) done =
    after_call (answer call) label done (declare_all answer calls (done ++ call ∷ []))

-- `DeclareTopology`, with the error of opening a channel.
unfoldable pub declare_topology : Option Error → (Call → Option Error) → Option Error × List Call
unfolding declare_all topology_calls
declare_topology (some e) answer = (some (wrapped "open declare channel" e), [])
declare_topology none answer = declare_all answer topology_calls []

pub record QueueDepth : Type 0 where
  pub name : String
  pub ready : ℕ

-- The probes, each after a look at the context, up to the first error.
abbrev probe :
    String → Option Error → Result ℕ → Result (List QueueDepth) → Result (List QueueDepth)
probe name (some e) answer rest = err (wrapped "inspect queues" e)
probe name none (err e) rest = err (wrapped (texts ("inspect queue " ∷ name ∷ [])) e)
probe name none (ok n) (err e) = err e
probe name none (ok n) (ok depths) = ok (record { name = name; ready = n } ∷ depths)

unfoldable pub probe_all :
    (String → Option Error) → (String → Result ℕ) → List String → Result (List QueueDepth)
probe_all done passive [] = ok []
probe_all done passive (name ∷ names) =
    probe name (done name) (passive name) (probe_all done passive names)

-- `QueueDepths`, with the state of the context before each probe and the answer of each passive declare.
unfoldable pub queue_depths :
    Option Error → (String → Option Error) → (String → Result ℕ) → Result (List QueueDepth)
unfolding probe_all service_queues
queue_depths (some e) done passive = err (wrapped "open inspect channel" e)
queue_depths none done passive = probe_all done passive service_queues
