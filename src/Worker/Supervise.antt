-- ===== src/Worker/Supervise.antt =====
-- internal/worker/consume.go: the supervision of one queue, with its pauses, as a state and
-- the events that its `select`s wait for. Handlers run one after the other here: a message that is in
-- flight when the draining flag is set counts as taken before it.
pub mod Paused
use notifier.Base.{
  String, ℕ, Bool, true, false, not, ◌&&◌, ◌||◌, List, [], ◌∷◌, ◌++◌, map, Option, none, some, ◌==◌,
  if◌then◌else◌,
}
use notifier.Domain.Errors.{Error, external, wrapped, texts}
use notifier.World.{World}
use notifier.Publisher.{Context}
use notifier.Worker.{Settings}
use notifier.Worker.Consume.{Delivery, Settlement, requeued, handle_pooled}

-- Where `superviseQueue` stands: waiting out a pause, or in `consumeUntilPaused` with the subscription
-- open, or with its cancellation requested; or it has returned, without an error or with one.
pub data Stage : Type 0 where
  waiting consuming draining returned : Stage
  failed : Error → Stage

-- `last_paused` is the worker's last known state of the flag.
pub record Supervisor : Type 0 where
  pub queue_name : String
  pub stage : Stage
  pub last_paused : Bool
  pub cancelled : Bool  -- `ctx.Err() != nil`

-- The events: a look at the pause flag with its answer, none if it fails, and the error of opening and
-- subscribing that may follow it; the end of the context; the end of the handler pool; a delivery.
pub data Event : Type 0 where
  check : Option Bool → Option Error → Event
  shutdown pool_done : Event
  delivered : Delivery → Event

-- `isPaused`: the answer, or the last known state.
unfoldable pub is_paused : Option Bool → Bool → Bool
is_paused none last = last
is_paused (some paused) last = paused

-- The start of `consumeUntilPaused`: opening a channel, its prefetch and the subscription.
abbrev pub subscribe : Option Error → Supervisor → Supervisor
subscribe none s = record s { stage = consuming }
subscribe (some e) s = record s { stage = failed e }

-- `waitWhilePaused` has ended.
unfoldable pub resume : Option Error → Supervisor → Supervisor
resume opened s = if s.cancelled then record s { stage = returned } else subscribe opened s

unfoldable pub on_check : Stage → Option Error → Supervisor → Supervisor
unfolding resume
on_check waiting opened s = if s.last_paused then s else resume opened s
on_check consuming opened s = if s.last_paused then record s { stage = draining } else s
on_check _ opened s = s

unfoldable pub on_shutdown : Stage → Supervisor → Supervisor
on_shutdown waiting s = record s { stage = returned }
on_shutdown consuming s = record s { stage = draining }
on_shutdown _ s = s

-- The pool ends by itself only if the broker closed the deliveries.
unfoldable pub on_pool_done : Stage → Supervisor → Supervisor
on_pool_done consuming s = record s {
  stage =
      failed (external (texts ("delivery channel for " ∷ s.queue_name ∷ " closed by broker" ∷ [])));
}
on_pool_done draining s = record s { stage = if s.cancelled then returned else waiting }
on_pool_done _ s = s

unfoldable pub on_event : Event → Supervisor → Supervisor
unfolding is_paused on_check on_shutdown on_pool_done
on_event (check answer opened) s =
    on_check s.stage opened (record s { last_paused = is_paused answer s.last_paused })
on_event shutdown s = on_shutdown s.stage (record s { cancelled = true })
on_event pool_done s = on_pool_done s.stage s
on_event (delivered d) s = s

-- What becomes of a delivery: the pool settles it, processing it unless the subscription is cancelled.
unfoldable pub on_delivery : Settings → Context → Stage → Event → World → List Settlement × World
on_delivery st ctx consuming (delivered d) w =
    let (r, v) = handle_pooled st ctx false d w in (r ∷ [], v)
on_delivery st ctx draining (delivered d) w =
    let (r, v) = handle_pooled st ctx true d w in (r ∷ [], v)
on_delivery st ctx _ _ w = ([], w)

-- A run of one queue: the supervisor and the world after the events, and the settlements in order.
unfoldable pub supervise :
    Settings → Context → List Event → Supervisor → World → Supervisor × List Settlement × World
unfolding on_event on_delivery
supervise st ctx [] s w = (s, [], w)
supervise st ctx (e ∷ es) s w =
    let (rs, v) = on_delivery st ctx s.stage e w in
    let (t, more, u) = supervise st ctx es (on_event e s) v in (t, rs ++ more, u)
