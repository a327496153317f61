-- ===== src/Publisher/Aside.antt =====
-- The publishes of internal/queue/rabbit/publisher.go touch nothing but the broker.
use notifier.Base.{String, ℕ, ◌≡◌, refl, ◌∙◌, List, [], ◌∷◌, inl, inr, Option-cases}
use native.Mathlib.Nat.{le_of_eq}
use notifier.Base.{sym}
use notifier.Domain.Notification.{Notification}
use notifier.Queue.Message.{Publishing, StatusEvent, Bus, Confirmation, unsent}
use notifier.Queue.Topology.{tier_for_attempt}
use notifier.World.{World}
use notifier.World.Safe.{IsSafe, IsAside-IsSafe}
use notifier.Publisher.{
  Context, put_bus, publish_confirmed, publish_created, publish_retry, publish_dead_letter,
  publish_event, burst_world, burst, publish_created_all,
}

-- A step that changes the broker only.
pub record IsBusStep (w v : World) : Type 0 where
  pub same_now : v.now ≡ w.now
  pub same_table : v.table ≡ w.table
  pub same_turns : v.turns ≡ w.turns
  pub same_sends : v.sends ≡ w.sends
  pub same_provider : v.provider ≡ w.provider
  pub same_metrics : v.metrics ≡ w.metrics

pub IsBusStep-refl : (w : World) → IsBusStep w w
IsBusStep-refl w = record {
  same_now = refl;
  same_table = refl;
  same_turns = refl;
  same_sends = refl;
  same_provider = refl;
  same_metrics = refl;
}

IsBusStep-trans : (u v w : World) → IsBusStep u v → IsBusStep v w → IsBusStep u w
IsBusStep-trans u v w a b = record {
  same_now = b.same_now ∙ a.same_now;
  same_table = b.same_table ∙ a.same_table;
  same_turns = b.same_turns ∙ a.same_turns;
  same_sends = b.same_sends ∙ a.same_sends;
  same_provider = b.same_provider ∙ a.same_provider;
  same_metrics = b.same_metrics ∙ a.same_metrics;
}

pub IsBusStep-IsSafe : (w v : World) → IsBusStep w v → IsSafe w v
IsBusStep-IsSafe w v b = IsAside-IsSafe w v (record {
  same_table = b.same_table;
  same_turns = b.same_turns;
  later = le_of_eq (sym b.same_now);
})

put_bus-IsBusStep : (w : World) (b : Bus) → IsBusStep w (put_bus w b)
unfolding put_bus
put_bus-IsBusStep w b = record {
  same_now = refl;
  same_table = refl;
  same_turns = refl;
  same_sends = refl;
  same_provider = refl;
  same_metrics = refl;
}

pub publish_confirmed-IsBusStep :
    (p : Publishing) (w : World) → IsBusStep w (publish_confirmed p w).1
unfolding publish_confirmed
publish_confirmed-IsBusStep p w = put_bus-IsBusStep w _

pub publish_created-IsBusStep :
    (ctx : Context) (n : Notification) (w : World) → IsBusStep w (publish_created ctx n w).1
unfolding publish_created
publish_created-IsBusStep ctx n w = publish_confirmed-IsBusStep _ w

pub publish_retry-IsBusStep :
    (ctx : Context) (n : Notification) (k : ℕ) (w : World) → IsBusStep w (publish_retry ctx n k w).1
unfolding publish_retry
publish_retry-IsBusStep ctx n k w = elim (Option-cases (tier_for_attempt k)) [
  | inl e ↦ rw (e, publish_retry) (IsBusStep-refl w)
  | inr (t, e) ↦ rw (e, publish_retry) (publish_confirmed-IsBusStep _ w)
]

pub publish_dead_letter-IsBusStep :
    (ctx : Context) (n : Notification) (why : String) (w : World)
    → IsBusStep w (publish_dead_letter ctx n why w).1
unfolding publish_dead_letter
publish_dead_letter-IsBusStep ctx n why w = publish_confirmed-IsBusStep _ w

pub publish_event-IsBusStep : (e : StatusEvent) (w : World) → IsBusStep w (publish_event e w).1
unfolding publish_event
publish_event-IsBusStep e w = put_bus-IsBusStep w _

burst_world-IsBusStep :
    (c : Confirmation) (w stopped continued : World)
    → IsBusStep w stopped
    → IsBusStep w continued
    → IsBusStep w (burst_world c stopped continued)
burst_world-IsBusStep unsent w s t a b = a
burst_world-IsBusStep _ w s t a b = b

burst-IsBusStep :
    (ctx : Context) (ns : List Notification) (w : World) → IsBusStep w (burst ctx ns w).1
unfolding burst
burst-IsBusStep ctx [] w = IsBusStep-refl w
burst-IsBusStep ctx (n ∷ ns) w =
    let first = publish_created-IsBusStep ctx n w in
    burst_world-IsBusStep _ w _ _ first
      (IsBusStep-trans w _ _ first (burst-IsBusStep ctx ns (publish_created ctx n w).1))

pub publish_created_all-IsBusStep :
    (ctx : Context) (ns : List Notification) (w : World)
    → IsBusStep w (publish_created_all ctx ns w).1
unfolding publish_created_all
publish_created_all-IsBusStep ctx ns w = burst-IsBusStep ctx ns w
