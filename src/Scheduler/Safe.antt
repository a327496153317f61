-- ===== src/Scheduler/Safe.antt =====
-- A poll of internal/scheduler/scheduler.go is a safe step of the world.
use notifier.Base.{ℕ, List, [], ◌∷◌, none, some}
use notifier.Domain.Errors.{Result, ok, err}
use notifier.Domain.Notification.{Notification}
use notifier.Storage.Table.{Table}
use notifier.World.{World}
use notifier.World.Safe.{IsSafe, IsSafe-refl, IsSafe-trans}
use notifier.Storage.Repository.{Outcome}
use notifier.Storage.Repository.Safe.{
  claim_due_for_queue-IsSafe, recover_stale_processing-IsSafe, list_stale_queued-IsSafe,
  touch-IsSafe,
}
use notifier.Publisher.Aside.{IsBusStep-IsSafe, publish_created-IsBusStep, publish_event-IsBusStep}
use notifier.Scheduler.{
  no_context, claim_batch_limit, announce, publish_due, each_claimed, queue_due, touch_published,
  republish, republish_stale, publish_recovered, recover_processing, run_once,
}

announce-IsSafe : (n : Notification) (e : Outcome) (w : World) → IsSafe w (announce n e w)
announce-IsSafe n (some e) w = IsSafe-refl w
announce-IsSafe n none w = IsBusStep-IsSafe w _ (publish_event-IsBusStep _ w)

publish_due-IsSafe : (ns : List Notification) (w : World) → IsSafe w (publish_due ns w)
unfolding publish_due
publish_due-IsSafe [] w = IsSafe-refl w
publish_due-IsSafe (n ∷ ns) w =
    IsSafe-trans w _ _ (IsBusStep-IsSafe w _ (publish_created-IsBusStep no_context n w))
      (IsSafe-trans _ _ _ (announce-IsSafe n _ _) (publish_due-IsSafe ns _))

touch_published-IsSafe :
    (n : Notification) (e : Outcome) (w : World) → IsSafe w (touch_published n e w)
touch_published-IsSafe n (some e) w = IsSafe-refl w
touch_published-IsSafe n none w = touch-IsSafe n.id w

republish-IsSafe : (ns : List Notification) (w : World) → IsSafe w (republish ns w)
unfolding republish
republish-IsSafe [] w = IsSafe-refl w
republish-IsSafe (n ∷ ns) w =
    IsSafe-trans w _ _ (IsBusStep-IsSafe w _ (publish_created-IsBusStep no_context n w))
      (IsSafe-trans _ _ _ (touch_published-IsSafe n _ _) (republish-IsSafe ns _))

publish_recovered-IsSafe : (ns : List Notification) (w : World) → IsSafe w (publish_recovered ns w)
unfolding publish_recovered
publish_recovered-IsSafe [] w = IsSafe-refl w
publish_recovered-IsSafe (n ∷ ns) w =
    IsSafe-trans w _ _ (IsBusStep-IsSafe w _ (publish_created-IsBusStep no_context n w))
      (publish_recovered-IsSafe ns _)

each_claimed-IsSafe :
    (f : List Notification → World → World)
    → ((ns : List Notification) (w : World) → IsSafe w (f ns w))
    → (r : Result Table) (w : World) → IsSafe w (each_claimed f r w)
unfolding each_claimed
each_claimed-IsSafe f h (err e) w = IsSafe-refl w
each_claimed-IsSafe f h (ok ns) w = h ns w

queue_due-IsSafe : (k : ℕ) (locked : List ℕ) (w : World) → IsSafe w (queue_due k locked w)
unfolding queue_due
queue_due-IsSafe k locked w =
    IsSafe-trans w _ _ (claim_due_for_queue-IsSafe k claim_batch_limit locked w)
      (each_claimed-IsSafe publish_due publish_due-IsSafe _ _)

republish_stale-IsSafe : (k : ℕ) (w : World) → IsSafe w (republish_stale k w)
unfolding republish_stale
republish_stale-IsSafe k w =
    IsSafe-trans w _ _ (list_stale_queued-IsSafe k claim_batch_limit w)
      (each_claimed-IsSafe republish republish-IsSafe _ _)

recover_processing-IsSafe :
    (k : ℕ) (locked : List ℕ) (w : World) → IsSafe w (recover_processing k locked w)
unfolding recover_processing
recover_processing-IsSafe k locked w =
    IsSafe-trans w _ _ (recover_stale_processing-IsSafe k claim_batch_limit locked w)
      (each_claimed-IsSafe publish_recovered publish_recovered-IsSafe _ _)

-- From a sound world, a poll leads to a sound world whose rows come from the first ones by
-- single steps, whatever fails and whatever statements of the code the other processes run meanwhile: a legal
-- move to queued or cancelled, a legal claim that counts one attempt, a delivery or a set-back of a row
-- that is processing, or a new time of a queued row.
pub run_once-Leads : (k : ℕ) (due stuck : List ℕ) (w : World) → IsSafe w (run_once k due stuck w)
unfolding run_once
run_once-Leads k due stuck w =
    IsSafe-trans w _ _ (queue_due-IsSafe k due w)
      (IsSafe-trans _ _ _ (republish_stale-IsSafe k _) (recover_processing-IsSafe k stuck _))
