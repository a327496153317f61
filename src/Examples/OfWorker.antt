-- ===== src/Examples/OfWorker.antt =====
-- The laws of the worker and of the scheduler, at a world with three rows and one answer to come.
use notifier.Base.{
  none, In, ℕ, ◌+◌, ◌≡◌, ◌⊎◌, ◌≤◌, ◌<◌, ◌≢◌, refl, true, false, List, [], ◌∷◌, ◌++◌, some, inl, inr,
}
use notifier.Domain.Status.{can_transition, queued, sent, processing, statuses_allowed_into}
use notifier.Domain.Notification.{Notification}
use notifier.Domain.Errors.{ok}
use notifier.Delivery.Classify.{Delivers, Retries, Rejects, classify_cases}
use notifier.Storage.Repository.{find_id, claim_for_processing}
use notifier.Storage.Repository.Find.{HasRow}
use notifier.World.Safe.{Leads}
use notifier.Publisher.{publish_created_all}
use notifier.Publisher.Burst.{HasTaken, publish_created_all-In}
use notifier.Worker.{process_notification}
use notifier.Worker.Safe.{process_notification-Leads}
use notifier.Worker.Sends.{process_notification-sends, process_notification-terminal}
use notifier.Worker.Outcomes.{outcome_row, claimed_row, process_notification-row}
use notifier.Worker.Supervise.{Supervisor, Event, consuming, check, pool_done, delivered, supervise}
use notifier.Worker.Supervise.Paused.{IsIdle, supervise-paused}
use notifier.Scheduler.{run_once}
use notifier.Scheduler.Safe.{run_once-Leads}
use notifier.Examples.Data.{row, keyed_row, calm, calm-IsSound, settings, plain_reader}

process_notification-Leads_example : Leads calm (process_notification settings "c-1" 2 calm).1
process_notification-Leads_example = process_notification-Leads settings "c-1" 2 calm calm-IsSound

process_notification-sends_example :
    ((process_notification settings "c-1" 2 calm).1.sends ≡ calm.sends)
    ⊎ ((n : Notification) × ((claim_for_processing 2 (statuses_allowed_into processing) calm).0
          ≡ ok n)
        × ((process_notification settings "c-1" 2 calm).1.sends ≡ calm.sends ++ n ∷ []))
process_notification-sends_example = process_notification-sends settings "c-1" 2 calm

process_notification-terminal_example :
    (process_notification settings "c-1" 3 calm).1.sends ≡ calm.sends
process_notification-terminal_example =
    process_notification-terminal settings "c-1" calm (keyed_row 3 sent "k") calm-IsSound
      (inr (inr (inl refl))) refl

row_two : HasRow 2 (row 2 queued) calm
unfolding find_id
row_two = record { quiet = refl; keyed = calm-IsSound.keyed; found = refl }

process_notification-row_example :
    let n = claimed_row (row 2 queued) calm.now in
    let (answer, p, t) = settings.sender.send n (calm.now + 2) calm.provider in
    HasRow 2 (outcome_row settings n answer t) (process_notification settings "c-1" 2 calm).1
unfolding can_transition
process_notification-row_example =
    process_notification-row settings "c-1" (row 2 queued) 2 calm row_two refl refl

run_once-Leads_example : Leads calm (run_once 60 [] [] calm)
run_once-Leads_example = run_once-Leads 60 [] [] calm calm-IsSound

abbrev unavailable : ℕ
unavailable = 503

classify_cases_example :
    ((200 ≤ unavailable) × (unavailable < 300) × Delivers plain_reader unavailable "down")
    ⊎ ((((unavailable ≡ 429) ⊎ (500 ≤ unavailable)) × Retries plain_reader unavailable "down")
        ⊎ (((unavailable < 200) ⊎ ((300 ≤ unavailable) × (unavailable < 500) × (unavailable ≢ 429)))
            × Rejects plain_reader unavailable "down"))
classify_cases_example = classify_cases plain_reader unavailable "down"

burst_confirms_two : In 2 (publish_created_all "c-1" (row 1 queued ∷ row 2 queued ∷ []) calm).0
unfolding publish_created_all notifier.Publisher.burst notifier.Publisher.publish_created
    notifier.Publisher.publish_confirmed notifier.Publisher.put_bus
burst_confirms_two = inr (inl refl)

publish_created_all-In_example :
    HasTaken 2 (publish_created_all "c-1" (row 1 queued ∷ row 2 queued ∷ []) calm).1
publish_created_all-In_example =
    publish_created_all-In "c-1" (row 1 queued ∷ row 2 queued ∷ []) calm 2 burst_confirms_two

abbrev consuming_queue : Supervisor
consuming_queue = record {
  queue_name = "notifications.sms";
  stage = consuming;
  last_paused = false;
  cancelled = false;
}

-- A pause while messages are buffered, a failing look, and the end of the drained pool.
abbrev pause_events : List Event
pause_events =
    delivered (record { correlation_id = "c-1"; notification_id = some 2 })
    ∷ check none none
    ∷ pool_done
    ∷ []

supervise-paused_example :
    let z = supervise settings "c-1" (check (some true) none ∷ pause_events) consuming_queue calm in
    IsIdle calm (z.1, z.2)
supervise-paused_example =
    supervise-paused settings "c-1" none pause_events consuming_queue calm (tt, (tt, (tt, tt)))
