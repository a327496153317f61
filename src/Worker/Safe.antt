-- ===== src/Worker/Safe.antt =====
-- Handling a message (internal/worker/worker.go) is a safe step of the world, on every path.
use notifier.Base.{
  String, ℕ, refl, sym, Bool, true, false, ◌&&◌, Option, none, some, ltb, ◌∙◌, Bool-cases, inl, inr,
}
use native.Mathlib.Nat.{le_refl, le-add_right}
use notifier.Domain.Status.{Status, processing, failed, statuses_allowed_into}
use notifier.Domain.Status.Machine.{has_status-statuses_allowed_into}
use notifier.Domain.Errors.{Error, Result, ok, err}
use notifier.Domain.Notification.{Notification}
use notifier.Delivery.{SendResult, is_retryable}
use notifier.World.{World, Metric}
use notifier.World.Safe.{IsSound, Leads, IsSafe, IsSafe-refl, IsSafe-trans, IsAside-IsSafe}
use notifier.Storage.Repository.{Outcome}
use notifier.Storage.Repository.Safe.{
  claim_for_processing-IsSafe, mark_retrying-IsSafe, mark_failed-IsSafe, mark_as_sent-IsSafe,
}
use notifier.Publisher.{Context}
use notifier.Publisher.Aside.{
  IsBusStep-IsSafe, publish_event-IsBusStep, publish_retry-IsBusStep, publish_dead_letter-IsBusStep,
}
use notifier.Worker.{
  Settings, count_metric, record_attempt, record_delivered, emit_event, emit_sent_event,
  after_publish_retry, after_mark_retrying, after_mark_failed, handle_send_failure, after_mark_sent,
  after_send, call_send, deliver, wait, next_wait, waited, after_wait, after_claim,
  process_notification,
}

count_metric-IsSafe : (b : Bool) (m : Metric) (w : World) → IsSafe w (count_metric b m w)
count_metric-IsSafe true m w =
    IsAside-IsSafe w _ (record { same_table = refl; same_turns = refl; later = le_refl w.now })
count_metric-IsSafe false m w = IsSafe-refl w

emit_event-IsSafe :
    (n : Notification) (st : Status) (e : String) (w : World) → IsSafe w (emit_event n st e w)
unfolding emit_event
emit_event-IsSafe n st e w = IsBusStep-IsSafe w _ (publish_event-IsBusStep _ w)

emit_sent_event-IsSafe :
    (n : Notification) (r : SendResult) (w : World) → IsSafe w (emit_sent_event n r w)
unfolding emit_sent_event
emit_sent_event-IsSafe n r w = IsBusStep-IsSafe w _ (publish_event-IsBusStep _ w)

waited-IsSafe : (o : Option ℕ) (w : World) → IsSafe w (waited o w).1
waited-IsSafe none w =
    IsAside-IsSafe w _ (record { same_table = refl; same_turns = refl; later = le_refl w.now })
waited-IsSafe (some d) w =
    IsAside-IsSafe w _
      (record { same_table = refl; same_turns = refl; later = le-add_right w.now d })

module _ (s : Settings) (ctx : Context) where
  after_publish_retry-IsSafe :
      (n : Notification) (c : Error) (e : Outcome) (w : World)
      → IsSafe w (after_publish_retry s n c e w).1
  unfolding after_publish_retry
  after_publish_retry-IsSafe n c (some e) w = IsSafe-refl w
  after_publish_retry-IsSafe n c none w = emit_event-IsSafe n _ _ w

  after_mark_retrying-IsSafe :
      (n : Notification) (c : Error) (e : Outcome) (w : World)
      → IsSafe w (after_mark_retrying s ctx n c e w).1
  unfolding after_mark_retrying
  after_mark_retrying-IsSafe n c (some e) w = IsSafe-refl w
  after_mark_retrying-IsSafe n c none w =
      IsSafe-trans w _ _ (IsBusStep-IsSafe w _ (publish_retry-IsBusStep ctx n _ w))
        (after_publish_retry-IsSafe n c _ _)

  after_mark_failed-IsSafe :
      (n : Notification) (c : Error) (e : Outcome) (w : World)
      → IsSafe w (after_mark_failed s ctx n c e w).1
  unfolding after_mark_failed record_delivered
  after_mark_failed-IsSafe n c (some e) w = IsSafe-refl w
  after_mark_failed-IsSafe n c none w =
      IsSafe-trans w _ _
        (IsSafe-trans w _ _ (count_metric-IsSafe s.has_metrics _ w)
          (emit_event-IsSafe n failed _ _))
        (IsBusStep-IsSafe _ _ (publish_dead_letter-IsBusStep ctx n _ _))

  handle_send_failure-IsSafe :
      (n : Notification) (c : Error) (w : World) → IsSafe w (handle_send_failure s ctx n c w).1
  unfolding handle_send_failure
  handle_send_failure-IsSafe n c w =
      elim (Bool-cases (is_retryable c && ltb n.attempts s.max_attempts)) [
        | inl h ↦ rw h (
            IsSafe-trans w _ _ (mark_retrying-IsSafe n.id _ w) (after_mark_retrying-IsSafe n c _ _))
        | inr h ↦
            rw h
              (IsSafe-trans w _ _ (mark_failed-IsSafe n.id _ w) (after_mark_failed-IsSafe n c _ _))
      ]

  after_mark_sent-IsSafe :
      (n : Notification) (r : SendResult) (e : Outcome) (w : World)
      → IsSafe w (after_mark_sent s n r e w).1
  unfolding after_mark_sent record_delivered
  after_mark_sent-IsSafe n r (some e) w = IsSafe-refl w
  after_mark_sent-IsSafe n r none w =
      IsSafe-trans w _ _ (count_metric-IsSafe s.has_metrics _ w) (emit_sent_event-IsSafe n r _)

  after_send-IsSafe :
      (id : ℕ) (n : Notification) (d : ℕ) (r : Result SendResult) (w : World)
      → IsSafe w (after_send s ctx id n d r w).1
  unfolding after_send record_attempt
  after_send-IsSafe id n d (err e) w =
      IsSafe-trans w _ _ (count_metric-IsSafe s.has_metrics _ w) (handle_send_failure-IsSafe n e _)
  after_send-IsSafe id n d (ok r) w =
      IsSafe-trans w _ _ (count_metric-IsSafe s.has_metrics _ w)
        (IsSafe-trans _ _ _ (mark_as_sent-IsSafe id _ _ _) (after_mark_sent-IsSafe n r _ _))

  call_send-IsSafe : (n : Notification) (w : World) → IsSafe w (call_send s n w).1
  unfolding call_send
  call_send-IsSafe n w = IsAside-IsSafe w _ (record {
    same_table = refl;
    same_turns = refl;
    later = s.sender.send_later n w.now w.provider;
  })

  deliver-IsSafe : (id : ℕ) (n : Notification) (w : World) → IsSafe w (deliver s ctx id n w).1
  unfolding deliver
  deliver-IsSafe id n w = IsSafe-trans w _ _ (call_send-IsSafe n w) (after_send-IsSafe id n _ _ _)

  after_wait-IsSafe :
      (id : ℕ) (n : Notification) (b : Bool) (w : World) → IsSafe w (after_wait s ctx id n b w).1
  unfolding after_wait
  after_wait-IsSafe id n true w = deliver-IsSafe id n w
  after_wait-IsSafe id n false w = mark_retrying-IsSafe n.id _ w

  wait-IsSafe : (w : World) → IsSafe w (wait w).1
  unfolding wait
  wait-IsSafe w = waited-IsSafe (next_wait w.waits) w

  after_claim-IsSafe :
      (id : ℕ) (r : Result Notification) (w : World) → IsSafe w (after_claim s ctx id r w).1
  unfolding after_claim
  after_claim-IsSafe id (err e) w = IsSafe-refl w
  after_claim-IsSafe id (ok n) w = IsSafe-trans w _ _ (wait-IsSafe w) (after_wait-IsSafe id n _ _)

-- From a sound world, with any settings, handling a message leads to a sound world, whatever fails
-- on the way and whatever statements of the code the other processes run meanwhile: no row is lost,
-- each row changes only by steps of these kinds: a legal move to queued or cancelled, a legal
-- claim that counts one attempt, a delivery or a set-back of a row that is processing, a new time of a
-- queued row; terminal rows do not change, and new rows start pending or scheduled, without attempts.
pub process_notification-Leads :
    (s : Settings) (ctx : Context) (id : ℕ) (w : World)
    → IsSound w
    → Leads w (process_notification s ctx id w).1
unfolding process_notification
process_notification-Leads s ctx id w =
    IsSafe-trans w _ _
      (claim_for_processing-IsSafe id (statuses_allowed_into processing) w
        (λ st h. sym (has_status-statuses_allowed_into st processing) ∙ h))
      (after_claim-IsSafe s ctx id _ _)
