-- ===== src/Worker/Outcomes.antt =====
-- What internal/worker/worker.go makes of a notification, when no query fails and no other process
-- interferes: the row after the message was handled, for every answer of the provider.
use notifier.Base.{
  ℕ, ◌+◌, ◌≡◌, refl, sym, ap, subst, ◌∙◌, inl, inr, Bool, true, false, ◌&&◌, none, some, ltb,
  Bool-cases, if◌then◌else◌,
}
use notifier.Domain.Status.{
  channel_text, can_transition, processing, failed, sent, retrying, statuses_allowed_into,
}
use notifier.Domain.Status.Machine.{has_status-statuses_allowed_into}
use notifier.Domain.Errors.{Error, Result, ok, err, error_text}
use notifier.Domain.Notification.{Notification}
use notifier.Storage.Table.{microsecond, assign}
use notifier.Storage.Table.Keys.{IsKeyed}
use notifier.Storage.Repository.{find_id, Outcome, mark_retrying, mark_failed}
use notifier.Storage.Repository.Find.{
  HasRow, claim_for_processing-quiet, mark_as_sent-quiet, record_result-quiet,
}
use notifier.Delivery.{SendResult, is_retryable}
use notifier.World.{World, Metric, attempted}
use notifier.Publisher.{Context}
use notifier.Publisher.Aside.{
  IsBusStep, publish_event-IsBusStep, publish_retry-IsBusStep, publish_dead_letter-IsBusStep,
}
use notifier.Worker.{
  Settings, count_metric, record_attempt, record_delivered, emit_event, emit_sent_event,
  after_publish_retry, after_mark_retrying, after_mark_failed, handle_send_failure, after_mark_sent,
  after_send, call_send, deliver, wait, next_wait, after_wait, after_claim, process_notification,
}

-- The row of a claimed notification after the provider answered, by the retry policy.
abbrev pub outcome_row : Settings → Notification → Result SendResult → ℕ → Notification
outcome_row s n (ok r) now = record n {
  status = sent;
  provider_message_id = some r.provider_message_id;
  sent_at = some (microsecond now);
  updated_at = now;
}
outcome_row s n (err e) now = record n {
  status = if is_retryable e && ltb n.attempts s.max_attempts then retrying else failed;
  last_error = some (error_text s.quote e);
  updated_at = now;
}

HasRow-along :
    (id : ℕ) (r : Notification) (w v : World)
    → v.table ≡ w.table
    → v.turns ≡ w.turns
    → HasRow id r w
    → HasRow id r v
HasRow-along id r w v t q h = record {
  quiet = q ∙ h.quiet;
  keyed = subst IsKeyed (sym t) h.keyed;
  found = ap (find_id id) t ∙ h.found;
}

pub HasRow-bus :
    (id : ℕ) (r : Notification) (w v : World) → IsBusStep w v → HasRow id r w → HasRow id r v
HasRow-bus id r w v b h = HasRow-along id r w v b.same_table b.same_turns h

HasRow-metric :
    (id : ℕ) (r : Notification) (b : Bool) (m : Metric) (w : World)
    → HasRow id r w
    → HasRow id r (count_metric b m w)
HasRow-metric id r true m w h = HasRow-along id r w _ refl refl h
HasRow-metric id r false m w h = h

now-metric : (b : Bool) (m : Metric) (w : World) → (count_metric b m w).now ≡ w.now
now-metric true m w = refl
now-metric false m w = refl

module _ (s : Settings) (ctx : Context) (id : ℕ) where
  after_publish_retry-row :
      (n r : Notification) (c : Error) (e : Outcome) (w : World)
      → HasRow id r w
      → HasRow id r (after_publish_retry s n c e w).1
  unfolding after_publish_retry emit_event
  after_publish_retry-row n r c (some e) w h = h
  after_publish_retry-row n r c none w h = HasRow-bus id r w _ (publish_event-IsBusStep _ w) h

  after_mark_retrying-row :
      (n r : Notification) (c : Error) (w : World)
      → HasRow id r w
      → HasRow id r (after_mark_retrying s ctx n c none w).1
  unfolding after_mark_retrying
  after_mark_retrying-row n r c w h =
      after_publish_retry-row n r c _ _
        (HasRow-bus id r w _ (publish_retry-IsBusStep ctx n n.attempts w) h)

  after_mark_failed-row :
      (n r : Notification) (c : Error) (w : World)
      → HasRow id r w
      → HasRow id r (after_mark_failed s ctx n c none w).1
  unfolding after_mark_failed record_delivered emit_event
  after_mark_failed-row n r c w h =
      HasRow-bus id r _ _ (publish_dead_letter-IsBusStep ctx n _ _)
        (HasRow-bus id r _ _ (publish_event-IsBusStep _ _) (HasRow-metric id r s.has_metrics _ w h))

module _ (s : Settings) (ctx : Context) where
  handle_send_failure-row :
      (n : Notification) (c : Error) (w : World)
      → HasRow n.id n w
      → n.status ≡ processing
      → HasRow n.id (outcome_row s n (err c) w.now) (handle_send_failure s ctx n c w).1
  unfolding handle_send_failure mark_retrying mark_failed assign
  handle_send_failure-row n c w h p =
      elim (Bool-cases (is_retryable c && ltb n.attempts s.max_attempts)) [
        | inl e ↦
            let (run, row) = record_result-quiet n.id retrying (error_text s.quote c) w n h p in
            rw (e, run) (after_mark_retrying-row s ctx n.id n _ c _ row)
        | inr e ↦
            let (run, row) = record_result-quiet n.id failed (error_text s.quote c) w n h p in
            rw (e, run) (after_mark_failed-row s ctx n.id n _ c _ row)
      ]

  after_mark_sent-row :
      (id : ℕ) (n q : Notification) (r : SendResult) (w : World)
      → HasRow id q w
      → HasRow id q (after_mark_sent s n r none w).1
  unfolding after_mark_sent record_delivered emit_sent_event
  after_mark_sent-row id n q r w h =
      HasRow-bus id q _ _ (publish_event-IsBusStep _ _) (HasRow-metric id q s.has_metrics _ w h)

  outcome_row-time :
      (n : Notification) (r : Result SendResult) (t u : ℕ) (w : World)
      → t ≡ u
      → HasRow n.id (outcome_row s n r t) w
      → HasRow n.id (outcome_row s n r u) w
  outcome_row-time n r t u w e h = subst (λ x. HasRow n.id (outcome_row s n r x) w) e h

  after_send-row :
      (n : Notification) (d : ℕ) (r : Result SendResult) (w : World)
      → HasRow n.id n w
      → n.status ≡ processing
      → HasRow n.id (outcome_row s n r w.now) (after_send s ctx n.id n d r w).1
  unfolding after_send record_attempt assign
  after_send-row n d (err e) w h p =
      let kind = if is_retryable e then "retryable" else "permanent" in
      let m = attempted (channel_text n.channel) kind d in
      outcome_row-time n (err e) _ w.now _ (now-metric s.has_metrics m w)
        (handle_send_failure-row n e _ (HasRow-metric n.id n s.has_metrics m w h) p)
  after_send-row n d (ok r) w h p =
      let v = count_metric s.has_metrics (attempted (channel_text n.channel) "success" d) w in
      let (run, row) =
        mark_as_sent-quiet n.id r.provider_message_id v.now v n
          (HasRow-metric n.id n s.has_metrics _ w h) p in
      rw run (
        outcome_row-time n (ok r) _ w.now _ (now-metric s.has_metrics _ w)
          (after_mark_sent-row n.id n _ r _ row))

  -- The world when the wait for the limiter was granted after `d`.
  after_claim-row :
      (n : Notification) (d : ℕ) (w : World)
      → HasRow n.id n w
      → n.status ≡ processing
      → next_wait w.waits ≡ some d
      → let (answer, p, t) = s.sender.send n (w.now + d) w.provider in
        HasRow n.id (outcome_row s n answer t) (after_claim s ctx n.id (ok n) w).1
  unfolding after_claim wait after_wait deliver call_send
  after_claim-row n d w h p granted =
      rw granted (after_send-row n _ _ _ (HasRow-along n.id n w _ refl refl h) p)

-- The notification as the claim returns it.
abbrev pub claimed_row : Notification → ℕ → Notification
claimed_row r now = record r { status = processing; attempts = r.attempts + 1; updated_at = now }

-- When no query fails, nobody interferes and the limiter grants the wait, the message of a row with
-- a claimable status leaves the row with one attempt more and, by the provider's answer: sent with
-- the provider's id and the time; retrying with the error if it may be retried and fewer than the
-- maximum of attempts were made; otherwise failed with the error.
pub process_notification-row :
    (s : Settings) (ctx : Context) (r : Notification) (d : ℕ) (w : World)
    → HasRow r.id r w
    → can_transition r.status processing ≡ true
    → next_wait w.waits ≡ some d
    → let n = claimed_row r w.now in
      let (answer, p, t) = s.sender.send n (w.now + d) w.provider in
      HasRow r.id (outcome_row s n answer t) (process_notification s ctx r.id w).1
unfolding process_notification assign
process_notification-row s ctx r d w h may granted =
    let (run, row) =
      claim_for_processing-quiet r.id (statuses_allowed_into processing) w r h
        (has_status-statuses_allowed_into r.status processing ∙ may) in
    rw run (after_claim-row s ctx (claimed_row r w.now) d _ row refl granted)
