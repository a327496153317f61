-- ===== src/Worker/Sends.antt =====
-- How often internal/worker/worker.go hands a notification to the provider.
use notifier.Base.{
  String, ℕ, ◌≡◌, refl, sym, ap, subst, ◌∙◌, ◌⊎◌, inl, inr, Bool, true, false, ◌&&◌, List, [], ◌∷◌,
  ◌++◌, Option, none, some, ltb, Bool-cases, In,
}
use notifier.Domain.Status.{Status, has_status, processing, statuses_allowed_into}
use notifier.Domain.Status.Machine.{has_status-statuses_allowed_into, is_terminal}
use notifier.Domain.Errors.{Error, Result, ok, err}
use notifier.Domain.Notification.{Notification}
use notifier.Storage.Table.{Table, Statement}
use notifier.Storage.Table.Evolves.{Follows-In}
use notifier.Domain.Status.Machine.{can_transition-terminal}
use notifier.Storage.Table.Picks.{IsKeyed-unique}
use notifier.Delivery.{SendResult, is_retryable}
use notifier.World.{World, Metric, arrive, exec, query}
use notifier.World.Safe.{IsSound, arrive-IsSafe, settle-elim}
use notifier.Storage.Repository.{
  Outcome, get_by_id, disambiguate, claimed, record_result, claim_for_processing, mark_retrying,
  mark_failed, mark_as_sent,
}
use notifier.Storage.Repository.Claim.{claim_for_processing-ok}
use notifier.Publisher.{Context}
use notifier.Publisher.Aside.{
  publish_event-IsBusStep, publish_retry-IsBusStep, publish_dead_letter-IsBusStep,
}
use notifier.Worker.{
  Settings, count_metric, record_attempt, record_delivered, emit_event, emit_sent_event,
  after_publish_retry, after_mark_retrying, after_mark_failed, handle_send_failure, after_mark_sent,
  after_send, call_send, deliver, wait, next_wait, waited, after_wait, after_claim,
  process_notification,
}

-- A step in which nothing is handed to the sender.
abbrev Keeps : World → World → Type 0
Keeps w v = v.sends ≡ w.sends

arrive-Keeps : (w : World) → Keeps w (arrive w)
unfolding arrive
arrive-Keeps w = refl

exec-Keeps :
    {A : Type 0} (label : String) (s : Statement) (reply : ℕ → Table → A) (w : World)
    → Keeps w (exec label s reply w).1
unfolding exec
exec-Keeps label s reply w = settle-elim (Keeps w) _ label _ _ _ (arrive-Keeps w) (arrive-Keeps w)

get_by_id-Keeps : (id : ℕ) (w : World) → Keeps w (get_by_id id w).1
unfolding get_by_id query
get_by_id-Keeps id w = settle-elim (Keeps w) _ _ _ _ _ (arrive-Keeps w) (arrive-Keeps w)

claimed-Keeps : (id : ℕ) (r : Result Table) (w : World) → Keeps w (claimed id r w).1
unfolding claimed disambiguate
claimed-Keeps id (err e) w = refl
claimed-Keeps id (ok []) w = get_by_id-Keeps id w
claimed-Keeps id (ok (n ∷ ns)) w = refl

claim-Keeps : (id : ℕ) (from : List Status) (w : World) → Keeps w (claim_for_processing id from w).1
unfolding claim_for_processing
claim-Keeps id from w = claimed-Keeps id _ _ ∙ exec-Keeps _ _ _ w

mark_retrying-Keeps : (id : ℕ) (e : String) (w : World) → Keeps w (mark_retrying id e w).1
unfolding mark_retrying record_result
mark_retrying-Keeps id e w = exec-Keeps _ _ _ w

mark_failed-Keeps : (id : ℕ) (e : String) (w : World) → Keeps w (mark_failed id e w).1
unfolding mark_failed record_result
mark_failed-Keeps id e w = exec-Keeps _ _ _ w

mark_as_sent-Keeps : (id : ℕ) (m : String) (at : ℕ) (w : World) → Keeps w (mark_as_sent id m at w).1
unfolding mark_as_sent
mark_as_sent-Keeps id m at w = exec-Keeps _ _ _ w

count_metric-Keeps : (b : Bool) (m : Metric) (w : World) → Keeps w (count_metric b m w)
count_metric-Keeps true m w = refl
count_metric-Keeps false m w = refl

module _ (s : Settings) (ctx : Context) where
  after_publish_retry-Keeps :
      (n : Notification) (c : Error) (e : Outcome) (w : World)
      → Keeps w (after_publish_retry s n c e w).1
  unfolding after_publish_retry emit_event
  after_publish_retry-Keeps n c (some e) w = refl
  after_publish_retry-Keeps n c none w = (publish_event-IsBusStep _ w).same_sends

  after_mark_retrying-Keeps :
      (n : Notification) (c : Error) (e : Outcome) (w : World)
      → Keeps w (after_mark_retrying s ctx n c e w).1
  unfolding after_mark_retrying
  after_mark_retrying-Keeps n c (some e) w = refl
  after_mark_retrying-Keeps n c none w =
      after_publish_retry-Keeps n c _ _ ∙ (publish_retry-IsBusStep ctx n n.attempts w).same_sends

  after_mark_failed-Keeps :
      (n : Notification) (c : Error) (e : Outcome) (w : World)
      → Keeps w (after_mark_failed s ctx n c e w).1
  unfolding after_mark_failed record_delivered emit_event
  after_mark_failed-Keeps n c (some e) w = refl
  after_mark_failed-Keeps n c none w =
      (publish_dead_letter-IsBusStep ctx n _ _).same_sends
      ∙ ((publish_event-IsBusStep _ _).same_sends ∙ count_metric-Keeps s.has_metrics _ w)

  handle_send_failure-Keeps :
      (n : Notification) (c : Error) (w : World) → Keeps w (handle_send_failure s ctx n c w).1
  unfolding handle_send_failure
  handle_send_failure-Keeps n c w =
      elim (Bool-cases (is_retryable c && ltb n.attempts s.max_attempts)) [
        | inl h ↦ rw h (after_mark_retrying-Keeps n c _ _ ∙ mark_retrying-Keeps n.id _ w)
        | inr h ↦ rw h (after_mark_failed-Keeps n c _ _ ∙ mark_failed-Keeps n.id _ w)
      ]

  after_mark_sent-Keeps :
      (n : Notification) (r : SendResult) (e : Outcome) (w : World)
      → Keeps w (after_mark_sent s n r e w).1
  unfolding after_mark_sent record_delivered emit_sent_event
  after_mark_sent-Keeps n r (some e) w = refl
  after_mark_sent-Keeps n r none w =
      (publish_event-IsBusStep _ _).same_sends ∙ count_metric-Keeps s.has_metrics _ w

  after_send-Keeps :
      (id : ℕ) (n : Notification) (d : ℕ) (r : Result SendResult) (w : World)
      → Keeps w (after_send s ctx id n d r w).1
  unfolding after_send record_attempt
  after_send-Keeps id n d (err e) w =
      handle_send_failure-Keeps n e _ ∙ count_metric-Keeps s.has_metrics _ w
  after_send-Keeps id n d (ok r) w =
      after_mark_sent-Keeps n r _ _
      ∙ (mark_as_sent-Keeps id _ _ _ ∙ count_metric-Keeps s.has_metrics _ w)

  deliver-sends :
      (id : ℕ) (n : Notification) (w : World) → (deliver s ctx id n w).1.sends ≡ w.sends ++ n ∷ []
  unfolding deliver call_send
  deliver-sends id n w = after_send-Keeps id n _ _ _

  waited-Keeps : (o : Option ℕ) (w : World) → Keeps w (waited o w).1
  waited-Keeps none w = refl
  waited-Keeps (some d) w = refl

  after_wait-sends :
      (id : ℕ) (n : Notification) (b : Bool) (w : World)
      → Keeps w (after_wait s ctx id n b w).1
        ⊎ ((after_wait s ctx id n b w).1.sends ≡ w.sends ++ n ∷ [])
  unfolding after_wait
  after_wait-sends id n true w = inr (deliver-sends id n w)
  after_wait-sends id n false w = inl (mark_retrying-Keeps n.id _ w)

  after_claim-sends :
      (id : ℕ) (r : Result Notification) (w : World)
      → Keeps w (after_claim s ctx id r w).1
        ⊎ ((n : Notification) × (r ≡ ok n)
            × ((after_claim s ctx id r w).1.sends ≡ w.sends ++ n ∷ []))
  unfolding after_claim wait
  after_claim-sends id (err e) w = inl refl
  after_claim-sends id (ok n) w = elim (after_wait-sends id n _ _) [
    | inl e ↦ inl (e ∙ waited-Keeps (next_wait w.waits) w)
    | inr e ↦ inr (n, refl, e ∙ ap (λ l. l ++ n ∷ []) (waited-Keeps (next_wait w.waits) w))
  ]

  -- Handling one message hands nothing to the provider, or exactly the notification that the
  -- guarded claim returned, once.
  pub process_notification-sends :
      (id : ℕ) (w : World)
      → ((process_notification s ctx id w).1.sends ≡ w.sends)
        ⊎ ((n : Notification) × ((claim_for_processing id (statuses_allowed_into processing) w).0
              ≡ ok n)
            × ((process_notification s ctx id w).1.sends ≡ w.sends ++ n ∷ []))
  unfolding process_notification
  process_notification-sends id w = elim (after_claim-sends id _ _) [
    | inl e ↦ inl (e ∙ claim-Keeps id _ w)
    | inr (n, e, h) ↦ inr (n, e, h ∙ ap (λ l. l ++ n ∷ []) (claim-Keeps id _ w))
  ]

  -- The other processes may run any statements of the code before the claim: a row that was sent,
  -- failed or cancelled is still the row with its identifier.
  terminal_stays :
      (w : World) (r q : Notification)
      → IsSound w
      → In r w.table
      → is_terminal r.status ≡ true
      → In q (arrive w).table
      → q.id ≡ r.id
      → q ≡ r
  terminal_stays w r q h m t n e =
      let a = arrive-IsSafe w h in
      let (p, within, ev) = Follows-In w.table (arrive w).table r a.follows m in
      IsKeyed-unique (arrive w).table q p a.sound.keyed n within (e ∙ sym ev.same_id) ∙ ev.frozen t

  -- A notification that was sent, has failed or was cancelled is never handed to the provider again,
  -- whichever messages about it are delivered, whatever queries fail and whatever statements the
  -- other processes run meanwhile.
  pub process_notification-terminal :
      (w : World) (r : Notification)
      → IsSound w
      → In r w.table
      → is_terminal r.status ≡ true
      → (process_notification s ctx r.id w).1.sends ≡ w.sends
  process_notification-terminal w r h m t = elim (process_notification-sends r.id w) [
    | inl e ↦ e
    | inr (n, c, e) ↦
        let (q, within, same, allowed, a) = claim_for_processing-ok r.id _ w n c in
        let kept = terminal_stays w r q h m t within same in
        absurd (
          can_transition-terminal r.status processing t (
            sym (has_status-statuses_allowed_into r.status processing)
            ∙ subst
                (λ (z : Notification).
                  has_status z.status (statuses_allowed_into processing) ≡ true)
                kept allowed))
  ]
