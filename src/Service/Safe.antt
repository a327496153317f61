-- ===== src/Service/Safe.antt =====
-- What internal/service does to the database: creating and cancelling are safe steps of the world.
use notifier.Base.{
  String, ℕ, ◌≤◌, subst, arith, ◌≡◌, refl, sym, ◌∙◌, Bool, true, not, Option, none, some,
  Bool-cases, inl, inr, str_eq, [], ◌∷◌,
}
use native.Mathlib.Nat.{le_refl}
use notifier.Domain.Status.{
  Channel, Status, pending, queued, cancelled, cancellable_statuses, statuses_allowed_into,
  has_status, can_transition,
}
use notifier.Domain.Status.Machine.{has_status-statuses_allowed_into}
use notifier.Domain.Errors.{Error, is_duplicate_key, Result, ok, err}
use notifier.Domain.Notification.{Notification}
use notifier.Domain.Template.{Template}
use notifier.Template.{Engine}
use notifier.World.{World}
use notifier.World.Safe.{
  IsSound, Leads, IsSafe, IsSafe-refl, IsSafe-trans, IsAside-IsSafe, arrive-IsSafe, settle-elim,
}
use notifier.Storage.Table.Evolves.{is_initial}
use notifier.Storage.Repository.{Outcome}
use notifier.Storage.Repository.Safe.{
  get_by_id-IsSafe, get_by_idempotency_key-IsSafe, create-IsSafe, update_status-IsSafe,
}
use notifier.Publisher.{Context}
use notifier.Publisher.Aside.{IsBusStep-IsSafe, publish_created-IsBusStep, publish_event-IsBusStep}
use notifier.Service.Resolve.{
  TemplateRef, CreateInput, get_template_by_name, Resolver, new_resolver, use_loaded, use_known,
  resolve_template, resolve_with, resolve_content,
}
use notifier.Service.Create.{
  Service, record_created, emit_event, initial_status, new_notification, minted, after_queued,
  after_publish, publish_for_delivery, replay, hand_over, after_insert, after_validate,
  after_resolve, create,
}
use notifier.Service.Cancel.{after_load, after_cancelled, cancel}

-- A step that changes neither the table, the schedule nor the clock.
pub idle-IsSafe : (w v : World) → v.table ≡ w.table → v.turns ≡ w.turns → v.now ≡ w.now → IsSafe w v
idle-IsSafe w v t q n = IsAside-IsSafe w v (record {
  same_table = t;
  same_turns = q;
  later = subst (λ x. w.now ≤ x) (sym n) (le_refl w.now);
})

get_template_by_name-IsSafe : (name : String) (w : World) → IsSafe w (get_template_by_name name w).1
unfolding get_template_by_name
get_template_by_name-IsSafe name w =
    settle-elim (IsSafe w) _ "select template" _ _ _ (arrive-IsSafe w) (arrive-IsSafe w)

pub emit_event-IsSafe : (n : Notification) (s : Status) (w : World) → IsSafe w (emit_event n s w)
unfolding emit_event
emit_event-IsSafe n s w = IsBusStep-IsSafe w _ (publish_event-IsBusStep _ w)

module _ (engine : Engine) (quote : String → String) where
  use_loaded-IsSafe :
      (ref : TemplateRef) (c : Channel) (rs : Resolver engine quote) (r : Result Template)
      (w : World)
      → IsSafe w (use_loaded engine quote ref c rs r w).2
  unfolding use_loaded
  use_loaded-IsSafe ref c rs (err e) w = IsSafe-refl w
  use_loaded-IsSafe ref c rs (ok t) w = IsSafe-refl w

  use_known-IsSafe :
      (ref : TemplateRef) (c : Channel) (rs : Resolver engine quote) (o : Option Template)
      (w : World)
      → IsSafe w (use_known engine quote ref c rs o w).2
  unfolding use_known
  use_known-IsSafe ref c rs (some t) w = IsSafe-refl w
  use_known-IsSafe ref c rs none w =
      IsSafe-trans w _ _ (get_template_by_name-IsSafe ref.name w) (use_loaded-IsSafe ref c rs _ _)

  pub resolve_with-IsSafe :
      (b : Bool) (input : CreateInput) (o : Option TemplateRef) (rs : Resolver engine quote)
      (w : World)
      → IsSafe w (resolve_with engine quote b input o rs w).2
  unfolding resolve_with resolve_template
  resolve_with-IsSafe b input none rs w = IsSafe-refl w
  resolve_with-IsSafe b input (some ref) rs w = elim (Bool-cases (not (str_eq input.content ""))) [
    | inl e ↦ rw e (IsSafe-refl w)
    | inr e ↦ elim (Bool-cases b) [
      | inl f ↦ rw (e, f) (use_known-IsSafe ref input.channel rs _ w)
      | inr f ↦ rw (e, f) (IsSafe-refl w)
    ]
  ]

pub record_created-IsSafe :
    (s : Service) (n : Notification) (w : World) → IsSafe w (record_created s n w)
unfolding record_created
record_created-IsSafe s n w = elim (Bool-cases s.has_metrics) [
  | inl e ↦ rw e (idle-IsSafe w _ refl refl refl)
  | inr e ↦ rw e (IsSafe-refl w)
]

into-status :
    (to from : Status)
    → has_status from (statuses_allowed_into to) ≡ true
    → can_transition from to ≡ true
into-status to from h = sym (has_status-statuses_allowed_into from to) ∙ h

from-pending : (s : Status) → has_status s (pending ∷ []) ≡ true → can_transition s queued ≡ true
unfolding can_transition has_status
from-pending pending h = refl
from-pending _ h = ground arith

after_queued-IsSafe : (n : Notification) (e : Outcome) (w : World) → IsSafe w (after_queued n e w).1
unfolding after_queued
after_queued-IsSafe n (some e) w = IsSafe-refl w
after_queued-IsSafe n none w = emit_event-IsSafe _ queued w

after_publish-IsSafe :
    (n : Notification) (e : Outcome) (w : World) → IsSafe w (after_publish n e w).1
unfolding after_publish
after_publish-IsSafe n (some e) w = IsSafe-refl w
after_publish-IsSafe n none w =
    IsSafe-trans w _ _ (update_status-IsSafe n.id queued (pending ∷ []) w refl from-pending)
      (after_queued-IsSafe n _ _)

hand_over-IsSafe :
    (ctx : Context) (n : Notification) (s : Status) (w : World) → IsSafe w (hand_over ctx n s w).1
unfolding hand_over publish_for_delivery
hand_over-IsSafe ctx n pending w =
    IsSafe-trans w _ _ (IsBusStep-IsSafe w _ (publish_created-IsBusStep ctx n w))
      (after_publish-IsSafe n _ _)
hand_over-IsSafe ctx n _ w = IsSafe-refl w

replay-IsSafe : (e : Error) (k : Option String) (w : World) → IsSafe w (replay e k w).1
unfolding replay
replay-IsSafe e none w = IsSafe-refl w
replay-IsSafe e (some k) w = elim (Bool-cases (is_duplicate_key e)) [
  | inl h ↦ rw h (get_by_idempotency_key-IsSafe k w)
  | inr h ↦ rw h (IsSafe-refl w)
]

module _ (s : Service) (ctx : Context) where
  after_insert-IsSafe :
      (n : Notification) (e : Outcome) (w : World) → IsSafe w (after_insert s ctx n e w).1
  unfolding after_insert
  after_insert-IsSafe n (some e) w = replay-IsSafe e n.idempotency_key w
  after_insert-IsSafe n none w =
      IsSafe-trans w _ _ (record_created-IsSafe s n w) (hand_over-IsSafe ctx n n.status _)

  after_validate-IsSafe :
      (n : Notification) (e : Option Error) (w : World)
      → is_initial n.status ≡ true
      → IsSafe w (after_validate s ctx n e w).1
  unfolding after_validate
  after_validate-IsSafe n (some e) w h = IsSafe-refl w
  after_validate-IsSafe n none w h =
      IsSafe-trans w _ _ (create-IsSafe n w h) (after_insert-IsSafe n _ _)

  initial_status-is_initial : (t : Option ℕ) → is_initial (initial_status t) ≡ true
  initial_status-is_initial none = refl
  initial_status-is_initial (some t) = refl

  after_resolve-IsSafe :
      (input : CreateInput) (now : ℕ) (r : Result String) (w : World)
      → IsSafe w (after_resolve s ctx input now r w).1
  unfolding after_resolve new_notification
  after_resolve-IsSafe input now (err e) w = IsSafe-refl w
  after_resolve-IsSafe input now (ok c) w =
      IsSafe-trans w _ _ (idle-IsSafe w (minted w) refl refl refl)
        (after_validate-IsSafe _ _ _ (initial_status-is_initial input.scheduled_at))

  -- From a sound world, creating a notification from any input, with any template engine, leads to
  -- a sound world whose rows come from the first ones by legal moves, whatever fails on the way and
  -- whatever statements of the code the other processes run meanwhile.
  pub create-Leads :
      (engine : Engine) (quote : String → String) (input : CreateInput) (w : World)
      → IsSound w
      → Leads w (create engine quote s ctx input w).1
  unfolding create resolve_content
  create-Leads engine quote input w =
      IsSafe-trans w _ _
        (resolve_with-IsSafe engine quote s.has_templates input input.template
          (new_resolver engine quote) w)
        (after_resolve-IsSafe input w.now _ _)

after_load-IsSafe : (r : Result Notification) (w : World) → IsSafe w (after_load r w).1
unfolding after_load
after_load-IsSafe (err e) w = IsSafe-refl w
after_load-IsSafe (ok n) w = emit_event-IsSafe n cancelled w

after_cancelled-IsSafe : (id : ℕ) (e : Outcome) (w : World) → IsSafe w (after_cancelled id e w).1
unfolding after_cancelled
after_cancelled-IsSafe id (some e) w = IsSafe-refl w
after_cancelled-IsSafe id none w =
    IsSafe-trans w _ _ (get_by_id-IsSafe id w) (after_load-IsSafe _ _)

-- From a sound world, cancelling any notification leads to a sound world whose rows come from the
-- first ones by legal moves: a notification that is processing, retrying, sent or failed is not
-- cancelled.
pub cancel-Leads : (id : ℕ) (w : World) → IsSound w → Leads w (cancel id w).1
unfolding cancel cancellable_statuses
cancel-Leads id w =
    IsSafe-trans w _ _
      (update_status-IsSafe id cancelled cancellable_statuses w refl (into-status cancelled))
      (after_cancelled-IsSafe id _ _)
