-- ===== src/Service/Fresh.antt =====
-- `Create` of internal/service/notification.go for a request that is no replay: the row it leaves.
use notifier.Base.{
  String, ℕ, ◌≡◌, refl, ap, ◌∙◌, true, false, [], ◌∷◌, ◌++◌, Option, none, some, Bool-cases, inl,
  inr, arith, ◌&&◌, ◌==◌,
}
use notifier.Domain.Status.{
  Status, pending, queued, has_status, channel_valid, priority_valid, status_valid,
}
use notifier.Domain.Errors.{Error, Result, ok}
use notifier.Domain.Notification.{Notification}
use notifier.Domain.Validate.{validate_new}
use notifier.Domain.Validate.Laws.{validate_new_iff}
use notifier.Template.{Engine}
use notifier.Storage.Table.{
  Table, microsecond, microseconds, stored, insert, apply, add_when, has_id, key_used, check_insert,
}
use notifier.Storage.Table.Keys.{IsKeyed, apply-IsKeyed}
use notifier.Storage.Repository.{create as insert_row, find_id}
use notifier.Storage.Repository.Find.{HasRow}
use notifier.Storage.Repository.Moves.{update_status-quiet}
use notifier.World.{World}
use notifier.World.Quiet.{IsQuiet, exec-quiet}
use notifier.Publisher.{Context}
use notifier.Publisher.Aside.{publish_created-IsBusStep, publish_event-IsBusStep}
use notifier.Worker.Outcomes.{HasRow-bus}
use notifier.Service.Resolve.{CreateInput, resolve_content, resolve_with}
use notifier.Service.Create.{
  Service, CreateResult, new_notification, minted, record_created, emit_event, after_queued,
  after_publish, publish_for_delivery, hand_over, after_insert, after_validate, after_resolve,
  create,
}
use notifier.Service.Replay.{initial_status-valid}

find_id-append :
    (n : Notification) (t : Table) → has_id n.id t ≡ false → find_id n.id (t ++ n ∷ []) ≡ some n
unfolding find_id
find_id-append n [] h = ground arith
find_id-append n (x ∷ xs) h =
    let other : (x.id == n.id) ≡ false = ground arith in
    rw other (find_id-append n xs (ground arith))

-- The insertion of a row that keeps the constraints.
insert_row-quiet :
    (n : Notification) (w : World)
    → IsQuiet w
    → IsKeyed w.table
    → channel_valid n.channel && (priority_valid n.priority && status_valid n.status) ≡ true
    → has_id n.id w.table ≡ false
    → key_used n.idempotency_key w.table ≡ false
    → let v = record w { table = apply (insert n) w.now w.table } in
      (insert_row n w ≡ (none, v)) × HasRow n.id (stored n) v
unfolding insert_row check_insert apply add_when
insert_row-quiet n w q k v i u =
    let c : check_insert n w.table ≡ none = rw (v, i, u) refl in
    let t : apply (insert n) w.now w.table ≡ w.table ++ stored n ∷ [] = rw c refl in
    (
      rw (exec-quiet "insert notification" (insert n) (λ now t. check_insert n t) w q) (rw c refl),
      record {
        quiet = q;
        keyed = apply-IsKeyed (insert n) w.now w.table k;
        found = ap (find_id n.id) t ∙ find_id-append (stored n) w.table i;
      },
    )

-- The row that is kept of a notification: its times in microseconds, and the time of a change.
abbrev pub kept : Notification → ℕ → Notification
kept n at = record n {
  scheduled_at = microseconds n.scheduled_at;
  created_at = microsecond n.created_at;
  updated_at = at;
}

abbrev pub Holds : ℕ → Notification → World → Type 0
Holds id n w = (at : ℕ) × HasRow id (kept n at) w

after_queued-Holds :
    (n : Notification) (w : World)
    → Holds n.id (record n { status = queued }) w
    → Holds n.id (after_queued n none w).0 (after_queued n none w).1
unfolding after_queued emit_event
after_queued-Holds n w (at, h) = (at, HasRow-bus n.id _ w _ (publish_event-IsBusStep _ w) h)

after_publish-Holds :
    (n : Notification) (e : Option Error) (w : World)
    → Holds n.id n w
    → n.status ≡ pending
    → Holds n.id (after_publish n e w).0 (after_publish n e w).1
unfolding after_publish has_status
after_publish-Holds n (some e) w h p = h
after_publish-Holds n none w (at, h) p =
    let (run, row) = update_status-quiet n.id queued (pending ∷ []) w (kept n at) h (rw p refl) in
    rw run (after_queued-Holds n _ (w.now, row))

hand_over-Holds :
    (ctx : Context) (n : Notification) (s : Status) (w : World)
    → n.status ≡ s
    → Holds n.id n w
    → Holds n.id (hand_over ctx n s w).0 (hand_over ctx n s w).1
unfolding hand_over publish_for_delivery
hand_over-Holds ctx n pending w p (at, h) =
    let step = publish_created-IsBusStep ctx n w in
    after_publish-Holds n _ _ (at, HasRow-bus n.id (kept n at) w _ step h) p
hand_over-Holds ctx n _ w p h = h

abbrev pub Answers : ℕ → Result CreateResult × World → Type 0
Answers id z =
    (m : Notification) × (z.0 ≡ ok (record { notification = m; replayed = false })) × Holds id m z.1

record_created-HasRow :
    (s : Service) (n r : Notification) (w : World)
    → HasRow n.id r w
    → HasRow n.id r (record_created s n w)
unfolding record_created
record_created-HasRow s n r w h = elim (Bool-cases s.has_metrics) [
  | inl e ↦ rw e (record { quiet = h.quiet; keyed = h.keyed; found = h.found })
  | inr e ↦ rw e h
]

after_insert-Answers :
    (s : Service) (ctx : Context) (n : Notification) (w : World)
    → Holds n.id n w
    → Answers n.id (after_insert s ctx n none w)
unfolding after_insert
after_insert-Answers s ctx n w (at, h) =
    (_, refl, hand_over-Holds ctx n n.status _ refl (at, record_created-HasRow s n (kept n at) w h))

-- With no faults in the database and no interference, whatever the broker answers: a notification with
-- its content given, that passes the checks, with an unused key and an unused identifier, is created;
-- the result is no replay, and the table then has under the identifier the same row, its times in
-- microseconds and its time of change aside.
pub create-fresh :
    (engine : Engine) (quote : String → String) (s : Service) (ctx : Context) (input : CreateInput)
    (w : World)
    → IsQuiet w
    → IsKeyed w.table
    → input.template ≡ none
    → validate_new (new_notification w.next_id input input.content w.now none) w.now ≡ none
    → has_id w.next_id w.table ≡ false
    → key_used input.idempotency_key w.table ≡ false
    → Answers w.next_id (create engine quote s ctx input w)
unfolding create resolve_content resolve_with after_resolve new_notification after_validate
create-fresh engine quote s ctx input w q k t v i u =
    let n = new_notification w.next_id input input.content w.now none in
    let a = (validate_new_iff n w.now).0 v in
    let valid : channel_valid n.channel && (priority_valid n.priority && status_valid n.status)
        ≡ true =
      rw (a.channel_known, a.priority_known, initial_status-valid input.scheduled_at) refl in
    let (run, row) = insert_row-quiet n (minted w) q k valid i u in
    rw t (rw v (rw run (after_insert-Answers s ctx n _ (microsecond w.now, row))))
