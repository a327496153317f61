-- ===== src/Service/Replay.antt =====
-- The idempotent replay of internal/service/notification.go.
use notifier.Base.{
  String, ℕ, ◌≡◌, refl, ap, ◌∙◌, true, false, [], ◌∷◌, Option, none, some, Bool-cases, inl, inr,
  arith, ◌&&◌,
}
use notifier.Domain.Status.{channel_valid, priority_valid, status_valid}
use notifier.Domain.Errors.{ok, is_duplicate_key, duplicate_idempotency_key}
use notifier.Domain.Notification.{Notification}
use notifier.Domain.Validate.{validate_new}
use notifier.Domain.Validate.Laws.{validate_new_iff}
use notifier.Template.{Engine}
use notifier.Storage.Table.{
  Table, key_taken, insert, apply, add_when, has_id, key_used, same_key, check_insert,
}
use notifier.Storage.Repository.{create as insert_row, find_key, get_by_idempotency_key}
use notifier.World.{World}
use notifier.World.Quiet.{IsQuiet, exec-quiet, query-quiet}
use notifier.Publisher.{Context}
use notifier.Service.Resolve.{CreateInput, resolve_content, resolve_with}
use notifier.Service.Create.{
  Service, initial_status, new_notification, minted, replay, after_insert, after_validate,
  after_resolve, create,
}

find_key-key_used :
    (k : String) (t : Table) (r : Notification) → find_key k t ≡ some r → key_used (some k) t ≡ true
unfolding find_key
find_key-key_used k [] r h = absurd (cc)
find_key-key_used k (x ∷ xs) r h = elim (Bool-cases (same_key x.idempotency_key (some k))) [
  | inl e ↦ rw e refl
  | inr e ↦ rw e (find_key-key_used k xs r (ground arith))
]

pub initial_status-valid : (t : Option ℕ) → status_valid (initial_status t) ≡ true
unfolding status_valid
initial_status-valid none = refl
initial_status-valid (some t) = refl

-- A new notification with a key in use violates the unique index, and nothing else.
insert_row-key_taken :
    (n r : Notification) (k : String) (w : World)
    → IsQuiet w
    → channel_valid n.channel && (priority_valid n.priority && status_valid n.status) ≡ true
    → has_id n.id w.table ≡ false
    → n.idempotency_key ≡ some k
    → find_key k w.table ≡ some r
    → insert_row n w ≡ (some duplicate_idempotency_key, w)
unfolding insert_row check_insert apply add_when
insert_row-key_taken n r k w q v i e f =
    let used : key_used n.idempotency_key w.table ≡ true =
      ap (λ x. key_used x w.table) e ∙ find_key-key_used k w.table r f in
    let c : check_insert n w.table ≡ some key_taken = rw (v, i, used) refl in
    rw (exec-quiet "insert notification" (insert n) (λ now t. check_insert n t) w q) (rw c refl)

is_duplicate_key_self : is_duplicate_key duplicate_idempotency_key ≡ true
unfolding is_duplicate_key
is_duplicate_key_self = refl

get_by_idempotency_key-found :
    (k : String) (r : Notification) (w : World)
    → IsQuiet w
    → find_key k w.table ≡ some r
    → get_by_idempotency_key k w ≡ (ok r, w)
unfolding get_by_idempotency_key
get_by_idempotency_key-found k r w q f =
    rw (query-quiet "select notification by idempotency key" (λ now t. find_key k t) w q)
      (rw f refl)

-- The steps of a create whose key is in use, from the insertion on.
after_validate-replay :
    (s : Service) (ctx : Context) (n r : Notification) (k : String) (w : World)
    → IsQuiet w
    → channel_valid n.channel && (priority_valid n.priority && status_valid n.status) ≡ true
    → has_id n.id w.table ≡ false
    → n.idempotency_key ≡ some k
    → find_key k w.table ≡ some r
    → after_validate s ctx n none w ≡ (ok (record { notification = r; replayed = true }), w)
unfolding after_validate after_insert replay
after_validate-replay s ctx n r k w q v i e f =
    rw (insert_row-key_taken n r k w q v i e f)
      (rw e (rw is_duplicate_key_self (rw (get_by_idempotency_key-found k r w q f) refl)))

-- With no faults and no interference, creating a notification with its content given, that passes the
-- checks and whose idempotency key is stored already, returns the stored notification as a replay,
-- and changes nothing: no row, no message, no event and no counter.
pub create-replay :
    (engine : Engine) (quote : String → String) (s : Service) (ctx : Context) (input : CreateInput)
    (k : String) (r : Notification) (w : World)
    → IsQuiet w
    → input.template ≡ none
    → validate_new (new_notification w.next_id input input.content w.now none) w.now ≡ none
    → has_id w.next_id w.table ≡ false
    → input.idempotency_key ≡ some k
    → find_key k w.table ≡ some r
    → create engine quote s ctx input w
      ≡ (ok (record { notification = r; replayed = true }), minted w)
unfolding create resolve_content resolve_with after_resolve new_notification
create-replay engine quote s ctx input k r w q t v i e f =
    let n = new_notification w.next_id input input.content w.now none in
    let a = (validate_new_iff n w.now).0 v in
    let valid : channel_valid n.channel && (priority_valid n.priority && status_valid n.status)
        ≡ true =
      rw (a.channel_known, a.priority_known, initial_status-valid input.scheduled_at) refl in
    rw t (rw v (after_validate-replay s ctx n r k (minted w) q valid i e f))
