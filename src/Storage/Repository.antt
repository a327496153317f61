-- ===== src/Storage/Repository.antt =====
-- internal/storage/postgres/repository.go: the operations of `NotificationRepository`.
pub mod Safe
pub mod Claim
pub mod Find
pub mod Moves
pub mod Due
use notifier.Base.{
  String, ℕ, ◌+◌, Bool, true, false, not, ◌&&◌, ◌||◌, List, [], ◌∷◌, ◌++◌, map, Option, none, some,
  ltb, leb, ◌==◌, if◌then◌else◌, str_eq, select, exists, take,
}
use notifier.Domain.Status.{
  Status, Channel, channel_eq, status_eq, retrying, failed, queued, pending,
}
use notifier.Domain.Errors.{
  Error, not_found, invalid_transition, duplicate_idempotency_key, external, wrapped, is_not_found,
  Result, ok, err,
}
use notifier.Domain.Notification.{Notification}
use notifier.Domain.List.{ListQuery, has_status_filter, has_channel_filter}
use notifier.Storage.Table.{
  Table, Statement, insert, copy, set_status, claim, record_outcome, mark_sent, mark_queued,
  claim_due, recover_stale, touch_queued, same_key, sort_by, affected, Violation, bad_value,
  id_taken, key_taken, check_insert, check_copy,
}
use notifier.World.{World, exec, query}

-- Go's `error`: none is nil.
abbrev pub Outcome : Type 0
Outcome = Option Error

-- The first row with an identifier, or with an idempotency key.
unfoldable pub find_id : ℕ → Table → Option Notification
find_id id [] = none
find_id id (r ∷ rs) = if r.id == id then some r else find_id id rs

unfoldable pub find_key : String → Table → Option Notification
find_key k [] = none
find_key k (r ∷ rs) = if same_key r.idempotency_key (some k) then some r else find_key k rs

-- `pgx.ErrNoRows` as `domain.ErrNotFound`.
abbrev or_not_found : Result (Option Notification) → Result Notification
or_not_found (ok (some n)) = ok n
or_not_found (ok none) = err not_found
or_not_found (err e) = err e

unfoldable pub get_by_id : ℕ → World → Result Notification × World
get_by_id id w =
    let (r, v) = query "select notification" (λ now t. find_id id t) w in (or_not_found r, v)

unfoldable pub get_by_idempotency_key : String → World → Result Notification × World
get_by_idempotency_key k w =
    let (r, v) = query "select notification by idempotency key" (λ now t. find_key k t) w in
    (or_not_found r, v)

-- The result of an INSERT or a COPY, with its violations told apart.
abbrev insert_outcome : String → Result (Option Violation) → Outcome
insert_outcome label (ok none) = none
insert_outcome label (ok (some key_taken)) = some duplicate_idempotency_key
insert_outcome label (ok (some id_taken)) = some (wrapped label (external "duplicate id"))
insert_outcome label (ok (some bad_value)) = some (wrapped label (external "bad enumeration value"))
insert_outcome label (err e) = some e

unfoldable pub create : Notification → World → Outcome × World
create n w =
    let (r, v) = exec "insert notification" (insert n) (λ now t. check_insert n t) w in
    (insert_outcome "insert notification" r, v)

-- `CreateBatch`: with no rows it does not touch the database.
unfoldable pub create_batch : List Notification → World → Outcome × World
create_batch [] w = (none, w)
create_batch (n ∷ ns) w =
    let (r, v) =
      exec "copy batch notifications" (copy (n ∷ ns)) (λ now t. check_copy (n ∷ ns) t) w in
    (insert_outcome "copy batch notifications" r, v)

abbrev error_of {ℓ} : {A : Type ℓ} → Result A → Outcome
error_of (ok a) = none
error_of (err e) = some e

unfoldable pub mark_queued_bulk : List ℕ → World → Outcome × World
mark_queued_bulk [] w = (none, w)
mark_queued_bulk (i ∷ is) w =
    let (r, v) = exec "bulk mark queued" (mark_queued (i ∷ is)) (λ now t. tt {0}) w in
    (error_of r, v)

-- The pairs of a listed key and its row, in the order of the table.
abbrev key_listed : Option String → List String → Bool
key_listed k ks = exists (λ j. same_key (some j) k) ks

unfoldable pub existing_keys : List String → Table → List (String × ℕ)
existing_keys ks [] = []
existing_keys ks (r ∷ rs) =
    let more = existing_keys ks rs in
    elim r.idempotency_key [
      | none ↦ more
      | some k ↦ if key_listed (some k) ks then (k, r.id) ∷ more else more
    ]

unfoldable pub existing_idempotency_keys : List String → World → Result (List (String × ℕ)) × World
existing_idempotency_keys [] w = (ok [], w)
existing_idempotency_keys (k ∷ ks) w =
    query "check existing idempotency keys" (λ now t. existing_keys (k ∷ ks) t) w

-- No row was changed: is it missing, or did the guard reject the move?
abbrev rejected : Result Notification → Error
rejected (ok n) = invalid_transition
rejected (err e) = if is_not_found e then not_found else wrapped "disambiguate rejected update" e

unfoldable pub disambiguate : ℕ → World → Error × World
disambiguate id w = let (r, v) = get_by_id id w in (rejected r, v)

-- What follows the guarded UPDATE of `UpdateStatus` and of `ClaimForProcessing`.
unfoldable pub updated : ℕ → Result Table → World → Outcome × World
updated id (err e) v = (some e, v)
updated id (ok []) v = let (e, u) = disambiguate id v in (some e, u)
updated id (ok (n ∷ ns)) v = (none, v)

unfoldable pub claimed : ℕ → Result Table → World → Result Notification × World
claimed id (err e) v = (err e, v)
claimed id (ok []) v = let (e, u) = disambiguate id v in (err e, u)
claimed id (ok (n ∷ ns)) v = (ok n, v)

unfoldable pub update_status : ℕ → Status → List Status → World → Outcome × World
update_status id to from w =
    let s = set_status id to from in
    let (r, v) = exec "update notification status" s (affected s) w in updated id r v

unfoldable pub claim_for_processing : ℕ → List Status → World → Result Notification × World
claim_for_processing id from w =
    let s = claim id from in
    let (r, v) = exec "claim notification" s (affected s) w in claimed id r v

-- RowsAffected = 0 is a rejected move, whether the row is there or not.
abbrev moved : Result Table → Outcome
moved (err e) = some e
moved (ok []) = some invalid_transition
moved (ok (n ∷ ns)) = none

unfoldable pub record_result : ℕ → Status → String → World → Outcome × World
record_result id to last_error w =
    let s = record_outcome id to last_error in
    let (r, v) = exec "mark notification" s (affected s) w in (moved r, v)

unfoldable pub mark_retrying : ℕ → String → World → Outcome × World
mark_retrying id last_error w = record_result id retrying last_error w

unfoldable pub mark_failed : ℕ → String → World → Outcome × World
mark_failed id last_error w = record_result id failed last_error w

unfoldable pub mark_as_sent : ℕ → String → ℕ → World → Outcome × World
mark_as_sent id provider_id at w =
    let s = mark_sent id provider_id at in
    let (r, v) = exec "mark notification sent" s (affected s) w in (moved r, v)

-- The two claims of the scheduler; the locked rows are those that other transactions hold.
unfoldable pub claim_due_for_queue : ℕ → ℕ → List ℕ → World → Result Table × World
claim_due_for_queue stale_after limit locked w =
    let s = claim_due stale_after limit locked in exec "claim due notifications" s (affected s) w

unfoldable pub recover_stale_processing : ℕ → ℕ → List ℕ → World → Result Table × World
recover_stale_processing stale_after limit locked w =
    let s = recover_stale stale_after limit locked in
    exec "recover stale processing" s (affected s) w

abbrev is_stale_queued : ℕ → ℕ → Notification → Bool
is_stale_queued stale_after now r =
    status_eq r.status queued && ltb (r.updated_at + stale_after) now

unfoldable pub list_stale_queued : ℕ → ℕ → World → Result Table × World
list_stale_queued stale_after limit w =
    query "list stale queued notifications"
      (λ now t.
        take limit (sort_by (λ q. q.updated_at) (select (is_stale_queued stale_after now) t)))
      w

unfoldable pub touch : ℕ → World → Outcome × World
touch id w =
    let (r, v) = exec "touch queued notification" (touch_queued id) (λ now t. tt {0}) w in
    (error_of r, v)
