-- ===== src/Storage/Repository/Safe.antt =====
-- The operations of internal/storage/postgres/repository.go are safe steps of the world.
use notifier.Base.{String, ℕ, ◌≡◌, refl, true, List, [], ◌∷◌, All}
use notifier.Domain.Errors.{Result, ok, err}
use notifier.Domain.Notification.{Notification}
use notifier.Domain.Status.{Status, has_status, can_transition, processing, retrying, failed}
use notifier.Storage.Table.{
  Table, insert, copy, set_status, claim, record_outcome, mark_sent, mark_queued, claim_due,
  recover_stale, touch_queued,
}
use notifier.Storage.Table.Evolves.{is_initial, is_parked}
use notifier.World.{World}
use notifier.World.Safe.{IsSafe, IsSafe-refl, IsSafe-trans, exec-IsSafe, query-IsSafe}
use notifier.Storage.Repository.{
  get_by_id, get_by_idempotency_key, create, create_batch, mark_queued_bulk,
  existing_idempotency_keys, disambiguate, updated, claimed, update_status, claim_for_processing,
  record_result, mark_retrying, mark_failed, mark_as_sent, claim_due_for_queue,
  recover_stale_processing, list_stale_queued, touch,
}

pub get_by_id-IsSafe : (id : ℕ) (w : World) → IsSafe w (get_by_id id w).1
unfolding get_by_id
get_by_id-IsSafe id w = query-IsSafe _ _ w

pub get_by_idempotency_key-IsSafe :
    (k : String) (w : World) → IsSafe w (get_by_idempotency_key k w).1
unfolding get_by_idempotency_key
get_by_idempotency_key-IsSafe k w = query-IsSafe _ _ w

pub create-IsSafe :
    (n : Notification) (w : World) → is_initial n.status ≡ true → IsSafe w (create n w).1
unfolding create
create-IsSafe n w h = exec-IsSafe _ (insert n) _ w h

pub create_batch-IsSafe :
    (ns : List Notification) (w : World)
    → All (λ n. is_initial n.status ≡ true) ns
    → IsSafe w (create_batch ns w).1
unfolding create_batch
create_batch-IsSafe [] w h = IsSafe-refl w
create_batch-IsSafe (n ∷ ns) w h = exec-IsSafe _ (copy (n ∷ ns)) _ w h

pub mark_queued_bulk-IsSafe : (ids : List ℕ) (w : World) → IsSafe w (mark_queued_bulk ids w).1
unfolding mark_queued_bulk
mark_queued_bulk-IsSafe [] w = IsSafe-refl w
mark_queued_bulk-IsSafe (i ∷ is) w = exec-IsSafe _ (mark_queued (i ∷ is)) _ w tt

pub existing_idempotency_keys-IsSafe :
    (ks : List String) (w : World) → IsSafe w (existing_idempotency_keys ks w).1
unfolding existing_idempotency_keys
existing_idempotency_keys-IsSafe [] w = IsSafe-refl w
existing_idempotency_keys-IsSafe (k ∷ ks) w = query-IsSafe _ _ w

disambiguate-IsSafe : (id : ℕ) (w : World) → IsSafe w (disambiguate id w).1
unfolding disambiguate
disambiguate-IsSafe id w = get_by_id-IsSafe id w

updated-IsSafe : (id : ℕ) (r : Result Table) (w : World) → IsSafe w (updated id r w).1
unfolding updated
updated-IsSafe id (err e) w = IsSafe-refl w
updated-IsSafe id (ok []) w = disambiguate-IsSafe id w
updated-IsSafe id (ok (n ∷ ns)) w = IsSafe-refl w

claimed-IsSafe : (id : ℕ) (r : Result Table) (w : World) → IsSafe w (claimed id r w).1
unfolding claimed
claimed-IsSafe id (err e) w = IsSafe-refl w
claimed-IsSafe id (ok []) w = disambiguate-IsSafe id w
claimed-IsSafe id (ok (n ∷ ns)) w = IsSafe-refl w

pub update_status-IsSafe :
    (id : ℕ) (to : Status) (from : List Status) (w : World)
    → is_parked to ≡ true
    → ((s : Status) → has_status s from ≡ true → can_transition s to ≡ true)
    → IsSafe w (update_status id to from w).1
unfolding update_status
update_status-IsSafe id to from w p h =
    IsSafe-trans w _ _ (exec-IsSafe _ (set_status id to from) _ w (p, h)) (updated-IsSafe id _ _)

pub claim_for_processing-IsSafe :
    (id : ℕ) (from : List Status) (w : World)
    → ((s : Status) → has_status s from ≡ true → can_transition s processing ≡ true)
    → IsSafe w (claim_for_processing id from w).1
unfolding claim_for_processing
claim_for_processing-IsSafe id from w h =
    IsSafe-trans w _ _ (exec-IsSafe _ (claim id from) _ w h) (claimed-IsSafe id _ _)

pub mark_retrying-IsSafe : (id : ℕ) (e : String) (w : World) → IsSafe w (mark_retrying id e w).1
unfolding mark_retrying record_result can_transition
mark_retrying-IsSafe id e w = exec-IsSafe _ (record_outcome id retrying e) _ w refl

pub mark_failed-IsSafe : (id : ℕ) (e : String) (w : World) → IsSafe w (mark_failed id e w).1
unfolding mark_failed record_result can_transition
mark_failed-IsSafe id e w = exec-IsSafe _ (record_outcome id failed e) _ w refl

pub mark_as_sent-IsSafe :
    (id : ℕ) (m : String) (at : ℕ) (w : World) → IsSafe w (mark_as_sent id m at w).1
unfolding mark_as_sent
mark_as_sent-IsSafe id m at w = exec-IsSafe _ (mark_sent id m at) _ w tt

pub claim_due_for_queue-IsSafe :
    (stale limit : ℕ) (locked : List ℕ) (w : World)
    → IsSafe w (claim_due_for_queue stale limit locked w).1
unfolding claim_due_for_queue
claim_due_for_queue-IsSafe stale limit locked w =
    exec-IsSafe _ (claim_due stale limit locked) _ w tt

pub recover_stale_processing-IsSafe :
    (stale limit : ℕ) (locked : List ℕ) (w : World)
    → IsSafe w (recover_stale_processing stale limit locked w).1
unfolding recover_stale_processing
recover_stale_processing-IsSafe stale limit locked w =
    exec-IsSafe _ (recover_stale stale limit locked) _ w tt

pub list_stale_queued-IsSafe :
    (stale limit : ℕ) (w : World) → IsSafe w (list_stale_queued stale limit w).1
unfolding list_stale_queued
list_stale_queued-IsSafe stale limit w = query-IsSafe _ _ w

pub touch-IsSafe : (id : ℕ) (w : World) → IsSafe w (touch id w).1
unfolding touch
touch-IsSafe id w = exec-IsSafe _ (touch_queued id) _ w tt
