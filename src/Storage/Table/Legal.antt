-- ===== src/Storage/Table/Legal.antt =====
-- The guarded UPDATEs of internal/storage/postgres/repository.go follow the state machine of
-- internal/domain/notification.go.
use notifier.Base.{
  ℕ, ◌≡◌, refl, ap, inl, inr, Bool, true, List, [], ◌∷◌, map, Option, none, some, arith, eq_iff, In,
  All, Bool-cases,
}
use notifier.Domain.Status.{
  Status, pending, queued, processing, retrying, has_status, can_transition, status_eq,
  other_status,
}
use notifier.Domain.Notification.{Notification}
use notifier.Storage.Table.{
  Table, Statement, insert, copy, set_status, claim, record_outcome, mark_sent, mark_queued,
  claim_due, recover_stale, touch_queued, is_due, is_stuck, microsecond, guard, assign,
  update_where, stored, add_when, update, apply, Violation,
}
use notifier.Storage.Table.Keys.{IsKeyed}
use notifier.Storage.Table.Evolves.{
  Change, touched, parked, claimed, delivered, set_back, is_initial, is_parked, is_setback, IsFresh,
  Steps, Steps-refl, Steps-add, Steps-Follows, Follows,
}
use notifier.Storage.Table.Picks.{pick-passes}

-- The statements that the code issues: a new row starts pending or scheduled, UpdateStatus gives
-- queued or cancelled, an outcome is retrying or failed, and an allowed-from set holds only statuses
-- with a legal move into the new status.
abbrev pub IsIssued : Statement → Type 0
IsIssued (insert n) = is_initial n.status ≡ true
IsIssued (copy ns) = All (λ n. is_initial n.status ≡ true) ns
IsIssued (set_status id to from) =
    (is_parked to ≡ true) × ((s : Status) → has_status s from ≡ true → can_transition s to ≡ true)
IsIssued (claim id from) =
    (s : Status) → has_status s from ≡ true → can_transition s processing ≡ true
IsIssued (record_outcome id to e) = is_setback to ≡ true
IsIssued _ = Unit

pub status_eq_sound : (s t : Status) → status_eq s t ≡ true → s ≡ t
status_eq_sound pending t h = ground arith
status_eq_sound (other_status a) (other_status b) h = ap other_status ((eq_iff a b).0 h)
status_eq_sound (other_status a) pending h = absurd (cc)
status_eq_sound (other_status a) _ h = absurd (cc)
status_eq_sound _ t h = ground arith

is_due-can_transition :
    (stale now : ℕ) (r : Notification)
    → is_due stale now r ≡ true
    → can_transition r.status queued ≡ true
unfolding is_due can_transition
is_due-can_transition stale now r h = ground arith

is_stuck-processing :
    (stale now : ℕ) (r : Notification) → is_stuck stale now r ≡ true → r.status ≡ processing
unfolding is_stuck
is_stuck-processing stale now r h = status_eq_sound r.status processing (ground arith)

-- What an issued statement makes of a row that it changes.
changed-Change :
    (s : Statement) (now : ℕ) (t : Table) (r : Notification)
    → IsKeyed t
    → IsIssued s
    → In r t
    → guard s now t r ≡ true
    → Change r (assign s now r)
unfolding guard assign can_transition
changed-Change (insert n) now t r v i m h = absurd (cc)
changed-Change (copy ns) now t r v i m h = absurd (cc)
changed-Change (set_status id to from) now t r v i m h =
    parked to now i.0 (i.1 r.status (ground arith)) refl
changed-Change (claim id from) now t r v i m h = claimed now (i r.status (ground arith)) refl
changed-Change (record_outcome id to e) now t r v i m h =
    set_back to e now i (status_eq_sound r.status processing (ground arith)) refl
changed-Change (mark_sent id p at) now t r v i m h =
    delivered p (microsecond at) now (status_eq_sound r.status processing (ground arith)) refl
changed-Change (mark_queued ids) now t r v i m h =
    parked queued now refl (rw (status_eq_sound r.status pending (ground arith))) refl
changed-Change (claim_due stale limit locked) now t r v i m h =
    parked queued now refl
      (is_due-can_transition stale now r
        (pick-passes (is_due stale now) (λ q. q.created_at) limit locked t r v m h))
      refl
changed-Change (recover_stale stale limit locked) now t r v i m h =
    set_back retrying "recovered from stale processing" now refl
      (is_stuck-processing stale now r
        (pick-passes (is_stuck stale now) (λ q. q.updated_at) limit locked t r v m h))
      refl
changed-Change (touch_queued id) now t r v i m h =
    touched now (status_eq_sound r.status queued (ground arith)) refl

update_where-Steps :
    (p : Notification → Bool) (f : Notification → Notification) (t : Table)
    → ((r : Notification) → In r t → p r ≡ true → Change r (f r))
    → Steps t (update_where p f t)
update_where-Steps p f [] g = tt
update_where-Steps p f (r ∷ rs) g = elim (Bool-cases (p r)) [
  | inl e ↦ rw e (inr (g r (inl refl) e), update_where-Steps p f rs (λ q m. g q (inr m)))
  | inr e ↦ rw e (inl refl, update_where-Steps p f rs (λ q m. g q (inr m)))
]

add_when-Steps :
    (o : Option Violation) (t new : Table) → All IsFresh new → Steps t (add_when o t new)
unfolding add_when
add_when-Steps none t new h = Steps-add t new h
add_when-Steps (some w) t new h = Steps-refl t

stored-IsFresh :
    (ns : List Notification)
    → All (λ n. is_initial n.status ≡ true) ns
    → All IsFresh (map stored ns)
stored-IsFresh [] h = tt
stored-IsFresh (n ∷ ns) h = ((h.0, refl, refl, refl, refl), stored-IsFresh ns h.1)

update-Steps :
    (s : Statement) (now : ℕ) (t : Table) → IsKeyed t → IsIssued s → Steps t (update s now t)
unfolding update
update-Steps s now t v i =
    update_where-Steps (guard s now t) (assign s now) t (λ r m h. changed-Change s now t r v i m h)

-- On a table with distinct identifiers and keys, a statement that the code issues removes no row and
-- keeps their order. Each row stays as it was or is changed in one of these ways: a queued row gets a
-- new time; a move that the state machine allows makes it queued or cancelled and changes nothing
-- else; an allowed claim makes it processing with one attempt more; a row that is processing becomes
-- sent with its provider identifier, or retrying or failed with an error. The rows that it adds are
-- pending or scheduled, with no attempts and no outcome.
pub apply-Steps :
    (s : Statement) (now : ℕ) (t : Table) → IsKeyed t → IsIssued s → Steps t (apply s now t)
unfolding apply
apply-Steps (insert n) now t v i = add_when-Steps _ t _ ((i, refl, refl, refl, refl), tt)
apply-Steps (copy ns) now t v i = add_when-Steps _ t _ (stored-IsFresh ns i)
apply-Steps s now t v i = update-Steps s now t v i

pub apply-Follows :
    (s : Statement) (now : ℕ) (t : Table) → IsKeyed t → IsIssued s → Follows t (apply s now t)
apply-Follows s now t v i = Steps-Follows t _ (apply-Steps s now t v i)
