-- ===== src/Storage/Repository/Due.antt =====
-- What `ClaimDueForQueue` and `RecoverStaleProcessing` of internal/storage/postgres/repository.go
-- return.
use notifier.Base.{
  ℕ, ◌+◌, ◌<◌, ◌≤◌, ◌≡◌, ◌⊎◌, refl, sym, ap, subst, true, List, In, inl, inr, ltb, ◌&&◌, ◌||◌,
  Option, none, some, arith,
}
use notifier.Domain.Notification.{Notification}
use notifier.Domain.Status.{Status, pending, scheduled, queued, processing, retrying, status_eq}
use notifier.Storage.Table.Legal.{status_eq_sound}
use notifier.Domain.Errors.{ok}
use notifier.Storage.Table.{
  Table, claim_due, recover_stale, is_due, is_stuck, is_reached, guard, assign,
}
use notifier.Storage.Table.Picks.{pick-passes}
use notifier.World.{World, next_turn, arrive, exec}
use notifier.World.Safe.{IsSound, arrive-IsSafe}
use notifier.Storage.Repository.{claim_due_for_queue, recover_stale_processing}
use notifier.Storage.Repository.Claim.{settle-ok, In-affected}

-- When due work is due: a scheduled row whose time has come, or a row that is pending for long.
abbrev pub IsDue : ℕ → ℕ → Notification → Type 0
IsDue stale now r =
    ((r.status ≡ scheduled) × (at : ℕ) × (r.scheduled_at ≡ some at) × (at ≤ now))
    ⊎ ((r.status ≡ pending) × (r.created_at + stale < now))

due_cases :
    (s : Status) (due : Option ℕ) (created stale now : ℕ)
    → ((status_eq s scheduled && is_reached due now)
        || (status_eq s pending && ltb (created + stale) now))
      ≡ true
    → ((s ≡ scheduled) × (at : ℕ) × (due ≡ some at) × (at ≤ now))
      ⊎ ((s ≡ pending) × (created + stale < now))
due_cases scheduled none created stale now h = absurd (cc)
due_cases scheduled (some at) created stale now h = inl (refl, at, refl, ground arith)
due_cases pending due created stale now h = inr (refl, ground arith)
due_cases _ due created stale now h = absurd (cc)

is_due-IsDue : (stale now : ℕ) (r : Notification) → is_due stale now r ≡ true → IsDue stale now r
unfolding is_due
is_due-IsDue stale now r h = due_cases r.status r.scheduled_at r.created_at stale now h

is_stuck-late :
    (stale now : ℕ) (r : Notification)
    → is_stuck stale now r ≡ true
    → (r.status ≡ processing) × (r.updated_at + stale < now)
unfolding is_stuck
is_stuck-late stale now r h = (status_eq_sound r.status processing (ground arith), ground arith)

-- From a sound world, every row that a successful claim of due work returns was due when the claim
-- ran: scheduled with its time come, or pending since before the stale interval; it is returned as
-- queued, with no attempt counted.
pub claim_due_for_queue-In :
    (stale limit : ℕ) (locked : List ℕ) (w : World) (ns : Table) (n : Notification)
    → IsSound w
    → (claim_due_for_queue stale limit locked w).0 ≡ ok ns
    → In n ns
    → (r : Notification) × In r (arrive w).table
      × IsDue stale (arrive w).now r
      × (n ≡ record r { status = queued; updated_at = (arrive w).now })
unfolding claim_due_for_queue exec guard assign
claim_due_for_queue-In stale limit locked w ns n h e m =
    let hit = settle-ok (next_turn w.turns).fate _ _ ns _ _ e in
    let (r, within, g, a) =
      In-affected (claim_due stale limit locked) (arrive w).now (arrive w).table n
        (subst (In n) (sym hit) m) in
    let due = pick-passes _ _ limit locked _ r (arrive-IsSafe w h).sound.keyed within g in
    (r, within, is_due-IsDue stale (arrive w).now r due, a)

-- From a sound world, every row that a successful recovery returns was processing and untouched for
-- longer than the stale interval when the recovery ran; it is returned as retrying, with its attempts
-- kept.
pub recover_stale_processing-In :
    (stale limit : ℕ) (locked : List ℕ) (w : World) (ns : Table) (n : Notification)
    → IsSound w
    → (recover_stale_processing stale limit locked w).0 ≡ ok ns
    → In n ns
    → (r : Notification) × In r (arrive w).table
      × (r.status ≡ processing)
      × (r.updated_at + stale < (arrive w).now)
      × (n.status ≡ retrying)
      × (n.attempts ≡ r.attempts)
      × (n.id ≡ r.id)
unfolding recover_stale_processing exec guard assign
recover_stale_processing-In stale limit locked w ns n h e m =
    let hit = settle-ok (next_turn w.turns).fate _ _ ns _ _ e in
    let (r, within, g, a) =
      In-affected (recover_stale stale limit locked) (arrive w).now (arrive w).table n
        (subst (In n) (sym hit) m) in
    let stuck = pick-passes _ _ limit locked _ r (arrive-IsSafe w h).sound.keyed within g in
    let (busy, late) = is_stuck-late stale (arrive w).now r stuck in
    (
      r,
      within,
      busy,
      late,
      ap (λ (z : Notification). z.status) a,
      ap (λ (z : Notification). z.attempts) a,
      ap (λ (z : Notification). z.id) a,
    )
