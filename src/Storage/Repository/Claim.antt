-- ===== src/Storage/Repository/Claim.antt =====
-- The guarded claim of internal/storage/postgres/repository.go.
use notifier.Base.{
  String, ℕ, ◌+◌, ◌≡◌, refl, sym, subst, inl, inr, true, List, [], ◌∷◌, map, In, In-select, arith,
}
use notifier.Domain.Errors.{Result, ok, err}
use notifier.Domain.Notification.{Notification}
use notifier.Domain.Status.{Status, processing, has_status}
use notifier.Storage.Table.{Table, Statement, claim, guard, assign, affected}
use notifier.World.{World, Fate, served, refused, reply_lost, settle, next_turn, arrive, exec}
use notifier.Storage.Repository.{claimed, claim_for_processing}

In-map :
    (f : Notification → Notification) (t : Table) (x : Notification)
    → In x (map f t)
    → (y : Notification) × In y t × (x ≡ f y)
In-map f [] x m = absurd m
In-map f (y ∷ ys) x (inl e) = (y, inl refl, sym e)
In-map f (y ∷ ys) x (inr m) = let (z, n, e) = In-map f ys x m in (z, inr n, e)

pub In-affected :
    (s : Statement) (now : ℕ) (t : Table) (x : Notification)
    → In x (affected s now t)
    → (r : Notification) × In r t × (guard s now t r ≡ true) × (x ≡ assign s now r)
unfolding affected
In-affected s now t x m =
    let (r, n, e) = In-map (assign s now) _ x m in
    let (within, pass) = In-select (guard s now t) t r n in (r, within, pass, e)

pub settle-ok :
    {A : Type 0} (f : Fate) (label : String) (a b : A) (before after : World)
    → (settle f label a before after).0 ≡ ok b
    → a ≡ b
unfolding settle
settle-ok served label a b before after e = cc
settle-ok refused label a b before after e = absurd (cc)
settle-ok reply_lost label a b before after e = absurd (cc)

claimed-ok :
    (id : ℕ) (r : Result Table) (w : World) (n : Notification)
    → (claimed id r w).0 ≡ ok n
    → (ns : Table) × (r ≡ ok (n ∷ ns))
unfolding claimed
claimed-ok id (err e) w n h = absurd (cc)
claimed-ok id (ok []) w n h = absurd (cc)
claimed-ok id (ok (m ∷ ms)) w n h = (ms, cc)

-- A successful claim returns a row that, when the claim ran, had the identifier and an allowed
-- status; it is returned with the status processing, one attempt more and the time of the claim.
pub claim_for_processing-ok :
    (id : ℕ) (from : List Status) (w : World) (n : Notification)
    → (claim_for_processing id from w).0 ≡ ok n
    → (r : Notification) × In r (arrive w).table
      × (r.id ≡ id)
      × (has_status r.status from ≡ true)
      × (n ≡ record r {
        status = processing;
        attempts = r.attempts + 1;
        updated_at = (arrive w).now;
      })
unfolding claim_for_processing exec guard assign
claim_for_processing-ok id from w n h =
    let (ns, e) = claimed-ok id _ _ n h in
    let hit = settle-ok (next_turn w.turns).fate _ _ (n ∷ ns) _ _ e in
    let (r, m, g, a) =
      In-affected (claim id from) (arrive w).now (arrive w).table n
        (subst (In n) (sym hit) (inl refl)) in
    (r, m, ground arith, ground arith, a)
