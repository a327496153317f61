-- ===== src/Storage/Repository/Moves.antt =====
-- `UpdateStatus` and `GetByID` of internal/storage/postgres/repository.go, when nothing fails and
-- nobody interferes: the move that is made, the one that is rejected, and the missing row.
use notifier.Base.{
  ℕ, ◌≡◌, refl, sym, ap, subst, ◌∙◌, Bool, true, false, List, [], ◌∷◌, none, some, arith, ◌==◌,
  select, Bool-cases, inl, inr,
}
use notifier.Domain.Errors.{ok, err, not_found, invalid_transition, is_not_found}
use notifier.Domain.Notification.{Notification}
use notifier.Domain.Status.{Status, has_status}
use notifier.Storage.Table.{
  Table, set_status, apply, update, update_where, has_id, guard, assign, affected,
}
use notifier.Storage.Table.Keys.{IsKeyed}
use notifier.World.{World}
use notifier.World.Quiet.{IsQuiet, exec-quiet, query-quiet}
use notifier.Storage.Repository.{find_id, get_by_id, disambiguate, updated, update_status}
use notifier.Storage.Repository.Find.{HasRow, find_id-In, select_none, affected_one, updated_row}

pub get_by_id-quiet :
    (id : ℕ) (r : Notification) (w : World) → HasRow id r w → get_by_id id w ≡ (ok r, w)
unfolding get_by_id
get_by_id-quiet id r w h =
    rw (query-quiet "select notification" (λ now t. find_id id t) w h.quiet) (rw h.found refl)

get_by_id-missing :
    (id : ℕ) (w : World)
    → IsQuiet w
    → find_id id w.table ≡ none
    → get_by_id id w ≡ (err not_found, w)
unfolding get_by_id
get_by_id-missing id w q f =
    rw (query-quiet "select notification" (λ now t. find_id id t) w q) (rw f refl)

find_id-has_id : (id : ℕ) (t : Table) → find_id id t ≡ none → has_id id t ≡ false
unfolding find_id
find_id-has_id id [] h = refl
find_id-has_id id (x ∷ xs) h = elim (Bool-cases (x.id == id)) [
  | inl e ↦ absurd (ground arith)
  | inr e ↦ rw e (find_id-has_id id xs (ground arith))
]

-- A guard on one identifier that its row does not pass selects nothing.
select_refused :
    (p : Notification → Bool) (id : ℕ)
    → ((q : Notification) → p q ≡ true → q.id ≡ id)
    → (t : Table) (r : Notification) → IsKeyed t
    → find_id id t ≡ some r
    → p r ≡ false
    → select p t ≡ []
unfolding find_id
select_refused p id only [] r k e h = refl
select_refused p id only (x ∷ xs) r k e h = elim (Bool-cases (x.id == id)) [
  | inl same ↦
      let eq : x ≡ r = ground arith in
      let miss : p x ≡ false = subst (λ z. p z ≡ false) (sym eq) h in
      let i : x.id ≡ id = ground arith in
      rw miss (select_none p id only xs (subst (λ j. has_id j xs ≡ false) i k.0))
  | inr other ↦ elim (Bool-cases (p x)) [
    | inl hit ↦ absurd (let same = only x hit in ground arith)
    | inr miss ↦ rw miss (select_refused p id only xs r k.2 (ground arith) h)
  ]
]

-- What selects nothing changes nothing.
update_where-select_nil :
    (p : Notification → Bool) (f : Notification → Notification) (t : Table)
    → select p t ≡ []
    → update_where p f t ≡ t
update_where-select_nil p f [] h = refl
update_where-select_nil p f (x ∷ xs) h = elim (Bool-cases (p x)) [
  | inl e ↦ absurd (ground arith)
  | inr e ↦ rw e (ap (λ l. x ∷ l) (update_where-select_nil p f xs (ground arith)))
]

module _ (id : ℕ) (to : Status) (from : List Status) (w : World) where
  pub update_status-quiet :
      (r : Notification)
      → HasRow id r w
      → has_status r.status from ≡ true
      → let v = record w { table = apply (set_status id to from) w.now w.table } in
        (update_status id to from w ≡ (none, v))
        × HasRow id (record r { status = to; updated_at = w.now }) v
  unfolding update_status updated guard assign apply
  update_status-quiet r h allowed =
      let s = set_status id to from in
      let i : r.id ≡ id = (find_id-In id w.table r h.found).1 in
      let g : guard s w.now w.table r ≡ true = ground (arith, i, allowed) in
      (
        rw (exec-quiet "update notification status" s (affected s) w h.quiet)
            (rw (affected_one s id w r (λ q e. ground arith) h.keyed h.found g)),
        updated_row s id w r h refl g,
      )

  -- An UPDATE that selects no row leaves the world as it is, and asks for the row.
  update_status-idle :
      IsQuiet w
      → select (guard (set_status id to from) w.now w.table) w.table ≡ []
      → update_status id to from w ≡ (some (disambiguate id w).0, (disambiguate id w).1)
  unfolding update_status updated affected apply update
  update_status-idle q e =
      let s = set_status id to from in
      rw (exec-quiet "update notification status" s (affected s) w q) (
        rw e (rw (update_where-select_nil (guard s w.now w.table) (assign s w.now) w.table e) refl))

  pub update_status-refused :
      (r : Notification)
      → HasRow id r w
      → has_status r.status from ≡ false
      → update_status id to from w ≡ (some invalid_transition, w)
  unfolding disambiguate guard
  update_status-refused r h refused =
      let s = set_status id to from in
      let g : guard s w.now w.table r ≡ false = ground (arith, refused) in
      update_status-idle h.quiet (
        select_refused (guard s w.now w.table) id (λ q e. ground arith) w.table r h.keyed h.found g)
      ∙ rw (get_by_id-quiet id r w h) refl

  pub update_status-missing :
      IsQuiet w → find_id id w.table ≡ none → update_status id to from w ≡ (some not_found, w)
  unfolding disambiguate guard is_not_found
  update_status-missing q f =
      let s = set_status id to from in
      update_status-idle q (
        select_none (guard s w.now w.table) id (λ q e. ground arith) w.table
          (find_id-has_id id w.table f))
      ∙ rw (get_by_id-missing id w q f) refl
