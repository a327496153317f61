-- ===== src/Storage/Repository/Find.antt =====
-- What the guarded updates of internal/storage/postgres/repository.go do to the row of one
-- identifier, when nothing fails and nobody interferes.
use notifier.Base.{
  String, ℕ, ◌≡◌, refl, sym, ap, subst, ◌∙◌, Bool, true, false, List, [], ◌∷◌, none, some, arith,
  if◌then◌else◌, ◌==◌, select, map, Bool-cases, inl, inr, In,
}
use mathlib.Core.Option
use notifier.Domain.Errors.{ok}
use notifier.Domain.Notification.{Notification}
use notifier.Domain.Status.{Status, has_status, processing}
use notifier.Storage.Table.{
  Table, Statement, claim, record_outcome, mark_sent, apply, update, update_where, has_id, guard,
  assign, affected,
}
use notifier.Storage.Table.Keys.{IsKeyed, assign-id, apply-IsKeyed}
use notifier.World.{World}
use notifier.World.Quiet.{IsQuiet, exec-quiet}
use notifier.Storage.Repository.{
  find_id, claimed, claim_for_processing, record_result, mark_as_sent,
}

pub find_id-In :
    (id : ℕ) (t : Table) (r : Notification) → find_id id t ≡ some r → In r t × (r.id ≡ id)
unfolding find_id
find_id-In id [] r e = absurd (cc)
find_id-In id (x ∷ xs) r e = elim (Bool-cases (x.id == id)) [
  | inl h ↦ (inl (ground arith), ground arith)
  | inr h ↦ let (m, i) = find_id-In id xs r (ground arith) in (inr m, i)
]

-- An update of rows keeps every identifier, so it finds the same row, changed or not.
find_id-update_where :
    (p : Notification → Bool) (f : Notification → Notification)
    → ((r : Notification) → (f r).id ≡ r.id)
    → (id : ℕ) (t : Table)
    → find_id id (update_where p f t) ≡ Option.map (λ r. if p r then f r else r) (find_id id t)
unfolding find_id
find_id-update_where p f ids id [] = refl
find_id-update_where p f ids id (r ∷ rs) = ground (arith, ids r, find_id-update_where p f ids id rs)

pub select_none :
    (p : Notification → Bool) (id : ℕ)
    → ((q : Notification) → p q ≡ true → q.id ≡ id)
    → (t : Table) → has_id id t ≡ false
    → select p t ≡ []
select_none p id only [] h = refl
select_none p id only (x ∷ xs) h = elim (Bool-cases (p x)) [
  | inl e ↦ absurd (let same = only x e in ground arith)
  | inr e ↦ rw e (select_none p id only xs (ground arith))
]

-- A guard on one identifier selects its row alone.
select_one :
    (p : Notification → Bool) (id : ℕ)
    → ((q : Notification) → p q ≡ true → q.id ≡ id)
    → (t : Table) (r : Notification) → IsKeyed t
    → find_id id t ≡ some r
    → p r ≡ true
    → select p t ≡ r ∷ []
unfolding find_id
select_one p id only [] r k e h = absurd (cc)
select_one p id only (x ∷ xs) r k e h = elim (Bool-cases (x.id == id)) [
  | inl same ↦
      let eq : x ≡ r = ground arith in
      let hit : p x ≡ true = subst (λ z. p z ≡ true) (sym eq) h in
      let i : x.id ≡ id = ground arith in
      rw (hit, select_none p id only xs (subst (λ j. has_id j xs ≡ false) i k.0))
        (ap (λ z. z ∷ []) eq)
  | inr other ↦ elim (Bool-cases (p x)) [
    | inl hit ↦ absurd (let same = only x hit in ground arith)
    | inr miss ↦ rw miss (select_one p id only xs r k.2 (ground arith) h)
  ]
]

module _ (s : Statement) (id : ℕ) (w : World) where
  -- A statement whose guard names the identifier, at a row that passes it.
  pub affected_one :
      (r : Notification)
      → ((q : Notification) → guard s w.now w.table q ≡ true → q.id ≡ id)
      → IsKeyed w.table
      → find_id id w.table ≡ some r
      → guard s w.now w.table r ≡ true
      → affected s w.now w.table ≡ assign s w.now r ∷ []
  unfolding affected
  affected_one r only k e h =
      ap (map (assign s w.now)) (select_one (guard s w.now w.table) id only w.table r k e h)

  find_id-update :
      (j : ℕ)
      → find_id j (update s w.now w.table)
        ≡ Option.map
            (λ r. if guard s w.now w.table r then assign s w.now r else r)
            (find_id j w.table)
  unfolding update
  find_id-update j =
      find_id-update_where (guard s w.now w.table) (assign s w.now) (assign-id s w.now) j w.table

-- The row with this identifier is the given one, in a quiet and sound database.
pub record HasRow (id : ℕ) (r : Notification) (w : World) : Type 0 where
  pub quiet : IsQuiet w
  pub keyed : IsKeyed w.table
  pub found : find_id id w.table ≡ some r

module _ (s : Statement) (id : ℕ) (w : World) (r : Notification) (h : HasRow id r w) where
  -- The world after an update of the row.
  pub updated_row :
      apply s w.now w.table ≡ update s w.now w.table
      → guard s w.now w.table r ≡ true
      → HasRow id (assign s w.now r) (record w { table = apply s w.now w.table })
  updated_row e g = record {
    quiet = h.quiet;
    keyed = apply-IsKeyed s w.now w.table h.keyed;
    found = ap (find_id id) e ∙ (find_id-update s id w id ∙ rw h.found (rw g));
  }

-- The claim of a row whose status is allowed succeeds, and returns the row as it then is.
pub claim_for_processing-quiet :
    (id : ℕ) (from : List Status) (w : World) (r : Notification)
    → HasRow id r w
    → has_status r.status from ≡ true
    → let n = assign (claim id from) w.now r in
      let v = record w { table = apply (claim id from) w.now w.table } in
      (claim_for_processing id from w ≡ (ok n, v)) × HasRow id n v
unfolding claim_for_processing claimed guard apply
claim_for_processing-quiet id from w r h allowed =
    let s = claim id from in
    let i : r.id ≡ id = (find_id-In id w.table r h.found).1 in
    let g : guard s w.now w.table r ≡ true = ground (arith, i, allowed) in
    (
      rw (exec-quiet "claim notification" s (affected s) w h.quiet)
          (rw (affected_one s id w r (λ q e. ground arith) h.keyed h.found g)),
      updated_row s id w r h refl g,
    )

pub mark_as_sent-quiet :
    (id : ℕ) (m : String) (at : ℕ) (w : World) (r : Notification)
    → HasRow id r w
    → r.status ≡ processing
    → let v = record w { table = apply (mark_sent id m at) w.now w.table } in
      (mark_as_sent id m at w ≡ (none, v)) × HasRow id (assign (mark_sent id m at) w.now r) v
unfolding mark_as_sent guard apply
mark_as_sent-quiet id m at w r h p =
    let s = mark_sent id m at in
    let i : r.id ≡ id = (find_id-In id w.table r h.found).1 in
    let g : guard s w.now w.table r ≡ true = ground (arith, i, p) in
    (
      rw (exec-quiet "mark notification sent" s (affected s) w h.quiet)
          (rw (affected_one s id w r (λ q e. ground arith) h.keyed h.found g)),
      updated_row s id w r h refl g,
    )

pub record_result-quiet :
    (id : ℕ) (to : Status) (m : String) (w : World) (r : Notification)
    → HasRow id r w
    → r.status ≡ processing
    → let v = record w { table = apply (record_outcome id to m) w.now w.table } in
      (record_result id to m w ≡ (none, v)) × HasRow id (assign (record_outcome id to m) w.now r) v
unfolding record_result guard apply
record_result-quiet id to m w r h p =
    let s = record_outcome id to m in
    let i : r.id ≡ id = (find_id-In id w.table r h.found).1 in
    let g : guard s w.now w.table r ≡ true = ground (arith, i, p) in
    (
      rw (exec-quiet "mark notification" s (affected s) w h.quiet)
          (rw (affected_one s id w r (λ q e. ground arith) h.keyed h.found g)),
      updated_row s id w r h refl g,
    )
