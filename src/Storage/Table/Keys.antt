-- ===== src/Storage/Table/Keys.antt =====
-- The primary key and the unique index of internal/storage/postgres/migrations: every statement of
-- the repository keeps identifiers and idempotency keys distinct.
use notifier.Base.{
  String, ℕ, ◌≡◌, refl, subst, inl, inr, Bool, false, List, [], ◌∷◌, ◌++◌, map, Option, none, some,
  arith, ◌==◌, eq_iff, exists-append, Bool-cases, Option-cases,
}
use mathlib.Core.List.{append-nil, append_assoc}
use notifier.Domain.Notification.{Notification}
use notifier.Storage.Table.{
  Table, Statement, insert, copy, has_id, key_used, same_key, assign, update_where, stored,
  check_insert, check_copy, add_when, update, apply, Violation,
}

-- No identifier and no idempotency key stands twice.
abbrev pub IsKeyed : Table → Type 0
IsKeyed [] = Unit
IsKeyed (r ∷ rs) = (has_id r.id rs ≡ false) × (key_used r.idempotency_key rs ≡ false) × IsKeyed rs

same_key_comm : (a b : Option String) → same_key a b ≡ same_key b a
same_key_comm none none = refl
same_key_comm none (some b) = refl
same_key_comm (some a) none = refl
same_key_comm (some a) (some b) = ground (arith, eq_iff a b, eq_iff b a)

IsKeyed-append_one :
    (t : Table) (n : Notification)
    → IsKeyed t
    → has_id n.id t ≡ false
    → key_used n.idempotency_key t ≡ false
    → IsKeyed (t ++ n ∷ [])
IsKeyed-append_one [] n v h k = (refl, refl, tt)
IsKeyed-append_one (r ∷ rs) n v h k = (
  rw (exists-append (λ q. q.id == r.id) rs (n ∷ [])) (ground (arith, v.0)),
  rw (exists-append (λ q. same_key q.idempotency_key r.idempotency_key) rs (n ∷ []))
      (ground (arith, v.1, same_key_comm n.idempotency_key r.idempotency_key)),
  IsKeyed-append_one rs n v.2 (ground arith) (ground arith),
)

insert-IsKeyed :
    (t : Table) (n : Notification)
    → IsKeyed t
    → check_insert n t ≡ none
    → IsKeyed (t ++ stored n ∷ [])
unfolding check_insert
insert-IsKeyed t n v h = IsKeyed-append_one t (stored n) v (ground arith) (ground arith)

copy-IsKeyed :
    (ns : List Notification) (t : Table)
    → IsKeyed t
    → check_copy ns t ≡ none
    → IsKeyed (t ++ map stored ns)
unfolding check_copy
copy-IsKeyed [] t v h = rw (append-nil t) v
copy-IsKeyed (n ∷ ns) t v h = elim (Option-cases (check_insert n t)) [
  | inl e ↦
      subst IsKeyed (append_assoc t (stored n ∷ []) (map stored ns))
        (copy-IsKeyed ns (t ++ stored n ∷ []) (insert-IsKeyed t n v e) (ground (arith, e, h)))
  | inr (w, e) ↦ absurd (cc (rw (e, check_copy) at h))
]

pub assign-id : (s : Statement) (now : ℕ) (r : Notification) → (assign s now r).id ≡ r.id
unfolding assign
assign-id (insert n) now r = refl
assign-id _ now r = refl

assign-key :
    (s : Statement) (now : ℕ) (r : Notification)
    → (assign s now r).idempotency_key ≡ r.idempotency_key
unfolding assign
assign-key (insert n) now r = refl
assign-key _ now r = refl

module _ (p : Notification → Bool) (f : Notification → Notification)
    (ids : (r : Notification) → (f r).id ≡ r.id)
    (keys : (r : Notification) → (f r).idempotency_key ≡ r.idempotency_key) where
  pub has_id-update_where : (i : ℕ) (t : Table) → has_id i (update_where p f t) ≡ has_id i t
  has_id-update_where i [] = refl
  has_id-update_where i (r ∷ rs) = ground (arith, ids r, has_id-update_where i rs)

  key_used-update_where :
      (k : Option String) (t : Table) → key_used k (update_where p f t) ≡ key_used k t
  key_used-update_where k [] = refl
  key_used-update_where k (r ∷ rs) = elim (Bool-cases (p r)) [
    | inl e ↦ rw (e, keys r, key_used-update_where k rs)
    | inr e ↦ rw (e, key_used-update_where k rs)
  ]

  update_where-IsKeyed : (t : Table) → IsKeyed t → IsKeyed (update_where p f t)
  update_where-IsKeyed [] v = tt
  update_where-IsKeyed (r ∷ rs) v = elim (Bool-cases (p r)) [
    | inl e ↦
        rw
          (
            e,
            ids r,
            keys r,
            has_id-update_where r.id rs,
            key_used-update_where r.idempotency_key rs,
          )
          (v.0, v.1, update_where-IsKeyed rs v.2)
    | inr e ↦
        rw (e, has_id-update_where r.id rs, key_used-update_where r.idempotency_key rs)
          (v.0, v.1, update_where-IsKeyed rs v.2)
  ]

add_when-IsKeyed :
    (o : Option Violation) (t new : Table)
    → IsKeyed t
    → (o ≡ none → IsKeyed (t ++ new))
    → IsKeyed (add_when o t new)
unfolding add_when
add_when-IsKeyed none t new v h = h refl
add_when-IsKeyed (some w) t new v h = v

update-IsKeyed : (s : Statement) (now : ℕ) (t : Table) → IsKeyed t → IsKeyed (update s now t)
unfolding update
update-IsKeyed s now t v = update_where-IsKeyed _ _ (assign-id s now) (assign-key s now) t v

-- Every statement of the repository, at any time and with any arguments, leaves a table in which
-- no identifier and no idempotency key stands twice, if it found one.
pub apply-IsKeyed : (s : Statement) (now : ℕ) (t : Table) → IsKeyed t → IsKeyed (apply s now t)
unfolding apply
apply-IsKeyed (insert n) now t v = add_when-IsKeyed _ t _ v (insert-IsKeyed t n v)
apply-IsKeyed (copy ns) now t v = add_when-IsKeyed _ t _ v (copy-IsKeyed ns t v)
apply-IsKeyed s now t v = update-IsKeyed s now t v
