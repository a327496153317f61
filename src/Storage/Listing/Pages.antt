-- ===== src/Storage/Listing/Pages.antt =====
-- Keyset pagination of internal/storage/postgres/repository.go: a page and the page after it.
use notifier.Base.{
  ℕ, ◌≡◌, ◌≢◌, refl, sym, ap, ◌∙◌, Bool, true, false, ◌||◌, [], ◌∷◌, ◌==◌, if◌then◌else◌, select,
  All, arith, Bool-cases, inl, inr,
}
use notifier.Domain.Notification.{Notification}
use notifier.Storage.Table.{Table, has_id}
use notifier.Storage.Table.Keys.{IsKeyed}
use notifier.Storage.Listing.{is_before, insert_newest, newest_first}

-- Strictly descending in `(created_at, id)`: each row has all later ones before it.
abbrev pub IsNewestFirst : Table → Type 0
IsNewestFirst [] = Unit
IsNewestFirst (r ∷ rs) = All (λ q. is_before r.created_at r.id q ≡ true) rs × IsNewestFirst rs

pub is_before_trans :
    (a b c : Notification)
    → is_before a.created_at a.id b ≡ true
    → is_before b.created_at b.id c ≡ true
    → is_before a.created_at a.id c ≡ true
unfolding is_before
is_before_trans a b c h k = ground arith

is_before_flip :
    (a b : Notification)
    → is_before a.created_at a.id b ≡ false
    → a.id ≢ b.id
    → is_before b.created_at b.id a ≡ true
unfolding is_before
is_before_flip a b h n = ground arith

pub All-select :
    (P : Notification → Type 0) (p : Notification → Bool) (t : Table) → All P t → All P (select p t)
All-select P p [] h = tt
All-select P p (x ∷ xs) h = elim (Bool-cases (p x)) [
  | inl e ↦ rw e (h.0, All-select P p xs h.1)
  | inr e ↦ rw e (All-select P p xs h.1)
]

All-before :
    (r x : Notification) (t : Table)
    → is_before r.created_at r.id x ≡ true
    → All (λ q. is_before x.created_at x.id q ≡ true) t
    → All (λ q. is_before r.created_at r.id q ≡ true) t
All-before r x [] h a = tt
All-before r x (y ∷ ys) h a = (is_before_trans r x y h a.0, All-before r x ys h a.1)

pub IsNewestFirst-select :
    (p : Notification → Bool) (t : Table) → IsNewestFirst t → IsNewestFirst (select p t)
IsNewestFirst-select p [] h = tt
IsNewestFirst-select p (x ∷ xs) h = elim (Bool-cases (p x)) [
  | inl e ↦ rw e (All-select _ p xs h.0, IsNewestFirst-select p xs h.1)
  | inr e ↦ rw e (IsNewestFirst-select p xs h.1)
]

insert_newest-first :
    (r : Notification) (t : Table)
    → All (λ q. is_before r.created_at r.id q ≡ true) t
    → insert_newest r t ≡ r ∷ t
unfolding insert_newest
insert_newest-first r [] h = refl
insert_newest-first r (x ∷ xs) h = rw h.0 refl

-- Inserting and selecting commute on a sorted table.
select-insert_newest :
    (p : Notification → Bool) (r : Notification) (t : Table)
    → IsNewestFirst t
    → select p (insert_newest r t) ≡ (if p r then insert_newest r (select p t) else select p t)
unfolding insert_newest
select-insert_newest p r [] h = elim (Bool-cases (p r)) [ inl e ↦ rw e refl | inr e ↦ rw e refl ]
select-insert_newest p r (x ∷ xs) h = elim (Bool-cases (is_before r.created_at r.id x)) [
  | inl b ↦
      let all : All (λ q. is_before r.created_at r.id q ≡ true) (x ∷ xs) =
        (b, All-before r x xs b h.0) in
      let front = insert_newest-first r (select p (x ∷ xs)) (All-select _ p (x ∷ xs) all) in
      elim (Bool-cases (p r)) [ inl e ↦ rw (b, e) (sym front) | inr e ↦ rw (b, e) refl ]
  | inr b ↦
      let more = select-insert_newest p r xs h.1 in
      elim (Bool-cases (p x)) [
        | inl e ↦ elim (Bool-cases (p r)) [
          | inl f ↦ rw (b, e, f, b) (ap (λ l. x ∷ l) (more ∙ rw f refl))
          | inr f ↦ rw (b, e, f) (ap (λ l. x ∷ l) (more ∙ rw f refl))
        ]
        | inr e ↦ rw (b, e) more
      ]
]

All-insert_newest :
    (P : Notification → Type 0) (r : Notification) (t : Table)
    → P r
    → All P t
    → All P (insert_newest r t)
unfolding insert_newest
All-insert_newest P r [] h a = (h, tt)
All-insert_newest P r (x ∷ xs) h a = elim (Bool-cases (is_before r.created_at r.id x)) [
  | inl b ↦ rw b (h, a)
  | inr b ↦ rw b (a.0, All-insert_newest P r xs h a.1)
]

pub All-newest_first : (P : Notification → Type 0) (t : Table) → All P t → All P (newest_first t)
unfolding newest_first
All-newest_first P [] a = tt
All-newest_first P (r ∷ rs) a =
    All-insert_newest P r (newest_first rs) a.0 (All-newest_first P rs a.1)

insert_newest-IsNewestFirst :
    (r : Notification) (t : Table)
    → has_id r.id t ≡ false
    → IsNewestFirst t
    → IsNewestFirst (insert_newest r t)
unfolding insert_newest
insert_newest-IsNewestFirst r [] n h = (tt, tt)
insert_newest-IsNewestFirst r (x ∷ xs) n h = elim (Bool-cases (is_before r.created_at r.id x)) [
  | inl b ↦ rw b ((b, All-before r x xs b h.0), h)
  | inr b ↦ rw b (
    All-insert_newest _ r xs (is_before_flip r x b (λ e. ground arith)) h.0,
    insert_newest-IsNewestFirst r xs (ground arith) h.1,
  )
]

has_id-insert_newest :
    (i : ℕ) (r : Notification) (t : Table)
    → has_id i (insert_newest r t) ≡ (r.id == i) || has_id i t
unfolding insert_newest
has_id-insert_newest i r [] = ground arith
has_id-insert_newest i r (x ∷ xs) = elim (Bool-cases (is_before r.created_at r.id x)) [
  | inl b ↦ rw b refl
  | inr b ↦ rw b (ground (arith, has_id-insert_newest i r xs))
]

has_id-newest_first : (i : ℕ) (t : Table) → has_id i (newest_first t) ≡ has_id i t
unfolding newest_first
has_id-newest_first i [] = refl
has_id-newest_first i (r ∷ rs) =
    has_id-insert_newest i r (newest_first rs) ∙ rw (has_id-newest_first i rs) refl

-- Distinct identifiers make the order strict.
pub newest_first-IsNewestFirst : (t : Table) → IsKeyed t → IsNewestFirst (newest_first t)
unfolding newest_first
newest_first-IsNewestFirst [] k = tt
newest_first-IsNewestFirst (r ∷ rs) k =
    insert_newest-IsNewestFirst r (newest_first rs) (has_id-newest_first r.id rs ∙ k.0)
      (newest_first-IsNewestFirst rs k.2)

pub select-newest_first :
    (p : Notification → Bool) (t : Table)
    → IsKeyed t
    → newest_first (select p t) ≡ select p (newest_first t)
unfolding newest_first
select-newest_first p [] k = refl
select-newest_first p (r ∷ rs) k = elim (Bool-cases (p r)) [
  | inl e ↦ rw e (
      ap (insert_newest r) (select-newest_first p rs k.2)
      ∙ sym (
          select-insert_newest p r (newest_first rs) (newest_first-IsNewestFirst rs k.2)
          ∙ rw e refl))
  | inr e ↦ rw e (
      select-newest_first p rs k.2
      ∙ sym (
          select-insert_newest p r (newest_first rs) (newest_first-IsNewestFirst rs k.2)
          ∙ rw e refl))
]
