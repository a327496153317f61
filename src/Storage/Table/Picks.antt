-- ===== src/Storage/Table/Picks.antt =====
-- What the sub-selects of internal/storage/postgres/repository.go pick.
use notifier.Base.{
  ℕ, ◌≡◌, sym, ap, subst, ◌∙◌, inl, inr, Bool, true, false, List, [], ◌∷◌, arith, ◌==◌, ==_iff,
  if◌then◌else◌, In, In-exists, leb, In-take, In-select, exists-In,
}
use notifier.Domain.Notification.{Notification}
use notifier.Storage.Table.{Table, has_id, insert_by, sort_by, pick}
use notifier.Storage.Table.Keys.{IsKeyed}

In-insert_by :
    (key : Notification → ℕ) (r : Notification) (xs : Table) (x : Notification)
    → In x (insert_by key r xs)
    → In x (r ∷ xs)
unfolding insert_by
In-insert_by key r [] x m = m
In-insert_by key r (y ∷ ys) x m = go (leb (key r) (key y)) m (In-insert_by key r ys x)
  where
    go :
        (b : Bool)
        → In x (if b then r ∷ y ∷ ys else y ∷ insert_by key r ys)
        → (In x (insert_by key r ys) → In x (r ∷ ys))
        → In x (r ∷ y ∷ ys)
    go true m f = m
    go false (inl e) f = inr (inl e)
    go false (inr m) f = elim (f m) [ inl e ↦ inl e | inr q ↦ inr (inr q) ]

In-sort_by :
    (key : Notification → ℕ) (xs : Table) (x : Notification) → In x (sort_by key xs) → In x xs
unfolding sort_by
In-sort_by key [] x m = m
In-sort_by key (r ∷ rs) x m = elim (In-insert_by key r (sort_by key rs) x m) [
  | inl e ↦ inl e
  | inr q ↦ inr (In-sort_by key rs x q)
]

-- What a sub-select picks passes its test, and comes from the table.
In-pick :
    (test : Notification → Bool) (key : Notification → ℕ) (limit : ℕ) (locked : List ℕ) (t : Table)
    (x : Notification)
    → In x (pick test key limit locked t)
    → In x t × (test x ≡ true)
unfolding pick
In-pick test key limit locked t x m =
    let (within, pass) = In-select _ t x (In-sort_by key _ x (In-take limit _ x m)) in
    (within, ground arith)

pub IsKeyed-unique :
    (t : Table) (x y : Notification) → IsKeyed t → In x t → In y t → x.id ≡ y.id → x ≡ y
IsKeyed-unique [] x y v a b e = absurd a
IsKeyed-unique (r ∷ rs) x y v (inl p) (inl q) e = sym p ∙ q
IsKeyed-unique (r ∷ rs) x y v (inl p) (inr b) e = absurd (
    cc (
      v.0,
      In-exists (λ q. q.id == r.id) rs y b
          ((==_iff _ _).1 (sym e ∙ sym (ap (λ (z : Notification). z.id) p))),
    ))
IsKeyed-unique (r ∷ rs) x y v (inr a) (inl q) e = absurd (
    cc (
      v.0,
      In-exists (λ q. q.id == r.id) rs x a
          ((==_iff _ _).1 (e ∙ sym (ap (λ (z : Notification). z.id) q))),
    ))
IsKeyed-unique (r ∷ rs) x y v (inr a) (inr b) e = IsKeyed-unique rs x y v.2 a b e

-- A row whose identifier is picked passes the test, since identifiers are distinct.
pub pick-passes :
    (test : Notification → Bool) (key : Notification → ℕ) (limit : ℕ) (locked : List ℕ) (t : Table)
    (r : Notification)
    → IsKeyed t
    → In r t
    → has_id r.id (pick test key limit locked t) ≡ true
    → test r ≡ true
pick-passes test key limit locked t r v m h =
    let (q, picked, e) = exists-In _ _ h in
    let (within, pass) = In-pick test key limit locked t q picked in
    subst (λ z. test z ≡ true) (IsKeyed-unique t q r v within m ((==_iff _ _).0 e)) pass
