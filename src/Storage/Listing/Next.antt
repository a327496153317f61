-- ===== src/Storage/Listing/Next.antt =====
-- A page of `List` of internal/storage/postgres/repository.go, and the page after its last row.
use notifier.Base.{
  ℕ, pos, zero, suc, ◌+◌, ◌≡◌, ◌⊎◌, refl, sym, ap, subst, ◌∙◌, Bool, true, false, ◌&&◌, [], ◌∷◌,
  ◌++◌, Option, none, some, select, take, drop, All, arith, Bool-cases, inl, inr,
}
use notifier.Domain.Notification.{Notification}
use notifier.Domain.List.{ListQuery}
use notifier.Storage.Table.{Table}
use notifier.Storage.Table.Keys.{IsKeyed}
use notifier.Storage.Listing.{row_limit, is_before, passes, passes_cursor, newest_first, list_rows}
use notifier.Storage.Listing.Pages.{
  IsNewestFirst, IsNewestFirst-select, newest_first-IsNewestFirst, select-newest_first,
}

pub take-drop : (k : ℕ) (t : Table) → t ≡ take k t ++ drop k t
take-drop zero t = refl
take-drop (suc k) [] = refl
take-drop (suc k) (x ∷ xs) = ap (λ l. x ∷ l) (take-drop k xs)

take_nil : (n : ℕ) → take {A = Notification} n [] ≡ []
take_nil zero = refl
take_nil (suc n) = refl

take-add : (k m : ℕ) (t : Table) → take k t ++ take m (drop k t) ≡ take (k + m) t
take-add zero m t = let e : m ≡ 0 + m = omega arith in ap (λ n. take n t) e
take-add (suc k) m [] = take_nil m ∙ sym (take_nil (suc k + m))
take-add (suc k) m (x ∷ xs) =
    let e : suc (k + m) ≡ suc k + m = omega arith in
    ap (λ l. x ∷ l) (take-add k m xs) ∙ ap (λ n. take n (x ∷ xs)) e

pub append_snoc : (a b : Table) (c : Notification) → (a ++ c ∷ []) ++ b ≡ a ++ c ∷ b
append_snoc [] b c = refl
append_snoc (x ∷ xs) b c = ap (λ l. x ∷ l) (append_snoc xs b c)

is_before_irrefl : (c : Notification) → is_before c.created_at c.id c ≡ false
unfolding is_before
is_before_irrefl c = ground arith

is_before_asym :
    (a c : Notification)
    → is_before a.created_at a.id c ≡ true
    → is_before c.created_at c.id a ≡ false
unfolding is_before
is_before_asym a c h = ground arith

select_whole : (p : Notification → Bool) (t : Table) → All (λ r. p r ≡ true) t → select p t ≡ t
select_whole p [] h = refl
select_whole p (x ∷ xs) h = rw h.0 (ap (λ l. x ∷ l) (select_whole p xs h.1))

pub All-last :
    (P : Notification → Type 0) (a b : Table) (c : Notification) → All P (a ++ c ∷ b) → P c
All-last P [] b c h = h.0
All-last P (x ∷ xs) b c h = All-last P xs b c h.1

-- Of a sorted table, the rows before one of its rows are those behind it.
select-behind :
    (a b : Table) (c : Notification)
    → IsNewestFirst (a ++ c ∷ b)
    → select (is_before c.created_at c.id) (a ++ c ∷ b) ≡ b
select-behind [] b c h = rw (is_before_irrefl c) (select_whole _ b h.0)
select-behind (x ∷ xs) b c h =
    rw (is_before_asym x c (All-last _ xs b c h.0)) (select-behind xs b c h.1)

All-select_test : (p : Notification → Bool) (t : Table) → All (λ r. p r ≡ true) (select p t)
All-select_test p [] = tt
All-select_test p (x ∷ xs) = elim (Bool-cases (p x)) [
  | inl e ↦ rw e (e, All-select_test p xs)
  | inr e ↦ rw e (All-select_test p xs)
]

select-select :
    (p g h : Notification → Bool)
    → ((r : Notification) → h r ≡ g r && p r)
    → (t : Table) → select h t ≡ select g (select p t)
select-select p g h e [] = refl
select-select p g h e (x ∷ xs) = elim (Bool-cases (p x)) [
  | inl y ↦ elim (Bool-cases (g x)) [
    | inl z ↦
        let hit : h x ≡ true = e x ∙ rw (y, z) refl in
        rw (hit, y, z) (ap (λ l. x ∷ l) (select-select p g h e xs))
    | inr z ↦
        let miss : h x ≡ false = e x ∙ rw (y, z) refl in rw (miss, y, z) (select-select p g h e xs)
  ]
  | inr y ↦
      let miss : h x ≡ false = e x ∙ ground (arith, y) in rw (miss, y) (select-select p g h e xs)
]

-- A row behind a row that passes the cursor passes it too.
passes_cursor-behind :
    (at id : Option ℕ) (c r : Notification)
    → passes_cursor at id c ≡ true
    → is_before c.created_at c.id r ≡ true
    → passes_cursor at id r ≡ true
unfolding passes_cursor is_before
passes_cursor-behind (some at) (some id) c r h k = ground arith
passes_cursor-behind none id c r h k = refl
passes_cursor-behind (some at) none c r h k = refl

-- The query for the page after a row.
abbrev pub next_page : ListQuery → Notification → ListQuery
next_page q c = record q { cursor_created_at = some c.created_at; cursor_id = some c.id }

abbrev pub test : ListQuery → Notification → Bool
test q r = passes q r && passes_cursor q.cursor_created_at q.cursor_id r

pub list_rows-test :
    (q : ListQuery) (t : Table)
    → IsKeyed t
    → list_rows q t ≡ take (row_limit q.limit) (select (test q) (newest_first t))
unfolding list_rows
list_rows-test q t k = ap (take (row_limit q.limit)) (select-newest_first (test q) t k)

-- The rows that the next page draws from are those behind the last row of the page.
pub next_page-rows :
    (q : ListQuery) (t a b : Table) (c : Notification)
    → IsKeyed t
    → select (test q) (newest_first t) ≡ a ++ c ∷ b
    → select (test (next_page q c)) (newest_first t) ≡ b
unfolding passes_cursor passes
next_page-rows q t a b c k e =
    let sorted = IsNewestFirst-select (test q) (newest_first t) (newest_first-IsNewestFirst t k) in
    let tested : test q c ≡ true =
      All-last (λ r. test q r ≡ true) a b c
        (subst (All (λ r. test q r ≡ true)) e (All-select_test (test q) (newest_first t))) in
    let same : (r : Notification)
        → test (next_page q c) r ≡ is_before c.created_at c.id r && test q r =
      λ r. agree r (Bool-cases (is_before c.created_at c.id r)) (ground arith) in
    select-select (test q) (is_before c.created_at c.id) (test (next_page q c)) same
      (newest_first t)
    ∙ ap (select (is_before c.created_at c.id)) e
    ∙ select-behind a b c (subst IsNewestFirst e sorted)
  where
    agree :
        (r : Notification)
        → (is_before c.created_at c.id r ≡ true) ⊎ (is_before c.created_at c.id r ≡ false)
        → passes_cursor q.cursor_created_at q.cursor_id c ≡ true
        → test (next_page q c) r ≡ is_before c.created_at c.id r && test q r
    agree r (inl h) p = rw (h, passes_cursor-behind q.cursor_created_at q.cursor_id c r p h) refl
    agree r (inr h) p = rw h (ground arith)

-- On a table with distinct identifiers, a page and the page that starts behind its last row make up,
-- in order, the listing with twice the limit: with any filters and any first cursor, paging by the
-- cursor `(created_at, id)` loses no row and repeats none, even among rows of one instant.
pub list_rows-next_page :
    (q : ListQuery) (t a : Table) (c : Notification)
    → IsKeyed t
    → list_rows q t ≡ a ++ c ∷ []
    → list_rows q t ++ list_rows (next_page q c) t
      ≡ list_rows (record q { limit = pos (row_limit q.limit + row_limit q.limit) }) t
unfolding list_rows
list_rows-next_page q t a c k e =
    let all = select (test q) (newest_first t) in
    let page : take (row_limit q.limit) all ≡ a ++ c ∷ [] = sym (list_rows-test q t k) ∙ e in
    let split : all ≡ a ++ c ∷ drop (row_limit q.limit) all =
      take-drop (row_limit q.limit) all
      ∙ ap (λ l. l ++ drop (row_limit q.limit) all) page
      ∙ append_snoc a (drop (row_limit q.limit) all) c in
    let next : list_rows (next_page q c) t
        ≡ take (row_limit q.limit) (drop (row_limit q.limit) all) =
      list_rows-test (next_page q c) t k
      ∙ ap (take (row_limit q.limit))
          (next_page-rows q t a (drop (row_limit q.limit) all) c k split) in
    ap (λ l. l ++ list_rows (next_page q c) t) (list_rows-test q t k)
    ∙ ap (λ l. take (row_limit q.limit) all ++ l) next
    ∙ take-add (row_limit q.limit) (row_limit q.limit) all
    ∙ sym (list_rows-test (record q { limit = pos (row_limit q.limit + row_limit q.limit) }) t k)
