-- ===== src/Api/Crawl/Pages.antt =====
-- One page of `list` of internal/api/notifications.go: its rows and its next_cursor.
use notifier.Base.{
  String, ℤ, pos, negsuc, ℕ, zero, suc, ◌-◌, ◌≤◌, ◌≡◌, ◌≢◌, refl, ap, ◌∙◌, Bool, true, false, [],
  ◌∷◌, ◌++◌, Option, none, some, str_eq, eq_iff, select, take, drop, length, get_elem?, arith,
}
use notifier.Domain.Errors.{ok}
use notifier.Domain.Notification.{Notification}
use notifier.Domain.List.{ListQuery, validate_list}
use notifier.Storage.Table.{Table}
use notifier.Storage.Table.Keys.{IsKeyed}
use notifier.Storage.Listing.{passes, insert_newest, newest_first, list_rows}
use notifier.Storage.Listing.Next.{test, list_rows-test}
use notifier.World.{World}
use notifier.World.Quiet.{IsQuiet, query-quiet}
use notifier.Service.Listing as Listing
use notifier.Service.Listing.{clamp_limit}
use notifier.Api.Cursor.{ListCursor, Codec, encode_cursor}
use notifier.Api.Query.{Parsers, Params, parse_filters}
use notifier.Api.Notifications.{effective_limit, next_cursor}
use notifier.Api.Crawl.{at_cursor, at}

pub str_eq-false : (a b : String) → a ≢ b → str_eq a b ≡ false
str_eq-false a b h = ground (arith, eq_iff a b)

-- The filters are read from the other parameters.
pub filters-at_cursor :
    (codec : Codec) (parsers : Parsers) (from_first : Bool) (params : Params) (c : String)
    → parse_filters codec parsers from_first (at_cursor params c)
      ≡ parse_filters codec parsers from_first params
unfolding parse_filters
filters-at_cursor codec parsers true params c = refl
filters-at_cursor codec parsers false params c = refl

abbrev pub page_rows : ListQuery → Option ListCursor → World → Table
page_rows q c w = select (test (at q c)) (newest_first w.table)

pub effective_limit-clamp_limit : (n : ℤ) → effective_limit n ≡ clamp_limit n
unfolding clamp_limit
effective_limit-clamp_limit (pos n) = ground arith
effective_limit-clamp_limit (negsuc n) = refl

pub clamp_limit-positive : (n : ℤ) → clamp_limit n ≢ 0
unfolding clamp_limit
clamp_limit-positive (pos n) = ground arith
clamp_limit-positive (negsuc n) = λ e. omega (arith, e)

-- The service's answer to the query of a page.
pub list-page :
    (q : ListQuery) (c : Option ListCursor) (w : World)
    → IsQuiet w
    → IsKeyed w.table
    → validate_list q ≡ none
    → Listing.list (at q c) w ≡ (ok (take (clamp_limit q.limit) (page_rows q c w)), w)
unfolding Listing.list notifier.Service.Listing.after_query_check notifier.Storage.Listing.list
    validate_list passes
list-page q none w quiet keyed valid = rw valid (
    rw (query-quiet _ _ w quiet)
      (ap (λ l. (ok l, w)) (list_rows-test (Listing.clamped (at q none)) w.table keyed)))
list-page q (some c) w quiet keyed valid = rw valid (
    rw (query-quiet _ _ w quiet)
      (ap (λ l. (ok l, w)) (list_rows-test (Listing.clamped (at q (some c))) w.table keyed)))

-- A full page ends with a row, which its last index finds.
last_row :
    (l : ℕ) (t : Table)
    → length (take (suc l) t) ≡ suc l
    → (a : Table) × (r : Notification) × (take (suc l) t ≡ a ++ r ∷ [])
      × (get_elem? (take (suc l) t) l ≡ some r)
last_row zero [] h = absurd (omega arith)
last_row zero (x ∷ xs) h = ([], x, refl, refl)
last_row (suc l) [] h = absurd (omega arith)
last_row (suc l) (x ∷ xs) h =
    let (a, r, e, g) = last_row l xs (omega arith) in (x ∷ a, r, ap (λ t. x ∷ t) e, g)

pub take_short : (n : ℕ) (t : Table) → length (take n t) ≢ n → take n t ≡ t
take_short zero t h = absurd (h refl)
take_short (suc n) [] h = refl
take_short (suc n) (x ∷ xs) h = ap (λ t. x ∷ t) (take_short n xs (λ e. h (ap suc e)))

length-drop : (n : ℕ) (t : Table) → length (drop n t) ≡ length t - n
length-drop zero t = omega arith
length-drop (suc n) [] = omega arith
length-drop (suc n) (x ∷ xs) = omega (arith, length-drop n xs)

length-insert_newest : (r : Notification) (t : Table) → length (insert_newest r t) ≡ suc (length t)
unfolding insert_newest
length-insert_newest r [] = refl
length-insert_newest r (x ∷ xs) = ground (arith, length-insert_newest r xs)

pub length-newest_first : (t : Table) → length (newest_first t) ≡ length t
unfolding newest_first
length-newest_first [] = refl
length-newest_first (r ∷ rs) =
    length-insert_newest r (newest_first rs) ∙ ap suc (length-newest_first rs)

pub length-select : (p : Notification → Bool) (t : Table) → length (select p t) ≤ length t
length-select p [] = omega arith
length-select p (x ∷ xs) = ground (arith, length-select p xs)

module _ (codec : Codec) (quote : String → String) where
  -- A page that is not full gives no cursor, and a full one the cursor of its last row.
  pub next_cursor-short : (n : ℕ) (t : Table) → length t ≢ n → next_cursor quote codec n t ≡ ""
  unfolding next_cursor
  next_cursor-short n t h = ground arith

  next_cursor-full :
      (l : ℕ) (t : Table) (r : Notification)
      → length t ≡ suc l
      → get_elem? t l ≡ some r
      → next_cursor quote codec (suc l) t ≡ encode_cursor codec r.created_at r.id
  unfolding next_cursor
  next_cursor-full l t r h g = rw h (ground (arith, g))

  pub full_page :
      (n : ℕ) (t : Table)
      → n ≢ 0
      → length (take n t) ≡ n
      → (a : Table) × (r : Notification) × (take n t ≡ a ++ r ∷ [])
        × (next_cursor quote codec n (take n t) ≡ encode_cursor codec r.created_at r.id)
  full_page zero t h e = absurd (h refl)
  full_page (suc l) t h e =
      let (a, r, s, g) = last_row l t e in (a, r, s, next_cursor-full l (take (suc l) t) r e g)
