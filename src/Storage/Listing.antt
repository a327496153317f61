-- ===== src/Storage/Listing.antt =====
-- `List` of internal/storage/postgres/repository.go: filters, a keyset cursor, newest first, a limit.
pub mod Pages
pub mod Next
use notifier.Base.{
  ℕ, ℤ, pos, negsuc, Bool, true, false, not, ◌&&◌, ◌||◌, List, [], ◌∷◌, Option, none, some, ltb,
  leb, ◌==◌, if◌then◌else◌, select, take,
}
use notifier.Domain.Status.{Channel, Status, channel_eq, status_eq}
use notifier.Domain.Errors.{external, wrapped, Result, ok, err}
use notifier.Domain.Notification.{Notification}
use notifier.Domain.List.{ListQuery, has_status_filter, has_channel_filter}
use notifier.Storage.Table.{Table}
use notifier.World.{World, query}

-- `(created_at, id) < (at, id)`, the comparison of rows.
unfoldable pub is_before : ℕ → ℕ → Notification → Bool
is_before at id r = ltb r.created_at at || (r.created_at == at && ltb r.id id)

abbrev same_batch : Option ℕ → Option ℕ → Bool
same_batch (some a) (some b) = a == b
same_batch _ _ = false

abbrev passes_batch : Option ℕ → Notification → Bool
passes_batch none r = true
passes_batch (some b) r = same_batch r.batch_id (some b)

abbrev passes_from : Option ℕ → Notification → Bool
passes_from none r = true
passes_from (some t) r = leb t r.created_at

abbrev passes_to : Option ℕ → Notification → Bool
passes_to none r = true
passes_to (some t) r = leb r.created_at t

-- The conditions but the cursor's, each only if its filter is given.
unfoldable pub passes : ListQuery → Notification → Bool
passes q r =
    (not (has_status_filter q.status) || status_eq r.status q.status)
    && ((not (has_channel_filter q.channel) || channel_eq r.channel q.channel)
        && (passes_batch q.batch_id r && (passes_from q.from r && passes_to q.to r)))

-- The cursor counts if both of its halves are given.
unfoldable pub passes_cursor : Option ℕ → Option ℕ → Notification → Bool
unfolding is_before
passes_cursor (some at) (some id) r = is_before at id r
passes_cursor _ _ r = true

unfoldable pub insert_newest : Notification → Table → Table
unfolding is_before
insert_newest r [] = r ∷ []
insert_newest r (x ∷ xs) =
    let rest = insert_newest r xs in if is_before r.created_at r.id x then r ∷ x ∷ xs else x ∷ rest

-- `ORDER BY created_at DESC, id DESC`
unfoldable pub newest_first : Table → Table
unfolding insert_newest
newest_first [] = []
newest_first (r ∷ rs) = insert_newest r (newest_first rs)

-- `LIMIT`: the rows that it lets through, and the error for one below 0.
abbrev pub row_limit : ℤ → ℕ
row_limit (pos n) = n
row_limit (negsuc n) = 0

abbrev pub check_limit : ℤ → Result Table → Result Table
check_limit (pos n) r = r
check_limit (negsuc n) (ok ns) = err (wrapped "list notifications" (external "negative limit"))
check_limit (negsuc n) (err e) = err e

unfoldable pub list_rows : ListQuery → Table → Table
unfolding passes passes_cursor newest_first
list_rows q t =
    take (row_limit q.limit)
      (newest_first (select (λ r. passes q r && passes_cursor q.cursor_created_at q.cursor_id r) t))

-- `List`
unfoldable pub list : ListQuery → World → Result Table × World
list q w =
    let (r, v) = query "list notifications" (λ now t. list_rows q t) w in (check_limit q.limit r, v)
