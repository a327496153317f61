-- ===== src/Service/Listing.antt =====
-- `List` of internal/service/notification.go: the limit is clamped, the query checked, the rows read.
use notifier.Base.{
  ℕ, ℤ, pos, negsuc, ◌≤◌, ◌≡◌, Option, none, some, ltb, ◌==◌, if◌then◌else◌, length, length-take,
  arith, select, subst,
}
use native.Mathlib.Nat.{le_trans}
use notifier.Domain.Errors.{Error, wrapped, Result, ok, err}
use notifier.Domain.List.{ListQuery, validate_list}
use notifier.Storage.Table.{Table}
use notifier.Storage.Listing.{newest_first, row_limit, check_limit, list_rows, list as list_stored}
use notifier.Storage.Listing.Next.{test}
use notifier.World.{World, Fate, served, refused, reply_lost, query, settle}

abbrev pub default_list_limit : ℕ
default_list_limit = 50

abbrev pub max_list_limit : ℕ
max_list_limit = 100

-- A limit below 1 takes the default, and one above the maximum takes that.
unfoldable pub clamp_limit : ℤ → ℕ
clamp_limit (pos n) =
    if n == 0 then default_list_limit else if ltb max_list_limit n then max_list_limit else n
clamp_limit (negsuc n) = default_list_limit

abbrev pub clamped : ListQuery → ListQuery
clamped q = record q { limit = pos (clamp_limit q.limit) }

abbrev listed : Result Table → Result Table
listed (ok ns) = ok ns
listed (err e) = err (wrapped "list notifications" e)

unfoldable pub after_query_check : ListQuery → Option Error → World → Result Table × World
after_query_check q (some e) w = (err e, w)
after_query_check q none w = let (r, v) = list_stored q w in (listed r, v)

-- `List`
unfoldable pub list : ListQuery → World → Result Table × World
list q w = after_query_check (clamped q) (validate_list (clamped q)) w

clamp_limit-bound : (n : ℤ) → clamp_limit n ≤ 100
unfolding clamp_limit
clamp_limit-bound (pos n) = ground arith
clamp_limit-bound (negsuc n) = omega arith

list_rows-length : (q : ListQuery) (t : Table) → length (list_rows q t) ≤ row_limit q.limit
unfolding list_rows
list_rows-length q t =
    omega (arith, length-take (row_limit q.limit) (newest_first (select (test q) t)))

settle-length :
    (f : Fate) (ns ms : Table) (v : World) (k : ℕ)
    → listed (settle f "list notifications" ns v v).0 ≡ ok ms
    → length ns ≤ k
    → length ms ≤ k
unfolding settle
settle-length served ns ms v k e h = let same : ns ≡ ms = cc in subst (λ l. length l ≤ k) same h
settle-length refused ns ms v k e h = absurd (cc)
settle-length reply_lost ns ms v k e h = absurd (cc)

listed-check_limit :
    (i : ℤ) (r : Result Table) (ns : Table) → listed (check_limit i r) ≡ ok ns → listed r ≡ ok ns
listed-check_limit (pos n) r ns h = h
listed-check_limit (negsuc n) (ok ms) ns h = absurd (cc)
listed-check_limit (negsuc n) (err e) ns h = absurd (cc)

after_query_check-length :
    (q : ListQuery) (e : Option Error) (w : World) (ns : Table)
    → (after_query_check q e w).0 ≡ ok ns
    → length ns ≤ row_limit q.limit
unfolding after_query_check list_stored query
after_query_check-length q (some e) w ns h = absurd (cc)
after_query_check-length q none w ns h =
    settle-length _ _ ns _ (row_limit q.limit) (listed-check_limit q.limit _ ns h)
      (list_rows-length q _)

-- Whatever limit a caller asks for and whatever becomes of the query, a listing has at most 100 rows.
pub list-length : (q : ListQuery) (w : World) (ns : Table) → (list q w).0 ≡ ok ns → length ns ≤ 100
unfolding list
list-length q w ns h =
    le_trans (after_query_check-length (clamped q) _ w ns h) (clamp_limit-bound q.limit)
