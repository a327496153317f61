-- ===== src/Api/Crawl.antt =====
-- Paging through `list` of internal/api/notifications.go: a client that follows next_cursor.
pub mod Pages
pub mod Complete
use notifier.Base.{
  String, ℕ, zero, suc, ◌+◌, ◌-◌, ◌≤◌, ◌<◌, ◌≡◌, ◌≢◌, refl, sym, ap, subst, ◌∙◌, Bool, true, false,
  List, [], ◌∷◌, ◌++◌, map, Option, none, some, ◌==◌, ==_iff, if◌then◌else◌, str_eq, eq_iff, select,
  take, drop, length, length-append, get_elem?, All, arith, Bool-cases, inl, inr,
}
use mathlib.Core.Option
use mathlib.Core.List.{map-append}
use notifier.Domain.Errors.{Result, ok, err, ◌>>=◌}
use notifier.Domain.Notification.{Notification}
use notifier.Domain.List.{ListQuery, validate_list}
use notifier.Storage.Table.{Table}
use notifier.Storage.Table.Keys.{IsKeyed}
use notifier.Storage.Listing.{passes, insert_newest, newest_first, list_rows}
use notifier.Storage.Listing.Pages.{All-select, All-newest_first}
use notifier.Storage.Listing.Next.{
  append_snoc, All-last, test, next_page, next_page-rows, list_rows-test, take-drop,
}
use notifier.World.{World}
use notifier.World.Quiet.{IsQuiet, query-quiet}
use notifier.Service.Listing as Listing
use notifier.Service.Listing.{clamp_limit}
use notifier.Api.Respond.{Response, json, failure}
use notifier.Api.Cursor.{
  ListCursor, Codec, IsLawful, encode_cursor, decode_cursor, decode_cursor-encode_cursor,
}
use notifier.Api.Query.{
  cursor_given, Parsers, Params, parse_filters, parse_cursor_param, parse_list_query,
}
use notifier.Api.Notifications.{
  NotificationResponse, to_notification_response, Page, effective_limit, next_cursor, list_query,
  list,
}

-- The same parameters with another cursor.
abbrev pub at_cursor : Params → String → Params
at_cursor params c name = if str_eq name "cursor" then c else params name

-- A row of a full page that can be named by a cursor.
abbrev pub IsNamed : Notification → Type 0
IsNamed r = (r.created_at ≢ 0) × (r.id ≢ 0)

abbrev pub at : ListQuery → Option ListCursor → ListQuery
at q none = q
at q (some c) = record q { cursor_created_at = some c.created_at; cursor_id = some c.id }

module _ (codec : Codec) (quote : String → String) (parsers : Parsers) (from_first : Bool) where
  abbrev pub cursor_in : Response Page → String
  cursor_in (json code page) = page.next_cursor
  cursor_in (failure code e) = ""

  -- The rows of a page, followed by those of the coming ones unless it is the last.
  abbrev pub joined :
      Response Page → Option (List NotificationResponse) → Option (List NotificationResponse)
  joined (failure code e) more = none
  joined (json code page) more =
      if str_eq page.next_cursor ""
      then some page.data_rows
      else Option.map (λ rows. page.data_rows ++ rows) more

  -- All rows that a client gets by requesting page after page, if it meets the last one.
  unfoldable pub crawl : ℕ → Params → World → Option (List NotificationResponse)
  crawl zero params w = none
  crawl (suc fuel) params w =
      let (r, v) = list quote codec parsers from_first params w in
      joined r (crawl fuel (at_cursor params (cursor_in r)) v)
