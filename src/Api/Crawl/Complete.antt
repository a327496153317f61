-- ===== src/Api/Crawl/Complete.antt =====
-- A client that follows next_cursor of internal/api/notifications.go gets every row.
use notifier.Base.{
  String, ℕ, zero, suc, ◌<◌, ◌≡◌, ◌≢◌, refl, sym, ap, subst, ◌∙◌, Bool, true, false, [], ◌∷◌, ◌++◌,
  map, Option, none, some, ◌==◌, if◌then◌else◌, str_eq, select, take, drop, length, length-append,
  All, arith, Bool-cases, inl, inr,
}
use mathlib.Core.Option
use mathlib.Core.List.{map-append}
use notifier.Domain.Errors.{Result, ok, err, ◌>>=◌}
use notifier.Domain.Notification.{Notification}
use notifier.Domain.List.{ListQuery, validate_list}
use notifier.Storage.Table.{Table}
use notifier.Storage.Table.Keys.{IsKeyed}
use notifier.Storage.Listing.{newest_first}
use notifier.Storage.Listing.Pages.{All-select, All-newest_first}
use notifier.Storage.Listing.Next.{append_snoc, All-last, test, next_page-rows, take-drop}
use notifier.World.{World}
use notifier.World.Quiet.{IsQuiet}
use notifier.Service.Listing.{clamp_limit}
use notifier.Api.Respond.{json}
use notifier.Api.Cursor.{
  ListCursor, Codec, IsLawful, encode_cursor, decode_cursor, decode_cursor-encode_cursor,
}
use notifier.Api.Query.{
  cursor_given, Parsers, Params, parse_filters, parse_cursor_param, parse_list_query,
}
use notifier.Api.Notifications.{
  to_notification_response, effective_limit, next_cursor, list_query, list,
}
use notifier.Api.Crawl.{at_cursor, at, IsNamed, cursor_in, joined, crawl}
use notifier.Api.Crawl.Pages.{
  str_eq-false, filters-at_cursor, page_rows, effective_limit-clamp_limit, clamp_limit-positive,
  list-page, take_short, length-newest_first, length-select, next_cursor-short, full_page,
}

module _ (codec : Codec) (quote : String → String) (parsers : Parsers) (from_first : Bool) where
  -- The parameters are those of the query, from this cursor on.
  record Asks (q : ListQuery) (params : Params) (c : Option ListCursor) : Type 0 where
    filters : parse_filters codec parsers from_first params ≡ ok q
    cursor : parse_cursor_param codec parsers q (params "cursor") ≡ ok (at q c)

  module _ (lawful : IsLawful codec) (w : World) (quiet : IsQuiet w) (keyed : IsKeyed w.table)
      (named : All IsNamed w.table) (q : ListQuery) (valid : validate_list q ≡ none) where
    abbrev page : Option ListCursor → Table
    page c = take (clamp_limit q.limit) (page_rows q c w)

    limit_at : (c : Option ListCursor) → effective_limit (at q c).limit ≡ clamp_limit q.limit
    limit_at none = effective_limit-clamp_limit q.limit
    limit_at (some c) = effective_limit-clamp_limit q.limit

    list-response :
        (params : Params) (c : Option ListCursor)
        → Asks q params c
        → list quote codec parsers from_first params w ≡ (
          json 200 (record {
            data_rows = map to_notification_response (page c);
            next_cursor = next_cursor quote codec (clamp_limit q.limit) (page c);
          }),
          w,
        )
    unfolding list list_query parse_list_query
    list-response params c asks = rw asks.filters (
        rw asks.cursor (
          rw (list-page q c w quiet keyed valid) (
            ap
              (λ n. (
                json 200 (record {
                  data_rows = map to_notification_response (page c);
                  next_cursor = next_cursor quote codec n (page c);
                }),
                w,
              ))
              (limit_at c))))

    abbrev cursor_of : Notification → ListCursor
    cursor_of r = record { created_at = r.created_at; id = r.id }

    Asks-next :
        (params : Params) (c : Option ListCursor) (r : Notification)
        → Asks q params c
        → IsNamed r
        → Asks q (at_cursor params (encode_cursor codec r.created_at r.id)) (some (cursor_of r))
    unfolding parse_cursor_param encode_cursor
    Asks-next params c r asks n =
        let read = (decode_cursor-encode_cursor codec lawful r.created_at r.id).1 n in
        record {
          filters =
              filters-at_cursor codec parsers from_first params
                (encode_cursor codec r.created_at r.id)
              ∙ asks.filters;
          cursor = rw (str_eq-false _ _ (lawful.nonempty (cursor_of r))) (rw read refl);
        }

    rows-IsNamed : (c : Option ListCursor) → All IsNamed (page_rows q c w)
    rows-IsNamed c =
        All-select IsNamed (test (at q c)) (newest_first w.table)
          (All-newest_first IsNamed w.table named)

    -- What is left behind the last row of a full page is what its cursor asks for.
    page_rows-next :
        (c : Option ListCursor) (a b : Table) (r : Notification)
        → page_rows q c w ≡ a ++ r ∷ b
        → page_rows q (some (cursor_of r)) w ≡ b
    page_rows-next none a b r e = next_page-rows q w.table a b r keyed e
    page_rows-next (some c) a b r e = next_page-rows (at q (some c)) w.table a b r keyed e

    split_page :
        (n : ℕ) (t a : Table) (r : Notification) → take n t ≡ a ++ r ∷ [] → t ≡ a ++ r ∷ drop n t
    split_page n t a r e = take-drop n t ∙ (ap (λ l. l ++ drop n t) e ∙ append_snoc a (drop n t) r)

    crawl-page :
        (fuel : ℕ) (params : Params) (c : Option ListCursor)
        → Asks q params c
        → let cursor = next_cursor quote codec (clamp_limit q.limit) (page c) in
          let shown = map to_notification_response (page c) in
          crawl codec quote parsers from_first (suc fuel) params w ≡ (
            if str_eq cursor ""
            then some shown
            else Option.map
                (λ rows. shown ++ rows)
                (crawl codec quote parsers from_first fuel (at_cursor params cursor) w))
    unfolding crawl
    crawl-page fuel params c asks =
        ap
          (λ z. joined codec quote parsers from_first z.0 (
            crawl codec quote parsers from_first fuel
              (at_cursor params (cursor_in codec quote parsers from_first z.0)) z.1))
          (list-response params c asks)

    rest_fits :
        (fuel : ℕ) (t a b : Table) (r : Notification)
        → t ≡ a ++ r ∷ b
        → length t < suc fuel
        → length b < fuel
    rest_fits fuel t a b r e h =
        let l : length t ≡ length (a ++ r ∷ b) = ap length e in
        omega (arith, l, length-append a (r ∷ b), h)

    abbrev Complete : Params → Option ListCursor → ℕ → Type 0
    Complete params c fuel =
        crawl codec quote parsers from_first fuel params w
        ≡ some (map to_notification_response (page_rows q c w))

    crawl-last :
        (fuel : ℕ) (params : Params) (c : Option ListCursor)
        → Asks q params c
        → length (page c) ≢ clamp_limit q.limit
        → Complete params c (suc fuel)
    crawl-last fuel params c asks short =
        crawl-page fuel params c asks
        ∙ rw (next_cursor-short codec quote (clamp_limit q.limit) (page c) short) (
            ap (λ t. some (map to_notification_response t))
              (take_short (clamp_limit q.limit) (page_rows q c w) short))

    crawl-more :
        (fuel : ℕ) (params : Params) (c : Option ListCursor) (a : Table) (r : Notification)
        → Asks q params c
        → page c ≡ a ++ r ∷ []
        → next_cursor quote codec (clamp_limit q.limit) (page c)
          ≡ encode_cursor codec r.created_at r.id
        → Complete
            (at_cursor params (encode_cursor codec r.created_at r.id))
            (some (cursor_of r))
            fuel
        → Complete params c (suc fuel)
    unfolding encode_cursor
    crawl-more fuel params c a r asks ends cursor more =
        let limit = clamp_limit q.limit in
        let rows = page_rows q c w in
        let rest = page_rows-next c a (drop limit rows) r (split_page limit rows a r ends) in
        crawl-page fuel params c asks
        ∙ rw cursor (
            rw (str_eq-false _ _ (lawful.nonempty (cursor_of r))) (
              rw more (
                ap some (
                  ap (λ t. map to_notification_response (page c) ++ map to_notification_response t)
                    rest
                  ∙ sym (map-append to_notification_response (page c) (drop limit rows))
                  ∙ ap (map to_notification_response) (sym (take-drop limit rows))))))

    crawl_from :
        (fuel : ℕ) (params : Params) (c : Option ListCursor)
        → Asks q params c
        → length (page_rows q c w) < fuel
        → Complete params c fuel
    crawl_from zero params c asks enough = absurd (omega (arith, enough))
    crawl_from (suc fuel) params c asks enough =
        elim (Bool-cases (length (page c) == clamp_limit q.limit)) [
          | inr short ↦ crawl-last fuel params c asks (ground arith)
          | inl full ↦
              let limit = clamp_limit q.limit in
              let rows = page_rows q c w in
              let (a, r, ends, cursor) =
                full_page codec quote limit rows (clamp_limit-positive q.limit) (ground arith) in
              let split = split_page limit rows a r ends in
              let all : All IsNamed (a ++ r ∷ drop limit rows) =
                subst (All IsNamed) split (rows-IsNamed c) in
              crawl-more fuel params c a r asks ends cursor (
                crawl_from fuel _ (some (cursor_of r))
                  (Asks-next params c r asks (All-last IsNamed a (drop limit rows) r all))
                  (subst (λ t. length t < fuel) (sym (page_rows-next c a (drop limit rows) r split))
                    (rest_fits fuel rows a (drop limit rows) r split enough)))
        ]

  chosen :
      (f q : ListQuery) (b : Bool) (r : Result ListCursor)
      → (if b then ok f else cursor_given codec parsers f r) ≡ ok q
      → (c : Option ListCursor) × (at f c ≡ q)
  chosen f q true r h = (none, cc)
  chosen f q false (ok c) h = (some c, cc)
  chosen f q false (err e) h = absurd (cc)

  -- Parameters that read as a query ask for its filters, from its cursor on.
  read_query :
      (params : Params) (q : ListQuery) (r : Result ListQuery)
      → parse_filters codec parsers from_first params ≡ r
      → (r >>= λ f. parse_cursor_param codec parsers f (params "cursor")) ≡ ok q
      → (f : ListQuery) × (c : Option ListCursor) × Asks f params c × (at f c ≡ q)
  unfolding parse_cursor_param
  read_query params q (err e) d h = absurd (cc)
  read_query params q (ok f) d h =
      let (c, same) =
        chosen f q (str_eq (params "cursor") "") (decode_cursor codec (params "cursor")) h in
      (f, c, record { filters = d; cursor = h ∙ ap ok (sym same) }, same)

validate_list-at :
    (f : ListQuery) (c : Option ListCursor) → validate_list (at f c) ≡ validate_list f
unfolding validate_list
validate_list-at f none = refl
validate_list-at f (some c) = refl

-- With no faults and no interference, on a table with distinct identifiers and with rows that have a
-- time and an identifier: if the parameters read as a valid query, a client that requests the listing
-- and then, as long as an answer has a next_cursor, requests it again with that cursor, meets the last
-- page after at most one request more than there are rows, and has then got every row that passes the
-- filters and the first cursor exactly once, newest first.
pub crawl_complete :
    (codec : Codec) (quote : String → String) (parsers : Parsers) (from_first : Bool)
    → IsLawful codec
    → (params : Params) (q : ListQuery) (w : World) (fuel : ℕ) → IsQuiet w
    → IsKeyed w.table
    → All IsNamed w.table
    → parse_list_query codec parsers from_first params ≡ ok q
    → validate_list q ≡ none
    → length w.table < fuel
    → crawl codec quote parsers from_first fuel params w
      ≡ some (map to_notification_response (select (test q) (newest_first w.table)))
unfolding parse_list_query
crawl_complete codec quote parsers from_first lawful params q w fuel quiet keyed named read valid
      enough =
    let (f, c, asks, same) = read_query codec quote parsers from_first params q _ refl read in
    let valid_filters : validate_list f ≡ none =
      sym (validate_list-at f c) ∙ (ap validate_list same ∙ valid) in
    let fits : length (select (test (at f c)) (newest_first w.table)) < fuel = omega (
      arith,
      enough,
      length-select (test (at f c)) (newest_first w.table),
      length-newest_first w.table,
    ) in
    crawl_from codec quote parsers from_first lawful w quiet keyed named f valid_filters fuel params
      c asks fits
    ∙ ap (λ z. some (map to_notification_response (select (test z) (newest_first w.table)))) same
